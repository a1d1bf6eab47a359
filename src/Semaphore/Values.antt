-- ===== src/Semaphore/Values.antt =====
-- Kernel/ipc/semaphore.c: the value of a semaphore by its id, under waits and signals.
use so_tp.Base.{
  ℕ, zero, suc, ◌+◌, ◌-◌, ◌≡◌, ◌≢◌, refl, sym, ◌∙◌, ap, inl, inr, ◌⊎◌, true, false, arith, Option,
  none, some, update_self, eq→==, ne→==, eq-cases,
}
use so_tp.Scheduler.{scheduler_current_process}
use so_tp.Semaphore.{
  SemaphoreTable, Outcome, returns, parks, set_slot, find_slot_from, find_slot_by_id, sem_get_by_id,
  signal_slot, sem_signal_by_id, wait_slot, sem_wait_by_id,
}
use so_tp.Semaphore.Slots.{find_slot_from-IsSlot}
use so_tp.Semaphore.Frame.{Touches, SameRunner, signal-Touches, set_slot-Touches}
use so_tp.Semaphore.Wait.{wait_takes, wait_slot_parks}

-- The slot that an id names does not change.
find_slot_from-Touches :
    (n i : ℕ) (t t' : SemaphoreTable) (j id : ℕ)
    → Touches t t' j
    → find_slot_from n i t' id ≡ find_slot_from n i t id
unfolding find_slot_from
find_slot_from-Touches zero i t t' j id h = refl
find_slot_from-Touches (suc n) i t t' j id h =
    rw (h.used_kept i, h.id_kept i, find_slot_from-Touches n (i + 1) t t' j id h) refl

get-Touches :
    (t t' : SemaphoreTable) (j id : ℕ) → Touches t t' j → sem_get_by_id t' id ≡ sem_get_by_id t id
unfolding sem_get_by_id find_slot_by_id
get-Touches t t' j id h = rw (find_slot_from-Touches 64 0 t t' j id h) refl

get_none : (t : SemaphoreTable) (id : ℕ) → id ≡ 0 → sem_get_by_id t id ≡ none
unfolding sem_get_by_id
get_none t id z = rw (eq→== id 0 z)

get_found : (t : SemaphoreTable) (id : ℕ) → id ≢ 0 → sem_get_by_id t id ≡ find_slot_from 64 0 t id
unfolding sem_get_by_id find_slot_by_id
get_found t id n = rw (ne→== id 0 n)

get-id : (t : SemaphoreTable) (id j : ℕ) → sem_get_by_id t id ≡ some j → (t.semaphores j).id ≡ id
get-id t id j e = elim (eq-cases id 0) [
  | inl z ↦ absurd (cc (e, get_none t id z))
  | inr n ↦ (find_slot_from-IsSlot 64 0 t id j (sym (get_found t id n) ∙ e)).0.1
]

abbrev pub value_at : SemaphoreTable → Option ℕ → ℕ
value_at t none = 0
value_at t (some j) = (t.semaphores j).value

-- The value of the semaphore with the id, and 0 if there is none.
abbrev pub value_of : SemaphoreTable → ℕ → ℕ
value_of t id = value_at t (sem_get_by_id t id)

pub Option-cases : (o : Option ℕ) → (o ≡ none) ⊎ ((j : ℕ) × (o ≡ some j))
Option-cases none = inl refl
Option-cases (some j) = inr (j, refl)

-- A step on the slot of another id keeps the value.
value_of-Touches :
    (t t' : SemaphoreTable) (i other id : ℕ)
    → sem_get_by_id t other ≡ some i
    → other ≢ id
    → Touches t t' i
    → value_of t' id ≡ value_of t id
value_of-Touches t t' i other id e n h = elim (Option-cases (sem_get_by_id t id)) [
  | inl z ↦ rw (get-Touches t t' i id h, z) refl
  | inr (j, z) ↦
      rw (get-Touches t t' i id h, z)
        (h.value_kept j
          (λ q. n (sym (get-id t other i e) ∙ (ap (λ k. (t.semaphores k).id) q ∙ get-id t id j z))))
]

-- What a step on the semaphore `other` keeps: who runs, and the values of the others.
pub record Spares (t t' : SemaphoreTable) (other : ℕ) : Type 0 where
  pub runner : SameRunner t'.sched t.sched
  pub values : (id : ℕ) → other ≢ id → value_of t' id ≡ value_of t id

Touches-Spares :
    (t t' : SemaphoreTable) (i other : ℕ)
    → sem_get_by_id t other ≡ some i
    → Touches t t' i
    → Spares t t' other
Touches-Spares t t' i other e h = record {
  runner = h.runner_kept;
  values = λ id n. value_of-Touches t t' i other id e n h;
}

same-Spares : (t : SemaphoreTable) (other : ℕ) → Spares t t other
same-Spares t other = record { runner = (refl, refl); values = λ id n. refl }

pub signal-Spares : (t : SemaphoreTable) (other : ℕ) → Spares t (sem_signal_by_id t other).0 other
unfolding sem_signal_by_id
signal-Spares t other = elim (Option-cases (sem_get_by_id t other)) [
  | inl e ↦ rw (e, sem_signal_by_id) (same-Spares t other)
  | inr (i, e) ↦
      rw (e, sem_signal_by_id) (Touches-Spares t (signal_slot t i) i other e (signal-Touches t i))
]

-- What is known of a wait by the id `id` that answers in `t`.
abbrev pub Answered : SemaphoreTable → ℕ → Outcome SemaphoreTable → Type 0
Answered t id (returns t' true) = Spares t t' id × (suc (value_of t' id) ≡ value_of t id)
Answered t id (returns t' false) = Spares t t' id
Answered t id (parks t') = Unit {0}

wait_nobody :
    (now : ℕ) (t : SemaphoreTable) (i : ℕ)
    → t.sched.current ≡ 0
    → wait_slot now t i ≡ returns t false
unfolding wait_slot scheduler_current_process
wait_nobody now t i z = rw (eq→== t.sched.current 0 z)

wait_slot-cases :
    (now : ℕ) (t : SemaphoreTable) (i : ℕ)
    → t.sched.current ≢ t.sched.idle_p
    → (wait_slot now t i ≡ returns t false)
      ⊎ (((wait_slot now t i
              ≡ returns
                  (set_slot t i (record (t.semaphores i) { value = (t.semaphores i).value - 1 }))
                  true)
            × ((t.semaphores i).value ≢ 0))
          ⊎ ((t' : SemaphoreTable) × (wait_slot now t i ≡ parks t')))
wait_slot-cases now t i n = elim (eq-cases t.sched.current 0) [
  | inl z ↦ inl (wait_nobody now t i z)
  | inr z ↦ elim (eq-cases (t.semaphores i).value 0) [
    | inl v ↦ inr (inr (_, wait_slot_parks now t i v z n))
    | inr v ↦ inr (inl (wait_takes now t i z v, v))
  ]
]

lowered-value :
    (t t' : SemaphoreTable) (i id : ℕ)
    → sem_get_by_id t id ≡ some i
    → (t.semaphores i).value ≢ 0
    → Touches t t' i
    → (t'.semaphores i).value ≡ (t.semaphores i).value - 1
    → suc (value_of t' id) ≡ value_of t id
lowered-value t t' i id e v h q = rw (get-Touches t t' i id h, e) (omega (arith, q, v))

wait_slot-Answered :
    (now : ℕ) (t : SemaphoreTable) (i id : ℕ)
    → sem_get_by_id t id ≡ some i
    → t.sched.current ≢ t.sched.idle_p
    → Answered t id (wait_slot now t i)
wait_slot-Answered now t i id e n = elim (wait_slot-cases now t i n) [
  | inl q ↦ rw q (same-Spares t id)
  | inr (inl (q, v)) ↦
      let h =
        set_slot-Touches t i (record (t.semaphores i) { value = (t.semaphores i).value - 1 }) refl
          refl in
      rw q (
        Touches-Spares t _ i id e h,
        lowered-value t _ i id e v h (ap (λ x. x.value) (update_self t.semaphores i _)),
      )
  | inr (inr (t', q)) ↦ rw q tt
]

-- A wait that returns touches no other semaphore, and takes one from the value if it answers 1.
pub wait-Answered :
    (now : ℕ) (t : SemaphoreTable) (id : ℕ)
    → t.sched.current ≢ t.sched.idle_p
    → Answered t id (sem_wait_by_id now t id)
unfolding sem_wait_by_id
wait-Answered now t id n = elim (Option-cases (sem_get_by_id t id)) [
  | inl e ↦ rw (e, sem_wait_by_id) (same-Spares t id)
  | inr (i, e) ↦ rw (e, sem_wait_by_id) (wait_slot-Answered now t i id e n)
]
