-- ===== src/Tests/Semaphores.antt =====
-- A table of semaphores: slot 0 at the value 1, slot 1 at 0 with the blocked process 48 waiting.
use so_tp.Base.{
  ℕ, ◌≡◌, ◌≢◌, ◌<◌, ◌⊎◌, refl, sym, ap, ◌∙◌, true, false, [], ◌∷◌, arith, some, ◌==◌, if◌then◌else◌,
  inl, inr, eq-cases, ne→==,
}
use so_tp.Scheduler.Places.{ready_at, blocked_at, Represents}
use so_tp.Scheduler.Enqueue.{append_at, queue_priority}
use so_tp.Scheduler.Wake.{erase_at}
use so_tp.Scheduler.Block.{Stopped}
use so_tp.Semaphore.{
  Semaphore, SemaphoreTable, returns, parks, wait_slot, signal_slot, set_slot_value, sem_get_by_id,
  sem_alloc,
}
use so_tp.Semaphore.Waiters.{Waiters}
use so_tp.Semaphore.Signal.{signal_wakes}
use so_tp.Semaphore.Wait.{wait-signal, wait_parks}
use so_tp.Semaphore.Moved.{moved_up}
use so_tp.Semaphore.Set.{set_slot_value-Waiters}
use so_tp.Semaphore.Slots.{IdsValid, IsSlot, sem_get_by_id-IsSlot, sem_alloc_lem}
use so_tp.Tests.Schedules.{
  scheduler, lists, processes, scheduler-Represents, current-Free, sample_limit,
}

abbrev slots : ℕ → Semaphore
slots i =
    if i == 0
    then record { used = true; id = 1; refcount = 1; value = 1; wait_head = 0; wait_tail = 0 }
    else if i == 1
    then record { used = true; id = 2; refcount = 1; value = 0; wait_head = 48; wait_tail = 48 }
    else record { used = false; id = 0; refcount = 0; value = 0; wait_head = 0; wait_tail = 0 }

abbrev pub table : SemaphoreTable
table = record { sched = scheduler; semaphores = slots; next_sem_id = 3 }

slot_zero-Waiters : Waiters table 0 []
slot_zero-Waiters = record { linked = tt; head_first = refl; tail_last = refl; distinct = tt }

slot_one-Waiters : Waiters table 1 (48 ∷ [])
slot_one-Waiters = record {
  linked = omega arith;
  head_first = refl;
  tail_last = refl;
  distinct = omega arith;
}

wait-signal_example :
    (u : SemaphoreTable) × (wait_slot 7 (signal_slot table 0) 0 ≡ returns u true)
    × ((j : ℕ) → u.semaphores j ≡ slots j)
    × (u.sched ≡ scheduler)
wait-signal_example = wait-signal 7 table 0 slot_zero-Waiters (omega arith)

set_slot_value-Waiters_example :
    let t' = set_slot_value table 1 3 in
    Waiters t' 1 []
    × ((t'.semaphores 1).value ≡ 2)
    × Represents t'.sched (moved_up processes lists (48 ∷ []))
set_slot_value-Waiters_example =
    set_slot_value-Waiters table 1 3 (48 ∷ []) lists slot_one-Waiters scheduler-Represents
      ((refl, sample_limit 48 (omega arith)), tt)

signal_wakes_example :
    let t' = signal_slot table 1 in
    Waiters t' 1 []
    × ((t'.semaphores 1).value ≡ 0)
    × Represents t'.sched
        (append_at (erase_at lists blocked_at 48) (ready_at (queue_priority processes 48)) 48)
signal_wakes_example =
    signal_wakes table 1 48 [] lists slot_one-Waiters scheduler-Represents refl
      (sample_limit 48 (omega arith))

wait_parks_example :
    (t' : SemaphoreTable) × (wait_slot 7 table 1 ≡ parks t')
    × Waiters t' 1 (48 ∷ 64 ∷ [])
    × ((t'.semaphores 1).value ≡ 0)
    × Stopped t'.sched lists 64
wait_parks_example =
    wait_parks 7 table 1 (48 ∷ []) lists refl slot_one-Waiters (omega arith) scheduler-Represents
      current-Free (omega arith) (omega arith)

-- The slots in use are 0 and 1.
used_slot : (i : ℕ) → (slots i).used ≡ true → ((i ≡ 0) ⊎ (i ≡ 1))
used_slot i u = elim (eq-cases i 0) [
  | inl e ↦ inl e
  | inr n ↦ elim (eq-cases i 1) [
    | inl e ↦ inr e
    | inr m ↦ absurd (cc (u, ne→== i 0 n, ne→== i 1 m))
  ]
]

one_ne_two : (i j : ℕ) → i ≡ 0 → j ≡ 1 → (slots i).id ≢ (slots j).id
one_ne_two i j e d h =
    absurd (omega (arith, sym (ap (λ k. (slots k).id) e) ∙ (h ∙ ap (λ k. (slots k).id) d)))

table-IdsValid : IdsValid table
table-IdsValid = record {
  next_pos = omega arith;
  id_pos = λ i u. elim (used_slot i u) [ inl e ↦ rw e (omega arith) | inr e ↦ rw e (omega arith) ];
  id_below =
      λ i u. elim (used_slot i u) [ inl e ↦ rw e (omega arith) | inr e ↦ rw e (omega arith) ];
  id_unique = λ i j u v h. elim (used_slot i u) [
    | inl e ↦ elim (used_slot j v) [ inl d ↦ e ∙ sym d | inr d ↦ absurd (one_ne_two i j e d h) ]
    | inr e ↦ elim (used_slot j v) [
      | inl d ↦ absurd (one_ne_two j i d e (sym h))
      | inr d ↦ e ∙ sym d
    ]
  ];
}

sem_get_by_id-IsSlot_example :
    (sem_get_by_id table 2 ≡ some 1 → IsSlot table 2 1 × (1 < 64))
    × (IsSlot table 2 1 → 1 < 64 → sem_get_by_id table 2 ≡ some 1)
sem_get_by_id-IsSlot_example = sem_get_by_id-IsSlot table 2 1 table-IdsValid

sem_alloc_example :
    let (t', id) = sem_alloc table 5 in
    ((id ≡ 0) × (t' ≡ table) × ((j : ℕ) → j < 64 → (slots j).used ≡ true))
    ⊎ ((j : ℕ) × ((slots j).used ≡ false)
        × (id ≡ 3)
        × (sem_get_by_id t' id ≡ some j)
        × ((t'.semaphores j).value ≡ 5)
        × ((k : ℕ) → j ≢ k → t'.semaphores k ≡ slots k)
        × IdsValid t')
sem_alloc_example = sem_alloc_lem table 5 table-IdsValid (omega arith)
