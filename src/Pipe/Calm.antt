-- ===== src/Pipe/Calm.antt =====
-- Kernel/ipc/pipe.c: what the transfers do to the semaphores of their pipe, and that they end.
use so_tp.Base.{
  ℕ, suc, ◌≡◌, ◌≢◌, refl, sym, ◌∙◌, subst, inl, inr, Bool, true, false, update_self, ◌==◌, ltb,
  Bool-cases, ◌&&◌,
}
use so_tp.Semaphore.{SemaphoreTable, returns, parks, sem_wait_by_id}
use so_tp.Semaphore.Values.{Spares, Answered, value_of, signal-Spares, wait-Answered}
use so_tp.Pipe.{Pipe, PipeTable, signal, set_pipe}
use so_tp.Pipe.Transfer.{
  Transfer, cut_off, Locked, stops, moves, must_wait, take_byte, put_byte, read_locked,
  write_locked, waited,
}

-- The transfer was cut off by its fuel.
abbrev pub is_cut : Transfer → Bool
is_cut (cut_off t bytes) = true
is_cut _ = false

-- The ids of the semaphores of a pipe.
abbrev pub Ids : Pipe → ℕ → ℕ → ℕ → Type 0
Ids p m x y = (p.mutex ≡ m) × (p.sem_items ≡ x) × (p.sem_spaces ≡ y)

-- The semaphores of the pipe `i` are `m`, `x` and `y`, a process that is not the idle process
-- runs, and the semaphore `z` has the value `v`.
pub record Calm (t : PipeTable) (i m x y z v : ℕ) : Type 0 where
  pub ids : Ids (t.pipes i) m x y
  pub not_idle : t.sems.sched.current ≢ t.sems.sched.idle_p
  pub value : value_of t.sems z ≡ v

Spares-Calm :
    (t t' : PipeTable) (i m x y z v other : ℕ)
    → t'.pipes ≡ t.pipes
    → Spares t.sems t'.sems other
    → other ≢ z
    → Calm t i m x y z v
    → Calm t' i m x y z v
Spares-Calm t t' i m x y z v other e s n c = record {
  ids = subst (λ p. Ids (p i) m x y) (sym e) c.ids;
  not_idle = λ h. c.not_idle (sym s.runner.0 ∙ (h ∙ s.runner.1));
  value = s.values z n ∙ c.value;
}

signal-Calm :
    (t : PipeTable) (i m x y z v other : ℕ)
    → other ≢ z
    → Calm t i m x y z v
    → Calm (signal t other) i m x y z v
unfolding signal
signal-Calm t i m x y z v other n c =
    Spares-Calm t _ i m x y z v other refl (signal-Spares t.sems other) n c

set_pipe-Calm :
    (t : PipeTable) (i m x y z v : ℕ) (p : Pipe)
    → Ids p m x y
    → Calm t i m x y z v
    → Calm (set_pipe t i p) i m x y z v
unfolding set_pipe
set_pipe-Calm t i m x y z v p d c = record {
  ids = subst (λ q. Ids q m x y) (sym (update_self t.pipes i p)) d;
  not_idle = c.not_idle;
  value = c.value;
}

-- What the code that holds the mutex leaves when it does not stop.
abbrev pub LockedCalm : ℕ → ℕ → ℕ → ℕ → ℕ → ℕ → Locked → Type 0
LockedCalm i m x y z v (stops t) = Unit {0}
LockedCalm i m x y z v (moves t b) = Calm t i m x y z v
LockedCalm i m x y z v (must_wait t) = Calm t i m x y z v

Ids-take_byte : (p : Pipe) (m x y : ℕ) → Ids p m x y → Ids (take_byte p) m x y
unfolding take_byte
Ids-take_byte p m x y d = d

Ids-put_byte : (p : Pipe) (b m x y : ℕ) → Ids p m x y → Ids (put_byte p b) m x y
unfolding put_byte
Ids-put_byte p b m x y d = d

pub read_locked-LockedCalm :
    (t : PipeTable) (i m x y v : ℕ)
    → m ≢ x
    → y ≢ x
    → Calm t i m x y x v
    → LockedCalm i m x y x v (read_locked t i)
unfolding read_locked
read_locked-LockedCalm t i m x y v nm ny c =
    elim (Bool-cases ((t.pipes i).count == 0 && (t.pipes i).writers == 0)) [
      | inl e ↦ rw e tt
      | inr e ↦ elim (Bool-cases (ltb 0 (t.pipes i).count)) [
        | inl g ↦
            rw (e, g)
              (signal-Calm _ i m x y x v (t.pipes i).sem_spaces (λ h. ny (sym c.ids.2 ∙ h))
                (signal-Calm _ i m x y x v (t.pipes i).mutex (λ h. nm (sym c.ids.0 ∙ h))
                  (set_pipe-Calm t i m x y x v _ (Ids-take_byte (t.pipes i) m x y c.ids) c)))
        | inr g ↦
            rw (e, g) (signal-Calm t i m x y x v (t.pipes i).mutex (λ h. nm (sym c.ids.0 ∙ h)) c)
      ]
    ]

pub write_locked-LockedCalm :
    (t : PipeTable) (i b m x y v : ℕ)
    → m ≢ y
    → x ≢ y
    → Calm t i m x y y v
    → LockedCalm i m x y y v (write_locked t i b)
unfolding write_locked
write_locked-LockedCalm t i b m x y v nm nx c = elim (Bool-cases ((t.pipes i).readers == 0)) [
  | inl e ↦ rw e tt
  | inr e ↦ elim (Bool-cases (ltb (t.pipes i).count 4096)) [
    | inl g ↦
        rw (e, g)
          (signal-Calm _ i m x y y v (t.pipes i).sem_items (λ h. nx (sym c.ids.1 ∙ h))
            (signal-Calm _ i m x y y v (t.pipes i).mutex (λ h. nm (sym c.ids.0 ∙ h))
              (set_pipe-Calm t i m x y y v _ (Ids-put_byte (t.pipes i) b m x y c.ids) c)))
    | inr g ↦ rw (e, g) (signal-Calm t i m x y y v (t.pipes i).mutex (λ h. nm (sym c.ids.0 ∙ h)) c)
  ]
]

-- A wait that goes on has kept the other semaphores, and lowered the one that it waits for.
pub waited-Answered {ℓ} :
    (P : Transfer → Type ℓ) (now : ℕ) (t : PipeTable) (id : ℕ)
    (go refused parked : PipeTable → Transfer)
    → t.sems.sched.current ≢ t.sems.sched.idle_p
    → ((s : SemaphoreTable)
        → Spares t.sems s id
        → suc (value_of s id) ≡ value_of t.sems id
        → P (go (record t { sems = s })))
    → ((u : PipeTable) → P (refused u))
    → ((u : PipeTable) → P (parked u))
    → P (waited now t id go refused parked)
unfolding waited
waited-Answered P now t id go refused parked n a b c =
    elim (sem_wait_by_id now t.sems id)
        as (λ r.
          Answered t.sems id r
          → P (elim r [
            | returns s b' ↦
                let t' = record t { sems = s } in elim b' [ true ↦ go t' | false ↦ refused t' ]
            | parks s ↦ parked (record t { sems = s })
          ])) [
            | returns s true ↦ λ h. a s h.0 h.1
            | returns s false ↦ λ h. b (record t { sems = s })
            | parks s ↦ λ h. c (record t { sems = s })
          ]
      (wait-Answered now t.sems id n)

-- The wait for the mutex keeps the pipe calm; that for the counted semaphore lowers its value.
pub waited_other :
    (t : PipeTable) (i m x y z v other : ℕ) (s : SemaphoreTable)
    → other ≢ z
    → Spares t.sems s other
    → Calm t i m x y z v
    → Calm (record t { sems = s }) i m x y z v
waited_other t i m x y z v other s n h c = Spares-Calm t _ i m x y z v other refl h n c

pub waited_own :
    (t : PipeTable) (i m x y z v own : ℕ) (s : SemaphoreTable)
    → own ≡ z
    → Spares t.sems s own
    → suc (value_of s own) ≡ value_of t.sems own
    → Calm t i m x y z v
    → Calm (record t { sems = s }) i m x y z (value_of s z) × (suc (value_of s z) ≡ v)
waited_own t i m x y z v own s e h k c = (
  record {
    ids = c.ids;
    not_idle = λ q. c.not_idle (sym h.runner.0 ∙ (q ∙ h.runner.1));
    value = refl;
  },
  (subst (λ n. suc (value_of s n) ≡ value_of t.sems n) e k ∙ c.value),
)
