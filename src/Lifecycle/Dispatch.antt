-- ===== src/Lifecycle/Dispatch.antt =====
-- Kernel/proc/scheduler.c, `schedule`: the choice of the process that runs next.
use so_tp.Base.{
  zero, suc, Distinct, All, ℕ, ◌≡◌, ◌<◌, refl, sym, ◌∙◌, ap, subst, inl, inr, ◌⊎◌, List, [], ◌∷◌,
  ◌==◌, ◌!=◌, ◌&&◌, ltb, if◌then◌else◌, update, update_self, update_ne, eq→==, ne→==, Bool-cases,
  eq-cases,
}
use so_tp.State.{Scheduler, running}
use so_tp.Scheduler.{set_state, set_priority, set_wait_ticks, ready_queue_pop_highest, pop_below}
use so_tp.Scheduler.Places.{
  Place, ready_at, Lists, put_at, same_place, Represents, Free, Free-Represents, NotIn-elsewhere,
  Belongs,
}
use so_tp.Scheduler.Enqueue.{Represents-queues}
use so_tp.Scheduler.Moves.{Popped, pop_highest-Popped}
use so_tp.Queue.{process_queue_pop}
use so_tp.Scheduler.Block.{elem-Belongs}
use so_tp.Lifecycle.{run_process, restore_priority, start, dispatch}

-- The process taken from the head of a list is in no list then.
Free-tail :
    {s : Scheduler} {f : Lists} (x : Place) (p : ℕ) (xs : List ℕ)
    → Represents s f
    → f x ≡ p ∷ xs
    → Free (put_at f x xs) p
Free-tail {s} {f} x p xs r e y = elim (Bool-cases (same_place x y)) [
  | inl h ↦ rw h (subst (λ l. Distinct l) e (r.holds x).distinct).0
  | inr h ↦ rw h (
      NotIn-elsewhere s.procs x y p (f y) (subst (All (Belongs s.procs x)) e (r.belongs x)).0 h
        (r.belongs y))
]

run_process-Represents :
    {s : Scheduler} {f : Lists} (p : ℕ) → Represents s f → Free f p → Represents (run_process s p) f
unfolding run_process set_state set_wait_ticks
run_process-Represents {s} {f} p r n =
    Free-Represents _ p r n (λ q ne. (update_ne s.procs.state p q running ne, refl))

restore_priority-Represents :
    {s : Scheduler} {f : Lists} (p : ℕ)
    → Represents s f
    → Free f p
    → Represents (restore_priority s p) f
unfolding restore_priority set_priority
restore_priority-Represents {s} {f} p r n =
    elim (Bool-cases (p != s.idle_p && ltb (s.procs.base_priority p) (s.procs.priority p))) [
      | inl e ↦ rw e (Free-Represents _ p r n (λ q ne. (refl, update_ne s.procs.priority p q _ ne)))
      | inr e ↦ rw e r
    ]

state-restore_priority :
    (s : Scheduler) (p : ℕ) → (restore_priority s p).procs.state ≡ s.procs.state
unfolding restore_priority set_priority
state-restore_priority s p =
    elim (Bool-cases (p != s.idle_p && ltb (s.procs.base_priority p) (s.procs.priority p))) [
      | inl e ↦ rw e refl
      | inr e ↦ rw e refl
    ]

state-run_process : (s : Scheduler) (p : ℕ) → (run_process s p).procs.state p ≡ running
unfolding run_process set_state set_wait_ticks
state-run_process s p = update_self s.procs.state p running

-- The process `p` runs, and the queues hold the lists `f`.
abbrev pub Runs : Scheduler → Lists → ℕ → Type 0
Runs s f p = (s.current ≡ p) × (s.procs.state p ≡ running) × Represents s f

start-Runs :
    {s : Scheduler} {f : Lists} (now p : ℕ) → Represents s f → Free f p → Runs (start now s p) f p
unfolding start
start-Runs {s} {f} now p r n = (
  refl,
  (ap (λ g. g p) (state-restore_priority (run_process s p) p) ∙ state-run_process s p),
  Represents-queues
      (restore_priority-Represents {s = run_process s p} p (run_process-Represents p r n) n) refl
      refl refl refl refl,
)

idle-pop_below : (n : ℕ) (s : Scheduler) → (pop_below n s).0.idle_p ≡ s.idle_p
unfolding pop_below
idle-pop_below zero s = refl
idle-pop_below (suc pr) s =
    let q = process_queue_pop s.links (s.ready_queues pr) in
    elim (eq-cases q.2 0) [
      | inl e ↦ rw (eq→== q.2 0 e) (
          idle-pop_below pr (record s { links = q.0; ready_queues = update s.ready_queues pr q.1 }))
      | inr m ↦ rw (ne→== q.2 0 m) refl
    ]

idle-pop_highest : (s : Scheduler) → (ready_queue_pop_highest s).0.idle_p ≡ s.idle_p
unfolding ready_queue_pop_highest
idle-pop_highest s = idle-pop_below 3 s

dispatched : ℕ → Scheduler × ℕ → Scheduler
dispatched now (s, p) = start now s (if p == 0 then s.idle_p else p)

dispatch_split :
    (now : ℕ) (s : Scheduler) → dispatch now s ≡ dispatched now (ready_queue_pop_highest s)
unfolding dispatch dispatched
dispatch_split now s = refl

-- `dispatch-Runs` from the answer of the pop.
dispatched-Runs :
    {s : Scheduler} {f : Lists} (now p : ℕ) (u : Scheduler)
    → Represents s f
    → Free f s.idle_p
    → u.idle_p ≡ s.idle_p
    → Popped 3 f (u, p)
    → (((k : ℕ) → k < 3 → f (ready_at k) ≡ []) × Runs (dispatched now (u, p)) f s.idle_p)
      ⊎ ((pr q : ℕ) × (xs : List ℕ) × (pr < 3)
          × (f (ready_at pr) ≡ q ∷ xs)
          × ((k : ℕ) → pr < k → k < 3 → f (ready_at k) ≡ [])
          × Runs (dispatched now (u, p)) (put_at f (ready_at pr) xs) q)
unfolding dispatched
dispatched-Runs {s} {f} now p u r n i (inl (z, none, h)) = inl (
  none,
  rw (eq→== p 0 z) (
      subst (Runs (start now u u.idle_p) f) i
        (start-Runs now u.idle_p h (subst (Free f) (sym i) n))),
)
dispatched-Runs {s} {f} now p u r n i (inr (pr, xs, lt, e, above, h)) = inr (
  pr,
  p,
  xs,
  lt,
  e,
  above,
  rw (ne→== p 0 (elem-Belongs (ready_at pr) p r (rw (e, eq→== p p refl) refl)).1)
      (start-Runs now p h (Free-tail (ready_at pr) p xs r e)),
)

-- The next process to run is the oldest of the highest priority that has a ready process; it leaves
-- its queue, runs, and nothing else changes place. The idle process, which is in no queue, runs
-- only if no process is ready. The highest priority is the largest number, 2, as in the code;
-- README.md says that it is 0.
pub dispatch-Runs :
    {s : Scheduler} {f : Lists} (now : ℕ)
    → Represents s f
    → Free f s.idle_p
    → let s' = dispatch now s in
      (((k : ℕ) → k < 3 → f (ready_at k) ≡ []) × Runs s' f s.idle_p)
      ⊎ ((pr p : ℕ) × (xs : List ℕ) × (pr < 3)
          × (f (ready_at pr) ≡ p ∷ xs)
          × ((k : ℕ) → pr < k → k < 3 → f (ready_at k) ≡ [])
          × Runs s' (put_at f (ready_at pr) xs) p)
dispatch-Runs {s} {f} now r n = rw (dispatch_split now s) (
    dispatched-Runs now (ready_queue_pop_highest s).1 (ready_queue_pop_highest s).0 r n
      (idle-pop_highest s) (pop_highest-Popped s f r))
