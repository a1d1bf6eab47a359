-- ===== src/Semaphore/Moved.antt =====
-- Kernel/ipc/semaphore.c, the loop of `sem_set_by_id`: what it makes of the run queues.
use so_tp.Base.{
  ℕ, zero, suc, ◌≡◌, ◌≢◌, ◌<◌, ◌%◌, refl, sym, ◌∙◌, ap, inl, inr, List, [], ◌∷◌, All, NotIn, ◌&&◌,
  ◌!=◌, ltb, update_ne, subst, ne→==, Bool-cases,
}
use so_tp.Queue.{address_limit}
use so_tp.State.{Processes, Scheduler, blocked, is_blocked}
use so_tp.Scheduler.{
  clamp_priority, set_state, set_priority, push_ready, ready_queue_push, make_ready, leave_blocked,
  remove_blocked, request_if_higher, scheduler_unblock_process,
}
use so_tp.Scheduler.Places.{ready_at, blocked_at, Lists, Represents}
use so_tp.Scheduler.Enqueue.{queue_priority, append_at}
use so_tp.Scheduler.Wake.{erase_at}
use so_tp.Semaphore.{SemaphoreTable, set_waiting_on_sem, dequeue_waiter, wake_waiter}
use so_tp.Semaphore.Signal.{dequeue-Dequeued, wake-Represents}

-- The lists once the processes `ws` are moved, one after the other, from the blocked queue to the ends of
-- the ready queues of their priorities in `c`.
abbrev pub moved_up : Processes → Lists → List ℕ → Lists
moved_up c f [] = f
moved_up c f (w ∷ ws) =
    moved_up c (append_at (erase_at f blocked_at w) (ready_at (queue_priority c w)) w) ws

-- The first `n` entries.
abbrev pub take : ℕ → List ℕ → List ℕ
take zero ws = []
take (suc n) [] = []
take (suc n) (w ∷ ws) = w ∷ take n ws

-- The control block of `x` has the state and the priority that it had.
abbrev SameRank : Scheduler → Scheduler → ℕ → Type 0
SameRank s' s x = (s'.procs.state x ≡ s.procs.state x) × (s'.procs.priority x ≡ s.procs.priority x)

SameRank-trans : (a b c : Scheduler) (x : ℕ) → SameRank a b x → SameRank b c x → SameRank a c x
SameRank-trans a b c x h k = (h.0 ∙ k.0, h.1 ∙ k.1)

request_if_higher-SameRank : (s : Scheduler) (p x : ℕ) → SameRank (request_if_higher s p) s x
unfolding request_if_higher
request_if_higher-SameRank s p x =
    elim (Bool-cases (s.current != 0 && ltb (s.procs.priority s.current) (s.procs.priority p))) [
      | inl e ↦ rw e (refl, refl)
      | inr e ↦ rw e (refl, refl)
    ]

make_ready-SameRank : (s : Scheduler) (p x : ℕ) → p ≢ 0 → p ≢ x → SameRank (make_ready s p) s x
unfolding make_ready ready_queue_push push_ready set_priority set_state
make_ready-SameRank s p x n k =
    rw (ne→== p 0 n) (update_ne s.procs.state p x _ k, update_ne s.procs.priority p x _ k)

leave_blocked-SameRank : (s : Scheduler) (p x : ℕ) → SameRank (leave_blocked s p) s x
unfolding leave_blocked remove_blocked
leave_blocked-SameRank s p x = elim (Bool-cases (is_blocked (s.procs.state p))) [
  | inl e ↦ rw e (refl, refl)
  | inr e ↦ rw e (refl, refl)
]

unblock-SameRank :
    (s : Scheduler) (p x : ℕ) → p ≢ 0 → p ≢ x → SameRank (scheduler_unblock_process s p) s x
unfolding scheduler_unblock_process
unblock-SameRank s p x n k = rw (ne→== p 0 n) (
    SameRank-trans (request_if_higher (make_ready (leave_blocked s p) p) p)
      (make_ready (leave_blocked s p) p) s x (request_if_higher-SameRank _ p x)
      (SameRank-trans (make_ready (leave_blocked s p) p) (leave_blocked s p) s x
        (make_ready-SameRank (leave_blocked s p) p x n k) (leave_blocked-SameRank s p x)))

wake-SameRank :
    (t : SemaphoreTable) (w x : ℕ) → w ≢ 0 → w ≢ x → SameRank (wake_waiter t w).sched t.sched x
unfolding wake_waiter set_waiting_on_sem
wake-SameRank t w x n k = unblock-SameRank _ w x n k

-- A process that waits, blocked, and has the priority that it has in `c`.
abbrev pub Asleep : Processes → Scheduler → ℕ → Type 0
Asleep c s x =
    (s.procs.state x ≡ blocked) × (s.procs.priority x ≡ c.priority x) × (x < address_limit)

Asleep-kept :
    (c : Processes) (s s' : Scheduler) (w : ℕ) (ws : List ℕ)
    → ((x : ℕ) → w ≢ x → SameRank s' s x)
    → NotIn w ws
    → All (Asleep c s) ws
    → All (Asleep c s') ws
Asleep-kept c s s' w [] k n a = tt
Asleep-kept c s s' w (x ∷ ws) k n a =
    let r = k x (λ e. n.0 (sym e)) in
    ((r.0 ∙ a.0.0, r.1 ∙ a.0.1, a.0.2), Asleep-kept c s s' w ws k n.1 a.1)

wake-Moved :
    (c : Processes) (t : SemaphoreTable) (w : ℕ) (f : Lists)
    → Represents t.sched f
    → w ≢ 0
    → Asleep c t.sched w
    → Represents
        (wake_waiter t w).sched
        (append_at (erase_at f blocked_at w) (ready_at (queue_priority c w)) w)
wake-Moved c t w f r z a =
    subst
      (λ pr.
        Represents (wake_waiter t w).sched
          (append_at (erase_at f blocked_at w) (ready_at (clamp_priority (pr % 256))) w))
      a.1 (wake-Represents t w r a.0 z a.2)

-- The same, behind the removal of `w` from the queue of the semaphore.
pub dequeue-Moved :
    (c : Processes) (t : SemaphoreTable) (i w : ℕ) (ws : List ℕ) (f : Lists)
    → Represents t.sched f
    → w ≢ 0
    → NotIn w ws
    → All (Asleep c t.sched) (w ∷ ws)
    → let t' = wake_waiter (dequeue_waiter t i).0 w in
      Represents t'.sched (append_at (erase_at f blocked_at w) (ready_at (queue_priority c w)) w)
      × All (Asleep c t'.sched) ws
dequeue-Moved c t i w ws f r z n a =
    let d = dequeue-Dequeued t i in
    let u : SemaphoreTable = (dequeue_waiter t i).0 in
    let same : (x : ℕ) → SameRank u.sched t.sched x =
      λ x. (ap (λ g. g x) d.state_kept, ap (λ g. g x) d.priority_kept) in
    (
      wake-Moved c u w f (d.queues_kept r) z (((same w).0 ∙ a.0.0), ((same w).1 ∙ a.0.1), a.0.2),
      Asleep-kept c t.sched (wake_waiter u w).sched w ws
          (λ x k.
            SameRank-trans (wake_waiter u w).sched u.sched t.sched x (wake-SameRank u w x z k)
              (same x))
          n a.1,
    )
