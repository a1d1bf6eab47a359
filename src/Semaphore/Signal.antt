-- ===== src/Semaphore/Signal.antt =====
-- Kernel/ipc/semaphore.c: what a wait and a signal do to the value, to the queue of waiting
-- processes and to the run queues.
use so_tp.Base.{
  ℕ, ◌%◌, ◌≡◌, ◌≢◌, ◌<◌, refl, ◌∙◌, ap, subst, inl, inr, List, [], ◌∷◌, ◌!=◌, ltb, if◌then◌else◌,
  update_self, eq→==, ne→==, Bool-cases, eq-cases, ◌&&◌,
}
use so_tp.Queue.{address_limit}
use so_tp.State.{Scheduler, blocked, is_blocked}
use so_tp.Scheduler.{
  clamp_priority, set_state, set_priority, push_ready, ready_queue_push, make_ready, leave_blocked,
  remove_blocked, request_if_higher, scheduler_unblock_process,
}
use so_tp.Scheduler.Places.{ready_at, blocked_at, Lists, Represents}
use so_tp.Scheduler.Enqueue.{queue_priority, append_at, Represents-procs}
use so_tp.Scheduler.Wake.{erase_at, unblock-Represents}
use so_tp.Semaphore.{
  SemaphoreTable, set_sem_next, set_waiting_on_sem, dequeue_waiter, wake_waiter, raise_value,
  signal_slot,
}
use so_tp.Semaphore.Waiters.{Waiters, dequeue-Waiters}

-- The scheduler does not write the links of the semaphores.
abbrev SameNext : Scheduler → Scheduler → Type 0
SameNext s' s = s'.procs.sem_waiter_next ≡ s.procs.sem_waiter_next

request_if_higher-SameNext : (s : Scheduler) (p : ℕ) → SameNext (request_if_higher s p) s
unfolding request_if_higher
request_if_higher-SameNext s p =
    elim (Bool-cases (s.current != 0 && ltb (s.procs.priority s.current) (s.procs.priority p))) [
      | inl e ↦ rw e
      | inr e ↦ rw e
    ]

make_ready-SameNext : (s : Scheduler) (p : ℕ) → SameNext (make_ready s p) s
unfolding make_ready ready_queue_push push_ready set_priority set_state
make_ready-SameNext s p = elim (eq-cases p 0) [
  | inl e ↦ rw (eq→== p 0 e)
  | inr n ↦ rw (ne→== p 0 n)
]

leave_blocked-SameNext : (s : Scheduler) (p : ℕ) → SameNext (leave_blocked s p) s
unfolding leave_blocked remove_blocked
leave_blocked-SameNext s p = elim (Bool-cases (is_blocked (s.procs.state p))) [
  | inl e ↦ rw e
  | inr e ↦ rw e
]

unblock-SameNext : (s : Scheduler) (p : ℕ) → SameNext (scheduler_unblock_process s p) s
unfolding scheduler_unblock_process
unblock-SameNext s p = elim (eq-cases p 0) [
  | inl e ↦ rw (eq→== p 0 e)
  | inr n ↦
      rw (ne→== p 0 n)
        (request_if_higher-SameNext _ p ∙ (make_ready-SameNext _ p ∙ leave_blocked-SameNext s p))
]

pub wake-Waiters :
    (t : SemaphoreTable) (i w : ℕ) (ws : List ℕ) → Waiters t i ws → Waiters (wake_waiter t w) i ws
unfolding wake_waiter set_waiting_on_sem
wake-Waiters t i w ws h = record {
  linked = rw (unblock-SameNext _ w) h.linked;
  head_first = h.head_first;
  tail_last = h.tail_last;
  distinct = h.distinct;
}

-- What `dequeue_waiter` leaves alone.
pub record Dequeued (t t' : SemaphoreTable) (i : ℕ) : Type 0 where
  pub value_kept : (t'.semaphores i).value ≡ (t.semaphores i).value
  pub state_kept : t'.sched.procs.state ≡ t.sched.procs.state
  pub priority_kept : t'.sched.procs.priority ≡ t.sched.procs.priority
  pub queues_kept : {f : Lists} → Represents t.sched f → Represents t'.sched f

pub dequeue-Dequeued : (t : SemaphoreTable) (i : ℕ) → Dequeued t (dequeue_waiter t i).0 i
unfolding dequeue_waiter set_sem_next
dequeue-Dequeued t i = elim (eq-cases (t.semaphores i).wait_head 0) [
  | inl e ↦
      rw (eq→== (t.semaphores i).wait_head 0 e) (record {
        value_kept = refl;
        state_kept = refl;
        priority_kept = refl;
        queues_kept = λ r. r;
      })
  | inr n ↦ rw (ne→== (t.semaphores i).wait_head 0 n) (record {
    value_kept = ap (λ v. v.value) (update_self t.semaphores i _);
    state_kept = refl;
    priority_kept = refl;
    queues_kept = λ r. Represents-procs _ r refl refl;
  })
]

signal_split : SemaphoreTable × ℕ → ℕ → SemaphoreTable
signal_split (t', w) i = if w != 0 then wake_waiter t' w else raise_value t' i

signal_slot_split :
    (t : SemaphoreTable) (i : ℕ) → signal_slot t i ≡ signal_split (dequeue_waiter t i) i
unfolding signal_slot signal_split
signal_slot_split t i = refl

dequeue_none :
    (t : SemaphoreTable) (i : ℕ) → (t.semaphores i).wait_head ≡ 0 → dequeue_waiter t i ≡ (t, 0)
unfolding dequeue_waiter
dequeue_none t i e = rw (eq→== (t.semaphores i).wait_head 0 e)

-- A signal that finds no process waiting raises the value by one, and does nothing else.
pub signal_nobody :
    (t : SemaphoreTable) (i : ℕ) → Waiters t i [] → signal_slot t i ≡ raise_value t i
unfolding signal_split
signal_nobody t i w = rw (signal_slot_split t i, dequeue_none t i w.head_first)

pub wake-Represents :
    (t : SemaphoreTable) {f : Lists} (w : ℕ)
    → Represents t.sched f
    → t.sched.procs.state w ≡ blocked
    → w ≢ 0
    → w < address_limit
    → Represents
        (wake_waiter t w).sched
        (append_at (erase_at f blocked_at w) (ready_at (queue_priority t.sched.procs w)) w)
unfolding wake_waiter set_waiting_on_sem
wake-Represents t w r st z a = unblock-Represents w (Represents-procs _ r refl refl) st z a

value-wake :
    (t : SemaphoreTable) (w i : ℕ) → ((wake_waiter t w).semaphores i).value ≡ (t.semaphores i).value
unfolding wake_waiter set_waiting_on_sem
value-wake t w i = refl

-- The two parts of a signal that wakes a process: the semaphore keeps its value and its other
-- waiters, and the process moves from the blocked queue to its ready queue.
abbrev Woken : SemaphoreTable → ℕ → ℕ → List ℕ → Lists → SemaphoreTable → Type 0
Woken t i w ws f t' =
    Waiters t' i ws
    × ((t'.semaphores i).value ≡ (t.semaphores i).value)
    × Represents t'.sched
        (append_at (erase_at f blocked_at w) (ready_at (queue_priority t.sched.procs w)) w)

signal_split-Woken :
    (t : SemaphoreTable) (i w : ℕ) (ws : List ℕ) (f : Lists) (t' : SemaphoreTable) (p : ℕ)
    → p ≡ w
    → Dequeued t t' i
    → Waiters t' i ws
    → Represents t.sched f
    → t.sched.procs.state w ≡ blocked
    → w ≢ 0
    → w < address_limit
    → Woken t i w ws f (signal_split (t', p) i)
unfolding signal_split
signal_split-Woken t i w ws f t' p e d h r st z a =
    rw (e, ne→== w 0 z)
      (
        wake-Waiters t' i w ws h,
        (value-wake t' w i ∙ d.value_kept),
        subst
            (λ g.
              Represents (wake_waiter t' w).sched
                (append_at (erase_at f blocked_at w) (ready_at (clamp_priority (g w % 256))) w))
            d.priority_kept
            (wake-Represents t' w (d.queues_kept r) (ap (λ g. g w) d.state_kept ∙ st) z a),
      )

-- A signal wakes the process that has waited longest: it leaves the queue of the semaphore, whose
-- value stays the same, and moves from the blocked queue to the end of the ready queue of its
-- priority. The other waiting processes keep their order.
pub signal_wakes :
    (t : SemaphoreTable) (i w : ℕ) (ws : List ℕ) (f : Lists)
    → Waiters t i (w ∷ ws)
    → Represents t.sched f
    → t.sched.procs.state w ≡ blocked
    → w < address_limit
    → let t' = signal_slot t i in
      Waiters t' i ws
      × ((t'.semaphores i).value ≡ (t.semaphores i).value)
      × Represents t'.sched
          (append_at (erase_at f blocked_at w) (ready_at (queue_priority t.sched.procs w)) w)
signal_wakes t i w ws f h r st a = rw (signal_slot_split t i) (
    signal_split-Woken t i w ws f (dequeue_waiter t i).0 (dequeue_waiter t i).1
      (dequeue-Waiters t i (w ∷ ws) h).0 (dequeue-Dequeued t i) (dequeue-Waiters t i (w ∷ ws) h).1 r
      st h.linked.0 a)
