-- ===== src/Semaphore/Descriptors.antt =====
-- Kernel/ipc/semaphore.c: a wait and a signal do not write the descriptors of the processes.
use so_tp.Base.{
  ℕ, ◌≡◌, refl, ◌∙◌, inl, inr, ◌&&◌, ◌||◌, ◌!=◌, ◌==◌, ltb, eq→==, ne→==, Bool-cases, eq-cases,
  Bool, Option, none, some, true, false,
}
use so_tp.State.{Scheduler, is_blocked}
use so_tp.Scheduler.{
  set_state, set_priority, push_ready, ready_queue_push, make_ready, leave_blocked, remove_blocked,
  request_if_higher, request_schedule, scheduler_unblock_process, scheduler_block_current,
  scheduler_yield_current, scheduler_current_process,
}
use so_tp.Semaphore.{
  SemaphoreTable, Outcome, returns, parks, set_sem_next, set_waiting_on_sem, dequeue_waiter,
  enqueue_waiter, wake_waiter, raise_value, signal_slot, sem_signal_by_id, block_and_yield,
  wait_slot, sem_wait_by_id, sem_get_by_id,
}

-- Every descriptor has the type that it had.
abbrev pub SameFds : Scheduler → Scheduler → Type 0
SameFds s' s = s'.procs.fd_type ≡ s.procs.fd_type

request_if_higher-SameFds : (s : Scheduler) (p : ℕ) → SameFds (request_if_higher s p) s
unfolding request_if_higher
request_if_higher-SameFds s p =
    elim (Bool-cases (s.current != 0 && ltb (s.procs.priority s.current) (s.procs.priority p))) [
      | inl e ↦ rw e
      | inr e ↦ rw e
    ]

make_ready-SameFds : (s : Scheduler) (p : ℕ) → SameFds (make_ready s p) s
unfolding make_ready ready_queue_push push_ready set_priority set_state
make_ready-SameFds s p = elim (eq-cases p 0) [ inl e ↦ rw (eq→== p 0 e) | inr n ↦ rw (ne→== p 0 n) ]

leave_blocked-SameFds : (s : Scheduler) (p : ℕ) → SameFds (leave_blocked s p) s
unfolding leave_blocked remove_blocked
leave_blocked-SameFds s p = elim (Bool-cases (is_blocked (s.procs.state p))) [
  | inl e ↦ rw e
  | inr e ↦ rw e
]

unblock-SameFds : (s : Scheduler) (p : ℕ) → SameFds (scheduler_unblock_process s p) s
unfolding scheduler_unblock_process
unblock-SameFds s p = elim (eq-cases p 0) [
  | inl e ↦ rw (eq→== p 0 e)
  | inr n ↦
      rw (ne→== p 0 n)
        (request_if_higher-SameFds _ p ∙ (make_ready-SameFds _ p ∙ leave_blocked-SameFds s p))
]

dequeue-SameFds : (t : SemaphoreTable) (i : ℕ) → SameFds (dequeue_waiter t i).0.sched t.sched
unfolding dequeue_waiter set_sem_next
dequeue-SameFds t i = elim (eq-cases (t.semaphores i).wait_head 0) [
  | inl e ↦ rw (eq→== (t.semaphores i).wait_head 0 e)
  | inr n ↦ rw (ne→== (t.semaphores i).wait_head 0 n)
]

wake-SameFds : (t : SemaphoreTable) (w : ℕ) → SameFds (wake_waiter t w).sched t.sched
unfolding wake_waiter set_waiting_on_sem
wake-SameFds t w = unblock-SameFds _ w

signal_slot-SameFds : (t : SemaphoreTable) (i : ℕ) → SameFds (signal_slot t i).sched t.sched
unfolding signal_slot raise_value
signal_slot-SameFds t i = elim (eq-cases (dequeue_waiter t i).1 0) [
  | inl e ↦ rw (eq→== (dequeue_waiter t i).1 0 e) (dequeue-SameFds t i)
  | inr n ↦ rw (ne→== (dequeue_waiter t i).1 0 n) (wake-SameFds _ _ ∙ dequeue-SameFds t i)
]

abbrev signalled : SemaphoreTable → Option ℕ → SemaphoreTable × Bool
signalled t none = (t, false)
signalled t (some i) = (signal_slot t i, true)

signalled-SameFds : (t : SemaphoreTable) (o : Option ℕ) → SameFds (signalled t o).0.sched t.sched
signalled-SameFds t none = refl
signalled-SameFds t (some i) = signal_slot-SameFds t i

signal_lem :
    (t : SemaphoreTable) (id : ℕ) → sem_signal_by_id t id ≡ signalled t (sem_get_by_id t id)
unfolding sem_signal_by_id
signal_lem t id = refl

pub signal-SameFds : (t : SemaphoreTable) (id : ℕ) → SameFds (sem_signal_by_id t id).0.sched t.sched
signal-SameFds t id = rw (signal_lem t id) (signalled-SameFds t (sem_get_by_id t id))

enqueue-SameFds : (t : SemaphoreTable) (i p : ℕ) → SameFds (enqueue_waiter t i p).sched t.sched
unfolding enqueue_waiter set_sem_next
enqueue-SameFds t i p = elim (eq-cases (t.semaphores i).wait_head 0) [
  | inl e ↦ rw (eq→== (t.semaphores i).wait_head 0 e)
  | inr n ↦ rw (ne→== (t.semaphores i).wait_head 0 n)
]

block-SameFds : (s : Scheduler) → SameFds (scheduler_block_current s) s
unfolding scheduler_block_current request_schedule set_state
block-SameFds s = elim (Bool-cases (s.current == 0 || s.current == s.idle_p)) [
  | inl e ↦ rw e
  | inr e ↦ rw e
]

yield-SameFds : (now : ℕ) (s : Scheduler) → SameFds (scheduler_yield_current now s) s
unfolding scheduler_yield_current
yield-SameFds now s = elim (Bool-cases (s.current == 0 || s.current == s.idle_p)) [
  | inl e ↦ rw e
  | inr e ↦ rw e
]

-- The same of what a wait leaves, whether it returns or parks the process.
abbrev pub KeepsFds : SemaphoreTable → Outcome SemaphoreTable → Type 0
KeepsFds t (returns t' b) = SameFds t'.sched t.sched
KeepsFds t (parks t') = SameFds t'.sched t.sched

block_and_yield-KeepsFds :
    (now : ℕ) (t u : SemaphoreTable) → SameFds u.sched t.sched → KeepsFds t (block_and_yield now u)
unfolding block_and_yield
block_and_yield-KeepsFds now t u h =
    let k = yield-SameFds now (scheduler_block_current u.sched) ∙ (block-SameFds u.sched ∙ h) in
    elim (Bool-cases (u.sched.current == u.sched.idle_p)) [ inl e ↦ rw e k | inr e ↦ rw e k ]

waiting-SameFds : (t : SemaphoreTable) (p v : ℕ) → SameFds (set_waiting_on_sem t p v).sched t.sched
unfolding set_waiting_on_sem
waiting-SameFds t p v = refl

wait_slot-KeepsFds : (now : ℕ) (t : SemaphoreTable) (i : ℕ) → KeepsFds t (wait_slot now t i)
unfolding wait_slot scheduler_current_process
wait_slot-KeepsFds now t i = elim (eq-cases t.sched.current 0) [
  | inl e ↦ rw (eq→== t.sched.current 0 e) refl
  | inr n ↦ elim (Bool-cases (ltb 0 (t.semaphores i).value)) [
    | inl e ↦ rw (ne→== t.sched.current 0 n, e) refl
    | inr e ↦
        rw (ne→== t.sched.current 0 n, e)
          (block_and_yield-KeepsFds now t _ (enqueue-SameFds _ i _ ∙ waiting-SameFds t _ _))
  ]
]

pub sem_wait-KeepsFds :
    (now : ℕ) (t : SemaphoreTable) (id : ℕ) → KeepsFds t (sem_wait_by_id now t id)
unfolding sem_wait_by_id
sem_wait-KeepsFds now t id =
    elim (sem_get_by_id t id)
      as (λ o. KeepsFds t (elim o [ none ↦ returns t false | some i ↦ wait_slot now t i ])) [
        | none ↦ refl
        | some i ↦ wait_slot-KeepsFds now t i
      ]
