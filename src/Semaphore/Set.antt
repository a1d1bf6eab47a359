-- ===== src/Semaphore/Set.antt =====
-- Kernel/ipc/semaphore.c, `sem_set_by_id`: how many of the waiting processes it wakes.
use so_tp.Base.{
  ℕ, zero, suc, ◌-◌, ◌≡◌, ◌<◌, refl, sym, ◌∙◌, ap, subst, List, [], ◌∷◌, All, All-map, arith,
  length, ◌==◌, if◌then◌else◌, update_self, eq→==, ne→==,
}
use so_tp.Queue.{address_limit}
use so_tp.State.{Processes, blocked}
use so_tp.Scheduler.Places.{ready_at, blocked_at, Lists, Represents}
use so_tp.Scheduler.Enqueue.{queue_priority, append_at}
use so_tp.Scheduler.Wake.{erase_at}
use so_tp.Semaphore.{
  SemaphoreTable, set_slot, dequeue_waiter, wake_waiter, wake_up_to, set_slot_value,
}
use so_tp.Semaphore.Waiters.{Waiters, dequeue-Waiters}
use so_tp.Semaphore.Signal.{wake-Waiters, dequeue-Dequeued}
use so_tp.Semaphore.Moved.{moved_up, take, Asleep, dequeue-Moved}

-- The list without its first `n` entries.
abbrev pub drop : ℕ → List ℕ → List ℕ
drop zero ws = ws
drop (suc n) [] = []
drop (suc n) (w ∷ ws) = drop n ws

abbrev Awake : ℕ → ℕ → List ℕ → SemaphoreTable × ℕ → Type 0
Awake i n ws (t', left) = Waiters t' i (drop n ws) × (left ≡ n - length ws)

awake_step : ℕ → SemaphoreTable × ℕ → ℕ → SemaphoreTable × ℕ
awake_step n (t', w) i =
    let rest = wake_up_to n (wake_waiter t' w) i in if w == 0 then (t', suc n) else rest

wake_up_to_split :
    (n : ℕ) (t : SemaphoreTable) (i : ℕ)
    → wake_up_to (suc n) t i ≡ awake_step n (dequeue_waiter t i) i
unfolding wake_up_to awake_step
wake_up_to_split n t i = refl

wake_up_to_none : (t : SemaphoreTable) (i : ℕ) → wake_up_to 0 t i ≡ (t, 0)
unfolding wake_up_to
wake_up_to_none t i = refl

minus_zero : (n : ℕ) → n ≡ n - 0
minus_zero n = omega arith

suc_minus : (n k : ℕ) → n - k ≡ suc n - suc k
suc_minus n k = omega arith

zero_minus : (n : ℕ) → 0 ≡ 0 - n
zero_minus n = omega arith

wake_up_to-Awake :
    (n : ℕ) (t : SemaphoreTable) (i : ℕ) (ws : List ℕ)
    → Waiters t i ws
    → Awake i n ws (wake_up_to n t i)
unfolding awake_step
wake_up_to-Awake zero t i ws h = rw (wake_up_to_none t i) (h, zero_minus (length ws))
wake_up_to-Awake (suc n) t i [] h =
    let d = dequeue-Waiters t i [] h in
    rw (wake_up_to_split n t i, eq→== (dequeue_waiter t i).1 0 d.0) (d.1, minus_zero (suc n))
wake_up_to-Awake (suc n) t i (w ∷ ws) h =
    let d = dequeue-Waiters t i (w ∷ ws) h in
    let r =
      wake_up_to-Awake n (wake_waiter (dequeue_waiter t i).0 (dequeue_waiter t i).1) i ws
        (wake-Waiters (dequeue_waiter t i).0 i (dequeue_waiter t i).1 ws d.1) in
    rw (wake_up_to_split n t i, ne→== (dequeue_waiter t i).1 0 (λ e. h.linked.0 (sym d.0 ∙ e)))
      (r.0, r.1 ∙ suc_minus n (length ws))

wake_up_to-Moved :
    (c : Processes) (n : ℕ) (t : SemaphoreTable) (i : ℕ) (ws : List ℕ) (f : Lists)
    → Waiters t i ws
    → Represents t.sched f
    → All (Asleep c t.sched) ws
    → Represents (wake_up_to n t i).0.sched (moved_up c f (take n ws))
unfolding awake_step
wake_up_to-Moved c zero t i ws f h r a = rw (wake_up_to_none t i) r
wake_up_to-Moved c (suc n) t i [] f h r a =
    rw (wake_up_to_split n t i, eq→== (dequeue_waiter t i).1 0 (dequeue-Waiters t i [] h).0)
      ((dequeue-Dequeued t i).queues_kept r)
wake_up_to-Moved c (suc n) t i (w ∷ ws) f h r a =
    let d = dequeue-Waiters t i (w ∷ ws) h in
    let u : SemaphoreTable = wake_waiter (dequeue_waiter t i).0 w in
    let m = dequeue-Moved c t i w ws f r h.linked.0 h.distinct.0 a in
    rw (wake_up_to_split n t i, ne→== (dequeue_waiter t i).1 0 (λ e. h.linked.0 (sym d.0 ∙ e)), d.0)
      (wake_up_to-Moved c n u i ws
        (append_at (erase_at f blocked_at w) (ready_at (queue_priority c w)) w)
        (wake-Waiters (dequeue_waiter t i).0 i w ws d.1) m.0 m.1)

value_written : SemaphoreTable × ℕ → ℕ → SemaphoreTable
value_written (t', left) i = set_slot t' i (record (t'.semaphores i) { value = left })

set_slot_value_split :
    (t : SemaphoreTable) (i n : ℕ) → set_slot_value t i n ≡ value_written (wake_up_to n t i) i
unfolding set_slot_value value_written
set_slot_value_split t i n = refl

Waiters-value_written :
    (t : SemaphoreTable) (i v : ℕ) (ws : List ℕ)
    → Waiters t i ws
    → Waiters (value_written (t, v) i) i ws × (((value_written (t, v) i).semaphores i).value ≡ v)
unfolding value_written
Waiters-value_written t i v ws h = (
  record {
    linked = h.linked;
    head_first = ap (λ x. x.wait_head) (update_self t.semaphores i _) ∙ h.head_first;
    tail_last = ap (λ x. x.wait_tail) (update_self t.semaphores i _) ∙ h.tail_last;
    distinct = h.distinct;
  },
  ap (λ x. x.value) (update_self t.semaphores i _),
)

queues-value_written : (t : SemaphoreTable) (i v : ℕ) → (value_written (t, v) i).sched ≡ t.sched
unfolding value_written
queues-value_written t i v = refl

-- Setting a semaphore to `n` wakes the processes that have waited longest, `n` of them if there are so
-- many: in their order they move from the blocked queue to the ends of the ready queues of their
-- priorities, and the run queues stay the same otherwise. The others stay waiting in order, and what is
-- left of `n` becomes the value. The waiting processes are BLOCKED.
pub set_slot_value-Waiters :
    (t : SemaphoreTable) (i n : ℕ) (ws : List ℕ) (f : Lists)
    → Waiters t i ws
    → Represents t.sched f
    → All (λ w. (t.sched.procs.state w ≡ blocked) × (w < address_limit)) ws
    → let t' = set_slot_value t i n in
      Waiters t' i (drop n ws)
      × ((t'.semaphores i).value ≡ n - length ws)
      × Represents t'.sched (moved_up t.sched.procs f (take n ws))
set_slot_value-Waiters t i n ws f h r b =
    let a = wake_up_to-Awake n t i ws h in
    let w = Waiters-value_written (wake_up_to n t i).0 i (wake_up_to n t i).1 (drop n ws) a.0 in
    let m = wake_up_to-Moved t.sched.procs n t i ws f h r (
      All-map {P = λ w. (t.sched.procs.state w ≡ blocked) × (w < address_limit)}
        (λ x k. (k.0, refl, k.1)) ws b) in
    rw (set_slot_value_split t i n) (
      w.0,
      (w.1 ∙ a.1),
      subst (λ s. Represents s (moved_up t.sched.procs f (take n ws)))
          (sym (queues-value_written (wake_up_to n t i).0 i (wake_up_to n t i).1)) m,
    )
