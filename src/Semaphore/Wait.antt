-- ===== src/Semaphore/Wait.antt =====
-- Kernel/ipc/semaphore.c: what a wait does to the value, to the queue of waiting processes and to
-- the process that runs.
use so_tp.Base.{
  update_ne, ◌+◌, ℕ, ◌-◌, ◌≡◌, ◌≢◌, refl, sym, ◌∙◌, ap, subst, inl, inr, true, false, List, [], ◌∷◌,
  ◌++◌, arith, ltb, NotIn, update_self, eq→==, ne→==, eq-cases,
}
use so_tp.Scheduler.{scheduler_block_current, scheduler_yield_current, scheduler_current_process}
use so_tp.Scheduler.Places.{Lists, Represents, Free}
use so_tp.Scheduler.Enqueue.{Represents-procs}
use so_tp.Scheduler.Block.{
  Stopped, Yielded, yield-Yielded, block_current-Stopped, block_current-next,
}
use so_tp.Semaphore.{
  SemaphoreTable, Semaphore, returns, parks, set_slot, set_sem_next, set_waiting_on_sem,
  enqueue_waiter, block_and_yield, wait_slot, raise_value, signal_slot,
}
use so_tp.Semaphore.Waiters.{Waiters, enqueue-Waiters}
use so_tp.Semaphore.Signal.{signal_nobody}

lt→ltb_zero : (n : ℕ) → n ≢ 0 → ltb 0 n ≡ true
lt→ltb_zero n h = ground arith

ltb_zero_of_eq : (n : ℕ) → n ≡ 0 → ltb 0 n ≡ false
ltb_zero_of_eq n h = ground arith

-- A wait at a positive value takes one from it and returns at once; nothing else changes.
pub wait_takes :
    (now : ℕ) (t : SemaphoreTable) (i : ℕ)
    → t.sched.current ≢ 0
    → (t.semaphores i).value ≢ 0
    → wait_slot now t i
      ≡ returns (set_slot t i (record (t.semaphores i) { value = (t.semaphores i).value - 1 })) true
unfolding wait_slot scheduler_current_process
wait_takes now t i c v = rw (ne→== t.sched.current 0 c, lt→ltb_zero (t.semaphores i).value v)

-- What `enqueue_waiter` leaves alone.
record Enqueued (t t' : SemaphoreTable) (i : ℕ) : Type 0 where
  value_kept : (t'.semaphores i).value ≡ (t.semaphores i).value
  current_kept : t'.sched.current ≡ t.sched.current
  idle_kept : t'.sched.idle_p ≡ t.sched.idle_p
  queues_kept : {f : Lists} → Represents t.sched f → Represents t'.sched f

enqueue-Enqueued :
    (t : SemaphoreTable) (i p me id : ℕ)
    → Enqueued t (enqueue_waiter (set_waiting_on_sem t me id) i p) i
unfolding enqueue_waiter set_sem_next set_waiting_on_sem
enqueue-Enqueued t i p me id = elim (eq-cases (t.semaphores i).wait_head 0) [
  | inl e ↦ rw (eq→== (t.semaphores i).wait_head 0 e) (record {
    value_kept = ap (λ v. v.value) (update_self t.semaphores i _);
    current_kept = refl;
    idle_kept = refl;
    queues_kept = λ r. Represents-procs _ r refl refl;
  })
  | inr n ↦ rw (ne→== (t.semaphores i).wait_head 0 n) (record {
    value_kept = ap (λ v. v.value) (update_self t.semaphores i _);
    current_kept = refl;
    idle_kept = refl;
    queues_kept = λ r. Represents-procs _ r refl refl;
  })
]

-- What a parked process leaves behind.
abbrev Parked : SemaphoreTable → ℕ → List ℕ → Lists → SemaphoreTable → Type 0
Parked t i ws f t' =
    Waiters t' i (ws ++ t.sched.current ∷ [])
    × ((t'.semaphores i).value ≡ (t.semaphores i).value)
    × Stopped t'.sched f t.sched.current

pub parked : ℕ → SemaphoreTable → SemaphoreTable
parked now t = record t { sched = scheduler_yield_current now (scheduler_block_current t.sched) }

Parked-parked :
    (now : ℕ) (t e : SemaphoreTable) (i : ℕ) (ws : List ℕ) (f : Lists)
    → Enqueued t e i
    → Waiters e i (ws ++ t.sched.current ∷ [])
    → Represents t.sched f
    → Free f t.sched.current
    → t.sched.current ≢ 0
    → t.sched.current ≢ t.sched.idle_p
    → Parked t i ws f (parked now e)
unfolding parked
Parked-parked now t e i ws f q w r n z ni = (
  record {
    linked = rw (y.procs_kept, block_current-next e.sched) w.linked;
    head_first = w.head_first;
    tail_last = w.tail_last;
    distinct = w.distinct;
  },
  q.value_kept,
  (
    (ap (λ c. c.state t.sched.current) y.procs_kept ∙ stopped.0),
    (y.flag_kept ∙ stopped.1),
    y.queues_kept stopped.2,
  ),
)
  where
    y :
        Yielded
          (scheduler_block_current e.sched)
          (scheduler_yield_current now (scheduler_block_current e.sched))
    y = yield-Yielded now (scheduler_block_current e.sched)

    stopped : Stopped (scheduler_block_current e.sched) f t.sched.current
    stopped = subst (Stopped (scheduler_block_current e.sched) f) q.current_kept (
        block_current-Stopped (q.queues_kept r) (subst (Free f) (sym q.current_kept) n)
          (λ h. z (sym q.current_kept ∙ h)) (λ h. ni (sym q.current_kept ∙ (h ∙ q.idle_kept))))

waiting-Waiters :
    (t : SemaphoreTable) (i p id : ℕ) (ws : List ℕ)
    → Waiters t i ws
    → Waiters (set_waiting_on_sem t p id) i ws
unfolding set_waiting_on_sem
waiting-Waiters t i p id ws w = record {
  linked = w.linked;
  head_first = w.head_first;
  tail_last = w.tail_last;
  distinct = w.distinct;
}

block_and_yield_parks :
    (now : ℕ) (t e : SemaphoreTable) (i : ℕ)
    → Enqueued t e i
    → t.sched.current ≢ t.sched.idle_p
    → block_and_yield now e ≡ parks (parked now e)
unfolding block_and_yield parked
block_and_yield_parks now t e i q ni =
    rw (ne→== e.sched.current e.sched.idle_p (λ h. ni (sym q.current_kept ∙ (h ∙ q.idle_kept))))

pub wait_slot_parks :
    (now : ℕ) (t : SemaphoreTable) (i : ℕ)
    → (t.semaphores i).value ≡ 0
    → t.sched.current ≢ 0
    → t.sched.current ≢ t.sched.idle_p
    → wait_slot now t i
      ≡ parks (
          parked now (
            enqueue_waiter
              (set_waiting_on_sem t t.sched.current (t.semaphores i).id)
              i
              t.sched.current))
unfolding wait_slot scheduler_current_process
wait_slot_parks now t i v z ni =
    rw (ne→== t.sched.current 0 z, ltb_zero_of_eq (t.semaphores i).value v)
      (block_and_yield_parks now t _ i
        (enqueue-Enqueued t i t.sched.current t.sched.current (t.semaphores i).id) ni)

-- A wait at the value 0 parks the process that runs, if it is not the idle process: it comes to
-- the end of the queue of the semaphore, whose value stays 0, in the state BLOCKED, asks for a new
-- schedule and leaves the run queues as they were.
pub wait_parks :
    (now : ℕ) (t : SemaphoreTable) (i : ℕ) (ws : List ℕ) (f : Lists)
    → (t.semaphores i).value ≡ 0
    → Waiters t i ws
    → NotIn t.sched.current ws
    → Represents t.sched f
    → Free f t.sched.current
    → t.sched.current ≢ 0
    → t.sched.current ≢ t.sched.idle_p
    → (t' : SemaphoreTable) × (wait_slot now t i ≡ parks t')
      × Waiters t' i (ws ++ t.sched.current ∷ [])
      × ((t'.semaphores i).value ≡ (t.semaphores i).value)
      × Stopped t'.sched f t.sched.current
wait_parks now t i ws f v w m r n z ni =
    let e =
      enqueue_waiter (set_waiting_on_sem t t.sched.current (t.semaphores i).id) i t.sched.current in
    let q = enqueue-Enqueued t i t.sched.current t.sched.current (t.semaphores i).id in
    let p =
      Parked-parked now t e i ws f q
        (enqueue-Waiters (set_waiting_on_sem t t.sched.current (t.semaphores i).id) i
          t.sched.current ws (waiting-Waiters t i t.sched.current (t.semaphores i).id ws w) m z)
        r n z ni in
    (parked now e, wait_slot_parks now t i v z ni, p.0, p.1, p.2)

suc_ne_zero : (n : ℕ) → n + 1 ≢ 0
suc_ne_zero n e = absurd (omega arith)

raised_value :
    (t : SemaphoreTable) (i : ℕ)
    → ((raise_value t i).semaphores i)
      ≡ record (t.semaphores i) { value = (t.semaphores i).value + 1 }
unfolding raise_value
raised_value t i = update_self t.semaphores i _

raised_other :
    (t : SemaphoreTable) (i j : ℕ) → i ≢ j → (raise_value t i).semaphores j ≡ t.semaphores j
unfolding raise_value
raised_other t i j n = update_ne t.semaphores i j _ n

sched-raise_value : (t : SemaphoreTable) (i : ℕ) → (raise_value t i).sched ≡ t.sched
unfolding raise_value
sched-raise_value t i = refl

-- `s->value--` at slot `i`.
lowered : SemaphoreTable → ℕ → SemaphoreTable
lowered t i = set_slot t i (record (t.semaphores i) { value = (t.semaphores i).value - 1 })

lowered_raised : (v : Semaphore) → record v { value = v.value + 1 - 1 } ≡ v
lowered_raised v =
    ap (λ n. record v { value = n }) {x = v.value + 1 - 1} {y = v.value} (omega arith)

abbrev minus_one : Semaphore → Semaphore
minus_one v = record v { value = v.value - 1 }

semaphores-lowered :
    (t : SemaphoreTable) (i j : ℕ) → (lowered (raise_value t i) i).semaphores j ≡ t.semaphores j
unfolding lowered
semaphores-lowered t i j = elim (eq-cases i j) [
  | inl e ↦
      subst (λ k. (lowered (raise_value t i) i).semaphores k ≡ t.semaphores k) e
        (update_self (raise_value t i).semaphores i _
          ∙ (ap minus_one (raised_value t i) ∙ lowered_raised (t.semaphores i)))
  | inr n ↦ update_ne (raise_value t i).semaphores i j _ n ∙ raised_other t i j n
]

sched-lowered : (t : SemaphoreTable) (i : ℕ) → (lowered t i).sched ≡ t.sched
unfolding lowered
sched-lowered t i = refl

wait_lowers :
    (now : ℕ) (t : SemaphoreTable) (i : ℕ)
    → t.sched.current ≢ 0
    → (t.semaphores i).value ≢ 0
    → wait_slot now t i ≡ returns (lowered t i) true
unfolding lowered
wait_lowers now t i c v = wait_takes now t i c v

-- A signal that finds nobody waiting and a wait behind it cancel out: the wait returns 1 at once,
-- and every semaphore and the scheduler are as they were before the two.
pub wait-signal :
    (now : ℕ) (t : SemaphoreTable) (i : ℕ)
    → Waiters t i []
    → t.sched.current ≢ 0
    → (u : SemaphoreTable) × (wait_slot now (signal_slot t i) i ≡ returns u true)
      × ((j : ℕ) → u.semaphores j ≡ t.semaphores j)
      × (u.sched ≡ t.sched)
wait-signal now t i w c = (
  lowered (raise_value t i) i,
  rw (signal_nobody t i w) (
      wait_lowers now (raise_value t i) i
        (λ e. c (sym (ap (λ s. s.current) (sched-raise_value t i)) ∙ e))
        (λ e. suc_ne_zero _ (sym (ap (λ v. v.value) (raised_value t i)) ∙ e))),
  semaphores-lowered t i,
  sched-lowered (raise_value t i) i ∙ sched-raise_value t i,
)
