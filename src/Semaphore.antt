-- ===== src/Semaphore.antt =====
-- Kernel/ipc/semaphore.c. The spin lock of a semaphore is held over straight-line code alone, so
-- each operation is one step here and the lock is left out; values do not overflow an `int`.
pub mod Waiters
pub mod Signal
pub mod Slots
pub mod Wait
pub mod Moved
pub mod Set
pub mod Frame
pub mod Descriptors
pub mod Values
use so_tp.Base.{
  ℕ, ℤ, pos, negsuc, zero, suc, ◌+◌, ◌-◌, ◌%◌, ◌^◌, Bool, true, false, ◌&&◌, not, Option, none,
  some, update, ◌==◌, ◌!=◌, ltb, leb, if◌then◌else◌,
}
use so_tp.State.{Scheduler}
use so_tp.Scheduler.{
  scheduler_current_process, scheduler_block_current, scheduler_yield_current,
  scheduler_unblock_process,
}

abbrev pub max_semaphores : ℕ
max_semaphores = 64

-- `semaphore_t`.
pub record Semaphore : Type 0 where
  pub id : ℕ
  pub value : ℕ
  pub refcount : ℕ
  pub wait_head : ℕ
  pub wait_tail : ℕ
  pub used : Bool

-- The file-level variables, beside the scheduler that the operations call. `semaphores` has the
-- indices 0 to 63.
pub record SemaphoreTable : Type 0 where
  pub sched : Scheduler
  pub semaphores : ℕ → Semaphore
  pub next_sem_id : ℕ

-- A call that may block: it returns a value, or it parks the calling process, which goes on
-- behind the call with the value 1 once it is woken and scheduled.
pub data Outcome (S : Type 0) : Type 0 where
  returns : S → Bool → Outcome S
  parks : S → Outcome S

abbrev pub set_slot : SemaphoreTable → ℕ → Semaphore → SemaphoreTable
set_slot t i v = record t { semaphores = update t.semaphores i v }

-- The slots from `i` on, `n` of them; `none` stands for NULL.
unfoldable pub find_slot_from : ℕ → ℕ → SemaphoreTable → ℕ → Option ℕ
find_slot_from zero i t id = none
find_slot_from (suc n) i t id =
    let rest = find_slot_from n (i + 1) t id in
    if (t.semaphores i).used && (t.semaphores i).id == id then some i else rest

unfoldable pub find_slot_by_id : SemaphoreTable → ℕ → Option ℕ
find_slot_by_id t id = find_slot_from max_semaphores 0 t id

unfoldable pub sem_get_by_id : SemaphoreTable → ℕ → Option ℕ
sem_get_by_id t id = if id == 0 then none else find_slot_by_id t id

-- The body of the loop of `sem_alloc` at a slot that is free.
unfoldable pub alloc_slot : SemaphoreTable → ℕ → ℕ → SemaphoreTable × ℕ
alloc_slot t i initial_value = (
  record t {
    semaphores = update t.semaphores i (record {
      id = t.next_sem_id;
      value = initial_value;
      refcount = 1;
      wait_head = 0;
      wait_tail = 0;
      used = true;
    });
    next_sem_id = (t.next_sem_id + 1) % 2 ^ 64;
  },
  t.next_sem_id,
)

unfoldable pub alloc_from : ℕ → ℕ → SemaphoreTable → ℕ → SemaphoreTable × ℕ
alloc_from zero i t initial_value = (t, 0)
alloc_from (suc n) i t initial_value =
    let rest = alloc_from n (i + 1) t initial_value in
    if not (t.semaphores i).used then alloc_slot t i initial_value else rest

unfoldable pub sem_alloc : SemaphoreTable → ℕ → SemaphoreTable × ℕ
sem_alloc t initial_value = alloc_from max_semaphores 0 t initial_value

unfoldable pub open_slot : SemaphoreTable → ℕ → SemaphoreTable
open_slot t i = set_slot t i (record (t.semaphores i) { refcount = (t.semaphores i).refcount + 1 })

unfoldable pub sem_open_by_id : SemaphoreTable → ℕ → SemaphoreTable × Bool
sem_open_by_id t id = elim (sem_get_by_id t id) [
  | none ↦ (t, false)
  | some i ↦ (open_slot t i, true)
]

-- A reference is given back; the last one frees the slot and forgets the waiters.
unfoldable pub close_slot : SemaphoreTable → ℕ → SemaphoreTable
close_slot t i =
    let v = t.semaphores i in
    let dropped = record v { refcount = v.refcount - 1 } in
    let freed = record v {
      refcount = v.refcount - 1;
      used = false;
      wait_head = 0;
      wait_tail = 0;
    } in
    set_slot t i (if leb (v.refcount - 1) 0 then freed else dropped)

unfoldable pub sem_close_by_id : SemaphoreTable → ℕ → SemaphoreTable × Bool
sem_close_by_id t id = elim (sem_get_by_id t id) [
  | none ↦ (t, false)
  | some i ↦ (close_slot t i, true)
]

-- Writes of the field `sem_waiter_next`, and of `waiting_on_sem`.
unfoldable pub set_sem_next : SemaphoreTable → ℕ → ℕ → SemaphoreTable
set_sem_next t p v = record t {
  sched = record (t.sched) {
    procs = record (t.sched.procs) { sem_waiter_next = update t.sched.procs.sem_waiter_next p v };
  };
}

unfoldable pub set_waiting_on_sem : SemaphoreTable → ℕ → ℕ → SemaphoreTable
set_waiting_on_sem t p v = record t {
  sched = record (t.sched) {
    procs = record (t.sched.procs) { waiting_on_sem = update t.sched.procs.waiting_on_sem p v };
  };
}

unfoldable pub enqueue_waiter : SemaphoreTable → ℕ → ℕ → SemaphoreTable
enqueue_waiter t i p =
    let t1 = set_sem_next t p 0 in
    let v = t1.semaphores i in
    if v.wait_head == 0
    then set_slot t1 i (record v { wait_head = p; wait_tail = p })
    else set_slot (set_sem_next t1 v.wait_tail p) i (record v { wait_tail = p })

-- The process taken from the queue, or NULL.
unfoldable pub dequeue_waiter : SemaphoreTable → ℕ → SemaphoreTable × ℕ
dequeue_waiter t i =
    let v = t.semaphores i in
    let p = v.wait_head in
    let next = t.sched.procs.sem_waiter_next p in
    let v' = record v { wait_head = next; wait_tail = if next == 0 then 0 else v.wait_tail } in
    if p == 0 then (t, 0) else (set_sem_next (set_slot t i v') p 0, p)

-- `scheduler_block_current(); scheduler_yield_current();`, up to the interrupt that it raises.
-- The idle process is not blocked, and goes on at once.
unfoldable pub block_and_yield : ℕ → SemaphoreTable → Outcome SemaphoreTable
block_and_yield now t =
    let me = t.sched.current in
    let t' = record t { sched = scheduler_yield_current now (scheduler_block_current t.sched) } in
    if me == t.sched.idle_p then returns t' true else parks t'

-- `sem_wait_by_id` at a slot.
unfoldable pub wait_slot : ℕ → SemaphoreTable → ℕ → Outcome SemaphoreTable
wait_slot now t i =
    let v = t.semaphores i in
    let me = scheduler_current_process t.sched in
    if me == 0
    then returns t false
    else if ltb 0 v.value
    then returns (set_slot t i (record v { value = v.value - 1 })) true
    else block_and_yield now (enqueue_waiter (set_waiting_on_sem t me v.id) i me)

unfoldable pub sem_wait_by_id : ℕ → SemaphoreTable → ℕ → Outcome SemaphoreTable
sem_wait_by_id now t id = elim (sem_get_by_id t id) [
  | none ↦ returns t false
  | some i ↦ wait_slot now t i
]

-- `w->waiting_on_sem = 0; scheduler_unblock_process(w);`
unfoldable pub wake_waiter : SemaphoreTable → ℕ → SemaphoreTable
wake_waiter t w =
    let t' = set_waiting_on_sem t w 0 in record t' { sched = scheduler_unblock_process t'.sched w }

unfoldable pub raise_value : SemaphoreTable → ℕ → SemaphoreTable
raise_value t i = set_slot t i (record (t.semaphores i) { value = (t.semaphores i).value + 1 })

unfoldable pub signal_slot : SemaphoreTable → ℕ → SemaphoreTable
signal_slot t i =
    let (t', w) = dequeue_waiter t i in if w != 0 then wake_waiter t' w else raise_value t' i

unfoldable pub sem_signal_by_id : SemaphoreTable → ℕ → SemaphoreTable × Bool
sem_signal_by_id t id = elim (sem_get_by_id t id) [
  | none ↦ (t, false)
  | some i ↦ (signal_slot t i, true)
]

-- The loop of `sem_set_by_id` with `n` wake-ups left: the state, and the wake-ups not used.
unfoldable pub wake_up_to : ℕ → SemaphoreTable → ℕ → SemaphoreTable × ℕ
wake_up_to zero t i = (t, 0)
wake_up_to (suc n) t i =
    let (t', w) = dequeue_waiter t i in
    let rest = wake_up_to n (wake_waiter t' w) i in if w == 0 then (t', suc n) else rest

-- `s->value = newval - awaken`, the wake-ups not used.
unfoldable pub set_slot_value : SemaphoreTable → ℕ → ℕ → SemaphoreTable
set_slot_value t i newval =
    let (t', left) = wake_up_to newval t i in
    set_slot t' i (record (t'.semaphores i) { value = left })

unfoldable pub sem_set_by_id : SemaphoreTable → ℕ → ℤ → SemaphoreTable × Bool
sem_set_by_id t id (negsuc n) = (t, false)
sem_set_by_id t id (pos n) = elim (sem_get_by_id t id) [
  | none ↦ (t, false)
  | some i ↦ (set_slot_value t i n, true)
]

-- What is stored through `out`, or `none` for the answer 0.
unfoldable pub sem_get_value_by_id : SemaphoreTable → ℕ → Option ℕ
sem_get_value_by_id t id = elim (sem_get_by_id t id) [
  | none ↦ none
  | some i ↦ some (t.semaphores i).value
]
