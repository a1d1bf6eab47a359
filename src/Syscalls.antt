-- ===== src/Syscalls.antt =====
-- Kernel/syscalls/syscalls_kernel.c, the calls on memory, processes and semaphores. The other calls
-- are in the children.
pub mod Packing
pub mod Streams
pub mod Ends
pub mod Waiting
use so_tp.Base.{
  ℕ, ◌+◌, ◌-◌, ◌/◌, ◌%◌, ◌*◌, ◌^◌, ℤ, pos, negsuc, Bool, true, false, ◌&&◌, ◌||◌, Option, none,
  some, List, [], ◌∷◌, ◌==◌, ◌!=◌, ltb, leb, if◌then◌else◌, update, length,
}
use so_tp.State.{Scheduler, ProcessState, is_finished}
use so_tp.Scheduler.{
  scheduler_current_process, scheduler_block_by_pid, scheduler_unblock_by_pid,
  scheduler_set_priority, scheduler_find_by_pid, scheduler_block_current, scheduler_yield_current,
  set_foreground,
}
use so_tp.Semaphore.{
  SemaphoreTable, Outcome, returns, parks, sem_alloc, sem_open_by_id, sem_close_by_id,
  sem_wait_by_id, sem_signal_by_id, sem_set_by_id, sem_get_value_by_id,
}
use so_tp.Pipe.{PipeTable}
use so_tp.Lifecycle.{scheduler_kill_by_pid}
use so_tp.Lifecycle.Foreground.{scheduler_get_foreground_pid}
use so_tp.Memory.{Heap, Stats, mm_alloc, mm_free, mm_get_stats}
use so_tp.Process.Listing.{ProcessInfo, scheduler_list_all_processes}

-- A call answers a word, or the caller is parked in it.
pub data Reply (S : Type 0) : Type 0 where
  answers : S → ℕ → Reply S
  waits : S → Reply S

abbrev pub word : Bool → ℕ
word true = 1
word false = 0

unfoldable pub reply : {S : Type 0} → Outcome S → Reply S
reply (returns s b) = answers s (word b)
reply (parks s) = waits s

abbrev pub answer : {S : Type 0} → S × Bool → Reply S
answer r = answers r.0 (word r.1)

-- The argument in front is the address of `endOfKernel`.
unfoldable pub syscall_malloc : ℕ → Heap → ℕ → Reply Heap
syscall_malloc end_of_kernel h size =
    let r = mm_alloc end_of_kernel h size in if size == 0 then answers h 0 else answers r.0 r.1

unfoldable pub syscall_free : Heap → ℕ → Reply Heap
syscall_free h address = if address == 0 then answers h 0 else answers (mm_free h address) 1

-- `none` where nothing is copied to `user_addr`.
unfoldable pub syscall_meminfo : Heap → ℕ → Option Stats × ℕ
syscall_meminfo h user_addr = if user_addr == 0 then (none, 0) else (some (mm_get_stats h), 1)

unfoldable pub syscall_kill : ℕ → PipeTable → ℕ → Reply PipeTable
syscall_kill now t pid = reply (scheduler_kill_by_pid now t pid)

unfoldable pub syscall_block : Scheduler → ℕ → Reply Scheduler
syscall_block s pid = answer (scheduler_block_by_pid s pid)

unfoldable pub syscall_unblock : Scheduler → ℕ → Reply Scheduler
syscall_unblock s pid = answer (scheduler_unblock_by_pid s pid)

unfoldable pub syscall_getpid : Scheduler → ℕ
syscall_getpid s = let p = scheduler_current_process s in if p != 0 then s.procs.pid p else 0

unfoldable pub syscall_set_priority : Scheduler → ℕ → ℕ → Reply Scheduler
syscall_set_priority s pid new_prio = answer (scheduler_set_priority s pid (new_prio % 2 ^ 8))

-- `me` becomes the first of those that wait for `target`.
unfoldable pub add_waiter : Scheduler → ℕ → ℕ → ℕ → Scheduler
add_waiter s pid target me = record s {
  procs = record (s.procs) {
    waiting_on_pid = update s.procs.waiting_on_pid me pid;
    waiter_next = update s.procs.waiter_next me (s.procs.waiters_head target);
    waiters_head = update s.procs.waiters_head target me;
  };
}

-- What follows the wait, also when there was none: the foreground goes back to the caller.
unfoldable pub take_foreground : Scheduler → ℕ → ℕ → Scheduler
take_foreground s target me =
    if me != 0 && s.procs.is_foreground target then set_foreground s me true else s

-- The end of a wait: the caller takes over the foreground of a process that has it.
unfoldable pub wait_over : Scheduler → ℕ → ℕ → Reply Scheduler
wait_over s target me =
    answers (if s.procs.is_foreground target then set_foreground s me true else s) 1

-- The block of `me` in the wait; the idle process is not blocked and goes straight on.
unfoldable pub block_in_wait : ℕ → Scheduler → ℕ → ℕ → Reply Scheduler
block_in_wait now s target me =
    let s1 = scheduler_yield_current now (scheduler_block_current s) in
    if me == s.idle_p then wait_over s1 target me else waits s1

unfoldable pub syscall_wait : ℕ → Scheduler → ℕ → Reply Scheduler
syscall_wait now s pid =
    let target = scheduler_find_by_pid s pid in
    let me = scheduler_current_process s in
    if pid == 0 || leb (2 ^ 63) pid
    then answers s 0
    else if target == 0
    then answers s 0
    else if is_finished (s.procs.state target)
    then answers (take_foreground s target me) 1
    else if me == 0 || me == target
    then answers s 0
    else block_in_wait now (add_waiter s pid target me) target me

unfoldable pub syscall_sem_create : SemaphoreTable → ℤ → Reply SemaphoreTable
syscall_sem_create t (pos n) = let r = sem_alloc t n in answers r.0 r.1
syscall_sem_create t (negsuc n) = answers t 0

unfoldable pub syscall_sem_open : SemaphoreTable → ℕ → Reply SemaphoreTable
syscall_sem_open t sem_id = answer (sem_open_by_id t sem_id)

unfoldable pub syscall_sem_close : SemaphoreTable → ℕ → Reply SemaphoreTable
syscall_sem_close t sem_id = answer (sem_close_by_id t sem_id)

unfoldable pub syscall_sem_wait : ℕ → SemaphoreTable → ℕ → Reply SemaphoreTable
syscall_sem_wait now t sem_id = reply (sem_wait_by_id now t sem_id)

unfoldable pub syscall_sem_signal : SemaphoreTable → ℕ → Reply SemaphoreTable
syscall_sem_signal t sem_id = answer (sem_signal_by_id t sem_id)

unfoldable pub syscall_sem_set : SemaphoreTable → ℕ → ℤ → Reply SemaphoreTable
syscall_sem_set t sem_id newval = answer (sem_set_by_id t sem_id newval)

-- `(uint64_t) -1` for an unknown semaphore.
unfoldable pub syscall_sem_get : SemaphoreTable → ℕ → ℕ
syscall_sem_get t sem_id = elim (sem_get_value_by_id t sem_id) [ none ↦ 2 ^ 64 - 1 | some v ↦ v ]

abbrev pub max_process_info : ℕ
max_process_info = 64

-- The entries stored at `user_addr`; the answer is their number.
unfoldable pub syscall_list_processes : Scheduler → ℕ → ℕ → List ProcessInfo
syscall_list_processes s user_addr max_count =
    if user_addr == 0 || max_count == 0 || ltb max_process_info max_count
    then []
    else scheduler_list_all_processes s user_addr max_count

unfoldable pub syscall_yield : ℕ → Scheduler → Scheduler × ℕ
syscall_yield now s =
    if scheduler_current_process s == 0 then (s, 0) else (scheduler_yield_current now s, 1)

unfoldable pub syscall_get_foreground_pid : Scheduler → ℕ
syscall_get_foreground_pid s = scheduler_get_foreground_pid s
