-- ===== src/Scheduler.antt =====
-- Kernel/proc/scheduler.c, the part that works on the run queues alone. Switching, finishing and
-- killing, which call into the other subsystems, are in `Lifecycle`.
pub mod Places
pub mod Moves
pub mod Enqueue
pub mod Wake
pub mod Block
pub mod Priority
pub mod Find
use so_tp.Base.{
  ℕ, zero, suc, ◌+◌, ◌-◌, ◌*◌, ◌%◌, ◌^◌, Bool, true, false, ◌&&◌, ◌||◌, update, ◌==◌, ◌!=◌, ltb,
  leb, if◌then◌else◌,
}
use so_tp.Queue.{
  ProcessQueue, address_limit, process_queue_push, process_queue_pop, process_queue_remove,
}
use so_tp.State.{
  Scheduler, ProcessState, ready, blocked, process_priority_max, is_ready, is_blocked,
}

abbrev pub quantum_ticks : ℕ
quantum_ticks = 8

abbrev pub aging_threshold : ℕ
aging_threshold = 200

abbrev pub aging_boost : ℕ
aging_boost = 1

-- The argument is a `uint8_t`: callers convert by `% 256`.
unfoldable pub clamp_priority : ℕ → ℕ
clamp_priority pr = if ltb process_priority_max pr then process_priority_max else pr

-- Field writes.
unfoldable pub set_state : Scheduler → ℕ → ProcessState → Scheduler
set_state s p v = record s { procs = record (s.procs) { state = update s.procs.state p v } }

unfoldable pub set_priority : Scheduler → ℕ → ℕ → Scheduler
set_priority s p v = record s {
  procs = record (s.procs) { priority = update s.procs.priority p v };
}

unfoldable pub set_base_priority : Scheduler → ℕ → ℕ → Scheduler
set_base_priority s p v = record s {
  procs = record (s.procs) { base_priority = update s.procs.base_priority p v };
}

unfoldable pub set_wait_ticks : Scheduler → ℕ → ℕ → Scheduler
set_wait_ticks s p v = record s {
  procs = record (s.procs) { wait_ticks = update s.procs.wait_ticks p v };
}

unfoldable pub set_foreground : Scheduler → ℕ → Bool → Scheduler
set_foreground s p v = record s {
  procs = record (s.procs) { is_foreground = update s.procs.is_foreground p v };
}

-- Queue operations on the three kinds of queues.
unfoldable pub push_ready : Scheduler → ℕ → ℕ → Scheduler
push_ready s pr p =
    let (l, q) = process_queue_push s.links (s.ready_queues pr) p in
    record s { links = l; ready_queues = update s.ready_queues pr q }

unfoldable pub remove_ready : Scheduler → ℕ → ℕ → Scheduler
remove_ready s pr p =
    let (l, q) = process_queue_remove s.links (s.ready_queues pr) p in
    record s { links = l; ready_queues = update s.ready_queues pr q }

unfoldable pub push_blocked : Scheduler → ℕ → Scheduler
push_blocked s p =
    let (l, q) = process_queue_push s.links s.blocked_q p in record s { links = l; blocked_q = q }

unfoldable pub remove_blocked : Scheduler → ℕ → Scheduler
remove_blocked s p =
    let (l, q) = process_queue_remove s.links s.blocked_q p in record s { links = l; blocked_q = q }

unfoldable pub push_finished : Scheduler → ℕ → Scheduler
push_finished s p =
    let (l, q) = process_queue_push s.links s.finished_q p in record s { links = l; finished_q = q }

unfoldable pub ready_queue_push : Scheduler → ℕ → Scheduler
ready_queue_push s p =
    let pr = clamp_priority (s.procs.priority p % 256) in
    if p == 0 then s else push_ready (set_priority s p pr) pr p

-- The loop of `ready_queue_pop_highest` over the priorities below the first argument, downwards.
unfoldable pub pop_below : ℕ → Scheduler → Scheduler × ℕ
pop_below zero s = (s, 0)
pop_below (suc pr) s =
    let (l, q, p) = process_queue_pop s.links (s.ready_queues pr) in
    let s' = record s { links = l; ready_queues = update s.ready_queues pr q } in
    let rest = pop_below pr s' in if p != 0 then (s', p) else rest

unfoldable pub ready_queue_pop_highest : Scheduler → Scheduler × ℕ
ready_queue_pop_highest s = pop_below (suc process_priority_max) s

-- The body of the inner loop of `apply_aging`: the new state and the next process to look at.
unfoldable pub age_process : Scheduler → ℕ → ℕ → Scheduler × ℕ
age_process s pr p =
    let ticks = (s.procs.wait_ticks p + 1) % 2 ^ 64 in
    let s1 = set_wait_ticks s p ticks in
    let old = s1.procs.priority p in
    let s2 = remove_ready s1 pr p in
    let boosted = clamp_priority ((old + aging_boost) % 256) in
    let s3 = push_ready (set_priority s2 p boosted) boosted p in
    let s4 = set_wait_ticks s3 p 0 in
    if leb aging_threshold ticks && ltb old process_priority_max
    then (s4, (s4.ready_queues pr).head)
    else (s1, s1.links.queue_next p)

-- The inner loop. A round moves on or takes a process out of the queue, so a queue of n processes
-- takes fewer than (n + 1) * (n + 1) rounds.
unfoldable pub age_queue : ℕ → ℕ → ℕ → Scheduler → Scheduler
age_queue zero pr p s = s
age_queue (suc fuel) pr p s =
    let (s', p') = age_process s pr p in
    let rest = age_queue fuel pr p' s' in if p == 0 then s else rest

unfoldable pub aging_fuel : ℕ
aging_fuel = 32768 * 32768

age_priority : ℕ → Scheduler → Scheduler
age_priority pr s = age_queue aging_fuel pr (s.ready_queues pr).head s

unfoldable pub apply_aging : Scheduler → Scheduler
unfolding age_priority
apply_aging s = age_priority 2 (age_priority 1 (age_priority 0 s))

unfoldable pub scheduler_current_process : Scheduler → ℕ
scheduler_current_process s = s.current

-- `p->state = PROCESS_STATE_READY; ready_queue_push(p);`
unfoldable pub make_ready : Scheduler → ℕ → Scheduler
make_ready s p = ready_queue_push (set_state s p ready) p

unfoldable pub scheduler_add_process : Scheduler → ℕ → Scheduler
scheduler_add_process s p = if p == 0 || p == s.idle_p then s else make_ready s p

-- `need_resched = 1;`
unfoldable pub request_schedule : Scheduler → Scheduler
request_schedule s = record s { need_resched = true }

unfoldable pub scheduler_block_current : Scheduler → Scheduler
scheduler_block_current s =
    if s.current == 0 || s.current == s.idle_p
    then s
    else request_schedule (set_state s s.current blocked)

-- Up to the timer interrupt that it raises, which is the next step of the system.
unfoldable pub scheduler_yield_current : ℕ → Scheduler → Scheduler
scheduler_yield_current now s =
    if s.current == 0 || s.current == s.idle_p
    then s
    else record s { last_switch_tick = (now + 2 ^ 64 - quantum_ticks) % 2 ^ 64 }

unfoldable pub request_if_higher : Scheduler → ℕ → Scheduler
request_if_higher s p =
    if s.current != 0 && ltb (s.procs.priority s.current) (s.procs.priority p)
    then record s { need_resched = true }
    else s

unfoldable pub leave_blocked : Scheduler → ℕ → Scheduler
leave_blocked s p = if is_blocked (s.procs.state p) then remove_blocked s p else s

unfoldable pub scheduler_unblock_process : Scheduler → ℕ → Scheduler
scheduler_unblock_process s p =
    if p == 0 then s else request_if_higher (make_ready (leave_blocked s p) p) p

unfoldable pub scheduler_collect_finished : Scheduler → Scheduler × ℕ
scheduler_collect_finished s =
    let (l, q, p) = process_queue_pop s.links s.finished_q in
    (record s { links = l; finished_q = q }, p)

-- `find_in_queue`, from `it` on; NULL if no process there has the pid.
unfoldable pub find_from : ℕ → Scheduler → ℕ → ℕ → ℕ
find_from zero s it pid = 0
find_from (suc fuel) s it pid =
    let rest = find_from fuel s (s.links.queue_next it) pid in
    if it == 0 then 0 else if s.procs.pid it == pid then it else rest

unfoldable pub find_in_queue : Scheduler → ProcessQueue → ℕ → ℕ
find_in_queue s q pid = find_from address_limit s q.head pid

-- `first || rest`, for pointers.
unfoldable pub or_else : ℕ → ℕ → ℕ
or_else p q = if p != 0 then p else q

unfoldable pub scheduler_find_by_pid : Scheduler → ℕ → ℕ
scheduler_find_by_pid s pid = or_else (find_in_queue s (s.ready_queues 0) pid) (
    or_else (find_in_queue s (s.ready_queues 1) pid) (
      or_else (find_in_queue s (s.ready_queues 2) pid) (
        or_else (find_in_queue s s.blocked_q pid) (
          or_else (find_in_queue s s.finished_q pid)
            (if s.current != 0 && s.procs.pid s.current == pid then s.current else 0)))))

unfoldable pub scheduler_unblock_by_pid : Scheduler → ℕ → Scheduler × Bool
scheduler_unblock_by_pid s pid =
    let p = scheduler_find_by_pid s pid in
    if p == 0 then (s, false) else (scheduler_unblock_process s p, true)

-- The steps of `scheduler_set_priority` on a process whose priority changes.
unfoldable pub leave_ready : Scheduler → ℕ → Scheduler
leave_ready s p = if is_ready (s.procs.state p) then remove_ready s (s.procs.priority p) p else s

unfoldable pub reprioritise : Scheduler → ℕ → ℕ → Scheduler
reprioritise s p pr = set_wait_ticks (set_base_priority (set_priority s p pr) p pr) p 0

unfoldable pub enter_ready : Scheduler → ℕ → Scheduler
enter_ready s p = if is_ready (s.procs.state p) then ready_queue_push s p else s

unfoldable pub set_process_priority : Scheduler → ℕ → ℕ → Scheduler
set_process_priority s p pr =
    request_if_higher (enter_ready (reprioritise (leave_ready s p) p pr) p) p

unfoldable pub scheduler_set_priority : Scheduler → ℕ → ℕ → Scheduler × Bool
scheduler_set_priority s pid new_priority =
    let p = scheduler_find_by_pid s pid in
    let pr = clamp_priority (new_priority % 256) in
    if p == 0 || p == s.idle_p
    then (s, false)
    else if s.procs.priority p == pr
    then (s, true)
    else (set_process_priority s p pr, true)

-- The READY case of `scheduler_block_by_pid`.
unfoldable pub block_ready : Scheduler → ℕ → Scheduler
block_ready s p =
    request_schedule (push_blocked (set_state (remove_ready s (s.procs.priority p) p) p blocked) p)

unfoldable pub scheduler_block_by_pid : Scheduler → ℕ → Scheduler × Bool
scheduler_block_by_pid s pid =
    let p = scheduler_find_by_pid s pid in
    if p == 0 || p == s.idle_p
    then (s, false)
    else if p == s.current
    then (request_schedule (set_state s p blocked), true)
    else if is_ready (s.procs.state p)
    then (block_ready s p, true)
    else (s, true)
