-- ===== src/Lifecycle.antt =====
-- Kernel/proc/scheduler.c: the switch to another process, and the end of a process.
pub mod Dispatch
pub mod Foreground
pub mod Saving
pub mod Ending
pub mod Waiters
pub mod Woken
use so_tp.Base.{
  ℕ, zero, suc, ◌+◌, ◌-◌, ◌%◌, ◌^◌, Bool, true, false, ◌&&◌, ◌||◌, not, Option, none, some, List,
  [], ◌∷◌, ◌++◌, ◌==◌, ◌!=◌, ltb, leb, if◌then◌else◌, update, length,
}
use so_tp.Queue.{ProcessQueue, address_limit}
use so_tp.State.{
  Scheduler, Processes, FdType, terminal, ProcessState, ready, running, blocked, finished, is_ready,
  is_running, is_blocked, is_finished, process_priority_max, max_fds,
}
use so_tp.Scheduler.{
  quantum_ticks, set_state, set_priority, set_wait_ticks, set_foreground, push_blocked,
  push_finished, make_ready, ready_queue_push, ready_queue_pop_highest, apply_aging, leave_ready,
  leave_blocked, request_schedule, scheduler_collect_finished, scheduler_find_by_pid,
}
use so_tp.Semaphore.{Outcome, returns, parks}
use so_tp.Pipe.{PipeTable, pipe_get_id, pipe_close_by_id}
use so_tp.Files.{with_sched, process_close_fds}

abbrev pub max_finished_collect : ℕ
max_finished_collect = 4

-- The body of the loop over the waiters of `p`, for the first of them, `w`.
unfoldable pub wake_waiting : Scheduler → ℕ → ℕ → Scheduler
wake_waiting s p w =
    make_ready
      (record s {
        procs = record (s.procs) {
          waiters_head = update s.procs.waiters_head p (s.procs.waiter_next w);
          waiter_next = update s.procs.waiter_next w 0;
          waiting_on_pid = update s.procs.waiting_on_pid w 0;
        };
      })
      w

unfoldable pub wake_all_waiting : ℕ → Scheduler → ℕ → Scheduler
wake_all_waiting zero s p = s
wake_all_waiting (suc fuel) s p =
    let w = s.procs.waiters_head p in
    let rest = wake_all_waiting fuel (wake_waiting s p w) p in if w == 0 then s else rest

-- The parent of a process that ends gets the foreground back.
unfoldable pub hands_over : Scheduler → ℕ → Bool
hands_over s p =
    s.procs.is_foreground p
    && s.procs.parent p != 0
    && not (is_finished (s.procs.state (s.procs.parent p)))

unfoldable pub hand_over : Scheduler → ℕ → Scheduler
hand_over s p = if hands_over s p then set_foreground s (s.procs.parent p) true else s

unfoldable pub save_registers : Scheduler → ℕ → ℕ → ℕ → Scheduler
save_registers s p current_rsp saved_rbp = record s {
  procs = record (s.procs) {
    rsp = update s.procs.rsp p current_rsp;
    rbp = update s.procs.rbp p saved_rbp;
  };
}

-- `saved_rbp` is the word that the interrupt has pushed at `((uint64_t *) current_rsp)[10]`. The
-- second answer is whether the keyboard buffer has to be cleared.
unfoldable pub save_context : Scheduler → ℕ → ℕ → ℕ → Scheduler × Bool
save_context s p current_rsp saved_rbp =
    let s1 = save_registers s p current_rsp saved_rbp in
    let ended = push_finished (wake_all_waiting address_limit (hand_over s1 p) p) p in
    let st = s.procs.state p in
    if p == 0
    then (s, false)
    else if is_running st
    then (if p != s.idle_p then make_ready s1 p else s1, false)
    else if is_blocked st
    then (push_blocked s1 p, false)
    else if is_finished st
    then (ended, hands_over s1 p)
    else (s1, false)

-- The first process of the ready queues of the priorities below `pr`, from the top, or NULL.
unfoldable pub peek_below : ℕ → Scheduler → ℕ
peek_below zero s = 0
peek_below (suc pr) s =
    let rest = peek_below pr s in
    if (s.ready_queues pr).head != 0 then (s.ready_queues pr).head else rest

unfoldable pub must_switch : ℕ → Scheduler → Bool
must_switch now s =
    let peek = peek_below (suc process_priority_max) s in
    not (is_running (s.procs.state s.current))
    || (peek != 0 && ltb (s.procs.priority s.current) (s.procs.priority peek))
    || leb quantum_ticks ((now + 2 ^ 64 - s.last_switch_tick) % 2 ^ 64)
    || s.need_resched

unfoldable pub run_process : Scheduler → ℕ → Scheduler
run_process s p = set_wait_ticks (set_state s p running) p 0

-- A priority raised by aging goes back to the base when the process runs.
unfoldable pub restore_priority : Scheduler → ℕ → Scheduler
restore_priority s p =
    if p != s.idle_p && ltb (s.procs.base_priority p) (s.procs.priority p)
    then set_priority s p (s.procs.base_priority p)
    else s

unfoldable pub start : ℕ → Scheduler → ℕ → Scheduler
start now s next = record (restore_priority (run_process s next) next) {
  current = next;
  last_switch_tick = now;
}

-- The choice of the next process in `schedule`.
unfoldable pub dispatch : ℕ → Scheduler → Scheduler
dispatch now s =
    let (s', p) = ready_queue_pop_highest s in start now s' (if p == 0 then s'.idle_p else p)

-- The loop that takes finished processes out, which are then destroyed, `n` at most.
unfoldable pub collect : ℕ → Scheduler → Scheduler × List ℕ
collect zero s = (s, [])
collect (suc n) s =
    let (s', p) = scheduler_collect_finished s in
    let (s'', ps) = collect n s' in if p == 0 then (s', []) else (s'', p ∷ ps)

-- What `schedule` answers: the stack pointer to go on with, whether the keyboard buffer has to be
-- cleared, and the processes that it destroys.
pub record Switch : Type 0 where
  pub sched : Scheduler
  pub rsp : ℕ
  pub clears_keyboard : Bool
  pub destroyed : List ℕ

unfoldable pub switch_process : ℕ → Scheduler → ℕ → ℕ → Switch
switch_process now s current_rsp saved_rbp =
    let (s1, clears) =
      save_context (record s { need_resched = false }) s.current current_rsp saved_rbp in
    let s2 = dispatch now s1 in
    let (s3, ps) = collect max_finished_collect s2 in
    record { sched = s3; rsp = s3.procs.rsp s3.current; clears_keyboard = clears; destroyed = ps }

unfoldable pub no_switch : Scheduler → ℕ → Switch
no_switch s current_rsp = record {
  sched = s;
  rsp = current_rsp;
  clears_keyboard = false;
  destroyed = [];
}

unfoldable pub schedule : ℕ → Scheduler → ℕ → ℕ → Switch
schedule now s current_rsp saved_rbp =
    let aged = apply_aging s in
    if s.current == 0
    then no_switch s current_rsp
    else if must_switch now aged
    then switch_process now aged current_rsp saved_rbp
    else no_switch aged current_rsp

unfoldable pub scheduler_finish_current : ℕ → PipeTable → Outcome PipeTable
scheduler_finish_current now t =
    let me = t.sems.sched.current in
    if me == 0 || me == t.sems.sched.idle_p
    then returns t true
    else elim (process_close_fds now t me) [
      | returns t' b ↦
          returns (with_sched t' (request_schedule (set_state t'.sems.sched me finished))) true
      | parks t' ↦ parks t'
    ]

-- `scheduler_kill_by_pid` behind `process_close_fds`.
unfoldable pub leave_queues : Scheduler → ℕ → Scheduler
leave_queues s p = if is_ready (s.procs.state p) then leave_ready s p else leave_blocked s p

unfoldable pub end_process : Scheduler → ℕ → Scheduler
end_process s p =
    let ended =
      push_finished
        (wake_all_waiting address_limit (set_state (leave_queues (hand_over s p) p) p finished) p)
        p in
    if p == s.current then request_schedule ended else ended

unfoldable pub scheduler_kill_by_pid : ℕ → PipeTable → ℕ → Outcome PipeTable
scheduler_kill_by_pid now t pid =
    let p = scheduler_find_by_pid t.sems.sched pid in
    if p == 0 then returns t false else elim (process_close_fds now t p) [
      | returns t' b ↦ returns (with_sched t' (end_process t'.sems.sched p)) true
      | parks t' ↦ parks t'
    ]
