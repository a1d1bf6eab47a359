-- ===== src/Files.antt =====
-- Kernel/proc/process.c, `process_close_fds`: the files that a process has open.
use so_tp.Base.{ℕ, zero, suc, ◌+◌, Bool, true, false, Option, none, ◌==◌, if◌then◌else◌, update}
use so_tp.State.{Scheduler, FdType, terminal, max_fds}
use so_tp.Semaphore.{Outcome, returns, parks}
use so_tp.Pipe.{PipeTable, pipe_get_id, pipe_close_by_id}

unfoldable pub with_sched : PipeTable → Scheduler → PipeTable
with_sched t s = record t { sems = record (t.sems) { sched = s } }

-- The type and the pipe of a descriptor are cleared.
unfoldable pub clear_fd : PipeTable → ℕ → ℕ → PipeTable
clear_fd t p i =
    let c = t.sems.sched.procs in
    record t {
      sems = record (t.sems) {
        sched = record (t.sems.sched) {
          procs = record c {
            fd_type = update c.fd_type p (update (c.fd_type p) i terminal);
            fd_pipe = update c.fd_pipe p (update (c.fd_pipe p) i none);
          };
        };
      };
    }

abbrev pub is_pipe : FdType → Bool
is_pipe terminal = false
is_pipe _ = true

abbrev pub is_writer : FdType → Bool
is_writer FdType.pipe_write = true
is_writer _ = false

-- `pipe_close_by_id` on the pipe of a descriptor, if it has one that is in use.
unfoldable pub close_end : ℕ → PipeTable → Option ℕ → Bool → Outcome PipeTable
close_end now t pipe writer =
    let id = pipe_get_id t pipe in
    if id == 0 then returns t true else pipe_close_by_id now t id writer

-- The body of the loop of `process_close_fds`; a park is one in the wait of `pipe_close_by_id`.
unfoldable pub close_fd : ℕ → PipeTable → ℕ → ℕ → Outcome PipeTable
close_fd now t p i =
    let c = t.sems.sched.procs in
    if is_pipe (c.fd_type p i)
    then elim (close_end now t (c.fd_pipe p i) (is_writer (c.fd_type p i))) [
      | returns t' b ↦ returns (clear_fd t' p i) true
      | parks t' ↦ parks t'
    ]
    else returns t true

unfoldable pub close_fds_from : ℕ → ℕ → ℕ → PipeTable → ℕ → Outcome PipeTable
close_fds_from zero now i t p = returns t true
close_fds_from (suc n) now i t p = elim (close_fd now t p i) [
  | returns t' b ↦ close_fds_from n now (i + 1) t' p
  | parks t' ↦ parks t'
]

unfoldable pub process_close_fds : ℕ → PipeTable → ℕ → Outcome PipeTable
process_close_fds now t p = if p == 0 then returns t true else close_fds_from max_fds now 0 t p
