-- ===== src/Syscalls/Ends.antt =====
-- Kernel/syscalls/syscalls_kernel.c, the calls on the ends of pipes.
pub mod Open
pub mod Dup
pub mod Release
use so_tp.Base.{
  ℕ, zero, suc, ◌+◌, ◌%◌, ◌^◌, ◌≡◌, ◌≢◌, ◌≤◌, ◌<◌, ◌⊎◌, refl, sym, ◌∙◌, ap, inl, inr, arith, Bool,
  true, false, ◌&&◌, ◌||◌, Option, none, some, ◌==◌, ◌!=◌, ltb, leb, if◌then◌else◌, update, if_true,
  if_false, eq→==, ne→==, subst, Bool-cases, update_self,
}
use so_tp.State.{Scheduler, FdType, terminal, pipe_read, pipe_write, max_fds}
use so_tp.Scheduler.{scheduler_current_process}
use so_tp.Semaphore.{Outcome, returns, parks}
use so_tp.Pipe.{
  PipeTable, pipe_get_by_id, pipe_get_id, pipe_create, pipe_open_by_id, pipe_close_by_id,
}
use so_tp.Files.{with_sched, clear_fd, is_pipe, is_writer, close_end}
use so_tp.Syscalls.{Reply, answers, waits, reply, word}

unfoldable pub syscall_pipe_create : PipeTable → Reply PipeTable
syscall_pipe_create t = let r = pipe_create t in answers r.0 r.1

-- `is_writer` is taken as an `int`.
unfoldable pub syscall_pipe_open : ℕ → PipeTable → ℕ → ℕ → Reply PipeTable
syscall_pipe_open now t pipe_id is_writer =
    reply (pipe_open_by_id now t pipe_id (is_writer % 2 ^ 32 != 0))

-- The loop over the descriptors of `p` from `i` on: whether the first of the pipe is one to write; the
-- end to write is taken where there is none.
unfoldable pub writer_end : ℕ → ℕ → PipeTable → ℕ → ℕ → Bool
writer_end zero i t p pipe_id = true
writer_end (suc n) i t p pipe_id =
    let c = t.sems.sched.procs in
    let rest = writer_end n (i + 1) t p pipe_id in
    if is_pipe (c.fd_type p i) && pipe_get_id t (c.fd_pipe p i) == pipe_id
    then is_writer (c.fd_type p i)
    else rest

unfoldable pub syscall_pipe_close : ℕ → PipeTable → ℕ → Reply PipeTable
syscall_pipe_close now t pipe_id =
    let me = scheduler_current_process t.sems.sched in
    if pipe_id == 0 || me == 0
    then answers t 0
    else reply (pipe_close_by_id now t pipe_id (writer_end max_fds 0 t me pipe_id))

unfoldable pub set_fd_type : PipeTable → ℕ → ℕ → FdType → PipeTable
set_fd_type t p i kind =
    let s = t.sems.sched in
    with_sched t (record s {
      procs = record (s.procs) {
        fd_type = update s.procs.fd_type p (update (s.procs.fd_type p) i kind);
      };
    })

unfoldable pub set_fd_pipe : PipeTable → ℕ → ℕ → Option ℕ → PipeTable
set_fd_pipe t p i pipe =
    let s = t.sems.sched in
    with_sched t (record s {
      procs = record (s.procs) {
        fd_pipe = update s.procs.fd_pipe p (update (s.procs.fd_pipe p) i pipe);
      };
    })

-- The pipe that the descriptor has is closed.
unfoldable pub close_old : ℕ → PipeTable → ℕ → ℕ → Outcome PipeTable
close_old now t p i =
    let c = t.sems.sched.procs in
    if is_pipe (c.fd_type p i)
    then elim (close_end now t (c.fd_pipe p i) (is_writer (c.fd_type p i))) [
      | returns t' b ↦ returns (set_fd_pipe t' p i none) true
      | parks t' ↦ parks t'
    ]
    else returns t true

-- The new end is opened; the descriptor keeps the kind when that fails.
unfoldable pub open_new : ℕ → PipeTable → ℕ → ℕ → ℕ → ℕ → FdType → Reply PipeTable
open_new now t p i pipe_id j kind =
    elim (pipe_open_by_id now (set_fd_type t p i kind) pipe_id (is_writer kind)) [
      | returns t' b ↦ if b then answers (set_fd_pipe t' p i (some j)) 1 else answers t' 0
      | parks t' ↦ waits t'
    ]

unfoldable pub dup_onto : ℕ → PipeTable → ℕ → ℕ → ℕ → ℕ → ℕ → Reply PipeTable
dup_onto now t p i pipe_id j mode = elim (close_old now t p i) [
  | returns t' b ↦
      if mode == 0
      then open_new now t' p i pipe_id j pipe_read
      else if mode == 1
      then open_new now t' p i pipe_id j pipe_write
      else answers t' 0
  | parks t' ↦ waits t'
]

unfoldable pub syscall_pipe_dup : ℕ → PipeTable → ℕ → ℕ → ℕ → Reply PipeTable
syscall_pipe_dup now t pipe_id fd mode =
    let me = scheduler_current_process t.sems.sched in
    if leb max_fds fd || me == 0 then answers t 0 else elim (pipe_get_by_id t pipe_id) [
      | none ↦ answers t 0
      | some j ↦ dup_onto now t me fd pipe_id j mode
    ]

unfoldable pub release_fd : ℕ → PipeTable → ℕ → ℕ → Reply PipeTable
release_fd now t p i =
    let c = t.sems.sched.procs in
    elim (if is_pipe (c.fd_type p i)
      then close_end now t (c.fd_pipe p i) (is_writer (c.fd_type p i))
      else returns t true) [ returns t' b ↦ answers (clear_fd t' p i) 1 | parks t' ↦ waits t' ]

unfoldable pub syscall_pipe_release_fd : ℕ → PipeTable → ℕ → Reply PipeTable
syscall_pipe_release_fd now t fd =
    let me = scheduler_current_process t.sems.sched in
    if leb max_fds fd || me == 0 then answers t 0 else release_fd now t me fd
