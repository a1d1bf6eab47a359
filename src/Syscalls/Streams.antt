-- ===== src/Syscalls/Streams.antt =====
-- Kernel/syscalls/syscalls_kernel.c, `syscall_read` and `syscall_write`, and the wait for a character
-- of Kernel/drivers/keyBoardDriver.c. The bytes read so far stand for what is stored in the caller's
-- buffer.
pub mod Lines
use so_tp.Base.{
  ℕ, zero, suc, ◌+◌, ◌-◌, ◌<◌, ℤ, pos, negsuc, Bool, true, false, ◌&&◌, ◌||◌, Option, none, some,
  List, [], ◌∷◌, ◌++◌, ◌==◌, ◌!=◌, ltb, leb, if◌then◌else◌, length,
}
use so_tp.State.{FdType, terminal, pipe_read, pipe_write, max_fds}
use so_tp.Scheduler.{scheduler_current_process, scheduler_block_by_pid}
use so_tp.Semaphore.{returns, parks, sem_wait_by_id}
use so_tp.Pipe.{PipeTable}
use so_tp.Pipe.Transfer.{Transfer}
use so_tp.Keyboard.{Keyboard, buffer_empty, keyboard_read_getchar}
use so_tp.Files.{with_sched}

-- A read of the terminal, and where it stops: at its end, parked in the wait for a character or for
-- a pipe, or cut
-- off when the fuel of a loop is used up.
pub data Reading : Type 0 where
  done : Keyboard → PipeTable → List ℕ → Reading
  cut_off : Keyboard → PipeTable → List ℕ → Reading
  at_keyboard : Keyboard → PipeTable → List ℕ → Reading
  at_pipe : Keyboard → PipeTable → List ℕ → Reading

-- `keyboard_wait_for_char`, with what follows it.
unfoldable pub keyboard_wait_for_char :
    ℕ → ℕ → Keyboard → PipeTable → List ℕ → (PipeTable → Reading) → Reading
keyboard_wait_for_char zero now k t got next = cut_off k t got
keyboard_wait_for_char (suc fuel) now k t got next =
    let again = keyboard_wait_for_char fuel now k t got next in
    if buffer_empty k.buffer
    then if k.kbd_sem_id != 0
      then elim (sem_wait_by_id now t.sems k.kbd_sem_id) [
        | returns s b ↦ keyboard_wait_for_char fuel now k (record t { sems = s }) got next
        | parks s ↦ at_keyboard k (record t { sems = s }) got
      ]
      else again
    else next t

-- What a character that is not 0 does to the read; ^D is 4, the end of a line 10.
unfoldable pub take_char : Keyboard → PipeTable → List ℕ → ℕ → (List ℕ → Reading) → Reading
take_char k t got c next =
    if c == 4
    then done k t got
    else if c == 10
    then done k t (got ++ c ∷ [])
    else next (got ++ c ∷ [])

-- The loop of a read of the terminal.
unfoldable pub terminal_read : ℕ → ℕ → Keyboard → PipeTable → ℕ → List ℕ → Reading
terminal_read zero now k t count got = cut_off k t got
terminal_read (suc fuel) now k t count got =
    let k' = (keyboard_read_getchar k).0 in
    let c = (keyboard_read_getchar k).1 in
    if ltb (length got) count
    then if c == 0
      then keyboard_wait_for_char fuel now k' t got (λ t'. terminal_read fuel now k' t' count got)
      else take_char k' t got c (λ got'. terminal_read fuel now k' t count got')
    else done k t got

unfoldable pub of_transfer : Keyboard → Transfer → Reading
of_transfer k (Transfer.done t got) = done k t got
of_transfer k (Transfer.cut_off t got) = cut_off k t got
of_transfer k (Transfer.at_mutex t got) = at_pipe k t got
of_transfer k (Transfer.at_wait t got) = at_pipe k t got

-- A process in the background that reads the terminal is blocked instead.
unfoldable pub read_terminal : ℕ → ℕ → Keyboard → PipeTable → ℕ → ℕ → ℕ → Reading
read_terminal fuel now k t me fd count =
    let s = t.sems.sched in
    if fd != 0
    then done k t []
    else if s.procs.is_foreground me
    then terminal_read fuel now k t count []
    else done k (with_sched t (scheduler_block_by_pid s (s.procs.pid me)).0) []

-- The read of the descriptor `fd` of the process that runs.
unfoldable pub read_fd : ℕ → ℕ → Keyboard → PipeTable → ℕ → ℕ → ℕ → Reading
read_fd fuel now k t fd buffer count =
    let me = scheduler_current_process t.sems.sched in
    let c = t.sems.sched.procs in
    if leb max_fds fd || me == 0 then done k t [] else elim (c.fd_type me fd) [
      | terminal ↦ read_terminal fuel now k t me fd count
      | FdType.pipe_read ↦
          of_transfer k (so_tp.Pipe.Transfer.pipe_read fuel now t (c.fd_pipe me fd) buffer count)
      | FdType.pipe_write ↦ done k t []
    ]

unfoldable pub syscall_read : ℕ → ℕ → Keyboard → PipeTable → ℤ → ℕ → ℤ → Reading
syscall_read fuel now k t (pos fd) buffer (pos count) =
    if buffer == 0 || count == 0 then done k t [] else read_fd fuel now k t fd buffer count
syscall_read fuel now k t _ buffer _ = done k t []

-- What is written to the screen, or to a pipe.
pub data Writing : Type 0 where
  shown : PipeTable → List ℕ → Writing
  piped : Transfer → Writing
  refused : PipeTable → Writing

unfoldable pub write_fd : ℕ → ℕ → PipeTable → ℕ → ℕ → List ℕ → Writing
write_fd fuel now t fd buffer bytes =
    let me = scheduler_current_process t.sems.sched in
    let c = t.sems.sched.procs in
    if leb max_fds fd || me == 0 then refused t else elim (c.fd_type me fd) [
      | terminal ↦ if fd == 1 then shown t bytes else refused t
      | FdType.pipe_write ↦
          piped (so_tp.Pipe.Transfer.pipe_write fuel now t (c.fd_pipe me fd) buffer bytes)
      | FdType.pipe_read ↦ refused t
    ]

-- `bytes` are the `count` bytes at the address `buffer`, none for a count that is not positive.
unfoldable pub syscall_write : ℕ → ℕ → PipeTable → ℤ → ℕ → List ℕ → Writing
syscall_write fuel now t (pos fd) buffer bytes =
    if buffer == 0 || length bytes == 0 then refused t else write_fd fuel now t fd buffer bytes
syscall_write fuel now t (negsuc fd) buffer bytes = refused t
