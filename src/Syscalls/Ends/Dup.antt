-- ===== src/Syscalls/Ends/Dup.antt =====
-- Kernel/syscalls/syscalls_kernel.c: what a descriptor is behind `syscall_pipe_dup`.
use so_tp.Base.{ℕ, zero, suc, ◌≡◌, ◌<◌, ◌≤◌, ◌⊎◌, Option, none, some, ◌==◌, if◌then◌else◌}
use so_tp.State.{FdType, pipe_read, pipe_write}
use so_tp.Pipe.{PipeTable, pipe_get_by_id}
use so_tp.Syscalls.{Reply, answers, waits}
use so_tp.Syscalls.Ends.{open_new, dup_onto}
use so_tp.Syscalls.Ends.Open.{fd_pipe_of, fd_type_of}

-- The type of a descriptor for a mode.
abbrev pub kind_of : ℕ → FdType
kind_of zero = pipe_read
kind_of (suc mode) = pipe_write

abbrev Chosen : ℕ → ℕ → ℕ → ℕ → ℕ → Reply PipeTable → Type 0
Chosen p i pipe_id j mode (answers t zero) = (2 ≤ mode) ⊎ (pipe_get_by_id t pipe_id ≡ none)
Chosen p i pipe_id j mode (answers t (suc n)) =
    (mode < 2) × (fd_pipe_of t p i ≡ some j) × (fd_type_of t p i ≡ kind_of mode)
Chosen p i pipe_id j mode (waits t) = Unit {0}

by_mode : ℕ → PipeTable → ℕ → ℕ → ℕ → ℕ → ℕ → Reply PipeTable
by_mode now t p i pipe_id j mode =
    if mode == 0
    then open_new now t p i pipe_id j pipe_read
    else if mode == 1
    then open_new now t p i pipe_id j pipe_write
    else answers t 0

-- What an answer to a dup stands for; `t` is the state before.
abbrev pub Duplicated : PipeTable → ℕ → ℕ → ℕ → Reply PipeTable → Type 0
Duplicated t pipe_id fd mode (answers t' zero) =
    (16 ≤ fd) ⊎ ((t.sems.sched.current ≡ 0) ⊎ ((2 ≤ mode) ⊎ (pipe_get_by_id t' pipe_id ≡ none)))
Duplicated t pipe_id fd mode (answers t' (suc n)) =
    (fd < 16)
    × (mode < 2)
    × ((j : ℕ) × (pipe_get_by_id t pipe_id ≡ some j)
        × (fd_pipe_of t' t.sems.sched.current fd ≡ some j)
        × (fd_type_of t' t.sems.sched.current fd ≡ kind_of mode))
Duplicated t pipe_id fd mode (waits t') =
    (fd < 16) × ((j : ℕ) × (pipe_get_by_id t pipe_id ≡ some j))

abbrev known : ℕ → PipeTable → ℕ → ℕ → ℕ → ℕ → Option ℕ → Reply PipeTable
known now t me fd pipe_id mode none = answers t 0
known now t me fd pipe_id mode (some j) = dup_onto now t me fd pipe_id j mode
