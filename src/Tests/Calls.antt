-- ===== src/Tests/Calls.antt =====
-- System calls of the running process, 64, of the scheduler of Tests/Schedules.
use so_tp.Base.{◌≡◌, refl, ap, [], ◌∷◌, All, arith, ◌==◌, if◌then◌else◌}
use so_tp.Queue.{address_limit}
use so_tp.Queue.Chain.{zero-lt_address_limit}
use so_tp.State.{Scheduler, is_finished}
use so_tp.Scheduler.{scheduler_find_by_pid, find_in_queue, find_from, or_else}
use so_tp.Keyboard.{Keyboard}
use so_tp.Keyboard.Ring.{IsRing}
use so_tp.Lifecycle.{end_process}
use so_tp.Lifecycle.Waiters.{IsWoken}
use so_tp.Lifecycle.Woken.{without_blocked, readied, end_process-Woken}
use so_tp.Scheduler.Places.{ready_at, blocked_at, finished_at, put_at, Represents}
use so_tp.Scheduler.Enqueue.{append_at, Represents-procs}
use so_tp.Scheduler.Wake.{erase_at}
use so_tp.Syscalls.{syscall_wait}
use so_tp.Syscalls.Packing.{unpack, packed, unpack-packed}
use so_tp.Syscalls.Waiting.{Waits, syscall_wait-Waits}
use so_tp.Syscalls.Ends.{syscall_pipe_release_fd}
use so_tp.Syscalls.Ends.Release.{ReleasedFd, syscall_pipe_release_fd-ReleasedFd}
use so_tp.Syscalls.Streams.{terminal_read}
use so_tp.Syscalls.Streams.Lines.{Reads, line, terminal_read-Reads}
use so_tp.Tests.Schedules.{scheduler, processes, lists, scheduler-Represents}
use so_tp.Tests.Pipes.{pipe_table}
use so_tp.Tests.Keys.{caps_on}

unpack-packed_example :
    unpack (packed 1 3 65535)
    ≡ record { is_foreground = 1; stdin_pipe_id = 3; stdout_pipe_id = 65535 }
unpack-packed_example = unpack-packed 1 3 65535 (omega arith) (omega arith) (omega arith)

-- The blocked process 48 waits for 16.
abbrev awaited : Scheduler
awaited = record scheduler {
  procs = record processes { waiters_head = λ p. if p == 16 then 48 else 0 };
}

awaited-Represents : Represents awaited lists
awaited-Represents = Represents-procs _ scheduler-Represents refl refl

end_process-Woken_example :
    All (IsWoken (end_process awaited 16)) (48 ∷ [])
    × ((end_process awaited 16).procs.waiters_head 16 ≡ 0)
    × Represents (without_blocked (end_process awaited 16)) (
        append_at
          (readied awaited.procs (put_at (erase_at lists (ready_at 1) 16) blocked_at []) (48 ∷ []))
          finished_at
          16)
end_process-Woken_example =
    end_process-Woken {s = awaited} {f = lists} (ready_at 1) 16 (48 ∷ []) awaited-Represents tt refl
      (refl, omega arith, refl) (tt, tt) (omega (arith, zero-lt_address_limit)) (omega arith, tt)
      (refl, tt)

found : scheduler_find_by_pid scheduler 3 ≡ 16
unfolding scheduler_find_by_pid find_in_queue find_from or_else address_limit
found = refl

syscall_wait-Waits_example : Waits scheduler 3 [] (syscall_wait 9 scheduler 3)
syscall_wait-Waits_example =
    syscall_wait-Waits 9 scheduler 3 [] refl tt (omega arith) (omega arith) (omega (arith, found))
      (ap (λ p. is_finished (processes.state p)) found) (omega arith) (omega arith)
      (omega (arith, found))

syscall_pipe_release_fd-ReleasedFd_example :
    ReleasedFd pipe_table 5 (syscall_pipe_release_fd 9 pipe_table 5)
syscall_pipe_release_fd-ReleasedFd_example = syscall_pipe_release_fd-ReleasedFd 9 pipe_table 5

-- An h, the end of a line and an i.
abbrev keys : Keyboard
keys = record caps_on {
  buffer = record {
    buffer = λ i. if i == 255 then 104 else if i == 0 then 10 else 105;
    read_index = 255;
    write_index = 2;
    size = 3;
  };
}

keys-IsRing : IsRing keys.buffer
keys-IsRing = omega arith

terminal_read-Reads_example :
    Reads 9 keys pipe_table 8 []
      (line 8 (104 ∷ 10 ∷ 105 ∷ []))
      (terminal_read 20 9 keys pipe_table 8 [])
terminal_read-Reads_example =
    terminal_read-Reads 9 pipe_table 8 20 keys [] (104 ∷ 10 ∷ 105 ∷ []) 8 keys-IsRing refl
      (omega arith, (omega arith, (omega arith, tt))) refl (omega arith)
