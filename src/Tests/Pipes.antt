-- ===== src/Tests/Pipes.antt =====
-- A pipe that holds the bytes 7, 8 and 9, with its three semaphores.
use so_tp.Base.{◌≡◌, refl, false, ℕ, true, false, [], ◌∷◌, some, arith, ◌==◌, if◌then◌else◌}
use so_tp.Semaphore.{Semaphore, SemaphoreTable}
use so_tp.Semaphore.{find_slot_from, find_slot_by_id, sem_get_by_id}
use so_tp.Semaphore.Values.{value_of}
use so_tp.Pipe.Calm.{is_cut}
use so_tp.Pipe.Ends.{pipe_read_ends, pipe_write_ends}
use so_tp.Pipe.{Pipe, PipeTable}
use so_tp.Pipe.Transfer.{pipe_read, pipe_write}
use so_tp.Pipe.Window.{IsValid}
use so_tp.Pipe.Fifo.{ReadKeeps, pipe_read-ReadKeeps}
use so_tp.Pipe.Store.{WriteKeeps, pipe_write-WriteKeeps}
use so_tp.Tests.Schedules.{scheduler}

abbrev pipe_slots : ℕ → Semaphore
pipe_slots i =
    if i == 0
    then record { used = true; id = 1; refcount = 1; value = 1; wait_head = 0; wait_tail = 0 }
    else if i == 1
    then record { used = true; id = 2; refcount = 1; value = 3; wait_head = 0; wait_tail = 0 }
    else if i == 2
    then record { used = true; id = 3; refcount = 1; value = 4096; wait_head = 0; wait_tail = 0 }
    else record { used = false; id = 0; refcount = 0; value = 0; wait_head = 0; wait_tail = 0 }

abbrev pipe_sems : SemaphoreTable
pipe_sems = record { sched = scheduler; semaphores = pipe_slots; next_sem_id = 4 }

abbrev three_bytes : Pipe
three_bytes = record {
  id = 1;
  buffer = λ k. if k == 4095 then 7 else if k == 0 then 8 else if k == 1 then 9 else 0;
  read_pos = 4095;
  write_pos = 2;
  count = 3;
  readers = 1;
  writers = 1;
  sem_items = 2;
  sem_spaces = 3;
  mutex = 1;
  used = true;
}

abbrev pub pipe_table : PipeTable
pipe_table = record { sems = pipe_sems; pipes = λ _. three_bytes; next_pipe_id = 2 }

three_bytes-IsValid : IsValid three_bytes
three_bytes-IsValid = omega arith

pipe_read-ReadKeeps_example :
    ReadKeeps (λ _. three_bytes) 0 [] (pipe_read 10 7 pipe_table (some 0) 4096 2)
pipe_read-ReadKeeps_example = pipe_read-ReadKeeps 10 7 pipe_table 0 4096 2 three_bytes-IsValid

pipe_write-WriteKeeps_example :
    WriteKeeps
      (λ _. three_bytes)
      0
      []
      (5 ∷ 6 ∷ [])
      (pipe_write 10 7 pipe_table (some 0) 4096 (5 ∷ 6 ∷ []))
pipe_write-WriteKeeps_example =
    pipe_write-WriteKeeps 10 7 pipe_table 0 4096 (5 ∷ 6 ∷ []) three_bytes-IsValid

items_value : value_of pipe_sems 2 ≡ 3
unfolding sem_get_by_id find_slot_by_id find_slot_from
items_value = refl

spaces_value : value_of pipe_sems 3 ≡ 4096
unfolding sem_get_by_id find_slot_by_id find_slot_from
spaces_value = refl

pipe_read_ends_example : is_cut (pipe_read 10 7 pipe_table (some 0) 4096 2) ≡ false
pipe_read_ends_example =
    pipe_read_ends 10 7 pipe_table 0 4096 2 (omega arith) (omega arith) (omega arith)
      (omega (arith, items_value))

pipe_write_ends_example : is_cut (pipe_write 5000 7 pipe_table (some 0) 4096 (5 ∷ 6 ∷ [])) ≡ false
pipe_write_ends_example =
    pipe_write_ends 5000 7 pipe_table 0 4096 (5 ∷ 6 ∷ []) (omega arith) (omega arith) (omega arith)
      (omega (arith, spaces_value))
