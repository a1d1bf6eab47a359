-- ===== src/Pipe.antt =====
-- Kernel/ipc/pipe.c. A `pipe_t *` is the index of its slot in `pipes`, and NULL is `none`.
-- A call that waits on a semaphore may park the process: the code behind the wait, which runs when
-- the process is woken and scheduled, is a function of its own.
pub mod Transfer
pub mod Window
pub mod Fifo
pub mod Store
pub mod Calm
pub mod Ends
use so_tp.Base.{
  ℕ, zero, suc, ◌+◌, ◌-◌, ◌%◌, ◌^◌, Bool, true, false, ◌&&◌, ◌||◌, not, Option, none, some, List,
  [], ◌∷◌, ◌++◌, update, ◌==◌, ◌!=◌, ltb, leb, if◌then◌else◌, length,
}
use so_tp.Semaphore.{
  SemaphoreTable, Outcome, returns, parks, sem_alloc, sem_close_by_id, sem_wait_by_id,
  sem_signal_by_id,
}

abbrev pub max_pipes : ℕ
max_pipes = 64

abbrev pub pipe_buffer_size : ℕ
pipe_buffer_size = 4096

-- `struct pipe_t`; `buffer` has the indices 0 to 4095.
pub record Pipe : Type 0 where
  pub id : ℕ
  pub buffer : ℕ → ℕ
  pub read_pos : ℕ
  pub write_pos : ℕ
  pub count : ℕ
  pub readers : ℕ
  pub writers : ℕ
  pub sem_items : ℕ
  pub sem_spaces : ℕ
  pub mutex : ℕ
  pub used : Bool

-- The file-level variables, beside the semaphores that the operations call.
pub record PipeTable : Type 0 where
  pub sems : SemaphoreTable
  pub pipes : ℕ → Pipe
  pub next_pipe_id : ℕ

unfoldable pub set_pipe : PipeTable → ℕ → Pipe → PipeTable
set_pipe t i p = record t { pipes = update t.pipes i p }

unfoldable pub signal : PipeTable → ℕ → PipeTable
signal t id = record t { sems = (sem_signal_by_id t.sems id).0 }

unfoldable pub close_sem : PipeTable → ℕ → PipeTable
close_sem t id = record t { sems = (sem_close_by_id t.sems id).0 }

-- What `memset(p, 0, sizeof(pipe_t))` leaves.
unfoldable pub zeroed_pipe : Pipe
zeroed_pipe = record {
  id = 0;
  buffer = λ _. 0;
  read_pos = 0;
  write_pos = 0;
  count = 0;
  readers = 0;
  writers = 0;
  sem_items = 0;
  sem_spaces = 0;
  mutex = 0;
  used = false;
}

-- `pipe_system_init` writes every field but the bytes of the buffers.
unfoldable pub pipe_system_init : PipeTable → PipeTable
pipe_system_init t = record t {
  pipes = λ i. record zeroed_pipe { buffer = (t.pipes i).buffer };
  next_pipe_id = 1;
}

unfoldable pub find_pipe_from : ℕ → ℕ → PipeTable → ℕ → Option ℕ
find_pipe_from zero i t id = none
find_pipe_from (suc n) i t id =
    let rest = find_pipe_from n (i + 1) t id in
    if (t.pipes i).used && (t.pipes i).id == id then some i else rest

unfoldable pub find_pipe_by_id : PipeTable → ℕ → Option ℕ
find_pipe_by_id t id = find_pipe_from max_pipes 0 t id

unfoldable pub pipe_get_by_id : PipeTable → ℕ → Option ℕ
pipe_get_by_id t id = if id == 0 then none else find_pipe_by_id t id

unfoldable pub pipe_get_id : PipeTable → Option ℕ → ℕ
pipe_get_id t none = 0
pipe_get_id t (some i) = (t.pipes i).id

abbrev set_sem_items : PipeTable → ℕ → ℕ → PipeTable
set_sem_items t i v = set_pipe t i (record (t.pipes i) { sem_items = v })

abbrev set_sem_spaces : PipeTable → ℕ → ℕ → PipeTable
set_sem_spaces t i v = set_pipe t i (record (t.pipes i) { sem_spaces = v })

abbrev set_mutex : PipeTable → ℕ → ℕ → PipeTable
set_mutex t i v = set_pipe t i (record (t.pipes i) { mutex = v })

-- The end of `pipe_create` at slot `i`, with the three semaphores in place.
unfoldable pub create_finish : PipeTable → ℕ → PipeTable × ℕ
create_finish t i =
    let p = t.pipes i in
    (
      record (set_pipe t i (record p {
        id = t.next_pipe_id;
        read_pos = 0;
        write_pos = 0;
        count = 0;
        readers = 0;
        writers = 0;
        used = true;
      })) { next_pipe_id = (t.next_pipe_id + 1) % 2 ^ 64 },
      t.next_pipe_id,
    )

unfoldable pub create_mutex : PipeTable → ℕ → PipeTable × ℕ
create_mutex t i =
    let (s, id) = sem_alloc t.sems 1 in
    let t' = set_mutex (record t { sems = s }) i id in
    if id == 0
    then (close_sem (close_sem t' (t'.pipes i).sem_items) (t'.pipes i).sem_spaces, 0)
    else create_finish t' i

unfoldable pub create_spaces : PipeTable → ℕ → PipeTable × ℕ
create_spaces t i =
    let (s, id) = sem_alloc t.sems pipe_buffer_size in
    let t' = set_sem_spaces (record t { sems = s }) i id in
    if id == 0 then (close_sem t' (t'.pipes i).sem_items, 0) else create_mutex t' i

-- The body of the loop of `pipe_create` at a slot that is not in use.
unfoldable pub create_at : PipeTable → ℕ → PipeTable × ℕ
create_at t0 i =
    let t = set_pipe t0 i zeroed_pipe in
    let (s, id) = sem_alloc t.sems 0 in
    let t' = set_sem_items (record t { sems = s }) i id in
    if id == 0 then (t', 0) else create_spaces t' i

unfoldable pub create_from : ℕ → ℕ → PipeTable → PipeTable × ℕ
create_from zero i t = (t, 0)
create_from (suc n) i t =
    let rest = create_from n (i + 1) t in if not (t.pipes i).used then create_at t i else rest

unfoldable pub pipe_create : PipeTable → PipeTable × ℕ
pipe_create t = create_from max_pipes 0 t

-- `pipe_open_by_id` behind the wait for the mutex.
unfoldable pub open_locked : PipeTable → ℕ → Bool → PipeTable
open_locked t i is_writer =
    let p = t.pipes i in
    let t' = set_pipe t i (
      if is_writer
      then record p { writers = p.writers + 1 }
      else record p { readers = p.readers + 1 }) in
    signal t' p.mutex

-- The answer of a call that waits for the mutex first, whatever the wait answers.
unfoldable pub behind_mutex : ℕ → PipeTable → ℕ → (PipeTable → PipeTable) → Outcome PipeTable
behind_mutex now t i locked = elim (sem_wait_by_id now t.sems (t.pipes i).mutex) [
  | returns s _ ↦ returns (locked (record t { sems = s })) true
  | parks s ↦ parks (record t { sems = s })
]

unfoldable pub pipe_open_by_id : ℕ → PipeTable → ℕ → Bool → Outcome PipeTable
pipe_open_by_id now t id is_writer = elim (pipe_get_by_id t id) [
  | none ↦ returns t false
  | some i ↦ behind_mutex now t i (λ t'. open_locked t' i is_writer)
]

-- The loop that wakes the readers when the last writer has gone.
unfoldable pub signal_times : ℕ → PipeTable → ℕ → PipeTable
signal_times zero t id = t
signal_times (suc n) t id = signal_times n (signal t id) id

abbrev min_hundred : ℕ → ℕ
min_hundred n = if ltb n 100 then n else 100

-- The pipe once the caller's end is given back.
unfoldable pub release_end : Pipe → Bool → Pipe
release_end p true = if ltb 0 p.writers then record p { writers = p.writers - 1 } else p
release_end p false = if ltb 0 p.readers then record p { readers = p.readers - 1 } else p

unfoldable pub destroy_pipe : PipeTable → ℕ → PipeTable
destroy_pipe t i =
    let p = t.pipes i in
    let t1 = set_pipe t i (record p {
      used = false;
      id = 0;
      sem_items = 0;
      sem_spaces = 0;
      mutex = 0;
      read_pos = 0;
      write_pos = 0;
      count = 0;
    }) in
    close_sem (close_sem (close_sem (signal t1 p.mutex) p.sem_items) p.sem_spaces) p.mutex

unfoldable pub wake_readers : PipeTable → ℕ → PipeTable
wake_readers t i = signal_times (min_hundred (t.pipes i).readers) t (t.pipes i).sem_items

-- `pipe_close_by_id` behind the wait for the mutex.
unfoldable pub close_locked : PipeTable → ℕ → Bool → PipeTable
close_locked t i is_writer =
    let p = t.pipes i in
    let p' = release_end p is_writer in
    let was_last_writer = is_writer && ltb 0 p.writers && p'.writers == 0 in
    let t1 = set_pipe t i p' in
    let t2 = if was_last_writer then wake_readers t1 i else t1 in
    if p'.readers == 0 && p'.writers == 0 then destroy_pipe t1 i else signal t2 p'.mutex

unfoldable pub pipe_close_by_id : ℕ → PipeTable → ℕ → Bool → Outcome PipeTable
pipe_close_by_id now t id is_writer = elim (pipe_get_by_id t id) [
  | none ↦ returns t false
  | some i ↦ behind_mutex now t i (λ t'. close_locked t' i is_writer)
]
