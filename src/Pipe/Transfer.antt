-- ===== src/Pipe/Transfer.antt =====
-- Kernel/ipc/pipe.c, `pipe_read` and `pipe_write`. The bytes moved so far stand for the counter
-- and for what is stored in the caller's buffer.
use so_tp.Base.{
  ℕ, zero, suc, ◌+◌, ◌-◌, ◌%◌, Bool, true, false, ◌&&◌, ◌||◌, Option, none, some, List, [], ◌∷◌,
  ◌++◌, update, ◌==◌, ltb, if◌then◌else◌, length,
}
use so_tp.Semaphore.{returns, parks, sem_wait_by_id}
use so_tp.Pipe.{Pipe, PipeTable, pipe_buffer_size, set_pipe, signal}

-- Where a transfer stops: at its end, parked in the wait for the mutex or for the semaphore of the
-- items (of the spaces, when writing), or cut off when the fuel of its loop is used up.
pub data Transfer : Type 0 where
  done : PipeTable → List ℕ → Transfer
  cut_off : PipeTable → List ℕ → Transfer
  at_mutex : PipeTable → List ℕ → Transfer
  at_wait : PipeTable → List ℕ → Transfer

-- What the code does while it holds the mutex: it leaves the loop, moves a byte, or finds that it
-- has to wait. The mutex is given back in each case.
pub data Locked : Type 0 where
  stops : PipeTable → Locked
  moves : PipeTable → ℕ → Locked
  must_wait : PipeTable → Locked

-- The pipe without its oldest byte.
unfoldable pub take_byte : Pipe → Pipe
take_byte p = record p { read_pos = (p.read_pos + 1) % pipe_buffer_size; count = p.count - 1 }

unfoldable pub read_locked : PipeTable → ℕ → Locked
read_locked t i =
    let p = t.pipes i in
    let taken = set_pipe t i (take_byte p) in
    if p.count == 0 && p.writers == 0
    then stops (signal t p.mutex)
    else if ltb 0 p.count
    then moves (signal (signal taken p.mutex) p.sem_spaces) (p.buffer p.read_pos)
    else must_wait (signal t p.mutex)

-- `sem_wait_by_id`, and what follows it when it answers 1, answers 0, or parks.
unfoldable pub waited :
    ℕ
    → PipeTable
    → ℕ
    → (PipeTable → Transfer)
    → (PipeTable → Transfer)
    → (PipeTable → Transfer)
    → Transfer
waited now t id go refused parked = elim (sem_wait_by_id now t.sems id) [
  | returns s b ↦ let t' = record t { sems = s } in elim b [ true ↦ go t' | false ↦ refused t' ]
  | parks s ↦ parked (record t { sems = s })
]

unfoldable pub is_nil : List ℕ → Bool
is_nil [] = true
is_nil (x ∷ xs) = false

-- The rest of a round of the loop of `pipe_read`, behind the wait for the mutex.
unfoldable pub read_round : ℕ → (PipeTable → List ℕ → Transfer) → PipeTable → ℕ → List ℕ → Transfer
read_round now loop t i got = elim (read_locked t i) [
  | stops t' ↦ done t' got
  | moves t' b ↦ loop t' (got ++ b ∷ [])
  | must_wait t' ↦ elim (is_nil got) [
    | false ↦ done t' got
    | true ↦
        waited now t' (t'.pipes i).sem_items (λ u. loop u got) (λ u. done u got)
          (λ u. at_wait u got)
  ]
]

-- The loop of `pipe_read` with the bytes read so far.
unfoldable pub read_loop : ℕ → ℕ → ℕ → ℕ → PipeTable → List ℕ → Transfer
read_loop zero now i count t got = cut_off t got
read_loop (suc fuel) now i count t got = elim (ltb (length got) count) [
  | false ↦ done t got
  | true ↦
      waited now t (t.pipes i).mutex
        (λ u. read_round now (λ v g. read_loop fuel now i count v g) u i got) (λ u. done u got)
        (λ u. at_mutex u got)
]

-- `buffer` is the address that the caller gives; the bytes read are what is stored there.
unfoldable pub pipe_read : ℕ → ℕ → PipeTable → Option ℕ → ℕ → ℕ → Transfer
pipe_read fuel now t none buffer count = done t []
pipe_read fuel now t (some i) buffer count =
    if buffer == 0 || count == 0 then done t [] else read_loop fuel now i count t []

-- The pipe with one byte more.
unfoldable pub put_byte : Pipe → ℕ → Pipe
put_byte p b = record p {
  buffer = update p.buffer p.write_pos b;
  write_pos = (p.write_pos + 1) % pipe_buffer_size;
  count = p.count + 1;
}

unfoldable pub write_locked : PipeTable → ℕ → ℕ → Locked
write_locked t i b =
    let p = t.pipes i in
    let written = set_pipe t i (put_byte p b) in
    if p.readers == 0
    then stops (signal t p.mutex)
    else if ltb p.count pipe_buffer_size
    then moves (signal (signal written p.mutex) p.sem_items) b
    else must_wait (signal t p.mutex)

-- The rest of a round of the loop of `pipe_write`, for the byte `b` that comes next.
unfoldable pub write_round :
    ℕ → (PipeTable → Transfer) → (PipeTable → Transfer) → PipeTable → ℕ → ℕ → List ℕ → Transfer
write_round now next again t i b sent = elim (write_locked t i b) [
  | stops t' ↦ done t' sent
  | moves t' _ ↦ next t'
  | must_wait t' ↦
      waited now t' (t'.pipes i).sem_spaces again (λ u. done u sent) (λ u. at_wait u sent)
]

-- The loop of `pipe_write` with the bytes written so far and those to come.
unfoldable pub write_loop : ℕ → ℕ → ℕ → PipeTable → List ℕ → List ℕ → Transfer
write_loop zero now i t sent todo = cut_off t sent
write_loop (suc fuel) now i t sent [] = done t sent
write_loop (suc fuel) now i t sent (b ∷ todo) =
    waited now t (t.pipes i).mutex
      (λ u.
        write_round now (λ v. write_loop fuel now i v (sent ++ b ∷ []) todo)
          (λ v. write_loop fuel now i v sent (b ∷ todo)) u i b sent)
      (λ u. done u sent) (λ u. at_mutex u sent)

-- `bytes` are the `count` bytes at the address `buffer`.
unfoldable pub pipe_write : ℕ → ℕ → PipeTable → Option ℕ → ℕ → List ℕ → Transfer
pipe_write fuel now t none buffer bytes = done t []
pipe_write fuel now t (some i) buffer bytes =
    if buffer == 0 || length bytes == 0 then done t [] else write_loop fuel now i t [] bytes
