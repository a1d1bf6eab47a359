-- ===== src/Tests/Schedules.antt =====
-- The run queues with two ready processes, 16 and 32, a blocked one, 48, the running one, 64, and
-- the idle process, 80.
use so_tp.Base.{
  ℕ, ◌≡◌, ◌≢◌, ◌<◌, refl, true, false, [], ◌∷◌, arith, update, none, ◌==◌, if◌then◌else◌, inl, inr,
  eq-cases, eq→==, ne→==, All, ◌%◌,
}
use so_tp.Queue.{Links, ProcessQueue, address_limit}
use so_tp.Queue.Chain.{Holds}
use so_tp.State.{Processes, Scheduler, ProcessState, terminal, ready, running, blocked, new}
use so_tp.Scheduler.{
  clamp_priority, ready_queue_pop_highest, scheduler_unblock_process, scheduler_block_by_pid,
  scheduler_set_priority, scheduler_find_by_pid, find_in_queue, find_from, or_else,
}
use so_tp.Scheduler.Places.{
  Place, ready_at, blocked_at, finished_at, Lists, Represents, Free, queue_at, Belongs,
}
use so_tp.Scheduler.Enqueue.{append_at, queue_priority}
use so_tp.Scheduler.Moves.{Popped, pop_highest-Popped}
use so_tp.Scheduler.Wake.{unblock-Represents, erase_at}
use so_tp.Scheduler.Block.{block_by_pid-Represents}
use so_tp.Scheduler.Priority.{set_priority-Represents}
use so_tp.Scheduler.Find.{Found, find_by_pid-Found, find_by_pid-ne_zero}

abbrev zeros : ℕ → ℕ
zeros _ = 0

abbrev pub states : ℕ → ProcessState
states p =
    if p == 16
    then ready
    else if p == 32
    then ready
    else if p == 48
    then blocked
    else if p == 64
    then running
    else new

abbrev pub processes : Processes
processes = record {
  pid = λ p.
      if p == 16
      then 3
      else if p == 32
      then 4
      else if p == 48
      then 5
      else if p == 64
      then 2
      else if p == 80
      then 1
      else 0;
  name = λ p. [];
  state = states;
  priority = λ p. if p == 48 then 2 else if p == 80 then 0 else 1;
  base_priority = λ p. 1;
  wait_ticks = zeros;
  rsp = zeros;
  rbp = zeros;
  kernel_stack_base = zeros;
  kernel_stack_top = zeros;
  user_stack_base = zeros;
  user_stack_top = zeros;
  entry_point = zeros;
  entry_arg = zeros;
  waiting_on_pid = zeros;
  is_foreground = λ p. false;
  parent = zeros;
  first_child = zeros;
  next_sibling = zeros;
  prev_sibling = zeros;
  waiters_head = zeros;
  waiter_next = zeros;
  waiting_on_sem = zeros;
  sem_waiter_next = zeros;
  fd_type = λ p fd. terminal;
  fd_pipe = λ p fd. none;
}

abbrev links : Links
links = record { queue_next = update zeros 16 32; queue_prev = update zeros 32 16 }

abbrev empty : ProcessQueue
empty = record { head = 0; tail = 0; size = 0 }

abbrev pair : ProcessQueue
pair = record { head = 16; tail = 32; size = 2 }

abbrev single : ProcessQueue
single = record { head = 48; tail = 48; size = 1 }

abbrev pub scheduler : Scheduler
scheduler = record {
  procs = processes;
  links = links;
  ready_queues = λ pr. if pr == 1 then pair else empty;
  blocked_q = single;
  finished_q = empty;
  current = 64;
  idle_p = 80;
  need_resched = false;
  last_switch_tick = 0;
}

abbrev pub lists : Lists
lists (ready_at pr) = if pr == 1 then 16 ∷ 32 ∷ [] else []
lists blocked_at = 48 ∷ []
lists finished_at = []

empty-Holds : Holds links empty []
empty-Holds = record {
  chain = tt;
  head_first = refl;
  tail_last = refl;
  size_length = refl;
  distinct = tt;
  addresses = tt;
}

pair-Holds : Holds links pair (16 ∷ 32 ∷ [])
unfolding address_limit
pair-Holds = record {
  chain = omega arith;
  head_first = refl;
  tail_last = refl;
  size_length = refl;
  distinct = omega arith;
  addresses = omega arith;
}

single-Holds : Holds links single (48 ∷ [])
unfolding address_limit
single-Holds = record {
  chain = omega arith;
  head_first = refl;
  tail_last = refl;
  size_length = refl;
  distinct = omega arith;
  addresses = omega arith;
}

scheduler-Holds : (x : Place) → Holds links (queue_at scheduler x) (lists x)
scheduler-Holds (ready_at pr) = elim (eq-cases pr 1) [
  | inl e ↦ rw (eq→== pr 1 e) pair-Holds
  | inr n ↦ rw (ne→== pr 1 n) empty-Holds
]
scheduler-Holds blocked_at = single-Holds
scheduler-Holds finished_at = empty-Holds

scheduler-Belongs : (x : Place) → All (Belongs processes x) (lists x)
scheduler-Belongs (ready_at pr) = elim (eq-cases pr 1) [
  | inl e ↦ rw (eq→== pr 1 e, e) ((refl, refl), ((refl, refl), tt))
  | inr n ↦ rw (ne→== pr 1 n) tt
]
scheduler-Belongs blocked_at = (refl, tt)
scheduler-Belongs finished_at = tt

pub scheduler-Represents : Represents scheduler lists
scheduler-Represents = record { holds = scheduler-Holds; belongs = scheduler-Belongs }

-- 3 is the pid of 16, and 2 that of the running process.
pid_three : scheduler_find_by_pid scheduler 3 ≡ 16
unfolding scheduler_find_by_pid find_in_queue find_from or_else address_limit
pid_three = refl

pid_two : scheduler_find_by_pid scheduler 2 ≡ 64
unfolding scheduler_find_by_pid find_in_queue find_from or_else address_limit
pid_two = refl

pub current-Free : Free lists 64
current-Free (ready_at pr) = elim (eq-cases pr 1) [
  | inl e ↦ rw (eq→== pr 1 e) (omega arith)
  | inr n ↦ rw (ne→== pr 1 n) tt
]
current-Free blocked_at = omega arith
current-Free finished_at = tt

pub sample_limit : (n : ℕ) → n < 0x20000000 → n < address_limit
unfolding address_limit
sample_limit n h = h

clamp_two : clamp_priority 2 ≡ 2
unfolding clamp_priority
clamp_two = refl

pop_highest-Popped_example : Popped 3 lists (ready_queue_pop_highest scheduler)
pop_highest-Popped_example = pop_highest-Popped scheduler lists scheduler-Represents

unblock-Represents_example :
    Represents
      (scheduler_unblock_process scheduler 48)
      (append_at (erase_at lists blocked_at 48) (ready_at (queue_priority processes 48)) 48)
unblock-Represents_example =
    unblock-Represents {s = scheduler} {f = lists} 48 scheduler-Represents refl (omega arith)
      (sample_limit 48 (omega arith))

block_by_pid-Represents_example :
    let (s', done) = scheduler_block_by_pid scheduler 3 in
    (done ≡ true)
    × (s'.need_resched ≡ true)
    × (s'.procs.state 16 ≡ blocked)
    × Represents s' (append_at (erase_at lists (ready_at 1) 16) blocked_at 16)
block_by_pid-Represents_example =
    block_by_pid-Represents {s = scheduler} {f = lists} 3 1 16 scheduler-Represents pid_three refl
      (omega arith) (omega arith)

priority_two : 1 ≢ clamp_priority (2 % 256)
unfolding clamp_priority
priority_two = omega arith

set_priority-Represents_example :
    let (s', done) = scheduler_set_priority scheduler 3 2 in
    (done ≡ true)
    × Represents s'
        (append_at (erase_at lists (ready_at 1) 16) (ready_at (clamp_priority (2 % 256))) 16)
set_priority-Represents_example =
    set_priority-Represents {s = scheduler} {f = lists} 3 2 1 16 scheduler-Represents pid_three refl
      (omega arith) priority_two

find_by_pid-Found_example : Found scheduler lists 5 (scheduler_find_by_pid scheduler 5)
find_by_pid-Found_example = find_by_pid-Found {s = scheduler} {f = lists} 5 scheduler-Represents

find_by_pid-ne_zero_example : scheduler_find_by_pid scheduler 5 ≢ 0
find_by_pid-ne_zero_example =
    find_by_pid-ne_zero {s = scheduler} {f = lists} 5 48 blocked_at scheduler-Represents tt refl
      refl
