-- ===== src/Process.antt =====
-- Kernel/proc/process.c, the creation and the destruction of a process, and what
-- Kernel/proc/scheduler.c adds to it. The memory manager and the assembly routine that lays out a
-- new stack are parameters.
pub mod Family
pub mod Listing
use so_tp.Base.{
  ℕ, zero, suc, ◌+◌, ◌%◌, ◌^◌, Bool, true, false, ◌&&◌, ◌||◌, Option, none, some, List, [], ◌∷◌,
  ◌==◌, ◌!=◌, if◌then◌else◌, update,
}
use so_tp.Queue.{Links, process_queue_init}
use so_tp.State.{
  Scheduler, Processes, FdType, terminal, ProcessState, new, ready, running,
  process_priority_default, max_fds,
}
use so_tp.Scheduler.{clamp_priority, set_state, scheduler_add_process, reprioritise}
use so_tp.Semaphore.{Outcome, returns, parks}
use so_tp.Pipe.{PipeTable, pipe_get_by_id, pipe_get_id, pipe_open_by_id}
use so_tp.Files.{with_sched, close_fds_from, is_pipe, is_writer}

abbrev pub process_name_max_len : ℕ
process_name_max_len = 32

abbrev pub process_kernel_stack_size : ℕ
process_kernel_stack_size = 16384

-- The first `n` characters.
unfoldable pub first_characters : ℕ → List ℕ → List ℕ
first_characters zero cs = []
first_characters (suc n) [] = []
first_characters (suc n) (c ∷ cs) = c ∷ first_characters n cs

-- A string is the list of its characters without the final 0; NULL stands for "proc".
unfoldable pub copy_name : Option (List ℕ) → List ℕ
copy_name none = 112 ∷ 114 ∷ 111 ∷ 99 ∷ []
copy_name (some cs) = first_characters process_name_max_len cs

-- What `memset(p, 0, sizeof(*p))` leaves of the control block `p`, beside the links.
unfoldable pub blank_process : Processes → ℕ → Processes
blank_process c p = record {
  pid = update c.pid p 0;
  name = update c.name p [];
  state = update c.state p new;
  priority = update c.priority p 0;
  base_priority = update c.base_priority p 0;
  wait_ticks = update c.wait_ticks p 0;
  rsp = update c.rsp p 0;
  rbp = update c.rbp p 0;
  kernel_stack_base = update c.kernel_stack_base p 0;
  kernel_stack_top = update c.kernel_stack_top p 0;
  user_stack_base = update c.user_stack_base p 0;
  user_stack_top = update c.user_stack_top p 0;
  entry_point = update c.entry_point p 0;
  entry_arg = update c.entry_arg p 0;
  waiting_on_pid = update c.waiting_on_pid p 0;
  is_foreground = update c.is_foreground p false;
  parent = update c.parent p 0;
  first_child = update c.first_child p 0;
  next_sibling = update c.next_sibling p 0;
  prev_sibling = update c.prev_sibling p 0;
  waiters_head = update c.waiters_head p 0;
  waiter_next = update c.waiter_next p 0;
  waiting_on_sem = update c.waiting_on_sem p 0;
  sem_waiter_next = update c.sem_waiter_next p 0;
  fd_type = update c.fd_type p (λ _. terminal);
  fd_pipe = update c.fd_pipe p (λ _. none);
}

unfoldable pub blank : PipeTable → ℕ → PipeTable
blank t p =
    let s = t.sems.sched in
    with_sched t (record s {
      procs = blank_process s.procs p;
      links = record {
        queue_next = update s.links.queue_next p 0;
        queue_prev = update s.links.queue_prev p 0;
      };
    })

-- The arguments of `process_create`.
pub record Request : Type 0 where
  pub name : Option (List ℕ)
  pub entry_point : ℕ
  pub entry_arg : ℕ
  pub parent : ℕ
  pub is_foreground : Bool
  pub stdin_pipe_id : ℕ
  pub stdout_pipe_id : ℕ

-- The fields written before the files are opened; those left out are 0 already.
unfoldable pub fill_process : Processes → ℕ → ℕ → ℕ → Request → Processes
fill_process c p stack pid q = record c {
  kernel_stack_base = update c.kernel_stack_base p stack;
  kernel_stack_top = update c.kernel_stack_top p (stack + process_kernel_stack_size);
  pid = update c.pid p pid;
  entry_point = update c.entry_point p q.entry_point;
  entry_arg = update c.entry_arg p q.entry_arg;
  state = update c.state p new;
  is_foreground = update c.is_foreground p q.is_foreground;
  priority = update c.priority p process_priority_default;
  base_priority = update c.base_priority p process_priority_default;
  wait_ticks = update c.wait_ticks p 0;
  name = update c.name p (copy_name q.name);
}

unfoldable pub set_fd : PipeTable → ℕ → ℕ → FdType → Option ℕ → PipeTable
set_fd t p i kind pipe =
    let s = t.sems.sched in
    let c = s.procs in
    with_sched t (record s {
      procs = record c {
        fd_type = update c.fd_type p (update (c.fd_type p) i kind);
        fd_pipe = update c.fd_pipe p (update (c.fd_pipe p) i pipe);
      };
    })

-- A pipe given for the standard input or output.
unfoldable pub open_given : ℕ → PipeTable → ℕ → ℕ → ℕ → Bool → FdType → Outcome PipeTable
open_given now t p i id writer kind =
    if id == 0 then returns t true else elim (pipe_get_by_id t id) [
      | none ↦ returns t true
      | some j ↦ elim (pipe_open_by_id now t id writer) [
        | returns t' b ↦ returns (if b then set_fd t' p i kind (some j) else t') true
        | parks t' ↦ parks t'
      ]
    ]

-- The parent's descriptor `i`, of the kind of a pipe.
unfoldable pub inherit_pipe : ℕ → PipeTable → ℕ → ℕ → FdType → Option ℕ → Outcome PipeTable
inherit_pipe now t p i kind pipe =
    let id = pipe_get_id t pipe in
    if id == 0
    then returns (set_fd t p i terminal none) true
    else elim (pipe_open_by_id now (set_fd t p i kind none) id (is_writer kind)) [
      | returns t' b ↦
          returns (if b then set_fd t' p i kind pipe else set_fd t' p i terminal none) true
      | parks t' ↦ parks t'
    ]

unfoldable pub inherit_fd : ℕ → PipeTable → ℕ → ℕ → ℕ → Outcome PipeTable
inherit_fd now t p parent i =
    let kind = t.sems.sched.procs.fd_type parent i in
    if is_pipe kind
    then inherit_pipe now t p i kind (t.sems.sched.procs.fd_pipe parent i)
    else returns (set_fd t p i kind none) true

unfoldable pub inherit_from : ℕ → ℕ → ℕ → PipeTable → ℕ → Request → Outcome PipeTable
inherit_from zero now i t p q = returns t true
inherit_from (suc n) now i t p q =
    let given = (i == 0 && q.stdin_pipe_id != 0) || (i == 1 && q.stdout_pipe_id != 0) in
    elim (if given then returns t true else inherit_fd now t p q.parent i) [
      | returns t' b ↦ inherit_from n now (i + 1) t' p q
      | parks t' ↦ parks t'
    ]

-- `a`, then `next` behind it.
unfoldable pub and_then : Outcome PipeTable → (PipeTable → Outcome PipeTable) → Outcome PipeTable
and_then a next = elim a [ returns t b ↦ next t | parks t ↦ parks t ]

unfoldable pub open_fds : ℕ → PipeTable → ℕ → Request → Outcome PipeTable
open_fds now t p q = and_then (open_given now t p 0 q.stdin_pipe_id false FdType.pipe_read) (λ t1.
    and_then (open_given now t1 p 1 q.stdout_pipe_id true FdType.pipe_write)
      (λ t2. if q.parent == 0 then returns t2 true else inherit_from max_fds now 0 t2 p q))

-- The new process becomes the first child of its parent.
unfoldable pub attach_child : Processes → ℕ → ℕ → Processes
attach_child c parent p =
    let old = c.first_child parent in
    if parent == 0 then c else record c {
      parent = update c.parent p parent;
      next_sibling = update c.next_sibling p old;
      prev_sibling = if old != 0 then update c.prev_sibling old p else c.prev_sibling;
      first_child = update c.first_child parent p;
    }

-- The part of `process_destroy` that takes a process out of its family.
unfoldable pub detach_child : Processes → ℕ → Processes
detach_child c p =
    let up = c.parent p in
    let prev = c.prev_sibling p in
    let next = c.next_sibling p in
    let nexts = if prev != 0 then update c.next_sibling prev next else c.next_sibling in
    let firsts =
      if prev == 0 && c.first_child up == p then update c.first_child up next else c.first_child in
    let prevs = if next != 0 then update c.prev_sibling next prev else c.prev_sibling in
    if up == 0 then c else record c {
      parent = update c.parent p 0;
      next_sibling = update nexts p 0;
      prev_sibling = update prevs p 0;
      first_child = firsts;
    }

-- The memory manager: a state, and what a call of `mm_alloc` and `mm_free` makes of it.
pub record MemoryManager (Heap : Type 0) : Type 0 where
  pub mm_alloc : Heap → ℕ → Heap × ℕ
  pub mm_free : Heap → ℕ → Heap

-- The state of the whole; `next_pid` is the variable of process.c.
pub record Machine (Heap : Type 0) : Type 0 where
  pub heap : Heap
  pub pipes : PipeTable
  pub next_pid : ℕ

-- `process_size` is `sizeof(process_t)`.
module _ {Heap : Type 0} (mm : MemoryManager Heap) (process_size : ℕ)
    (setup_process_context : ℕ → ℕ → ℕ → ℕ) where
  -- The end of `process_create`, once the files are open.
  unfoldable pub finish_process : PipeTable → ℕ → ℕ → Request → PipeTable
  finish_process t p stack q =
      let s = t.sems.sched in
      let c = attach_child s.procs q.parent p in
      let top = stack + process_kernel_stack_size in
      with_sched t (record s {
        procs = record c {
          rsp = update c.rsp p (setup_process_context top q.entry_point q.entry_arg);
          rbp = update c.rbp p top;
          state = update c.state p ready;
        };
      })

  -- `process_create` with both blocks of memory in place.
  unfoldable pub create_with : ℕ → Machine Heap → ℕ → ℕ → Request → Outcome (Machine Heap × ℕ)
  create_with now m p stack q =
      let s = m.pipes.sems.sched in
      let t = with_sched m.pipes (record s { procs = fill_process s.procs p stack m.next_pid q }) in
      let m' = record m { next_pid = (m.next_pid + 1) % 2 ^ 64 } in
      elim (open_fds now t p q) [
        | returns t' b ↦ returns (record m' { pipes = finish_process t' p stack q }, p) true
        | parks t' ↦ parks (record m' { pipes = t' }, p)
      ]

  unfoldable pub process_create : ℕ → Machine Heap → Request → Outcome (Machine Heap × ℕ)
  process_create now m q =
      let (h1, p) = mm.mm_alloc m.heap process_size in
      let (h2, stack) = mm.mm_alloc h1 process_kernel_stack_size in
      let t = blank m.pipes p in
      if q.entry_point == 0
      then returns (m, 0) false
      else if p == 0
      then returns (record m { heap = h1 }, 0) false
      else if stack == 0
      then returns (record m { heap = mm.mm_free h2 p; pipes = t }, 0) false
      else create_with now (record m { heap = h2; pipes = t }) p stack q

  unfoldable pub free_blocks : Heap → Processes → ℕ → Heap
  free_blocks h c p =
      let h1 = if c.kernel_stack_base p != 0 then mm.mm_free h (c.kernel_stack_base p) else h in
      let h2 = if c.user_stack_base p != 0 then mm.mm_free h1 (c.user_stack_base p) else h1 in
      mm.mm_free h2 p

  unfoldable pub release_process : Machine Heap → ℕ → Machine Heap
  release_process m p =
      let s = m.pipes.sems.sched in
      record m {
        heap = free_blocks m.heap s.procs p;
        pipes = with_sched m.pipes (record s { procs = detach_child s.procs p });
      }

  unfoldable pub process_destroy : ℕ → Machine Heap → ℕ → Outcome (Machine Heap)
  process_destroy now m p =
      if p == 0 then returns m true else elim (close_fds_from max_fds now 0 m.pipes p) [
        | returns t b ↦ returns (release_process (record m { pipes = t }) p) true
        | parks t ↦ parks (record m { pipes = t })
      ]

  -- `scheduler_spawn_process` behind `process_create`.
  unfoldable pub enlist : Machine Heap → ℕ → ℕ → Machine Heap
  enlist m p priority = record m {
    pipes = with_sched m.pipes (
        scheduler_add_process (reprioritise m.pipes.sems.sched p (clamp_priority (priority % 256)))
          p);
  }

  unfoldable pub scheduler_spawn_process :
      ℕ → Machine Heap → Request → ℕ → Outcome (Machine Heap × ℕ)
  scheduler_spawn_process now m q priority = elim (process_create now m q) [
    | returns (m', p) b ↦ returns (if p == 0 then m' else enlist m' p priority, p) true
    | parks (m', p) ↦ parks (m', p)
  ]
