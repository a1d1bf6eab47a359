-- ===== src/State.antt =====
-- Kernel/include/process.h and the static state of Kernel/proc/scheduler.c: the process control
-- blocks, one map for each field, the run queues and what runs now. The two link fields of a
-- process are in `Links`, beside the queues that use them.
use so_tp.Base.{ℕ, Bool, List, Option}
use so_tp.Queue.{Links, ProcessQueue}

-- `fd_type_t`.
pub data FdType : Type 0 where
  terminal pipe_read pipe_write : FdType

-- `process_state_t`; a constructor for each PROCESS_STATE_ constant.
pub data ProcessState : Type 0 where
  new ready running blocked finished : ProcessState

-- `struct process_control_block`: `pid p` is `p->pid`, and so on.
pub record Processes : Type 0 where
  pub pid : ℕ → ℕ
  pub name : ℕ → List ℕ
  pub state : ℕ → ProcessState
  pub priority : ℕ → ℕ
  pub base_priority : ℕ → ℕ
  pub wait_ticks : ℕ → ℕ
  pub rsp : ℕ → ℕ
  pub rbp : ℕ → ℕ
  pub kernel_stack_base : ℕ → ℕ
  pub kernel_stack_top : ℕ → ℕ
  pub user_stack_base : ℕ → ℕ
  pub user_stack_top : ℕ → ℕ
  pub entry_point : ℕ → ℕ
  pub entry_arg : ℕ → ℕ
  pub waiting_on_pid : ℕ → ℕ
  pub is_foreground : ℕ → Bool
  pub parent : ℕ → ℕ
  pub first_child : ℕ → ℕ
  pub next_sibling : ℕ → ℕ
  pub prev_sibling : ℕ → ℕ
  pub waiters_head : ℕ → ℕ
  pub waiter_next : ℕ → ℕ
  pub waiting_on_sem : ℕ → ℕ
  pub sem_waiter_next : ℕ → ℕ
  pub fd_type : ℕ → ℕ → FdType
  pub fd_pipe : ℕ → ℕ → Option ℕ

-- The file-level variables of scheduler.c. `ready_queues` has the indices 0 to 2.
pub record Scheduler : Type 0 where
  pub procs : Processes
  pub links : Links
  pub ready_queues : ℕ → ProcessQueue
  pub blocked_q : ProcessQueue
  pub finished_q : ProcessQueue
  pub current : ℕ
  pub idle_p : ℕ
  pub need_resched : Bool
  pub last_switch_tick : ℕ

abbrev pub process_priority_min : ℕ
process_priority_min = 0

abbrev pub process_priority_max : ℕ
process_priority_max = 2

abbrev pub process_priority_default : ℕ
process_priority_default = 1

abbrev pub max_fds : ℕ
max_fds = 16

-- Comparisons of states, as the code makes them.
abbrev pub is_ready : ProcessState → Bool
is_ready ready = Bool.true
is_ready _ = Bool.false

abbrev pub is_running : ProcessState → Bool
is_running running = Bool.true
is_running _ = Bool.false

abbrev pub is_blocked : ProcessState → Bool
is_blocked blocked = Bool.true
is_blocked _ = Bool.false

abbrev pub is_finished : ProcessState → Bool
is_finished finished = Bool.true
is_finished _ = Bool.false
