-- ===== src/Scheduler/Block.antt =====
-- Kernel/proc/scheduler.c: `scheduler_block_by_pid` on the lists of the run queues.
use so_tp.Base.{
  ℕ, ◌≡◌, ◌≢◌, ◌<◌, refl, inl, inr, true, ◌||◌, ◌==◌, update_self, update_ne, elem, eq→==, ne→==,
  All-elem, Bool-cases,
}
use so_tp.Queue.{address_limit}
use so_tp.Queue.Chain.{elem-ne_zero}
use so_tp.State.{Scheduler, blocked}
use so_tp.Scheduler.{
  set_state, remove_ready, push_blocked, request_schedule, block_ready, scheduler_find_by_pid,
  scheduler_block_by_pid, scheduler_block_current, scheduler_yield_current,
}
use so_tp.Scheduler.Places.{
  Place, ready_at, blocked_at, Lists, Belongs, Represents, Represents-agree, Free, Free-remove,
  Free-Represents, remove-Represents, push-Represents,
}
use so_tp.Scheduler.Enqueue.{append_at, requeue-append, Represents-queues}
use so_tp.Scheduler.Wake.{erase_at}

-- What the list of a place says of a process in it.
pub elem-Belongs :
    {s : Scheduler} {f : Lists} (x : Place) (p : ℕ)
    → Represents s f
    → elem p (f x) ≡ true
    → Belongs s.procs x p × (p ≢ 0) × (p < address_limit)
elem-Belongs {s} {f} x p r e = (
  All-elem (Belongs s.procs x) p (f x) (r.belongs x) e,
  elem-ne_zero s.links 0 p (f x) (r.holds x).chain e,
  All-elem (λ y. y < address_limit) p (f x) (r.holds x).addresses e,
)

pub remove_ready-Represents :
    {s : Scheduler} {f : Lists} (pr p : ℕ)
    → Represents s f
    → Represents (remove_ready s pr p) (erase_at f (ready_at pr) p)
unfolding remove_ready
remove_ready-Represents pr p r = remove-Represents (ready_at pr) p r

pub push_blocked-Represents :
    {s : Scheduler} {f : Lists} (p : ℕ)
    → Represents s f
    → Free f p
    → s.procs.state p ≡ blocked
    → p ≢ 0
    → p < address_limit
    → Represents (push_blocked s p) (append_at f blocked_at p)
unfolding push_blocked
push_blocked-Represents {s} {f} p r n st z a =
    Represents-agree (push-Represents blocked_at p r st z a)
      (requeue-append f blocked_at p (n blocked_at))

set_state-Represents :
    {s : Scheduler} {f : Lists} (p : ℕ)
    → Represents s f
    → Free f p
    → Represents (set_state s p blocked) f
unfolding set_state
set_state-Represents {s} p r n =
    Free-Represents _ p r n (λ q ne. (update_ne s.procs.state p q blocked ne, refl))

state-set_state : (s : Scheduler) (p : ℕ) → (set_state s p blocked).procs.state p ≡ blocked
unfolding set_state
state-set_state s p = update_self s.procs.state p blocked

block_ready-Represents :
    {s : Scheduler} {f : Lists} (pr p : ℕ)
    → Represents s f
    → elem p (f (ready_at pr)) ≡ true
    → Represents (block_ready s p) (append_at (erase_at f (ready_at pr) p) blocked_at p)
unfolding block_ready request_schedule
block_ready-Represents {s} {f} pr p r e =
    let (b, z, a) = elem-Belongs (ready_at pr) p r e in
    Represents-queues
      (push_blocked-Represents p
        (set_state-Represents p (rw b.1 (remove_ready-Represents pr p r))
          (Free-remove (ready_at pr) p r b))
        (Free-remove (ready_at pr) p r b) (state-set_state _ p) z a)
      refl refl refl refl refl

state-block_ready : (s : Scheduler) (p : ℕ) → (block_ready s p).procs.state p ≡ blocked
unfolding block_ready request_schedule push_blocked
state-block_ready s p = state-set_state _ p

-- Blocking a ready process by its pid answers 1 and asks for a new schedule. The process is then
-- in the state BLOCKED, out of the ready queue of its priority and at the end of the blocked queue;
-- no other process changes place.
pub block_by_pid-Represents :
    {s : Scheduler} {f : Lists} (pid pr p : ℕ)
    → Represents s f
    → scheduler_find_by_pid s pid ≡ p
    → elem p (f (ready_at pr)) ≡ true
    → p ≢ s.idle_p
    → p ≢ s.current
    → let (s', done) = scheduler_block_by_pid s pid in
      (done ≡ true)
      × (s'.need_resched ≡ true)
      × (s'.procs.state p ≡ blocked)
      × Represents s' (append_at (erase_at f (ready_at pr) p) blocked_at p)
unfolding scheduler_block_by_pid
block_by_pid-Represents {s} {f} pid pr p r found e ni nc =
    let (b, z, a) = elem-Belongs (ready_at pr) p r e in
    rw (found, ne→== p 0 z, ne→== p s.idle_p ni, ne→== p s.current nc, b.0)
      (
        refl,
        unfold block_ready request_schedule in refl,
        state-block_ready s p,
        block_ready-Represents pr p r e,
      )

-- Blocking the process that runs, which stands in no queue, answers 1, asks for a new schedule and
-- leaves every queue as it was: the process goes to the blocked queue when it is switched out.
pub block_by_pid_current :
    {s : Scheduler} {f : Lists} (pid : ℕ)
    → Represents s f
    → Free f s.current
    → scheduler_find_by_pid s pid ≡ s.current
    → s.current ≢ 0
    → s.current ≢ s.idle_p
    → let (s', done) = scheduler_block_by_pid s pid in
      (done ≡ true)
      × (s'.need_resched ≡ true)
      × (s'.procs.state s.current ≡ blocked)
      × Represents s' f
unfolding scheduler_block_by_pid
block_by_pid_current {s} {f} pid r n found z ni =
    rw (found, ne→== s.current 0 z, ne→== s.current s.idle_p ni, eq→== s.current s.current refl)
      (unfold request_schedule in
        (
          refl,
          refl,
          state-set_state s s.current,
          Represents-queues (set_state-Represents s.current r n) refl refl refl refl refl,
        ))

-- `scheduler_yield_current` writes nothing but the clock of the last switch.
pub record Yielded (s s' : Scheduler) : Type 0 where
  pub procs_kept : s'.procs ≡ s.procs
  pub flag_kept : s'.need_resched ≡ s.need_resched
  pub queues_kept : {f : Lists} → Represents s f → Represents s' f

pub yield-Yielded : (now : ℕ) (s : Scheduler) → Yielded s (scheduler_yield_current now s)
unfolding scheduler_yield_current
yield-Yielded now s = elim (Bool-cases (s.current == 0 || s.current == s.idle_p)) [
  | inl e ↦ rw e (record { procs_kept = refl; flag_kept = refl; queues_kept = λ r. r })
  | inr e ↦ rw e (record {
    procs_kept = refl;
    flag_kept = refl;
    queues_kept = λ r. Represents-queues r refl refl refl refl refl;
  })
]

block_current_lem :
    (s : Scheduler)
    → s.current ≢ 0
    → s.current ≢ s.idle_p
    → scheduler_block_current s ≡ request_schedule (set_state s s.current blocked)
unfolding scheduler_block_current
block_current_lem s z ni = rw (ne→== s.current 0 z, ne→== s.current s.idle_p ni)

-- A process in the state BLOCKED that has asked for a new schedule, beside the queues.
abbrev pub Stopped : Scheduler → Lists → ℕ → Type 0
Stopped s f me = (s.procs.state me ≡ blocked) × (s.need_resched ≡ true) × Represents s f

-- The process that runs, and stands in no queue, stops: its state is BLOCKED, a new schedule is
-- asked for, and every queue is left as it was until the switch.
pub block_current-Stopped :
    {s : Scheduler} {f : Lists}
    → Represents s f
    → Free f s.current
    → s.current ≢ 0
    → s.current ≢ s.idle_p
    → Stopped (scheduler_block_current s) f s.current
block_current-Stopped {s} {f} r n z ni = rw (block_current_lem s z ni) (
    unfold request_schedule in
    (
      state-set_state s s.current,
      refl,
      Represents-queues (set_state-Represents s.current r n) refl refl refl refl refl,
    ))

pub block_current-next :
    (s : Scheduler) → (scheduler_block_current s).procs.sem_waiter_next ≡ s.procs.sem_waiter_next
unfolding scheduler_block_current request_schedule set_state
block_current-next s = elim (Bool-cases (s.current == 0 || s.current == s.idle_p)) [
  | inl e ↦ rw e
  | inr e ↦ rw e
]
