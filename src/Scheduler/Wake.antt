-- ===== src/Scheduler/Wake.antt =====
-- Kernel/proc/scheduler.c: `scheduler_unblock_process` on the lists of the run queues.
use so_tp.Base.{ℕ, ◌≡◌, ◌≢◌, ◌<◌, refl, update_self, update_ne, erase, ne→==}
use so_tp.Queue.{address_limit}
use so_tp.State.{Scheduler, ready, blocked}
use so_tp.Scheduler.{
  set_state, remove_blocked, make_ready, leave_blocked, request_if_higher,
  scheduler_unblock_process,
}
use so_tp.Scheduler.Places.{
  Place, ready_at, blocked_at, Lists, put_at, Represents, Free, Free-remove, Free-Represents,
  remove-Represents,
}
use so_tp.Scheduler.Enqueue.{
  queue_priority, append_at, ready_queue_push-Represents, request_if_higher-Represents,
}

-- The lists once `p` is taken out of one.
abbrev pub erase_at : Lists → Place → ℕ → Lists
erase_at f x p = put_at f x (erase p (f x))

-- A process in no queue that is made ready and pushed.
pub make_ready-Represents :
    {s : Scheduler} {f : Lists} (p : ℕ)
    → Represents s f
    → Free f p
    → p ≢ 0
    → p < address_limit
    → Represents (make_ready s p) (append_at f (ready_at (queue_priority s.procs p)) p)
unfolding make_ready set_state
make_ready-Represents {s} {f} p r n z a =
    ready_queue_push-Represents p
      (Free-Represents _ p r n (λ q ne. (update_ne s.procs.state p q ready ne, refl))) n
      (update_self s.procs.state p ready) z a

pub remove_blocked-Represents :
    {s : Scheduler} {f : Lists} (p : ℕ)
    → Represents s f
    → Represents (remove_blocked s p) (erase_at f blocked_at p)
unfolding remove_blocked
remove_blocked-Represents p r = remove-Represents blocked_at p r

unblock_blocked :
    (s : Scheduler) (p : ℕ)
    → p ≢ 0
    → s.procs.state p ≡ blocked
    → scheduler_unblock_process s p ≡ request_if_higher (make_ready (remove_blocked s p) p) p
unfolding scheduler_unblock_process leave_blocked
unblock_blocked s p z st = rw (ne→== p 0 z, st)

-- Unblocking a blocked process takes it out of the blocked queue, if it has reached it, and puts
-- it at the end of the ready queue of its priority; no other process changes place.
pub unblock-Represents :
    {s : Scheduler} {f : Lists} (p : ℕ)
    → Represents s f
    → s.procs.state p ≡ blocked
    → p ≢ 0
    → p < address_limit
    → Represents
        (scheduler_unblock_process s p)
        (append_at (erase_at f blocked_at p) (ready_at (queue_priority s.procs p)) p)
unfolding remove_blocked
unblock-Represents {s} {f} p r st z a = rw (unblock_blocked s p z st) (
    request_if_higher-Represents p
      (make_ready-Represents p (remove_blocked-Represents p r) (Free-remove blocked_at p r st) z a))
