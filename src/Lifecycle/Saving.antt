-- ===== src/Lifecycle/Saving.antt =====
-- Kernel/proc/scheduler.c, `save_context`: where the process that is switched out goes.
use so_tp.Base.{ℕ, ◌≡◌, ◌≢◌, ◌<◌, refl, ◌∙◌, ap, ne→==}
use so_tp.Queue.{address_limit}
use so_tp.State.{Scheduler, running, blocked, finished}
use so_tp.Scheduler.Places.{ready_at, blocked_at, finished_at, Lists, Represents, Free}
use so_tp.Scheduler.Enqueue.{append_at, queue_priority, Represents-procs}
use so_tp.Scheduler.Wake.{make_ready-Represents}
use so_tp.Scheduler.Block.{push_blocked-Represents}
use so_tp.Lifecycle.{save_registers, save_context, hand_over}
use so_tp.Lifecycle.Ending.{hand_over-HandedOver, wake_all_none, push_finished-Represents}

registers-Represents :
    {s : Scheduler} {f : Lists} (p r b : ℕ) → Represents s f → Represents (save_registers s p r b) f
unfolding save_registers
registers-Represents p r b h = Represents-procs _ h refl refl

-- The fields that the placement reads are not among the registers.
record SameFields (s s' : Scheduler) : Type 0 where
  states : s'.procs.state ≡ s.procs.state
  priorities : s'.procs.priority ≡ s.procs.priority
  waiters : s'.procs.waiters_head ≡ s.procs.waiters_head

registers-SameFields : (s : Scheduler) (p r b : ℕ) → SameFields s (save_registers s p r b)
unfolding save_registers
registers-SameFields s p r b = record { states = refl; priorities = refl; waiters = refl }

saved_running :
    {s : Scheduler} {f : Lists} (p r b : ℕ)
    → Represents s f
    → Free f p
    → p ≢ 0
    → p < address_limit
    → p ≢ s.idle_p
    → s.procs.state p ≡ running
    → Represents (save_context s p r b).0 (append_at f (ready_at (queue_priority s.procs p)) p)
unfolding save_context save_registers
saved_running {s} {f} p r b h n z a i st =
    rw (ne→== p 0 z, st, ne→== p s.idle_p i)
      (make_ready-Represents p (Represents-procs _ h refl refl) n z a)

saved_blocked :
    {s : Scheduler} {f : Lists} (p r b : ℕ)
    → Represents s f
    → Free f p
    → p ≢ 0
    → p < address_limit
    → s.procs.state p ≡ blocked
    → Represents (save_context s p r b).0 (append_at f blocked_at p)
unfolding save_context
saved_blocked {s} {f} p r b h n z a st =
    let g = registers-SameFields s p r b in
    rw (ne→== p 0 z, st)
      (push_blocked-Represents p (registers-Represents p r b h) n (ap (λ k. k p) g.states ∙ st) z a)

saved_finished :
    {s : Scheduler} {f : Lists} (p r b : ℕ)
    → Represents s f
    → Free f p
    → p ≢ 0
    → p < address_limit
    → s.procs.state p ≡ finished
    → s.procs.waiters_head p ≡ 0
    → Represents (save_context s p r b).0 (append_at f finished_at p)
unfolding save_context
saved_finished {s} {f} p r b h n z a st w =
    let g = registers-SameFields s p r b in
    let k = hand_over-HandedOver (save_registers s p r b) p in
    rw
      (
        ne→== p 0 z,
        st,
        wake_all_none address_limit (hand_over (save_registers s p r b) p) p
            (ap (λ q. q p) (k.waiters ∙ g.waiters) ∙ w),
      )
      (push_finished-Represents p (k.queues (registers-Represents p r b h)) n
        (ap (λ q. q p) (k.states ∙ g.states) ∙ st) z a)

-- A process that is switched out, which stands in no queue, comes to the end of the queue of its
-- state: if it was still running, of the ready queue of its priority, as long as it is not the idle
-- process; if it has blocked, of the blocked queue; if it has finished and no process waits for it,
-- of the finished queue. No other process changes place.
pub save_context-Represents :
    {s : Scheduler} {f : Lists} (p current_rsp saved_rbp : ℕ)
    → Represents s f
    → Free f p
    → p ≢ 0
    → p < address_limit
    → let s' = (save_context s p current_rsp saved_rbp).0 in
      (p ≢ s.idle_p
        → s.procs.state p ≡ running
        → Represents s' (append_at f (ready_at (queue_priority s.procs p)) p))
      × (s.procs.state p ≡ blocked → Represents s' (append_at f blocked_at p))
      × (s.procs.state p ≡ finished
          → s.procs.waiters_head p ≡ 0
          → Represents s' (append_at f finished_at p))
save_context-Represents p r b h n z a =
    (saved_running p r b h n z a, saved_blocked p r b h n z a, saved_finished p r b h n z a)
