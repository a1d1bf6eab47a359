-- ===== src/Scheduler/Priority.antt =====
-- Kernel/proc/scheduler.c: `scheduler_set_priority` on the lists of the run queues.
use so_tp.Base.{
  ℕ, ◌%◌, ◌≡◌, ◌≢◌, ◌≤◌, refl, sym, ◌∙◌, subst, true, update_self, update_ne, elem, ne→==,
}
use so_tp.State.{Scheduler, ready}
use so_tp.Scheduler.{
  clamp_priority, set_priority, set_base_priority, set_wait_ticks, remove_ready, ready_queue_push,
  leave_ready, reprioritise, enter_ready, set_process_priority, scheduler_find_by_pid,
  scheduler_set_priority,
}
use so_tp.Scheduler.Places.{ready_at, Lists, Represents, Free, Free-remove, Free-Represents}
use so_tp.Scheduler.Enqueue.{
  queue_priority, append_at, clamp_priority-le, clamp_priority_of_le, ready_queue_push-Represents,
  request_if_higher-Represents,
}
use so_tp.Scheduler.Wake.{erase_at}
use so_tp.Scheduler.Block.{elem-Belongs, remove_ready-Represents}

reprioritise-Represents :
    {s : Scheduler} {f : Lists} (p pr : ℕ)
    → Represents s f
    → Free f p
    → Represents (reprioritise s p pr) f
unfolding reprioritise set_wait_ticks set_base_priority set_priority
reprioritise-Represents {s} p pr r n =
    Free-Represents _ p r n (λ q ne. (refl, update_ne s.procs.priority p q pr ne))

reprioritise-fields :
    (s : Scheduler) (p pr : ℕ)
    → let c = (reprioritise s p pr).procs in
      (c.state p ≡ s.procs.state p)
      × (c.priority p ≡ pr)
      × (c.base_priority p ≡ pr)
      × (c.wait_ticks p ≡ 0)
unfolding reprioritise set_wait_ticks set_base_priority set_priority
reprioritise-fields s p pr = (
  refl,
  update_self s.procs.priority p pr,
  update_self s.procs.base_priority p pr,
  update_self s.procs.wait_ticks p 0,
)

leave_ready_of_ready :
    (s : Scheduler) (p : ℕ)
    → s.procs.state p ≡ ready
    → leave_ready s p ≡ remove_ready s (s.procs.priority p) p
unfolding leave_ready
leave_ready_of_ready s p st = rw st

enter_ready_of_ready :
    (s : Scheduler) (p : ℕ) → s.procs.state p ≡ ready → enter_ready s p ≡ ready_queue_push s p
unfolding enter_ready
enter_ready_of_ready s p st = rw st

procs-remove_ready : (s : Scheduler) (pr p : ℕ) → (remove_ready s pr p).procs ≡ s.procs
unfolding remove_ready
procs-remove_ready s pr p = refl

-- The state in which `set_process_priority` pushes a ready process again.
abbrev repushed : Scheduler → ℕ → ℕ → Scheduler
repushed s p pr = reprioritise (remove_ready s (s.procs.priority p) p) p pr

repushed-state :
    (s : Scheduler) (p pr : ℕ) → s.procs.state p ≡ ready → (repushed s p pr).procs.state p ≡ ready
repushed-state s p pr st =
    (reprioritise-fields (remove_ready s (s.procs.priority p) p) p pr).0
    ∙ rw (procs-remove_ready s (s.procs.priority p) p) st

queue_priority-repushed :
    (s : Scheduler) (p pr : ℕ) → pr ≤ 2 → queue_priority (repushed s p pr).procs p ≡ pr
queue_priority-repushed s p pr h =
    rw ((reprioritise-fields (remove_ready s (s.procs.priority p) p) p pr).1)
      (clamp_priority_of_le pr h)

set_process_priority-Represents :
    {s : Scheduler} {f : Lists} (old p pr : ℕ)
    → Represents s f
    → elem p (f (ready_at old)) ≡ true
    → pr ≤ 2
    → Represents
        (set_process_priority s p pr)
        (append_at (erase_at f (ready_at old) p) (ready_at pr) p)
unfolding set_process_priority
set_process_priority-Represents {s} {f} old p pr r e h =
    let (b, z, a) = elem-Belongs (ready_at old) p r e in
    rw
      (
        leave_ready_of_ready s p b.0,
        enter_ready_of_ready (repushed s p pr) p (repushed-state s p pr b.0),
      )
      (request_if_higher-Represents p (
        subst
          (λ k.
            Represents (ready_queue_push (repushed s p pr) p)
              (append_at (erase_at f (ready_at old) p) (ready_at k) p))
          (queue_priority-repushed s p pr h)
          (ready_queue_push-Represents p
            (reprioritise-Represents p pr
              (subst (λ k. Represents (remove_ready s k p) (erase_at f (ready_at old) p)) (sym b.1)
                (remove_ready-Represents old p r))
              (Free-remove (ready_at old) p r b))
            (Free-remove (ready_at old) p r b) (repushed-state s p pr b.0) z a)))

set_priority_changes :
    (s : Scheduler) (pid new_priority old p : ℕ)
    → scheduler_find_by_pid s pid ≡ p
    → p ≢ 0
    → p ≢ s.idle_p
    → s.procs.priority p ≡ old
    → old ≢ clamp_priority (new_priority % 256)
    → scheduler_set_priority s pid new_priority
      ≡ (set_process_priority s p (clamp_priority (new_priority % 256)), true)
unfolding scheduler_set_priority
set_priority_changes s pid new_priority old p found z ni po ne =
    rw (found, ne→== p 0 z, ne→== p s.idle_p ni, po, ne→== old _ ne)

-- Giving a ready process another priority answers 1, and moves it from its ready queue to the end
-- of the ready queue of the new priority, clamped to 2; no other process changes place.
pub set_priority-Represents :
    {s : Scheduler} {f : Lists} (pid new_priority old p : ℕ)
    → Represents s f
    → scheduler_find_by_pid s pid ≡ p
    → elem p (f (ready_at old)) ≡ true
    → p ≢ s.idle_p
    → old ≢ clamp_priority (new_priority % 256)
    → let (s', done) = scheduler_set_priority s pid new_priority in
      (done ≡ true)
      × Represents s' (
          append_at
            (erase_at f (ready_at old) p)
            (ready_at (clamp_priority (new_priority % 256)))
            p)
set_priority-Represents {s} {f} pid new_priority old p r found e ni ne =
    let (b, z, a) = elem-Belongs (ready_at old) p r e in
    rw (set_priority_changes s pid new_priority old p found z ni b.1 ne)
      (refl, set_process_priority-Represents old p _ r e (clamp_priority-le (new_priority % 256)))
