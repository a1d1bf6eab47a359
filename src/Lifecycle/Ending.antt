-- ===== src/Lifecycle/Ending.antt =====
-- Kernel/proc/scheduler.c, `scheduler_kill_by_pid` behind the closing of the open files.
use so_tp.Base.{
  ℕ, zero, suc, ◌≡◌, ◌≢◌, ◌<◌, refl, ◌∙◌, ap, inl, inr, true, elem, ◌==◌, if◌then◌else◌,
  update_self, update_ne, eq→==, Bool-cases,
}
use so_tp.Queue.{address_limit}
use so_tp.State.{Processes, Scheduler, finished, is_ready, is_blocked}
use so_tp.Scheduler.{
  set_state, set_foreground, remove_ready, remove_blocked, push_finished, leave_ready,
  leave_blocked, request_schedule,
}
use so_tp.Scheduler.Places.{
  Place, ready_at, blocked_at, finished_at, Lists, Represents, Represents-agree, Free, Free-remove,
  Free-Represents, push-Represents, Belongs,
}
use so_tp.Scheduler.Enqueue.{append_at, requeue-append, Represents-procs, Represents-queues}
use so_tp.Scheduler.Wake.{erase_at, remove_blocked-Represents}
use so_tp.Scheduler.Block.{elem-Belongs, remove_ready-Represents}
use so_tp.Lifecycle.{hands_over, hand_over, wake_all_waiting, leave_queues, end_process}

-- What `hand_over` leaves alone.
pub record HandedOver (s s' : Scheduler) : Type 0 where
  pub states : s'.procs.state ≡ s.procs.state
  pub priorities : s'.procs.priority ≡ s.procs.priority
  pub waiters : s'.procs.waiters_head ≡ s.procs.waiters_head
  pub queues : {f : Lists} → Represents s f → Represents s' f

pub hand_over-HandedOver : (s : Scheduler) (p : ℕ) → HandedOver s (hand_over s p)
unfolding hand_over set_foreground
hand_over-HandedOver s p = elim (Bool-cases (hands_over s p)) [
  | inl e ↦ rw e (record {
    states = refl;
    priorities = refl;
    waiters = refl;
    queues = λ r. Represents-procs _ r refl refl;
  })
  | inr e ↦ rw e (record { states = refl; priorities = refl; waiters = refl; queues = λ r. r })
]

-- The two places that a process can be killed in.
abbrev pub IsWaiting : Place → Type 0
IsWaiting finished_at = ⊥
IsWaiting _ = Unit {0}

pub leave_queues-Represents :
    {s : Scheduler} {f : Lists} (x : Place) (p : ℕ)
    → IsWaiting x
    → Represents s f
    → Belongs s.procs x p
    → Represents (leave_queues s p) (erase_at f x p)
unfolding leave_queues leave_ready leave_blocked
leave_queues-Represents {s} {f} (ready_at pr) p i r b =
    rw (b.0, b.1) (remove_ready-Represents pr p r)
leave_queues-Represents {s} {f} blocked_at p i r b = rw b (remove_blocked-Represents p r)
leave_queues-Represents {s} {f} finished_at p i r b = absurd i

waiters-leave_queues :
    (s : Scheduler) (p : ℕ) → (leave_queues s p).procs.waiters_head ≡ s.procs.waiters_head
unfolding leave_queues leave_ready leave_blocked remove_ready remove_blocked
waiters-leave_queues s p = elim (Bool-cases (is_ready (s.procs.state p))) [
  | inl e ↦ rw e refl
  | inr e ↦ elim (Bool-cases (is_blocked (s.procs.state p))) [
    | inl g ↦ rw (e, g) refl
    | inr g ↦ rw (e, g) refl
  ]
]

pub set_finished-Represents :
    {s : Scheduler} {f : Lists} (p : ℕ)
    → Represents s f
    → Free f p
    → Represents (set_state s p finished) f
unfolding set_state
set_finished-Represents {s} p r n =
    Free-Represents _ p r n (λ q ne. (update_ne s.procs.state p q finished ne, refl))

pub state-finished : (s : Scheduler) (p : ℕ) → (set_state s p finished).procs.state p ≡ finished
unfolding set_state
state-finished s p = update_self s.procs.state p finished

waiters-set_state :
    (s : Scheduler) (p : ℕ) → (set_state s p finished).procs.waiters_head ≡ s.procs.waiters_head
unfolding set_state
waiters-set_state s p = refl

pub wake_all_none :
    (n : ℕ) (s : Scheduler) (p : ℕ) → s.procs.waiters_head p ≡ 0 → wake_all_waiting n s p ≡ s
unfolding wake_all_waiting
wake_all_none zero s p e = refl
wake_all_none (suc n) s p e = rw (eq→== (s.procs.waiters_head p) 0 e) refl

pub push_finished-Represents :
    {s : Scheduler} {f : Lists} (p : ℕ)
    → Represents s f
    → Free f p
    → s.procs.state p ≡ finished
    → p ≢ 0
    → p < address_limit
    → Represents (push_finished s p) (append_at f finished_at p)
unfolding push_finished
push_finished-Represents {s} {f} p r n st z a =
    Represents-agree (push-Represents finished_at p r st z a)
      (requeue-append f finished_at p (n finished_at))

state-push_finished : (s : Scheduler) (p : ℕ) → (push_finished s p).procs ≡ s.procs
unfolding push_finished
state-push_finished s p = refl

-- The process `p` is in the state FINISHED, and the queues hold the lists `f`.
abbrev pub Ended : Scheduler → Lists → ℕ → Type 0
Ended s f p = (s.procs.state p ≡ finished) × Represents s f

-- The end of `end_process`, behind the loop over the waiting processes.
closing : Scheduler → Scheduler → ℕ → Scheduler
closing s d p = if p == s.current then request_schedule (push_finished d p) else push_finished d p

closing-Ended :
    {f : Lists} (s d : Scheduler) (p : ℕ)
    → Represents (push_finished d p) f
    → d.procs.state p ≡ finished
    → Ended (closing s d p) f p
unfolding closing request_schedule
closing-Ended {f} s d p r e = elim (Bool-cases (p == s.current)) [
  | inl g ↦ rw g (
    (ap (λ c. c.state p) (state-push_finished d p) ∙ e),
    Represents-queues r refl refl refl refl refl,
  )
  | inr g ↦ rw g ((ap (λ c. c.state p) (state-push_finished d p) ∙ e), r)
]

end_process_split :
    (s : Scheduler) (p : ℕ)
    → end_process s p
      ≡ closing s
          (wake_all_waiting address_limit (set_state (leave_queues (hand_over s p) p) p finished) p)
          p
unfolding end_process closing
end_process_split s p = refl

finished_none :
    (s : Scheduler) (p : ℕ)
    → s.procs.waiters_head p ≡ 0
    → wake_all_waiting address_limit (set_state (leave_queues (hand_over s p) p) p finished) p
      ≡ set_state (leave_queues (hand_over s p) p) p finished
finished_none s p e = wake_all_none address_limit _ p (
    ap (λ g. g p)
      (waiters-set_state (leave_queues (hand_over s p) p) p
        ∙ (waiters-leave_queues (hand_over s p) p ∙ (hand_over-HandedOver s p).waiters))
    ∙ e)

pub Belongs-same :
    (c d : Processes) (x : Place) (p : ℕ)
    → d.state ≡ c.state
    → d.priority ≡ c.priority
    → Belongs c x p
    → Belongs d x p
Belongs-same c d (ready_at pr) p st pri b = ((ap (λ g. g p) st ∙ b.0), (ap (λ g. g p) pri ∙ b.1))
Belongs-same c d blocked_at p st pri b = ap (λ g. g p) st ∙ b
Belongs-same c d finished_at p st pri b = ap (λ g. g p) st ∙ b

-- Killing a process that stands in a ready queue or in the blocked queue, and that no process waits
-- for, moves it to the end of the finished queue in the state FINISHED; no other process changes
-- place.
pub end_process-Ended :
    {s : Scheduler} {f : Lists} (x : Place) (p : ℕ)
    → Represents s f
    → IsWaiting x
    → elem p (f x) ≡ true
    → s.procs.waiters_head p ≡ 0
    → Ended (end_process s p) (append_at (erase_at f x p) finished_at p) p
end_process-Ended {s} {f} x p r i e w =
    let h = hand_over-HandedOver s p in
    let (b, z, a) = elem-Belongs x p r e in
    let c = Belongs-same s.procs (hand_over s p).procs x p h.states h.priorities b in
    let n = Free-remove x p r b in
    let d = set_finished-Represents p (leave_queues-Represents x p i (h.queues r) c) n in
    rw (end_process_split s p, finished_none s p w)
      (closing-Ended s (set_state (leave_queues (hand_over s p) p) p finished) p
        (push_finished-Represents p d n (state-finished (leave_queues (hand_over s p) p) p) z a)
        (state-finished (leave_queues (hand_over s p) p) p))
