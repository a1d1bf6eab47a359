-- ===== src/Scheduler/Enqueue.antt =====
-- Kernel/proc/scheduler.c: `ready_queue_push` and the test that asks for a new schedule.
use so_tp.Base.{
  ℕ, All, ◌%◌, ◌≡◌, ◌≢◌, ◌<◌, ◌≤◌, refl, ◌∙◌, ap, inl, inr, List, [], ◌∷◌, ◌++◌, arith, ◌&&◌, ◌!=◌,
  ltb, update_self, update_ne, erase, NotIn, ne→==, elem-NotIn, Bool-cases,
}
use so_tp.Queue.{address_limit}
use so_tp.Queue.Detach.{erase_absent}
use so_tp.State.{Processes, Scheduler, ready}
use so_tp.Scheduler.{clamp_priority, set_priority, push_ready, ready_queue_push, request_if_higher}
use so_tp.Scheduler.Places.{
  Place, ready_at, blocked_at, finished_at, queue_at, Lists, put_at, Belongs, Represents,
  Represents-agree, Free, Free-Represents, push_at, push-Represents,
}

-- The priority that `ready_queue_push` gives a process, and so its queue.
abbrev pub queue_priority : Processes → ℕ → ℕ
queue_priority c p = clamp_priority (c.priority p % 256)

pub clamp_priority-le : (n : ℕ) → clamp_priority n ≤ 2
unfolding clamp_priority
clamp_priority-le n = ground arith

pub clamp_priority_of_le : (n : ℕ) → n ≤ 2 → clamp_priority (n % 256) ≡ n
unfolding clamp_priority
clamp_priority_of_le n h = ground arith

pub erase_of_NotIn : (p : ℕ) (xs : List ℕ) → NotIn p xs → erase p xs ≡ xs
erase_of_NotIn p xs n = erase_absent p xs (elem-NotIn p xs n)

-- The lists once `p` is put at the end of a list that does not hold it.
abbrev pub append_at : Lists → Place → ℕ → Lists
append_at f x p = put_at f x (f x ++ p ∷ [])

-- The lists once `p` is moved to the end of a list.
abbrev pub requeue_at : Lists → Place → ℕ → Lists
requeue_at f x p = put_at f x (erase p (f x) ++ p ∷ [])

pub ready_queue_push-push_at :
    (s : Scheduler) (p : ℕ)
    → p ≢ 0
    → ready_queue_push s p
      ≡ push_at
          (set_priority s p (queue_priority s.procs p))
          (ready_at (queue_priority s.procs p))
          p
unfolding ready_queue_push push_ready
ready_queue_push-push_at s p z = rw (ne→== p 0 z)

pub requeue-append :
    (f : Lists) (x : Place) (p : ℕ)
    → NotIn p (f x)
    → (y : Place) → requeue_at f x p y ≡ append_at f x p y
requeue-append f x p n y = rw (erase_of_NotIn p (f x) n)

-- A ready process in no queue comes to the end of the queue of its priority.
pub ready_queue_push-Represents :
    {s : Scheduler} {f : Lists} (p : ℕ)
    → Represents s f
    → Free f p
    → s.procs.state p ≡ ready
    → p ≢ 0
    → p < address_limit
    → Represents (ready_queue_push s p) (append_at f (ready_at (queue_priority s.procs p)) p)
unfolding set_priority
ready_queue_push-Represents {s} {f} p r n st z a = rw (ready_queue_push-push_at s p z) (
    Represents-agree
      (push-Represents (ready_at (queue_priority s.procs p)) p
        (Free-Represents _ p r n (λ q ne. (refl, update_ne s.procs.priority p q _ ne)))
        (st, update_self s.procs.priority p (queue_priority s.procs p)) z a)
      (requeue-append f _ p (n (ready_at (queue_priority s.procs p)))))

-- Nor does a write of the flag, the clock or the current process.
pub Represents-queues :
    {s s' : Scheduler} {f : Lists}
    → Represents s f
    → s'.procs ≡ s.procs
    → s'.links ≡ s.links
    → s'.ready_queues ≡ s.ready_queues
    → s'.blocked_q ≡ s.blocked_q
    → s'.finished_q ≡ s.finished_q
    → Represents s' f
Represents-queues {s} {s'} {f} r c l g b d = record {
  holds = λ x. rw (l, same x) (r.holds x);
  belongs = λ x. rw c (r.belongs x);
}
  where
    same : (x : Place) → queue_at s' x ≡ queue_at s x
    same (ready_at pr) = ap (λ h. h pr) g
    same blocked_at = b
    same finished_at = d

-- The request for a new schedule touches no queue.
pub request_if_higher-Represents :
    {s : Scheduler} {f : Lists} (p : ℕ) → Represents s f → Represents (request_if_higher s p) f
unfolding request_if_higher
request_if_higher-Represents {s} {f} p r =
    elim (Bool-cases (s.current != 0 && ltb (s.procs.priority s.current) (s.procs.priority p))) [
      | inl e ↦ rw e (Represents-queues r refl refl refl refl refl)
      | inr e ↦ rw e r
    ]

-- Control blocks that agree on states and priorities leave every queue as good.
pub Represents-procs :
    {s : Scheduler} {f : Lists} (d : Processes)
    → Represents s f
    → d.state ≡ s.procs.state
    → d.priority ≡ s.procs.priority
    → Represents (record s { procs = d }) f
Represents-procs {s} {f} d r st pr = record {
  holds = λ x. rw (same x) (r.holds x);
  belongs = λ x. belongs x (f x) (r.belongs x);
}
  where
    same : (x : Place) → queue_at (record s { procs = d }) x ≡ queue_at s x
    same (ready_at k) = refl
    same blocked_at = refl
    same finished_at = refl

    here : (x : Place) (p : ℕ) → Belongs s.procs x p → Belongs d x p
    here (ready_at k) p b = ((ap (λ g. g p) st ∙ b.0), (ap (λ g. g p) pr ∙ b.1))
    here blocked_at p b = ap (λ g. g p) st ∙ b
    here finished_at p b = ap (λ g. g p) st ∙ b

    belongs : (x : Place) (xs : List ℕ) → All (Belongs s.procs x) xs → All (Belongs d x) xs
    belongs x [] a = tt
    belongs x (p ∷ xs) a = (here x p a.0, belongs x xs a.1)
