-- ===== src/Scheduler/Places.antt =====
-- The run queues of Kernel/proc/scheduler.c taken together: a queue for each place where a process
-- can wait, the lists that they hold, and what a process must be to stand in each.
use so_tp.Base.{
  ℕ, ◌≡◌, ◌≢◌, ◌<◌, refl, sym, ◌∙◌, ap, subst, inl, inr, Bool, true, false, List, [], ◌∷◌, ◌++◌,
  arith, All, erase, NotIn, ◌==◌, if◌then◌else◌, update, eq→==, ==→eq, Bool-cases, All-erase,
  All-append_one, NotIn-erase_self,
}
use so_tp.Queue.{
  Links, ProcessQueue, Queued, address_limit, process_queue_push, process_queue_pop,
  process_queue_remove,
}
use so_tp.Queue.Chain.{Holds, Apart, first, tail_of}
use so_tp.Queue.Detach.{detach-Holds, detach-Holds_other, remove-detach, pop-Holds, pop-Holds_other}
use so_tp.Queue.Push.{push-Holds, push-Holds_other}
use so_tp.State.{Processes, Scheduler, ready, blocked, finished}

pub data Place : Type 0 where
  ready_at : ℕ → Place
  blocked_at finished_at : Place

abbrev pub same_place : Place → Place → Bool
same_place (ready_at a) (ready_at b) = a == b
same_place blocked_at blocked_at = true
same_place finished_at finished_at = true
same_place _ _ = false

pub same_place_refl : (x : Place) → same_place x x ≡ true
same_place_refl (ready_at a) = eq→== a a refl
same_place_refl blocked_at = refl
same_place_refl finished_at = refl

pub same_place-flip : (x y : Place) → same_place x y ≡ false → same_place y x ≡ false
same_place-flip (ready_at a) (ready_at b) e = ground arith
same_place-flip (ready_at a) blocked_at e = refl
same_place-flip (ready_at a) finished_at e = refl
same_place-flip blocked_at (ready_at b) e = refl
same_place-flip blocked_at blocked_at e = e
same_place-flip blocked_at finished_at e = refl
same_place-flip finished_at (ready_at b) e = refl
same_place-flip finished_at blocked_at e = refl
same_place-flip finished_at finished_at e = e

pub same_place→eq : (x y : Place) → same_place x y ≡ true → x ≡ y
same_place→eq (ready_at a) (ready_at b) e = ap ready_at (==→eq a b e)
same_place→eq (ready_at a) blocked_at e = cc
same_place→eq (ready_at a) finished_at e = cc
same_place→eq blocked_at (ready_at b) e = cc
same_place→eq blocked_at blocked_at e = refl
same_place→eq blocked_at finished_at e = cc
same_place→eq finished_at (ready_at b) e = cc
same_place→eq finished_at blocked_at e = cc
same_place→eq finished_at finished_at e = refl

abbrev pub queue_at : Scheduler → Place → ProcessQueue
queue_at s (ready_at pr) = s.ready_queues pr
queue_at s blocked_at = s.blocked_q
queue_at s finished_at = s.finished_q

abbrev pub write_at : Scheduler → Place → Queued → Scheduler
write_at s (ready_at pr) (l, q) = record s { links = l; ready_queues = update s.ready_queues pr q }
write_at s blocked_at (l, q) = record s { links = l; blocked_q = q }
write_at s finished_at (l, q) = record s { links = l; finished_q = q }

-- The lists of processes at each place.
abbrev pub Lists : Type 0
Lists = Place → List ℕ

abbrev pub put_at : Lists → Place → List ℕ → Lists
put_at f x v y = if same_place x y then v else f y

-- A process stands in the queue of its state and, while it is ready, of its priority.
abbrev pub Belongs : Processes → Place → ℕ → Type 0
Belongs c (ready_at pr) p = (c.state p ≡ ready) × (c.priority p ≡ pr)
Belongs c blocked_at p = c.state p ≡ blocked
Belongs c finished_at p = c.state p ≡ finished

All-tail_of {ℓ} : (P : ℕ → Type ℓ) (xs : List ℕ) → All P xs → All P (tail_of xs)
All-tail_of P [] a = tt
All-tail_of P (x ∷ xs) a = a.1

pub record Represents (s : Scheduler) (f : Lists) : Type 0 where
  pub holds : (x : Place) → Holds s.links (queue_at s x) (f x)
  pub belongs : (x : Place) → All (Belongs s.procs x) (f x)

-- A process belongs to one place at most.
pub Belongs-unique :
    (c : Processes) (x y : Place) (p : ℕ) → Belongs c x p → Belongs c y p → same_place x y ≡ true
Belongs-unique c (ready_at a) (ready_at b) p h k = ground arith
Belongs-unique c (ready_at a) blocked_at p h k = cc (h.0)
Belongs-unique c (ready_at a) finished_at p h k = cc (h.0)
Belongs-unique c blocked_at (ready_at b) p h k = cc (k.0)
Belongs-unique c blocked_at blocked_at p h k = refl
Belongs-unique c blocked_at finished_at p h k = cc
Belongs-unique c finished_at (ready_at b) p h k = cc (k.0)
Belongs-unique c finished_at blocked_at p h k = cc
Belongs-unique c finished_at finished_at p h k = refl

-- So it is not in the list of another.
pub NotIn-elsewhere :
    (c : Processes) (x y : Place) (p : ℕ) (ys : List ℕ)
    → Belongs c x p
    → same_place x y ≡ false
    → All (Belongs c y) ys
    → NotIn p ys
NotIn-elsewhere c x y p [] h n a = tt
NotIn-elsewhere c x y p (z ∷ ys) h n a = (
  (λ e. cc (n, Belongs-unique c x y p h (subst (Belongs c y) e a.0))),
  NotIn-elsewhere c x y p ys h n a.1,
)

pub Apart-elsewhere :
    (c : Processes) (x y : Place) (xs ys : List ℕ)
    → same_place x y ≡ false
    → All (Belongs c x) xs
    → All (Belongs c y) ys
    → Apart xs ys
Apart-elsewhere c x y xs [] n a b = tt
Apart-elsewhere c x y xs (z ∷ ys) n a b =
    (NotIn-elsewhere c y x z xs b.0 (same_place-flip x y n) a, Apart-elsewhere c x y xs ys n a b.1)

links-write_at :
    (s : Scheduler) (x : Place) (l : Links) (q : ProcessQueue) → (write_at s x (l, q)).links ≡ l
links-write_at s (ready_at pr) l q = refl
links-write_at s blocked_at l q = refl
links-write_at s finished_at l q = refl

pub procs-write_at :
    (s : Scheduler) (x : Place) (l : Links) (q : ProcessQueue)
    → (write_at s x (l, q)).procs ≡ s.procs
procs-write_at s (ready_at pr) l q = refl
procs-write_at s blocked_at l q = refl
procs-write_at s finished_at l q = refl

queue_at-write_at :
    (s : Scheduler) (x y : Place) (l : Links) (q : ProcessQueue)
    → queue_at (write_at s x (l, q)) y ≡ (if same_place x y then q else queue_at s y)
queue_at-write_at s (ready_at a) (ready_at b) l q = refl
queue_at-write_at s (ready_at a) blocked_at l q = refl
queue_at-write_at s (ready_at a) finished_at l q = refl
queue_at-write_at s blocked_at (ready_at b) l q = refl
queue_at-write_at s blocked_at blocked_at l q = refl
queue_at-write_at s blocked_at finished_at l q = refl
queue_at-write_at s finished_at (ready_at b) l q = refl
queue_at-write_at s finished_at blocked_at l q = refl
queue_at-write_at s finished_at finished_at l q = refl

-- A written queue holds its new list, and the others theirs, if their chains are kept.
pub write-Represents :
    (s : Scheduler) (f : Lists) (x : Place) (l : Links) (q : ProcessQueue) (v : List ℕ)
    → Represents s f
    → Holds l q v
    → ((y : Place) → same_place x y ≡ false → Holds l (queue_at s y) (f y))
    → All (Belongs s.procs x) v
    → Represents (write_at s x (l, q)) (put_at f x v)
write-Represents s f x l q v r h k b = record { holds = holds; belongs = belongs }
  where
    holds :
        (y : Place)
        → Holds (write_at s x (l, q)).links (queue_at (write_at s x (l, q)) y) (put_at f x v y)
    holds y =
        rw (links-write_at s x l q, queue_at-write_at s x y l q)
          (elim (Bool-cases (same_place x y)) [ inl e ↦ rw e h | inr e ↦ rw e (k y e) ])

    belongs : (y : Place) → All (Belongs (write_at s x (l, q)).procs y) (put_at f x v y)
    belongs y = rw (procs-write_at s x l q) (elim (Bool-cases (same_place x y)) [
      | inl e ↦ rw e (subst (λ z. All (Belongs s.procs z) v) (same_place→eq x y e) b)
      | inr e ↦ rw e (r.belongs y)
    ])

-- The two queue operations at a place.
abbrev pub push_at : Scheduler → Place → ℕ → Scheduler
push_at s x p = write_at s x (process_queue_push s.links (queue_at s x) p)

abbrev pub remove_at : Scheduler → Place → ℕ → Scheduler
remove_at s x p = write_at s x (process_queue_remove s.links (queue_at s x) p)

-- Pushing a process where it belongs.
pub push-Represents :
    {s : Scheduler} {f : Lists} (x : Place) (p : ℕ)
    → Represents s f
    → Belongs s.procs x p
    → p ≢ 0
    → p < address_limit
    → Represents (push_at s x p) (put_at f x (erase p (f x) ++ p ∷ []))
push-Represents {s} {f} x p r b z a =
    write-Represents s f x _ _ (erase p (f x) ++ p ∷ []) r (push-Holds p (r.holds x) z a)
      (λ y e.
        push-Holds_other p (r.holds x) (r.holds y)
          (Apart-elsewhere s.procs x y (f x) (f y) e (r.belongs x) (r.belongs y))
          (NotIn-elsewhere s.procs x y p (f y) b e (r.belongs y)) z)
      (All-append_one (Belongs s.procs x) (erase p (f x)) p
        (All-erase (Belongs s.procs x) p (f x) (r.belongs x)) b)

-- Removing a process from a place, where it may be or not.
pub remove-Represents :
    {s : Scheduler} {f : Lists} (x : Place) (p : ℕ)
    → Represents s f
    → Represents (remove_at s x p) (put_at f x (erase p (f x)))
remove-Represents {s} {f} x p r =
    write-Represents s f x _ _ (erase p (f x)) r (rw remove-detach (detach-Holds p (r.holds x)))
      (λ y e. rw remove-detach (
        detach-Holds_other p (r.holds x) (r.holds y)
          (Apart-elsewhere s.procs x y (f x) (f y) e (r.belongs x) (r.belongs y))))
      (All-erase (Belongs s.procs x) p (f x) (r.belongs x))

-- A process that is in no queue.
abbrev pub Free : Lists → ℕ → Type 0
Free f p = (x : Place) → NotIn p (f x)

pub Free-remove :
    {s : Scheduler} {f : Lists} (x : Place) (p : ℕ)
    → Represents s f
    → Belongs s.procs x p
    → Free (put_at f x (erase p (f x))) p
Free-remove {s} {f} x p r b y = elim (Bool-cases (same_place x y)) [
  | inl e ↦ rw e (NotIn-erase_self p (f x) (r.holds x).distinct)
  | inr e ↦ rw e (NotIn-elsewhere s.procs x y p (f y) b e (r.belongs y))
]

Belongs-agree :
    (c d : Processes) (x : Place) (p : ℕ) (xs : List ℕ)
    → ((q : ℕ) → p ≢ q → (d.state q ≡ c.state q) × (d.priority q ≡ c.priority q))
    → NotIn p xs
    → All (Belongs c x) xs
    → All (Belongs d x) xs
Belongs-agree c d x p [] k n a = tt
Belongs-agree c d x p (y ∷ xs) k n a = (here x a.0, Belongs-agree c d x p xs k n.1 a.1)
  where
    same : (d.state y ≡ c.state y) × (d.priority y ≡ c.priority y)
    same = k y (λ e. n.0 (sym e))

    here : (x : Place) → Belongs c x y → Belongs d x y
    here (ready_at pr) b = ((same.0 ∙ b.0), (same.1 ∙ b.1))
    here blocked_at b = same.0 ∙ b
    here finished_at b = same.0 ∙ b

-- The control block of a process in no queue can be written freely.
pub Free-Represents :
    {s : Scheduler} {f : Lists} (d : Processes) (p : ℕ)
    → Represents s f
    → Free f p
    → ((q : ℕ) → p ≢ q → (d.state q ≡ s.procs.state q) × (d.priority q ≡ s.procs.priority q))
    → Represents (record s { procs = d }) f
Free-Represents {s} {f} d p r n k = record {
  holds = λ x. holds x;
  belongs = λ x. Belongs-agree s.procs d x p (f x) k (n x) (r.belongs x);
}
  where
    holds : (x : Place) → Holds s.links (queue_at (record s { procs = d }) x) (f x)
    holds (ready_at pr) = r.holds (ready_at pr)
    holds blocked_at = r.holds blocked_at
    holds finished_at = r.holds finished_at

-- Lists that agree at every place are as good.
pub Represents-agree :
    {s : Scheduler} {f g : Lists} → Represents s f → ((x : Place) → f x ≡ g x) → Represents s g
Represents-agree {s} {f} {g} r k = record {
  holds = λ x. subst (Holds s.links (queue_at s x)) (k x) (r.holds x);
  belongs = λ x. subst (All (Belongs s.procs x)) (k x) (r.belongs x);
}

-- The pop of a ready queue, at its place.
abbrev pub pop_ready : Scheduler → ℕ → Scheduler × ℕ
pop_ready s pr =
    let (l, q, p) = process_queue_pop s.links (s.ready_queues pr) in
    (write_at s (ready_at pr) (l, q), p)

pub pop-Represents :
    {s : Scheduler} {f : Lists} (pr : ℕ)
    → Represents s f
    → ((pop_ready s pr).1 ≡ first (f (ready_at pr)))
      × Represents (pop_ready s pr).0 (put_at f (ready_at pr) (tail_of (f (ready_at pr))))
pop-Represents {s} {f} pr r = (
  (pop-Holds (r.holds (ready_at pr))).0,
  write-Represents s f (ready_at pr) _ _ _ r (pop-Holds (r.holds (ready_at pr))).1
      (λ y e. pop-Holds_other (r.holds (ready_at pr)) (r.holds y) (
        Apart-elsewhere s.procs (ready_at pr) y (f (ready_at pr)) (f y) e (r.belongs (ready_at pr))
          (r.belongs y)))
      (All-tail_of (Belongs s.procs (ready_at pr)) (f (ready_at pr)) (r.belongs (ready_at pr))),
)
