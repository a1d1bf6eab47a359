-- ===== src/Scheduler/Find.antt =====
-- Kernel/proc/scheduler.c: `scheduler_find_by_pid` against the lists of the run queues.
use so_tp.Base.{
  ℕ, zero, suc, ◌≡◌, ◌≢◌, ◌<◌, ◌≤◌, refl, sym, subst, inl, inr, ◌⊎◌, true, List, [], ◌∷◌, arith,
  ◌&&◌, ◌==◌, ◌!=◌, if◌then◌else◌, length, elem, eq→==, ne→==, eq-cases,
}
use so_tp.Queue.{Links, ProcessQueue, address_limit}
use so_tp.Queue.Chain.{Chain, Holds, first, length-lt_of_Holds}
use so_tp.State.{Scheduler}
use so_tp.Scheduler.{find_from, find_in_queue, or_else, scheduler_find_by_pid}
use so_tp.Scheduler.Places.{Place, ready_at, blocked_at, finished_at, Lists, Represents}

-- The first process of a list with the pid, or NULL.
abbrev pub find_pid : (ℕ → ℕ) → ℕ → List ℕ → ℕ
find_pid pids pid [] = 0
find_pid pids pid (x ∷ xs) = if pids x == pid then x else find_pid pids pid xs

find_from-find_pid :
    (fuel : ℕ) (s : Scheduler) (before pid : ℕ) (xs : List ℕ)
    → Chain s.links before xs
    → length xs < fuel
    → find_from fuel s (first xs) pid ≡ find_pid s.procs.pid pid xs
unfolding find_from
find_from-find_pid zero s before pid xs c h = absurd (omega arith)
find_from-find_pid (suc fuel) s before pid [] c h = refl
find_from-find_pid (suc fuel) s before pid (x ∷ xs) c h =
    rw (ne→== x 0 c.0, c.2, find_from-find_pid fuel s x pid xs c.3 (omega arith))

find_in_queue-find_pid :
    (s : Scheduler) {q : ProcessQueue} {xs : List ℕ} (pid : ℕ)
    → Holds s.links q xs
    → find_in_queue s q pid ≡ find_pid s.procs.pid pid xs
unfolding find_in_queue
find_in_queue-find_pid s {q} {xs} pid h =
    rw h.head_first (find_from-find_pid address_limit s 0 pid xs h.chain (length-lt_of_Holds h))

-- The search over the queues is a search over their lists, in the order READY by rising priority,
-- BLOCKED, FINISHED, and at last of the process that runs.
find_by_pid-find_pid :
    {s : Scheduler} {f : Lists} (pid : ℕ)
    → Represents s f
    → scheduler_find_by_pid s pid
      ≡ or_else (find_pid s.procs.pid pid (f (ready_at 0))) (
          or_else (find_pid s.procs.pid pid (f (ready_at 1))) (
            or_else (find_pid s.procs.pid pid (f (ready_at 2))) (
              or_else (find_pid s.procs.pid pid (f blocked_at)) (
                or_else
                  (find_pid s.procs.pid pid (f finished_at))
                  (if s.current != 0 && s.procs.pid s.current == pid then s.current else 0)))))
unfolding scheduler_find_by_pid
find_by_pid-find_pid {s} {f} pid r = rw (
  find_in_queue-find_pid s pid (r.holds (ready_at 0)),
  find_in_queue-find_pid s pid (r.holds (ready_at 1)),
  find_in_queue-find_pid s pid (r.holds (ready_at 2)),
  find_in_queue-find_pid s pid (r.holds blocked_at),
  find_in_queue-find_pid s pid (r.holds finished_at),
)

-- The places that exist: `ready_queues` has the indices 0 to 2.
abbrev pub InRange : Place → Type 0
InRange (ready_at pr) = pr ≤ 2
InRange _ = Unit {0}

-- The processes that the search looks at: those of the five queues, and the one that runs.
abbrev pub Known : Scheduler → Lists → ℕ → Type 0
Known s f p =
    ((x : Place) × InRange x × (elem p (f x) ≡ true)) ⊎ ((p ≡ s.current) × (s.current ≢ 0))

-- The answer is NULL, or a known process with the pid.
abbrev pub Found : Scheduler → Lists → ℕ → ℕ → Type 0
Found s f pid p = (p ≡ 0) ⊎ ((s.procs.pid p ≡ pid) × Known s f p)

elem_weaken : (p x : ℕ) (xs : List ℕ) → elem p xs ≡ true → elem p (x ∷ xs) ≡ true
elem_weaken p x xs h = ground (arith, h)

FoundIn : Scheduler → ℕ → List ℕ → ℕ → Type 0
FoundIn s pid xs p = (p ≡ 0) ⊎ ((s.procs.pid p ≡ pid) × (elem p xs ≡ true))

FoundIn-weaken :
    (s : Scheduler) (pid p x : ℕ) (xs : List ℕ) → FoundIn s pid xs p → FoundIn s pid (x ∷ xs) p
unfolding FoundIn
FoundIn-weaken s pid p x xs (inl z) = inl z
FoundIn-weaken s pid p x xs (inr h) = inr (h.0, elem_weaken p x xs h.1)

find_pid-head : (g : ℕ → ℕ) (pid x : ℕ) (xs : List ℕ) → g x ≡ pid → find_pid g pid (x ∷ xs) ≡ x
find_pid-head g pid x xs e = rw (eq→== (g x) pid e)

find_pid-skip :
    (g : ℕ → ℕ) (pid x : ℕ) (xs : List ℕ) → g x ≢ pid → find_pid g pid (x ∷ xs) ≡ find_pid g pid xs
find_pid-skip g pid x xs n = rw (ne→== (g x) pid n)

find_pid-Found :
    (s : Scheduler) (pid : ℕ) (xs : List ℕ) → FoundIn s pid xs (find_pid s.procs.pid pid xs)
unfolding FoundIn
find_pid-Found s pid [] = inl refl
find_pid-Found s pid (x ∷ xs) = elim (eq-cases (s.procs.pid x) pid) [
  | inl e ↦
      subst (FoundIn s pid (x ∷ xs)) (sym (find_pid-head s.procs.pid pid x xs e))
        (inr (e, rw (eq→== x x refl)))
  | inr n ↦
      subst (FoundIn s pid (x ∷ xs)) (sym (find_pid-skip s.procs.pid pid x xs n))
        (FoundIn-weaken s pid _ x xs (find_pid-Found s pid xs))
]

or_else-Found :
    (s : Scheduler) (f : Lists) (pid : ℕ) (x : Place) (rest : ℕ)
    → InRange x
    → Found s f pid rest
    → Found s f pid (or_else (find_pid s.procs.pid pid (f x)) rest)
unfolding FoundIn or_else
or_else-Found s f pid x rest i h = elim (find_pid-Found s pid (f x)) [
  | inl z ↦ rw z h
  | inr k ↦ elim (eq-cases (find_pid s.procs.pid pid (f x)) 0) [
    | inl z ↦ rw z h
    | inr n ↦ rw (ne→== (find_pid s.procs.pid pid (f x)) 0 n) (inr (k.0, inl (x, i, k.1)))
  ]
]

current-Found :
    (s : Scheduler) (f : Lists) (pid : ℕ)
    → Found s f pid (if s.current != 0 && s.procs.pid s.current == pid then s.current else 0)
current-Found s f pid = elim (eq-cases s.current 0) [
  | inl z ↦ rw (eq→== s.current 0 z) (inl refl)
  | inr n ↦ elim (eq-cases (s.procs.pid s.current) pid) [
    | inl e ↦ rw (ne→== s.current 0 n, eq→== (s.procs.pid s.current) pid e) (inr (e, inr (refl, n)))
    | inr m ↦ rw (ne→== s.current 0 n, ne→== (s.procs.pid s.current) pid m) (inl refl)
  ]
]

-- What the search by pid answers is NULL, or a process that runs or stands in one of the queues
-- and has the pid.
pub find_by_pid-Found :
    {s : Scheduler} {f : Lists} (pid : ℕ)
    → Represents s f
    → Found s f pid (scheduler_find_by_pid s pid)
find_by_pid-Found {s} {f} pid r = rw (find_by_pid-find_pid pid r) (
    or_else-Found s f pid (ready_at 0) _ (omega arith) (
      or_else-Found s f pid (ready_at 1) _ (omega arith) (
        or_else-Found s f pid (ready_at 2) _ (omega arith) (
          or_else-Found s f pid blocked_at _ tt
            (or_else-Found s f pid finished_at _ tt (current-Found s f pid))))))

-- Completeness: a search of a list that holds a process with the pid answers some process.
find_pid-ne_zero :
    (s : Scheduler) (l : Links) (before pid p : ℕ) (xs : List ℕ)
    → Chain l before xs
    → elem p xs ≡ true
    → s.procs.pid p ≡ pid
    → find_pid s.procs.pid pid xs ≢ 0
find_pid-ne_zero s l before pid p [] c e h = absurd (ground arith)
find_pid-ne_zero s l before pid p (x ∷ xs) c e h = elim (eq-cases (s.procs.pid x) pid) [
  | inl m ↦ rw (eq→== (s.procs.pid x) pid m) c.0
  | inr n ↦ rw (ne→== (s.procs.pid x) pid n) (
      find_pid-ne_zero s l x pid p xs c.3
        (rw (ne→== x p (λ q. n (subst (λ z. s.procs.pid z ≡ pid) (sym q) h))) at e) h)
]

or_else-left : (a b : ℕ) → a ≢ 0 → or_else a b ≢ 0
unfolding or_else
or_else-left a b h = rw (ne→== a 0 h) h

or_else-right : (a b : ℕ) → b ≢ 0 → or_else a b ≢ 0
unfolding or_else
or_else-right a b h = elim (eq-cases a 0) [
  | inl e ↦ rw (eq→== a 0 e) h
  | inr n ↦ or_else-left a b n
]

-- A list that the search goes through.
found_later :
    (s : Scheduler) (f : Lists) (pid p : ℕ) (x : Place)
    → Represents s f
    → elem p (f x) ≡ true
    → s.procs.pid p ≡ pid
    → find_pid s.procs.pid pid (f x) ≢ 0
found_later s f pid p x r e h = find_pid-ne_zero s s.links 0 pid p (f x) (r.holds x).chain e h

-- The order of the search, over what each place answers.
search_in : (Place → ℕ) → ℕ → ℕ
search_in g last = or_else (g (ready_at 0)) (
    or_else (g (ready_at 1))
      (or_else (g (ready_at 2)) (or_else (g blocked_at) (or_else (g finished_at) last))))

search_in-ne_zero :
    (g : Place → ℕ) (last : ℕ) (y : Place) → InRange y → g y ≢ 0 → search_in g last ≢ 0
unfolding search_in
search_in-ne_zero g last (ready_at zero) j n = or_else-left _ _ n
search_in-ne_zero g last (ready_at (suc zero)) j n = or_else-right _ _ (or_else-left _ _ n)
search_in-ne_zero g last (ready_at (suc (suc zero))) j n =
    or_else-right _ _ (or_else-right _ _ (or_else-left _ _ n))
search_in-ne_zero g last (ready_at (suc (suc (suc k)))) j n = absurd (omega arith)
search_in-ne_zero g last blocked_at j n =
    or_else-right _ _ (or_else-right _ _ (or_else-right _ _ (or_else-left _ _ n)))
search_in-ne_zero g last finished_at j n =
    or_else-right _ _
      (or_else-right _ _ (or_else-right _ _ (or_else-right _ _ (or_else-left _ _ n))))

-- A process in one of the five queues is never missed: the search by its pid does not answer NULL.
pub find_by_pid-ne_zero :
    {s : Scheduler} {f : Lists} (pid p : ℕ) (x : Place)
    → Represents s f
    → InRange x
    → elem p (f x) ≡ true
    → s.procs.pid p ≡ pid
    → scheduler_find_by_pid s pid ≢ 0
unfolding search_in
find_by_pid-ne_zero {s} {f} pid p x r i e h =
    rw (find_by_pid-find_pid pid r) (
      search_in-ne_zero (λ y. find_pid s.procs.pid pid (f y)) _ x i (found_later s f pid p x r e h))
