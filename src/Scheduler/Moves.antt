-- ===== src/Scheduler/Moves.antt =====
-- Kernel/proc/scheduler.c: what its operations do to the lists of the run queues.
use so_tp.Base.{
  ℕ, zero, suc, ◌≡◌, ◌≢◌, ◌<◌, refl, sym, ◌∙◌, ap, inl, inr, ◌⊎◌, List, [], ◌∷◌, arith, All, ◌!=◌,
  if◌then◌else◌, eq→==, ne→==, Bool-cases, eq-cases,
}
use so_tp.Queue.Chain.{first, tail_of, NotIn-zero}
use so_tp.State.{Scheduler}
use so_tp.Scheduler.{pop_below, ready_queue_pop_highest}
use so_tp.Scheduler.Places.{
  Place, ready_at, Lists, put_at, Represents, Represents-agree, pop_ready, pop-Represents,
  same_place, same_place→eq,
}

-- What a pop below a priority finds: nothing, or the oldest process of the highest list that is
-- not empty.
abbrev pub Popped : ℕ → Lists → Scheduler × ℕ → Type 0
Popped n f (s', p) =
    ((p ≡ 0) × ((k : ℕ) → k < n → f (ready_at k) ≡ []) × Represents s' f)
    ⊎ ((pr : ℕ) × (xs : List ℕ) × (pr < n)
        × (f (ready_at pr) ≡ p ∷ xs)
        × ((k : ℕ) → pr < k → k < n → f (ready_at k) ≡ [])
        × Represents s' (put_at f (ready_at pr) xs))

put_at-agree : (f : Lists) (x y : Place) (v : List ℕ) → f x ≡ v → put_at f x v y ≡ f y
put_at-agree f x y v e = elim (Bool-cases (same_place x y)) [
  | inl h ↦ rw h (sym e ∙ ap f (same_place→eq x y h))
  | inr h ↦ rw h
]

empty_upto :
    (n : ℕ) (f : Lists)
    → f (ready_at n) ≡ []
    → (P : ℕ → Type 0) → ((k : ℕ) → P k → k < n → f (ready_at k) ≡ [])
    → (k : ℕ) → P k
    → k < suc n
    → f (ready_at k) ≡ []
empty_upto n f e P h k pk lt = elim (eq-cases k n) [
  | inl same ↦ rw same e
  | inr other ↦ h k pk (omega arith)
]

Popped-suc :
    (n : ℕ) (f : Lists) (r : Scheduler × ℕ)
    → f (ready_at n) ≡ []
    → Popped n f r
    → Popped (suc n) f r
Popped-suc n f r e (inl (z, h, rep)) =
    inl (z, (λ k lt. empty_upto n f e (λ k. Unit {0}) (λ k _ lt'. h k lt') k tt lt), rep)
Popped-suc n f r e (inr (pr, xs, lt, g, h, rep)) =
    inr (pr, xs, omega arith, g, (λ k. empty_upto n f e (λ k. pr < k) h k), rep)

-- The result once the ready queue `n` has been popped.
popped_or : ℕ → Scheduler × ℕ → Scheduler × ℕ
popped_or n (s, p) = if p != 0 then (s, p) else pop_below n s

pop_below_step : (n : ℕ) (s : Scheduler) → pop_below (suc n) s ≡ popped_or n (pop_ready s n)
unfolding pop_below popped_or
pop_below_step n s = refl

popped_or-Popped :
    (n : ℕ) (f : Lists) (s' : Scheduler) (p : ℕ) (v : List ℕ)
    → f (ready_at n) ≡ v
    → All (λ x. x ≢ 0) v
    → p ≡ first v
    → Represents s' (put_at f (ready_at n) (tail_of v))
    → (Represents s' f → Popped n f (pop_below n s'))
    → Popped (suc n) f (popped_or n (s', p))
unfolding popped_or
popped_or-Popped n f s' p [] e nz pe r ih =
    rw (eq→== p 0 pe)
      (Popped-suc n f _ e (ih (Represents-agree r (λ y. put_at-agree f (ready_at n) y [] e))))
popped_or-Popped n f s' p (x ∷ xs) e nz pe r ih =
    rw (ne→== p 0 (λ z. nz.0 (sym pe ∙ z))) (
      inr (n, xs, omega arith, (e ∙ ap (λ z. z ∷ xs) (sym pe)), (λ k a b. absurd (omega arith)), r))

pop_below-Popped : (n : ℕ) (s : Scheduler) (f : Lists) → Represents s f → Popped n f (pop_below n s)
pop_below-Popped zero s f r = unfold pop_below in inl (refl, (λ k h. absurd (omega arith)), r)
pop_below-Popped (suc n) s f r = rw (pop_below_step n s) (
    popped_or-Popped n f _ _ (f (ready_at n)) refl
      (NotIn-zero s.links 0 (f (ready_at n)) (r.holds (ready_at n)).chain) (pop-Represents n r).0
      (pop-Represents n r).1 (pop_below-Popped n _ f))

-- `ready_queue_pop_highest` takes the oldest process of the highest priority that has a ready one,
-- and leaves every other process where it was; it answers NULL only if no process is ready. The
-- highest priority is the largest number, 2, as in the code; README.md says that it is 0.
pub pop_highest-Popped :
    (s : Scheduler) (f : Lists) → Represents s f → Popped 3 f (ready_queue_pop_highest s)
unfolding ready_queue_pop_highest
pop_highest-Popped s f r = pop_below-Popped 3 s f r
