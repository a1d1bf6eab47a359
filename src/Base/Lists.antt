-- ===== src/Base/Lists.antt =====
-- Lists measured and indexed by native numbers, under the library's names, and predicates on the
-- elements that compute to tuples.
use Prim.Native.Nat.{ℕ, zero, suc, ◌+◌, ◌<◌, ◌≤◌}
use mathlib.Core.Path.{◌≡◌, refl, ap, subst}
use mathlib.Core.Logic.{◌≢◌, inl, inr}
use mathlib.Core.Bool.{Bool, true, false}
use mathlib.Core.List.{List, [], ◌∷◌, ◌++◌}
use native.Mathlib.Omega.{arith}
use so_tp.Base.Tests.{◌==◌, if◌then◌else◌, Bool-cases, eq-cases, ne→==}

module _ {ℓ} {A : Type ℓ} where
  abbrev pub length : List A → ℕ
  length [] = 0
  length (x ∷ xs) = suc (length xs)

  abbrev pub get_or : List A → ℕ → A → A
  get_or [] i d = d
  get_or (x ∷ xs) zero d = x
  get_or (x ∷ xs) (suc i) d = get_or xs i d

  -- A write out of bounds changes nothing.
  abbrev pub set : List A → ℕ → A → List A
  set [] i v = []
  set (x ∷ xs) zero v = v ∷ xs
  set (x ∷ xs) (suc i) v = x ∷ set xs i v

  abbrev pub replicate : ℕ → A → List A
  replicate zero a = []
  replicate (suc n) a = a ∷ replicate n a

  pub length-append : (xs ys : List A) → length (xs ++ ys) ≡ length xs + length ys
  length-append [] ys = omega arith
  length-append (x ∷ xs) ys = omega (arith, length-append xs ys)

  pub length-set : (xs : List A) (i : ℕ) (v : A) → length (set xs i v) ≡ length xs
  length-set [] i v = refl
  length-set (x ∷ xs) zero v = refl
  length-set (x ∷ xs) (suc i) v = ap suc (length-set xs i v)

  pub get_or-set_self :
      (xs : List A) (i : ℕ) (v d : A) → i < length xs → get_or (set xs i v) i d ≡ v
  get_or-set_self [] i v d h = absurd (omega arith)
  get_or-set_self (x ∷ xs) zero v d h = refl
  get_or-set_self (x ∷ xs) (suc i) v d h = get_or-set_self xs i v d (omega arith)

  pub get_or-set_ne :
      (xs : List A) (i j : ℕ) (v d : A) → i ≢ j → get_or (set xs i v) j d ≡ get_or xs j d
  get_or-set_ne [] i j v d h = refl
  get_or-set_ne (x ∷ xs) zero zero v d h = absurd (h refl)
  get_or-set_ne (x ∷ xs) zero (suc j) v d h = refl
  get_or-set_ne (x ∷ xs) (suc i) zero v d h = refl
  get_or-set_ne (x ∷ xs) (suc i) (suc j) v d h = get_or-set_ne xs i j v d (λ e. h (ap suc e))

  abbrev pub All {κ} : (A → Type κ) → List A → Type κ
  All P [] = Unit
  All P (x ∷ xs) = P x × All P xs

-- The first element, or `d`.
abbrev pub first_or : ℕ → List ℕ → ℕ
first_or d [] = d
first_or d (x ∷ xs) = x

pub first_or-append : (d b : ℕ) (xs ys : List ℕ) → first_or d (xs ++ b ∷ ys) ≡ first_or b xs
first_or-append d b [] ys = refl
first_or-append d b (x ∷ xs) ys = refl

module _ {ℓ κ μ} {A : Type ℓ} {P : A → Type κ} {Q : A → Type μ} where
  pub All-map : ((x : A) → P x → Q x) → (xs : List A) → All P xs → All Q xs
  All-map f [] a = tt
  All-map f (x ∷ xs) a = (f x a.0, All-map f xs a.1)

-- Membership of a number, as a test and as a refutation.
abbrev pub elem : ℕ → List ℕ → Bool
elem p [] = false
elem p (x ∷ xs) = if x == p then true else elem p xs

abbrev pub NotIn : ℕ → List ℕ → Type 0
NotIn p = All (λ x. x ≢ p)

abbrev pub Distinct : List ℕ → Type 0
Distinct [] = Unit {0}
Distinct (x ∷ xs) = NotIn x xs × Distinct xs

-- The list without its first occurrence of `p`.
abbrev pub erase : ℕ → List ℕ → List ℕ
erase p [] = []
erase p (x ∷ xs) = if x == p then xs else x ∷ erase p xs

pub NotIn-elem : (p : ℕ) (xs : List ℕ) → elem p xs ≡ false → NotIn p xs
NotIn-elem p [] h = tt
NotIn-elem p (x ∷ xs) h = (ground arith, NotIn-elem p xs (ground arith))

pub elem-NotIn : (p : ℕ) (xs : List ℕ) → NotIn p xs → elem p xs ≡ false
elem-NotIn p [] h = refl
elem-NotIn p (x ∷ xs) h = ground (arith, elem-NotIn p xs)

pub NotIn-erase : (q p : ℕ) (xs : List ℕ) → NotIn q xs → NotIn q (erase p xs)
NotIn-erase q p [] h = tt
NotIn-erase q p (x ∷ xs) h = ground (arith, NotIn-erase q p xs h.1)

pub NotIn-erase_self : (p : ℕ) (xs : List ℕ) → Distinct xs → NotIn p (erase p xs)
NotIn-erase_self p [] d = tt
NotIn-erase_self p (x ∷ xs) d = ground (arith, NotIn-erase_self p xs d.1, d.0)

pub elem-erase_ne : (q p : ℕ) (xs : List ℕ) → q ≢ p → elem q (erase p xs) ≡ elem q xs
elem-erase_ne q p [] h = refl
elem-erase_ne q p (x ∷ xs) h = ground (arith, elem-erase_ne q p xs h)

pub Distinct-erase : (p : ℕ) (xs : List ℕ) → Distinct xs → Distinct (erase p xs)
Distinct-erase p [] d = tt
Distinct-erase p (x ∷ xs) d = ground (arith, Distinct-erase p xs d.1, NotIn-erase x p xs d.0)

pub length-erase : (p : ℕ) (xs : List ℕ) → elem p xs ≡ true → length (erase p xs) + 1 ≡ length xs
length-erase p [] h = absurd (ground arith)
length-erase p (x ∷ xs) h = ground (arith, length-erase p xs)

pub NotIn-append : (p : ℕ) (xs ys : List ℕ) → NotIn p xs → NotIn p ys → NotIn p (xs ++ ys)
NotIn-append p [] ys h k = k
NotIn-append p (x ∷ xs) ys h k = (h.0, NotIn-append p xs ys h.1 k)

-- An element behind another is seen by no other number.
pub elem-between_ne :
    (q b m : ℕ) (us vs : List ℕ) → q ≢ m → elem q (us ++ b ∷ m ∷ vs) ≡ elem q (us ++ b ∷ vs)
elem-between_ne q b m [] vs h = ground arith
elem-between_ne q b m (u ∷ us) vs h = ground (arith, elem-between_ne q b m us vs h)

pub elem-append_self : (b : ℕ) (us vs : List ℕ) → elem b (us ++ b ∷ vs) ≡ true
elem-append_self b [] vs = ground arith
elem-append_self b (u ∷ us) vs = ground (arith, elem-append_self b us vs)

pub elem-append_next : (b m : ℕ) (us vs : List ℕ) → elem m (us ++ b ∷ m ∷ vs) ≡ true
elem-append_next b m [] vs = ground arith
elem-append_next b m (u ∷ us) vs = ground (arith, elem-append_next b m us vs)

abbrev pub SplitAt : ℕ → List ℕ → Type 0
SplitAt b xs = (us : List ℕ) × (vs : List ℕ) × (xs ≡ us ++ b ∷ vs)

pub SplitAt-elem : (b : ℕ) (xs : List ℕ) → elem b xs ≡ true → SplitAt b xs
SplitAt-elem b [] e = absurd (ground arith)
SplitAt-elem b (x ∷ xs) e = elim (eq-cases x b) [
  | inl same ↦ ([], xs, ap (λ y. y ∷ xs) same)
  | inr other ↦
      let r = SplitAt-elem b xs (rw (ne→== x b other) at e) in (x ∷ r.0, r.1, ap (λ ys. x ∷ ys) r.2)
]

pub Distinct-append_one : (xs : List ℕ) (p : ℕ) → Distinct xs → NotIn p xs → Distinct (xs ++ p ∷ [])
Distinct-append_one [] p d h = (tt, tt)
Distinct-append_one (x ∷ xs) p d h = (
  NotIn-append x xs (p ∷ []) d.0 ((λ e. h.0 (ground arith)), tt),
  Distinct-append_one xs p d.1 h.1,
)

module _ {ℓ} (P : ℕ → Type ℓ) where
  pub All-erase : (p : ℕ) (xs : List ℕ) → All P xs → All P (erase p xs)
  All-erase p [] a = tt
  All-erase p (x ∷ xs) a = elim (x == p) as (λ b. All P (if b then xs else x ∷ erase p xs)) [
    | true ↦ a.1
    | false ↦ (a.0, All-erase p xs a.1)
  ]

  pub All-append_one : (xs : List ℕ) (p : ℕ) → All P xs → P p → All P (xs ++ p ∷ [])
  All-append_one [] p a h = (h, tt)
  All-append_one (x ∷ xs) p a h = (a.0, All-append_one xs p a.1 h)

  pub All-between :
      (b m : ℕ) (us vs : List ℕ) → All P (us ++ b ∷ vs) → P m → All P (us ++ b ∷ m ∷ vs)
  All-between b m [] vs a h = (a.0, (h, a.1))
  All-between b m (u ∷ us) vs a h = (a.0, All-between b m us vs a.1 h)

  pub All-without : (b m : ℕ) (us vs : List ℕ) → All P (us ++ b ∷ m ∷ vs) → All P (us ++ b ∷ vs)
  All-without b m [] vs a = (a.0, a.1.1)
  All-without b m (u ∷ us) vs a = (a.0, All-without b m us vs a.1)

  pub All-elem : (p : ℕ) (xs : List ℕ) → All P xs → elem p xs ≡ true → P p
  All-elem p [] a e = absurd (ground arith)
  All-elem p (x ∷ xs) a e = elim (eq-cases x p) [
    | inl same ↦ subst P same a.0
    | inr other ↦ All-elem p xs a.1 (rw (ne→== x p other) at e)
  ]

All-lt_pred : (n : ℕ) (xs : List ℕ) → All (λ x. x < suc n) xs → NotIn n xs → All (λ x. x < n) xs
All-lt_pred n [] a h = tt
All-lt_pred n (x ∷ xs) a h = (ground arith, All-lt_pred n xs a.1 h.1)

-- Distinct numbers below `n` are at most `n`.
pub length-le_of_Distinct :
    (n : ℕ) (xs : List ℕ) → Distinct xs → All (λ x. x < n) xs → length xs ≤ n
length-le_of_Distinct zero [] d a = omega arith
length-le_of_Distinct zero (x ∷ xs) d a = absurd (omega arith)
length-le_of_Distinct (suc n) xs d a = elim (Bool-cases (elem n xs)) [
  | inl e ↦ omega (
    arith,
    length-erase n xs e,
    length-le_of_Distinct n (erase n xs) (Distinct-erase n xs d)
        (All-lt_pred n (erase n xs) (All-erase (λ x. x < suc n) n xs a) (NotIn-erase_self n xs d)),
  )
  | inr e ↦ omega (arith, length-le_of_Distinct n xs d (All-lt_pred n xs a (NotIn-elem n xs e)))
]

-- What is in a list differs from what is not.
pub elem-ne : (p y : ℕ) (xs : List ℕ) → elem p xs ≡ true → NotIn y xs → y ≢ p
elem-ne p y [] e n = absurd (ground arith)
elem-ne p y (x ∷ xs) e n = ground (arith, elem-ne p y xs)
