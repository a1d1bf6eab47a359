-- ===== src/Memory/Tiles.antt =====
-- Kernel/mm/mm_simple.c: blocks that follow each other without a gap, linked both ways. The links and
-- the sizes are functions here, so that a heap is described by its fields.
use so_tp.Base.{
  elem, eq-cases, inl, inr, ◌⊎◌, All-elem, ℕ, ◌+◌, ◌≡◌, ◌≢◌, ◌≤◌, sym, ◌∙◌, ap, subst, List, [],
  ◌∷◌, ◌++◌, arith, All, first_or, first_or-append, ne→==, true,
}
use so_tp.Queue.Chain.{last_or}

-- The blocks `xs` follow each other up to the address `stop`. The block before the first is
-- `before`, that behind the last is `after`.
abbrev pub Tiles : (ℕ → ℕ) → (ℕ → ℕ) → (ℕ → ℕ) → ℕ → List ℕ → ℕ → ℕ → Type 0
Tiles prev next size before [] after stop = Unit {0}
Tiles prev next size before (x ∷ xs) after stop =
    (prev x ≡ before)
    × (next x ≡ first_or after xs)
    × (x + size x ≡ first_or stop xs)
    × (56 ≤ size x)
    × (x ≢ 0)
    × Tiles prev next size x xs after stop

-- The blocks lie at or above `k`, if the first does.
pub Tiles-above :
    (prev next size : ℕ → ℕ) (before : ℕ) (xs : List ℕ) (after stop k : ℕ)
    → Tiles prev next size before xs after stop
    → k ≤ first_or stop xs
    → All (λ x. k ≤ x) xs × (k ≤ stop)
Tiles-above prev next size before [] after stop k t h = (tt, h)
Tiles-above prev next size before (x ∷ xs) after stop k t h =
    let r = Tiles-above prev next size x xs after stop k t.5 (omega (arith, t.2, t.3, h)) in
    ((h, r.0), r.1)

-- A block that ends at or below `stop`.
abbrev pub Below : (ℕ → ℕ) → ℕ → ℕ → Type 0
Below size stop x = (x + size x ≤ stop) × (56 ≤ size x) × (x ≢ 0)

pub Tiles-Below :
    (prev next size : ℕ → ℕ) (before : ℕ) (xs : List ℕ) (after stop : ℕ)
    → Tiles prev next size before xs after stop
    → All (Below size stop) xs
Tiles-Below prev next size before [] after stop t = tt
Tiles-Below prev next size before (x ∷ xs) after stop t = (
  ((Tiles-above prev next size x xs after stop (x + size x) t.5 (omega (arith, t.2))).1, t.3, t.4),
  Tiles-Below prev next size x xs after stop t.5,
)

-- What agrees on the blocks leaves them as they are.
abbrev pub Agree : (ℕ → ℕ) → (ℕ → ℕ) → (ℕ → ℕ) → (ℕ → ℕ) → (ℕ → ℕ) → (ℕ → ℕ) → ℕ → Type 0
Agree prev next size prev' next' size' x =
    (prev' x ≡ prev x) × (next' x ≡ next x) × (size' x ≡ size x)

pub Tiles-Agree :
    (prev next size prev' next' size' : ℕ → ℕ) (before : ℕ) (xs : List ℕ) (after stop : ℕ)
    → All (Agree prev next size prev' next' size') xs
    → Tiles prev next size before xs after stop
    → Tiles prev' next' size' before xs after stop
Tiles-Agree prev next size prev' next' size' before [] after stop a t = tt
Tiles-Agree prev next size prev' next' size' before (x ∷ xs) after stop a t = (
  (a.0.0 ∙ t.0),
  (a.0.1 ∙ t.1),
  (ap (λ n. x + n) a.0.2 ∙ t.2),
  omega (arith, a.0.2, t.3),
  t.4,
  Tiles-Agree prev next size prev' next' size' x xs after stop a.1 t.5,
)

-- The blocks up to one of them, and those from it on.
pub Tiles-split :
    (prev next size : ℕ → ℕ) (before : ℕ) (us : List ℕ) (b : ℕ) (vs : List ℕ) (after stop : ℕ)
    → Tiles prev next size before (us ++ b ∷ vs) after stop
    → Tiles prev next size before us b b
      × Tiles prev next size (last_or before us) (b ∷ vs) after stop
Tiles-split prev next size before [] b vs after stop t = (tt, t)
Tiles-split prev next size before (u ∷ us) b vs after stop t =
    let r = Tiles-split prev next size u us b vs after stop t.5 in
    (
      (
        t.0,
        (t.1 ∙ first_or-append after b us vs),
        (t.2 ∙ first_or-append stop b us vs),
        t.3,
        t.4,
        r.0,
      ),
      r.1,
    )

pub Tiles-join :
    (prev next size : ℕ → ℕ) (before : ℕ) (us : List ℕ) (b : ℕ) (vs : List ℕ) (after stop : ℕ)
    → Tiles prev next size before us b b
    → Tiles prev next size (last_or before us) (b ∷ vs) after stop
    → Tiles prev next size before (us ++ b ∷ vs) after stop
Tiles-join prev next size before [] b vs after stop t r = r
Tiles-join prev next size before (u ∷ us) b vs after stop t r = (
  t.0,
  (t.1 ∙ sym (first_or-append after b us vs)),
  (t.2 ∙ sym (first_or-append stop b us vs)),
  t.3,
  t.4,
  Tiles-join prev next size u us b vs after stop t.5 r,
)

-- Two blocks share no byte.
abbrev pub Apart : (ℕ → ℕ) → ℕ → ℕ → Type 0
Apart size x y = (x + size x ≤ y) ⊎ (y + size y ≤ x)

pub Tiles-Apart :
    (prev next size : ℕ → ℕ) (before : ℕ) (xs : List ℕ) (after stop x y : ℕ)
    → Tiles prev next size before xs after stop
    → elem x xs ≡ true
    → elem y xs ≡ true
    → x ≢ y
    → Apart size x y
Tiles-Apart prev next size before [] after stop x y t i j n = absurd (ground arith)
Tiles-Apart prev next size before (u ∷ us) after stop x y t i j n =
    let above =
      (Tiles-above prev next size u us after stop (u + size u) t.5 (omega (arith, t.2))).0 in
    elim (eq-cases u x) [
      | inl same ↦ inl (
          subst (λ z. z + size z ≤ y) same
            (All-elem (λ z. u + size u ≤ z) y us above
              (rw (ne→== u y (λ e. n (sym same ∙ e))) at j)))
      | inr other ↦ elim (eq-cases u y) [
        | inl same ↦ inr (
            subst (λ z. z + size z ≤ x) same
              (All-elem (λ z. u + size u ≤ z) x us above (rw (ne→== u x other) at i)))
        | inr other' ↦
            Tiles-Apart prev next size u us after stop x y t.5 (rw (ne→== u x other) at i)
              (rw (ne→== u y other') at j) n
      ]
    ]

abbrev pub Pair : ℕ → ℕ → List ℕ → Type 0
Pair x y xs = (us : List ℕ) × (vs : List ℕ) × (xs ≡ us ++ x ∷ y ∷ vs)

Pair-behind : (x y u : ℕ) (xs : List ℕ) → Pair x y xs → Pair x y (u ∷ xs)
Pair-behind x y u xs p = (u ∷ p.0, p.1, ap (λ ys. u ∷ ys) p.2)

-- The link of a block leads to the block before it.
pub Tiles-before :
    (prev next size : ℕ → ℕ) (before : ℕ) (xs : List ℕ) (after stop b : ℕ)
    → Tiles prev next size before xs after stop
    → elem b xs ≡ true
    → ((prev b ≡ before) × ((vs : List ℕ) × (xs ≡ b ∷ vs))) ⊎ Pair (prev b) b xs
Tiles-before prev next size before [] after stop b t e = absurd (ground arith)
Tiles-before prev next size before (x ∷ xs) after stop b t e = elim (eq-cases x b) [
  | inl same ↦ inl ((ap prev (sym same) ∙ t.0), (xs, ap (λ y. y ∷ xs) same))
  | inr other ↦
      elim (Tiles-before prev next size x xs after stop b t.5 (rw (ne→== x b other) at e)) [
        | inl f ↦ inr ([], f.1.0, ap (λ y. x ∷ y) f.1.1 ∙ ap (λ y. y ∷ b ∷ f.1.0) (sym f.0))
        | inr p ↦ inr (Pair-behind (prev b) b x xs p)
      ]
]

-- The other link leads to the block behind it.
pub Tiles-behind :
    (prev next size : ℕ → ℕ) (before : ℕ) (xs : List ℕ) (after stop b : ℕ)
    → Tiles prev next size before xs after stop
    → elem b xs ≡ true
    → (next b ≡ after) ⊎ Pair b (next b) xs
Tiles-behind prev next size before [] after stop b t e = absurd (ground arith)
Tiles-behind prev next size before (x ∷ xs) after stop b t e = elim (eq-cases x b) [
  | inl same ↦ first_behind xs same t.1
  | inr other ↦
      elim (Tiles-behind prev next size x xs after stop b t.5 (rw (ne→== x b other) at e)) [
        | inl f ↦ inl f
        | inr p ↦ inr (Pair-behind b (next b) x xs p)
      ]
]
  where
    first_behind :
        (xs : List ℕ)
        → x ≡ b
        → next x ≡ first_or after xs
        → (next b ≡ after) ⊎ Pair b (next b) (x ∷ xs)
    first_behind [] s n = inl (ap next (sym s) ∙ n)
    first_behind (v ∷ vs) s n =
        inr ([], vs, ap (λ y. y ∷ v ∷ vs) s ∙ ap (λ y. b ∷ y ∷ vs) (sym n ∙ ap next s))
