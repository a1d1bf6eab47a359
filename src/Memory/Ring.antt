-- ===== src/Memory/Ring.antt =====
-- Kernel/mm/mm_simple.c: the list of the free blocks, linked both ways. The links are functions
-- here, as in Memory/Tiles.
use so_tp.Base.{
  ℕ, ◌≡◌, ◌≢◌, sym, ◌∙◌, ap, subst, List, [], ◌∷◌, arith, All, All-map, elem, erase, NotIn,
  Distinct, eq-cases, inl, inr, eq→==, ne→==, true, elem-ne,
}

-- The elements `xs` stand between `a` and `z`, linked both ways.
abbrev pub Ring : (ℕ → ℕ) → (ℕ → ℕ) → ℕ → List ℕ → ℕ → Type 0
Ring prev next a [] z = (next a ≡ z) × (prev z ≡ a)
Ring prev next a (x ∷ xs) z = (next a ≡ x) × (prev x ≡ a) × Ring prev next x xs z

-- What the writes that unlink `b` make of the links.
pub record Unlinked (prev next prev' next' : ℕ → ℕ) (b : ℕ) : Type 0 where
  pub next_before : next' (prev b) ≡ next b
  pub prev_behind : prev' (next b) ≡ prev b
  pub next_kept : (x : ℕ) → x ≢ b → x ≢ prev b → next' x ≡ next x
  pub prev_kept : (x : ℕ) → x ≢ b → x ≢ next b → prev' x ≡ prev x

-- Those that link `b` behind `a`.
pub record Linked (prev next prev' next' : ℕ → ℕ) (a b : ℕ) : Type 0 where
  pub next_before : next' a ≡ b
  pub next_new : next' b ≡ next a
  pub prev_new : prev' b ≡ a
  pub prev_behind : prev' (next a) ≡ b
  pub next_kept : (x : ℕ) → x ≢ b → x ≢ a → next' x ≡ next x
  pub prev_kept : (x : ℕ) → x ≢ b → x ≢ next a → prev' x ≡ prev x

both : (p q : ℕ) (xs : List ℕ) → NotIn p xs → NotIn q xs → All (λ x. (x ≢ p) × (x ≢ q)) xs
both p q [] i j = tt
both p q (x ∷ xs) i j = ((i.0, j.0), both p q xs i.1 j.1)

module _ (prev next : ℕ → ℕ) where
  next-inside :
      (a : ℕ) (xs : List ℕ) (z b y : ℕ)
      → Ring prev next a xs z
      → elem b xs ≡ true
      → NotIn y xs
      → y ≢ z
      → y ≢ next b
  next-inside a [] z b y r e n k = absurd (ground arith)
  next-inside a (x ∷ xs) z b y r e n k = elim (eq-cases x b) [
    | inl same ↦ subst (λ t. y ≢ next t) same (next_first xs r.2 n.1)
    | inr other ↦ next-inside x xs z b y r.2 (rw (ne→== x b other) at e) n.1 k
  ]
    where
      next_first : {x : ℕ} (xs : List ℕ) → Ring prev next x xs z → NotIn y xs → y ≢ next x
      next_first [] r n = λ w. k (w ∙ r.0)
      next_first (u ∷ us) r n = λ w. n.0 (sym (w ∙ r.0))

  prev-inside :
      (a : ℕ) (xs : List ℕ) (z b y : ℕ)
      → Ring prev next a xs z
      → elem b xs ≡ true
      → NotIn y (a ∷ xs)
      → y ≢ prev b
  prev-inside a [] z b y r e n = absurd (ground arith)
  prev-inside a (x ∷ xs) z b y r e n = elim (eq-cases x b) [
    | inl same ↦ λ w. n.0 (sym (w ∙ ap prev (sym same) ∙ r.1))
    | inr other ↦ prev-inside x xs z b y r.2 (rw (ne→== x b other) at e) n.1
  ]

  -- No element is its own neighbour.
  pub next_self :
      (a : ℕ) (xs : List ℕ) (z b : ℕ)
      → Ring prev next a xs z
      → elem b xs ≡ true
      → Distinct xs
      → NotIn z xs
      → next b ≢ b
  next_self a [] z b r e d k = absurd (ground arith)
  next_self a (x ∷ xs) z b r e d k = elim (eq-cases x b) [
    | inl same ↦ subst (λ t. next t ≢ t) same (next_first xs r.2 d.0)
    | inr other ↦ next_self x xs z b r.2 (rw (ne→== x b other) at e) d.1 k.1
  ]
    where
      next_first : (xs : List ℕ) → Ring prev next x xs z → NotIn x xs → next x ≢ x
      next_first [] r n = λ w. k.0 (sym w ∙ r.0)
      next_first (u ∷ us) r n = λ w. n.0 (sym r.0 ∙ w)

  pub prev_self :
      (a : ℕ) (xs : List ℕ) (z b : ℕ)
      → Ring prev next a xs z
      → elem b xs ≡ true
      → Distinct xs
      → NotIn a xs
      → prev b ≢ b
  prev_self a [] z b r e d k = absurd (ground arith)
  prev_self a (x ∷ xs) z b r e d k = elim (eq-cases x b) [
    | inl same ↦ λ w. k.0 (same ∙ sym w ∙ ap prev (sym same) ∙ r.1)
    | inr other ↦ prev_self x xs z b r.2 (rw (ne→== x b other) at e) d.1 d.0
  ]

module _ (prev next prev' next' : ℕ → ℕ) where
  pub Ring-Agree :
      (a : ℕ) (xs : List ℕ) (z : ℕ)
      → All (λ x. next' x ≡ next x) (a ∷ xs)
      → All (λ x. prev' x ≡ prev x) xs
      → prev' z ≡ prev z
      → Ring prev next a xs z
      → Ring prev' next' a xs z
  Ring-Agree a [] z n p e r = ((n.0 ∙ r.0), (e ∙ r.1))
  Ring-Agree a (x ∷ xs) z n p e r = ((n.0 ∙ r.0), (p.0 ∙ r.1), Ring-Agree x xs z n.1 p.1 e r.2)

  -- The first element goes.
  unlink_first :
      (a b : ℕ) (vs : List ℕ) (z : ℕ)
      → Unlinked prev next prev' next' b
      → Ring prev next a (b ∷ vs) z
      → NotIn a (b ∷ vs)
      → Distinct (b ∷ vs)
      → NotIn z (b ∷ vs)
      → Ring prev' next' a vs z
  unlink_first a b [] z u r n d k =
      ((ap next' (sym r.1) ∙ u.next_before ∙ r.2.0), (ap prev' (sym r.2.0) ∙ u.prev_behind ∙ r.1))
  unlink_first a b (v ∷ vs) z u r n d k = (
    (ap next' (sym r.1) ∙ u.next_before ∙ r.2.0),
    (ap prev' (sym r.2.0) ∙ u.prev_behind ∙ r.1),
    Ring-Agree v vs z
        (All-map (λ x w. u.next_kept x w.0 (λ e. w.1 (e ∙ r.1))) (v ∷ vs)
          (both b a (v ∷ vs) d.0 n.1))
        (All-map (λ x w. u.prev_kept x w.0 (λ e. w.1 (e ∙ r.2.0))) vs (both b v vs d.0.1 d.1.0))
        (u.prev_kept z (λ e. k.0 (sym e)) (λ e. k.1.0 (sym (e ∙ r.2.0)))) r.2.2,
  )

  pub Ring-Unlinked :
      (a : ℕ) (xs : List ℕ) (z b : ℕ)
      → Unlinked prev next prev' next' b
      → Ring prev next a xs z
      → elem b xs ≡ true
      → NotIn a xs
      → Distinct xs
      → NotIn z xs
      → Ring prev' next' a (erase b xs) z
  Ring-Unlinked a [] z b u r e n d k = absurd (ground arith)
  Ring-Unlinked a (x ∷ xs) z b u r e n d k = elim (eq-cases x b) [
    | inl same ↦
        rw (eq→== x b same) (
          unlink_first a x xs z (subst (λ t. Unlinked prev next prev' next' t) (sym same) u) r n d
            k)
    | inr other ↦
        let e' : elem b xs ≡ true = rw (ne→== x b other) at e in
        rw (ne→== x b other) (
          (u.next_kept a (elem-ne b a xs e' n.1) (prev-inside prev next x xs z b a r.2 e' n) ∙ r.0),
          (u.prev_kept x other (next-inside prev next x xs z b x r.2 e' d.0 (λ w. k.0 w)) ∙ r.1),
          Ring-Unlinked x xs z b u r.2 e' d.0 d.1 k.1,
        )
  ]

  pub Ring-Linked :
      (s : ℕ) (xs : List ℕ) (b : ℕ)
      → Linked prev next prev' next' s b
      → Ring prev next s xs s
      → NotIn s xs
      → NotIn b xs
      → Distinct xs
      → b ≢ s
      → Ring prev' next' s (b ∷ xs) s
  Ring-Linked s [] b l r n m d k =
      (l.next_before, l.prev_new, ((l.next_new ∙ r.0), (ap prev' (sym r.0) ∙ l.prev_behind)))
  Ring-Linked s (x ∷ xs) b l r n m d k = (
    l.next_before,
    l.prev_new,
    (
      (l.next_new ∙ r.0),
      (ap prev' (sym r.0) ∙ l.prev_behind),
      Ring-Agree x xs s (All-map (λ y w. l.next_kept y w.0 w.1) (x ∷ xs) (both b s (x ∷ xs) m n))
          (All-map (λ y w. l.prev_kept y w.0 (λ e. w.1 (e ∙ r.0))) xs (both b x xs m.1 d.0))
          (l.prev_kept s (λ e. k (sym e)) (λ e. n.0 (sym (e ∙ r.0)))) r.2,
    ),
  )
