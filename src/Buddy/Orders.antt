-- ===== src/Buddy/Orders.antt =====
-- Kernel/mm/mm_buddy.c: the order of a request and the buddy of a block.
use so_tp.Base.{
  ℕ, zero, suc, ◌+◌, ◌-◌, ◌*◌, ◌/◌, ◌%◌, ◌^◌, ◌≡◌, ◌≢◌, ◌<◌, ◌≤◌, ◌⊎◌, refl, sym, ◌∙◌, ap, inl, inr,
  arith, ltb, if◌then◌else◌, Bool-cases, eq-cases, if_true, if_false, subst,
}
use native.Mathlib.Nat.{mul-div_cancel}
use so_tp.Buddy.{order_from, order_for, flip}
use so_tp.Buddy.Xor.{power-pos, bit_xor-power}

-- `base` doubled `n` times.
abbrev pub doubled : ℕ → ℕ → ℕ
doubled base zero = base
doubled base (suc n) = doubled (base * 2) n

-- The order `r` is the least, from `order` on, whose block holds `total` bytes, or no round was left.
abbrev pub Least : ℕ → ℕ → ℕ → ℕ → ℕ → Type 0
Least rounds blk order total r =
    (n : ℕ) × (r ≡ order + n)
    × ((total ≤ doubled blk n) ⊎ (n ≡ rounds))
    × ((n ≡ 0) ⊎ ((m : ℕ) × (suc m ≡ n) × (doubled blk m < total)))

order_stop :
    (rounds blk order total : ℕ) → total ≤ blk → order_from (suc rounds) blk order total ≡ order
unfolding order_from
order_stop rounds blk order total h = if_false (ltb blk total) _ _ (ground (arith, h))

order_step :
    (rounds blk order total : ℕ)
    → blk < total
    → order_from (suc rounds) blk order total ≡ order_from rounds (blk * 2) (order + 1) total
unfolding order_from
order_step rounds blk order total h = if_true (ltb blk total) _ _ (ground (arith, h))

order_none : (blk order total : ℕ) → order_from 0 blk order total ≡ order + 0
unfolding order_from
order_none blk order total = omega arith

order_from-Least :
    (rounds blk order total : ℕ) → Least rounds blk order total (order_from rounds blk order total)
order_from-Least zero blk order total = (0, order_none blk order total, inr refl, inl refl)
order_from-Least (suc rounds) blk order total = elim (Bool-cases (ltb blk total)) [
  | inr e ↦ (
    0,
    order_stop rounds blk order total (ground (arith, e)) ∙ plus_none order,
    inl (ground (arith, e)),
    inl refl,
  )
  | inl e ↦
      let r = order_from-Least rounds (blk * 2) (order + 1) total in
      (
        suc r.0,
        order_step rounds blk order total (ground (arith, e)) ∙ r.1 ∙ plus_one order r.0,
        reach r.2,
        inr (r.0, refl, below r.0 r.3 (ground (arith, e))),
      )
]
  where
    plus_none : (n : ℕ) → n ≡ n + 0
    plus_none n = omega arith

    plus_one : (o n : ℕ) → o + 1 + n ≡ o + suc n
    plus_one o n = omega arith

    reach :
        {n : ℕ}
        → (total ≤ doubled (blk * 2) n) ⊎ (n ≡ rounds)
        → (total ≤ doubled blk (suc n)) ⊎ (suc n ≡ suc rounds)
    reach (inl h) = inl h
    reach (inr h) = inr (ap suc h)

    below :
        (n : ℕ)
        → (n ≡ 0) ⊎ ((m : ℕ) × (suc m ≡ n) × (doubled (blk * 2) m < total))
        → blk < total
        → doubled blk n < total
    below n (inl z) h = subst (λ k. doubled blk k < total) (sym z) h
    below n (inr q) h = subst (λ k. doubled blk k < total) q.1 q.2

-- `order_for` answers the least order whose block holds the request, at least one block of the base;
-- or 31, the highest, where no lower order holds it.
pub order_for-Least :
    (base size_bytes : ℕ)
    → Least 31 base 0 (if ltb size_bytes base then base else size_bytes) (order_for base size_bytes)
unfolding order_for
order_for-Least base size_bytes =
    order_from-Least 31 base 0 (if ltb size_bytes base then base else size_bytes)

module _ (k : ℕ) where
  abbrev s : ℕ
  s = 2 ^ k

  flip_even : (o : ℕ) → o / s % 2 ≡ 0 → flip o s ≡ o + s
  unfolding flip
  flip_even o e = elim (bit_xor-power k o) [
    | inl (d, x) ↦ x
    | inr (d, x) ↦ absurd (omega (arith, d, e))
  ]

  flip_odd : (o : ℕ) → o / s % 2 ≢ 0 → flip o s ≡ o - s
  unfolding flip
  flip_odd o e = elim (bit_xor-power k o) [
    | inl (d, x) ↦ absurd (e d)
    | inr (d, x) ↦ omega (arith, x)
  ]

  quotient : (q : ℕ) → q * s / s ≡ q
  quotient q = mul-div_cancel q (power-pos k)

  one_more : (q : ℕ) → q * s + s ≡ suc q * s
  one_more q = omega arith

  flip_up : (q : ℕ) → q % 2 ≡ 0 → flip (q * s) s ≡ suc q * s
  flip_up q e = flip_even (q * s) (ap (λ x. x % 2) (quotient q) ∙ e) ∙ one_more q

  flip_down : (q : ℕ) → q % 2 ≡ 0 → flip (suc q * s) s ≡ q * s
  flip_down q e =
      flip_odd (suc q * s) (λ w. odd_suc q e (ap (λ x. x % 2) (sym (quotient (suc q))) ∙ w))
      ∙ ap (λ x. x - s) (sym (one_more q))
      ∙ back (q * s)
    where
      odd_suc : (q : ℕ) → q % 2 ≡ 0 → suc q % 2 ≢ 0
      odd_suc q e = omega (arith, e)

      back : (n : ℕ) → n + s - s ≡ n
      back n = omega arith

  -- For a block whose size is a power of two, at an offset that is a multiple of its size, the buddy of
  -- the buddy is the block itself, and the two together are a block of twice the size: the lower offset
  -- is a multiple of it.
  pub flip-flip :
      (q : ℕ)
      → (flip (flip (q * 2 ^ k) (2 ^ k)) (2 ^ k) ≡ q * 2 ^ k)
        × ((p : ℕ) × (((q * 2 ^ k ≡ 2 * p * 2 ^ k)
                × (flip (q * 2 ^ k) (2 ^ k) ≡ 2 * p * 2 ^ k + 2 ^ k))
              ⊎ ((flip (q * 2 ^ k) (2 ^ k) ≡ 2 * p * 2 ^ k) × (q * 2 ^ k ≡ 2 * p * 2 ^ k + 2 ^ k))))
  flip-flip q = elim (parity q) [
    | inl (p, e) ↦ (
      ap (λ x. flip (flip (x * s) s) s) e
          ∙ ap (λ x. flip x s) (flip_up (2 * p) (even p))
          ∙ flip_down (2 * p) (even p)
          ∙ ap (λ x. x * s) (sym e),
      (
        p,
        inl (
          ap (λ x. x * s) e,
          ap (λ x. flip (x * s) s) e ∙ flip_up (2 * p) (even p) ∙ sym (one_more (2 * p)),
        ),
      ),
    )
    | inr (p, e) ↦ (
      ap (λ x. flip (flip (x * s) s) s) e
          ∙ ap (λ x. flip x s) (flip_down (2 * p) (even p))
          ∙ flip_up (2 * p) (even p)
          ∙ ap (λ x. x * s) (sym e),
      (
        p,
        inr (
          ap (λ x. flip (x * s) s) e ∙ flip_down (2 * p) (even p),
          ap (λ x. x * s) e ∙ sym (one_more (2 * p)),
        ),
      ),
    )
  ]
    where
      even : (p : ℕ) → 2 * p % 2 ≡ 0
      even p = omega arith

      parity : (q : ℕ) → ((p : ℕ) × (q ≡ 2 * p)) ⊎ ((p : ℕ) × (q ≡ suc (2 * p)))
      parity q = elim (eq-cases (q % 2) 0) [
        | inl e ↦ inl (q / 2, omega (arith, e))
        | inr e ↦ inr (q / 2, omega (arith, e))
      ]
