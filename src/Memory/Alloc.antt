-- ===== src/Memory/Alloc.antt =====
-- Kernel/mm/mm_simple.c: `mm_alloc`.
use so_tp.Base.{
  ℕ, zero, suc, ◌+◌, ◌%◌, ◌^◌, ◌≡◌, ◌≢◌, ◌⊎◌, ◌<◌, ◌≤◌, refl, sym, ◌∙◌, ap, subst, List, [], ◌∷◌,
  ◌++◌, arith, All, elem, NotIn, inl, inr, length, ◌==◌, if◌then◌else◌, eq→==, ne→==, true, false,
  Bool-cases, lt→ltb, le→ltb, elem-between_ne, elem-append_self, ltb, leb, elem-ne,
  ne_false_of_true,
}
use so_tp.Queue.{address_limit}
use so_tp.Queue.Chain.{last_or}
use so_tp.Memory.{
  Heap, split_block, split_block_if_possible, block_size, block_is_allocated, first_fit_from,
  find_first_fit,
}
use so_tp.Memory.Tiles.{Tiles-split}
use so_tp.Memory.Split.{
  inside-NotIn, Loose-split_block, block_size-split_block, split_block-kept, next-ne_inside,
}
use so_tp.Memory.Ring.{Ring}
use so_tp.Memory.WellFormed.{Loose, WellFormed, Loose-Below, Loose-sentinel, Loose-length}

module _ (h : Heap) (r : ℕ) where
  abbrev pub Missing : List ℕ → ℕ → Type 0
  Missing xs b = (b ≡ 0) × All (λ x. block_size h x < r) xs

  abbrev pub Fits : List ℕ → ℕ → Type 0
  Fits xs b = (elem b xs ≡ true) × (r ≤ block_size h b)

  abbrev pub Outcome : List ℕ → ℕ → Type 0
  Outcome xs b = Missing xs b ⊎ Fits xs b

  first_fit_step :
      (fuel c : ℕ)
      → first_fit_from (suc fuel) h c r ≡ (
          if c == h.sentinel
          then 0
          else if leb r (block_size h c)
          then c
          else first_fit_from fuel h (h.next_free c) r)
  unfolding first_fit_from
  first_fit_step fuel c = refl

  at_end : (fuel c : ℕ) → c ≡ h.sentinel → first_fit_from (suc fuel) h c r ≡ 0
  at_end fuel c e = rw (first_fit_step fuel c, eq→== c h.sentinel e)

  at_fit :
      (fuel x c : ℕ)
      → c ≡ x
      → x ≢ h.sentinel
      → leb r (block_size h x) ≡ true
      → first_fit_from (suc fuel) h c r ≡ x
  at_fit fuel x c e n l = rw (first_fit_step fuel c, e, ne→== x h.sentinel n, l)

  at_small :
      (fuel x c : ℕ)
      → c ≡ x
      → x ≢ h.sentinel
      → leb r (block_size h x) ≡ false
      → first_fit_from (suc fuel) h c r ≡ first_fit_from fuel h (h.next_free x) r
  at_small fuel x c e n l = rw (first_fit_step fuel c, e, ne→== x h.sentinel n, l)

  behind : (x b : ℕ) (xs : List ℕ) → block_size h x < r → Outcome xs b → Outcome (x ∷ xs) b
  behind x b xs l (inl m) = inl (m.0, (l, m.1))
  behind x b xs l (inr f) = inr (ground (arith, f.0), f.1)

  first_fit-cases :
      (fuel a : ℕ) (xs : List ℕ)
      → Ring h.prev_free h.next_free a xs h.sentinel
      → NotIn h.sentinel xs
      → length xs < fuel
      → Outcome xs (first_fit_from fuel h (h.next_free a) r)
  first_fit-cases zero a xs g n l = absurd (omega (arith, l))
  first_fit-cases (suc fuel) a [] g n l =
      subst (Outcome []) (sym (at_end fuel (h.next_free a) g.0)) (inl (refl, tt))
  first_fit-cases (suc fuel) a (x ∷ xs) g n l = elim (Bool-cases (leb r (block_size h x))) [
    | inl e ↦
        subst (Outcome (x ∷ xs)) (sym (at_fit fuel x (h.next_free a) g.0 n.0 e))
          (inr (ground arith, ground (arith, e)))
    | inr e ↦ subst (Outcome (x ∷ xs)) (sym (at_small fuel x (h.next_free a) g.0 n.0 e)) (
        behind x (first_fit_from fuel h (h.next_free x) r) xs (ground (arith, e))
          (first_fit-cases fuel x xs g.2 n.1 (omega (arith, l))))
  ]

  -- The first block of the free list that is large enough, or NULL if there is none.
  pub find_first_fit-cases :
      (bs fs : List ℕ) (stop : ℕ) → WellFormed h bs fs stop → Outcome fs (find_first_fit h r)
  unfolding find_first_fit
  find_first_fit-cases bs fs stop w =
      first_fit-cases address_limit h.sentinel fs w.ring (Loose-sentinel h bs fs stop 0 0 w)
        (Loose-length h bs fs stop 0 0 w)

-- What `take_block` has made of the heap when the block `p` is about to be marked.
pub record Cleared (h h' : Heap) (bs bs' fs' : List ℕ) (stop p r : ℕ) : Type 0 where
  pub loose : Loose h' bs' fs' stop p 0
  pub member : elem p bs' ≡ true
  pub enough : r ≤ block_size h' p
  pub kept :
      (x : ℕ)
      → elem x bs ≡ true
      → block_is_allocated h x ≡ true
      → (elem x bs' ≡ true) × (block_is_allocated h' x ≡ true) × (block_size h' x ≡ block_size h x)

abbrev pub ClearedSome : Heap → Heap → List ℕ → ℕ → ℕ → ℕ → Type 0
ClearedSome h h' bs stop p r = (bs' : List ℕ) × (fs' : List ℕ) × Cleared h h' bs bs' fs' stop p r

module _ (h : Heap) (b r : ℕ) where
  split_small : block_size h b < r + 56 → r ≤ address_limit → split_block_if_possible h b r ≡ h
  unfolding split_block_if_possible address_limit
  split_small p l = rw (lt→ltb (block_size h b) ((r + 56) % 2 ^ 64) (omega (arith, p, l)))

  split_large :
      r + 56 ≤ block_size h b
      → r ≤ address_limit
      → split_block_if_possible h b r ≡ split_block h b r
  unfolding split_block_if_possible address_limit
  split_large p l = rw (le→ltb (block_size h b) ((r + 56) % 2 ^ 64) (omega (arith, p, l)))

  -- The block is cut, when what is left over can be a block.
  pub clear_block :
      (us vs fs : List ℕ) (stop : ℕ)
      → Loose h (us ++ b ∷ vs) fs stop b 0
      → block_is_allocated h b ≡ false
      → 56 ≤ r
      → r % 2 ≡ 0
      → r ≤ block_size h b
      → ClearedSome h (split_block_if_possible h b r) (us ++ b ∷ vs) stop b r
  clear_block us vs fs stop w f p v q =
      let bs : List ℕ = us ++ b ∷ vs in
      let k = Loose-Below h bs fs stop b 0 w b (elem-append_self b us vs) in
      let l : r ≤ address_limit = omega (arith, k.0, q, w.bounded) in
      elim (Bool-cases (ltb (block_size h b) (r + 56))) [
        | inl e ↦ rw (split_small (ground (arith, e)) l) (
          bs,
          fs,
          record {
            loose = w;
            member = elem-append_self b us vs;
            enough = q;
            kept = λ x i a. (i, a, refl);
          },
        )
        | inr e ↦
            rw (split_large (ground (arith, e)) l) (cleared_by_split w f p v (ground (arith, e)))
      ]
    where
      cleared_by_split :
          Loose h (us ++ b ∷ vs) fs stop b 0
          → block_is_allocated h b ≡ false
          → 56 ≤ r
          → r % 2 ≡ 0
          → r + 56 ≤ block_size h b
          → ClearedSome h (split_block h b r) (us ++ b ∷ vs) stop b r
      cleared_by_split w f p v q =
          let t = Tiles-split h.prev_phys h.next_phys (block_size h) 0 us b vs 0 stop w.tiles in
          let next = next-ne_inside h b r (last_or 0 us) vs stop t.1 p (omega (arith, q)) in
          let new =
            inside-NotIn h.prev_phys h.next_phys (block_size h) us b vs stop (b + r) w.tiles
              (omega (arith, p)) (omega (arith, q)) in
          (
            us ++ b ∷ (b + r) ∷ vs,
            (b + r) ∷ fs,
            record {
              loose = Loose-split_block h b r us vs fs stop w p v q;
              member = elem-append_self b us ((b + r) ∷ vs);
              enough = omega (arith, block_size-split_block h b r p v (omega (arith, q)) next);
              kept = λ x e a.
                  let i : x ≢ b + r = λ z. elem-ne x (b + r) (us ++ b ∷ vs) e new (sym z) in
                  let j : x ≢ b = λ z.
                    ne_false_of_true (block_is_allocated h b)
                      (ap (block_is_allocated h) (sym z) ∙ a) f in
                  let k = split_block-kept h b r x p v (omega (arith, q)) next i j in
                  (elem-between_ne x b (b + r) us vs i ∙ e, k.0 ∙ a, k.1);
            },
          )
