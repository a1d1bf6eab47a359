-- ===== src/Memory/Allocation.antt =====
-- Kernel/mm/mm_simple.c: `mm_alloc` as its callers see it.
use so_tp.Base.{
  ℕ, ◌+◌, ◌*◌, ◌/◌, ◌%◌, ◌^◌, ◌≡◌, ◌≢◌, ◌⊎◌, ◌<◌, ◌≤◌, refl, sym, ◌∙◌, ap, subst, List, arith, All,
  All-elem, elem, inl, inr, ◌==◌, if◌then◌else◌, eq→==, ne→==, true, false, if_true, if_false,
  ne_false_of_true,
}
use so_tp.Memory.{
  Heap, block_size, block_is_allocated, take_block, header_size, find_first_fit, required_size_of,
  align_up, alloc_ready, fail, mm_alloc,
}
use so_tp.Memory.Tiles.{Tiles-Apart}
use so_tp.Memory.WellFormed.{WellFormed, Loose-Below, Loose-block}
use so_tp.Memory.Alloc.{find_first_fit-cases}
use so_tp.Memory.Grant.{GrantedSome, take_block-Granted}

required_size-lower : (size : ℕ) → 56 ≤ required_size_of size
unfolding required_size_of align_up
required_size-lower size = ground arith

required_size-even : (size : ℕ) → required_size_of size % 2 ≡ 0
unfolding required_size_of align_up
required_size-even size = ground arith

-- A request rounded up to the alignment, with its header.
abbrev pub with_header : ℕ → ℕ
with_header size = (size + 15) / 16 * 16 + 40

required_size-with_header :
    (size : ℕ) → size ≢ 0 → size + 56 ≤ 2 ^ 64 → required_size_of size ≡ with_header size
unfolding required_size_of align_up
required_size-with_header size n h = ground (arith, n, h)

fail-null : (h : Heap) → (fail h).1 ≡ 0
unfolding fail
fail-null h = refl

abbrev pub Refused : Heap → List ℕ → ℕ → Heap × ℕ → Type 0
Refused h fs size r = (r ≡ fail h) × All (λ x. block_size h x < with_header size) fs

abbrev pub Accepted : Heap → List ℕ → List ℕ → ℕ → ℕ → Heap × ℕ → Type 0
Accepted h bs fs stop size r =
    (b : ℕ) × (r.1 ≡ b + header_size) × GrantedSome h r.0 bs fs stop b (with_header size)

module _ (end_of_kernel : ℕ) (h : Heap) (bs fs : List ℕ) (stop size : ℕ) where
  alloc_ready_lem : h.initialized ≡ true → mm_alloc end_of_kernel h size ≡ alloc_ready h size
  unfolding mm_alloc
  alloc_ready_lem i = if_true h.initialized _ _ i

  abbrev found : ℕ
  found = find_first_fit h (required_size_of size)

  ready-sized :
      size ≢ 0
      → alloc_ready h size
        ≡ (if found == 0 then fail h else take_block h found (required_size_of size))
  unfolding alloc_ready
  ready-sized n = if_false (size == 0) _ _ (ne→== size 0 n)

  alloc_none : size ≢ 0 → h.initialized ≡ true → found ≡ 0 → mm_alloc end_of_kernel h size ≡ fail h
  alloc_none n i z = alloc_ready_lem i ∙ ready-sized n ∙ if_true (found == 0) _ _ (eq→== found 0 z)

  alloc_some :
      size ≢ 0
      → h.initialized ≡ true
      → found ≢ 0
      → mm_alloc end_of_kernel h size ≡ take_block h found (required_size_of size)
  alloc_some n i k = alloc_ready_lem i ∙ ready-sized n ∙ if_false (found == 0) _ _ (ne→== found 0 k)

  take_block-address : (b r : ℕ) → (take_block h b r).1 ≡ b + header_size
  unfolding take_block
  take_block-address b r = refl

  -- In a heap that is well formed, an allocation of a size from 1 to 2^64 - 56 is refused only when every
  -- free block is smaller than the size rounded up to 16 and the 40 bytes of a header, and then only the
  -- count of failures changes. Otherwise the result is behind the header of a block that was free, that is
  -- now allocated and is at least that large; the heap stays well formed, and each block that was
  -- allocated before keeps its size and stays allocated.
  pub mm_alloc-Outcome :
      WellFormed h bs fs stop
      → h.initialized ≡ true
      → size ≢ 0
      → size + 56 ≤ 2 ^ 64
      → Refused h fs size (mm_alloc end_of_kernel h size)
        ⊎ Accepted h bs fs stop size (mm_alloc end_of_kernel h size)
  mm_alloc-Outcome w i n k =
      let r : ℕ = required_size_of size in
      let q = required_size-with_header size n k in
      elim (find_first_fit-cases h r bs fs stop w) [
        | inl m ↦ inl (alloc_none n i m.0, subst (λ y. All (λ x. block_size h x < y) fs) q m.1)
        | inr f ↦
            let b : ℕ = find_first_fit h r in
            let e =
              alloc_some n i
                (Loose-Below h bs fs stop 0 0 w b (Loose-block h bs fs stop 0 0 w b f.0)).2 in
            inr (
              b,
              (ap (λ z. z.1) e ∙ take_block-address b r),
              subst (λ y. GrantedSome h (mm_alloc end_of_kernel h size).0 bs fs stop b y) q
                  (subst (λ z. GrantedSome h z.0 bs fs stop b r) (sym e)
                    (take_block-Granted h b r bs fs stop w f.0 (required_size-lower size)
                      (required_size-even size) f.1)),
            )
      ]

  -- The bytes that an allocation hands out lie in the heap, and in no block that was allocated
  -- before, when the size is at most 2^64 - 56 and the heap is well formed.
  pub mm_alloc-Apart :
      WellFormed h bs fs stop
      → h.initialized ≡ true
      → size ≢ 0
      → size + 56 ≤ 2 ^ 64
      → (mm_alloc end_of_kernel h size).1 ≢ 0
      → (x : ℕ) → elem x bs ≡ true
      → block_is_allocated h x ≡ true
      → ((mm_alloc end_of_kernel h size).1 + size ≤ stop)
        × ((x + block_size h x ≤ (mm_alloc end_of_kernel h size).1)
            ⊎ ((mm_alloc end_of_kernel h size).1 + size ≤ x))
  mm_alloc-Apart w i n k z x e a = elim (mm_alloc-Outcome w i n k) [
    | inl m ↦ absurd (z (ap (λ y. y.1) m.0 ∙ fail-null h))
    | inr t ↦
        let g = t.2.2 in
        let o = g.others x e a in
        let ne : x ≢ t.0 = λ y. ne_false_of_true (block_is_allocated h x) a (
          ap (block_is_allocated h) y
          ∙ All-elem (λ u. block_is_allocated h u ≡ false) t.0 fs w.free g.was_free) in
        let q =
          Loose-Below (mm_alloc end_of_kernel h size).0 t.2.0 t.2.1 stop 0 0 g.well_formed t.0
            g.block in
        (
          omega (arith, t.1, g.large, q.0),
          elim (Tiles-Apart (mm_alloc end_of_kernel h size).0.prev_phys
              (mm_alloc end_of_kernel h size).0.next_phys
              (block_size (mm_alloc end_of_kernel h size).0) 0 t.2.0 0 stop x t.0
              g.well_formed.tiles o.0 g.block ne) [
                | inl l ↦ inl (omega (arith, l, o.2, t.1))
                | inr l ↦ inr (omega (arith, l, t.1, g.large))
              ],
        )
  ]
