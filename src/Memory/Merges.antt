-- ===== src/Memory/Merges.antt =====
-- Kernel/mm/mm_simple.c: `coalesce_with_neighbors` takes in both neighbours.
use so_tp.Base.{
  ℕ, ◌+◌, ◌*◌, ◌/◌, ◌%◌, ◌≡◌, ◌≢◌, ◌<◌, refl, sym, ◌∙◌, ap, subst, List, ◌∷◌, arith, elem, inl, inr,
  true, false, ◌==◌, Bool-cases, if_true, update_ne, ne→==,
}
use so_tp.Memory.{
  Heap, block_size, block_is_allocated, absorb, free_list_remove, is_free_block, merge_prev,
  merge_next, coalesce_with_neighbors,
}
use so_tp.Memory.Tiles.{Tiles, Tiles-before, Tiles-behind, Pair, Tiles-split}
use so_tp.Memory.WellFormed.{Loose}
use so_tp.Memory.Join.{absorb-JoinAt}
use so_tp.Memory.Merge.{links_only, merge_prev-InHand}

-- `p` is a block, and is not allocated.
abbrev pub IsFreeBlock : Heap → ℕ → Type 0
IsFreeBlock h p = (p ≢ 0) × (block_is_allocated h p ≡ false)

-- The block `m` of `h'` holds what the neighbours of `b` in `h` held, where they were free.
abbrev pub Merges : Heap → Heap → ℕ → ℕ → Type 0
Merges h h' b m =
    (IsFreeBlock h (h.prev_phys b) → m ≡ h.prev_phys b)
    × (IsFreeBlock h (h.next_phys b)
        → m + block_size h' m ≡ h.next_phys b + block_size h (h.next_phys b))

is_free_block-IsFreeBlock : (h : Heap) (p : ℕ) → IsFreeBlock h p → is_free_block h p ≡ true
unfolding is_free_block
is_free_block-IsFreeBlock h p f = rw (ne→== p 0 f.0, f.1) refl

-- A block ends where the next one starts.
Pair-end :
    (h : Heap) (bs : List ℕ) (stop x y : ℕ)
    → Tiles h.prev_phys h.next_phys (block_size h) 0 bs 0 stop
    → Pair x y bs
    → (x + block_size h x ≡ y) × (x < y)
Pair-end h bs stop x y t (us, vs, e) =
    let s =
      (Tiles-split h.prev_phys h.next_phys (block_size h) 0 us x (y ∷ vs) 0 stop
        (subst (λ ys. Tiles h.prev_phys h.next_phys (block_size h) 0 ys 0 stop) e t)).1 in
    (s.2, omega (arith, s.2, s.3))

absorb-other :
    (h : Heap) (l m x : ℕ)
    → x ≢ l
    → (block_is_allocated (absorb h l m) x ≡ block_is_allocated h x)
      × (block_size (absorb h l m) x ≡ block_size h x)
unfolding absorb block_is_allocated block_size
absorb-other h l m x n =
    let u =
      update_ne h.size_and_flags l x (h.size_and_flags l / 2 * 2 + h.size_and_flags m / 2 * 2)
        (λ e. n (sym e)) in
    (ap (λ v. v % 2 == 1) u, ap (λ v. v / 2 * 2) u)

merged_before :
    (h : Heap) (b : ℕ) → IsFreeBlock h (h.prev_phys b) → (merge_prev h b).1 ≡ h.prev_phys b
unfolding merge_prev
merged_before h b f =
    ap (λ (z : Heap × ℕ). z.1)
      (if_true (is_free_block h (h.prev_phys b)) _ _
        (is_free_block-IsFreeBlock h (h.prev_phys b) f))

-- The first merge writes the header of the block before at most.
behind_kept :
    (h : Heap) (b n : ℕ)
    → n ≢ h.prev_phys b
    → (block_is_allocated (merge_prev h b).0 n ≡ block_is_allocated h n)
      × (block_size (merge_prev h b).0 n ≡ block_size h n)
unfolding merge_prev
behind_kept h b n k =
    let p : ℕ = h.prev_phys b in
    elim (Bool-cases (is_free_block h p)) [
      | inl y ↦
          let o = absorb-other (free_list_remove h p) p b n k in
          let l = links_only h p b p n in rw y ((o.0 ∙ l.0), (o.1 ∙ l.1))
      | inr y ↦ rw y (refl, refl)
    ]

module _ (h : Heap) (b : ℕ) (bs fs : List ℕ) (stop : ℕ) (w : Loose h bs fs stop b 0) where
  behind-ne : (n : ℕ) → h.next_phys b ≡ n → elem b bs ≡ true → n ≢ 0 → n ≢ h.prev_phys b
  behind-ne n q e z =
      elim (Tiles-behind h.prev_phys h.next_phys (block_size h) 0 bs 0 stop b w.tiles e) [
        | inl y ↦ absurd (z (sym q ∙ y))
        | inr k ↦
            let c = Pair-end h bs stop b (h.next_phys b) w.tiles k in
            elim (Tiles-before h.prev_phys h.next_phys (block_size h) 0 bs 0 stop b w.tiles e) [
              | inl y ↦ (λ i. z (i ∙ y.0))
              | inr l ↦
                  let d = Pair-end h bs stop (h.prev_phys b) b w.tiles l in
                  omega (arith, c.1, d.1, q)
            ]
      ]

  -- The second merge takes in the block behind.
  merged_behind :
      (n : ℕ)
      → h.next_phys b ≡ n
      → elem b bs ≡ true
      → IsFreeBlock h n
      → b + block_size (merge_next h b n) b ≡ n + block_size h n
  unfolding merge_next
  merged_behind n q e f =
      elim (Tiles-behind h.prev_phys h.next_phys (block_size h) 0 bs 0 stop b w.tiles e) [
        | inl y ↦ absurd (f.0 (sym q ∙ y))
        | inr k ↦
            let c = Pair-end h bs stop b (h.next_phys b) w.tiles k in
            rw (is_free_block-IsFreeBlock h n f) (
              omega (
                arith,
                c.0,
                q,
                (absorb-JoinAt (free_list_remove h n) b n).size_block,
                (links_only h b n n b).1,
                (links_only h b n n n).1,
              ))
      ]

pub coalesce-Merges :
    (h : Heap) (b : ℕ) (bs fs : List ℕ) (stop : ℕ)
    → Loose h bs fs stop b 0
    → elem b bs ≡ true
    → block_is_allocated h b ≡ false
    → Merges h (coalesce_with_neighbors h b).0 b (coalesce_with_neighbors h b).1
unfolding coalesce_with_neighbors
coalesce-Merges h b bs fs stop w e f =
    let g : Heap = (merge_prev h b).0 in
    let a : ℕ = (merge_prev h b).1 in
    let n : ℕ = h.next_phys b in
    let m = merge_prev-InHand h b bs fs stop w e f in
    let i = m.0.2 in
    (
      merged_before h b,
      λ y.
          let k = behind_kept h b n (behind-ne h b bs fs stop w n refl e y.0) in
          merged_behind g a m.0.0 m.0.1 stop i.loose n m.1 i.member (y.0, k.0 ∙ y.1)
          ∙ ap (λ v. n + v) k.1,
    )
