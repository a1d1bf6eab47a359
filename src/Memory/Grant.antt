-- ===== src/Memory/Grant.antt =====
-- Kernel/mm/mm_simple.c: `mm_alloc`, from the block that is found to the result.
use so_tp.Base.{
  ℕ, ◌+◌, ◌-◌, ◌%◌, ◌≡◌, ◌≤◌, refl, sym, ◌∙◌, ap, subst, List, arith, All-elem, elem, erase,
  eq-cases, inl, inr, true, false, SplitAt-elem,
}
use so_tp.Memory.{
  Heap, block_size, block_is_allocated, free_list_remove, clear_free_links, set_free_links,
  split_block_if_possible, block_mark_allocated, take_block, count_allocation, header_size,
}
use so_tp.Memory.WellFormed.{Loose, WellFormed, Loose-block, Loose-swap}
use so_tp.Memory.FreeList.{Loose-free_list_remove}
use so_tp.Memory.Flags.{
  WellFormed-mark_allocated, block_size-mark_allocated, is_allocated-mark_allocated,
  is_allocated-set_size,
}
use so_tp.Memory.Alloc.{ClearedSome, clear_block}

-- What an allocation of the block `p`, of at least `r` bytes, does to the heap. The blocks that were
-- allocated before keep their sizes and stay allocated.
pub record Granted (h h' : Heap) (bs fs bs' fs' : List ℕ) (stop p r : ℕ) : Type 0 where
  pub well_formed : WellFormed h' bs' fs' stop
  pub block : elem p bs' ≡ true
  pub was_free : elem p fs ≡ true
  pub taken : block_is_allocated h' p ≡ true
  pub large : r ≤ block_size h' p
  pub others :
      (x : ℕ)
      → elem x bs ≡ true
      → block_is_allocated h x ≡ true
      → (elem x bs' ≡ true) × (block_is_allocated h' x ≡ true) × (block_size h' x ≡ block_size h x)

abbrev pub GrantedSome : Heap → Heap → List ℕ → List ℕ → ℕ → ℕ → ℕ → Type 0
GrantedSome h h' bs fs stop p r =
    (bs' : List ℕ) × (fs' : List ℕ) × Granted h h' bs fs bs' fs' stop p r

pub WellFormed-count_allocation :
    (h : Heap) (bs fs : List ℕ) (stop n : ℕ)
    → WellFormed h bs fs stop
    → WellFormed (count_allocation h n) bs fs stop
unfolding count_allocation block_size block_is_allocated
WellFormed-count_allocation h bs fs stop n w = record {
  tiles = w.tiles;
  ring = w.ring;
  distinct = w.distinct;
  apart = w.apart;
  listed = w.listed;
  free = w.free;
  complete = w.complete;
  out1 = w.out1;
  out2 = w.out2;
  bounded = w.bounded;
}

module _ (h : Heap) (b r : ℕ) where
  remove-kept :
      (x : ℕ)
      → (block_is_allocated (free_list_remove h b) x ≡ block_is_allocated h x)
        × (block_size (free_list_remove h b) x ≡ block_size h x)
  unfolding free_list_remove clear_free_links set_free_links block_size block_is_allocated
  remove-kept x = (refl, refl)

  clear_found :
      (bs fs : List ℕ) (stop : ℕ)
      → WellFormed h bs fs stop
      → elem b fs ≡ true
      → 56 ≤ r
      → r % 2 ≡ 0
      → r ≤ block_size h b
      → ClearedSome
          (free_list_remove h b)
          (split_block_if_possible (free_list_remove h b) b r)
          bs
          stop
          b
          r
  clear_found bs fs stop w e p v q =
      let s = SplitAt-elem b bs (Loose-block h bs fs stop 0 0 w b e) in
      let g : Heap = free_list_remove h b in
      let l : Loose g bs (erase b fs) stop b 0 =
        Loose-swap g bs (erase b fs) stop 0 b (Loose-free_list_remove h bs fs stop 0 b w e) in
      subst (λ ys. ClearedSome g (split_block_if_possible g b r) ys stop b r) (sym s.2)
        (clear_block g b r s.0 s.1 (erase b fs) stop
          (subst (λ ys. Loose g ys (erase b fs) stop b 0) s.2 l)
          ((remove-kept b).0 ∙ All-elem (λ x. block_is_allocated h x ≡ false) b fs w.free e) p v
          (omega (arith, (remove-kept b).1, q)))

  counted-kept :
      (g : Heap) (n x : ℕ)
      → (block_is_allocated (count_allocation g n) x ≡ block_is_allocated g x)
        × (block_size (count_allocation g n) x ≡ block_size g x)
  unfolding count_allocation block_size block_is_allocated
  counted-kept g n x = (refl, refl)

  marked-kept :
      (g : Heap) (x : ℕ)
      → block_is_allocated g x ≡ true
      → block_is_allocated (block_mark_allocated g b) x ≡ true
  unfolding block_mark_allocated
  marked-kept g x a = elim (eq-cases x b) [
    | inl same ↦
        ap (block_is_allocated (block_mark_allocated g b)) same ∙ is_allocated-mark_allocated g b
    | inr other ↦ is_allocated-set_size g b (block_size g b + 1) x other ∙ a
  ]

  take_block_lem :
      (g : Heap)
      → block_mark_allocated (split_block_if_possible (free_list_remove h b) b r) b ≡ g
      → take_block h b r ≡ (count_allocation g (block_size g b - header_size), b + header_size)
  unfolding take_block
  take_block_lem g e = rw e

  pub take_block-Granted :
      (bs fs : List ℕ) (stop : ℕ)
      → WellFormed h bs fs stop
      → elem b fs ≡ true
      → 56 ≤ r
      → r % 2 ≡ 0
      → r ≤ block_size h b
      → GrantedSome h (take_block h b r).0 bs fs stop b r
  take_block-Granted bs fs stop w e p v q =
      let c = clear_found bs fs stop w e p v q in
      let g : Heap = split_block_if_possible (free_list_remove h b) b r in
      let m : Heap = block_mark_allocated g b in
      let n : ℕ = block_size m b - header_size in
      subst (λ z. GrantedSome h z bs fs stop b r) (ap (λ z. z.0) (sym (take_block_lem m refl)))
        (
          c.0,
          c.1,
          record {
            well_formed =
                WellFormed-count_allocation m c.0 c.1 stop n
                  (WellFormed-mark_allocated g c.0 c.1 stop b c.2.loose);
            block = c.2.member;
            was_free = e;
            taken = (counted-kept m n b).0 ∙ is_allocated-mark_allocated g b;
            large =
                omega (arith, (counted-kept m n b).1, block_size-mark_allocated g b b, c.2.enough);
            others = λ x i a.
                let k = c.2.kept x i ((remove-kept x).0 ∙ a) in
                (
                  k.0,
                  (counted-kept m n x).0 ∙ marked-kept g x k.1,
                  (counted-kept m n x).1
                      ∙ block_size-mark_allocated g b x
                      ∙ k.2
                      ∙ (remove-kept x).1,
                );
          },
        )
