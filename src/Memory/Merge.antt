-- ===== src/Memory/Merge.antt =====
-- Kernel/mm/mm_simple.c: `coalesce_with_neighbors` in a heap.
use so_tp.Base.{
  ℕ, ◌+◌, ◌≡◌, ◌≢◌, ◌≤◌, refl, sym, ◌∙◌, ap, subst, List, ◌∷◌, ◌++◌, arith, elem, erase, inl, inr,
  true, false, Bool-cases, elem-append_self, elem-append_next, ne_false_of_true, if_true, if_false,
  update_self,
}
use so_tp.Memory.{
  Heap, block_size, block_is_allocated, absorb, free_list_remove, is_free_block, merge_prev,
  merge_next, coalesce_with_neighbors, clear_free_links, set_free_links,
}
use so_tp.Memory.Tiles.{Tiles, Tiles-before, Tiles-behind, Pair, Tiles-split}
use so_tp.Memory.WellFormed.{Loose, Loose-Below, Loose-swap}
use so_tp.Memory.FreeList.{Loose-free_list_remove}
use so_tp.Memory.Join.{Loose-absorb, absorb-kept, absorb-free, absorb-JoinAt}

-- The blocks that are allocated keep their sizes and stay allocated.
abbrev pub Kept : Heap → Heap → List ℕ → List ℕ → Type 0
Kept h h' bs bs' =
    (x : ℕ)
    → elem x bs ≡ true
    → block_is_allocated h x ≡ true
    → (elem x bs' ≡ true) × (block_is_allocated h' x ≡ true) × (block_size h' x ≡ block_size h x)

pub Kept-trans :
    (h g k : Heap) (xs ys zs : List ℕ) → Kept h g xs ys → Kept g k ys zs → Kept h k xs zs
Kept-trans h g k xs ys zs p q x e a =
    let i = p x e a in let j = q x i.0 i.1 in (j.0, j.1, j.2 ∙ i.2)

-- A heap in which the free block `b` is in hand, with all the bytes that the block `o` had.
pub record InHand (h h' : Heap) (bs bs' fs' : List ℕ) (stop o b : ℕ) : Type 0 where
  pub loose : Loose h' bs' fs' stop b 0
  pub member : elem b bs' ≡ true
  pub unused : block_is_allocated h' b ≡ false
  pub start : b ≤ o
  pub reach : o + block_size h o ≤ b + block_size h' b
  pub kept : Kept h h' bs bs'

abbrev pub InHandSome : Heap → Heap → List ℕ → ℕ → ℕ → ℕ → Type 0
InHandSome h h' bs stop o b = (bs' : List ℕ) × (fs' : List ℕ) × InHand h h' bs bs' fs' stop o b

module _ (h : Heap) (l m : ℕ) where
  pub links_only :
      (y x : ℕ)
      → (block_is_allocated (free_list_remove h y) x ≡ block_is_allocated h x)
        × (block_size (free_list_remove h y) x ≡ block_size h x)
  unfolding free_list_remove clear_free_links set_free_links block_size block_is_allocated
  links_only y x = (refl, refl)

  merged-Kept :
      (y : ℕ) (us vs : List ℕ)
      → block_is_allocated h l ≡ false
      → block_is_allocated h m ≡ false
      → Kept h (absorb (free_list_remove h y) l m) (us ++ l ∷ m ∷ vs) (us ++ l ∷ vs)
  merged-Kept y us vs p q x e a =
      let i : x ≢ l =
        λ z. ne_false_of_true (block_is_allocated h x) a (ap (block_is_allocated h) z ∙ p) in
      let n : x ≢ m =
        λ z. ne_false_of_true (block_is_allocated h x) a (ap (block_is_allocated h) z ∙ q) in
      let k = absorb-kept (free_list_remove h y) l m us vs x e i n in
      let o = links_only y x in (k.0, (k.1 ∙ o.0 ∙ a), (k.2 ∙ o.1))

  -- The neighbour `y` leaves the free list, and the first of the two blocks takes in the second.
  merge_pair :
      (o e y : ℕ) (us vs fs : List ℕ) (stop : ℕ)
      → Loose h (us ++ l ∷ m ∷ vs) fs stop e 0
      → elem y fs ≡ true
      → ((Loose (free_list_remove h y) (us ++ l ∷ m ∷ vs) (erase y fs) stop e y)
          → Loose (free_list_remove h y) (us ++ l ∷ m ∷ vs) (erase y fs) stop l m)
      → block_is_allocated h l ≡ false
      → block_is_allocated h m ≡ false
      → l ≤ o
      → o + block_size h o ≤ l + (block_size h l + block_size h m)
      → InHandSome h (absorb (free_list_remove h y) l m) (us ++ l ∷ m ∷ vs) stop o l
  merge_pair o e y us vs fs stop w i f p q d n = (
    us ++ l ∷ vs,
    erase y fs,
    record {
      loose =
          Loose-absorb (free_list_remove h y) l m us vs (erase y fs) stop
            (f (Loose-free_list_remove h (us ++ l ∷ m ∷ vs) fs stop e y w i));
      member = elem-append_self l us vs;
      unused = absorb-free (free_list_remove h y) l m;
      start = d;
      reach = omega (
        arith,
        n,
        (absorb-JoinAt (free_list_remove h y) l m).size_block,
        (links_only y l).1,
        (links_only y m).1,
      );
      kept = merged-Kept y us vs p q;
    },
  )

module _ (h : Heap) (b : ℕ) where
  -- The block before takes in the one in hand.
  merge_before :
      (p : ℕ) (us vs fs : List ℕ) (stop : ℕ)
      → Loose h (us ++ p ∷ b ∷ vs) fs stop b 0
      → block_is_allocated h b ≡ false
      → block_is_allocated h p ≡ false
      → elem p fs ≡ true
      → InHandSome h (absorb (free_list_remove h p) p b) (us ++ p ∷ b ∷ vs) stop b p
  merge_before p us vs fs stop w f g i =
      let t =
        (Tiles-split h.prev_phys h.next_phys (block_size h) 0 us p (b ∷ vs) 0 stop w.tiles).1 in
      merge_pair h p b b b p us vs fs stop w i
        (λ k. Loose-swap (free_list_remove h p) (us ++ p ∷ b ∷ vs) (erase p fs) stop b p k) g f
        (omega (arith, t.2)) (omega (arith, t.2))

  -- The block in hand takes in the one behind.
  merge_behind :
      (n : ℕ) (us vs fs : List ℕ) (stop : ℕ)
      → Loose h (us ++ b ∷ n ∷ vs) fs stop b 0
      → block_is_allocated h b ≡ false
      → block_is_allocated h n ≡ false
      → elem n fs ≡ true
      → InHandSome h (absorb (free_list_remove h n) b n) (us ++ b ∷ n ∷ vs) stop b b
  merge_behind n us vs fs stop w f g i =
      merge_pair h b n b b n us vs fs stop w i (λ k. k) f g (omega arith) (omega arith)

abbrev pub Next : Heap → ℕ → Heap × ℕ → Type 0
Next h b z = z.0.next_phys z.1 ≡ h.next_phys b

free_block-cases :
    (h : Heap) (p : ℕ) → is_free_block h p ≡ true → (p ≢ 0) × (block_is_allocated h p ≡ false)
unfolding is_free_block
free_block-cases h p e = ground (arith, e)

pair-ne :
    (prev next size : ℕ → ℕ) (us : List ℕ) (x y : ℕ) (vs : List ℕ) (stop : ℕ)
    → Tiles prev next size 0 (us ++ x ∷ y ∷ vs) 0 stop
    → x ≢ y
pair-ne prev next size us x y vs stop t =
    let s = Tiles-split prev next size 0 us x (y ∷ vs) 0 stop t in omega (arith, s.1.2, s.1.3)

absorb-next :
    (h : Heap) (y l m : ℕ) → (absorb (free_list_remove h y) l m).next_phys l ≡ h.next_phys m
unfolding absorb free_list_remove clear_free_links set_free_links
absorb-next h y l m = update_self h.next_phys l (h.next_phys m)

module _ (h : Heap) (b : ℕ) (bs fs : List ℕ) (stop : ℕ) (w : Loose h bs fs stop b 0) where
  -- A neighbour that is not allocated is in the free list.
  in_list : (x : ℕ) → elem x bs ≡ true → x ≢ b → block_is_allocated h x ≡ false → elem x fs ≡ true
  in_list x e n f = w.complete x e n (Loose-Below h bs fs stop b 0 w x e).2 f

  abbrev pub Merged : Heap × ℕ → Type 0
  Merged z = InHandSome h z.0 bs stop b z.1 × Next h b z

  Merged-prev :
      (p : ℕ)
      → Pair p b bs
      → block_is_allocated h b ≡ false
      → block_is_allocated h p ≡ false
      → Merged (absorb (free_list_remove h p) p b, p)
  Merged-prev p (us, vs, e) f g =
      let t = subst (λ ys. Tiles h.prev_phys h.next_phys (block_size h) 0 ys 0 stop) e w.tiles in
      let i : elem p bs ≡ true = ap (elem p) e ∙ elem-append_self p us (b ∷ vs) in
      let n = pair-ne h.prev_phys h.next_phys (block_size h) us p b vs stop t in
      (
        subst (λ ys. InHandSome h (absorb (free_list_remove h p) p b) ys stop b p) (sym e)
            (merge_before h b p us vs fs stop (subst (λ ys. Loose h ys fs stop b 0) e w) f g
              (in_list p i n g)),
        absorb-next h p p b,
      )

  Merged-next :
      (n : ℕ)
      → Pair b n bs
      → block_is_allocated h b ≡ false
      → block_is_allocated h n ≡ false
      → InHandSome h (absorb (free_list_remove h n) b n) bs stop b b
  Merged-next n (us, vs, e) f g =
      let t = subst (λ ys. Tiles h.prev_phys h.next_phys (block_size h) 0 ys 0 stop) e w.tiles in
      let i : elem n bs ≡ true = ap (elem n) e ∙ elem-append_next b n us vs in
      let k = pair-ne h.prev_phys h.next_phys (block_size h) us b n vs stop t in
      subst (λ ys. InHandSome h (absorb (free_list_remove h n) b n) ys stop b b) (sym e)
        (merge_behind h b n us vs fs stop (subst (λ ys. Loose h ys fs stop b 0) e w) f g
          (in_list n i (λ z. k (sym z)) g))

  untouched : elem b bs ≡ true → block_is_allocated h b ≡ false → InHandSome h h bs stop b b
  untouched e f = (
    bs,
    fs,
    record {
      loose = w;
      member = e;
      unused = f;
      start = omega arith;
      reach = omega arith;
      kept = λ x i a. (i, a, refl);
    },
  )

  pub merge_prev-InHand :
      elem b bs ≡ true → block_is_allocated h b ≡ false → Merged (merge_prev h b)
  unfolding merge_prev
  merge_prev-InHand e f = elim (Bool-cases (is_free_block h (h.prev_phys b))) [
    | inl y ↦
        let c = free_block-cases h (h.prev_phys b) y in
        subst Merged (sym (if_true (is_free_block h (h.prev_phys b)) _ _ y))
          (elim (Tiles-before h.prev_phys h.next_phys (block_size h) 0 bs 0 stop b w.tiles e) [
            | inl z ↦ absurd (c.0 z.0)
            | inr p ↦ Merged-prev (h.prev_phys b) p f c.1
          ])
    | inr n ↦
        subst Merged (sym (if_false (is_free_block h (h.prev_phys b)) _ _ n)) (untouched e f, refl)
  ]

  merge_next-InHand :
      (n : ℕ)
      → h.next_phys b ≡ n
      → elem b bs ≡ true
      → block_is_allocated h b ≡ false
      → InHandSome h (merge_next h b n) bs stop b b
  unfolding merge_next
  merge_next-InHand n q e f = elim (Bool-cases (is_free_block h n)) [
    | inl y ↦
        let c = free_block-cases h n y in
        subst (λ z. InHandSome h z bs stop b b) (sym (if_true (is_free_block h n) _ _ y))
          (elim (Tiles-behind h.prev_phys h.next_phys (block_size h) 0 bs 0 stop b w.tiles e) [
            | inl z ↦ absurd (c.0 (sym q ∙ z))
            | inr p ↦ Merged-next n (subst (λ y. Pair b y bs) q p) f c.1
          ])
    | inr k ↦
        subst (λ z. InHandSome h z bs stop b b) (sym (if_false (is_free_block h n) _ _ k))
          (untouched e f)
  ]

pub coalesce-InHand :
    (h : Heap) (b : ℕ) (bs fs : List ℕ) (stop : ℕ)
    → Loose h bs fs stop b 0
    → elem b bs ≡ true
    → block_is_allocated h b ≡ false
    → InHandSome h (coalesce_with_neighbors h b).0 bs stop b (coalesce_with_neighbors h b).1
unfolding coalesce_with_neighbors
coalesce-InHand h b bs fs stop w e f =
    let g : Heap = (merge_prev h b).0 in
    let a : ℕ = (merge_prev h b).1 in
    let m = merge_prev-InHand h b bs fs stop w e f in
    let i = m.0.2 in
    let n = merge_next-InHand g a m.0.0 m.0.1 stop i.loose (h.next_phys b) m.1 i.member i.unused in
    (
      n.0,
      n.1,
      record {
        loose = n.2.loose;
        member = n.2.member;
        unused = n.2.unused;
        start = i.start;
        reach = omega (arith, i.reach, n.2.reach);
        kept = Kept-trans h g (merge_next g a (h.next_phys b)) bs m.0.0 n.0 i.kept n.2.kept;
      },
    )
