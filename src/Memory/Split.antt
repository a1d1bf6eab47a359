-- ===== src/Memory/Split.antt =====
-- Kernel/mm/mm_simple.c: `split_block` in a heap.
use so_tp.Base.{
  ℕ, ◌+◌, ◌-◌, ◌%◌, ◌≡◌, ◌≢◌, ◌<◌, ◌≤◌, refl, sym, ◌∙◌, subst, List, [], ◌∷◌, ◌++◌, arith, All,
  All-map, elem, NotIn, eq-cases, inl, inr, update_self, update_ne, ◌==◌, eq→==, ne→==, true, false,
  elem-ne, NotIn-append, elem-between_ne, elem-append_self, elem-append_next, All-between, All-elem,
}
use so_tp.Queue.Chain.{last_or}
use so_tp.Memory.{
  Heap, block_size, block_is_allocated, block_mark_free, set_size, link_second, shrink,
  clear_free_links, set_free_links, split_block, free_list_insert,
}
use so_tp.Memory.Tiles.{Tiles, Tiles-Below, Tiles-split, Tiles-join, Tiles-above}
use so_tp.Memory.Cut.{CutAt, Tiles-CutAt, cut_ahead}
use so_tp.Memory.Ring.{Ring, Ring-Agree}
use so_tp.Memory.WellFormed.{Loose, Loose-Below}
use so_tp.Memory.FreeList.{Loose-free_list_insert}
use so_tp.Memory.Flags.{is_allocated-mark_free}

-- An address inside a block is no block.
pub inside-NotIn :
    (prev next size : ℕ → ℕ) (us : List ℕ) (b : ℕ) (vs : List ℕ) (stop m : ℕ)
    → Tiles prev next size 0 (us ++ b ∷ vs) 0 stop
    → b < m
    → m < b + size b
    → NotIn m (us ++ b ∷ vs)
inside-NotIn prev next size us b vs stop m t p q =
    let r = Tiles-split prev next size 0 us b vs 0 stop t in
    NotIn-append m us (b ∷ vs)
      (All-map (λ x k. omega (arith, k.0, p)) us (Tiles-Below prev next size 0 us b b r.0))
      (
        omega (arith, p),
        All-map (λ x k. omega (arith, k, q)) vs
            (Tiles-above prev next size b vs 0 stop (b + size b) r.1.5 (omega (arith, r.1.2))).0,
      )

-- What the other fields are behind the cut.
pub record Beside (h h' : Heap) (b m : ℕ) : Type 0 where
  pub same_sentinel : h'.sentinel ≡ h.sentinel
  pub same_prev : (x : ℕ) → x ≢ m → h'.prev_free x ≡ h.prev_free x
  pub same_next : (x : ℕ) → x ≢ m → h'.next_free x ≡ h.next_free x
  pub same_flag : (x : ℕ) → x ≢ m → x ≢ b → block_is_allocated h' x ≡ block_is_allocated h x

abbrev pub Cut : Heap → Heap → ℕ → ℕ → ℕ → Type 0
Cut h h' = CutAt h.prev_phys h.next_phys (block_size h) h'.prev_phys h'.next_phys (block_size h')

pub Loose-Cut :
    (h h' : Heap) (us vs fs : List ℕ) (stop b m r : ℕ)
    → Loose h (us ++ b ∷ vs) fs stop b 0
    → Cut h h' b m r
    → Beside h h' b m
    → b + r ≡ m
    → 56 ≤ r
    → r + 56 ≤ block_size h b
    → Loose h' (us ++ b ∷ m ∷ vs) fs stop b m
Loose-Cut h h' us vs fs stop b m r w c k e p q =
    let bs : List ℕ = us ++ b ∷ vs in
    let t = Tiles-split h.prev_phys h.next_phys (block_size h) 0 us b vs 0 stop w.tiles in
    let new : NotIn m bs =
      inside-NotIn h.prev_phys h.next_phys (block_size h) us b vs stop m w.tiles
        (omega (arith, e, p)) (omega (arith, e, q)) in
    let fresh : NotIn m fs =
      All-map {P = λ x. elem x bs ≡ true} (λ x i. λ j. elem-ne x m bs i new (sym j)) fs w.listed in
    let low = All-elem (λ x. h.sentinel < x) b bs w.apart (elem-append_self b us vs) in
    record {
      tiles =
          Tiles-join h'.prev_phys h'.next_phys (block_size h') 0 us b (m ∷ vs) 0 stop
            (cut_ahead 0 b m r us vs stop c (omega (arith, e)) t.1 t.0)
            (Tiles-CutAt (last_or 0 us) b m r vs stop c e p q t.1);
      ring = ring' (omega (arith, low, e)) fresh;
      distinct = w.distinct;
      apart =
          subst (λ s. All (λ x. s < x) (us ++ b ∷ m ∷ vs)) (sym k.same_sentinel)
            (All-between (λ x. h.sentinel < x) b m us vs w.apart (omega (arith, low, e)));
      listed = listed' fs fresh w.listed;
      free = free' fs fresh w.out1 w.free;
      complete = λ x i j l f.
          w.complete x (sym (elem-between_ne x b m us vs l) ∙ i) j
            (nonzero x (sym (elem-between_ne x b m us vs l) ∙ i)) (sym (k.same_flag x l j) ∙ f);
      out1 = w.out1;
      out2 = fresh;
      bounded = w.bounded;
    }
  where
    nonzero : (x : ℕ) → elem x (us ++ b ∷ vs) ≡ true → x ≢ 0
    nonzero x i = (Loose-Below h (us ++ b ∷ vs) fs stop b 0 w x i).2

    ring' : h.sentinel ≢ m → NotIn m fs → Ring h'.prev_free h'.next_free h'.sentinel fs h'.sentinel
    ring' n f =
        subst (λ s. Ring h'.prev_free h'.next_free s fs s) (sym k.same_sentinel)
          (Ring-Agree h.prev_free h.next_free h'.prev_free h'.next_free h.sentinel fs h.sentinel
            (k.same_next h.sentinel n, All-map k.same_next fs f) (All-map k.same_prev fs f)
            (k.same_prev h.sentinel n) w.ring)

    listed' :
        (xs : List ℕ)
        → NotIn m xs
        → All (λ x. elem x (us ++ b ∷ vs) ≡ true) xs
        → All (λ x. elem x (us ++ b ∷ m ∷ vs) ≡ true) xs
    listed' [] n a = tt
    listed' (x ∷ xs) n a = ((elem-between_ne x b m us vs n.0 ∙ a.0), listed' xs n.1 a.1)

    free' :
        (xs : List ℕ)
        → NotIn m xs
        → NotIn b xs
        → All (λ x. block_is_allocated h x ≡ false) xs
        → All (λ x. block_is_allocated h' x ≡ false) xs
    free' [] n i a = tt
    free' (x ∷ xs) n i a = ((k.same_flag x n.0 i.0 ∙ a.0), free' xs n.1 i.1 a.1)

-- `split_block` up to the insertion.
abbrev cut_block : Heap → ℕ → ℕ → Heap
cut_block h b r =
    clear_free_links
      (block_mark_free (shrink (link_second h b (b + r) (block_size h b - r)) b r) (b + r)) (b + r)

module _ (h : Heap) (b r : ℕ) where
  pub cut_block-Beside : 56 ≤ r → Beside h (cut_block h b r) b (b + r)
  unfolding clear_free_links set_free_links block_mark_free shrink link_second block_is_allocated
      set_size
  cut_block-Beside p = record {
    same_sentinel = refl;
    same_prev = λ x n. update_ne h.prev_free (b + r) x 0 (λ e. n (sym e));
    same_next = λ x n. update_ne h.next_free (b + r) x 0 (λ e. n (sym e));
    same_flag = λ x n i. rw (ne→== (b + r) x (λ e. n (sym e)), ne→== b x (λ e. i (sym e)));
  }

  pub cut_block-Cut :
      56 ≤ r
      → r % 2 ≡ 0
      → r ≤ block_size h b
      → h.next_phys b ≢ b + r
      → Cut h (cut_block h b r) b (b + r) r
  unfolding clear_free_links set_free_links block_mark_free shrink link_second set_size block_size
  cut_block-Cut p v q n =
      let i : b ≢ b + r = omega (arith, p) in
      let i' : b + r ≢ b = omega (arith, p) in
      let same : (b + r == b + r) ≡ true = eq→== (b + r) (b + r) refl in
      let self : (b == b) ≡ true = eq→== b b refl in
      record {
        prev_new = elim (eq-cases (h.next_phys b) 0) [
          | inl z ↦ rw (same, z) (update_self h.prev_phys (b + r) b)
          | inr z ↦
              rw (same, ne→== (h.next_phys b) 0 z, ne→== (h.next_phys b) (b + r) n)
                (update_self h.prev_phys (b + r) b)
        ];
        prev_next =
            λ z. rw (same, ne→== (h.next_phys b) 0 z, eq→== (h.next_phys b) (h.next_phys b) refl);
        prev_kept = λ x j l. elim (eq-cases (h.next_phys b) 0) [
          | inl z ↦ rw (same, z) (update_ne h.prev_phys (b + r) x b (λ e. j (sym e)))
          | inr z ↦
              rw (same, ne→== (h.next_phys b) 0 z, ne→== (h.next_phys b) x (λ e. l (sym e)))
                (update_ne h.prev_phys (b + r) x b (λ e. j (sym e)))
        ];
        next_block = rw self;
        next_new = rw (ne→== b (b + r) i, same);
        next_kept = λ x j l. rw (ne→== b x (λ e. l (sym e)), ne→== (b + r) x (λ e. j (sym e)));
        size_block = rw (ne→== (b + r) b i', self) (omega (arith, v));
        size_new = rw (same, ne→== b (b + r) i) (omega (arith, v));
        size_kept = λ x j l. rw (ne→== (b + r) x (λ e. j (sym e)), ne→== b x (λ e. l (sym e)));
      }

  cut_block-free : block_is_allocated (cut_block h b r) (b + r) ≡ false
  unfolding clear_free_links set_free_links block_is_allocated
  cut_block-free =
      is_allocated-mark_free (shrink (link_second h b (b + r) (block_size h b - r)) b r) (b + r)

  split_block_lem : split_block h b r ≡ free_list_insert (cut_block h b r) (b + r)
  unfolding split_block
  split_block_lem = refl

  block_size-insert : (g : Heap) (m x : ℕ) → block_size (free_list_insert g m) x ≡ block_size g x
  unfolding block_size free_list_insert set_free_links
  block_size-insert g m x = refl

  flag-insert :
      (g : Heap) (m x : ℕ) → block_is_allocated (free_list_insert g m) x ≡ block_is_allocated g x
  unfolding block_is_allocated free_list_insert set_free_links
  flag-insert g m x = refl

  pub next-ne_inside :
      (before : ℕ) (vs : List ℕ) (stop : ℕ)
      → Tiles h.prev_phys h.next_phys (block_size h) before (b ∷ vs) 0 stop
      → 56 ≤ r
      → r < block_size h b
      → h.next_phys b ≢ b + r
  next-ne_inside before [] stop t p q = omega (arith, t.1, p)
  next-ne_inside before (v ∷ vs) stop t p q = omega (arith, t.1, t.2, q)

  -- The block is cut in two, and the second part is free.
  pub Loose-split_block :
      (us vs fs : List ℕ) (stop : ℕ)
      → Loose h (us ++ b ∷ vs) fs stop b 0
      → 56 ≤ r
      → r % 2 ≡ 0
      → r + 56 ≤ block_size h b
      → Loose (split_block h b r) (us ++ b ∷ (b + r) ∷ vs) ((b + r) ∷ fs) stop b 0
  Loose-split_block us vs fs stop w p v q =
      let t = Tiles-split h.prev_phys h.next_phys (block_size h) 0 us b vs 0 stop w.tiles in
      let next = next-ne_inside (last_or 0 us) vs stop t.1 p (omega (arith, q)) in
      rw split_block_lem (
        Loose-free_list_insert (cut_block h b r) (us ++ b ∷ (b + r) ∷ vs) fs stop b (b + r)
          (Loose-Cut h (cut_block h b r) us vs fs stop b (b + r) r w
            (cut_block-Cut p v (omega (arith, q)) next) (cut_block-Beside p) refl p q)
          (elem-append_next b (b + r) us vs) cut_block-free (omega (arith, p)))

  pub block_size-split_block :
      56 ≤ r
      → r % 2 ≡ 0
      → r ≤ block_size h b
      → h.next_phys b ≢ b + r
      → block_size (split_block h b r) b ≡ r
  block_size-split_block p v q n =
      rw split_block_lem
        (block_size-insert (cut_block h b r) (b + r) b ∙ (cut_block-Cut p v q n).size_block)

  -- The other blocks stay as they are.
  pub split_block-kept :
      (x : ℕ)
      → 56 ≤ r
      → r % 2 ≡ 0
      → r ≤ block_size h b
      → h.next_phys b ≢ b + r
      → x ≢ b + r
      → x ≢ b
      → (block_is_allocated (split_block h b r) x ≡ block_is_allocated h x)
        × (block_size (split_block h b r) x ≡ block_size h x)
  split_block-kept x p v q n i j = rw split_block_lem (
    flag-insert (cut_block h b r) (b + r) x ∙ (cut_block-Beside p).same_flag x i j,
    block_size-insert (cut_block h b r) (b + r) x ∙ (cut_block-Cut p v q n).size_kept x i j,
  )
