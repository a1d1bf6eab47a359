-- ===== src/Memory/Join.antt =====
-- Kernel/mm/mm_simple.c: a block that takes in the one behind it, and `absorb` in a heap.
use so_tp.Base.{
  ℕ, ◌+◌, ◌≡◌, ◌≢◌, ◌<◌, refl, sym, ◌∙◌, ap, List, [], ◌∷◌, ◌++◌, arith, All, All-map, elem, NotIn,
  first_or, eq-cases, inl, inr, update_self, update_ne, eq→==, ne→==, true, false, elem-ne,
  NotIn-append, elem-between_ne, All-without,
}
use so_tp.Memory.{Heap, block_size, block_is_allocated, absorb}
use so_tp.Memory.Tiles.{
  Tiles, Tiles-Below, Agree, Tiles-Agree, Tiles-split, Tiles-join, Tiles-above,
}
use so_tp.Memory.Ring.{Ring}
use so_tp.Memory.WellFormed.{Loose, Loose-Below}

-- What the writes by which `b` takes in the block `m` behind it make of the fields.
pub record JoinAt (prev next size prev' next' size' : ℕ → ℕ) (b m : ℕ) : Type 0 where
  pub prev_next : next m ≢ 0 → prev' (next m) ≡ b
  pub prev_kept : (x : ℕ) → x ≢ next m → prev' x ≡ prev x
  pub next_block : next' b ≡ next m
  pub next_kept : (x : ℕ) → x ≢ b → next' x ≡ next x
  pub size_block : size' b ≡ size b + size m
  pub size_kept : (x : ℕ) → x ≢ b → size' x ≡ size x

module _ (prev next size prev' next' size' : ℕ → ℕ) (b m : ℕ)
    (j : JoinAt prev next size prev' next' size' b m) where
  agree : (x : ℕ) → x ≢ b → x ≢ next m → Agree prev next size prev' next' size' x
  agree x i k = (j.prev_kept x k, j.next_kept x i, j.size_kept x i)

  join_behind :
      (vs : List ℕ) (stop : ℕ)
      → next m ≡ first_or 0 vs
      → All (λ x. b < x) vs
      → Tiles prev next size m vs 0 stop
      → Tiles prev' next' size' b vs 0 stop
  join_behind [] stop n a t = tt
  join_behind (v ∷ vs) stop n a t =
      let above =
        (Tiles-above prev next size v vs 0 stop (v + size v) t.5 (omega (arith, t.2))).0 in
      let i : v ≢ b = omega (arith, a.0) in
      (
        ap prev' (sym n) ∙ j.prev_next (λ z. t.4 (sym n ∙ z)),
        j.next_kept v i ∙ t.1,
        ap (λ s. v + s) (j.size_kept v i) ∙ t.2,
        omega (arith, j.size_kept v i, t.3),
        t.4,
        Tiles-Agree prev next size prev' next' size' v vs 0 stop
            (All-map (λ x k. agree x (omega (arith, k, a.0)) (omega (arith, k, n, t.3))) vs above)
            t.5,
      )

  next-ne :
      (vs : List ℕ) (x : ℕ) → next m ≡ first_or 0 vs → All (λ y. x < y) vs → x ≢ 0 → x ≢ next m
  next-ne [] x n a k = λ z. k (z ∙ n)
  next-ne (v ∷ vs) x n a k = omega (arith, n, a.0)

  pub Tiles-JoinAt :
      (before : ℕ) (us vs : List ℕ) (stop : ℕ)
      → Tiles prev next size before (us ++ b ∷ m ∷ vs) 0 stop
      → Tiles prev' next' size' before (us ++ b ∷ vs) 0 stop
  Tiles-JoinAt before us vs stop t =
      let s = Tiles-split prev next size before us b (m ∷ vs) 0 stop t in
      let above =
        (Tiles-above prev next size m vs 0 stop (m + size m) s.1.5.5 (omega (arith, s.1.5.2))).0 in
      let far : All (λ x. b < x) vs = All-map (λ x k. omega (arith, k, s.1.2, s.1.3)) vs above in
      Tiles-join prev' next' size' before us b vs 0 stop
        (Tiles-Agree prev next size prev' next' size' before us b b
          (All-map
            (λ x k. agree x (omega (arith, k.0, k.1)) (
              next-ne vs x s.1.5.1 (All-map {P = λ y. b < y} (λ y l. omega (arith, k.0, l)) vs far)
                k.2))
            us (Tiles-Below prev next size before us b b s.0))
          s.0)
        (
          j.prev_kept b (next-ne vs b s.1.5.1 far s.1.4) ∙ s.1.0,
          j.next_block ∙ s.1.5.1,
          omega (arith, j.size_block, s.1.2, s.1.5.2),
          omega (arith, j.size_block, s.1.3),
          s.1.4,
          join_behind vs stop s.1.5.1 far s.1.5.5,
        )

-- The block that goes is none of the others.
joined-NotIn :
    (prev next size : ℕ → ℕ) (us : List ℕ) (b m : ℕ) (vs : List ℕ) (stop : ℕ)
    → Tiles prev next size 0 (us ++ b ∷ m ∷ vs) 0 stop
    → NotIn m (us ++ b ∷ vs)
joined-NotIn prev next size us b m vs stop t =
    let s = Tiles-split prev next size 0 us b (m ∷ vs) 0 stop t in
    let above =
      (Tiles-above prev next size m vs 0 stop (m + size m) s.1.5.5 (omega (arith, s.1.5.2))).0 in
    NotIn-append m us (b ∷ vs)
      (All-map (λ x k. omega (arith, k.0, s.1.2, s.1.3)) us
        (Tiles-Below prev next size 0 us b b s.0))
      (omega (arith, s.1.2, s.1.3), All-map (λ x k. omega (arith, k, s.1.5.3)) vs above)

module _ (h : Heap) (l m : ℕ) where
  pub absorb-JoinAt :
      JoinAt h.prev_phys h.next_phys
        (block_size h)
        (absorb h l m).prev_phys
        (absorb h l m).next_phys
        (block_size (absorb h l m))
        l
        m
  unfolding absorb block_size
  absorb-JoinAt = record {
    prev_next = λ z. rw (ne→== (h.next_phys m) 0 z) (update_self h.prev_phys (h.next_phys m) l);
    prev_kept = λ x n. elim (eq-cases (h.next_phys m) 0) [
      | inl z ↦ rw z
      | inr z ↦
          rw (ne→== (h.next_phys m) 0 z)
            (update_ne h.prev_phys (h.next_phys m) x l (λ e. n (sym e)))
    ];
    next_block = update_self h.next_phys l (h.next_phys m);
    next_kept = λ x n. update_ne h.next_phys l x (h.next_phys m) (λ e. n (sym e));
    size_block = rw (eq→== l l refl) (omega arith);
    size_kept = λ x n. rw (ne→== l x (λ e. n (sym e)));
  }

  absorb-flag : (x : ℕ) → x ≢ l → block_is_allocated (absorb h l m) x ≡ block_is_allocated h x
  unfolding absorb block_is_allocated
  absorb-flag x n = rw (ne→== l x (λ e. n (sym e)))

  pub absorb-free : block_is_allocated (absorb h l m) l ≡ false
  unfolding absorb block_is_allocated block_size
  absorb-free = rw (eq→== l l refl) (ne→== _ 1 (omega arith))

  absorb-Ring :
      (fs : List ℕ)
      → Ring h.prev_free h.next_free h.sentinel fs h.sentinel
      → Ring
          (absorb h l m).prev_free
          (absorb h l m).next_free
          (absorb h l m).sentinel
          fs
          (absorb h l m).sentinel
  unfolding absorb
  absorb-Ring fs r = r

  absorb-low :
      (xs : List ℕ) → All (λ x. h.sentinel < x) xs → All (λ x. (absorb h l m).sentinel < x) xs
  unfolding absorb
  absorb-low xs a = a

  pub Loose-absorb :
      (us vs fs : List ℕ) (stop : ℕ)
      → Loose h (us ++ l ∷ m ∷ vs) fs stop l m
      → Loose (absorb h l m) (us ++ l ∷ vs) fs stop l 0
  Loose-absorb us vs fs stop w =
      let gone = joined-NotIn h.prev_phys h.next_phys (block_size h) us l m vs stop w.tiles in
      record {
        tiles =
            Tiles-JoinAt h.prev_phys h.next_phys (block_size h) (absorb h l m).prev_phys
              (absorb h l m).next_phys (block_size (absorb h l m)) l m absorb-JoinAt 0 us vs stop
              w.tiles;
        ring = absorb-Ring fs w.ring;
        distinct = w.distinct;
        apart = absorb-low (us ++ l ∷ vs) (All-without (λ x. h.sentinel < x) l m us vs w.apart);
        listed = listed' fs w.out2 w.listed;
        free = free' fs w.out1 w.free;
        complete = λ x i j k f.
            let n : x ≢ m = λ z. elem-ne x m (us ++ l ∷ vs) i gone (sym z) in
            w.complete x (elem-between_ne x l m us vs n ∙ i) j n (sym (absorb-flag x j) ∙ f);
        out1 = w.out1;
        out2 =
            All-map {P = λ x. elem x (us ++ l ∷ m ∷ vs) ≡ true}
              (λ x k. (Loose-Below h (us ++ l ∷ m ∷ vs) fs stop l m w x k).2) fs w.listed;
        bounded = w.bounded;
      }
    where
      listed' :
          (xs : List ℕ)
          → NotIn m xs
          → All (λ x. elem x (us ++ l ∷ m ∷ vs) ≡ true) xs
          → All (λ x. elem x (us ++ l ∷ vs) ≡ true) xs
      listed' [] n a = tt
      listed' (x ∷ xs) n a = ((sym (elem-between_ne x l m us vs n.0) ∙ a.0), listed' xs n.1 a.1)

      free' :
          (xs : List ℕ)
          → NotIn l xs
          → All (λ x. block_is_allocated h x ≡ false) xs
          → All (λ x. block_is_allocated (absorb h l m) x ≡ false) xs
      free' [] i a = tt
      free' (x ∷ xs) i a = ((absorb-flag x i.0 ∙ a.0), free' xs i.1 a.1)

  -- The other blocks stay as they are.
  pub absorb-kept :
      (us vs : List ℕ) (x : ℕ)
      → elem x (us ++ l ∷ m ∷ vs) ≡ true
      → x ≢ l
      → x ≢ m
      → (elem x (us ++ l ∷ vs) ≡ true)
        × (block_is_allocated (absorb h l m) x ≡ block_is_allocated h x)
        × (block_size (absorb h l m) x ≡ block_size h x)
  absorb-kept us vs x e i n =
      (sym (elem-between_ne x l m us vs n) ∙ e, absorb-flag x i, absorb-JoinAt.size_kept x i)
