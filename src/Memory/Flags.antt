-- ===== src/Memory/Flags.antt =====
-- Kernel/mm/mm_simple.c: `block_mark_allocated` and `block_mark_free` in a heap.
use so_tp.Base.{
  ℕ, ◌+◌, ◌≡◌, ◌≢◌, refl, sym, ◌∙◌, ap, List, [], ◌∷◌, arith, All, All-map, elem, NotIn, eq-cases,
  inl, inr, eq→==, ne→==, true, false, ne_false_of_true,
}
use so_tp.Memory.{
  Heap, block_size, block_is_allocated, block_mark_allocated, block_mark_free, set_size,
}
use so_tp.Memory.Tiles.{Tiles, Tiles-Below, Tiles-Agree}
use so_tp.Memory.WellFormed.{Loose, WellFormed, Loose-Below}

pub block_size-mark_allocated :
    (h : Heap) (b x : ℕ) → block_size (block_mark_allocated h b) x ≡ block_size h x
unfolding block_size block_mark_allocated set_size
block_size-mark_allocated h b x = elim (eq-cases b x) [
  | inl e ↦ rw (eq→== b x e, sym e) (omega arith)
  | inr n ↦ rw (ne→== b x n)
]

pub block_size-mark_free :
    (h : Heap) (b x : ℕ) → block_size (block_mark_free h b) x ≡ block_size h x
unfolding block_size block_mark_free set_size
block_size-mark_free h b x = elim (eq-cases b x) [
  | inl e ↦ rw (eq→== b x e, sym e) (omega arith)
  | inr n ↦ rw (ne→== b x n)
]

pub is_allocated-mark_allocated :
    (h : Heap) (b : ℕ) → block_is_allocated (block_mark_allocated h b) b ≡ true
unfolding block_is_allocated block_mark_allocated set_size block_size
is_allocated-mark_allocated h b = rw (eq→== b b refl) (eq→== _ 1 (omega arith))

pub is_allocated-mark_free : (h : Heap) (b : ℕ) → block_is_allocated (block_mark_free h b) b ≡ false
unfolding block_is_allocated block_mark_free set_size block_size
is_allocated-mark_free h b = rw (eq→== b b refl) (ne→== _ 1 (omega arith))

pub is_allocated-set_size :
    (h : Heap) (b v x : ℕ) → x ≢ b → block_is_allocated (set_size h b v) x ≡ block_is_allocated h x
unfolding block_is_allocated set_size
is_allocated-set_size h b v x n = rw (ne→== b x (λ e. n (sym e)))

pub block_size-set_size :
    (h : Heap) (b v x : ℕ) → x ≢ b → block_size (set_size h b v) x ≡ block_size h x
unfolding block_size set_size
block_size-set_size h b v x n = rw (ne→== b x (λ e. n (sym e)))

Tiles-sizes :
    (prev next size size' : ℕ → ℕ) (xs : List ℕ) (stop : ℕ)
    → ((x : ℕ) → size' x ≡ size x)
    → Tiles prev next size 0 xs 0 stop
    → Tiles prev next size' 0 xs 0 stop
Tiles-sizes prev next size size' xs stop e t =
    Tiles-Agree prev next size prev next size' 0 xs 0 stop
      (All-map (λ x k. (refl, refl, e x)) xs (Tiles-Below prev next size 0 xs 0 stop t)) t

-- A write of a flag, to a block that is not in the list.
Loose-set_size :
    (h : Heap) (bs fs : List ℕ) (stop e e' b v : ℕ)
    → Loose h bs fs stop e 0
    → ((x : ℕ) → block_size (set_size h b v) x ≡ block_size h x)
    → NotIn b fs
    → NotIn e' fs
    → ((x : ℕ)
        → elem x bs ≡ true
        → x ≢ e'
        → block_is_allocated (set_size h b v) x ≡ false
        → elem x fs ≡ true)
    → Loose (set_size h b v) bs fs stop e' 0
unfolding set_size
Loose-set_size h bs fs stop e e' b v w s n n' c = record {
  tiles =
      Tiles-sizes h.prev_phys h.next_phys (block_size h) (block_size (set_size h b v)) bs stop s
        w.tiles;
  ring = w.ring;
  distinct = w.distinct;
  apart = w.apart;
  listed = w.listed;
  free = kept fs n w.free;
  complete = λ x k i j f. c x k i f;
  out1 = n';
  out2 = w.out2;
  bounded = w.bounded;
}
  where
    kept :
        (xs : List ℕ)
        → NotIn b xs
        → All (λ x. block_is_allocated h x ≡ false) xs
        → All (λ x. block_is_allocated (set_size h b v) x ≡ false) xs
    kept [] i f = tt
    kept (x ∷ xs) i f = ((is_allocated-set_size h b v x i.0 ∙ f.0), kept xs i.1 f.1)

pub WellFormed-mark_allocated :
    (h : Heap) (bs fs : List ℕ) (stop b : ℕ)
    → Loose h bs fs stop b 0
    → WellFormed (block_mark_allocated h b) bs fs stop
unfolding block_mark_allocated
WellFormed-mark_allocated h bs fs stop b w =
    Loose-set_size h bs fs stop b 0 b (block_size h b + 1) w (block_size-mark_allocated h b) w.out1
      w.out2
      (λ x k i f. elim (eq-cases x b) [
        | inl same ↦ absurd (
            ne_false_of_true (block_is_allocated (block_mark_allocated h b) b)
              (is_allocated-mark_allocated h b)
              (ap (block_is_allocated (block_mark_allocated h b)) (sym same) ∙ f))
        | inr other ↦
            w.complete x k other i
              (sym (is_allocated-set_size h b (block_size h b + 1) x other) ∙ f)
      ])

free-ne :
    (h : Heap) (b : ℕ) (xs : List ℕ)
    → All (λ x. block_is_allocated h x ≡ false) xs
    → block_is_allocated h b ≡ true
    → NotIn b xs
free-ne h b [] a t = tt
free-ne h b (x ∷ xs) a t = (
  (λ e. ne_false_of_true (block_is_allocated h b) t (ap (block_is_allocated h) (sym e) ∙ a.0)),
  free-ne h b xs a.1 t,
)

pub Loose-mark_free :
    (h : Heap) (bs fs : List ℕ) (stop b : ℕ)
    → WellFormed h bs fs stop
    → elem b bs ≡ true
    → block_is_allocated h b ≡ true
    → Loose (block_mark_free h b) bs fs stop b 0
unfolding block_mark_free
Loose-mark_free h bs fs stop b w m t =
    let out : NotIn b fs = free-ne h b fs w.free t in
    Loose-set_size h bs fs stop 0 b b (block_size h b) w (block_size-mark_free h b) out out
      (λ x k i f.
        w.complete x k (Loose-Below h bs fs stop 0 0 w x k).2 (Loose-Below h bs fs stop 0 0 w x k).2
          (sym (is_allocated-set_size h b (block_size h b) x i) ∙ f))
