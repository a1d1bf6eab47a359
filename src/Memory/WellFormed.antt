-- ===== src/Memory/WellFormed.antt =====
-- Kernel/mm/mm_simple.c: what the allocator keeps true of its heap.
use so_tp.Base.{
  ℕ, ◌-◌, ◌≡◌, ◌≢◌, ◌<◌, ◌≤◌, List, [], ◌∷◌, arith, All, All-map, elem, NotIn, Distinct, true,
  false, length, length-le_of_Distinct, All-elem,
}
use so_tp.Queue.{address_limit}
use so_tp.Queue.Chain.{zero-lt_address_limit}
use so_tp.Memory.{Heap, block_size, block_is_allocated}
use so_tp.Memory.Tiles.{Tiles, Tiles-Below, Below}
use so_tp.Memory.Ring.{Ring}

-- The blocks `bs` fill the heap up to `stop`; those of `fs` are in the free list. Each block that is
-- not allocated is in it, but for the two that an operation has in hand: `e1` and `e2`, 0 for none.
-- The sentinel, a variable of the kernel, lies below the heap.
pub record Loose (h : Heap) (bs fs : List ℕ) (stop e1 e2 : ℕ) : Type 0 where
  pub tiles : Tiles h.prev_phys h.next_phys (block_size h) 0 bs 0 stop
  pub ring : Ring h.prev_free h.next_free h.sentinel fs h.sentinel
  pub distinct : Distinct fs
  pub apart : All (λ x. h.sentinel < x) bs
  pub listed : All (λ x. elem x bs ≡ true) fs
  pub free : All (λ x. block_is_allocated h x ≡ false) fs
  pub complete :
      (x : ℕ)
      → elem x bs ≡ true
      → x ≢ e1
      → x ≢ e2
      → block_is_allocated h x ≡ false
      → elem x fs ≡ true
  pub out1 : NotIn e1 fs
  pub out2 : NotIn e2 fs
  pub bounded : stop ≤ address_limit

abbrev pub WellFormed : Heap → List ℕ → List ℕ → ℕ → Type 0
WellFormed h bs fs stop = Loose h bs fs stop 0 0

module _ (h : Heap) (bs fs : List ℕ) (stop e1 e2 : ℕ) (w : Loose h bs fs stop e1 e2) where
  pub Loose-block : (x : ℕ) → elem x fs ≡ true → elem x bs ≡ true
  Loose-block x e = All-elem (λ y. elem y bs ≡ true) x fs w.listed e

  pub Loose-Below : (x : ℕ) → elem x bs ≡ true → Below (block_size h) stop x
  Loose-Below x e =
      All-elem (Below (block_size h) stop) x bs
        (Tiles-Below h.prev_phys h.next_phys (block_size h) 0 bs 0 stop w.tiles) e

  pub Loose-apart : (x : ℕ) → elem x bs ≡ true → x ≢ h.sentinel
  Loose-apart x e = let k = All-elem (λ y. h.sentinel < y) x bs w.apart e in omega (arith, k)

  pub Loose-sentinel : NotIn h.sentinel fs
  Loose-sentinel = All-map {P = λ x. elem x bs ≡ true} Loose-apart fs w.listed

  -- The free list is shorter than the bound of its loops.
  pub Loose-length : length fs < address_limit
  Loose-length = short fs w.distinct (
      All-map {P = λ x. elem x bs ≡ true}
        (λ x e. let k = Loose-Below x e in omega (arith, k.0, k.1)) fs w.listed)
    where
      short : (xs : List ℕ) → Distinct xs → All (λ x. x < stop - 1) xs → length xs < address_limit
      short [] d a = zero-lt_address_limit
      short (x ∷ xs) d a =
          omega (arith, length-le_of_Distinct (stop - 1) (x ∷ xs) d a, a.0, w.bounded)

pub Loose-swap :
    (h : Heap) (bs fs : List ℕ) (stop e1 e2 : ℕ)
    → Loose h bs fs stop e1 e2
    → Loose h bs fs stop e2 e1
Loose-swap h bs fs stop e1 e2 w = record {
  tiles = w.tiles;
  ring = w.ring;
  distinct = w.distinct;
  apart = w.apart;
  listed = w.listed;
  free = w.free;
  complete = λ x k i j f. w.complete x k j i f;
  out1 = w.out2;
  out2 = w.out1;
  bounded = w.bounded;
}
