-- ===== src/Memory/Free.antt =====
-- Kernel/mm/mm_simple.c: `mm_free` in a heap.
use so_tp.Base.{
  ℕ, ◌+◌, ◌-◌, ◌%◌, ◌^◌, ◌≡◌, ◌≢◌, ◌<◌, ◌≤◌, refl, sym, ◌∙◌, ap, subst, List, ◌∷◌, arith, All-map,
  elem, ◌==◌, ◌||◌, not, if◌then◌else◌, Bool, true, false, ne_false_of_true, if_true, if_false,
  update_ne,
}
use so_tp.Queue.{address_limit}
use so_tp.Memory.{
  Heap, block_size, block_is_allocated, block_mark_free, set_size, header_size, clear_free_links,
  set_free_links, count_free, coalesce_with_neighbors, free_list_insert, release_block, mm_free,
}
use so_tp.Memory.Ring.{Ring-Agree}
use so_tp.Memory.WellFormed.{Loose, WellFormed, Loose-Below, Loose-swap, Loose-apart}
use so_tp.Memory.FreeList.{Loose-free_list_insert}
use so_tp.Memory.Flags.{
  Loose-mark_free, is_allocated-mark_free, is_allocated-set_size, block_size-mark_free,
}
use so_tp.Memory.Merge.{coalesce-InHand}
use so_tp.Memory.Merges.{IsFreeBlock, Merges, coalesce-Merges}

limit : address_limit ≡ 0x20000000
unfolding address_limit
limit = refl

Loose-count_free :
    (h : Heap) (bs fs : List ℕ) (stop e n : ℕ)
    → Loose h bs fs stop e 0
    → Loose (count_free h n) bs fs stop e 0
unfolding count_free block_size block_is_allocated
Loose-count_free h bs fs stop e n w = record {
  tiles = w.tiles;
  ring = w.ring;
  distinct = w.distinct;
  apart = w.apart;
  listed = w.listed;
  free = w.free;
  complete = w.complete;
  out1 = w.out1;
  out2 = w.out2;
  bounded = w.bounded;
}

Loose-clear_free_links :
    (h : Heap) (bs fs : List ℕ) (stop b : ℕ)
    → Loose h bs fs stop b 0
    → elem b bs ≡ true
    → Loose (clear_free_links h b) bs fs stop b 0
unfolding clear_free_links set_free_links block_size block_is_allocated
Loose-clear_free_links h bs fs stop b w e =
    let s = Loose-apart h bs fs stop b 0 w b e in
    record {
      tiles = w.tiles;
      ring =
          Ring-Agree h.prev_free h.next_free (clear_free_links h b).prev_free
            (clear_free_links h b).next_free h.sentinel fs h.sentinel
            (
              update_ne h.next_free b h.sentinel 0 s,
              All-map (λ x n. update_ne h.next_free b x 0 (λ z. n (sym z))) fs w.out1,
            )
            (All-map (λ x n. update_ne h.prev_free b x 0 (λ z. n (sym z))) fs w.out1)
            (update_ne h.prev_free b h.sentinel 0 s) w.ring;
      distinct = w.distinct;
      apart = w.apart;
      listed = w.listed;
      free = w.free;
      complete = w.complete;
      out1 = w.out1;
      out2 = w.out2;
      bounded = w.bounded;
    }

module _ (h : Heap) (b : ℕ) where
  -- `release_block` up to the merges.
  abbrev unmarked : Heap
  unmarked =
      clear_free_links
        (count_free (block_mark_free h b) (block_size (block_mark_free h b) b - header_size)) b

  unmarked-kept :
      (x : ℕ)
      → (block_is_allocated unmarked x ≡ block_is_allocated (block_mark_free h b) x)
        × (block_size unmarked x ≡ block_size (block_mark_free h b) x)
  unfolding clear_free_links set_free_links count_free block_size block_is_allocated
  unmarked-kept x = (refl, refl)

  other_flag : (x : ℕ) → x ≢ b → block_is_allocated (block_mark_free h b) x ≡ block_is_allocated h x
  unfolding block_mark_free
  other_flag x n = is_allocated-set_size h b (block_size h b) x n

  release_block_lem :
      release_block h b
      ≡ free_list_insert
          (coalesce_with_neighbors unmarked b).0
          (coalesce_with_neighbors unmarked b).1
  unfolding release_block
  release_block_lem = refl

  unmarked-links : (unmarked.prev_phys b ≡ h.prev_phys b) × (unmarked.next_phys b ≡ h.next_phys b)
  unfolding clear_free_links set_free_links count_free block_mark_free set_size
  unmarked-links = (refl, refl)

  unmarked-Loose :
      (bs fs : List ℕ) (stop : ℕ)
      → WellFormed h bs fs stop
      → elem b bs ≡ true
      → block_is_allocated h b ≡ true
      → Loose unmarked bs fs stop b 0
  unmarked-Loose bs fs stop w e a =
      Loose-clear_free_links
        (count_free (block_mark_free h b) (block_size (block_mark_free h b) b - header_size)) bs fs
        stop b
        (Loose-count_free (block_mark_free h b) bs fs stop b
          (block_size (block_mark_free h b) b - header_size) (Loose-mark_free h bs fs stop b w e a))
        e

  unmarked-free : block_is_allocated unmarked b ≡ false
  unmarked-free = (unmarked-kept b).0 ∙ is_allocated-mark_free h b

  -- A free neighbour of `b` is one in the heap in which `b` is not allocated any more.
  unmarked-IsFreeBlock :
      (x : ℕ) → block_is_allocated h b ≡ true → IsFreeBlock h x → IsFreeBlock unmarked x
  unmarked-IsFreeBlock x a f = (
    f.0,
    (unmarked-kept x).0
        ∙ other_flag x (λ e.
          ne_false_of_true (block_is_allocated h b) a (ap (block_is_allocated h) (sym e) ∙ f.1))
        ∙ f.1,
  )

  unmarked-Merges :
      (h' : Heap) (m : ℕ) → block_is_allocated h b ≡ true → Merges unmarked h' b m → Merges h h' b m
  unmarked-Merges h' m a u =
      let l = unmarked-links in
      (
        λ f.
            u.0 (subst (IsFreeBlock unmarked) (sym l.0) (unmarked-IsFreeBlock (h.prev_phys b) a f))
            ∙ l.0,
        λ f.
            u.1 (subst (IsFreeBlock unmarked) (sym l.1) (unmarked-IsFreeBlock (h.next_phys b) a f))
            ∙ ap (λ x. x + block_size unmarked x) l.1
            ∙ ap (λ x. h.next_phys b + x)
                ((unmarked-kept (h.next_phys b)).1 ∙ block_size-mark_free h b (h.next_phys b)),
      )

  inserted-kept :
      (g : Heap) (m x : ℕ)
      → (block_is_allocated (free_list_insert g m) x ≡ block_is_allocated g x)
        × (block_size (free_list_insert g m) x ≡ block_size g x)
  unfolding free_list_insert set_free_links block_size block_is_allocated
  inserted-kept g m x = (refl, refl)

elem_head : (m : ℕ) (xs : List ℕ) → elem m (m ∷ xs) ≡ true
elem_head m xs = ground arith

-- What the release of the block `b` does to the heap: every other block that was allocated keeps its
-- size and stays allocated, and the bytes of `b` are in a block of the free list, with those of the
-- neighbours that were free.
pub record Released (h h' : Heap) (bs bs' fs' : List ℕ) (stop b : ℕ) : Type 0 where
  pub well_formed : WellFormed h' bs' fs' stop
  pub others :
      (x : ℕ)
      → elem x bs ≡ true
      → block_is_allocated h x ≡ true
      → x ≢ b
      → (elem x bs' ≡ true) × (block_is_allocated h' x ≡ true) × (block_size h' x ≡ block_size h x)
  pub back :
      (f : ℕ) × (elem f fs' ≡ true)
      × (f ≤ b)
      × (b + block_size h b ≤ f + block_size h' f)
      × Merges h h' b f

abbrev pub ReleasedSome : Heap → Heap → List ℕ → ℕ → ℕ → Type 0
ReleasedSome h h' bs stop b = (bs' : List ℕ) × (fs' : List ℕ) × Released h h' bs bs' fs' stop b

module _ (b : ℕ) where
  guard : (f : Bool) → f ≡ true → ((b + 40) == 0 || not f) ≡ false
  guard f i = ground (arith, i)

  address : b < 2 ^ 64 → (b + 40 + (2 ^ 64 - 40)) % 2 ^ 64 ≡ b
  address l = omega (arith, l)

module _ (h : Heap) (b : ℕ) (bs fs : List ℕ) (stop : ℕ) where
  pub release_block-Released :
      WellFormed h bs fs stop
      → elem b bs ≡ true
      → block_is_allocated h b ≡ true
      → ReleasedSome h (release_block h b) bs stop b
  release_block-Released w e a =
      let u = unmarked-Loose h b bs fs stop w e a in
      let r = coalesce-InHand (unmarked h b) b bs fs stop u e (unmarked-free h b) in
      let c =
        unmarked-Merges h b (coalesce_with_neighbors (unmarked h b) b).0
          (coalesce_with_neighbors (unmarked h b) b).1 a
          (coalesce-Merges (unmarked h b) b bs fs stop u e (unmarked-free h b)) in
      let g : Heap = (coalesce_with_neighbors (unmarked h b) b).0 in
      let m : ℕ = (coalesce_with_neighbors (unmarked h b) b).1 in
      let i = r.2 in
      let nz = (Loose-Below g r.0 r.1 stop m 0 i.loose m i.member).2 in
      subst (λ z. ReleasedSome h z bs stop b) (sym (release_block_lem h b))
        (
          r.0,
          m ∷ r.1,
          record {
            well_formed =
                Loose-free_list_insert g r.0 r.1 stop 0 m (Loose-swap g r.0 r.1 stop m 0 i.loose)
                  i.member i.unused (λ z. nz (sym z));
            others = λ x j k n.
                let u = unmarked-kept h b x in
                let o = i.kept x j (u.0 ∙ other_flag h b x n ∙ k) in
                let p = inserted-kept h b g m x in
                (o.0, (p.0 ∙ o.1), (p.1 ∙ o.2 ∙ u.1 ∙ block_size-mark_free h b x));
            back = (
              m,
              elem_head m r.1,
              i.start,
              omega (
                arith,
                i.reach,
                (inserted-kept h b g m m).1,
                (unmarked-kept h b b).1,
                block_size-mark_free h b b,
              ),
              (c.0, λ y. ap (λ x. m + x) (inserted-kept h b g m m).1 ∙ c.1 y),
            );
          },
        )

  mm_free_step :
      b < 2 ^ 64
      → h.initialized ≡ true
      → block_is_allocated h b ≡ true
      → mm_free h (b + header_size) ≡ release_block h b
  unfolding mm_free
  mm_free_step l i a =
      if_false ((b + 40) == 0 || not h.initialized) _ _ (guard b h.initialized i)
      ∙ ap (λ x. if block_is_allocated h x then release_block h x else h) (address b l)
      ∙ if_true (block_is_allocated h b) _ _ a

  -- Freeing what `mm_alloc` returned for the allocated block `b` of a heap that is well formed leaves it
  -- well formed. Every other block that was allocated keeps its size and stays allocated. The bytes of `b`
  -- are all in one block of the free list: it starts at the block before `b` if that was free, and ends
  -- where the block behind `b` ends if that was free.
  pub mm_free-Released :
      WellFormed h bs fs stop
      → h.initialized ≡ true
      → elem b bs ≡ true
      → block_is_allocated h b ≡ true
      → ReleasedSome h (mm_free h (b + header_size)) bs stop b
  mm_free-Released w i e a =
      let k = Loose-Below h bs fs stop 0 0 w b e in
      let below : b < 2 ^ 64 = omega (arith, k.0, k.1, w.bounded, limit) in
      subst (λ z. ReleasedSome h z bs stop b) (sym (mm_free_step below i a))
        (release_block-Released w e a)
