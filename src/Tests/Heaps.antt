-- ===== src/Tests/Heaps.antt =====
-- A heap of three blocks, of which the one in the middle is free, and the heap at the start.
use so_tp.Base.{
  ℕ, ◌+◌, ◌*◌, ◌^◌, ◌≡◌, ◌≢◌, ◌≤◌, ◌⊎◌, refl, true, false, [], ◌∷◌, List, arith, ◌==◌,
  if◌then◌else◌, eq-cases, inl, inr, eq→==, ne→==, sym, ne_false_of_true,
}
use so_tp.Queue.{address_limit}
use so_tp.Memory.{
  alloc_ready, find_first_fit, first_fit_from, required_size_of, align_up, take_block, Heap,
  block_size, block_is_allocated, mm_alloc, mm_free, mm_init_default,
}
use so_tp.Memory.WellFormed.{WellFormed}
use so_tp.Buddy.{order_for, flip}
use so_tp.Buddy.Orders.{Least, order_for-Least, flip-flip}
use so_tp.Memory.Allocation.{Refused, Accepted, mm_alloc-Outcome, mm_alloc-Apart}
use so_tp.Memory.Free.{ReleasedSome, mm_free-Released}
use so_tp.Memory.Init.{heap_start, usable_size, mm_init_default-WellFormed}

abbrev heap : Heap
heap = record {
  size_and_flags = λ x. if x == 4096 then 97 else if x == 4192 then 112 else 161;
  prev_phys = λ x. if x == 4096 then 0 else if x == 4192 then 4096 else 4192;
  next_phys = λ x. if x == 4096 then 4192 else if x == 4192 then 4304 else 0;
  prev_free = λ x. if x == 64 then 4192 else if x == 4192 then 64 else 0;
  next_free = λ x. if x == 64 then 4192 else if x == 4192 then 64 else 0;
  sentinel = 64;
  initialized = true;
  capacity_bytes = 328;
  used_bytes = 176;
  allocation_count = 2;
  free_count = 0;
  failed_allocations = 0;
}

abbrev blocks : List ℕ
blocks = 4096 ∷ 4192 ∷ 4304 ∷ []

only_free : (x : ℕ) → x ≢ 4192 → block_is_allocated heap x ≡ true
unfolding block_is_allocated
only_free x n = elim (eq-cases x 4096) [
  | inl e ↦ rw (eq→== x 4096 e)
  | inr k ↦ rw (ne→== x 4096 k, ne→== x 4192 n)
]

heap-WellFormed : WellFormed heap blocks (4192 ∷ []) 4464
unfolding block_size block_is_allocated address_limit
heap-WellFormed = record {
  tiles = (
    refl,
    refl,
    refl,
    omega arith,
    omega arith,
    (refl, refl, refl, omega arith, omega arith, (refl, refl, refl, omega arith, omega arith, tt)),
  );
  ring = (refl, refl, (refl, refl));
  distinct = (tt, tt);
  apart = (omega arith, (omega arith, (omega arith, tt)));
  listed = (refl, tt);
  free = (refl, tt);
  complete = λ x i j k f. elim (eq-cases 4192 x) [
    | inl e ↦ rw (eq→== 4192 x e)
    | inr n ↦ absurd (ne_false_of_true (block_is_allocated heap x) (only_free x (λ e. n (sym e))) f)
  ];
  out1 = (omega arith, tt);
  out2 = (omega arith, tt);
  bounded = omega arith;
}

abbrev blank : Heap
blank = record heap { initialized = false }

mm_init_default-WellFormed_example :
    WellFormed
      (mm_init_default 0x110000 blank)
      (heap_start 0x110000 ∷ [])
      (heap_start 0x110000 ∷ [])
      (heap_start 0x110000 + usable_size 0x110000)
    × ((mm_init_default 0x110000 blank).initialized ≡ true)
mm_init_default-WellFormed_example =
    mm_init_default-WellFormed 0x110000 blank (omega arith) (omega arith)

mm_alloc-Outcome_example :
    Refused heap (4192 ∷ []) 10 (mm_alloc 0x110000 heap 10)
    ⊎ Accepted heap blocks (4192 ∷ []) 4464 10 (mm_alloc 0x110000 heap 10)
mm_alloc-Outcome_example =
    mm_alloc-Outcome 0x110000 heap blocks (4192 ∷ []) 4464 10 heap-WellFormed refl (omega arith)
      (omega arith)

-- The free block is cut in two.
address : (mm_alloc 0x110000 heap 10).1 ≡ 4232
unfolding mm_alloc alloc_ready find_first_fit first_fit_from required_size_of align_up block_size
    address_limit take_block
address = refl

mm_alloc-Apart_example :
    ((mm_alloc 0x110000 heap 10).1 + 10 ≤ 4464)
    × ((4304 + block_size heap 4304 ≤ (mm_alloc 0x110000 heap 10).1)
        ⊎ ((mm_alloc 0x110000 heap 10).1 + 10 ≤ 4304))
mm_alloc-Apart_example =
    mm_alloc-Apart 0x110000 heap blocks (4192 ∷ []) 4464 10 heap-WellFormed refl (omega arith)
      (omega arith) (omega (arith, address)) 4304 refl (only_free 4304 (omega arith))

mm_free-Released_example : ReleasedSome heap (mm_free heap (4304 + 40)) blocks 4464 4304
mm_free-Released_example =
    mm_free-Released heap 4304 blocks (4192 ∷ []) 4464 heap-WellFormed refl refl
      (only_free 4304 (omega arith))

-- 100 bytes in blocks of 64: order 1.
order_for-Least_example : Least 31 64 0 100 (order_for 64 100)
order_for-Least_example = order_for-Least 64 100

flip-flip_example :
    (flip (flip (5 * 2 ^ 7) (2 ^ 7)) (2 ^ 7) ≡ 5 * 2 ^ 7)
    × ((p : ℕ) × (((5 * 2 ^ 7 ≡ 2 * p * 2 ^ 7) × (flip (5 * 2 ^ 7) (2 ^ 7) ≡ 2 * p * 2 ^ 7 + 2 ^ 7))
          ⊎ ((flip (5 * 2 ^ 7) (2 ^ 7) ≡ 2 * p * 2 ^ 7) × (5 * 2 ^ 7 ≡ 2 * p * 2 ^ 7 + 2 ^ 7))))
flip-flip_example = flip-flip 7 5
