-- ===== src/Memory/Init.antt =====
-- Kernel/mm/mm_simple.c: `mm_init` and `mm_init_default`.
use so_tp.Base.{
  ℕ, ◌+◌, ◌-◌, ◌*◌, ◌/◌, ◌%◌, ◌^◌, ◌≡◌, ◌≢◌, ◌<◌, ◌≤◌, refl, sym, ◌∙◌, ap, subst, [], ◌∷◌, arith,
  ◌==◌, ◌!=◌, ◌&&◌, ◌||◌, eq→==, ne→==, true, false, if_true, if_false, ltb, leb,
}
use so_tp.Queue.{address_limit}
use so_tp.Memory.{
  Heap, block_size, block_is_allocated, block_mark_free, set_size, set_free_links, free_list_insert,
  free_list_init, first_block, reset_counters, mm_init, mm_init_default, align_up,
  kernel_stack_bytes,
}
use so_tp.Memory.Ring.{Ring}
use so_tp.Memory.WellFormed.{WellFormed}

module _ (h : Heap) (b usable : ℕ) where
  first-Ring :
      h.sentinel < b
      → Ring
          (first_block h b usable).prev_free
          (first_block h b usable).next_free
          h.sentinel
          (b ∷ [])
          h.sentinel
  unfolding first_block free_list_init block_mark_free set_size free_list_insert reset_counters
      set_free_links
  first-Ring l =
      let n : h.sentinel ≢ b = omega (arith, l) in
      let m : b ≢ h.sentinel = omega (arith, l) in
      let s = eq→== h.sentinel h.sentinel refl in
      let t = eq→== b b refl in
      (
        rw s,
        rw (ne→== b h.sentinel m, s, ne→== h.sentinel b n, t),
        (
          rw (ne→== h.sentinel b n, t, s),
          rw (ne→== b h.sentinel m, s) (if_true (h.sentinel == h.sentinel) b h.sentinel s),
        ),
      )

  first-size : usable % 2 ≡ 0 → block_size (first_block h b usable) b ≡ usable
  unfolding first_block free_list_init block_mark_free set_size free_list_insert reset_counters
      set_free_links block_size
  first-size e = rw (eq→== b b refl) (omega (arith, e))

  first-free : block_is_allocated (first_block h b usable) b ≡ false
  unfolding first_block free_list_init block_mark_free set_size free_list_insert reset_counters
      set_free_links block_size block_is_allocated
  first-free = rw (eq→== b b refl) (ne→== _ 1 (omega arith))

  first-links :
      ((first_block h b usable).prev_phys b ≡ 0)
      × ((first_block h b usable).next_phys b ≡ 0)
      × ((first_block h b usable).sentinel ≡ h.sentinel)
      × ((first_block h b usable).initialized ≡ true)
  unfolding first_block free_list_init block_mark_free set_size free_list_insert reset_counters
      set_free_links
  first-links = (rw (eq→== b b refl), rw (eq→== b b refl), refl, refl)

  first_block-WellFormed :
      h.sentinel < b
      → usable % 2 ≡ 0
      → 56 ≤ usable
      → b + usable ≤ address_limit
      → WellFormed (first_block h b usable) (b ∷ []) (b ∷ []) (b + usable)
  first_block-WellFormed l e u k = record {
    tiles = (
      first-links.0,
      first-links.1,
      omega (arith, first-size e),
      omega (arith, first-size e, u),
      omega (arith, l),
      tt,
    );
    ring =
        subst
          (λ s.
            Ring (first_block h b usable).prev_free (first_block h b usable).next_free s (b ∷ []) s)
          (sym first-links.2) (first-Ring l);
    distinct = (tt, tt);
    apart = (omega (arith, first-links.2, l), tt);
    listed = (ground arith, tt);
    free = (first-free, tt);
    complete = λ x i j m f. i;
    out1 = (omega (arith, l), tt);
    out2 = (omega (arith, l), tt);
    bounded = k;
  }

sub_self : (n k : ℕ) → k - (n - n) ≡ k
sub_self n k = omega arith

limit : address_limit ≡ 0x20000000
unfolding address_limit
limit = refl

align_up-bounds : (v : ℕ) → v + 16 ≤ 2 ^ 64 → (v ≤ align_up v) × (align_up v ≤ v + 15)
unfolding align_up
align_up-bounds v h = (omega (arith, h), omega (arith, h))

abbrev pub heap_start : ℕ → ℕ
heap_start end_of_kernel = align_up (end_of_kernel + kernel_stack_bytes)

abbrev pub usable_size : ℕ → ℕ
usable_size end_of_kernel = (0x20000000 - heap_start end_of_kernel) / 16 * 16

align_up-twice : (v : ℕ) → v + 32 ≤ 2 ^ 64 → align_up (align_up v) ≡ align_up v
unfolding align_up
align_up-twice v h = omega (arith, h)

mm_init_lem :
    (h : Heap) (start size : ℕ)
    → align_up start ≡ start
    → 72 ≤ size
    → mm_init h start size ≡ first_block h start (size / 16 * 16)
unfolding mm_init
mm_init_lem h start size a s =
    if_false (ltb size 56) _ _ (ground (arith, s))
    ∙ if_false (ltb (align_up start) start || leb size (align_up start - start)) _ _
        (ground (arith, a, s))
    ∙ if_false (ltb ((size - (align_up start - start)) / 16 * 16) 56) _ _ (ground (arith, a, s))
    ∙ ap (λ z. first_block h z ((size - (z - start)) / 16 * 16)) a
    ∙ ap (λ z. first_block h start (z / 16 * 16)) (sub_self start size)

init_default_lem :
    (end_of_kernel : ℕ) (h : Heap)
    → end_of_kernel + kernel_stack_bytes + 90 ≤ 0x20000000
    → mm_init_default end_of_kernel h
      ≡ mm_init h (heap_start end_of_kernel) (0x20000000 - heap_start end_of_kernel)
unfolding mm_init_default address_limit
init_default_lem end_of_kernel h l =
    let b = align_up-bounds (end_of_kernel + kernel_stack_bytes) (omega (arith, l)) in
    if_true (ltb (heap_start end_of_kernel) 0x20000000 && heap_start end_of_kernel != 0) _ _
      (ground (arith, b.0, b.1, l))

-- `mm_init_default`, where the kernel ends at least 32,858 bytes below the limit of the heap and the
-- sentinel lies below that end, leaves the heap initialized and well formed, as one free block.
pub mm_init_default-WellFormed :
    (end_of_kernel : ℕ) (h : Heap)
    → end_of_kernel + kernel_stack_bytes + 90 ≤ 0x20000000
    → h.sentinel < end_of_kernel
    → WellFormed
        (mm_init_default end_of_kernel h)
        (heap_start end_of_kernel ∷ [])
        (heap_start end_of_kernel ∷ [])
        (heap_start end_of_kernel + usable_size end_of_kernel)
      × ((mm_init_default end_of_kernel h).initialized ≡ true)
mm_init_default-WellFormed e h l s =
    let b = align_up-bounds (e + kernel_stack_bytes) (omega (arith, l)) in
    let q : mm_init_default e h ≡ first_block h (heap_start e) (usable_size e) =
      init_default_lem e h l
      ∙ mm_init_lem h (heap_start e) (0x20000000 - heap_start e)
          (align_up-twice (e + kernel_stack_bytes) (omega (arith, l))) (omega (arith, b.1, l)) in
    subst
      (λ z.
        WellFormed z (heap_start e ∷ []) (heap_start e ∷ []) (heap_start e + usable_size e)
        × (z.initialized ≡ true))
      (sym q)
      (
        first_block-WellFormed h (heap_start e) (usable_size e) (omega (arith, b.0, s))
            (omega arith) (omega (arith, b.1, l)) (omega (arith, b.1, l, limit)),
        (first-links h (heap_start e) (usable_size e)).3,
      )
