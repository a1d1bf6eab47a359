-- ===== src/Memory.antt =====
-- Kernel/mm/mm_simple.c: the heap as blocks that follow each other, each behind a header, and the list
-- of the free ones, linked both ways through a sentinel.
pub mod Tiles
pub mod Cut
pub mod Ring
pub mod WellFormed
pub mod FreeList
pub mod Flags
pub mod Split
pub mod Alloc
pub mod Grant
pub mod Allocation
pub mod Join
pub mod Merge
pub mod Merges
pub mod Free
pub mod Init
use so_tp.Base.{
  ℕ, zero, suc, ◌+◌, ◌-◌, ◌*◌, ◌/◌, ◌%◌, ◌^◌, Bool, true, false, ◌&&◌, ◌||◌, not, ◌==◌, ◌!=◌, ltb,
  leb, if◌then◌else◌, update,
}
use so_tp.Queue.{address_limit}

abbrev pub mm_alignment : ℕ
mm_alignment = 16

-- MM_PAGE_SIZE * MM_KERNEL_STACK_PAGES.
abbrev pub kernel_stack_bytes : ℕ
kernel_stack_bytes = 0x1000 * 8

-- `sizeof(block_header_t)`: five words of 8 bytes.
abbrev pub header_size : ℕ
header_size = 40

abbrev pub min_block_size : ℕ
min_block_size = 56

-- The fields of `block_header_t`, a map each, and the file-level variables. `sentinel` is the address
-- of `free_list_sentinel`, which is a header too.
pub record Heap : Type 0 where
  pub size_and_flags : ℕ → ℕ
  pub prev_phys : ℕ → ℕ
  pub next_phys : ℕ → ℕ
  pub prev_free : ℕ → ℕ
  pub next_free : ℕ → ℕ
  pub sentinel : ℕ
  pub initialized : Bool
  pub capacity_bytes : ℕ
  pub used_bytes : ℕ
  pub allocation_count : ℕ
  pub free_count : ℕ
  pub failed_allocations : ℕ

-- `(value + alignment - 1) & ~(alignment - 1)` for the alignment 16.
unfoldable pub align_up : ℕ → ℕ
align_up value = (value + 15) % 2 ^ 64 / 16 * 16

-- The lowest bit of `size_and_flags` is BLOCK_ALLOCATED_FLAG.
unfoldable pub block_size : Heap → ℕ → ℕ
block_size h b = h.size_and_flags b / 2 * 2

unfoldable pub block_is_allocated : Heap → ℕ → Bool
block_is_allocated h b = h.size_and_flags b % 2 == 1

unfoldable pub set_size : Heap → ℕ → ℕ → Heap
set_size h b v = record h { size_and_flags = update h.size_and_flags b v }

unfoldable pub block_mark_allocated : Heap → ℕ → Heap
block_mark_allocated h b = set_size h b (block_size h b + 1)

unfoldable pub block_mark_free : Heap → ℕ → Heap
block_mark_free h b = set_size h b (block_size h b)

unfoldable pub set_free_links : Heap → (ℕ → ℕ) → (ℕ → ℕ) → Heap
set_free_links h prevs nexts = record h { prev_free = prevs; next_free = nexts }

unfoldable pub free_list_init : Heap → Heap
free_list_init h =
    set_free_links h (update h.prev_free h.sentinel h.sentinel)
      (update h.next_free h.sentinel h.sentinel)

unfoldable pub free_list_insert : Heap → ℕ → Heap
free_list_insert h b =
    let s = h.sentinel in
    let nexts = update h.next_free b (h.next_free s) in
    let prevs = update (update h.prev_free b s) (nexts s) b in
    set_free_links h prevs (update nexts s b)

unfoldable pub clear_free_links : Heap → ℕ → Heap
clear_free_links h b = set_free_links h (update h.prev_free b 0) (update h.next_free b 0)

unfoldable pub free_list_remove : Heap → ℕ → Heap
free_list_remove h b =
    let nexts = update h.next_free (h.prev_free b) (h.next_free b) in
    let prevs = update h.prev_free (nexts b) (h.prev_free b) in
    clear_free_links (set_free_links h prevs nexts) b

-- The loop of `find_first_fit`, from `current` on; NULL at the sentinel.
unfoldable pub first_fit_from : ℕ → Heap → ℕ → ℕ → ℕ
first_fit_from zero h current required_size = 0
first_fit_from (suc fuel) h current required_size =
    let rest = first_fit_from fuel h (h.next_free current) required_size in
    if current == h.sentinel
    then 0
    else if leb required_size (block_size h current)
    then current
    else rest

unfoldable pub find_first_fit : Heap → ℕ → ℕ
find_first_fit h required_size =
    first_fit_from address_limit h (h.next_free h.sentinel) required_size

-- The header of the second part of a block, and the links around it.
unfoldable pub link_second : Heap → ℕ → ℕ → ℕ → Heap
link_second h b n remaining_size =
    let nexts = update h.next_phys n (h.next_phys b) in
    let prevs = update h.prev_phys n b in
    record h {
      size_and_flags = update h.size_and_flags n remaining_size;
      prev_phys = if nexts n != 0 then update prevs (nexts n) n else prevs;
      next_phys = update nexts b n;
    }

-- The block keeps its flag.
unfoldable pub shrink : Heap → ℕ → ℕ → Heap
shrink h b required_size = set_size h b (required_size + h.size_and_flags b % 2)

unfoldable pub split_block : Heap → ℕ → ℕ → Heap
split_block h b required_size =
    let n = b + required_size in
    let h1 = shrink (link_second h b n (block_size h b - required_size)) b required_size in
    free_list_insert (clear_free_links (block_mark_free h1 n) n) n

unfoldable pub split_block_if_possible : Heap → ℕ → ℕ → Heap
split_block_if_possible h b required_size =
    if ltb (block_size h b) ((required_size + min_block_size) % 2 ^ 64)
    then h
    else split_block h b required_size

-- The block `b` takes in the block `n` behind it.
unfoldable pub absorb : Heap → ℕ → ℕ → Heap
absorb h b n = record h {
  size_and_flags = update h.size_and_flags b (block_size h b + block_size h n);
  next_phys = update h.next_phys b (h.next_phys n);
  prev_phys = if h.next_phys n != 0 then update h.prev_phys (h.next_phys n) b else h.prev_phys;
}

-- `p != NULL && !block_is_allocated(p)`.
unfoldable pub is_free_block : Heap → ℕ → Bool
is_free_block h p = p != 0 && not (block_is_allocated h p)

unfoldable pub merge_prev : Heap → ℕ → Heap × ℕ
merge_prev h b =
    let prev = h.prev_phys b in
    if is_free_block h prev then (absorb (free_list_remove h prev) prev b, prev) else (h, b)

unfoldable pub merge_next : Heap → ℕ → ℕ → Heap
merge_next h b next = if is_free_block h next then absorb (free_list_remove h next) b next else h

-- `next` is read before the first merge.
unfoldable pub coalesce_with_neighbors : Heap → ℕ → Heap × ℕ
coalesce_with_neighbors h b =
    let next = h.next_phys b in let (h', b') = merge_prev h b in (merge_next h' b' next, b')

unfoldable pub reset_counters : Heap → ℕ → Bool → Heap
reset_counters h capacity flag = record h {
  initialized = flag;
  capacity_bytes = capacity;
  used_bytes = 0;
  allocation_count = 0;
  free_count = 0;
  failed_allocations = 0;
}

-- `mm_init` once the region is found to be large enough.
unfoldable pub first_block : Heap → ℕ → ℕ → Heap
first_block h b usable_bytes =
    let h1 = free_list_init h in
    let h2 = record h1 {
      size_and_flags = update h1.size_and_flags b usable_bytes;
      prev_phys = update h1.prev_phys b 0;
      next_phys = update h1.next_phys b 0;
    } in
    reset_counters (free_list_insert (block_mark_free h2 b) b) (usable_bytes - header_size) true

unfoldable pub mm_init : Heap → ℕ → ℕ → Heap
mm_init h heap_start heap_size =
    let aligned_start = align_up heap_start in
    let usable_bytes = (heap_size - (aligned_start - heap_start)) / 16 * 16 in
    if ltb heap_size min_block_size
    then reset_counters h 0 false
    else if ltb aligned_start heap_start || leb heap_size (aligned_start - heap_start)
    then record h { initialized = false }
    else if ltb usable_bytes min_block_size
    then reset_counters h 0 false
    else first_block h aligned_start usable_bytes

-- `mm_init_default` with `mm_default_region`; the argument is the address of `endOfKernel`.
unfoldable pub mm_init_default : ℕ → Heap → Heap
mm_init_default end_of_kernel h =
    let start = align_up (end_of_kernel + kernel_stack_bytes) in
    if ltb start address_limit && start != 0 then mm_init h start (address_limit - start) else h

unfoldable pub fail : Heap → Heap × ℕ
fail h = (record h { failed_allocations = (h.failed_allocations + 1) % 2 ^ 64 }, 0)

-- The counters behind an allocation of `payload_size` bytes.
unfoldable pub count_allocation : Heap → ℕ → Heap
count_allocation h payload_size =
    let used = (h.used_bytes + payload_size) % 2 ^ 64 in
    record h {
      used_bytes = if ltb h.capacity_bytes used then h.capacity_bytes else used;
      allocation_count = (h.allocation_count + 1) % 2 ^ 64;
    }

unfoldable pub take_block : Heap → ℕ → ℕ → Heap × ℕ
take_block h b required_size =
    let h1 =
      block_mark_allocated (split_block_if_possible (free_list_remove h b) b required_size) b in
    (count_allocation h1 (block_size h1 b - header_size), b + header_size)

unfoldable pub required_size_of : ℕ → ℕ
required_size_of size =
    let required_size = (align_up size + header_size) % 2 ^ 64 in
    if ltb required_size min_block_size then min_block_size else required_size

-- `mm_alloc` in a heap that is initialized.
unfoldable pub alloc_ready : Heap → ℕ → Heap × ℕ
alloc_ready h size =
    let required_size = required_size_of size in
    let b = find_first_fit h required_size in
    if size == 0 then (h, 0) else if b == 0 then fail h else take_block h b required_size

unfoldable pub mm_alloc : ℕ → Heap → ℕ → Heap × ℕ
mm_alloc end_of_kernel h size =
    let h' = mm_init_default end_of_kernel h in
    if h.initialized
    then alloc_ready h size
    else if h'.initialized
    then alloc_ready h' size
    else fail h'

unfoldable pub count_free : Heap → ℕ → Heap
count_free h payload_size = record h {
  free_count = (h.free_count + 1) % 2 ^ 64;
  used_bytes = if leb payload_size h.used_bytes then h.used_bytes - payload_size else 0;
}

unfoldable pub release_block : Heap → ℕ → Heap
release_block h b =
    let h1 = block_mark_free h b in
    let h2 = clear_free_links (count_free h1 (block_size h1 b - header_size)) b in
    let (h3, b') = coalesce_with_neighbors h2 b in free_list_insert h3 b'

unfoldable pub mm_free : Heap → ℕ → Heap
mm_free h ptr =
    let b = (ptr + (2 ^ 64 - header_size)) % 2 ^ 64 in
    if ptr == 0 || not h.initialized
    then h
    else if block_is_allocated h b
    then release_block h b
    else h

-- `mm_stats_t`.
pub record Stats : Type 0 where
  pub total_bytes : ℕ
  pub used_bytes : ℕ
  pub free_bytes : ℕ
  pub largest_free_block : ℕ
  pub allocations : ℕ
  pub frees : ℕ
  pub failed_allocations : ℕ

unfoldable pub largest_from : ℕ → Heap → ℕ → ℕ → ℕ
largest_from zero h current largest = largest
largest_from (suc fuel) h current largest =
    let size = block_size h current in
    let rest =
      largest_from fuel h (h.next_free current) (if ltb largest size then size else largest) in
    if current == h.sentinel then largest else rest

unfoldable pub mm_get_stats : Heap → Stats
mm_get_stats h =
    let largest = largest_from address_limit h (h.next_free h.sentinel) 0 in
    record {
      total_bytes = h.capacity_bytes;
      used_bytes = h.used_bytes;
      free_bytes = if ltb h.used_bytes h.capacity_bytes then h.capacity_bytes - h.used_bytes else 0;
      largest_free_block = if leb header_size largest then largest - header_size else 0;
      allocations = h.allocation_count;
      frees = h.free_count;
      failed_allocations = h.failed_allocations;
    }
