-- ===== src/Buddy.antt =====
-- Kernel/mm/mm_buddy.c: the other manager of memory, chosen when the kernel is built: blocks whose sizes
-- are powers of two times a base, and a list of free blocks for each level.
pub mod Xor
pub mod Orders
use Prim.Native.Nat.{bit_xor}
use so_tp.Base.{
  ℕ, zero, suc, ◌+◌, ◌-◌, ◌*◌, ◌/◌, ◌%◌, ◌^◌, Bool, true, false, ◌&&◌, ◌||◌, not, ◌==◌, ◌!=◌, ltb,
  leb, if◌then◌else◌, update,
}
use so_tp.Queue.{address_limit}
use so_tp.Memory.{align_up, kernel_stack_bytes}

-- HDR_SIZE: `sizeof(buddy_block_t)`, 24, rounded up.
abbrev pub hdr_size : ℕ
hdr_size = 32

abbrev pub mm_max_levels : ℕ
mm_max_levels = 32

-- The fields of `buddy_block_t`, a map each, and the file-level variables.
pub record Buddies : Type 0 where
  pub next : ℕ → ℕ
  pub prev : ℕ → ℕ
  pub level : ℕ → ℕ
  pub is_free : ℕ → Bool
  pub base_block_size : ℕ
  pub free_lists : ℕ → ℕ
  pub initialized : Bool
  pub capacity_bytes : ℕ
  pub used_bytes : ℕ
  pub free_count : ℕ
  pub failed_allocations : ℕ
  pub heap_base : ℕ
  pub usable_bytes : ℕ
  pub max_level : ℕ

-- The loop of `order_for`, with the rounds that are left.
unfoldable pub order_from : ℕ → ℕ → ℕ → ℕ → ℕ
order_from zero blk order total = order
order_from (suc rounds) blk order total =
    let rest = order_from rounds (blk * 2) (order + 1) total in
    if ltb blk total then rest else order

unfoldable pub order_for : ℕ → ℕ → ℕ
order_for base size_bytes =
    order_from (mm_max_levels - 1) base 0 (if ltb size_bytes base then base else size_bytes)

unfoldable pub push_free : Buddies → ℕ → Buddies
push_free h b =
    let old = h.free_lists (h.level b) in
    let prevs = update h.prev b 0 in
    record h {
      is_free = update h.is_free b true;
      next = update h.next b old;
      prev = if old != 0 then update prevs old b else prevs;
      free_lists = update h.free_lists (h.level b) b;
    }

-- The first block of a list leaves it.
unfoldable pub take_first : Buddies → ℕ → ℕ → Buddies
take_first h level b =
    let n = h.next b in
    record h {
      free_lists = update h.free_lists level n;
      prev = update (if n != 0 then update h.prev n 0 else h.prev) b 0;
      next = update h.next b 0;
      is_free = update h.is_free b false;
    }

unfoldable pub pop_free : Buddies → ℕ → Buddies × ℕ
pop_free h level =
    let b = h.free_lists level in if b == 0 then (h, 0) else (take_first h level b, b)

-- A block of a level above, free and unlinked.
unfoldable pub fresh : Buddies → ℕ → ℕ → Buddies
fresh h b level = record h {
  level = update h.level b level;
  is_free = update h.is_free b true;
  next = update h.next b 0;
  prev = update h.prev b 0;
}

-- The body of the loop of `split_down`, for the block `blk` of the level `suc l`.
unfoldable pub halve : Buddies → ℕ → ℕ → Buddies
halve h blk l =
    let buddy = blk + 2 ^ suc l * h.base_block_size / 2 in
    let h1 = push_free (fresh h buddy l) buddy in push_free (fresh h1 blk l) blk

-- `steps` levels down to the level `to`.
unfoldable pub split_down : ℕ → Buddies → ℕ → Buddies × ℕ
split_down zero h to = pop_free h to
split_down (suc steps) h to =
    let r = pop_free h (to + suc steps) in
    let rest = split_down steps (halve r.0 r.1 (to + steps)) to in
    if r.1 == 0 then (r.0, 0) else rest

-- `offset ^ block_size`.
unfoldable pub flip : ℕ → ℕ → ℕ
flip offset block_size = bit_xor offset block_size

unfoldable pub find_buddy : Buddies → ℕ → ℕ
find_buddy h blk =
    let size = 2 ^ h.level blk * h.base_block_size in
    let buddy_off = flip (blk - h.heap_base) size in
    if ltb h.usable_bytes (buddy_off + size) then 0 else h.heap_base + buddy_off

-- `*head = b->next` and what follows; the link is that of `before`, or of the list.
unfoldable pub unlink_free : Buddies → ℕ → ℕ → Buddies
unlink_free h before b =
    let n = h.next b in
    record h {
      free_lists = if before == 0 then update h.free_lists (h.level b) n else h.free_lists;
      next = update (if before == 0 then h.next else update h.next before n) b 0;
      prev = update (if n != 0 then update h.prev n (h.prev b) else h.prev) b 0;
    }

unfoldable pub remove_from : ℕ → Buddies → ℕ → ℕ → ℕ → Buddies
remove_from zero h before cur b = h
remove_from (suc fuel) h before cur b =
    let rest = remove_from fuel h cur (h.next cur) b in
    if cur == 0 then h else if cur == b then unlink_free h before b else rest

unfoldable pub remove_from_free_list : Buddies → ℕ → Buddies
remove_from_free_list h b = remove_from address_limit h 0 (h.free_lists (h.level b)) b

-- `!bud->is_free || bud->level != blk->level` does not hold, and there is a buddy.
unfoldable pub merges : Buddies → ℕ → ℕ → Bool
merges h blk bud = bud != 0 && h.is_free bud && h.level bud == h.level blk

-- The two become one block of the next level.
unfoldable pub merge_buddies : Buddies → ℕ → ℕ → Buddies × ℕ
merge_buddies h blk bud =
    let h1 = remove_from_free_list h bud in
    let b = if ltb bud blk then bud else blk in
    (
      record h1 { level = update h1.level b (h1.level b + 1); is_free = update h1.is_free b true },
      b,
    )

-- `coalesce` with the rounds that are left: a round raises the level, up to `max_level`.
unfoldable pub coalesce : ℕ → Buddies → ℕ → Buddies
coalesce zero h blk = push_free h blk
coalesce (suc rounds) h blk =
    let bud = find_buddy h blk in
    let r = merge_buddies h blk bud in
    let rest = coalesce rounds r.0 r.1 in
    if ltb (h.level blk) h.max_level
    then if merges h blk bud then rest else push_free h blk
    else push_free h blk

-- The first level from `l` on that has a free block, `levels` of them.
unfoldable pub level_from : ℕ → Buddies → ℕ → ℕ → Buddies × ℕ
level_from zero h l order = (h, 0)
level_from (suc levels) h l order =
    let rest = level_from levels h (l + 1) order in
    if h.free_lists l != 0 then split_down (l - order) h order else rest

unfoldable pub find_block : Buddies → ℕ → Buddies × ℕ
find_block h order =
    let r = pop_free h order in
    if r.1 == 0 then level_from (h.max_level - order) h (order + 1) order else r

unfoldable pub grant : Buddies → ℕ → ℕ → Buddies × ℕ
grant h blk order =
    let used = (h.used_bytes + (2 ^ order * h.base_block_size - hdr_size)) % 2 ^ 64 in
    (
      record h {
        is_free = update h.is_free blk false;
        used_bytes = if ltb h.capacity_bytes used then h.capacity_bytes else used;
      },
      blk + hdr_size,
    )

-- `mm_alloc` of an initialized heap.
unfoldable pub buddy_alloc : Buddies → ℕ → Buddies × ℕ
buddy_alloc h size =
    let order = order_for h.base_block_size ((align_up size + hdr_size) % 2 ^ 64) in
    let r = find_block h order in
    if size == 0
    then (h, 0)
    else if r.1 == 0
    then (record (r.0) { failed_allocations = (r.0.failed_allocations + 1) % 2 ^ 64 }, 0)
    else grant r.0 r.1 order

unfoldable pub count_release : Buddies → ℕ → Buddies
count_release h blk =
    let payload = 2 ^ h.level blk * h.base_block_size - hdr_size in
    record h {
      is_free = update h.is_free blk true;
      free_count = (h.free_count + 1) % 2 ^ 64;
      used_bytes = if leb payload h.used_bytes then h.used_bytes - payload else 0;
    }

unfoldable pub buddy_free : Buddies → ℕ → Buddies
buddy_free h ptr =
    let blk = (ptr + (2 ^ 64 - hdr_size)) % 2 ^ 64 in
    if ptr == 0 || not h.initialized
    then h
    else if blk == 0 || h.is_free blk
    then h
    else coalesce mm_max_levels (count_release h blk) blk
