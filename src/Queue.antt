-- ===== src/Queue.antt =====
-- Kernel/proc/process.c (and Kernel/include/process.h), the intrusive process queues: the link
-- fields `queue_next` and `queue_prev` of the processes, and a head, a tail and a size.
-- A queue pointer is never NULL in the kernel, so a queue is passed as a value.
pub mod Chain
pub mod Unlink
pub mod Detach
pub mod Push
use so_tp.Base.{
  ℕ, zero, suc, ◌+◌, ◌-◌, ◌*◌, Bool, true, false, ◌||◌, update, ◌==◌, ◌!=◌, if◌then◌else◌,
}

-- The two link fields of every process.
pub record Links : Type 0 where
  pub queue_next : ℕ → ℕ
  pub queue_prev : ℕ → ℕ

-- `process_queue_t`.
pub record ProcessQueue : Type 0 where
  pub head : ℕ
  pub tail : ℕ
  pub size : ℕ

-- A function that changes a queue returns the links and the queue.
abbrev pub Queued : Type 0
Queued = Links × ProcessQueue

-- The end of the heap, MM_DEFAULT_HEAP_LIMIT. Processes are allocated below it, so it bounds
-- their number too, and is the fuel of the walks along a queue.
unfoldable pub address_limit : ℕ
address_limit = 0x20000000

unfoldable pub process_queue_init : ProcessQueue
process_queue_init = record { head = 0; tail = 0; size = 0 }

-- The search loop of `detach_from_queue`, from `it` on.
unfoldable pub walk : ℕ → Links → ℕ → ℕ → Bool
walk zero l it p = false
walk (suc fuel) l it p =
    let rest = walk fuel l (l.queue_next it) p in
    if it == 0 then false else if it == p then true else rest

-- `p->queue_prev->queue_next = p->queue_next`, or the new head.
unlink_before : Links → ProcessQueue → ℕ → Queued
unlink_before l q p =
    if l.queue_prev p != 0
    then (record l { queue_next = update l.queue_next (l.queue_prev p) (l.queue_next p) }, q)
    else (l, record q { head = l.queue_next p })

-- `p->queue_next->queue_prev = p->queue_prev`, or the new tail.
unlink_after : Links → ProcessQueue → ℕ → Queued
unlink_after l q p =
    if l.queue_next p != 0
    then (record l { queue_prev = update l.queue_prev (l.queue_next p) (l.queue_prev p) }, q)
    else (l, record q { tail = l.queue_prev p })

-- The end of `detach_from_queue`: the size, and the links of `p`.
clear_links : Links → ProcessQueue → ℕ → Queued
clear_links l q p = (
  record { queue_next = update l.queue_next p 0; queue_prev = update l.queue_prev p 0 },
  record q { size = if q.size != 0 then q.size - 1 else q.size },
)

pub unlink : Links → ProcessQueue → ℕ → Queued
unfolding unlink_before unlink_after clear_links
unlink l q p =
    let (l1, q1) = unlink_before l q p in let (l2, q2) = unlink_after l1 q1 p in clear_links l2 q2 p

unfoldable pub detach_from_queue : Links → ProcessQueue → ℕ → Queued
unfolding unlink
detach_from_queue l q p =
    if p == 0 then (l, q) else if walk address_limit l q.head p then unlink l q p else (l, q)

unfoldable pub process_queue_remove : Links → ProcessQueue → ℕ → Queued
process_queue_remove l q p = detach_from_queue l q p

-- The end of `process_queue_push`, for a `p` that is in no queue.
pub append_link : Links → ProcessQueue → ℕ → Queued
append_link l q p =
    if q.head == 0
    then (
      record { queue_next = update l.queue_next p 0; queue_prev = update l.queue_prev p 0 },
      record { head = p; tail = p; size = 1 },
    )
    else (
      record {
        queue_next = update (update l.queue_next p 0) q.tail p;
        queue_prev = update l.queue_prev p q.tail;
      },
      record q { tail = p; size = q.size + 1 },
    )

unfoldable pub process_queue_push : Links → ProcessQueue → ℕ → Queued
unfolding append_link
process_queue_push l q p =
    let linked = l.queue_next p != 0 || l.queue_prev p != 0 || q.head == p in
    let (l', q') = if linked then detach_from_queue l q p else (l, q) in
    if p == 0 then (l, q) else append_link l' q' p

unfoldable pub process_queue_pop : Links → ProcessQueue → Links × ProcessQueue × ℕ
process_queue_pop l q =
    if q.head == 0
    then (l, q, 0)
    else let (l', q') = detach_from_queue l q q.head in (l', q', q.head)

unfoldable pub process_queue_is_empty : ProcessQueue → Bool
process_queue_is_empty q = q.head == 0
