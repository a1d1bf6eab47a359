-- ===== src/Tests/Queues.antt =====
-- The process queues at a queue of three processes.
use so_tp.Base.{ℕ, ◌<◌, refl, [], ◌∷◌, arith, update}
use so_tp.Queue.{Links, ProcessQueue, address_limit, detach_from_queue}
use so_tp.Queue.Chain.{Holds}
use so_tp.Queue.Detach.{detach-Holds}

abbrev none_linked : ℕ → ℕ
none_linked _ = 0

-- 16, 32 and 48 in one queue, 64 alone in another.
abbrev links : Links
links = record {
  queue_next = update (update none_linked 16 32) 32 48;
  queue_prev = update (update none_linked 32 16) 48 32;
}

abbrev three : ProcessQueue
three = record { head = 16; tail = 48; size = 3 }

abbrev one : ProcessQueue
one = record { head = 64; tail = 64; size = 1 }

three-Holds : Holds links three (16 ∷ 32 ∷ 48 ∷ [])
unfolding address_limit
three-Holds = record {
  chain = omega arith;
  head_first = refl;
  tail_last = refl;
  size_length = refl;
  distinct = omega arith;
  addresses = omega arith;
}

one-Holds : Holds links one (64 ∷ [])
unfolding address_limit
one-Holds = record {
  chain = omega arith;
  head_first = refl;
  tail_last = refl;
  size_length = refl;
  distinct = omega arith;
  addresses = omega arith;
}

below_limit : (n : ℕ) → n < 0x20000000 → n < address_limit
unfolding address_limit
below_limit n h = h

detach-Holds_example : let (l, q) = detach_from_queue links three 32 in Holds l q (16 ∷ 48 ∷ [])
detach-Holds_example = detach-Holds 32 three-Holds
