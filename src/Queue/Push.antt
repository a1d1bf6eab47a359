-- ===== src/Queue/Push.antt =====
-- Kernel/proc/process.c: `process_queue_push` on a queue that holds a list, and on the others.
use so_tp.Base.{
  ℕ, ◌<◌, ◌≡◌, ◌≢◌, refl, sym, ◌∙◌, inl, inr, Bool, false, ◌||◌, List, [], ◌∷◌, ◌++◌, arith, elem,
  erase, NotIn, Distinct, NotIn-erase_self, length-append, Distinct-append_one, All-append_one,
  update, NotIn-erase, subst, update_self, update_ne, ◌==◌, ◌!=◌, eq→==, ne→==, Bool-cases,
}
use so_tp.Queue.{
  Links, ProcessQueue, append_link, detach_from_queue, process_queue_push, address_limit,
}
use so_tp.Queue.Chain.{Chain, Holds, Holds-Chain, Apart, last_or}
use so_tp.Queue.Detach.{detach_absent, detach-Holds, detach-Holds_other, prev-ne_zero}

-- The links that `append_link` leaves behind a nonempty queue with the tail `t`.
abbrev linked_after : Links → ℕ → ℕ → Links
linked_after l t p = record {
  queue_next = update (update l.queue_next p 0) t p;
  queue_prev = update l.queue_prev p t;
}

pub last_or-ne : (x y : ℕ) (xs : List ℕ) → NotIn x (y ∷ xs) → last_or y xs ≢ x
last_or-ne x y [] n = n.0
last_or-ne x y (z ∷ xs) n = last_or-ne x z xs n.1

pub last_or-append : (d p : ℕ) (xs : List ℕ) → last_or d (xs ++ p ∷ []) ≡ p
last_or-append d p [] = refl
last_or-append d p (x ∷ xs) = last_or-append x p xs

Chain-append :
    (l : Links) (before p t x : ℕ) (xs : List ℕ)
    → t ≡ last_or x xs
    → Chain l before (x ∷ xs)
    → Distinct (x ∷ xs)
    → NotIn p (x ∷ xs)
    → p ≢ 0
    → Chain (linked_after l t p) before (x ∷ xs ++ p ∷ [])
Chain-append l before p t x [] e c d n z = (
  c.0,
  (update_ne l.queue_prev p x t (λ e'. n.0 (sym e')) ∙ c.1),
  ground arith,
  (z, (update_self l.queue_prev p t ∙ e), ground arith, tt),
)
Chain-append l before p t x (y ∷ xs) e c d n z = (
  c.0,
  (update_ne l.queue_prev p x t (λ e'. n.0 (sym e')) ∙ c.1),
  ((update_ne (update l.queue_next p 0) t x p (λ e'. last_or-ne x y xs d.0 (sym e ∙ e'))
        ∙ update_ne l.queue_next p x 0 (λ e'. n.0 (sym e')))
      ∙ c.2),
  Chain-append l x p t y xs e c.3 d.1 n.1 z,
)

append-Holds :
    {l : Links} {q : ProcessQueue} {xs : List ℕ} (p : ℕ)
    → Holds l q xs
    → NotIn p xs
    → p ≢ 0
    → p < address_limit
    → Holds (append_link l q p).0 (append_link l q p).1 (xs ++ p ∷ [])
unfolding append_link
append-Holds {l} {q} {xs = []} p h n z b = rw (eq→== q.head 0 h.head_first) (record {
  chain = (z, update_self l.queue_prev p 0, update_self l.queue_next p 0, tt);
  head_first = refl;
  tail_last = refl;
  size_length = refl;
  distinct = (tt, tt);
  addresses = (b, tt);
})
append-Holds {l} {q} {xs = x ∷ xs} p h n z b =
    rw (ne→== q.head 0 (λ e. h.chain.0 (sym h.head_first ∙ e))) (record {
      chain = Chain-append l 0 p q.tail x xs h.tail_last h.chain h.distinct n z;
      head_first = h.head_first;
      tail_last = sym (last_or-append x p xs);
      size_length = omega (arith, h.size_length, length-append (x ∷ xs) (p ∷ []));
      distinct = Distinct-append_one (x ∷ xs) p h.distinct n;
      addresses = All-append_one (λ y. y < address_limit) (x ∷ xs) p h.addresses b;
    })

-- A process that is linked to nothing and is not at the head is not in the queue.
unlinked-absent :
    {l : Links} {q : ProcessQueue} (xs : List ℕ) (p : ℕ)
    → Holds l q xs
    → l.queue_prev p ≡ 0
    → q.head ≢ p
    → elem p xs ≡ false
unlinked-absent [] p h e n = refl
unlinked-absent {l} {q} (x ∷ xs) p h e n =
    rw (ne→== x p (λ e'. n (h.head_first ∙ e'))) (elim (Bool-cases (elem p xs)) [
      | inl i ↦ absurd (prev-ne_zero l x p xs h.chain.3 h.chain.0 i e)
      | inr i ↦ i
    ])

-- A push detaches the process first, whether or not the test for its links sends it there.
push-detach :
    {l : Links} {q : ProcessQueue} {xs : List ℕ} (p : ℕ)
    → Holds l q xs
    → p ≢ 0
    → process_queue_push l q p
      ≡ append_link (detach_from_queue l q p).0 (detach_from_queue l q p).1 p
unfolding process_queue_push
push-detach {l} {q} {xs} p h z = elim (Bool-cases linked) [
  | inl e ↦ rw (e, ne→== p 0 z)
  | inr e ↦
      rw (e, ne→== p 0 z, detach_absent p h (unlinked-absent xs p h (ground arith) (ground arith)))
]
  where
    linked : Bool
    linked = l.queue_next p != 0 || l.queue_prev p != 0 || q.head == p

-- Pushing a process puts it at the end of the queue, out of the place where it stood if it was in
-- the queue already, and keeps the order of the others.
pub push-Holds :
    {l : Links} {q : ProcessQueue} {xs : List ℕ} (p : ℕ)
    → Holds l q xs
    → p ≢ 0
    → p < address_limit
    → let (l', q') = process_queue_push l q p in Holds l' q' (erase p xs ++ p ∷ [])
push-Holds {xs} p h z b =
    rw (push-detach p h z)
      (append-Holds p (detach-Holds p h) (NotIn-erase_self p xs h.distinct) z b)

Apart-erase : (p : ℕ) (xs ys : List ℕ) → Apart xs ys → Apart (erase p xs) ys
Apart-erase p xs [] a = tt
Apart-erase p xs (y ∷ ys) a = (NotIn-erase y p xs a.0, Apart-erase p xs ys a.1)

last_or-NotIn : (x : ℕ) (xs ys : List ℕ) → Apart (x ∷ xs) ys → NotIn (last_or x xs) ys
last_or-NotIn x xs [] a = tt
last_or-NotIn x xs (y ∷ ys) a = ((λ e. last_or-ne y x xs a.0 (sym e)), last_or-NotIn x xs ys a.1)

-- A chain without `p` and `t` does not see `p` linked after `t`.
Chain-linked_after :
    (l : Links) (t p before : ℕ) (ys : List ℕ)
    → NotIn p ys
    → NotIn t ys
    → Chain l before ys
    → Chain (linked_after l t p) before ys
Chain-linked_after l t p before [] n m c = tt
Chain-linked_after l t p before (y ∷ ys) n m c = (
  c.0,
  (update_ne l.queue_prev p y t (λ e. n.0 (sym e)) ∙ c.1),
  ((update_ne (update l.queue_next p 0) t y p (λ e. m.0 (sym e))
        ∙ update_ne l.queue_next p y 0 (λ e. n.0 (sym e)))
      ∙ c.2),
  Chain-linked_after l t p y ys n.1 m.1 c.3,
)

Chain-cleared :
    (l : Links) (p before : ℕ) (ys : List ℕ)
    → NotIn p ys
    → Chain l before ys
    → Chain
        (record { queue_next = update l.queue_next p 0; queue_prev = update l.queue_prev p 0 })
        before
        ys
Chain-cleared l p before [] n c = tt
Chain-cleared l p before (y ∷ ys) n c = (
  c.0,
  (update_ne l.queue_prev p y 0 (λ e. n.0 (sym e)) ∙ c.1),
  (update_ne l.queue_next p y 0 (λ e. n.0 (sym e)) ∙ c.2),
  Chain-cleared l p y ys n.1 c.3,
)

append-Chain_other :
    {l : Links} {q : ProcessQueue} (xs ys : List ℕ) (p : ℕ)
    → Holds l q xs
    → Chain l 0 ys
    → Apart xs ys
    → NotIn p ys
    → Chain (append_link l q p).0 0 ys
unfolding append_link
append-Chain_other {l} {q} [] ys p h c a n =
    rw (eq→== q.head 0 h.head_first) (Chain-cleared l p 0 ys n c)
append-Chain_other {l} {q} (x ∷ xs) ys p h c a n =
    rw (ne→== q.head 0 (λ e. h.chain.0 (sym h.head_first ∙ e))) (
      Chain-linked_after l q.tail p 0 ys n
        (subst (λ t. NotIn t ys) (sym h.tail_last) (last_or-NotIn x xs ys a)) c)

-- It leaves every queue that shares no process with that one and does not hold the process.
pub push-Holds_other :
    {l : Links} {q q' : ProcessQueue} {xs ys : List ℕ} (p : ℕ)
    → Holds l q xs
    → Holds l q' ys
    → Apart xs ys
    → NotIn p ys
    → p ≢ 0
    → Holds (process_queue_push l q p).0 q' ys
push-Holds_other {xs} {ys} p h k a n z = rw (push-detach p h z) (
    Holds-Chain (detach-Holds_other p h k a) (
      append-Chain_other (erase p xs) ys p (detach-Holds p h) (detach-Holds_other p h k a).chain
        (Apart-erase p xs ys a) n))
