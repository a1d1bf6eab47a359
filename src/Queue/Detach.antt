-- ===== src/Queue/Detach.antt =====
-- Kernel/proc/process.c: `detach_from_queue`, `process_queue_remove` and `process_queue_pop` on a
-- queue that holds a list, and on the other queues.
use so_tp.Base.{
  ℕ, ◌-◌, ◌<◌, ◌≡◌, ◌≢◌, refl, sym, subst, ◌∙◌, inl, inr, true, false, List, [], ◌∷◌, arith, elem,
  erase, NotIn, Distinct-erase, length-erase, elem-ne, All-erase, ◌!=◌, if◌then◌else◌, eq-cases,
  eq→==, ne→==, Bool-cases,
}
use so_tp.Queue.{
  Links, ProcessQueue, unlink, detach_from_queue, process_queue_pop, process_queue_remove,
  address_limit,
}
use so_tp.Queue.Chain.{
  Chain, Holds, Holds-Chain, Apart, first, tail_of, last_or, walk-elem, elem-ne_zero, NotIn-zero,
  prev-ne, next-ne,
}
use so_tp.Queue.Unlink.{
  Chain-unlink, Chain-agree, unlink_agree, queue_next-unlink, queue_prev-unlink,
}

head-unlink :
    (l : Links) (q : ProcessQueue) (p : ℕ)
    → (unlink l q p).1.head ≡ (if l.queue_prev p != 0 then q.head else l.queue_next p)
unfolding unlink
head-unlink l q p = ground arith

tail-unlink :
    (l : Links) (q : ProcessQueue) (p : ℕ)
    → (unlink l q p).1.tail ≡ (if l.queue_next p != 0 then q.tail else l.queue_prev p)
unfolding unlink
tail-unlink l q p = ground arith

size-unlink :
    (l : Links) (q : ProcessQueue) (p : ℕ)
    → (unlink l q p).1.size ≡ (if q.size != 0 then q.size - 1 else q.size)
unfolding unlink
size-unlink l q p = ground arith

-- A process that is not the first is linked back to one.
pub prev-ne_zero :
    (l : Links) (before p : ℕ) (xs : List ℕ)
    → Chain l before xs
    → before ≢ 0
    → elem p xs ≡ true
    → l.queue_prev p ≢ 0
prev-ne_zero l before p [] c b e = absurd (ground arith)
prev-ne_zero l before p (x ∷ xs) c b e = elim (eq-cases x p) [
  | inl same ↦ subst (λ z. l.queue_prev z ≢ 0) same (rw c.1 b)
  | inr other ↦ prev-ne_zero l x p xs c.3 c.0 (rw (ne→== x p other) at e)
]

pub head_erase :
    (l : Links) (p : ℕ) (xs : List ℕ)
    → Chain l 0 xs
    → elem p xs ≡ true
    → (if l.queue_prev p != 0 then first xs else l.queue_next p) ≡ first (erase p xs)
head_erase l p [] c e = absurd (ground arith)
head_erase l p (x ∷ xs) c e = elim (eq-cases x p) [
  | inl same ↦
      rw (eq→== x p same, subst (λ z. l.queue_prev z ≡ 0) same c.1)
        (subst (λ z. l.queue_next z ≡ first xs) same c.2)
  | inr other ↦ rw (
    ne→== x p other,
    ne→== (l.queue_prev p) 0 (prev-ne_zero l x p xs c.3 c.0 (rw (ne→== x p other) at e)),
  )
]

tail_erase :
    (l : Links) (before p : ℕ) (xs : List ℕ)
    → Chain l before xs
    → elem p xs ≡ true
    → (if l.queue_next p != 0 then last_or before xs else l.queue_prev p)
      ≡ last_or before (erase p xs)
tail_erase l before p [] c e = absurd (ground arith)
tail_erase l before p (x ∷ []) c e = ground arith
tail_erase l before p (x ∷ y ∷ r) c e = elim (eq-cases x p) [
  | inl same ↦ rw (eq→== x p same, subst (λ z. l.queue_next z ≡ y) same c.2, ne→== y 0 c.3.0)
  | inr other ↦ rw (ne→== x p other) (tail_erase l x p (y ∷ r) c.3 (rw (ne→== x p other) at e))
]

pub erase_absent : (p : ℕ) (xs : List ℕ) → elem p xs ≡ false → erase p xs ≡ xs
erase_absent p [] e = refl
erase_absent p (x ∷ xs) e = ground (arith, erase_absent p xs)

pub NotIn-Apart : (p : ℕ) (xs ys : List ℕ) → Apart xs ys → elem p xs ≡ true → NotIn p ys
NotIn-Apart p xs [] a e = tt
NotIn-Apart p xs (y ∷ ys) a e = (elem-ne p y xs e a.0, NotIn-Apart p xs ys a.1 e)

prev_NotIn :
    (l : Links) (p : ℕ) (xs ys : List ℕ)
    → Chain l 0 xs
    → elem p xs ≡ true
    → Apart xs ys
    → NotIn 0 ys
    → NotIn (l.queue_prev p) ys
prev_NotIn l p xs [] c e a n = tt
prev_NotIn l p xs (y ∷ ys) c e a n = (
  (λ eq. prev-ne l 0 p y xs c e (λ z. n.0 (sym z)) a.0 (sym eq)),
  prev_NotIn l p xs ys c e a.1 n.1,
)

next_NotIn :
    (l : Links) (p : ℕ) (xs ys : List ℕ)
    → Chain l 0 xs
    → elem p xs ≡ true
    → Apart xs ys
    → NotIn 0 ys
    → NotIn (l.queue_next p) ys
next_NotIn l p xs [] c e a n = tt
next_NotIn l p xs (y ∷ ys) c e a n =
    ((λ eq. next-ne l 0 p y xs c e n.0 a.0 (sym eq)), next_NotIn l p xs ys c e a.1 n.1)

erase_first : (x : ℕ) (xs : List ℕ) → erase x (x ∷ xs) ≡ xs
erase_first x xs = rw (eq→== x x refl)

unlink-Holds :
    {l : Links} {q : ProcessQueue} {xs : List ℕ} (p : ℕ)
    → Holds l q xs
    → elem p xs ≡ true
    → Holds (unlink l q p).0 (unlink l q p).1 (erase p xs)
unlink-Holds {l} {q} {xs} p h e = record {
  chain = Chain-unlink l q p 0 xs h.chain h.distinct (NotIn-zero l 0 xs h.chain) e;
  head_first = head-unlink l q p ∙ rw h.head_first (head_erase l p xs h.chain e);
  tail_last = tail-unlink l q p ∙ rw h.tail_last (tail_erase l 0 p xs h.chain e);
  size_length = size-unlink l q p ∙ rw h.size_length (ground (arith, length-erase p xs e));
  distinct = Distinct-erase p xs h.distinct;
  addresses = All-erase (λ x. x < address_limit) p xs h.addresses;
}

-- Detaching a process that the queue does not hold changes nothing.
pub detach_absent :
    {l : Links} {q : ProcessQueue} {xs : List ℕ} (p : ℕ)
    → Holds l q xs
    → elem p xs ≡ false
    → detach_from_queue l q p ≡ (l, q)
unfolding detach_from_queue
detach_absent {l} {q} p h e = rw (walk-elem p h, e) (ground arith)

detach_present :
    {l : Links} {q : ProcessQueue} {xs : List ℕ} (p : ℕ)
    → Holds l q xs
    → elem p xs ≡ true
    → detach_from_queue l q p ≡ unlink l q p
unfolding detach_from_queue
detach_present {l} {q} {xs} p h e =
    rw (walk-elem p h, e, ne→== p 0 (elem-ne_zero l 0 p xs h.chain e))

-- Detaching `p` takes exactly `p` out of a queue, and leaves the order of the others.
pub detach-Holds :
    {l : Links} {q : ProcessQueue} {xs : List ℕ} (p : ℕ)
    → Holds l q xs
    → let (l', q') = detach_from_queue l q p in Holds l' q' (erase p xs)
detach-Holds {l} {q} {xs} p h = elim (Bool-cases (elem p xs)) [
  | inl e ↦ rw (detach_present p h e) (unlink-Holds p h e)
  | inr e ↦ rw (detach_absent p h e, erase_absent p xs e) h
]

-- It leaves every queue that shares no process with that one.
pub detach-Holds_other :
    {l : Links} {q q' : ProcessQueue} {xs ys : List ℕ} (p : ℕ)
    → Holds l q xs
    → Holds l q' ys
    → Apart xs ys
    → Holds (detach_from_queue l q p).0 q' ys
detach-Holds_other {l} {q} {q'} {xs} {ys} p h k a = elim (Bool-cases (elem p xs)) [
  | inr e ↦ rw (detach_absent p h e) k
  | inl e ↦ rw (detach_present p h e) (
      Holds-Chain k (
        Chain-agree l _ 0 ys k.chain (
          unlink_agree l q p ys (NotIn-Apart p xs ys a e)
            (prev_NotIn l p xs ys h.chain e a (NotIn-zero l 0 ys k.chain))
            (next_NotIn l p xs ys h.chain e a (NotIn-zero l 0 ys k.chain)))))
]

-- What is detached has no links left.
pub detach_cleared :
    {l : Links} {q : ProcessQueue} {xs : List ℕ} (p : ℕ)
    → Holds l q xs
    → elem p xs ≡ true
    → let l' = (detach_from_queue l q p).0 in (l'.queue_next p ≡ 0) × (l'.queue_prev p ≡ 0)
detach_cleared {l} {q} {xs} p h e = rw (detach_present p h e) (
  (queue_next-unlink l q p p ∙ rw (eq→== p p refl)),
  (queue_prev-unlink l q p p ∙ rw (eq→== p p refl)),
)

-- `process_queue_pop` answers the first process, or NULL if there is none, and leaves the rest.
pub pop-Holds :
    {l : Links} {q : ProcessQueue} {xs : List ℕ}
    → Holds l q xs
    → let (l', q', p) = process_queue_pop l q in (p ≡ first xs) × Holds l' q' (tail_of xs)
unfolding process_queue_pop
pop-Holds {l} {q} {xs = []} h = rw (eq→== q.head 0 h.head_first) (refl, h)
pop-Holds {l} {q} {xs = x ∷ xs} h = rw (ne→== q.head 0 (λ e. h.chain.0 (sym h.head_first ∙ e))) (
  h.head_first,
  subst (λ z. Holds (detach_from_queue l q z).0 (detach_from_queue l q z).1 xs) (sym h.head_first)
      (subst (Holds _ _) (erase_first x xs) (detach-Holds x h)),
)

-- `process_queue_remove` is the detachment.
pub remove-detach :
    (l : Links) (q : ProcessQueue) (p : ℕ) → process_queue_remove l q p ≡ detach_from_queue l q p
unfolding process_queue_remove
remove-detach l q p = refl

-- A pop leaves the other queues.
pub pop-Holds_other :
    {l : Links} {q q' : ProcessQueue} {xs ys : List ℕ}
    → Holds l q xs
    → Holds l q' ys
    → Apart xs ys
    → Holds (process_queue_pop l q).0 q' ys
unfolding process_queue_pop
pop-Holds_other {l} {q} {q'} {xs} {ys} h k a = elim (eq-cases q.head 0) [
  | inl e ↦ rw (eq→== q.head 0 e) k
  | inr n ↦ rw (ne→== q.head 0 n) (detach-Holds_other q.head h k a)
]
