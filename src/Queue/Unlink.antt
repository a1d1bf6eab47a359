-- ===== src/Queue/Unlink.antt =====
-- Kernel/proc/process.c, `detach_from_queue` after its search: what the link writes do to the
-- chain of the queue, and to the chain of another queue.
use so_tp.Base.{
  ℕ, ◌≡◌, ◌≢◌, true, ◌&&◌, List, [], ◌∷◌, arith, All, elem, erase, NotIn, Distinct, ◌==◌, ◌!=◌,
  if◌then◌else◌, inl, inr, eq-cases, eq→==, ne→==, subst, sym, ◌∙◌,
}
use so_tp.Queue.{Links, ProcessQueue, unlink}
use so_tp.Queue.Chain.{Chain, first, prev-ne, next-ne}

pub queue_next-unlink :
    (l : Links) (q : ProcessQueue) (p x : ℕ)
    → (unlink l q p).0.queue_next x ≡ (
        if p == x
        then 0
        else if l.queue_prev p != 0 && l.queue_prev p == x
        then l.queue_next p
        else l.queue_next x)
unfolding unlink
queue_next-unlink l q p x = ground arith

pub queue_prev-unlink :
    (l : Links) (q : ProcessQueue) (p x : ℕ)
    → (unlink l q p).0.queue_prev x ≡ (
        if p == x
        then 0
        else if l.queue_next p != 0 && l.queue_next p == x
        then l.queue_prev p
        else l.queue_prev x)
unfolding unlink
queue_prev-unlink l q p x = ground arith

-- Fields that agree on the processes of a chain leave it a chain.
pub Chain-agree :
    (l l' : Links) (before : ℕ) (xs : List ℕ)
    → Chain l before xs
    → All (λ x. (l'.queue_next x ≡ l.queue_next x) × (l'.queue_prev x ≡ l.queue_prev x)) xs
    → Chain l' before xs
Chain-agree l l' before [] c a = tt
Chain-agree l l' before (x ∷ xs) c a = ground (arith, Chain-agree l l' x xs c.3 a.1)

-- The processes of a list that are neither `p` nor a neighbour of it keep their links.
pub unlink_agree :
    (l : Links) (q : ProcessQueue) (p : ℕ) (xs : List ℕ)
    → NotIn p xs
    → NotIn (l.queue_prev p) xs
    → NotIn (l.queue_next p) xs
    → All
        (λ x.
          ((unlink l q p).0.queue_next x ≡ l.queue_next x)
          × ((unlink l q p).0.queue_prev x ≡ l.queue_prev x))
        xs
unlink_agree l q p [] h k m = tt
unlink_agree l q p (x ∷ xs) h k m = (
  (ground (arith, queue_next-unlink l q p x), ground (arith, queue_prev-unlink l q p x)),
  unlink_agree l q p xs h.1 k.1 m.1,
)

-- Unlinking the first process of a chain.
Chain-unlink_first :
    (l : Links) (q : ProcessQueue) (p before : ℕ) (xs : List ℕ)
    → Chain l before (p ∷ xs)
    → Distinct (p ∷ xs)
    → NotIn before xs
    → Chain (unlink l q p).0 before xs
Chain-unlink_first l q p before [] c d n = tt
Chain-unlink_first l q p before (y ∷ r) c d n = (
  c.3.0,
  ground (arith, queue_prev-unlink l q p y),
  ground (arith, queue_next-unlink l q p y),
  Chain-agree l _ y r c.3.3 (unlink_agree l q p r d.0.1 (rw c.1 n.1) (rw c.2 d.1.0)),
)

linked_test : (v x a b : ℕ) → v ≡ x → x ≢ 0 → (if v != 0 && v == x then a else b) ≡ a
linked_test v x a b h k = ground arith

unlinked_test : (v x a b : ℕ) → v ≢ x → (if v != 0 && v == x then a else b) ≡ b
unlinked_test v x a b h = ground arith

elem_tail : (p x : ℕ) (xs : List ℕ) → x ≢ p → elem p (x ∷ xs) ≡ true → elem p xs ≡ true
elem_tail p x xs h e = rw (ne→== x p h) at e

-- What the process before a chain is linked to, once `p` is unlinked from the chain.
first-erase :
    (l : Links) (p x : ℕ) (xs : List ℕ)
    → x ≢ 0
    → Chain l x xs
    → NotIn x xs
    → elem p xs ≡ true
    → (if l.queue_prev p != 0 && l.queue_prev p == x then l.queue_next p else first xs)
      ≡ first (erase p xs)
first-erase l p x [] nz c n e = absurd (ground arith)
first-erase l p x (y ∷ r) nz c n e = elim (eq-cases y p) [
  | inl same ↦ rw (eq→== y p same) (
      linked_test _ _ _ _ (subst (λ z. l.queue_prev z ≡ x) same c.1) nz
      ∙ subst (λ z. l.queue_next z ≡ first r) same c.2)
  | inr other ↦
      rw (ne→== y p other)
        (unlinked_test _ _ _ _ (prev-ne l y p x r c.3 (elem_tail p y r other e) n.0 n.1))
]

pub Chain-unlink :
    (l : Links) (q : ProcessQueue) (p before : ℕ) (xs : List ℕ)
    → Chain l before xs
    → Distinct xs
    → NotIn before xs
    → elem p xs ≡ true
    → Chain (unlink l q p).0 before (erase p xs)
Chain-unlink l q p before [] c d n e = absurd (ground arith)
Chain-unlink l q p before (x ∷ xs) c d n e = elim (eq-cases x p) [
  | inl same ↦ rw (eq→== x p same) (
      Chain-unlink_first l q p before xs (subst (λ z. Chain l before (z ∷ xs)) same c)
        (subst (λ z. Distinct (z ∷ xs)) same d) n.1)
  | inr other ↦ rw (ne→== x p other) (
    c.0,
    ((queue_prev-unlink l q p x
          ∙ rw (ne→== p x (λ e'. other (sym e')))
              (unlinked_test _ _ _ _ (next-ne l x p x xs c.3 (elem_tail p x xs other e) c.0 d.0)))
        ∙ c.1),
    ((queue_next-unlink l q p x
        ∙ rw (ne→== p x (λ e'. other (sym e')), c.2)
            (first-erase l p x xs c.0 c.3 d.0 (elem_tail p x xs other e)))),
    Chain-unlink l q p x xs c.3 d.1 d.0 (elem_tail p x xs other e),
  )
]
