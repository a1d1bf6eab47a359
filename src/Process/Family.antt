-- ===== src/Process/Family.antt =====
-- Kernel/proc/process.c: the children of a process, a list linked both ways by the sibling fields.
use so_tp.Base.{
  ℕ, ◌≡◌, ◌≢◌, refl, sym, ◌∙◌, ap, subst, inl, inr, true, List, [], ◌∷◌, arith, All, elem, erase,
  NotIn, Distinct, All-erase, NotIn-erase_self, All-elem, Distinct-erase, ◌==◌, ◌!=◌, ◌&&◌,
  if◌then◌else◌, update_self, eq→==, ne→==, eq-cases,
}
use so_tp.Queue.{Links, process_queue_init, unlink}
use so_tp.Queue.Chain.{Chain, first, NotIn-zero}
use so_tp.Queue.Unlink.{queue_next-unlink, queue_prev-unlink, Chain-agree, Chain-unlink}
use so_tp.Queue.Detach.{head_erase, prev-ne_zero}
use so_tp.State.{Processes}
use so_tp.Process.{attach_child, detach_child}

abbrev pub siblings : Processes → Links
siblings c = record { queue_next = c.next_sibling; queue_prev = c.prev_sibling }

-- The children of `up`, the youngest first.
pub record Children (c : Processes) (up : ℕ) (xs : List ℕ) : Type 0 where
  pub chain : Chain (siblings c) 0 xs
  pub first_is : c.first_child up ≡ first xs
  pub distinct : Distinct xs
  pub parents : All (λ x. c.parent x ≡ up) xs

attach_links :
    (c : Processes) (up p y x : ℕ)
    → up ≢ 0
    → c.first_child up ≡ y
    → p ≢ x
    → x ≢ y
    → ((attach_child c up p).next_sibling x ≡ c.next_sibling x)
      × ((attach_child c up p).prev_sibling x ≡ c.prev_sibling x)
unfolding attach_child
attach_links c up p y x u e n m = ground (arith, e)

attach_agree :
    (c : Processes) (up p y : ℕ) (xs : List ℕ)
    → up ≢ 0
    → c.first_child up ≡ y
    → NotIn p xs
    → NotIn y xs
    → All
        (λ x.
          ((siblings (attach_child c up p)).queue_next x ≡ (siblings c).queue_next x)
          × ((siblings (attach_child c up p)).queue_prev x ≡ (siblings c).queue_prev x))
        xs
attach_agree c up p y [] u e n m = tt
attach_agree c up p y (x ∷ xs) u e n m =
    (attach_links c up p y x u e (λ h. n.0 (sym h)) m.0, attach_agree c up p y xs u e n.1 m.1)

-- The first child is linked back to the new one.
attach_first :
    (c : Processes) (up p y : ℕ)
    → up ≢ 0
    → c.first_child up ≡ y
    → y ≢ 0
    → p ≢ y
    → ((attach_child c up p).next_sibling y ≡ c.next_sibling y)
      × ((attach_child c up p).prev_sibling y ≡ p)
unfolding attach_child
attach_first c up p y u e z n = ground (arith, e)

attach_new :
    (c : Processes) (up p : ℕ)
    → up ≢ 0
    → c.first_child up ≢ p
    → ((attach_child c up p).next_sibling p ≡ c.first_child up)
      × ((attach_child c up p).prev_sibling p ≡ c.prev_sibling p)
      × ((attach_child c up p).first_child up ≡ p)
      × ((attach_child c up p).parent p ≡ up)
unfolding attach_child
attach_new c up p u n = ground arith

detach_next :
    (c : Processes) (p x : ℕ)
    → c.parent p ≢ 0
    → (detach_child c p).next_sibling x ≡ (
        if p == x
        then 0
        else if c.prev_sibling p != 0 && c.prev_sibling p == x
        then c.next_sibling p
        else c.next_sibling x)
unfolding detach_child
detach_next c p x u = ground (arith, u)

detach_prev :
    (c : Processes) (p x : ℕ)
    → c.parent p ≢ 0
    → (detach_child c p).prev_sibling x ≡ (
        if p == x
        then 0
        else if c.next_sibling p != 0 && c.next_sibling p == x
        then c.prev_sibling p
        else c.prev_sibling x)
unfolding detach_child
detach_prev c p x u = ground (arith, u)

detach_agree :
    (c : Processes) (p : ℕ) (xs : List ℕ)
    → c.parent p ≢ 0
    → All
        (λ x.
          ((siblings (detach_child c p)).queue_next x
            ≡ (unlink (siblings c) process_queue_init p).0.queue_next x)
          × ((siblings (detach_child c p)).queue_prev x
              ≡ (unlink (siblings c) process_queue_init p).0.queue_prev x))
        xs
detach_agree c p [] u = tt
detach_agree c p (x ∷ xs) u = (
  (
    detach_next c p x u ∙ sym (queue_next-unlink (siblings c) process_queue_init p x),
    detach_prev c p x u ∙ sym (queue_prev-unlink (siblings c) process_queue_init p x),
  ),
  detach_agree c p xs u,
)

-- The child that is linked back to none is the first one.
no_prev_first :
    (c : Processes) (p : ℕ) (xs : List ℕ)
    → Chain (siblings c) 0 xs
    → elem p xs ≡ true
    → c.prev_sibling p ≡ 0
    → first xs ≡ p
no_prev_first c p [] h e z = absurd (ground arith)
no_prev_first c p (x ∷ xs) h e z = elim (eq-cases x p) [
  | inl same ↦ same
  | inr other ↦ absurd (prev-ne_zero (siblings c) x p xs h.3 h.0 (rw (ne→== x p other) at e) z)
]

detach_first :
    (c : Processes) (p : ℕ)
    → c.parent p ≢ 0
    → (c.prev_sibling p ≡ 0 → c.first_child (c.parent p) ≡ p)
    → (detach_child c p).first_child (c.parent p)
      ≡ (if c.prev_sibling p != 0 then c.first_child (c.parent p) else c.next_sibling p)
unfolding detach_child
detach_first c p u h = elim (eq-cases (c.prev_sibling p) 0) [
  | inl z ↦
      rw
        (
          ne→== (c.parent p) 0 u,
          eq→== (c.prev_sibling p) 0 z,
          eq→== (c.first_child (c.parent p)) p (h z),
        )
        (update_self c.first_child (c.parent p) _)
  | inr n ↦ rw (ne→== (c.parent p) 0 u, ne→== (c.prev_sibling p) 0 n) refl
]

detach_parent : (c : Processes) (p x : ℕ) → p ≢ x → (detach_child c p).parent x ≡ c.parent x
unfolding detach_child
detach_parent c p x n = ground arith

parents_kept :
    (c : Processes) (p up : ℕ) (xs : List ℕ)
    → NotIn p xs
    → All (λ x. c.parent x ≡ up) xs
    → All (λ x. (detach_child c p).parent x ≡ up) xs
parents_kept c p up [] n a = tt
parents_kept c p up (x ∷ xs) n a =
    (detach_parent c p x (λ e. n.0 (sym e)) ∙ a.0, parents_kept c p up xs n.1 a.1)

-- Taking a process out of its family leaves its parent the other children, in their order.
pub detach_child-Children :
    (c : Processes) (up p : ℕ) (xs : List ℕ)
    → Children c up xs
    → elem p xs ≡ true
    → up ≢ 0
    → Children (detach_child c p) up (erase p xs)
detach_child-Children c up p xs h e u =
    let is = All-elem (λ x. c.parent x ≡ up) p xs h.parents e in
    let v : c.parent p ≢ 0 = λ z. u (sym is ∙ z) in
    record {
      chain =
          Chain-agree (unlink (siblings c) process_queue_init p).0 (siblings (detach_child c p)) 0
            (erase p xs)
            (Chain-unlink (siblings c) process_queue_init p 0 xs h.chain h.distinct
              (NotIn-zero (siblings c) 0 xs h.chain) e)
            (detach_agree c p (erase p xs) v);
      first_is =
          subst (λ k. (detach_child c p).first_child k ≡ first (erase p xs)) is
            (detach_first c p v
                (λ z. ap c.first_child is ∙ (h.first_is ∙ no_prev_first c p xs h.chain e z))
              ∙ rw (is, h.first_is) (head_erase (siblings c) p xs h.chain e));
      distinct = Distinct-erase p xs h.distinct;
      parents =
          parents_kept c p up (erase p xs) (NotIn-erase_self p xs h.distinct)
            (All-erase (λ x. c.parent x ≡ up) p xs h.parents);
    }

parent_kept : (c : Processes) (up p x : ℕ) → p ≢ x → (attach_child c up p).parent x ≡ c.parent x
unfolding attach_child
parent_kept c up p x n = ground arith

attach_parents :
    (c : Processes) (up p : ℕ) (xs : List ℕ)
    → up ≢ 0
    → NotIn p xs
    → All (λ x. c.parent x ≡ up) xs
    → All (λ x. (attach_child c up p).parent x ≡ up) xs
attach_parents c up p [] u n a = tt
attach_parents c up p (x ∷ xs) u n a =
    (parent_kept c up p x (λ e. n.0 (sym e)) ∙ a.0, attach_parents c up p xs u n.1 a.1)

first-ne : (p : ℕ) (xs : List ℕ) → p ≢ 0 → NotIn p xs → first xs ≢ p
first-ne p [] z n = λ e. z (sym e)
first-ne p (x ∷ xs) z n = n.0

attach_tail :
    (c : Processes) (up p : ℕ) (xs : List ℕ)
    → up ≢ 0
    → p ≢ 0
    → NotIn p xs
    → Distinct xs
    → c.first_child up ≡ first xs
    → Chain (siblings c) 0 xs
    → Chain (siblings (attach_child c up p)) p xs
attach_tail c up p [] u z n d e h = tt
attach_tail c up p (x ∷ xs) u z n d e h =
    let a = attach_first c up p x u e h.0 (λ q. n.0 (sym q)) in
    (
      h.0,
      a.1,
      (a.0 ∙ h.2),
      Chain-agree (siblings c) (siblings (attach_child c up p)) x xs h.3
          (attach_agree c up p x xs u e n.1 d.0),
    )

-- A new process becomes the first child of its parent, before the children that were there.
pub attach_child-Children :
    (c : Processes) (up p : ℕ) (xs : List ℕ)
    → Children c up xs
    → NotIn p xs
    → p ≢ 0
    → up ≢ 0
    → c.prev_sibling p ≡ 0
    → Children (attach_child c up p) up (p ∷ xs)
attach_child-Children c up p xs h n z u q =
    let a = attach_new c up p u (λ e. first-ne p xs z n (sym h.first_is ∙ e)) in
    record {
      chain = (
        z,
        (a.1 ∙ q),
        (a.0 ∙ h.first_is),
        attach_tail c up p xs u z n h.distinct h.first_is h.chain,
      );
      first_is = a.2;
      distinct = (n, h.distinct);
      parents = (a.3, attach_parents c up p xs u n h.parents);
    }
