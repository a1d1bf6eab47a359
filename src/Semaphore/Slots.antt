-- ===== src/Semaphore/Slots.antt =====
-- Kernel/ipc/semaphore.c: the table of semaphores, looked up by id.
use so_tp.Base.{
  ℕ, zero, suc, ◌+◌, ◌^◌, ◌≡◌, ◌≢◌, ◌<◌, ◌≤◌, refl, sym, ◌∙◌, ap, subst, inl, inr, ◌⊎◌, true, false,
  arith, ◌&&◌, ◌==◌, some, update_ne, eq→==, ne→==, Bool-cases, eq-cases,
}
use so_tp.Semaphore.{
  SemaphoreTable, find_slot_from, find_slot_by_id, sem_get_by_id, alloc_slot, alloc_from, sem_alloc,
}

-- Slot `i` is the semaphore `id`.
abbrev pub IsSlot : SemaphoreTable → ℕ → ℕ → Type 0
IsSlot t id i = ((t.semaphores i).used ≡ true) × ((t.semaphores i).id ≡ id)

-- The ids that are in use are not 0, are below the next one, and name one slot each.
pub record IdsValid (t : SemaphoreTable) : Type 0 where
  pub next_pos : 0 < t.next_sem_id
  pub id_pos : (i : ℕ) → (t.semaphores i).used ≡ true → 0 < (t.semaphores i).id
  pub id_below : (i : ℕ) → (t.semaphores i).used ≡ true → (t.semaphores i).id < t.next_sem_id
  pub id_unique :
      (i j : ℕ)
      → (t.semaphores i).used ≡ true
      → (t.semaphores j).used ≡ true
      → (t.semaphores i).id ≡ (t.semaphores j).id
      → i ≡ j

find_here :
    (n i : ℕ) (t : SemaphoreTable) (id : ℕ) → IsSlot t id i → find_slot_from (suc n) i t id ≡ some i
unfolding find_slot_from
find_here n i t id h = rw (h.0, eq→== (t.semaphores i).id id h.1)

slot_test_false :
    (t : SemaphoreTable) (id i : ℕ)
    → (IsSlot t id i → ⊥)
    → ((t.semaphores i).used && (t.semaphores i).id == id) ≡ false
slot_test_false t id i h = elim (Bool-cases (t.semaphores i).used) [
  | inl u ↦ rw (u, ne→== (t.semaphores i).id id (λ e. h (u, e)))
  | inr u ↦ rw u
]

find_skip :
    (n i : ℕ) (t : SemaphoreTable) (id : ℕ)
    → (IsSlot t id i → ⊥)
    → find_slot_from (suc n) i t id ≡ find_slot_from n (i + 1) t id
unfolding find_slot_from
find_skip n i t id h = rw (slot_test_false t id i h)

pub find_slot_from-IsSlot :
    (n i : ℕ) (t : SemaphoreTable) (id j : ℕ)
    → find_slot_from n i t id ≡ some j
    → IsSlot t id j × (j < i + n)
unfolding find_slot_from
find_slot_from-IsSlot zero i t id j e = absurd (cc)
find_slot_from-IsSlot (suc n) i t id j e = ground (arith, find_slot_from-IsSlot n (i + 1) t id j)

find_slot_from_complete :
    (n i : ℕ) (t : SemaphoreTable) (id j : ℕ)
    → IdsValid t
    → IsSlot t id j
    → i ≤ j
    → j < i + n
    → find_slot_from n i t id ≡ some j
find_slot_from_complete zero i t id j v h a b = absurd (omega arith)
find_slot_from_complete (suc n) i t id j v h a b = elim (eq-cases i j) [
  | inl e ↦
      subst (λ k. find_slot_from (suc n) i t id ≡ some k) e
        (find_here n i t id (subst (IsSlot t id) (sym e) h))
  | inr ne ↦
      find_skip n i t id (λ g. ne (v.id_unique i j g.0 h.0 (g.1 ∙ sym h.1)))
      ∙ find_slot_from_complete n (i + 1) t id j v h (omega arith) (omega arith)
]

-- A look-up by id finds the one slot with that id, wherever it is in the table, and no other.
pub sem_get_by_id-IsSlot :
    (t : SemaphoreTable) (id j : ℕ)
    → IdsValid t
    → (sem_get_by_id t id ≡ some j → IsSlot t id j × (j < 64))
      × (IsSlot t id j → j < 64 → sem_get_by_id t id ≡ some j)
unfolding sem_get_by_id find_slot_by_id
sem_get_by_id-IsSlot t id j v = elim (eq-cases id 0) [
  | inl e ↦
      rw (eq→== id 0 e) ((λ h. absurd (cc)), (λ h lt. absurd (omega (arith, v.id_pos j h.0, h.1))))
  | inr n ↦ rw (ne→== id 0 n) (
    (λ h. find_slot_from-IsSlot 64 0 t id j h),
    (λ h lt. find_slot_from_complete 64 0 t id j v h (omega arith) lt),
  )
]

-- What an allocation did: all slots of the range are in use, or a free one was taken.
abbrev pub Allocated : ℕ → ℕ → SemaphoreTable → ℕ → SemaphoreTable × ℕ → Type 0
Allocated n i t v r =
    ((r ≡ (t, 0)) × ((j : ℕ) → i ≤ j → j < i + n → (t.semaphores j).used ≡ true))
    ⊎ ((j : ℕ) × (j < i + n) × ((t.semaphores j).used ≡ false) × (r ≡ alloc_slot t j v))

alloc_from-Allocated :
    (n i : ℕ) (t : SemaphoreTable) (v : ℕ) → Allocated n i t v (alloc_from n i t v)
unfolding alloc_from
alloc_from-Allocated zero i t v = inl (refl, (λ j a b. absurd (omega arith)))
alloc_from-Allocated (suc n) i t v = elim (Bool-cases (t.semaphores i).used) [
  | inr free ↦ rw free (inr (i, omega arith, free, refl))
  | inl used ↦ rw used (elim (alloc_from-Allocated n (i + 1) t v) [
    | inl h ↦ inl (
      h.0,
      (λ j a b. elim (eq-cases i j) [
        | inl e ↦ subst (λ k. (t.semaphores k).used ≡ true) e used
        | inr ne ↦ h.1 j (omega arith) (omega arith)
      ]),
    )
    | inr (j, lt, free, e) ↦ inr (j, omega arith, free, e)
  ])
]

slot_new :
    (t : SemaphoreTable) (j v : ℕ)
    → let x = ((alloc_slot t j v).0.semaphores j) in
      (x.used ≡ true) × (x.id ≡ t.next_sem_id) × (x.value ≡ v)
unfolding alloc_slot
slot_new t j v = rw (eq→== j j refl) (refl, refl, refl)

slot_old :
    (t : SemaphoreTable) (j v k : ℕ) → j ≢ k → (alloc_slot t j v).0.semaphores k ≡ t.semaphores k
unfolding alloc_slot
slot_old t j v k n = update_ne t.semaphores j k _ n

next_new :
    (t : SemaphoreTable) (j v : ℕ)
    → t.next_sem_id + 1 < 2 ^ 64
    → (alloc_slot t j v).0.next_sem_id ≡ t.next_sem_id + 1
unfolding alloc_slot
next_new t j v h = omega arith

-- A used slot after an allocation is the new one, or was used before with the same id.
slot_origin :
    (t : SemaphoreTable) (j v k : ℕ)
    → ((alloc_slot t j v).0.semaphores k).used ≡ true
    → ((j ≡ k) × (((alloc_slot t j v).0.semaphores k).id ≡ t.next_sem_id))
      ⊎ (((t.semaphores k).used ≡ true)
          × (((alloc_slot t j v).0.semaphores k).id ≡ (t.semaphores k).id))
slot_origin t j v k u = elim (eq-cases j k) [
  | inl e ↦
      inl (
        e,
        subst (λ x. ((alloc_slot t j v).0.semaphores x).id ≡ t.next_sem_id) e (slot_new t j v).1,
      )
  | inr n ↦
      inr ((sym (ap (λ x. x.used) (slot_old t j v k n)) ∙ u), ap (λ x. x.id) (slot_old t j v k n))
]

alloc_slot-IdsValid :
    (t : SemaphoreTable) (j v : ℕ)
    → IdsValid t
    → t.next_sem_id + 1 < 2 ^ 64
    → IdsValid (alloc_slot t j v).0
alloc_slot-IdsValid t j v h b = record {
  next_pos = omega (arith, next_new t j v b);
  id_pos = λ k u. elim (slot_origin t j v k u) [
    | inl (e, i) ↦ omega (arith, i, h.next_pos)
    | inr (o, i) ↦ omega (arith, i, h.id_pos k o)
  ];
  id_below = λ k u. elim (slot_origin t j v k u) [
    | inl (e, i) ↦ omega (arith, i, next_new t j v b)
    | inr (o, i) ↦ omega (arith, i, h.id_below k o, next_new t j v b)
  ];
  id_unique = λ k l u w e. elim (slot_origin t j v k u) [
    | inl (a, i) ↦ elim (slot_origin t j v l w) [
      | inl (c, m) ↦ sym a ∙ c
      | inr (o, m) ↦ absurd (omega (arith, i, m, e, h.id_below l o))
    ]
    | inr (o, i) ↦ elim (slot_origin t j v l w) [
      | inl (c, m) ↦ absurd (omega (arith, i, m, e, h.id_below k o))
      | inr (p, m) ↦ h.id_unique k l o p (sym i ∙ (e ∙ m))
    ]
  ];
}

alloc-id : (t : SemaphoreTable) (j v : ℕ) → (alloc_slot t j v).1 ≡ t.next_sem_id
unfolding alloc_slot
alloc-id t j v = refl

-- An allocation answers 0 and changes nothing if all 64 slots are in use. Otherwise it takes a free
-- slot and answers a new id, which from then on finds that slot with the initial value; the other
-- slots stay as they were, and the ids valid. This holds while ids have not run out.
pub sem_alloc_lem :
    (t : SemaphoreTable) (initial_value : ℕ)
    → IdsValid t
    → t.next_sem_id + 1 < 2 ^ 64
    → let (t', id) = sem_alloc t initial_value in
      ((id ≡ 0) × (t' ≡ t) × ((j : ℕ) → j < 64 → (t.semaphores j).used ≡ true))
      ⊎ ((j : ℕ) × ((t.semaphores j).used ≡ false)
          × (id ≡ t.next_sem_id)
          × (sem_get_by_id t' id ≡ some j)
          × ((t'.semaphores j).value ≡ initial_value)
          × ((k : ℕ) → j ≢ k → t'.semaphores k ≡ t.semaphores k)
          × IdsValid t')
unfolding sem_alloc
sem_alloc_lem t v h b = elim (alloc_from-Allocated 64 0 t v) [
  | inl (e, all) ↦ rw e (inl (refl, refl, (λ j lt. all j (omega arith) (omega arith))))
  | inr (j, lt, free, e) ↦ rw e (
      inr (
        j,
        free,
        alloc-id t j v,
        subst (λ k. sem_get_by_id (alloc_slot t j v).0 k ≡ some j) (sym (alloc-id t j v))
            ((sem_get_by_id-IsSlot (alloc_slot t j v).0 t.next_sem_id j
                (alloc_slot-IdsValid t j v h b)).1
              ((slot_new t j v).0, (slot_new t j v).1) lt),
        (slot_new t j v).2,
        (λ k n. slot_old t j v k n),
        alloc_slot-IdsValid t j v h b,
      ))
]
