-- ===== src/Queue/Chain.antt =====
-- What it means that the link fields and a queue hold a list of processes.
use so_tp.Base.{
  ℕ, zero, suc, ◌<◌, ◌≡◌, refl, ◌≢◌, true, List, [], ◌∷◌, arith, length, All, elem, NotIn, Distinct,
  length-le_of_Distinct,
}
use so_tp.Queue.{Links, ProcessQueue, walk, address_limit}

abbrev pub first : List ℕ → ℕ
first [] = 0
first (x ∷ xs) = x

abbrev pub tail_of : List ℕ → List ℕ
tail_of [] = []
tail_of (x ∷ xs) = xs

-- No process of the second list is in the first.
abbrev pub Apart : List ℕ → List ℕ → Type 0
Apart xs = All (λ y. NotIn y xs)

-- The last element, or `d`.
abbrev pub last_or : ℕ → List ℕ → ℕ
last_or d [] = d
last_or d (x ∷ xs) = last_or x xs

-- The processes of the list are linked both ways, the first one back to `before`.
abbrev pub Chain : Links → ℕ → List ℕ → Type 0
Chain l before [] = Unit {0}
Chain l before (x ∷ xs) =
    (x ≢ 0) × (l.queue_prev x ≡ before) × (l.queue_next x ≡ first xs) × Chain l x xs

-- The queue `q` holds the list `xs`.
pub record Holds (l : Links) (q : ProcessQueue) (xs : List ℕ) : Type 0 where
  pub chain : Chain l 0 xs
  pub head_first : q.head ≡ first xs
  pub tail_last : q.tail ≡ last_or 0 xs
  pub size_length : q.size ≡ length xs
  pub distinct : Distinct xs
  pub addresses : All (λ x. x < address_limit) xs

-- The search finds exactly the processes of the list.
walk-elem_of_Chain :
    (fuel : ℕ) (l : Links) (before p : ℕ) (xs : List ℕ)
    → Chain l before xs
    → length xs < fuel
    → walk fuel l (first xs) p ≡ elem p xs
unfolding walk
walk-elem_of_Chain zero l before p xs c h = absurd (omega arith)
walk-elem_of_Chain (suc fuel) l before p [] c h = refl
walk-elem_of_Chain (suc fuel) l before p (x ∷ xs) c h =
    ground (arith, walk-elem_of_Chain fuel l x p xs c.3)

pub NotIn-zero : (l : Links) (before : ℕ) (xs : List ℕ) → Chain l before xs → NotIn 0 xs
NotIn-zero l before [] c = tt
NotIn-zero l before (x ∷ xs) c = (c.0, NotIn-zero l x xs c.3)

pub zero-lt_address_limit : 0 < address_limit
unfolding address_limit
zero-lt_address_limit = omega arith

-- A queue is shorter than the fuel of the walks: its processes are distinct addresses.
pub length-lt_of_Holds :
    {l : Links} {q : ProcessQueue} {xs : List ℕ} → Holds l q xs → length xs < address_limit
length-lt_of_Holds {l} {q} {xs} h =
    length-le_of_Distinct address_limit (0 ∷ xs) (NotIn-zero l 0 xs h.chain, h.distinct)
      (zero-lt_address_limit, h.addresses)

pub walk-elem :
    {l : Links} {q : ProcessQueue} {xs : List ℕ} (p : ℕ)
    → Holds l q xs
    → walk address_limit l q.head p ≡ elem p xs
walk-elem {l} {q} {xs} p h =
    rw h.head_first (walk-elem_of_Chain address_limit l 0 p xs h.chain (length-lt_of_Holds h))

-- A neighbour of a process of the chain is in the chain, or is what stands before it, or NULL.
pub prev-ne :
    (l : Links) (before p y : ℕ) (xs : List ℕ)
    → Chain l before xs
    → elem p xs ≡ true
    → before ≢ y
    → NotIn y xs
    → l.queue_prev p ≢ y
prev-ne l before p y [] c e h n = absurd (ground arith)
prev-ne l before p y (x ∷ xs) c e h n = ground (arith, prev-ne l x p y xs c.3)

pub next-ne :
    (l : Links) (before p y : ℕ) (xs : List ℕ)
    → Chain l before xs
    → elem p xs ≡ true
    → y ≢ 0
    → NotIn y xs
    → l.queue_next p ≢ y
next-ne l before p y [] c e h n = absurd (ground arith)
next-ne l before p y (x ∷ []) c e h n = ground arith
next-ne l before p y (x ∷ z ∷ xs) c e h n = ground (arith, next-ne l x p y (z ∷ xs) c.3)

pub elem-ne_zero :
    (l : Links) (before p : ℕ) (xs : List ℕ) → Chain l before xs → elem p xs ≡ true → p ≢ 0
elem-ne_zero l before p [] c e = absurd (ground arith)
elem-ne_zero l before p (x ∷ xs) c e = ground (arith, elem-ne_zero l x p xs c.3)

-- A queue that is not written holds its list wherever its chain is kept.
pub Holds-Chain :
    {l l' : Links} {q : ProcessQueue} {xs : List ℕ} → Holds l q xs → Chain l' 0 xs → Holds l' q xs
Holds-Chain h c = record {
  chain = c;
  head_first = h.head_first;
  tail_last = h.tail_last;
  size_length = h.size_length;
  distinct = h.distinct;
  addresses = h.addresses;
}
