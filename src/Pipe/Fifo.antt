-- ===== src/Pipe/Fifo.antt =====
-- Kernel/ipc/pipe.c: reading and writing move bytes first in, first out, whatever the semaphores
-- answer and wherever the process is parked.
use so_tp.Base.{
  ℕ, zero, suc, ◌≡◌, ◌≢◌, refl, sym, ◌∙◌, ap, subst, inl, inr, true, false, ◌||◌, some, List, [],
  ◌∷◌, ◌++◌, arith, length, update, update_self, update_ne, ◌==◌, ltb, eq→==, ne→==, Bool-cases,
  eq-cases,
}
use mathlib.Core.List.{append_assoc}
use so_tp.Semaphore.{returns, parks, sem_wait_by_id}
use so_tp.Pipe.{Pipe, PipeTable, set_pipe, signal}
use so_tp.Pipe.Transfer.{
  Transfer, done, cut_off, at_mutex, at_wait, Locked, stops, moves, must_wait, take_byte,
  read_locked, waited, read_round, read_loop, pipe_read, is_nil,
}
use so_tp.Pipe.Window.{contents, IsValid, take_byte-IsValid, contents-take_byte}

-- The state in which a transfer stops, and the bytes that it has moved.
abbrev pub table_of : Transfer → PipeTable
table_of (done t bytes) = t
table_of (cut_off t bytes) = t
table_of (at_mutex t bytes) = t
table_of (at_wait t bytes) = t

abbrev pub bytes_of : Transfer → List ℕ
bytes_of (done t bytes) = bytes
bytes_of (cut_off t bytes) = bytes
bytes_of (at_mutex t bytes) = bytes
bytes_of (at_wait t bytes) = bytes

pub pipes-signal : (t : PipeTable) (id : ℕ) → (signal t id).pipes ≡ t.pipes
unfolding signal
pipes-signal t id = refl

-- A wait keeps what holds of the pipes.
pub waited-keeps {ℓ} :
    (P : Transfer → Type ℓ) (now : ℕ) (t : PipeTable) (id : ℕ)
    (go refused parked : PipeTable → Transfer)
    → ((u : PipeTable) → u.pipes ≡ t.pipes → P (go u))
    → ((u : PipeTable) → u.pipes ≡ t.pipes → P (refused u))
    → ((u : PipeTable) → u.pipes ≡ t.pipes → P (parked u))
    → P (waited now t id go refused parked)
unfolding waited
waited-keeps P now t id go refused parked a b c =
    elim (sem_wait_by_id now t.sems id)
      as (λ r. P (elim r [
        | returns s b' ↦
            let t' = record t { sems = s } in elim b' [ true ↦ go t' | false ↦ refused t' ]
        | parks s ↦ parked (record t { sems = s })
      ])) [
        | returns s true ↦ a (record t { sems = s }) refl
        | returns s false ↦ b (record t { sems = s }) refl
        | parks s ↦ c (record t { sems = s }) refl
      ]

-- What the code that holds the mutex does to the pipes when reading, and when writing `b`.
abbrev ReadLocked : PipeTable → ℕ → Locked → Type 0
ReadLocked t i (stops t') = t'.pipes ≡ t.pipes
ReadLocked t i (must_wait t') = t'.pipes ≡ t.pipes
ReadLocked t i (moves t' b) =
    (t'.pipes ≡ update t.pipes i (take_byte (t.pipes i)))
    × ((t.pipes i).count ≢ 0)
    × (b ≡ (t.pipes i).buffer (t.pipes i).read_pos)

ltb_zero_true : (n : ℕ) → n ≢ 0 → ltb 0 n ≡ true
ltb_zero_true n h = ground arith

ltb_zero_false : (n : ℕ) → n ≡ 0 → ltb 0 n ≡ false
ltb_zero_false n h = ground arith

pub pipes-moved :
    (t : PipeTable) (i a b : ℕ) (p : Pipe)
    → (signal (signal (set_pipe t i p) a) b).pipes ≡ update t.pipes i p
unfolding signal set_pipe
pipes-moved t i a b p = refl

read_locked-ReadLocked : (t : PipeTable) (i : ℕ) → ReadLocked t i (read_locked t i)
unfolding read_locked
read_locked-ReadLocked t i = elim (eq-cases (t.pipes i).count 0) [
  | inr n ↦
      rw (ne→== (t.pipes i).count 0 n, ltb_zero_true (t.pipes i).count n)
        (pipes-moved t i _ _ _, n, refl)
  | inl e ↦ elim (eq-cases (t.pipes i).writers 0) [
    | inl z ↦ rw (eq→== (t.pipes i).count 0 e, eq→== (t.pipes i).writers 0 z) (pipes-signal t _)
    | inr n ↦
        rw
          (
            eq→== (t.pipes i).count 0 e,
            ne→== (t.pipes i).writers 0 n,
            ltb_zero_false (t.pipes i).count e,
          )
          (pipes-signal t _)
  ]
]

-- What holds of a reading transfer that has read `got` when the pipes are `pipes`: with what is
-- left in the pipe, the bytes read are those read before and what the pipe held, in order.
pub record ReadKeeps (pipes : ℕ → Pipe) (i : ℕ) (got : List ℕ) (r : Transfer) : Type 0 where
  pub valid : IsValid ((table_of r).pipes i)
  pub in_order : bytes_of r ++ contents ((table_of r).pipes i) ≡ got ++ contents (pipes i)
  pub others_kept : (j : ℕ) → i ≢ j → (table_of r).pipes j ≡ pipes j

ReadKeeps-pipes :
    (t u : PipeTable) (i : ℕ) (got : List ℕ) (r : Transfer)
    → u.pipes ≡ t.pipes
    → ReadKeeps u.pipes i got r
    → ReadKeeps t.pipes i got r
ReadKeeps-pipes t u i got r e k = subst (λ p. ReadKeeps p i got r) e k

stays :
    (t : PipeTable) (i : ℕ) (got : List ℕ)
    → IsValid (t.pipes i)
    → ReadKeeps t.pipes i got (done t got)
stays t i got v = record { valid = v; in_order = refl; others_kept = λ j n. refl }

stays_at_wait :
    (t : PipeTable) (i : ℕ) (got : List ℕ)
    → IsValid (t.pipes i)
    → ReadKeeps t.pipes i got (at_wait t got)
stays_at_wait t i got v = record { valid = v; in_order = refl; others_kept = λ j n. refl }

stays_at_mutex :
    (t : PipeTable) (i : ℕ) (got : List ℕ)
    → IsValid (t.pipes i)
    → ReadKeeps t.pipes i got (at_mutex t got)
stays_at_mutex t i got v = record { valid = v; in_order = refl; others_kept = λ j n. refl }

pub IsValid-in :
    (t u : PipeTable) (i : ℕ) → u.pipes ≡ t.pipes → IsValid (t.pipes i) → IsValid (u.pipes i)
IsValid-in t u i e v = subst (λ p. IsValid (p i)) (sym e) v

-- A byte moved from the pipe to the bytes read.
ReadKeeps-moved :
    (t u : PipeTable) (i b : ℕ) (got : List ℕ) (r : Transfer)
    → ReadLocked t i (moves u b)
    → ReadKeeps u.pipes i (got ++ b ∷ []) r
    → ReadKeeps t.pipes i got r
ReadKeeps-moved t u i b got r m k = record {
  valid = k.valid;
  in_order =
      k.in_order
      ∙ (append_assoc got (b ∷ []) (contents (u.pipes i))
          ∙ ap (λ c. got ++ c)
              (ap (λ p. b ∷ contents (p i)) m.0
                ∙ (ap (λ p. b ∷ contents p) (update_self t.pipes i _)
                    ∙ (ap (λ x. x ∷ contents (take_byte (t.pipes i))) m.2
                        ∙ sym (contents-take_byte (t.pipes i) m.1)))));
  others_kept = λ j n. k.others_kept j n ∙ (ap (λ p. p j) m.0 ∙ update_ne t.pipes i j _ n);
}

IsValid-moved :
    (t u : PipeTable) (i b : ℕ)
    → ReadLocked t i (moves u b)
    → IsValid (t.pipes i)
    → IsValid (u.pipes i)
IsValid-moved t u i b m v =
    subst (λ p. IsValid (p i)) (sym m.0)
      (subst IsValid (sym (update_self t.pipes i _)) (take_byte-IsValid (t.pipes i) v m.1))

-- `read_round` for a given outcome of the code that holds the mutex.
unfoldable pub after_read : ℕ → (PipeTable → List ℕ → Transfer) → ℕ → List ℕ → Locked → Transfer
after_read now loop i got (stops t') = done t' got
after_read now loop i got (moves t' b) = loop t' (got ++ b ∷ [])
after_read now loop i got (must_wait t') = elim (is_nil got) [
  | false ↦ done t' got
  | true ↦
      waited now t' (t'.pipes i).sem_items (λ u. loop u got) (λ u. done u got) (λ u. at_wait u got)
]

pub read_round_split :
    (now : ℕ) (loop : PipeTable → List ℕ → Transfer) (t : PipeTable) (i : ℕ) (got : List ℕ)
    → read_round now loop t i got ≡ after_read now loop i got (read_locked t i)
unfolding read_round after_read
read_round_split now loop t i got =
    elim (read_locked t i)
      as (λ l.
        (elim l [
          | stops t' ↦ done t' got
          | moves t' b ↦ loop t' (got ++ b ∷ [])
          | must_wait t' ↦ elim (is_nil got) [
            | false ↦ done t' got
            | true ↦
                waited now t' (t'.pipes i).sem_items (λ u. loop u got) (λ u. done u got)
                  (λ u. at_wait u got)
          ]
        ])
        ≡ after_read now loop i got l) [ stops t' ↦ refl | moves t' b ↦ refl | must_wait t' ↦ refl ]

after_read-ReadKeeps :
    (now : ℕ) (loop : PipeTable → List ℕ → Transfer) (t : PipeTable) (i : ℕ) (got : List ℕ)
    (l : Locked)
    → IsValid (t.pipes i)
    → ReadLocked t i l
    → ((u : PipeTable) (g : List ℕ) → IsValid (u.pipes i) → ReadKeeps u.pipes i g (loop u g))
    → ReadKeeps t.pipes i got (after_read now loop i got l)
unfolding after_read
after_read-ReadKeeps now loop t i got (stops t') v m k =
    ReadKeeps-pipes t t' i got _ m (stays t' i got (IsValid-in t t' i m v))
after_read-ReadKeeps now loop t i got (moves t' b) v m k =
    ReadKeeps-moved t t' i b got _ m (k t' (got ++ b ∷ []) (IsValid-moved t t' i b m v))
after_read-ReadKeeps now loop t i got (must_wait t') v m k = elim (Bool-cases (is_nil got)) [
  | inr e ↦
      rw (e, after_read) (ReadKeeps-pipes t t' i got _ m (stays t' i got (IsValid-in t t' i m v)))
  | inl e ↦
      rw (e, after_read)
        (ReadKeeps-pipes t t' i got _ m (
          waited-keeps (ReadKeeps t'.pipes i got) now t' (t'.pipes i).sem_items _ _ _
            (λ u q.
              ReadKeeps-pipes t' u i got _ q
                (k u got (IsValid-in t' u i q (IsValid-in t t' i m v))))
            (λ u q.
              ReadKeeps-pipes t' u i got _ q
                (stays u i got (IsValid-in t' u i q (IsValid-in t t' i m v))))
            (λ u q.
              ReadKeeps-pipes t' u i got _ q
                (stays_at_wait u i got (IsValid-in t' u i q (IsValid-in t t' i m v))))))
]

read_loop-ReadKeeps :
    (fuel now i count : ℕ) (t : PipeTable) (got : List ℕ)
    → IsValid (t.pipes i)
    → ReadKeeps t.pipes i got (read_loop fuel now i count t got)
unfolding read_loop
read_loop-ReadKeeps zero now i count t got v = record {
  valid = v;
  in_order = refl;
  others_kept = λ j n. refl;
}
read_loop-ReadKeeps (suc fuel) now i count t got v = elim (Bool-cases (ltb (length got) count)) [
  | inr e ↦ rw (e, read_loop) (stays t i got v)
  | inl e ↦
      rw (e, read_loop)
        (waited-keeps (ReadKeeps t.pipes i got) now t (t.pipes i).mutex _ _ _
          (λ u q. ReadKeeps-pipes t u i got _ q (
            rw (read_round_split now _ u i got) (
              after_read-ReadKeeps now _ u i got (read_locked u i) (IsValid-in t u i q v)
                (read_locked-ReadLocked u i) (read_loop-ReadKeeps fuel now i count))))
          (λ u q. ReadKeeps-pipes t u i got _ q (stays u i got (IsValid-in t u i q v)))
          (λ u q. ReadKeeps-pipes t u i got _ q (stays_at_mutex u i got (IsValid-in t u i q v))))
]

-- Whatever the semaphores answer, and also where the reader is parked on the way, a read of a
-- pipe neither loses nor invents nor reorders a byte: the bytes read, and behind them those left in
-- the pipe, are those that the pipe held. The indices stay in range, and no other pipe is written.
pub pipe_read-ReadKeeps :
    (fuel now : ℕ) (t : PipeTable) (i buffer count : ℕ)
    → IsValid (t.pipes i)
    → ReadKeeps t.pipes i [] (pipe_read fuel now t (some i) buffer count)
unfolding pipe_read
pipe_read-ReadKeeps fuel now t i buffer count v = elim (Bool-cases (buffer == 0 || count == 0)) [
  | inl e ↦ rw e (stays t i [] v)
  | inr e ↦ rw e (read_loop-ReadKeeps fuel now i count t [] v)
]
