-- ===== src/Pipe/Store.antt =====
-- Kernel/ipc/pipe.c: writing puts the caller's bytes behind those that the pipe holds.
use so_tp.Base.{
  ℕ, zero, suc, ◌≡◌, ◌≢◌, ◌<◌, refl, sym, ◌∙◌, ap, subst, inl, inr, ◌⊎◌, true, false, ◌||◌, some,
  List, [], ◌∷◌, ◌++◌, arith, length, update, update_self, update_ne, ◌==◌, ltb, eq→==, ne→==,
  Bool-cases, eq-cases,
}
use mathlib.Core.List.{append_assoc, append-nil}
use so_tp.Pipe.{Pipe, PipeTable}
use so_tp.Pipe.Transfer.{
  Transfer, done, at_mutex, at_wait, Locked, stops, moves, must_wait, put_byte, write_locked,
  waited, write_round, write_loop, pipe_write,
}
use so_tp.Pipe.Window.{contents, IsValid, put_byte-IsValid, contents-put_byte}
use so_tp.Pipe.Fifo.{table_of, bytes_of, pipes-signal, pipes-moved, waited-keeps, IsValid-in}

abbrev WriteLocked : PipeTable → ℕ → ℕ → Locked → Type 0
WriteLocked t i b (stops t') = t'.pipes ≡ t.pipes
WriteLocked t i b (must_wait t') = t'.pipes ≡ t.pipes
WriteLocked t i b (moves t' _) =
    (t'.pipes ≡ update t.pipes i (put_byte (t.pipes i) b)) × ((t.pipes i).count < 4096)

ltb-cases : (a b : ℕ) → ((ltb a b ≡ true) × (a < b)) ⊎ (ltb a b ≡ false)
ltb-cases a b = ground arith

write_locked-WriteLocked : (t : PipeTable) (i b : ℕ) → WriteLocked t i b (write_locked t i b)
unfolding write_locked
write_locked-WriteLocked t i b = elim (eq-cases (t.pipes i).readers 0) [
  | inl z ↦ rw (eq→== (t.pipes i).readers 0 z) (pipes-signal t _)
  | inr n ↦ elim (ltb-cases (t.pipes i).count 4096) [
    | inl (e, h) ↦ rw (ne→== (t.pipes i).readers 0 n, e) (pipes-moved t i _ _ _, h)
    | inr e ↦ rw (ne→== (t.pipes i).readers 0 n, e) (pipes-signal t _)
  ]
]

-- What holds of a writing transfer that has sent `sent` and has `todo` to send when the pipes are
-- `pipes`: it sends a first part of `todo`, and puts exactly that part behind what the pipe held.
pub record WriteKeeps (pipes : ℕ → Pipe) (i : ℕ) (sent todo : List ℕ) (r : Transfer) : Type 0 where
  pub moved : List ℕ
  pub rest : List ℕ
  pub sent_more : bytes_of r ≡ sent ++ moved
  pub todo_split : todo ≡ moved ++ rest
  pub stored : contents ((table_of r).pipes i) ≡ contents (pipes i) ++ moved
  pub valid : IsValid ((table_of r).pipes i)
  pub others_kept : (j : ℕ) → i ≢ j → (table_of r).pipes j ≡ pipes j

WriteKeeps-pipes :
    (t u : PipeTable) (i : ℕ) (sent todo : List ℕ) (r : Transfer)
    → u.pipes ≡ t.pipes
    → WriteKeeps u.pipes i sent todo r
    → WriteKeeps t.pipes i sent todo r
WriteKeeps-pipes t u i sent todo r e k = subst (λ p. WriteKeeps p i sent todo r) e k

-- A transfer that stops with nothing more sent.
sends_nothing :
    (t : PipeTable) (i : ℕ) (sent todo : List ℕ) (r : Transfer)
    → (table_of r).pipes ≡ t.pipes
    → bytes_of r ≡ sent
    → IsValid (t.pipes i)
    → WriteKeeps t.pipes i sent todo r
sends_nothing t i sent todo r p b v = record {
  moved = [];
  rest = todo;
  sent_more = b ∙ sym (append-nil sent);
  todo_split = refl;
  stored = ap (λ q. contents (q i)) p ∙ sym (append-nil (contents (t.pipes i)));
  valid = subst (λ q. IsValid (q i)) (sym p) v;
  others_kept = λ j n. ap (λ q. q j) p;
}

stored_one :
    (t u : PipeTable) (i b c : ℕ)
    → IsValid (t.pipes i)
    → WriteLocked t i b (moves u c)
    → contents (u.pipes i) ≡ contents (t.pipes i) ++ b ∷ []
stored_one t u i b c v m =
    ap (λ p. contents (p i)) m.0
    ∙ (ap contents (update_self t.pipes i _) ∙ contents-put_byte (t.pipes i) b v m.1)

IsValid-stored :
    (t u : PipeTable) (i b c : ℕ)
    → IsValid (t.pipes i)
    → WriteLocked t i b (moves u c)
    → IsValid (u.pipes i)
IsValid-stored t u i b c v m =
    subst (λ p. IsValid (p i)) (sym m.0)
      (subst IsValid (sym (update_self t.pipes i _)) (put_byte-IsValid (t.pipes i) b v m.1))

WriteKeeps-moved :
    (t u : PipeTable) (i b c : ℕ) (sent todo : List ℕ) (r : Transfer)
    → IsValid (t.pipes i)
    → WriteLocked t i b (moves u c)
    → WriteKeeps u.pipes i (sent ++ b ∷ []) todo r
    → WriteKeeps t.pipes i sent (b ∷ todo) r
WriteKeeps-moved t u i b c sent todo r v m k = record {
  moved = b ∷ k.moved;
  rest = k.rest;
  sent_more = k.sent_more ∙ append_assoc sent (b ∷ []) k.moved;
  todo_split = ap (λ x. b ∷ x) k.todo_split;
  stored =
      k.stored
      ∙ (ap (λ x. x ++ k.moved) (stored_one t u i b c v m)
          ∙ append_assoc (contents (t.pipes i)) (b ∷ []) k.moved);
  valid = k.valid;
  others_kept = λ j n. k.others_kept j n ∙ (ap (λ p. p j) m.0 ∙ update_ne t.pipes i j _ n);
}

unfoldable pub after_write :
    ℕ → (PipeTable → Transfer) → (PipeTable → Transfer) → ℕ → List ℕ → Locked → Transfer
after_write now next again i sent (stops t') = done t' sent
after_write now next again i sent (moves t' _) = next t'
after_write now next again i sent (must_wait t') =
    waited now t' (t'.pipes i).sem_spaces again (λ u. done u sent) (λ u. at_wait u sent)

pub write_round_split :
    (now : ℕ) (next again : PipeTable → Transfer) (t : PipeTable) (i b : ℕ) (sent : List ℕ)
    → write_round now next again t i b sent ≡ after_write now next again i sent (write_locked t i b)
unfolding write_round after_write
write_round_split now next again t i b sent =
    elim (write_locked t i b)
      as (λ l.
        (elim l [
          | stops t' ↦ done t' sent
          | moves t' _ ↦ next t'
          | must_wait t' ↦
              waited now t' (t'.pipes i).sem_spaces again (λ u. done u sent) (λ u. at_wait u sent)
        ])
        ≡ after_write now next again i sent l) [
          | stops t' ↦ refl
          | moves t' _ ↦ refl
          | must_wait t' ↦ refl
        ]

after_write-WriteKeeps :
    (now : ℕ) (next again : PipeTable → Transfer) (t : PipeTable) (i b : ℕ) (sent todo : List ℕ)
    (l : Locked)
    → IsValid (t.pipes i)
    → WriteLocked t i b l
    → ((u : PipeTable) → IsValid (u.pipes i) → WriteKeeps u.pipes i (sent ++ b ∷ []) todo (next u))
    → ((u : PipeTable) → IsValid (u.pipes i) → WriteKeeps u.pipes i sent (b ∷ todo) (again u))
    → WriteKeeps t.pipes i sent (b ∷ todo) (after_write now next again i sent l)
unfolding after_write
after_write-WriteKeeps now next again t i b sent todo (stops t') v m k a =
    sends_nothing t i sent (b ∷ todo) (done t' sent) m refl v
after_write-WriteKeeps now next again t i b sent todo (moves t' c) v m k a =
    WriteKeeps-moved t t' i b c sent todo (next t') v m (k t' (IsValid-stored t t' i b c v m))
after_write-WriteKeeps now next again t i b sent todo (must_wait t') v m k a =
    waited-keeps (WriteKeeps t.pipes i sent (b ∷ todo)) now t' (t'.pipes i).sem_spaces _ _ _
      (λ u q. WriteKeeps-pipes t u i sent (b ∷ todo) _ (q ∙ m) (a u (IsValid-in t u i (q ∙ m) v)))
      (λ u q. sends_nothing t i sent (b ∷ todo) (done u sent) (q ∙ m) refl v)
      (λ u q. sends_nothing t i sent (b ∷ todo) (at_wait u sent) (q ∙ m) refl v)

write_loop-WriteKeeps :
    (fuel now i : ℕ) (t : PipeTable) (sent todo : List ℕ)
    → IsValid (t.pipes i)
    → WriteKeeps t.pipes i sent todo (write_loop fuel now i t sent todo)
unfolding write_loop
write_loop-WriteKeeps zero now i t sent todo v = sends_nothing t i sent todo _ refl refl v
write_loop-WriteKeeps (suc fuel) now i t sent [] v = sends_nothing t i sent [] _ refl refl v
write_loop-WriteKeeps (suc fuel) now i t sent (b ∷ todo) v =
    waited-keeps (WriteKeeps t.pipes i sent (b ∷ todo)) now t (t.pipes i).mutex _ _ _
      (λ u q. WriteKeeps-pipes t u i sent (b ∷ todo) _ q (
        rw (write_round_split now _ _ u i b sent) (
          after_write-WriteKeeps now _ _ u i b sent todo (write_locked u i b) (IsValid-in t u i q v)
            (write_locked-WriteLocked u i b)
            (λ w x. write_loop-WriteKeeps fuel now i w (sent ++ b ∷ []) todo x)
            (λ w x. write_loop-WriteKeeps fuel now i w sent (b ∷ todo) x))))
      (λ u q. sends_nothing t i sent (b ∷ todo) (done u sent) q refl v)
      (λ u q. sends_nothing t i sent (b ∷ todo) (at_mutex u sent) q refl v)

-- Whatever the semaphores answer, and also where the writer is parked on the way, a write sends a
-- first part of the caller's bytes, which is what it answers, and puts exactly these bytes in order
-- behind those that the pipe held. It never overruns the buffer, and no other pipe is written.
pub pipe_write-WriteKeeps :
    (fuel now : ℕ) (t : PipeTable) (i buffer : ℕ) (bytes : List ℕ)
    → IsValid (t.pipes i)
    → WriteKeeps t.pipes i [] bytes (pipe_write fuel now t (some i) buffer bytes)
unfolding pipe_write
pipe_write-WriteKeeps fuel now t i buffer bytes v =
    elim (Bool-cases (buffer == 0 || length bytes == 0)) [
      | inl e ↦ rw e (sends_nothing t i [] bytes _ refl refl v)
      | inr e ↦ rw e (write_loop-WriteKeeps fuel now i t [] bytes v)
    ]
