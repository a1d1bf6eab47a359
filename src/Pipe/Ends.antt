-- ===== src/Pipe/Ends.antt =====
-- Kernel/ipc/pipe.c: the transfers end. Each round of a loop moves a byte or takes one from the value
-- of the semaphore that it waits for.
use so_tp.Base.{
  ℕ, zero, suc, ◌+◌, ◌-◌, ◌≡◌, ◌≢◌, ◌<◌, refl, sym, ◌∙◌, inl, inr, true, false, some, ◌||◌, List,
  [], ◌∷◌, ◌++◌, arith, length, length-append, ◌==◌, ltb, Bool-cases,
}
use so_tp.Semaphore.Values.{value_of}
use so_tp.Pipe.{PipeTable}
use so_tp.Pipe.Transfer.{
  Transfer, Locked, stops, moves, must_wait, read_locked, write_locked, is_nil, read_loop,
  pipe_read, write_loop, pipe_write,
}
use so_tp.Pipe.Fifo.{after_read, read_round_split}
use so_tp.Pipe.Store.{after_write, write_round_split}
use so_tp.Pipe.Calm.{
  is_cut, Calm, LockedCalm, read_locked-LockedCalm, write_locked-LockedCalm, waited-Answered,
  waited_other, waited_own,
}

ltb→lt : (a b : ℕ) → ltb a b ≡ true → a < b
ltb→lt a b h = ground (arith, h)

after_read_ends :
    (now : ℕ) (loop : PipeTable → List ℕ → Transfer) (i m x y v : ℕ) (got : List ℕ) (l : Locked)
    → LockedCalm i m x y x v l
    → ((u : PipeTable) (b : ℕ) → Calm u i m x y x v → is_cut (loop u (got ++ b ∷ [])) ≡ false)
    → ((u : PipeTable) (w : ℕ) → Calm u i m x y x w → suc w ≡ v → is_cut (loop u got) ≡ false)
    → is_cut (after_read now loop i got l) ≡ false
unfolding after_read
after_read_ends now loop i m x y v got (stops t) c k a = refl
after_read_ends now loop i m x y v got (moves t b) c k a = k t b c
after_read_ends now loop i m x y v got (must_wait t) c k a = elim (Bool-cases (is_nil got)) [
  | inr e ↦ rw (e, after_read) refl
  | inl e ↦
      rw (e, after_read)
        (waited-Answered (λ r. is_cut r ≡ false) now t (t.pipes i).sem_items _ _ _ c.not_idle
          (λ s h q.
            let o = waited_own t i m x y x v (t.pipes i).sem_items s c.ids.1 h q c in
            a (record t { sems = s }) (value_of s x) o.0 o.1)
          (λ u. refl) (λ u. refl))
]

read_loop_ends :
    (fuel now i count m x y v : ℕ) (t : PipeTable) (got : List ℕ)
    → m ≢ x
    → y ≢ x
    → Calm t i m x y x v
    → count - length got + v < fuel
    → is_cut (read_loop fuel now i count t got) ≡ false
unfolding read_loop
read_loop_ends zero now i count m x y v t got nm ny c h = absurd (omega arith)
read_loop_ends (suc fuel) now i count m x y v t got nm ny c h =
    elim (Bool-cases (ltb (length got) count)) [
      | inr e ↦ rw (e, read_loop) refl
      | inl e ↦
          rw (e, read_loop)
            (waited-Answered (λ r. is_cut r ≡ false) now t (t.pipes i).mutex _ _ _ c.not_idle
              (λ s p q.
                let u = record t { sems = s } in
                let d =
                  waited_other t i m x y x v (t.pipes i).mutex s (λ z. nm (sym c.ids.0 ∙ z)) p c in
                rw (read_round_split now _ u i got) (
                  after_read_ends now _ i m x y v got (read_locked u i)
                    (read_locked-LockedCalm u i m x y v nm ny d)
                    (λ w b f.
                      read_loop_ends fuel now i count m x y v w (got ++ b ∷ []) nm ny f
                        (omega (arith, length-append got (b ∷ []), ltb→lt (length got) count e)))
                    (λ w k f z.
                      read_loop_ends fuel now i count m x y k w got nm ny f (omega arith))))
              (λ u. refl) (λ u. refl))
    ]

-- A read by a process that is not the idle process ends, or is parked, within as many rounds as
-- there are bytes to read and units in the semaphore of the items, and one more. The three
-- semaphores of the pipe are different.
pub pipe_read_ends :
    (fuel now : ℕ) (t : PipeTable) (i buffer count : ℕ)
    → (t.pipes i).mutex ≢ (t.pipes i).sem_items
    → (t.pipes i).sem_spaces ≢ (t.pipes i).sem_items
    → t.sems.sched.current ≢ t.sems.sched.idle_p
    → count + value_of t.sems (t.pipes i).sem_items < fuel
    → is_cut (pipe_read fuel now t (some i) buffer count) ≡ false
unfolding pipe_read
pipe_read_ends fuel now t i buffer count nm ny n h = elim (Bool-cases (buffer == 0 || count == 0)) [
  | inl e ↦ rw e refl
  | inr e ↦ rw e (
      read_loop_ends fuel now i count (t.pipes i).mutex (t.pipes i).sem_items (t.pipes i).sem_spaces
        (value_of t.sems (t.pipes i).sem_items) t [] nm ny
        (record { ids = (refl, refl, refl); not_idle = n; value = refl }) (omega arith))
]

after_write_ends :
    (now : ℕ) (next again : PipeTable → Transfer) (i m x y v : ℕ) (sent : List ℕ) (l : Locked)
    → LockedCalm i m x y y v l
    → ((u : PipeTable) → Calm u i m x y y v → is_cut (next u) ≡ false)
    → ((u : PipeTable) (w : ℕ) → Calm u i m x y y w → suc w ≡ v → is_cut (again u) ≡ false)
    → is_cut (after_write now next again i sent l) ≡ false
unfolding after_write
after_write_ends now next again i m x y v sent (stops t) c k a = refl
after_write_ends now next again i m x y v sent (moves t b) c k a = k t c
after_write_ends now next again i m x y v sent (must_wait t) c k a =
    waited-Answered (λ r. is_cut r ≡ false) now t (t.pipes i).sem_spaces _ _ _ c.not_idle
      (λ s h q.
        let o = waited_own t i m x y y v (t.pipes i).sem_spaces s c.ids.2 h q c in
        a (record t { sems = s }) (value_of s y) o.0 o.1)
      (λ u. refl) (λ u. refl)

write_loop_ends :
    (fuel now i m x y v : ℕ) (t : PipeTable) (sent todo : List ℕ)
    → m ≢ y
    → x ≢ y
    → Calm t i m x y y v
    → length todo + v < fuel
    → is_cut (write_loop fuel now i t sent todo) ≡ false
unfolding write_loop
write_loop_ends zero now i m x y v t sent todo nm nx c h = absurd (omega arith)
write_loop_ends (suc fuel) now i m x y v t sent [] nm nx c h = refl
write_loop_ends (suc fuel) now i m x y v t sent (b ∷ todo) nm nx c h =
    waited-Answered (λ r. is_cut r ≡ false) now t (t.pipes i).mutex _ _ _ c.not_idle
      (λ s p q.
        let u = record t { sems = s } in
        let d = waited_other t i m x y y v (t.pipes i).mutex s (λ z. nm (sym c.ids.0 ∙ z)) p c in
        rw (write_round_split now _ _ u i b sent) (
          after_write_ends now _ _ i m x y v sent (write_locked u i b)
            (write_locked-LockedCalm u i b m x y v nm nx d)
            (λ w f.
              write_loop_ends fuel now i m x y v w (sent ++ b ∷ []) todo nm nx f (omega arith))
            (λ w k f z.
              write_loop_ends fuel now i m x y k w sent (b ∷ todo) nm nx f (omega arith))))
      (λ u. refl) (λ u. refl)

-- A write by a process that is not the idle process ends, or is parked, within as many rounds as
-- there are bytes to write and units in the semaphore of the spaces, and one more. The three
-- semaphores of the pipe are different.
pub pipe_write_ends :
    (fuel now : ℕ) (t : PipeTable) (i buffer : ℕ) (bytes : List ℕ)
    → (t.pipes i).mutex ≢ (t.pipes i).sem_spaces
    → (t.pipes i).sem_items ≢ (t.pipes i).sem_spaces
    → t.sems.sched.current ≢ t.sems.sched.idle_p
    → length bytes + value_of t.sems (t.pipes i).sem_spaces < fuel
    → is_cut (pipe_write fuel now t (some i) buffer bytes) ≡ false
unfolding pipe_write
pipe_write_ends fuel now t i buffer bytes nm nx n h =
    elim (Bool-cases (buffer == 0 || length bytes == 0)) [
      | inl e ↦ rw e refl
      | inr e ↦ rw e (
          write_loop_ends fuel now i (t.pipes i).mutex (t.pipes i).sem_items (t.pipes i).sem_spaces
            (value_of t.sems (t.pipes i).sem_spaces) t [] bytes nm nx
            (record { ids = (refl, refl, refl); not_idle = n; value = refl }) h)
    ]
