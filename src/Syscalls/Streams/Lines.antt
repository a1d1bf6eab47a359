-- ===== src/Syscalls/Streams/Lines.antt =====
-- Kernel/syscalls/syscalls_kernel.c: what a read of the terminal takes out of the keyboard's buffer.
use so_tp.Base.{
  ℕ, zero, suc, ◌+◌, ◌<◌, ◌≤◌, ◌≡◌, ◌≢◌, refl, sym, ◌∙◌, ap, inl, inr, subst, arith, List, [], ◌∷◌,
  ◌++◌, ◌==◌, ltb, if◌then◌else◌, length, length-append, All, first_or, if_true, if_false, eq→==,
  ne→==, lt→ltb, le→ltb, eq-cases,
}
use so_tp.Pipe.{PipeTable}
use so_tp.Keyboard.{Keyboard, CircleBuffer, buffer_pop, keyboard_read_getchar}
use so_tp.Keyboard.Ring.{IsRing, characters, buffer_pop-IsRing}
use so_tp.Syscalls.Streams.{Reading, done, keyboard_wait_for_char, take_char, terminal_read}

-- At most `n` characters up to the end of a line, which belongs to it, or to a ^D, which does not: the
-- bytes and what is left, or that the characters run out before.
pub data Line : Type 0 where
  stops : List ℕ → List ℕ → Line
  runs_out : List ℕ → Line

abbrev pub with_char : ℕ → Line → Line
with_char c (stops bytes rest) = stops (c ∷ bytes) rest
with_char c (runs_out bytes) = runs_out (c ∷ bytes)

abbrev pub line : ℕ → List ℕ → Line
line zero cs = stops [] cs
line (suc n) [] = runs_out []
line (suc n) (c ∷ cs) =
    let rest = line n cs in
    if c == 4 then stops [] cs else if c == 10 then stops (c ∷ []) cs else with_char c rest

abbrev pub with_buffer : Keyboard → CircleBuffer → Keyboard
with_buffer k b = record k { buffer = b }

-- The outcome `r` of a read with the keyboard `k`, for the line that its buffer holds: the read is done
-- with the bytes of the line, or it goes on to wait for a character with the buffer empty.
abbrev pub Reads : ℕ → Keyboard → PipeTable → ℕ → List ℕ → Line → Reading → Type 0
Reads now k t count got (stops bytes rest) r =
    (b : CircleBuffer) × IsRing b
    × (characters b ≡ rest)
    × (r ≡ done (with_buffer k b) t (got ++ bytes))
Reads now k t count got (runs_out bytes) r =
    (b : CircleBuffer) × IsRing b
    × (characters b ≡ [])
    × ((fuel : ℕ) × (r
          ≡ keyboard_wait_for_char fuel now (with_buffer k b) t (got ++ bytes)
              (λ t'. terminal_read fuel now (with_buffer k b) t' count (got ++ bytes))))

abbrev tail : List ℕ → List ℕ
tail [] = []
tail (x ∷ xs) = xs

append_nil : (xs : List ℕ) → xs ++ [] ≡ xs
append_nil [] = refl
append_nil (x ∷ xs) = ap (λ ys. x ∷ ys) (append_nil xs)

append_one : (xs : List ℕ) (c : ℕ) (ys : List ℕ) → (xs ++ c ∷ []) ++ ys ≡ xs ++ c ∷ ys
append_one [] c ys = refl
append_one (x ∷ xs) c ys = ap (λ zs. x ∷ zs) (append_one xs c ys)

module _ (now : ℕ) (t : PipeTable) (count : ℕ) where
  read_full :
      (fuel : ℕ) (k : Keyboard) (got : List ℕ)
      → count ≤ length got
      → terminal_read (suc fuel) now k t count got ≡ done k t got
  unfolding terminal_read
  read_full fuel k got h = if_false (ltb (length got) count) _ _ (le→ltb (length got) count h)

  read_step :
      (fuel : ℕ) (k : Keyboard) (got : List ℕ) (c : ℕ)
      → length got < count
      → (buffer_pop k.buffer).1 ≡ c
      → terminal_read (suc fuel) now k t count got ≡ (
          if c == 0
          then keyboard_wait_for_char fuel now
              (with_buffer k (buffer_pop k.buffer).0)
              t
              got
              (λ t'. terminal_read fuel now (with_buffer k (buffer_pop k.buffer).0) t' count got)
          else take_char
              (with_buffer k (buffer_pop k.buffer).0)
              t
              got
              c
              (λ got'. terminal_read fuel now (with_buffer k (buffer_pop k.buffer).0) t count got'))
  unfolding terminal_read keyboard_read_getchar
  read_step fuel k got c h e =
      if_true (ltb (length got) count) _ _ (lt→ltb (length got) count h)
      ∙ ap
          (λ x.
            if x == 0
            then keyboard_wait_for_char fuel now (with_buffer k (buffer_pop k.buffer).0) t got
                (λ t'. terminal_read fuel now (with_buffer k (buffer_pop k.buffer).0) t' count got)
            else take_char (with_buffer k (buffer_pop k.buffer).0) t got x (λ got'.
              terminal_read fuel now (with_buffer k (buffer_pop k.buffer).0) t count got'))
          e

  -- The line behind one more character.
  Reads-with_char :
      (k : Keyboard) (b : CircleBuffer) (got : List ℕ) (c : ℕ) (l : Line) (r : Reading)
      → Reads now (with_buffer k b) t count (got ++ c ∷ []) l r
      → Reads now k t count got (with_char c l) r
  Reads-with_char k b got c (stops bytes rest) r (d, i, e, q) =
      (d, i, e, q ∙ ap (done (with_buffer k d) t) (append_one got c bytes))
  Reads-with_char k b got c (runs_out bytes) r (d, i, e, q) = (
    d,
    i,
    e,
    (
      q.0,
      q.1
          ∙ ap
              (λ g.
                keyboard_wait_for_char q.0 now (with_buffer k d) t g
                  (λ t'. terminal_read q.0 now (with_buffer k d) t' count g))
              (append_one got c bytes),
    ),
  )

  -- The buffer is empty: the read goes on to wait.
  read_empty :
      (fuel n : ℕ) (k : Keyboard) (got : List ℕ)
      → IsRing k.buffer
      → characters k.buffer ≡ []
      → length got < count
      → Reads now k t count got (line (suc n) []) (terminal_read (suc fuel) now k t count got)
  read_empty fuel n k got i e l =
      let p = buffer_pop-IsRing k.buffer i in
      let b : CircleBuffer = (buffer_pop k.buffer).0 in
      elim p.1 [
        | inl q ↦ absurd (ground (arith, sym e ∙ q))
        | inr q ↦ (
          b,
          p.0,
          (ap characters q.1 ∙ e),
          (
            fuel,
            read_step fuel k got 0 l q.0
                ∙ ap
                    (λ g.
                      keyboard_wait_for_char fuel now (with_buffer k b) t g
                        (λ t'. terminal_read fuel now (with_buffer k b) t' count g))
                    (sym (append_nil got)),
          ),
        )
      ]

  -- The buffer behind the character `c`, and the read that goes on from there.
  record Popped (k : Keyboard) (cs : List ℕ) (c : ℕ) : Type 0 where
    pub ring : IsRing (buffer_pop k.buffer).0
    pub left : characters (buffer_pop k.buffer).0 ≡ cs
    pub char : (buffer_pop k.buffer).1 ≡ c

  pop-Popped :
      (k : Keyboard) (c : ℕ) (cs : List ℕ)
      → IsRing k.buffer
      → characters k.buffer ≡ c ∷ cs
      → Popped k cs c
  pop-Popped k c cs i e =
      let p = buffer_pop-IsRing k.buffer i in
      elim p.1 [
        | inl q ↦ record {
          ring = p.0;
          left = ap tail (sym q ∙ e);
          char = ap (first_or 0) (sym q ∙ e);
        }
        | inr q ↦ absurd (ground (arith, sym e ∙ q.2))
      ]

  take_eof :
      (k : Keyboard) (got : List ℕ) (c : ℕ) (next : List ℕ → Reading)
      → c ≡ 4
      → take_char k t got c next ≡ done k t got
  unfolding take_char
  take_eof k got c next e = if_true (c == 4) _ _ (eq→== c 4 e)

  take_newline :
      (k : Keyboard) (got : List ℕ) (c : ℕ) (next : List ℕ → Reading)
      → c ≢ 4
      → c ≡ 10
      → take_char k t got c next ≡ done k t (got ++ c ∷ [])
  unfolding take_char
  take_newline k got c next n e =
      if_false (c == 4) _ _ (ne→== c 4 n) ∙ if_true (c == 10) _ _ (eq→== c 10 e)

  take_other :
      (k : Keyboard) (got : List ℕ) (c : ℕ) (next : List ℕ → Reading)
      → c ≢ 4
      → c ≢ 10
      → take_char k t got c next ≡ next (got ++ c ∷ [])
  unfolding take_char
  take_other k got c next n m =
      if_false (c == 4) _ _ (ne→== c 4 n) ∙ if_false (c == 10) _ _ (ne→== c 10 m)

  read_char :
      (fuel : ℕ) (k : Keyboard) (got cs : List ℕ) (c : ℕ)
      → Popped k cs c
      → c ≢ 0
      → length got < count
      → terminal_read (suc fuel) now k t count got
        ≡ take_char
            (with_buffer k (buffer_pop k.buffer).0)
            t
            got
            c
            (λ got'. terminal_read fuel now (with_buffer k (buffer_pop k.buffer).0) t count got')
  read_char fuel k got cs c p z l =
      read_step fuel k got c l p.char ∙ if_false (c == 0) _ _ (ne→== c 0 z)

  -- A read of the terminal takes from the buffer exactly the characters of the next line: at most
  -- `count`, up to the end of the line, or up to a ^D, which is taken and not handed over. If they run
  -- out before, it goes on to wait for a character with the buffer empty and the bytes kept. The
  -- buffer is valid and holds no 0, and the fuel is larger than the number of its characters.
  pub terminal_read-Reads :
      (fuel : ℕ) (k : Keyboard) (got cs : List ℕ) (n : ℕ)
      → IsRing k.buffer
      → characters k.buffer ≡ cs
      → All (λ c. c ≢ 0) cs
      → length got + n ≡ count
      → length cs < fuel
      → Reads now k t count got (line n cs) (terminal_read fuel now k t count got)
  terminal_read-Reads zero k got cs n i e a l f = absurd (omega (arith, f))
  terminal_read-Reads (suc fuel) k got cs zero i e a l f = (
    k.buffer,
    i,
    e,
    read_full fuel k got (omega (arith, l)) ∙ ap (done k t) (sym (append_nil got)),
  )
  terminal_read-Reads (suc fuel) k got [] (suc n) i e a l f =
      read_empty fuel n k got i e (omega (arith, l))
  terminal_read-Reads (suc fuel) k got (c ∷ cs) (suc n) i e a l f =
      let p = pop-Popped k c cs i e in
      let b : CircleBuffer = (buffer_pop k.buffer).0 in
      let s = read_char fuel k got cs c p a.0 (omega (arith, l)) in
      elim (eq-cases c 4) [
        | inl v ↦ rw (eq→== c 4 v) (
          b,
          p.ring,
          p.left,
          s
              ∙ take_eof (with_buffer k b) got c _ v
              ∙ ap (done (with_buffer k b) t) (sym (append_nil got)),
        )
        | inr v ↦ elim (eq-cases c 10) [
          | inl w ↦
              rw (ne→== c 4 v, eq→== c 10 w)
                (b, p.ring, p.left, s ∙ take_newline (with_buffer k b) got c _ v w)
          | inr w ↦
              rw (ne→== c 4 v, ne→== c 10 w)
                (Reads-with_char k b got c (line n cs) (terminal_read (suc fuel) now k t count got)
                  (subst (Reads now (with_buffer k b) t count (got ++ c ∷ []) (line n cs))
                    (sym (s ∙ take_other (with_buffer k b) got c _ v w))
                    (terminal_read-Reads fuel (with_buffer k b) (got ++ c ∷ []) cs n p.ring p.left
                      a.1 (omega (arith, l, length-append got (c ∷ []))) (omega (arith, f)))))
        ]
      ]
