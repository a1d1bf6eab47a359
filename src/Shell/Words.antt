-- ===== src/Shell/Words.antt =====
-- Userland/SampleCodeModule/shell/command_parser.c, `fillCommandAndArgs` against the words of a line.
use so_tp.Base.{
  ℕ, zero, suc, ◌+◌, ◌-◌, ◌≡◌, ◌≢◌, ◌<◌, ◌≤◌, refl, sym, ◌∙◌, ap, inl, inr, arith, Bool, true,
  false, List, [], ◌∷◌, ◌==◌, if◌then◌else◌, All, All-map, length, eq-cases, if_true, if_false,
  eq→==, ne→==, subst,
}
use mathlib.Core.Path.{ap₂}
use so_tp.Shell.{scan, drop, cstring, texts, fill_command_and_args}

-- The characters up to a space.
abbrev pub word : List ℕ → List ℕ
word [] = []
word (c ∷ cs) = if c == 32 then [] else c ∷ word cs

-- The words of a line; a word that has begun already is left out.
abbrev pub words : Bool → List ℕ → List (List ℕ)
words begun [] = []
words begun (c ∷ cs) =
    let later = words true cs in
    if c == 32 then words false cs else if begun then later else (c ∷ word cs) ∷ later

-- What the scan from `i` on finds in `cs`.
record Scanned (i : ℕ) (begun : Bool) (cs : List ℕ) (r : List ℕ × List ℕ) : Type 0 where
  pub starts : All (λ s. i ≤ s) r.0
  pub front : cstring r.1 ≡ word cs
  pub found : texts i r.1 r.0 ≡ words begun cs

minus_step : (s i : ℕ) → i + 1 ≤ s → s - i ≡ suc (s - (i + 1))
minus_step s i h = omega (arith, h)

minus_self : (i : ℕ) → i - i ≡ 0
minus_self i = omega arith

texts_behind :
    (i x : ℕ) (out starts : List ℕ)
    → All (λ s. i + 1 ≤ s) starts
    → texts i (x ∷ out) starts ≡ texts (i + 1) out starts
texts_behind i x out [] a = refl
texts_behind i x out (s ∷ starts) a =
    ap₂ ◌∷◌ (ap (λ n. cstring (drop n (x ∷ out))) (minus_step s i a.0))
      (texts_behind i x out starts a.1)

lower : (i : ℕ) (starts : List ℕ) → All (λ s. i + 1 ≤ s) starts → All (λ s. i ≤ s) starts
lower i starts a = All-map (λ s h. omega (arith, h)) starts a

scan_cut :
    (room i : ℕ) (begun : Bool) (c : ℕ) (cs : List ℕ)
    → c ≡ 32
    → scan (suc room) i begun (c ∷ cs)
      ≡ ((scan (suc room) (i + 1) false cs).0, 0 ∷ (scan (suc room) (i + 1) false cs).1)
unfolding scan
scan_cut room i begun c cs e = if_true (c == 32) _ _ (eq→== c 32 e)

scan_inside :
    (room i c : ℕ) (cs : List ℕ)
    → c ≢ 32
    → scan (suc room) i true (c ∷ cs)
      ≡ ((scan (suc room) (i + 1) true cs).0, c ∷ (scan (suc room) (i + 1) true cs).1)
unfolding scan
scan_inside room i c cs n = if_false (c == 32) _ _ (ne→== c 32 n)

scan_begin :
    (room i c : ℕ) (cs : List ℕ)
    → c ≢ 32
    → scan (suc room) i false (c ∷ cs)
      ≡ (i ∷ (scan room (i + 1) true cs).0, c ∷ (scan room (i + 1) true cs).1)
unfolding scan
scan_begin room i c cs n = if_false (c == 32) _ _ (ne→== c 32 n)

Scanned-cut :
    (i c : ℕ) (begun : Bool) (cs : List ℕ) (r : List ℕ × List ℕ)
    → c ≡ 32
    → Scanned (i + 1) false cs r
    → Scanned i begun (c ∷ cs) (r.0, 0 ∷ r.1)
Scanned-cut i c begun cs r e s = record {
  starts = lower i r.0 s.starts;
  front = rw (eq→== c 32 e);
  found = texts_behind i 0 r.1 r.0 s.starts ∙ s.found ∙ sym (if_true (c == 32) _ _ (eq→== c 32 e));
}

Scanned-inside :
    (i c : ℕ) (cs : List ℕ) (r : List ℕ × List ℕ)
    → c ≢ 32
    → c ≢ 0
    → Scanned (i + 1) true cs r
    → Scanned i true (c ∷ cs) (r.0, c ∷ r.1)
Scanned-inside i c cs r n z s = record {
  starts = lower i r.0 s.starts;
  front = rw (ne→== c 0 z, ne→== c 32 n) (ap (λ x. c ∷ x) s.front);
  found = texts_behind i c r.1 r.0 s.starts ∙ s.found ∙ sym (if_false (c == 32) _ _ (ne→== c 32 n));
}

Scanned-begin :
    (i c : ℕ) (cs : List ℕ) (r : List ℕ × List ℕ)
    → c ≢ 32
    → c ≢ 0
    → Scanned (i + 1) true cs r
    → Scanned i false (c ∷ cs) (i ∷ r.0, c ∷ r.1)
Scanned-begin i c cs r n z s = record {
  starts = (omega arith, lower i r.0 s.starts);
  front = rw (ne→== c 0 z, ne→== c 32 n) (ap (λ x. c ∷ x) s.front);
  found =
      ap₂ ◌∷◌
        (ap (λ k. cstring (drop k (c ∷ r.1))) (minus_self i)
          ∙ if_false (c == 0) _ _ (ne→== c 0 z)
          ∙ ap (λ x. c ∷ x) s.front)
        (texts_behind i c r.1 r.0 s.starts ∙ s.found)
      ∙ sym (if_false (c == 32) _ _ (ne→== c 32 n));
}

words_cut : (begun : Bool) (c : ℕ) (cs : List ℕ) → c ≡ 32 → words begun (c ∷ cs) ≡ words false cs
words_cut begun c cs e = if_true (c == 32) _ _ (eq→== c 32 e)

words_inside : (c : ℕ) (cs : List ℕ) → c ≢ 32 → words true (c ∷ cs) ≡ words true cs
words_inside c cs n = if_false (c == 32) _ _ (ne→== c 32 n)

words_begin : (c : ℕ) (cs : List ℕ) → c ≢ 32 → words false (c ∷ cs) ≡ (c ∷ word cs) ∷ words true cs
words_begin c cs n = if_false (c == 32) _ _ (ne→== c 32 n)

nothing : (room i : ℕ) (begun : Bool) → Scanned i begun [] (scan room i begun [])
unfolding scan
nothing room i begun = record { starts = tt; front = refl; found = refl }

scan-Scanned :
    (room i : ℕ) (begun : Bool) (cs : List ℕ)
    → All (λ c. c ≢ 0) cs
    → length (words begun cs) < room
    → Scanned i begun cs (scan room i begun cs)
scan-Scanned room i begun [] a l = nothing room i begun
scan-Scanned zero i begun (c ∷ cs) a l = absurd (omega (arith, l))
scan-Scanned (suc room) i true (c ∷ cs) a l = elim (eq-cases c 32) [
  | inl e ↦ subst (Scanned i true (c ∷ cs)) (sym (scan_cut room i true c cs e)) (
      Scanned-cut i c true cs (scan (suc room) (i + 1) false cs) e (
        scan-Scanned (suc room) (i + 1) false cs a.1
          (omega (arith, l, ap length (words_cut true c cs e)))))
  | inr n ↦ subst (Scanned i true (c ∷ cs)) (sym (scan_inside room i c cs n)) (
      Scanned-inside i c cs (scan (suc room) (i + 1) true cs) n a.0 (
        scan-Scanned (suc room) (i + 1) true cs a.1
          (omega (arith, l, ap length (words_inside c cs n)))))
]
scan-Scanned (suc room) i false (c ∷ cs) a l = elim (eq-cases c 32) [
  | inl e ↦ subst (Scanned i false (c ∷ cs)) (sym (scan_cut room i false c cs e)) (
      Scanned-cut i c false cs (scan (suc room) (i + 1) false cs) e (
        scan-Scanned (suc room) (i + 1) false cs a.1
          (omega (arith, l, ap length (words_cut false c cs e)))))
  | inr n ↦ subst (Scanned i false (c ∷ cs)) (sym (scan_begin room i c cs n)) (
      Scanned-begin i c cs (scan room (i + 1) true cs) n a.0
        (scan-Scanned room (i + 1) true cs a.1 (omega (arith, l, ap length (words_begin c cs n)))))
]

-- The arguments of a command line are its words, in order, if there are fewer than 32 and the line has
-- no 0 in it.
pub fill_command_and_args-words :
    (input : List ℕ)
    → All (λ c. c ≢ 0) input
    → length (words false input) < 32
    → fill_command_and_args input ≡ words false input
unfolding fill_command_and_args
fill_command_and_args-words input a l = (scan-Scanned 32 0 false input a l).found
