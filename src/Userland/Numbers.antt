-- ===== src/Userland/Numbers.antt =====
-- Userland/SampleCodeModule/lib/utils: `atoi` of lib_utils.c reads what the conversions of lib_io.c
-- write.
use so_tp.Base.{
  ℕ, zero, suc, ◌+◌, ◌*◌, ◌/◌, ◌%◌, ◌^◌, ◌≡◌, ◌≢◌, ◌<◌, ◌≤◌, refl, sym, ◌∙◌, ap, inl, inr, arith, ℤ,
  pos, negsuc, false, List, [], ◌∷◌, ◌==◌, leb, eq-cases, if_true, if_false, eq→==, ne→==, subst,
  some, ◌&&◌, ltb, ◌-◌,
}
use so_tp.Userland.{
  is_blank, skip_blanks, read_digits, negated, read_signed, with_sign, atoi, digits_of,
  append_unsigned_to_str, append_signed_to_str,
}

-- The numbers that `n` digits can hold.
abbrev room : ℕ → ℕ
room zero = 1
room (suc n) = 10 * room n

digits_of_zero : (n : ℕ) (buf : List ℕ) → digits_of n 0 buf ≡ buf
unfolding digits_of
digits_of_zero zero buf = refl
digits_of_zero (suc n) buf = refl

none_left : (v : ℕ) (buf : List ℕ) → digits_of 0 v buf ≡ buf
unfolding digits_of
none_left v buf = refl

digits_of_step :
    (n v : ℕ) (buf : List ℕ)
    → v ≢ 0
    → digits_of (suc n) v buf ≡ digits_of n (v / 10) ((48 + v % 10) ∷ buf)
unfolding digits_of
digits_of_step n v buf h = if_false (v == 0) _ _ (ne→== v 0 h)

read_digits_step :
    (res d : ℕ) (cs : List ℕ)
    → d < 10
    → res * 10 + d < 2 ^ 31
    → read_digits res ((48 + d) ∷ cs) ≡ read_digits (res * 10 + d) cs
unfolding read_digits
read_digits_step res d cs h k =
    if_true (leb 48 (48 + d) && leb (48 + d) 57) _ _ (ground (arith, h))
    ∙ if_true (ltb (res * 10 + (48 + d - 48)) (2 ^ 31)) _ _ (ground (arith, k))
    ∙ ap (λ x. read_digits (res * 10 + x) cs) (omega arith)

-- Reading the digits of `v` in front of `buf` is reading `buf` from `v` on.
read_digits-digits_of :
    (n v : ℕ) (buf : List ℕ)
    → v < room n
    → v < 2 ^ 31
    → read_digits 0 (digits_of n v buf) ≡ read_digits v buf
read_digits-digits_of zero v buf h k =
    ap (read_digits 0) (none_left v buf) ∙ ap (λ x. read_digits x buf) (omega (arith, h))
read_digits-digits_of (suc n) v buf h k = elim (eq-cases v 0) [
  | inl e ↦
      ap (λ x. read_digits 0 (digits_of (suc n) x buf)) e
      ∙ ap (read_digits 0) (digits_of_zero (suc n) buf)
      ∙ ap (λ x. read_digits x buf) (sym e)
  | inr e ↦
      ap (read_digits 0) (digits_of_step n v buf e)
      ∙ read_digits-digits_of n (v / 10) ((48 + v % 10) ∷ buf) (omega (arith, h)) (omega (arith, k))
      ∙ read_digits_step (v / 10) (v % 10) buf (omega arith) (omega (arith, k))
      ∙ ap (λ x. read_digits x buf) (omega arith)
]

-- A text that starts with a digit.
abbrev Leading : List ℕ → Type 0
Leading [] = ⊥
Leading (c ∷ cs) = (48 ≤ c) × (c ≤ 57)

digits_of-Leading : (n v : ℕ) (buf : List ℕ) → Leading buf → Leading (digits_of n v buf)
digits_of-Leading zero v buf l = subst Leading (sym (none_left v buf)) l
digits_of-Leading (suc n) v buf l = elim (eq-cases v 0) [
  | inl e ↦ subst Leading (sym (ap (λ x. digits_of (suc n) x buf) e ∙ digits_of_zero (suc n) buf)) l
  | inr e ↦
      subst Leading (sym (digits_of_step n v buf e))
        (digits_of-Leading n (v / 10) ((48 + v % 10) ∷ buf) (omega arith, omega arith))
]

unsigned-Leading : (v : ℕ) → Leading (append_unsigned_to_str v)
unfolding append_unsigned_to_str
unsigned-Leading v = elim (eq-cases v 0) [
  | inl e ↦ subst Leading (sym (if_true (v == 0) _ _ (eq→== v 0 e))) (omega arith, omega arith)
  | inr e ↦
      subst Leading (sym (if_false (v == 0) _ _ (ne→== v 0 e) ∙ digits_of_step 20 v [] e))
        (digits_of-Leading 20 (v / 10) ((48 + v % 10) ∷ []) (omega arith, omega arith))
]

zero_digit : read_digits 0 (48 ∷ []) ≡ some 0
unfolding read_digits
zero_digit = refl

nothing_left : (v : ℕ) → read_digits v [] ≡ some v
unfolding read_digits
nothing_left v = refl

read_digits-unsigned : (v : ℕ) → v < 2 ^ 31 → read_digits 0 (append_unsigned_to_str v) ≡ some v
unfolding append_unsigned_to_str
read_digits-unsigned v h = elim (eq-cases v 0) [
  | inl e ↦ ap (read_digits 0) (if_true (v == 0) _ _ (eq→== v 0 e)) ∙ zero_digit ∙ ap some (sym e)
  | inr e ↦
      ap (read_digits 0) (if_false (v == 0) _ _ (ne→== v 0 e))
      ∙ read_digits-digits_of 21 v [] (omega (arith, h)) h
      ∙ nothing_left v
]

read_minus : (cs : List ℕ) → read_signed (45 ∷ cs) ≡ with_sign negated (read_digits 0 cs)
unfolding read_signed
read_minus cs = refl

with_sign-some : (sign : ℕ → ℤ) (n : ℕ) → with_sign sign (some n) ≡ some (sign n)
unfolding with_sign
with_sign-some sign n = refl

negated_suc : (n : ℕ) → negated (n + 1) ≡ negsuc n
unfolding negated
negated_suc n = ap negated (succ n)
  where
    succ : (n : ℕ) → n + 1 ≡ suc n
    succ n = omega arith

-- The numbers of an `int` whose absolute value is one too.
abbrev pub Fits : ℤ → Type 0
Fits (pos n) = n < 2 ^ 31
Fits (negsuc n) = n + 1 < 2 ^ 31

skip_none : (c : ℕ) (cs : List ℕ) → is_blank c ≡ false → skip_blanks (c ∷ cs) ≡ c ∷ cs
unfolding skip_blanks
skip_none c cs e = if_false (is_blank c) _ _ e

read_plain : (cs : List ℕ) → Leading cs → read_signed cs ≡ with_sign pos (read_digits 0 cs)
unfolding read_signed
read_plain [] l = absurd l
read_plain (c ∷ cs) l =
    if_false (c == 45) _ _ (ne→== c 45 (omega (arith, l.0)))
    ∙ if_false (c == 43) _ _ (ne→== c 43 (omega (arith, l.0)))

skip-Leading : (cs : List ℕ) → Leading cs → skip_blanks cs ≡ cs
skip-Leading [] l = absurd l
skip-Leading (c ∷ cs) l = skip_none c cs (ground (arith, l.0))

-- `atoi` reads back every number of an `int` but the least that `append_signed_to_str` has written,
-- and no sum on the way overflows.
pub atoi-append_signed_to_str : (v : ℤ) → Fits v → atoi (append_signed_to_str v) ≡ some v
unfolding atoi append_signed_to_str
atoi-append_signed_to_str (pos n) h =
    ap read_signed (skip-Leading (append_unsigned_to_str n) (unsigned-Leading n))
    ∙ read_plain (append_unsigned_to_str n) (unsigned-Leading n)
    ∙ ap (with_sign pos) (read_digits-unsigned n h)
    ∙ with_sign-some pos n
atoi-append_signed_to_str (negsuc n) h =
    ap read_signed (skip_none 45 (append_unsigned_to_str (n + 1)) refl)
    ∙ read_minus (append_unsigned_to_str (n + 1))
    ∙ ap (with_sign negated) (read_digits-unsigned (n + 1) h)
    ∙ with_sign-some negated (n + 1)
    ∙ ap some (negated_suc n)
