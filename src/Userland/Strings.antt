-- ===== src/Userland/Strings.antt =====
-- Userland/SampleCodeModule/lib/utils/lib_utils.c: comparing and copying strings.
use so_tp.Base.{
  ℕ, ◌≡◌, ◌≢◌, ◌↔◌, refl, sym, ◌∙◌, ap, inl, inr, arith, pos, ◌&&◌, List, [], ◌∷◌, ◌==◌, ◌!=◌, ltb,
  All, eq-cases, if_true, if_false,
}
use so_tp.Userland.{char_diff, strcmp}

char_diff_self : (a : ℕ) → char_diff a a ≡ pos 0
unfolding char_diff
char_diff_self a = if_false (ltb a a) _ _ (ground arith) ∙ ap pos (omega arith)

char_diff_zero : (a b : ℕ) → char_diff a b ≡ pos 0 → a ≡ b
unfolding char_diff
char_diff_zero a b e = ground (arith, e)

strcmp_step : (c : ℕ) (cs ds : List ℕ) → c ≢ 0 → strcmp (c ∷ cs) (c ∷ ds) ≡ strcmp cs ds
unfolding strcmp
strcmp_step c cs ds n = if_true (c != 0 && c == c) _ _ (ground (arith, n))

strcmp_stop : (c d : ℕ) (cs ds : List ℕ) → c ≢ d → strcmp (c ∷ cs) (d ∷ ds) ≡ char_diff c d
unfolding strcmp
strcmp_stop c d cs ds n = if_false (c != 0 && c == d) _ _ (ground (arith, n))

strcmp_left : (c : ℕ) (cs : List ℕ) → strcmp (c ∷ cs) [] ≡ char_diff c 0
unfolding strcmp
strcmp_left c cs = refl

strcmp_right : (d : ℕ) (ds : List ℕ) → strcmp [] (d ∷ ds) ≡ char_diff 0 d
unfolding strcmp
strcmp_right d ds = refl

strcmp_nil : strcmp [] [] ≡ pos 0
unfolding strcmp
strcmp_nil = refl

strcmp_self : (xs : List ℕ) → All (λ c. c ≢ 0) xs → strcmp xs xs ≡ pos 0
strcmp_self [] a = strcmp_nil
strcmp_self (c ∷ cs) a = strcmp_step c cs cs a.0 ∙ strcmp_self cs a.1

strcmp_zero :
    (xs ys : List ℕ) → All (λ c. c ≢ 0) xs → All (λ c. c ≢ 0) ys → strcmp xs ys ≡ pos 0 → xs ≡ ys
strcmp_zero [] [] a b e = refl
strcmp_zero [] (d ∷ ds) a b e =
    absurd (b.0 (sym (char_diff_zero 0 d (sym (strcmp_right d ds) ∙ e))))
strcmp_zero (c ∷ cs) [] a b e = absurd (a.0 (char_diff_zero c 0 (sym (strcmp_left c cs) ∙ e)))
strcmp_zero (c ∷ cs) (d ∷ ds) a b e = elim (eq-cases c d) [
  | inl same ↦
      let t : strcmp (c ∷ cs) (c ∷ ds) ≡ pos 0 = ap (λ x. strcmp (c ∷ cs) (x ∷ ds)) same ∙ e in
      ap (λ x. x ∷ cs) same
      ∙ ap (λ ys. d ∷ ys) (strcmp_zero cs ds a.1 b.1 (sym (strcmp_step c cs ds a.0) ∙ t))
  | inr other ↦ absurd (other (char_diff_zero c d (sym (strcmp_stop c d cs ds other) ∙ e)))
]

-- `strcmp` answers 0 exactly for equal strings, those without a 0 in them.
pub strcmp-eq :
    (xs ys : List ℕ)
    → All (λ c. c ≢ 0) xs
    → All (λ c. c ≢ 0) ys
    → (strcmp xs ys ≡ pos 0) ↔ (xs ≡ ys)
strcmp-eq xs ys a b = (strcmp_zero xs ys a b, λ e. ap (strcmp xs) (sym e) ∙ strcmp_self xs a)
