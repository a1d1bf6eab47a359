-- ===== src/Userland/Format.antt =====
-- Userland/SampleCodeModule/lib/utils/lib_io.c, `sprintf`. The arguments that `va_arg` takes are a list;
-- `none` stands for a call whose arguments do not fit the format, which is undefined.
use so_tp.Base.{
  ℕ, ◌+◌, ◌≡◌, refl, sym, ◌∙◌, subst, arith, ℤ, Bool, true, Option, none, some, List, [], ◌∷◌, ◌++◌,
  ◌==◌, if◌then◌else◌, length, length-append, if_true, if_false, eq→==, ne→==, eq-cases, inl, inr,
}
use so_tp.Userland.{append_signed_to_str, append_unsigned_to_str}

-- A string (NULL is the empty one), a character, and the numbers of any width.
pub data Arg : Type 0 where
  text : List ℕ → Arg
  char : ℕ → Arg
  signed : ℤ → Arg
  unsigned : ℕ → Arg

-- The characters written, and the count that is returned.
pub record Printed : Type 0 where
  pub str : List ℕ
  pub count : ℕ

unfoldable pub put : Printed → List ℕ → Printed
put p cs = record { str = p.str ++ cs; count = p.count + length cs }

-- What the conversion `spec` writes for the argument, if it fits.
unfoldable pub convert : ℕ → Arg → Option (List ℕ)
convert spec (text s) = if spec == 115 then some s else none
convert spec (char c) = if spec == 99 then some (c ∷ []) else none
convert spec (signed v) = if spec == 100 then some (append_signed_to_str v) else none
convert spec (unsigned v) = if spec == 117 then some (append_unsigned_to_str v) else none

abbrev pub takes_argument : ℕ → Bool
takes_argument c =
    if c == 115 then true else if c == 99 then true else if c == 100 then true else c == 117

unfoldable pub apply_arg : ℕ → List Arg → Option (List ℕ × List Arg)
apply_arg spec [] = none
apply_arg spec (a ∷ args) = elim (convert spec a) [ none ↦ none | some cs ↦ some (cs, args) ]

-- Where the loop stands in the format: outside a conversion, behind its `%`, or behind an `l`.
pub data Mode : Type 0 where
  plain percent long : Mode

-- The conversion `c`; another character than those four is written behind the `%`.
unfoldable pub conversion : ℕ → List Arg → Option (List ℕ × List Arg)
conversion c args = if takes_argument c then apply_arg c args else some (37 ∷ c ∷ [], args)

-- The loop over the format. A format that ends behind an `l` is read on behind its end.
unfoldable pub format_loop : Mode → List ℕ → List Arg → Printed → Option Printed
format_loop plain [] args p = some p
format_loop percent [] args p = some p
format_loop long [] args p = none
format_loop plain (c ∷ cs) args p =
    let begins = format_loop percent cs args p in
    let copied = format_loop plain cs args (put p (c ∷ [])) in if c == 37 then begins else copied
format_loop percent (c ∷ cs) args p =
    let literal = format_loop plain cs args (put p (37 ∷ [])) in
    let modified = format_loop long cs args p in
    if c == 37 then literal else if c == 108 then modified else elim (conversion c args) [
      | none ↦ none
      | some (out, rest) ↦ format_loop plain cs rest (put p out)
    ]
format_loop long (c ∷ cs) args p =
    let modified = format_loop long cs args p in
    if c == 108 then modified else elim (conversion c args) [
      | none ↦ none
      | some (out, rest) ↦ format_loop plain cs rest (put p out)
    ]

unfoldable pub sprintf : List ℕ → List Arg → Option Printed
sprintf fmt args = format_loop plain fmt args (record { str = []; count = 0 })

-- The count is the number of the characters written.
abbrev pub Counted : Option Printed → Type 0
Counted none = Unit {0}
Counted (some p) = p.count ≡ length p.str

put-Counted :
    (p : Printed) (cs : List ℕ) → p.count ≡ length p.str → (put p cs).count ≡ length (put p cs).str
unfolding put
put-Counted p cs e = omega (arith, e, length-append p.str cs)

format_loop-Counted :
    (m : Mode) (fmt : List ℕ) (args : List Arg) (p : Printed)
    → p.count ≡ length p.str
    → Counted (format_loop m fmt args p)
unfolding format_loop
format_loop-Counted plain [] args p e = e
format_loop-Counted percent [] args p e = e
format_loop-Counted long [] args p e = tt
format_loop-Counted plain (c ∷ cs) args p e = elim (eq-cases c 37) [
  | inl w ↦
      subst Counted (sym (if_true (c == 37) _ _ (eq→== c 37 w)))
        (format_loop-Counted percent cs args p e)
  | inr n ↦
      subst Counted (sym (if_false (c == 37) _ _ (ne→== c 37 n)))
        (format_loop-Counted plain cs args (put p (c ∷ [])) (put-Counted p (c ∷ []) e))
]
format_loop-Counted percent (c ∷ cs) args p e = elim (eq-cases c 37) [
  | inl w ↦
      subst Counted (sym (if_true (c == 37) _ _ (eq→== c 37 w)))
        (format_loop-Counted plain cs args (put p (37 ∷ [])) (put-Counted p (37 ∷ []) e))
  | inr n ↦ elim (eq-cases c 108) [
    | inl w ↦
        subst Counted
          (sym (if_false (c == 37) _ _ (ne→== c 37 n) ∙ if_true (c == 108) _ _ (eq→== c 108 w)))
          (format_loop-Counted long cs args p e)
    | inr k ↦
        subst Counted
          (sym (if_false (c == 37) _ _ (ne→== c 37 n) ∙ if_false (c == 108) _ _ (ne→== c 108 k)))
          (elim (conversion c args)
            as (λ r.
              Counted (elim r [
                | none ↦ none
                | some (out, rest) ↦ format_loop plain cs rest (put p out)
              ])) [
                | none ↦ tt
                | some (out, rest) ↦
                    format_loop-Counted plain cs rest (put p out) (put-Counted p out e)
              ])
  ]
]
format_loop-Counted long (c ∷ cs) args p e = elim (eq-cases c 108) [
  | inl w ↦
      subst Counted (sym (if_true (c == 108) _ _ (eq→== c 108 w)))
        (format_loop-Counted long cs args p e)
  | inr k ↦
      subst Counted (sym (if_false (c == 108) _ _ (ne→== c 108 k)))
        (elim (conversion c args)
          as (λ r.
            Counted
              (elim r [ none ↦ none | some (out, rest) ↦ format_loop plain cs rest (put p out) ])) [
                | none ↦ tt
                | some (out, rest) ↦
                    format_loop-Counted plain cs rest (put p out) (put-Counted p out e)
              ])
]

-- `sprintf` returns the number of the characters that it has written before the final 0, in every call
-- that is defined.
pub sprintf-Counted : (fmt : List ℕ) (args : List Arg) → Counted (sprintf fmt args)
unfolding sprintf
sprintf-Counted fmt args = format_loop-Counted plain fmt args (record { str = []; count = 0 }) refl
