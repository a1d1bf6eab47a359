-- ===== src/Userland.antt =====
-- Userland/SampleCodeModule/lib/utils/lib_utils.c and the conversions of lib_io.c. A string is the list
-- of its characters up to the final 0.
pub mod Numbers
pub mod Strings
pub mod Format
use so_tp.Base.{
  ℕ, zero, suc, ◌+◌, ◌-◌, ◌*◌, ◌/◌, ◌%◌, ◌^◌, ℤ, pos, negsuc, Bool, true, false, ◌&&◌, ◌||◌, List,
  [], ◌∷◌, ◌++◌, ◌==◌, ◌!=◌, leb, ltb, if◌then◌else◌, Option, none, some,
}

unfoldable pub strlen : List ℕ → ℕ
strlen [] = 0
strlen (c ∷ cs) = let rest = strlen cs in if c == 0 then 0 else rest + 1

-- The characters that the loop of `strncpy` copies, at most `n`.
unfoldable pub copy_from : ℕ → List ℕ → List ℕ
copy_from zero cs = []
copy_from (suc n) [] = []
copy_from (suc n) (c ∷ cs) = let rest = copy_from n cs in if c == 0 then [] else c ∷ rest

-- What is stored at `dest` before the final 0; for `n` 0 the bound wraps around.
unfoldable pub strncpy : List ℕ → ℕ → List ℕ
strncpy src n = copy_from ((n + (2 ^ 64 - 1)) % 2 ^ 64) src

-- The difference of two characters, as an `int`.
unfoldable pub char_diff : ℕ → ℕ → ℤ
char_diff a b = if ltb a b then negsuc (b - a - 1) else pos (a - b)

unfoldable pub strcmp : List ℕ → List ℕ → ℤ
strcmp [] [] = pos 0
strcmp [] (d ∷ ds) = char_diff 0 d
strcmp (c ∷ cs) [] = char_diff c 0
strcmp (c ∷ cs) (d ∷ ds) =
    let rest = strcmp cs ds in if c != 0 && c == d then rest else char_diff c d

abbrev pub is_blank : ℕ → Bool
is_blank c = c == 32 || c == 9 || c == 10

unfoldable pub skip_blanks : List ℕ → List ℕ
skip_blanks [] = []
skip_blanks (c ∷ cs) = let rest = skip_blanks cs in if is_blank c then rest else c ∷ cs

-- The loop over the digits, from `res` on, in an `int`: where a sum does not fit, C says nothing of
-- the result.
unfoldable pub read_digits : ℕ → List ℕ → Option ℕ
read_digits res [] = some res
read_digits res (c ∷ cs) =
    let sum = res * 10 + (c - 48) in
    let rest = read_digits sum cs in
    if leb 48 c && leb c 57 then if ltb sum (2 ^ 31) then rest else none else some res

unfoldable pub negated : ℕ → ℤ
negated zero = pos 0
negated (suc n) = negsuc n

-- `sign * res`.
unfoldable pub with_sign : (ℕ → ℤ) → Option ℕ → Option ℤ
with_sign sign none = none
with_sign sign (some res) = some (sign res)

unfoldable pub read_signed : List ℕ → Option ℤ
read_signed [] = some (pos 0)
read_signed (c ∷ cs) =
    if c == 45
    then with_sign negated (read_digits 0 cs)
    else if c == 43
    then with_sign pos (read_digits 0 cs)
    else with_sign pos (read_digits 0 (c ∷ cs))

-- The result is `none` where a number does not fit into an `int`.
unfoldable pub atoi : List ℕ → Option ℤ
atoi str = read_signed (skip_blanks str)

-- The digits of `value` in front of `buf`; `buf` of the code holds them in the other order, and has
-- room for 21.
unfoldable pub digits_of : ℕ → ℕ → List ℕ → List ℕ
digits_of zero value buf = buf
digits_of (suc room) value buf =
    let rest = digits_of room (value / 10) ((48 + value % 10) ∷ buf) in
    if value == 0 then buf else rest

-- What `append_unsigned_to_str` and `append_signed_to_str` write; they answer the length.
unfoldable pub append_unsigned_to_str : ℕ → List ℕ
append_unsigned_to_str value = if value == 0 then 48 ∷ [] else digits_of 21 value []

unfoldable pub append_signed_to_str : ℤ → List ℕ
append_signed_to_str (pos n) = append_unsigned_to_str n
append_signed_to_str (negsuc n) = 45 ∷ append_unsigned_to_str (n + 1)
