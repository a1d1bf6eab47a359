-- ===== src/Tests/Lines.antt =====
-- Strings and command lines.
use so_tp.Base.{ℕ, ◌≡◌, ◌↔◌, negsuc, pos, false, List, [], ◌∷◌, arith, some}
use so_tp.Userland.{atoi, append_signed_to_str, strcmp}
use so_tp.Userland.Numbers.{atoi-append_signed_to_str}
use so_tp.Userland.Strings.{strcmp-eq}
use so_tp.Shell.{fill_command_and_args}
use so_tp.Shell.Words.{words, fill_command_and_args-words}

-- The least `int` but one.
atoi-append_signed_to_str_example :
    atoi (append_signed_to_str (negsuc 2147483646)) ≡ some (negsuc 2147483646)
atoi-append_signed_to_str_example = atoi-append_signed_to_str (negsuc 2147483646) (omega arith)

abbrev ca : List ℕ
ca = 99 ∷ 97 ∷ []

abbrev c : List ℕ
c = 99 ∷ []

strcmp-eq_example : (strcmp ca c ≡ pos 0) ↔ (ca ≡ c)
strcmp-eq_example = strcmp-eq ca c (omega arith, (omega arith, tt)) (omega arith, tt)

-- " a  bc".
abbrev command : List ℕ
command = 32 ∷ 97 ∷ 32 ∷ 32 ∷ 98 ∷ 99 ∷ []

fill_command_and_args-words_example : fill_command_and_args command ≡ words false command
fill_command_and_args-words_example =
    fill_command_and_args-words command
      (omega arith, (omega arith, (omega arith, (omega arith, (omega arith, (omega arith, tt))))))
      (omega arith)
