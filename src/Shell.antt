-- ===== src/Shell.antt =====
-- Userland/SampleCodeModule/shell/command_parser.c: the parser of a command line. The table of the
-- commands is a parameter, the list of their names.
pub mod Words
use so_tp.Base.{
  ℕ, zero, suc, ◌+◌, ◌-◌, ℤ, pos, negsuc, Bool, true, false, ◌&&◌, not, Option, none, some, List,
  [], ◌∷◌, ◌++◌, map, ◌==◌, if◌then◌else◌, length,
}
use so_tp.Userland.{strcmp}

abbrev pub max_args : ℕ
max_args = 32

-- The loop of `fillCommandAndArgs` from the index `i` on, with room for `room` arguments: where the
-- arguments start, and the input with its spaces overwritten.
unfoldable pub scan : ℕ → ℕ → Bool → List ℕ → List ℕ × List ℕ
scan room i in_arg [] = ([], [])
scan zero i in_arg (c ∷ cs) = ([], c ∷ cs)
scan (suc room) i in_arg (c ∷ cs) =
    let cut = scan (suc room) (i + 1) false cs in
    let same = scan (suc room) (i + 1) true cs in
    let next = scan room (i + 1) true cs in
    if c == 32
    then (cut.0, 0 ∷ cut.1)
    else if in_arg
    then (same.0, c ∷ same.1)
    else (i ∷ next.0, c ∷ next.1)

abbrev pub drop : ℕ → List ℕ → List ℕ
drop zero cs = cs
drop (suc n) [] = []
drop (suc n) (c ∷ cs) = drop n cs

-- The string that starts at the front of a buffer.
abbrev pub cstring : List ℕ → List ℕ
cstring [] = []
cstring (c ∷ cs) = if c == 0 then [] else c ∷ cstring cs

-- The strings at the addresses `starts`, in a buffer that starts at `i`.
abbrev pub texts : ℕ → List ℕ → List ℕ → List (List ℕ)
texts i out [] = []
texts i out (s ∷ starts) = cstring (drop (s - i) out) ∷ texts i out starts

unfoldable pub fill_command_and_args : List ℕ → List (List ℕ)
fill_command_and_args input = let r = scan max_args 0 false input in texts 0 r.1 r.0

unfoldable pub is_zero : ℤ → Bool
is_zero (pos n) = n == 0
is_zero (negsuc n) = false

-- The index of a command, the search from `i` on.
unfoldable pub find_from : ℕ → List (List ℕ) → List ℕ → Option ℕ
find_from i [] name = none
find_from i (n ∷ names) name =
    let rest = find_from (i + 1) names name in if is_zero (strcmp name n) then some i else rest

unfoldable pub find_command_index : List (List ℕ) → List ℕ → Option ℕ
find_command_index names name = find_from 0 names name

unfoldable pub contains_pipe_symbol : List ℕ → Bool
contains_pipe_symbol [] = false
contains_pipe_symbol (c ∷ cs) =
    let rest = contains_pipe_symbol cs in if c == 124 then true else rest

-- The input up to the first `|`, and what is behind it.
unfoldable pub split_pipe : List ℕ → Option (List ℕ × List ℕ)
split_pipe [] = none
split_pipe (c ∷ cs) =
    let rest = split_pipe cs in
    if c == 124
    then some ([], cs)
    else elim rest [ none ↦ none | some (left, right) ↦ some (c ∷ left, right) ]

unfoldable pub skip_spaces : List ℕ → List ℕ
skip_spaces [] = []
skip_spaces (c ∷ cs) = let rest = skip_spaces cs in if c == 32 then rest else c ∷ cs

-- What `CommandParse` does with a line: an error, an error of the form of a pipe, a pipeline of two
-- commands, or the run of the command with an index.
pub data Parsed : Type 0 where
  error cmd_error : Parsed
  pipeline : List (List ℕ) → List (List ℕ) → Parsed
  run : ℕ → List (List ℕ) → Bool → Parsed

unfoldable pub execute_pipeline : List ℕ → List ℕ → Parsed
execute_pipeline left_input right_input =
    let left = fill_command_and_args left_input in
    let right = fill_command_and_args right_input in
    if length left == 0
    then cmd_error
    else if length right == 0
    then cmd_error
    else pipeline left right

-- The last argument, and those before it.
unfoldable pub split_last : List (List ℕ) → Option (List (List ℕ) × List ℕ)
split_last [] = none
split_last (a ∷ args) = elim (split_last args) [
  | none ↦ some ([], a)
  | some (front, last) ↦ some (a ∷ front, last)
]

unfoldable pub run_command : List (List ℕ) → List (List ℕ) → Bool → Parsed
run_command names [] background = error
run_command names (a ∷ args) background = elim (find_command_index names a) [
  | none ↦ error
  | some i ↦ run i (a ∷ args) background
]

unfoldable pub parse_simple : List (List ℕ) → List ℕ → Parsed
parse_simple names input =
    let args = fill_command_and_args input in
    elim (split_last args) [
      | none ↦ error
      | some (front, last) ↦
          if is_zero (strcmp last (38 ∷ []))
          then run_command names front true
          else run_command names args false
    ]

unfoldable pub command_parse : List (List ℕ) → List ℕ → Parsed
command_parse names input = elim (split_pipe input) [
  | none ↦ parse_simple names input
  | some (left, right) ↦
      if contains_pipe_symbol (skip_spaces right)
      then cmd_error
      else execute_pipeline left (skip_spaces right)
]
