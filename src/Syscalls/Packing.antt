-- ===== src/Syscalls/Packing.antt =====
-- Kernel/syscalls/syscalls_kernel.c, `syscall_create_process`, and what
-- Userland/SampleCodeModule/lib/process/lib_process.c gives it: one word for the foreground flag and
-- two pipes.
use so_tp.Base.{
  ℕ, ◌+◌, ◌/◌, ◌%◌, ◌*◌, ◌^◌, ◌≡◌, ◌<◌, ◌≤◌, ap, sym, ◌∙◌, Bool, true, false, ◌&&◌, ◌||◌, Option,
  none, some, List, [], ◌∷◌, ◌==◌, ◌!=◌, leb, if◌then◌else◌, arith, eq-cases, Bool-cases, inl, inr,
  if_true, if_false,
}
use so_tp.Scheduler.{scheduler_current_process, set_foreground}
use so_tp.Semaphore.{Outcome, returns, parks}
use so_tp.Pipe.{PipeTable}
use so_tp.Files.{with_sched}
use so_tp.Process.{Machine, MemoryManager, Request, scheduler_spawn_process}

-- The flag, and the pipes of the standard input and output.
pub record Unpacked : Type 0 where
  pub is_foreground : ℕ
  pub stdin_pipe_id : ℕ
  pub stdout_pipe_id : ℕ

unfoldable pub unpack : ℕ → Unpacked
unpack w =
    if leb w 1
    then record { is_foreground = w; stdin_pipe_id = 0; stdout_pipe_id = 0 }
    else record {
      is_foreground = w / 2 ^ 32 % 2;
      stdin_pipe_id = w % 2 ^ 16;
      stdout_pipe_id = w / 2 ^ 16 % 2 ^ 16;
    }

-- The parts of the word have no bit in common. Bit 33 marks that there are pipes.
unfoldable pub packed : ℕ → ℕ → ℕ → ℕ
packed is_foreground stdin_pipe_id stdout_pipe_id =
    let word =
      stdin_pipe_id % 2 ^ 16 + stdout_pipe_id % 2 ^ 16 * 2 ^ 16 + is_foreground % 2 * 2 ^ 32 in
    if stdin_pipe_id != 0 || stdout_pipe_id != 0 then word + 2 ^ 33 else word

-- "user_process".
abbrev pub user_process : List ℕ
user_process = 117 ∷ 115 ∷ 101 ∷ 114 ∷ 95 ∷ 112 ∷ 114 ∷ 111 ∷ 99 ∷ 101 ∷ 115 ∷ 115 ∷ []

abbrev pub name_or : Option (List ℕ) → List ℕ
name_or none = user_process
name_or (some cs) = cs

unfoldable pub parent_foreground : PipeTable → ℕ → Bool → Bool → PipeTable
parent_foreground t parent given flag =
    if given && parent != 0 then with_sched t (set_foreground t.sems.sched parent flag) else t

module _ {Heap : Type 0} (mm : MemoryManager Heap) (process_size : ℕ)
    (setup_process_context : ℕ → ℕ → ℕ → ℕ) where
  unfoldable pub request_of : Option (List ℕ) → ℕ → ℕ → ℕ → Unpacked → Request
  request_of name function argv parent u = record {
    name = some (name_or name);
    entry_point = function;
    entry_arg = argv;
    parent = parent;
    is_foreground = u.is_foreground != 0;
    stdin_pipe_id = u.stdin_pipe_id;
    stdout_pipe_id = u.stdout_pipe_id;
  }

  -- The answer is the pid of the process, 0 if there is none; the parent then keeps the foreground.
  unfoldable pub syscall_create_process :
      ℕ → Machine Heap → Option (List ℕ) → ℕ → ℕ → ℕ → ℕ → Outcome (Machine Heap × ℕ)
  syscall_create_process now m name function argv priority word =
      let u = unpack word in
      let given = u.is_foreground != 0 in
      let parent = scheduler_current_process m.pipes.sems.sched in
      let m' = record m { pipes = parent_foreground m.pipes parent given false } in
      elim (scheduler_spawn_process mm process_size setup_process_context now m'
        (request_of name function argv parent u) (priority % 2 ^ 8)) [
          | returns (m2, p) b ↦
              if p == 0
              then returns (record m2 { pipes = parent_foreground m2.pipes parent given true }, 0)
                  false
              else returns (m2, m2.pipes.sems.sched.procs.pid p) true
          | parks (m2, p) ↦ parks (m2, p)
        ]

abbrev unpacked : ℕ → ℕ → ℕ → Unpacked
unpacked f i o = record { is_foreground = f; stdin_pipe_id = i; stdout_pipe_id = o }

unpacked_eq : {f f' i i' o o' : ℕ} → f ≡ f' → i ≡ i' → o ≡ o' → unpacked f i o ≡ unpacked f' i' o'
unpacked_eq {f = f} {i' = i'} {o = o} {o' = o'} a b c =
    ap (λ x. unpacked f x o) b ∙ ap (λ x. unpacked f i' x) c ∙ ap (λ x. unpacked x i' o') a

unpack_short : (w : ℕ) → w ≤ 1 → unpack w ≡ unpacked w 0 0
unfolding unpack
unpack_short w h = if_true (leb w 1) _ _ (ground (arith, h))

unpack_pipes :
    (w : ℕ) → 1 < w → unpack w ≡ unpacked (w / 2 ^ 32 % 2) (w % 2 ^ 16) (w / 2 ^ 16 % 2 ^ 16)
unfolding unpack
unpack_pipes w h = if_false (leb w 1) _ _ (ground (arith, h))

abbrev word_of : ℕ → ℕ → ℕ → ℕ
word_of f i o = i % 2 ^ 16 + o % 2 ^ 16 * 2 ^ 16 + f % 2 * 2 ^ 32

packed_bare : (f i o : ℕ) → i ≡ 0 → o ≡ 0 → packed f i o ≡ word_of f i o
unfolding packed
packed_bare f i o a b = if_false (i != 0 || o != 0) _ _ (ground (arith, a, b))

packed_pipes : (f i o : ℕ) → (i != 0 || o != 0) ≡ true → packed f i o ≡ word_of f i o + 2 ^ 33
unfolding packed
packed_pipes f i o e = if_true (i != 0 || o != 0) _ _ e

-- Any flag and any two pipes below 2^16, 0 for none, come out of the word as they went into it.
pub unpack-packed :
    (f i o : ℕ)
    → f < 2
    → i < 2 ^ 16
    → o < 2 ^ 16
    → unpack (packed f i o) ≡ record { is_foreground = f; stdin_pipe_id = i; stdout_pipe_id = o }
unpack-packed f i o a b c = elim (Bool-cases (i != 0 || o != 0)) [
  | inl e ↦
      ap unpack (packed_pipes f i o e)
      ∙ unpack_pipes (word_of f i o + 2 ^ 33) (omega arith)
      ∙ unpacked_eq (omega (arith, a, b, c)) (omega (arith, a, b, c)) (omega (arith, a, b, c))
  | inr e ↦
      let z : i ≡ 0 = ground (arith, e) in
      let y : o ≡ 0 = ground (arith, e) in
      elim (eq-cases f 0) [
        | inl n ↦
            ap unpack (packed_bare f i o z y)
            ∙ unpack_short (word_of f i o) (omega (arith, n, z, y))
            ∙ unpacked_eq (omega (arith, n, z, y)) (sym z) (sym y)
        | inr n ↦
            ap unpack (packed_bare f i o z y)
            ∙ unpack_pipes (word_of f i o) (omega (arith, n, a, z, y))
            ∙ unpacked_eq (omega (arith, n, a, z, y)) (omega (arith, n, a, z, y))
                (omega (arith, n, a, z, y))
      ]
]
