-- ===== src/Syscalls/Ends/Release.antt =====
-- Kernel/syscalls/syscalls_kernel.c: what a descriptor is behind `syscall_pipe_release_fd`.
use so_tp.Base.{
  ℕ, zero, suc, ◌≡◌, ◌≢◌, ◌<◌, ◌≤◌, ◌⊎◌, refl, sym, ◌∙◌, ap, inl, inr, arith, true, false, ◌||◌,
  none, ◌==◌, leb, if◌then◌else◌, update, if_true, if_false, subst, Bool-cases, update_self,
}
use so_tp.State.{terminal}
use so_tp.Scheduler.{scheduler_current_process}
use so_tp.Semaphore.{Outcome, returns, parks}
use so_tp.Pipe.{PipeTable}
use so_tp.Files.{clear_fd, is_pipe, is_writer, close_end}
use so_tp.Syscalls.{Reply, answers, waits}
use so_tp.Syscalls.Ends.{release_fd, syscall_pipe_release_fd}
use so_tp.Syscalls.Ends.Open.{fd_pipe_of, fd_type_of}

-- What an answer to a release stands for; `t` is the state before.
abbrev pub ReleasedFd : PipeTable → ℕ → Reply PipeTable → Type 0
ReleasedFd t fd (answers t' zero) = (t' ≡ t) × ((16 ≤ fd) ⊎ (t.sems.sched.current ≡ 0))
ReleasedFd t fd (answers t' (suc n)) =
    (fd < 16)
    × (t.sems.sched.current ≢ 0)
    × (fd_type_of t' t.sems.sched.current fd ≡ terminal)
    × (fd_pipe_of t' t.sems.sched.current fd ≡ none)
ReleasedFd t fd (waits t') =
    (fd < 16) × (t.sems.sched.current ≢ 0) × (is_pipe (fd_type_of t t.sems.sched.current fd) ≡ true)

fd_cleared :
    (t : PipeTable) (p i : ℕ)
    → (fd_type_of (clear_fd t p i) p i ≡ terminal) × (fd_pipe_of (clear_fd t p i) p i ≡ none)
unfolding clear_fd
fd_cleared t p i =
    let c = t.sems.sched.procs in
    (
      ap (λ f. f i) (update_self c.fd_type p (update (c.fd_type p) i terminal))
          ∙ update_self (c.fd_type p) i terminal,
      ap (λ f. f i) (update_self c.fd_pipe p (update (c.fd_pipe p) i none))
          ∙ update_self (c.fd_pipe p) i none,
    )

abbrev released : ℕ → ℕ → Outcome PipeTable → Reply PipeTable
released p i (returns t' b) = answers (clear_fd t' p i) 1
released p i (parks t') = waits t'

release_fd_lem :
    (now : ℕ) (t : PipeTable) (p i : ℕ)
    → release_fd now t p i
      ≡ released p i (
          if is_pipe (fd_type_of t p i)
          then close_end now t (fd_pipe_of t p i) (is_writer (fd_type_of t p i))
          else returns t true)
unfolding release_fd
release_fd_lem now t p i = refl

module _ (t : PipeTable) (fd : ℕ) (l : fd < 16) (c : t.sems.sched.current ≢ 0) where
  closed-ReleasedFd :
      (r : Outcome PipeTable)
      → is_pipe (fd_type_of t t.sems.sched.current fd) ≡ true
      → ReleasedFd t fd (released t.sems.sched.current fd r)
  closed-ReleasedFd (returns t' b) e =
      (l, c, (fd_cleared t' t.sems.sched.current fd).0, (fd_cleared t' t.sems.sched.current fd).1)
  closed-ReleasedFd (parks t') e = (l, c, e)

  release_fd-ReleasedFd : (now : ℕ) → ReleasedFd t fd (release_fd now t t.sems.sched.current fd)
  release_fd-ReleasedFd now =
      let me : ℕ = t.sems.sched.current in
      let P : Outcome PipeTable → Type 0 = λ r. ReleasedFd t fd (released me fd r) in
      subst (ReleasedFd t fd) (sym (release_fd_lem now t me fd))
        (elim (Bool-cases (is_pipe (fd_type_of t me fd))) [
          | inr e ↦
              subst P (sym (if_false _ _ _ e))
                (l, c, (fd_cleared t me fd).0, (fd_cleared t me fd).1)
          | inl e ↦ subst P (sym (if_true _ _ _ e)) (
              closed-ReleasedFd
                (close_end now t (fd_pipe_of t me fd) (is_writer (fd_type_of t me fd))) e)
        ])

release_lem :
    (now : ℕ) (t : PipeTable) (fd : ℕ)
    → syscall_pipe_release_fd now t fd ≡ (
        if leb 16 fd || t.sems.sched.current == 0
        then answers t 0
        else release_fd now t t.sems.sched.current fd)
unfolding syscall_pipe_release_fd scheduler_current_process
release_lem now t fd = refl

-- A release is refused, and changes nothing, only for a descriptor that is not one of the 16 or when no
-- process runs. Otherwise the descriptor of the running process is a terminal without a pipe afterwards,
-- unless the process is parked in the release, which it is only when the descriptor has the type of a pipe.
pub syscall_pipe_release_fd-ReleasedFd :
    (now : ℕ) (t : PipeTable) (fd : ℕ) → ReleasedFd t fd (syscall_pipe_release_fd now t fd)
syscall_pipe_release_fd-ReleasedFd now t fd =
    subst (ReleasedFd t fd) (sym (release_lem now t fd))
      (elim (Bool-cases (leb 16 fd || t.sems.sched.current == 0)) [
        | inl e ↦
            subst (ReleasedFd t fd) (sym (if_true _ _ _ e)) (refl, either fd t.sems.sched.current e)
        | inr e ↦
            let k = neither fd t.sems.sched.current e in
            subst (ReleasedFd t fd) (sym (if_false _ _ _ e))
              (release_fd-ReleasedFd t fd k.0 k.1 now)
      ])
  where
    either : (fd c : ℕ) → (leb 16 fd || c == 0) ≡ true → (16 ≤ fd) ⊎ (c ≡ 0)
    either fd c e = ground (arith, e)

    neither : (fd c : ℕ) → (leb 16 fd || c == 0) ≡ false → (fd < 16) × (c ≢ 0)
    neither fd c e = (ground (arith, e), ground (arith, e))
