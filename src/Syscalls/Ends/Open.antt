-- ===== src/Syscalls/Ends/Open.antt =====
-- Kernel/syscalls/syscalls_kernel.c, `syscall_pipe_dup`: the descriptor behind the opening of its new
-- end.
use so_tp.Base.{
  ℕ, ◌≡◌, refl, ◌∙◌, ap, Bool, true, false, Option, none, some, if◌then◌else◌, update, update_self,
  zero, suc,
}
use so_tp.State.{FdType}
use so_tp.Semaphore.{Outcome, returns, parks, sem_wait_by_id}
use so_tp.Semaphore.Descriptors.{SameFds, KeepsFds, signal-SameFds, sem_wait-KeepsFds}
use so_tp.Pipe.{
  PipeTable, pipe_get_by_id, pipe_open_by_id, behind_mutex, open_locked, set_pipe, signal,
}
use so_tp.Files.{with_sched, is_writer}
use so_tp.Syscalls.{Reply, answers, waits}
use so_tp.Syscalls.Ends.{set_fd_type, set_fd_pipe, open_new}

abbrev pub fd_pipe_of : PipeTable → ℕ → ℕ → Option ℕ
fd_pipe_of t p i = t.sems.sched.procs.fd_pipe p i

abbrev pub fd_type_of : PipeTable → ℕ → ℕ → FdType
fd_type_of t p i = t.sems.sched.procs.fd_type p i

open_locked-SameFds :
    (t : PipeTable) (i : ℕ) (w : Bool) → SameFds (open_locked t i w).sems.sched t.sems.sched
unfolding open_locked signal set_pipe
open_locked-SameFds t i w = signal-SameFds t.sems (t.pipes i).mutex

-- Opening an end answers 0 when no pipe has the id, and then does nothing; it does not write the types
-- of the descriptors.
abbrev Opens : PipeTable → ℕ → Outcome PipeTable → Type 0
Opens t id (returns t' true) = SameFds t'.sems.sched t.sems.sched
Opens t id (returns t' false) = (t' ≡ t) × (pipe_get_by_id t id ≡ none)
Opens t id (parks t') = Unit {0}

behind_mutex-Opens :
    (now : ℕ) (t : PipeTable) (id i : ℕ) (w : Bool)
    → Opens t id (behind_mutex now t i (λ t'. open_locked t' i w))
unfolding behind_mutex
behind_mutex-Opens now t id i w =
    elim (sem_wait_by_id now t.sems (t.pipes i).mutex)
        as (λ r.
          KeepsFds t.sems r
          → Opens t id (elim r [
            | returns s _ ↦ returns (open_locked (record t { sems = s }) i w) true
            | parks s ↦ parks (record t { sems = s })
          ])) [
            | returns s b ↦ λ k. open_locked-SameFds (record t { sems = s }) i w ∙ k
            | parks s ↦ λ k. tt
          ]
      (sem_wait-KeepsFds now t.sems (t.pipes i).mutex)

pipe_open-Opens :
    (now : ℕ) (t : PipeTable) (id : ℕ) (w : Bool) → Opens t id (pipe_open_by_id now t id w)
unfolding pipe_open_by_id
pipe_open-Opens now t id w =
    elim (pipe_get_by_id t id)
        as (λ o.
          pipe_get_by_id t id ≡ o
          → Opens t id (elim o [
            | none ↦ returns t false
            | some i ↦ behind_mutex now t i (λ t'. open_locked t' i w)
          ])) [ none ↦ λ e. (refl, e) | some i ↦ λ e. behind_mutex-Opens now t id i w ]
      refl

-- An answer other than 0 stands for a descriptor that has the pipe `j` and the type `kind`, the answer 0
-- for an id that no pipe has.
abbrev pub Joined : ℕ → ℕ → ℕ → ℕ → FdType → Reply PipeTable → Type 0
Joined p i pipe_id j kind (answers t zero) = pipe_get_by_id t pipe_id ≡ none
Joined p i pipe_id j kind (answers t (suc n)) =
    (fd_pipe_of t p i ≡ some j) × (fd_type_of t p i ≡ kind)
Joined p i pipe_id j kind (waits t) = Unit {0}

fd_pipe_after :
    (t : PipeTable) (p i : ℕ) (pipe : Option ℕ)
    → (fd_pipe_of (set_fd_pipe t p i pipe) p i ≡ pipe)
      × (fd_type_of (set_fd_pipe t p i pipe) p i ≡ fd_type_of t p i)
unfolding set_fd_pipe with_sched
fd_pipe_after t p i pipe = (
  ap (λ f. f i)
        (update_self (t.sems.sched.procs.fd_pipe) p (update (t.sems.sched.procs.fd_pipe p) i pipe))
      ∙ update_self (t.sems.sched.procs.fd_pipe p) i pipe,
  refl,
)

fd_type_after :
    (t : PipeTable) (p i : ℕ) (kind : FdType) → fd_type_of (set_fd_type t p i kind) p i ≡ kind
unfolding set_fd_type with_sched
fd_type_after t p i kind =
    ap (λ f. f i)
      (update_self (t.sems.sched.procs.fd_type) p (update (t.sems.sched.procs.fd_type p) i kind))
    ∙ update_self (t.sems.sched.procs.fd_type p) i kind

pub open_new-Joined :
    (now : ℕ) (t : PipeTable) (p i pipe_id j : ℕ) (kind : FdType)
    → Joined p i pipe_id j kind (open_new now t p i pipe_id j kind)
unfolding open_new
open_new-Joined now t p i pipe_id j kind =
    elim (pipe_open_by_id now (set_fd_type t p i kind) pipe_id (is_writer kind))
        as (λ r.
          Opens (set_fd_type t p i kind) pipe_id r
          → Joined p i pipe_id j kind (elim r [
            | returns t' b ↦ if b then answers (set_fd_pipe t' p i (some j)) 1 else answers t' 0
            | parks t' ↦ waits t'
          ])) [ returns t' b ↦ both b t' | parks t' ↦ λ o. tt ]
      (pipe_open-Opens now (set_fd_type t p i kind) pipe_id (is_writer kind))
  where
    both :
        (b : Bool) (t' : PipeTable)
        → Opens (set_fd_type t p i kind) pipe_id (returns t' b)
        → Joined p i pipe_id j kind
            (if b then answers (set_fd_pipe t' p i (some j)) 1 else answers t' 0)
    both true t' o =
        let f = fd_pipe_after t' p i (some j) in
        (f.0, (f.1 ∙ ap (λ g. g p i) o ∙ fd_type_after t p i kind))
    both false t' o = ap (λ u. pipe_get_by_id u pipe_id) o.0 ∙ o.1
