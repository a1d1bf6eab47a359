-- ===== src/Lifecycle/Foreground.antt =====
-- Kernel/proc/scheduler.c, `scheduler_get_foreground_pid`: whom Ctrl-C ends.
use so_tp.Base.{
  ◌==◌, if◌then◌else◌, ℕ, zero, suc, ◌≡◌, ◌≢◌, refl, inl, inr, ◌⊎◌, true, ◌&&◌, ◌!=◌, eq→==, ne→==,
  eq-cases, Bool-cases, arith,
}
use so_tp.Queue.{ProcessQueue, address_limit}
use so_tp.State.{Scheduler}

-- The first process with the foreground flag, from `it` on, or NULL.
unfoldable pub foreground_from : ℕ → Scheduler → ℕ → ℕ
foreground_from zero s it = 0
foreground_from (suc fuel) s it =
    let rest = foreground_from fuel s (s.links.queue_next it) in
    if it == 0 then 0 else if s.procs.is_foreground it then it else rest

unfoldable pub foreground_in : Scheduler → ProcessQueue → ℕ
foreground_in s q = foreground_from address_limit s q.head

-- `return p->pid` if `p` is not NULL, and the rest of the search if it is.
unfoldable pub pid_or : Scheduler → ℕ → ℕ → ℕ
pid_or s p rest = if p != 0 then s.procs.pid p else rest

unfoldable pub scheduler_get_foreground_pid : Scheduler → ℕ
scheduler_get_foreground_pid s =
    if s.current != 0 && s.current != s.idle_p && s.procs.is_foreground s.current
    then s.procs.pid s.current
    else pid_or s (foreground_in s (s.ready_queues 0)) (
        pid_or s (foreground_in s (s.ready_queues 1)) (
          pid_or s (foreground_in s (s.ready_queues 2)) (pid_or s (foreground_in s s.blocked_q) 0)))

from_flagged :
    (fuel : ℕ) (s : Scheduler) (it : ℕ)
    → (foreground_from fuel s it ≡ 0) ⊎ (s.procs.is_foreground (foreground_from fuel s it) ≡ true)
unfolding foreground_from
from_flagged zero s it = inl refl
from_flagged (suc fuel) s it = elim (eq-cases it 0) [
  | inl z ↦ rw (eq→== it 0 z) (inl refl)
  | inr n ↦ elim (Bool-cases (s.procs.is_foreground it)) [
    | inl e ↦ rw (ne→== it 0 n, e) (inr e)
    | inr e ↦ rw (ne→== it 0 n, e) (from_flagged fuel s (s.links.queue_next it))
  ]
]

-- The answer is 0, or the pid of a process with the foreground flag.
abbrev pub Flagged : Scheduler → ℕ → Type 0
Flagged s pid =
    (pid ≡ 0) ⊎ ((p : ℕ) × (p ≢ 0) × (s.procs.is_foreground p ≡ true) × (s.procs.pid p ≡ pid))

pid_or-Flagged :
    (s : Scheduler) (p rest : ℕ)
    → (p ≡ 0) ⊎ (s.procs.is_foreground p ≡ true)
    → Flagged s rest
    → Flagged s (pid_or s p rest)
unfolding pid_or
pid_or-Flagged s p rest h k = elim (eq-cases p 0) [
  | inl z ↦ rw (eq→== p 0 z) k
  | inr n ↦ elim h [ inl z ↦ absurd (n z) | inr e ↦ rw (ne→== p 0 n) (inr (p, n, e, refl)) ]
]

in_flagged :
    (s : Scheduler) (q : ProcessQueue)
    → (foreground_in s q ≡ 0) ⊎ (s.procs.is_foreground (foreground_in s q) ≡ true)
unfolding foreground_in
in_flagged s q = from_flagged address_limit s q.head

-- The process that Ctrl-C ends is one in the foreground: the search answers 0, or the pid of a
-- process that has the foreground flag, whatever the queues hold.
pub foreground_pid-Flagged : (s : Scheduler) → Flagged s (scheduler_get_foreground_pid s)
unfolding scheduler_get_foreground_pid
foreground_pid-Flagged s =
    elim (Bool-cases (s.current != 0 && s.current != s.idle_p && s.procs.is_foreground s.current)) [
      | inr e ↦ rw e (
          pid_or-Flagged s _ _ (in_flagged s (s.ready_queues 0)) (
            pid_or-Flagged s _ _ (in_flagged s (s.ready_queues 1)) (
              pid_or-Flagged s _ _ (in_flagged s (s.ready_queues 2))
                (pid_or-Flagged s _ _ (in_flagged s s.blocked_q) (inl refl)))))
      | inl e ↦ rw e (inr (s.current, current_set s e, flag_set s e, refl))
    ]
  where
    flag_set :
        (s : Scheduler)
        → (s.current != 0 && s.current != s.idle_p && s.procs.is_foreground s.current) ≡ true
        → s.procs.is_foreground s.current ≡ true
    flag_set s e = ground (arith, e)

    current_set :
        (s : Scheduler)
        → (s.current != 0 && s.current != s.idle_p && s.procs.is_foreground s.current) ≡ true
        → s.current ≢ 0
    current_set s e = ground (arith, e)
