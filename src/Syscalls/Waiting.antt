-- ===== src/Syscalls/Waiting.antt =====
-- Kernel/syscalls/syscalls_kernel.c, `syscall_wait`.
use so_tp.Base.{
  ℕ, ◌≡◌, ◌≢◌, ◌<◌, ◌+◌, ◌^◌, ◌%◌, ◌-◌, refl, sym, ◌∙◌, ap, true, false, ◌||◌, List, [], ◌∷◌, arith,
  All, NotIn, ◌==◌, leb, update, update_self, update_ne, ne→==, if_false, subst,
}
use so_tp.State.{Scheduler, blocked, is_finished}
use so_tp.Scheduler.{
  quantum_ticks, scheduler_find_by_pid, scheduler_current_process, set_state,
  scheduler_block_current, scheduler_yield_current, request_schedule,
}
use so_tp.Lifecycle.Waiters.{Linked, Linked-Agree, Awaited}
use so_tp.Syscalls.{Reply, answers, waits, add_waiter, block_in_wait, syscall_wait}

-- The caller `me` is blocked in the wait for the process `target` of the pid `pid`, in front of those
-- that wait for it already.
pub record Parked (s s' : Scheduler) (pid target me : ℕ) (ws : List ℕ) : Type 0 where
  pub queue : Awaited s' target (me ∷ ws)
  pub blocked_now : s'.procs.state me ≡ blocked
  pub awaits : s'.procs.waiting_on_pid me ≡ pid
  pub resched : s'.need_resched ≡ true
  pub states : (x : ℕ) → x ≢ me → s'.procs.state x ≡ s.procs.state x

abbrev parked_state : ℕ → Scheduler → ℕ → ℕ → ℕ → Scheduler
parked_state now s pid target me =
    scheduler_yield_current now (scheduler_block_current (add_waiter s pid target me))

kept :
    (next : ℕ → ℕ) (me v : ℕ) (ws : List ℕ)
    → NotIn me ws
    → All (λ x. update next me v x ≡ next x) ws
kept next me v [] n = tt
kept next me v (w ∷ ws) n = (update_ne next me w v (λ e. n.0 (sym e)), kept next me v ws n.1)

block_lem :
    (s : Scheduler)
    → s.current ≢ 0
    → s.current ≢ s.idle_p
    → scheduler_block_current s ≡ request_schedule (set_state s s.current blocked)
unfolding scheduler_block_current
block_lem s z i = rw (ne→== s.current 0 z, ne→== s.current s.idle_p i)

yielded : ℕ → Scheduler → Scheduler
yielded now s = record s { last_switch_tick = (now + 2 ^ 64 - quantum_ticks) % 2 ^ 64 }

yield_lem :
    (now : ℕ) (s : Scheduler)
    → s.current ≢ 0
    → s.current ≢ s.idle_p
    → scheduler_yield_current now s ≡ yielded now s
unfolding scheduler_yield_current yielded
yield_lem now s z i = rw (ne→== s.current 0 z, ne→== s.current s.idle_p i)

-- `add_waiter` and the block, without the tests.
blocked_state : Scheduler → ℕ → ℕ → Scheduler
blocked_state s pid target =
    request_schedule (set_state (add_waiter s pid target s.current) s.current blocked)

parked_lem :
    (now : ℕ) (s : Scheduler) (pid target : ℕ)
    → s.current ≢ 0
    → s.current ≢ s.idle_p
    → parked_state now s pid target s.current ≡ yielded now (blocked_state s pid target)
unfolding add_waiter request_schedule set_state blocked_state
parked_lem now s pid target z i =
    ap (scheduler_yield_current now) (block_lem (add_waiter s pid target s.current) z i)
    ∙ yield_lem now (blocked_state s pid target) z i

blocked-Parked :
    (now : ℕ) (s : Scheduler) (pid target : ℕ) (ws : List ℕ)
    → Awaited s target ws
    → NotIn s.current ws
    → s.current ≢ 0
    → Parked s (yielded now (blocked_state s pid target)) pid target s.current ws
unfolding add_waiter request_schedule set_state blocked_state yielded
blocked-Parked now s pid target ws a n z = record {
  queue = (
    update_self s.procs.waiters_head target s.current,
    z,
    Linked-Agree s.procs.waiter_next
        (update s.procs.waiter_next s.current (s.procs.waiters_head target))
        (update s.procs.waiter_next s.current (s.procs.waiters_head target) s.current) ws
        (kept s.procs.waiter_next s.current (s.procs.waiters_head target) ws n)
        (subst (λ h. Linked s.procs.waiter_next h ws)
          (sym (update_self s.procs.waiter_next s.current (s.procs.waiters_head target))) a),
  );
  blocked_now = update_self s.procs.state s.current blocked;
  awaits = update_self s.procs.waiting_on_pid s.current pid;
  resched = refl;
  states = λ x k. update_ne s.procs.state s.current x blocked (λ e. k (sym e));
}

Parked-caller :
    (now : ℕ) (s : Scheduler) (pid target : ℕ) (ws : List ℕ)
    → Awaited s target ws
    → NotIn s.current ws
    → s.current ≢ 0
    → s.current ≢ s.idle_p
    → Parked s (parked_state now s pid target s.current) pid target s.current ws
Parked-caller now s pid target ws a n z i =
    subst (λ y. Parked s y pid target s.current ws) (sym (parked_lem now s pid target z i))
      (blocked-Parked now s pid target ws a n z)

waits_lem :
    (now : ℕ) (s : Scheduler) (pid target : ℕ)
    → s.current ≢ s.idle_p
    → block_in_wait now (add_waiter s pid target s.current) target s.current
      ≡ waits (parked_state now s pid target s.current)
unfolding block_in_wait add_waiter
waits_lem now s pid target i = if_false (s.current == s.idle_p) _ _ (ne→== s.current s.idle_p i)

wait_lem :
    (now : ℕ) (s : Scheduler) (pid : ℕ)
    → pid ≢ 0
    → pid < 2 ^ 63
    → scheduler_find_by_pid s pid ≢ 0
    → is_finished (s.procs.state (scheduler_find_by_pid s pid)) ≡ false
    → s.current ≢ 0
    → s.current ≢ s.idle_p
    → s.current ≢ scheduler_find_by_pid s pid
    → syscall_wait now s pid
      ≡ waits (parked_state now s pid (scheduler_find_by_pid s pid) s.current)
unfolding syscall_wait scheduler_current_process
wait_lem now s pid a b c d e i f =
    if_false (pid == 0 || leb (2 ^ 63) pid) _ _ (ground (arith, a, b))
    ∙ if_false (scheduler_find_by_pid s pid == 0) _ _ (ne→== (scheduler_find_by_pid s pid) 0 c)
    ∙ if_false (is_finished (s.procs.state (scheduler_find_by_pid s pid))) _ _ d
    ∙ if_false (s.current == 0 || s.current == scheduler_find_by_pid s pid) _ _
        (neither s.current (scheduler_find_by_pid s pid) e f)
    ∙ waits_lem now s pid (scheduler_find_by_pid s pid) i
  where
    neither : (m t : ℕ) → m ≢ 0 → m ≢ t → (m == 0 || m == t) ≡ false
    neither m t e f = ground (arith, e, f)

abbrev pub Waits : Scheduler → ℕ → List ℕ → Reply Scheduler → Type 0
Waits s pid ws (answers s' n) = ⊥
Waits s pid ws (waits s') = Parked s s' pid (scheduler_find_by_pid s pid) s.current ws

-- A process other than the idle one that waits for another that the search by pid finds, and that has
-- not ended, is parked: it is blocked, it stands in front of the list of those that wait for that
-- process, and no other process changes state.
pub syscall_wait-Waits :
    (now : ℕ) (s : Scheduler) (pid : ℕ) (ws : List ℕ)
    → Awaited s (scheduler_find_by_pid s pid) ws
    → NotIn s.current ws
    → pid ≢ 0
    → pid < 2 ^ 63
    → scheduler_find_by_pid s pid ≢ 0
    → is_finished (s.procs.state (scheduler_find_by_pid s pid)) ≡ false
    → s.current ≢ 0
    → s.current ≢ s.idle_p
    → s.current ≢ scheduler_find_by_pid s pid
    → Waits s pid ws (syscall_wait now s pid)
syscall_wait-Waits now s pid ws w n a b c d e i f =
    subst (Waits s pid ws) (sym (wait_lem now s pid a b c d e i f))
      (Parked-caller now s pid (scheduler_find_by_pid s pid) ws w n e i)
