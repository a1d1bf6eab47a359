-- ===== src/Lifecycle/Waiters.antt =====
-- Kernel/proc/scheduler.c: the processes that wait for another to end, a list linked through their
-- control blocks, and the loop that wakes them.
use so_tp.Base.{
  ℕ, zero, suc, ◌≡◌, ◌≢◌, ◌≤◌, refl, sym, ◌∙◌, ap, inl, inr, List, [], ◌∷◌, length, arith, All,
  NotIn, Distinct, ◌==◌, update_self, update_ne, eq→==, ne→==, Bool-cases, if_true, if_false, subst,
}
use so_tp.Queue.{address_limit}
use so_tp.State.{Scheduler, ready, finished, is_ready, is_blocked}
use so_tp.Scheduler.{
  set_state, make_ready, ready_queue_push, push_ready, set_priority, push_finished, leave_ready,
  leave_blocked, remove_ready, remove_blocked, request_schedule, set_foreground,
}
use so_tp.Lifecycle.{
  wake_waiting, wake_all_waiting, end_process, leave_queues, hand_over, hands_over,
}

-- The list `ws`, linked from the head on by `next`.
abbrev pub Linked : (ℕ → ℕ) → ℕ → List ℕ → Type 0
Linked next head [] = head ≡ 0
Linked next head (w ∷ ws) = (head ≡ w) × (w ≢ 0) × Linked next (next w) ws

-- The processes that wait for `p`.
abbrev pub Awaited : Scheduler → ℕ → List ℕ → Type 0
Awaited s p ws = Linked s.procs.waiter_next (s.procs.waiters_head p) ws

pub Linked-Agree :
    (next next' : ℕ → ℕ) (head : ℕ) (ws : List ℕ)
    → All (λ x. next' x ≡ next x) ws
    → Linked next head ws
    → Linked next' head ws
Linked-Agree next next' head [] a l = l
Linked-Agree next next' head (w ∷ ws) a l = (
  l.0,
  l.1,
  Linked-Agree next next' (next' w) ws a.1 (subst (λ h. Linked next h ws) (sym a.0) l.2),
)

-- What the wake of `w` makes of the fields that count here.
pub record Woke (s s' : Scheduler) (p w : ℕ) : Type 0 where
  pub head : s'.procs.waiters_head p ≡ s.procs.waiter_next w
  pub now_ready : s'.procs.state w ≡ ready
  pub not_waiting : s'.procs.waiting_on_pid w ≡ 0
  pub next_kept : (x : ℕ) → x ≢ w → s'.procs.waiter_next x ≡ s.procs.waiter_next x
  pub state_kept : (x : ℕ) → x ≢ w → s'.procs.state x ≡ s.procs.state x
  pub priority_kept : (x : ℕ) → x ≢ w → s'.procs.priority x ≡ s.procs.priority x
  pub pid_kept : (x : ℕ) → x ≢ w → s'.procs.waiting_on_pid x ≡ s.procs.waiting_on_pid x

pub wake_waiting-Woke : (s : Scheduler) (p w : ℕ) → w ≢ 0 → Woke s (wake_waiting s p w) p w
unfolding wake_waiting make_ready ready_queue_push push_ready set_priority set_state
wake_waiting-Woke s p w n = rw (ne→== w 0 n) (record {
  head = update_self s.procs.waiters_head p (s.procs.waiter_next w);
  now_ready = update_self s.procs.state w ready;
  not_waiting = update_self s.procs.waiting_on_pid w 0;
  next_kept = λ x i. update_ne s.procs.waiter_next w x 0 (λ e. i (sym e));
  state_kept = λ x i. update_ne s.procs.state w x ready (λ e. i (sym e));
  priority_kept = λ x i. update_ne s.procs.priority w x _ (λ e. i (sym e));
  pid_kept = λ x i. update_ne s.procs.waiting_on_pid w x 0 (λ e. i (sym e));
})

-- A process that has been woken.
abbrev pub IsWoken : Scheduler → ℕ → Type 0
IsWoken s x = (s.procs.state x ≡ ready) × (s.procs.waiting_on_pid x ≡ 0)

pub record AllWoken (s s' : Scheduler) (p : ℕ) (ws : List ℕ) : Type 0 where
  pub woken : All (IsWoken s') ws
  pub none_left : s'.procs.waiters_head p ≡ 0
  pub others :
      (x : ℕ)
      → NotIn x ws
      → (s'.procs.state x ≡ s.procs.state x)
        × (s'.procs.waiting_on_pid x ≡ s.procs.waiting_on_pid x)

pub wake_step_none :
    (fuel : ℕ) (s : Scheduler) (p : ℕ) → s.procs.waiters_head p ≡ 0 → wake_all_waiting fuel s p ≡ s
unfolding wake_all_waiting
wake_step_none zero s p e = refl
wake_step_none (suc fuel) s p e =
    if_true (s.procs.waiters_head p == 0) _ _ (eq→== (s.procs.waiters_head p) 0 e)

pub wake_step :
    (fuel : ℕ) (s : Scheduler) (p w : ℕ)
    → s.procs.waiters_head p ≡ w
    → w ≢ 0
    → wake_all_waiting (suc fuel) s p ≡ wake_all_waiting fuel (wake_waiting s p w) p
unfolding wake_all_waiting
wake_step fuel s p w e n =
    if_false (s.procs.waiters_head p == 0) _ _
      (ne→== (s.procs.waiters_head p) 0 (λ z. n (sym e ∙ z)))
    ∙ ap (λ x. wake_all_waiting fuel (wake_waiting s p x) p) e

pub next-Agree :
    (s s' : Scheduler) (p w : ℕ) (ws : List ℕ)
    → Woke s s' p w
    → NotIn w ws
    → All (λ x. s'.procs.waiter_next x ≡ s.procs.waiter_next x) ws
next-Agree s s' p w [] k n = tt
next-Agree s s' p w (x ∷ ws) k n = (k.next_kept x n.0, next-Agree s s' p w ws k n.1)

pub wake_all-AllWoken :
    (fuel : ℕ) (s : Scheduler) (p : ℕ) (ws : List ℕ)
    → Awaited s p ws
    → Distinct ws
    → length ws ≤ fuel
    → AllWoken s (wake_all_waiting fuel s p) p ws
wake_all-AllWoken fuel s p [] a d l =
    subst (λ z. AllWoken s z p []) (sym (wake_step_none fuel s p a))
      (record { woken = tt; none_left = a; others = λ x n. (refl, refl) })
wake_all-AllWoken zero s p (w ∷ ws) a d l = absurd (omega (arith, l))
wake_all-AllWoken (suc fuel) s p (w ∷ ws) a d l =
    let g : Scheduler = wake_waiting s p w in
    let k = wake_waiting-Woke s p w a.1 in
    let r =
      wake_all-AllWoken fuel g p ws
        (subst (λ h. Linked g.procs.waiter_next h ws) (sym k.head)
          (Linked-Agree s.procs.waiter_next g.procs.waiter_next (s.procs.waiter_next w) ws
            (next-Agree s g p w ws k d.0) a.2))
        d.1 (omega (arith, l)) in
    let o = r.others w d.0 in
    subst (λ z. AllWoken s z p (w ∷ ws)) (sym (wake_step fuel s p w a.0 a.1))
      (record {
        woken = ((o.0 ∙ k.now_ready, o.1 ∙ k.not_waiting), r.woken);
        none_left = r.none_left;
        others = λ x n.
            let i : x ≢ w = λ e. n.0 (sym e) in
            let q = r.others x n.1 in (q.0 ∙ k.state_kept x i, q.1 ∙ k.pid_kept x i);
      })

-- The state behind `wake_all_waiting` in `end_process`.
abbrev pub leaving : Scheduler → ℕ → Scheduler
leaving s p = set_state (leave_queues (hand_over s p) p) p finished

abbrev SameWaiters : Scheduler → Scheduler → Type 0
SameWaiters s s' =
    (s'.procs.waiters_head ≡ s.procs.waiters_head) × (s'.procs.waiter_next ≡ s.procs.waiter_next)

hand_over-SameWaiters : (s : Scheduler) (p : ℕ) → SameWaiters s (hand_over s p)
unfolding hand_over set_foreground
hand_over-SameWaiters s p = elim (Bool-cases (hands_over s p)) [
  | inl e ↦ rw e (refl, refl)
  | inr e ↦ rw e (refl, refl)
]

leave_queues-SameWaiters : (s : Scheduler) (p : ℕ) → SameWaiters s (leave_queues s p)
unfolding leave_queues leave_ready leave_blocked remove_ready remove_blocked
leave_queues-SameWaiters s p = elim (Bool-cases (is_ready (s.procs.state p))) [
  | inl e ↦ rw e (refl, refl)
  | inr e ↦ elim (Bool-cases (is_blocked (s.procs.state p))) [
    | inl g ↦ rw (e, g) (refl, refl)
    | inr g ↦ rw (e, g) (refl, refl)
  ]
]

leaving-SameWaiters : (s : Scheduler) (p : ℕ) → SameWaiters s (leaving s p)
unfolding set_state
leaving-SameWaiters s p =
    let a = hand_over-SameWaiters s p in
    let b = leave_queues-SameWaiters (hand_over s p) p in ((b.0 ∙ a.0), (b.1 ∙ a.1))

pub end_process-procs :
    (s : Scheduler) (p : ℕ)
    → (end_process s p).procs ≡ (wake_all_waiting address_limit (leaving s p) p).procs
unfolding end_process push_finished request_schedule
end_process-procs s p = elim (Bool-cases (p == s.current)) [ inl e ↦ rw e refl | inr e ↦ rw e refl ]

All-of_forall : (P : ℕ → Type 0) (ws : List ℕ) → ((x : ℕ) → P x) → All P ws
All-of_forall P [] f = tt
All-of_forall P (w ∷ ws) f = (f w, All-of_forall P ws f)

pub leaving-Awaited :
    (s : Scheduler) (p : ℕ) (ws : List ℕ) → Awaited s p ws → Awaited (leaving s p) p ws
leaving-Awaited s p ws a =
    let g : Scheduler = leaving s p in
    let c = leaving-SameWaiters s p in
    Linked-Agree s.procs.waiter_next g.procs.waiter_next (g.procs.waiters_head p) ws
      (All-of_forall (λ x. g.procs.waiter_next x ≡ s.procs.waiter_next x) ws
        (λ x. ap (λ h. h x) c.1))
      (subst (λ h. Linked s.procs.waiter_next h ws) (sym (ap (λ f. f p) c.0)) a)
