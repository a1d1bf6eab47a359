-- ===== src/Lifecycle/Woken.antt =====
-- Kernel/proc/scheduler.c: the run queues once the end of a process has woken those that wait for it.
use so_tp.Base.{
  ℕ, zero, suc, ◌≡◌, ◌≢◌, ◌<◌, ◌≤◌, refl, sym, ◌∙◌, ap, subst, inl, inr, true, List, [], ◌∷◌, arith,
  length, All, NotIn, NotIn-append, Distinct, elem, ◌==◌, ◌%◌, if◌then◌else◌, update_ne, ne→==,
  Bool-cases,
}
use so_tp.Queue.{address_limit}
use so_tp.Queue.Chain.{Holds}
use so_tp.State.{Processes, Scheduler, ready, blocked, finished, is_ready, is_blocked}
use so_tp.Scheduler.{
  clamp_priority, set_state, make_ready, ready_queue_push, push_ready, set_priority, push_finished,
  leave_ready, leave_blocked, remove_ready, remove_blocked, request_schedule,
}
use so_tp.Scheduler.Places.{
  Place, queue_at, ready_at, blocked_at, finished_at, same_place, Lists, put_at, Belongs,
  Represents, Free, Free-remove, NotIn-elsewhere,
}
use so_tp.Scheduler.Enqueue.{queue_priority, append_at, Represents-procs, Represents-queues}
use so_tp.Scheduler.Wake.{erase_at, make_ready-Represents}
use so_tp.Scheduler.Block.{elem-Belongs}
use so_tp.Lifecycle.{wake_waiting, wake_all_waiting, end_process, leave_queues, hand_over}
use so_tp.Lifecycle.Waiters.{
  Linked, Linked-Agree, Awaited, wake_waiting-Woke, IsWoken, wake_step_none, wake_step, next-Agree,
  wake_all-AllWoken, leaving, leaving-Awaited, end_process-procs,
}
use so_tp.Lifecycle.Ending.{
  hand_over-HandedOver, IsWaiting, leave_queues-Represents, set_finished-Represents, state-finished,
  Belongs-same, push_finished-Represents,
}

-- The scheduler with the blocked queue left out of account.
abbrev pub without_blocked : Scheduler → Scheduler
without_blocked s = record s { blocked_q = record { head = 0; tail = 0; size = 0 } }

-- The lists once the processes `ws`, one after the other, come to the ends of the ready queues of their
-- priorities in `c`.
abbrev pub readied : Processes → Lists → List ℕ → Lists
readied c f [] = f
readied c f (w ∷ ws) = readied c (append_at f (ready_at (queue_priority c w)) w) ws

none_blocked : Lists → Lists
none_blocked f = put_at f blocked_at []

without_blocked-Represents :
    {s : Scheduler} {f : Lists} → Represents s f → Represents (without_blocked s) (none_blocked f)
unfolding none_blocked
without_blocked-Represents {s} {f} r = record { holds = holds; belongs = belongs }
  where
    holds : (x : Place) → Holds s.links (queue_at (without_blocked s) x) (put_at f blocked_at [] x)
    holds (ready_at pr) = r.holds (ready_at pr)
    holds blocked_at = record {
      chain = tt;
      head_first = refl;
      tail_last = refl;
      size_length = refl;
      distinct = tt;
      addresses = tt;
    }
    holds finished_at = r.holds finished_at

    belongs : (x : Place) → All (Belongs s.procs x) (put_at f blocked_at [] x)
    belongs (ready_at pr) = r.belongs (ready_at pr)
    belongs blocked_at = tt
    belongs finished_at = r.belongs finished_at

make_ready-without_blocked :
    (s : Scheduler) (w : ℕ)
    → w ≢ 0
    → make_ready (without_blocked s) w ≡ without_blocked (make_ready s w)
unfolding make_ready ready_queue_push push_ready set_priority set_state
make_ready-without_blocked s w n = rw (ne→== w 0 n) refl

wake_waiting-Represents :
    (s : Scheduler) (p w : ℕ) (f : Lists)
    → Represents (without_blocked s) f
    → Free f w
    → w ≢ 0
    → w < address_limit
    → Represents
        (without_blocked (wake_waiting s p w))
        (append_at f (ready_at (queue_priority s.procs w)) w)
unfolding wake_waiting
wake_waiting-Represents s p w f r n z a =
    subst (λ y. Represents y (append_at f (ready_at (queue_priority s.procs w)) w))
      (make_ready-without_blocked _ w z)
      (make_ready-Represents w (Represents-procs _ r refl refl) n z a)

-- A process in none of the queues, with the priority that it has in `c`.
abbrev Waking : Processes → Scheduler → Lists → ℕ → Type 0
Waking c s f x = Free f x × (s.procs.priority x ≡ c.priority x) × (x < address_limit)

Free-append_at : (f : Lists) (x : Place) (w p : ℕ) → Free f p → p ≢ w → Free (append_at f x w) p
Free-append_at f x w p n k y = elim (Bool-cases (same_place x y)) [
  | inl e ↦ rw e (NotIn-append p (f x) (w ∷ []) (n x) ((λ z. k (sym z)), tt))
  | inr e ↦ rw e (n y)
]

Waking-kept :
    (c : Processes) (s s' : Scheduler) (f : Lists) (x : Place) (w : ℕ) (ws : List ℕ)
    → ((y : ℕ) → y ≢ w → s'.procs.priority y ≡ s.procs.priority y)
    → NotIn w ws
    → All (Waking c s f) ws
    → All (Waking c s' (append_at f x w)) ws
Waking-kept c s s' f x w [] k n a = tt
Waking-kept c s s' f x w (y ∷ ws) k n a = (
  (Free-append_at f x w y a.0.0 n.0, (k y n.0 ∙ a.0.1), a.0.2),
  Waking-kept c s s' f x w ws k n.1 a.1,
)

readied-Free :
    (c : Processes) (f : Lists) (ws : List ℕ) (p : ℕ)
    → Free f p
    → NotIn p ws
    → Free (readied c f ws) p
readied-Free c f [] p n k = n
readied-Free c f (w ∷ ws) p n k =
    readied-Free c (append_at f (ready_at (queue_priority c w)) w) ws p
      (Free-append_at f (ready_at (queue_priority c w)) w p n (λ e. k.0 (sym e))) k.1

wake_loop-Represents :
    (c : Processes) (fuel : ℕ) (s : Scheduler) (p : ℕ) (ws : List ℕ) (f : Lists)
    → Awaited s p ws
    → Distinct ws
    → length ws ≤ fuel
    → Represents (without_blocked s) f
    → All (Waking c s f) ws
    → Represents (without_blocked (wake_all_waiting fuel s p)) (readied c f ws)
wake_loop-Represents c fuel s p [] f a d l r k =
    subst (λ z. Represents (without_blocked z) f) (sym (wake_step_none fuel s p a)) r
wake_loop-Represents c zero s p (w ∷ ws) f a d l r k = absurd (omega (arith, l))
wake_loop-Represents c (suc fuel) s p (w ∷ ws) f a d l r k =
    let g : Scheduler = wake_waiting s p w in
    let x : Place = ready_at (queue_priority c w) in
    let o = wake_waiting-Woke s p w a.1 in
    subst (λ z. Represents (without_blocked z) (readied c (append_at f x w) ws))
      (sym (wake_step fuel s p w a.0 a.1))
      (wake_loop-Represents c fuel g p ws (append_at f x w)
        (subst (λ h. Linked g.procs.waiter_next h ws) (sym o.head)
          (Linked-Agree s.procs.waiter_next g.procs.waiter_next (s.procs.waiter_next w) ws
            (next-Agree s g p w ws o d.0) a.2))
        d.1 (omega (arith, l))
        (subst
          (λ pr.
            Represents (without_blocked g) (append_at f (ready_at (clamp_priority (pr % 256))) w))
          k.0.1 (wake_waiting-Represents s p w f r k.0.0 a.1 k.0.2))
        (Waking-kept c s g f x w ws o.priority_kept d.0 k.1))

-- `end_process` up to the loop keeps the priorities, and the states of the others.
record Left (s s' : Scheduler) (p : ℕ) : Type 0 where
  pub priorities : s'.procs.priority ≡ s.procs.priority
  pub states : (x : ℕ) → p ≢ x → s'.procs.state x ≡ s.procs.state x

leave_queues-procs : (s : Scheduler) (p : ℕ) → (leave_queues s p).procs ≡ s.procs
unfolding leave_queues leave_ready leave_blocked remove_ready remove_blocked
leave_queues-procs s p = elim (Bool-cases (is_ready (s.procs.state p))) [
  | inl e ↦ rw e refl
  | inr e ↦ elim (Bool-cases (is_blocked (s.procs.state p))) [
    | inl g ↦ rw (e, g) refl
    | inr g ↦ rw (e, g) refl
  ]
]

set_finished-Left : (s : Scheduler) (p : ℕ) → Left s (set_state s p finished) p
unfolding set_state
set_finished-Left s p = record {
  priorities = refl;
  states = λ x n. update_ne s.procs.state p x finished n;
}

leaving-Left : (s : Scheduler) (p : ℕ) → Left s (leaving s p) p
leaving-Left s p =
    let h = hand_over-HandedOver s p in
    let q = leave_queues-procs (hand_over s p) p in
    let l = set_finished-Left (leave_queues (hand_over s p) p) p in
    record {
      priorities = l.priorities ∙ ap (λ c. c.priority) q ∙ h.priorities;
      states = λ x n. l.states x n ∙ ap (λ c. c.state x) q ∙ ap (λ g. g x) h.states;
    }

leaving-Represents :
    {s : Scheduler} {f : Lists} (x : Place) (p : ℕ)
    → Represents s f
    → IsWaiting x
    → Belongs s.procs x p
    → Represents (leaving s p) (erase_at f x p)
leaving-Represents {s} {f} x p r i b =
    let h = hand_over-HandedOver s p in
    set_finished-Represents p
      (leave_queues-Represents x p i (h.queues r)
        (Belongs-same s.procs (hand_over s p).procs x p h.states h.priorities b))
      (Free-remove x p r b)

-- A blocked process stands in none of the other queues.
blocked-Free :
    {s : Scheduler} {f : Lists} (w : ℕ)
    → Represents s f
    → s.procs.state w ≡ blocked
    → Free (none_blocked f) w
unfolding none_blocked
blocked-Free {s} {f} w r b (ready_at pr) =
    NotIn-elsewhere s.procs blocked_at (ready_at pr) w (f (ready_at pr)) b refl
      (r.belongs (ready_at pr))
blocked-Free {s} {f} w r b blocked_at = tt
blocked-Free {s} {f} w r b finished_at =
    NotIn-elsewhere s.procs blocked_at finished_at w (f finished_at) b refl (r.belongs finished_at)

none_blocked-Free : (f : Lists) (p : ℕ) → Free f p → Free (none_blocked f) p
unfolding none_blocked
none_blocked-Free f p n y = elim (Bool-cases (same_place blocked_at y)) [
  | inl e ↦ rw e tt
  | inr e ↦ rw e (n y)
]

closing-Represents :
    (s d : Scheduler) (p : ℕ) (g : Lists)
    → end_process s p
      ≡ (if p == s.current then request_schedule (push_finished d p) else push_finished d p)
    → Represents (push_finished (without_blocked d) p) g
    → Represents (without_blocked (end_process s p)) g
unfolding push_finished request_schedule
closing-Represents s d p g e r =
    subst (λ z. Represents (without_blocked z) g) (sym e)
      (elim (Bool-cases (p == s.current)) [
        | inl q ↦ rw q (Represents-queues r refl refl refl refl refl)
        | inr q ↦ rw q r
      ])

end_process_lem :
    (s : Scheduler) (p : ℕ)
    → end_process s p ≡ (
        if p == s.current
        then request_schedule (push_finished (wake_all_waiting address_limit (leaving s p) p) p)
        else push_finished (wake_all_waiting address_limit (leaving s p) p) p)
unfolding end_process
end_process_lem s p = refl

module _ {s : Scheduler} {f : Lists} (x : Place) (p : ℕ) (r : Represents s f) (i : IsWaiting x)
    (b : Belongs s.procs x p) where
  sleepers-Waking :
      (ws : List ℕ)
      → NotIn p ws
      → All (λ w. elem w (f blocked_at) ≡ true) ws
      → All (Waking s.procs (leaving s p) (none_blocked (erase_at f x p))) ws
  sleepers-Waking [] n a = tt
  sleepers-Waking (w ∷ ws) n a =
      let l = leaving-Left s p in
      let k = elem-Belongs blocked_at w r a.0 in
      (
        (
          blocked-Free w (leaving-Represents x p r i b) (l.states w (λ e. n.0 (sym e)) ∙ k.0),
          ap (λ h. h w) l.priorities,
          k.2,
        ),
        sleepers-Waking ws n.1 a.1,
      )

-- The end of a process of a ready queue or of the blocked one wakes every process that waits for it: each
-- is READY and waits for no pid any more, and in the order of the list they come to the ends of the ready
-- queues of their priorities. None is left in the list of the process that has ended, which comes to the
-- end of the finished queue; the ready and the finished queues stay the same otherwise. What the blocked
-- queue holds afterwards is left out. The list holds different processes of the blocked queue, at most
-- 0x20000000, and not the one that ends.
pub end_process-Woken :
    {s : Scheduler} {f : Lists} (x : Place) (p : ℕ) (ws : List ℕ)
    → Represents s f
    → IsWaiting x
    → elem p (f x) ≡ true
    → Awaited s p ws
    → Distinct ws
    → length ws ≤ address_limit
    → NotIn p ws
    → All (λ w. elem w (f blocked_at) ≡ true) ws
    → All (IsWoken (end_process s p)) ws
      × ((end_process s p).procs.waiters_head p ≡ 0)
      × Represents
          (without_blocked (end_process s p))
          (append_at (readied s.procs (put_at (erase_at f x p) blocked_at []) ws) finished_at p)
unfolding none_blocked
end_process-Woken {s} {f} x p ws r i e a d l n k =
    let (b, z, u) = elem-Belongs x p r e in
    let g : Scheduler = leaving s p in
    let v : Scheduler = wake_all_waiting address_limit g p in
    let q = leaving-Awaited s p ws a in
    let y = wake_all-AllWoken address_limit g p ws q d l in
    let m =
      wake_loop-Represents s.procs address_limit g p ws (none_blocked (erase_at f x p)) q d l
        (without_blocked-Represents (leaving-Represents x p r i b))
        (sleepers-Waking x p r i b ws n k) in
    let o =
      readied-Free s.procs (none_blocked (erase_at f x p)) ws p
        (none_blocked-Free (erase_at f x p) p (Free-remove x p r b)) n in
    let w =
      subst
        (λ c. All (λ h. (c.state h ≡ ready) × (c.waiting_on_pid h ≡ 0)) ws × (c.waiters_head p ≡ 0))
        (sym (end_process-procs s p)) (y.woken, y.none_left) in
    (
      w.0,
      w.1,
      closing-Represents s v p _ (end_process_lem s p) (
          push_finished-Represents p m o
            ((y.others p n).0 ∙ state-finished (leave_queues (hand_over s p) p) p) z u),
    )
