-- ===== src/Semaphore/Frame.antt =====
-- Kernel/ipc/semaphore.c: what a wait and a signal on one semaphore leave alone in the others.
use so_tp.Base.{
  ℕ, ◌≡◌, ◌≢◌, refl, ◌∙◌, ap, subst, inl, inr, ◌&&◌, ◌!=◌, ltb, update, update_self, update_ne,
  eq→==, ne→==, Bool-cases, eq-cases,
}
use so_tp.State.{Scheduler, is_blocked}
use so_tp.Scheduler.{
  set_state, set_priority, push_ready, ready_queue_push, make_ready, leave_blocked, remove_blocked,
  request_if_higher, scheduler_unblock_process,
}
use so_tp.Semaphore.{
  Semaphore, SemaphoreTable, set_slot, set_sem_next, set_waiting_on_sem, dequeue_waiter,
  wake_waiter, raise_value, signal_slot,
}

-- The same process runs, and the idle process is the same.
abbrev pub SameRunner : Scheduler → Scheduler → Type 0
SameRunner s' s = (s'.current ≡ s.current) × (s'.idle_p ≡ s.idle_p)

request_if_higher-SameRunner : (s : Scheduler) (p : ℕ) → SameRunner (request_if_higher s p) s
unfolding request_if_higher
request_if_higher-SameRunner s p =
    elim (Bool-cases (s.current != 0 && ltb (s.procs.priority s.current) (s.procs.priority p))) [
      | inl e ↦ rw e (refl, refl)
      | inr e ↦ rw e (refl, refl)
    ]

make_ready-SameRunner : (s : Scheduler) (p : ℕ) → SameRunner (make_ready s p) s
unfolding make_ready ready_queue_push push_ready set_priority set_state
make_ready-SameRunner s p = elim (eq-cases p 0) [
  | inl e ↦ rw (eq→== p 0 e) (refl, refl)
  | inr n ↦ rw (ne→== p 0 n) (refl, refl)
]

leave_blocked-SameRunner : (s : Scheduler) (p : ℕ) → SameRunner (leave_blocked s p) s
unfolding leave_blocked remove_blocked
leave_blocked-SameRunner s p = elim (Bool-cases (is_blocked (s.procs.state p))) [
  | inl e ↦ rw e (refl, refl)
  | inr e ↦ rw e (refl, refl)
]

SameRunner-trans : (a b c : Scheduler) → SameRunner a b → SameRunner b c → SameRunner a c
SameRunner-trans a b c h k = (h.0 ∙ k.0, h.1 ∙ k.1)

unblock-SameRunner : (s : Scheduler) (p : ℕ) → SameRunner (scheduler_unblock_process s p) s
unfolding scheduler_unblock_process
unblock-SameRunner s p = elim (eq-cases p 0) [
  | inl e ↦ rw (eq→== p 0 e) (refl, refl)
  | inr n ↦ rw (ne→== p 0 n) (
      SameRunner-trans (request_if_higher (make_ready (leave_blocked s p) p) p)
        (make_ready (leave_blocked s p) p) s (request_if_higher-SameRunner _ p)
        (SameRunner-trans (make_ready (leave_blocked s p) p) (leave_blocked s p) s
          (make_ready-SameRunner (leave_blocked s p) p) (leave_blocked-SameRunner s p)))
]

-- From `t` to `t'` no slot but `i` has changed its value, and no slot its use or its id.
pub record Touches (t t' : SemaphoreTable) (i : ℕ) : Type 0 where
  pub used_kept : (k : ℕ) → (t'.semaphores k).used ≡ (t.semaphores k).used
  pub id_kept : (k : ℕ) → (t'.semaphores k).id ≡ (t.semaphores k).id
  pub value_kept : (k : ℕ) → i ≢ k → (t'.semaphores k).value ≡ (t.semaphores k).value
  pub runner_kept : SameRunner t'.sched t.sched

Touches-trans : (a b c : SemaphoreTable) (i : ℕ) → Touches a b i → Touches b c i → Touches a c i
Touches-trans a b c i h k = record {
  used_kept = λ n. k.used_kept n ∙ h.used_kept n;
  id_kept = λ n. k.id_kept n ∙ h.id_kept n;
  value_kept = λ n e. k.value_kept n e ∙ h.value_kept n e;
  runner_kept = SameRunner-trans c.sched b.sched a.sched k.runner_kept h.runner_kept;
}

update_field {ℓ} :
    {A : Type ℓ} (g : Semaphore → A) (f : ℕ → Semaphore) (i k : ℕ) (v : Semaphore)
    → g v ≡ g (f i)
    → g (update f i v k) ≡ g (f k)
update_field g f i k v e = elim (eq-cases i k) [
  | inl q ↦ subst (λ n. g (update f i v n) ≡ g (f n)) q (ap g (update_self f i v) ∙ e)
  | inr n ↦ ap g (update_ne f i k v n)
]

pub set_slot-Touches :
    (t : SemaphoreTable) (i : ℕ) (v : Semaphore)
    → v.used ≡ (t.semaphores i).used
    → v.id ≡ (t.semaphores i).id
    → Touches t (set_slot t i v) i
set_slot-Touches t i v u d = record {
  used_kept = λ k. update_field (λ x. x.used) t.semaphores i k v u;
  id_kept = λ k. update_field (λ x. x.id) t.semaphores i k v d;
  value_kept = λ k n. ap (λ x. x.value) (update_ne t.semaphores i k v n);
  runner_kept = (refl, refl);
}

pub same_slots-Touches :
    (t t' : SemaphoreTable) (i : ℕ)
    → t'.semaphores ≡ t.semaphores
    → SameRunner t'.sched t.sched
    → Touches t t' i
same_slots-Touches t t' i e r = record {
  used_kept = λ k. ap (λ f. (f k).used) e;
  id_kept = λ k. ap (λ f. (f k).id) e;
  value_kept = λ k n. ap (λ f. (f k).value) e;
  runner_kept = r;
}

dequeue-Touches : (t : SemaphoreTable) (i : ℕ) → Touches t (dequeue_waiter t i).0 i
unfolding dequeue_waiter set_sem_next
dequeue-Touches t i = elim (eq-cases (t.semaphores i).wait_head 0) [
  | inl e ↦ rw (eq→== (t.semaphores i).wait_head 0 e) (same_slots-Touches t t i refl (refl, refl))
  | inr n ↦ rw (ne→== (t.semaphores i).wait_head 0 n) (
      Touches-trans t (set_slot t i _) _ i (set_slot-Touches t i _ refl refl)
        (same_slots-Touches _ _ i refl (refl, refl)))
]

wake-Touches : (t : SemaphoreTable) (w i : ℕ) → Touches t (wake_waiter t w) i
unfolding wake_waiter set_waiting_on_sem
wake-Touches t w i = same_slots-Touches t _ i refl (unblock-SameRunner _ w)

raise-Touches : (t : SemaphoreTable) (i : ℕ) → Touches t (raise_value t i) i
unfolding raise_value
raise-Touches t i = set_slot-Touches t i _ refl refl

pub signal-Touches : (t : SemaphoreTable) (i : ℕ) → Touches t (signal_slot t i) i
unfolding signal_slot
signal-Touches t i = elim (eq-cases (dequeue_waiter t i).1 0) [
  | inl e ↦
      rw (eq→== (dequeue_waiter t i).1 0 e)
        (Touches-trans t (dequeue_waiter t i).0 _ i (dequeue-Touches t i) (raise-Touches _ i))
  | inr n ↦
      rw (ne→== (dequeue_waiter t i).1 0 n)
        (Touches-trans t (dequeue_waiter t i).0 _ i (dequeue-Touches t i) (wake-Touches _ _ i))
]
