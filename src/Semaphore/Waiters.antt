-- ===== src/Semaphore/Waiters.antt =====
-- Kernel/ipc/semaphore.c: the queue of waiting processes of a semaphore, linked one way by the
-- field `sem_waiter_next`.
use so_tp.Base.{
  ℕ, ◌≡◌, ◌≢◌, refl, sym, ◌∙◌, ap, subst, List, [], ◌∷◌, ◌++◌, NotIn, Distinct, Distinct-append_one,
  ◌==◌, if◌then◌else◌, update, update_self, update_ne, eq→==, ne→==,
}
use so_tp.Queue.Chain.{first, tail_of, last_or}
use so_tp.Queue.Push.{last_or-ne, last_or-append}
use so_tp.Semaphore.{SemaphoreTable, set_sem_next, enqueue_waiter, dequeue_waiter}

abbrev pub Linked : (ℕ → ℕ) → List ℕ → Type 0
Linked next [] = Unit {0}
Linked next (x ∷ xs) = (x ≢ 0) × (next x ≡ first xs) × Linked next xs

-- The processes that wait at the slot `i`, the longest waiting first.
pub record Waiters (t : SemaphoreTable) (i : ℕ) (ws : List ℕ) : Type 0 where
  pub linked : Linked t.sched.procs.sem_waiter_next ws
  pub head_first : (t.semaphores i).wait_head ≡ first ws
  pub tail_last : (t.semaphores i).wait_tail ≡ last_or 0 ws
  pub distinct : Distinct ws

-- A write to a process outside the list is not seen.
pub Linked-update :
    (next : ℕ → ℕ) (p v : ℕ) (ws : List ℕ)
    → NotIn p ws
    → Linked next ws
    → Linked (update next p v) ws
Linked-update next p v [] n c = tt
Linked-update next p v (x ∷ ws) n c =
    (c.0, (update_ne next p x v (λ e. n.0 (sym e)) ∙ c.1), Linked-update next p v ws n.1 c.2)

Linked-append :
    (next : ℕ → ℕ) (p x : ℕ) (ws : List ℕ)
    → next p ≡ 0
    → p ≢ 0
    → NotIn p (x ∷ ws)
    → Distinct (x ∷ ws)
    → Linked next (x ∷ ws)
    → Linked (update next (last_or x ws) p) (x ∷ ws ++ p ∷ [])
Linked-append next p x [] e z n d c =
    (c.0, update_self next x p, (z, (update_ne next x p p n.0 ∙ e), tt))
Linked-append next p x (y ∷ ws) e z n d c = (
  c.0,
  (update_ne next (last_or y ws) x p (last_or-ne x y ws d.0) ∙ c.1),
  Linked-append next p y ws e z n.1 d.1 c.2,
)

-- A process that starts to wait comes to the end of the queue.
pub enqueue-Waiters :
    (t : SemaphoreTable) (i p : ℕ) (ws : List ℕ)
    → Waiters t i ws
    → NotIn p ws
    → p ≢ 0
    → Waiters (enqueue_waiter t i p) i (ws ++ p ∷ [])
unfolding enqueue_waiter set_sem_next
enqueue-Waiters t i p [] w n z = rw (eq→== (t.semaphores i).wait_head 0 w.head_first) (record {
  linked = (z, update_self t.sched.procs.sem_waiter_next p 0, tt);
  head_first = ap (λ v. v.wait_head) (update_self t.semaphores i _);
  tail_last = ap (λ v. v.wait_tail) (update_self t.semaphores i _);
  distinct = (tt, tt);
})
enqueue-Waiters t i p (x ∷ ws) w n z =
    rw (ne→== (t.semaphores i).wait_head 0 (λ e. w.linked.0 (sym w.head_first ∙ e))) (record {
      linked =
          subst
            (λ k. Linked (update (update t.sched.procs.sem_waiter_next p 0) k p) (x ∷ ws ++ p ∷ []))
            (sym w.tail_last)
            (Linked-append (update t.sched.procs.sem_waiter_next p 0) p x ws
              (update_self t.sched.procs.sem_waiter_next p 0) z n w.distinct
              (Linked-update t.sched.procs.sem_waiter_next p 0 (x ∷ ws) n w.linked));
      head_first = ap (λ v. v.wait_head) (update_self t.semaphores i _) ∙ w.head_first;
      tail_last =
          ap (λ v. v.wait_tail) (update_self t.semaphores i _) ∙ sym (last_or-append x p ws);
      distinct = Distinct-append_one (x ∷ ws) p w.distinct n;
    })

first-Linked_tail :
    (next : ℕ → ℕ) (x : ℕ) (ws : List ℕ)
    → Linked next (x ∷ ws)
    → (if next x == 0 then 0 else last_or x ws) ≡ last_or 0 ws
first-Linked_tail next x [] c = rw (eq→== (next x) 0 c.1)
first-Linked_tail next x (y ∷ ws) c = rw (ne→== (next x) 0 (λ e. c.2.0 (sym c.1 ∙ e)))

-- The process that has waited longest is taken out; NULL is answered only if none waits.
pub dequeue-Waiters :
    (t : SemaphoreTable) (i : ℕ) (ws : List ℕ)
    → Waiters t i ws
    → ((dequeue_waiter t i).1 ≡ first ws) × Waiters (dequeue_waiter t i).0 i (tail_of ws)
unfolding dequeue_waiter set_sem_next
dequeue-Waiters t i [] w = rw (eq→== (t.semaphores i).wait_head 0 w.head_first) (refl, w)
dequeue-Waiters t i (x ∷ ws) w =
    rw (ne→== (t.semaphores i).wait_head 0 (λ e. w.linked.0 (sym w.head_first ∙ e))) (
      w.head_first,
      (record {
        linked =
            subst (λ k. Linked (update next k 0) ws) (sym w.head_first)
              (Linked-update next x 0 ws w.distinct.0 w.linked.2);
        head_first =
            ap (λ v. v.wait_head) (update_self t.semaphores i _)
            ∙ (ap next w.head_first ∙ w.linked.1);
        tail_last =
            ap (λ v. v.wait_tail) (update_self t.semaphores i _)
            ∙ (taken (t.semaphores i).wait_head (t.semaphores i).wait_tail w.head_first w.tail_last
                ∙ first-Linked_tail next x ws w.linked);
        distinct = w.distinct.1;
      }),
    )
  where
    next : ℕ → ℕ
    next = t.sched.procs.sem_waiter_next

    taken :
        (h k : ℕ)
        → h ≡ x
        → k ≡ last_or x ws
        → (if next h == 0 then 0 else k) ≡ (if next x == 0 then 0 else last_or x ws)
    taken h k e d = rw (e, d)
