-- ===== src/Process/Listing.antt =====
-- Kernel/proc/scheduler.c, `scheduler_list_all_processes`. The caller's buffer is the list of the
-- entries written so far.
use so_tp.Base.{
  ℕ, zero, suc, ◌≤◌, ◌<◌, ◌≡◌, refl, inl, inr, Bool, false, ◌&&◌, ◌||◌, List, [], ◌∷◌, ◌++◌, ◌==◌,
  ◌!=◌, ltb, leb, if◌then◌else◌, length, length-append, arith, Bool-cases,
}
use so_tp.Queue.{address_limit, ProcessQueue}
use so_tp.State.{Scheduler, ProcessState}
use so_tp.Process.{first_characters, process_name_max_len}

-- `process_info_t`.
pub record ProcessInfo : Type 0 where
  pub pid : ℕ
  pub name : List ℕ
  pub state : ProcessState
  pub priority : ℕ
  pub rsp : ℕ
  pub rbp : ℕ
  pub foreground : Bool

unfoldable pub info_of : Scheduler → ℕ → ProcessInfo
info_of s p = record {
  pid = s.procs.pid p;
  name = first_characters process_name_max_len (s.procs.name p);
  state = s.procs.state p;
  priority = s.procs.priority p;
  rsp = s.procs.rsp p;
  rbp = s.procs.rbp p;
  foreground = s.procs.is_foreground p;
}

unfoldable pub add_process_to_list : Scheduler → ℕ → ℕ → List ProcessInfo → List ProcessInfo
add_process_to_list s max_count p out =
    if p == 0 || leb max_count (length out) || p == s.idle_p then out else out ++ info_of s p ∷ []

-- The loop over a queue, from `it` on.
unfoldable pub list_from : ℕ → Scheduler → ℕ → ℕ → List ProcessInfo → List ProcessInfo
list_from zero s max_count it out = out
list_from (suc fuel) s max_count it out =
    let rest =
      list_from fuel s max_count (s.links.queue_next it) (add_process_to_list s max_count it out) in
    if it != 0 && ltb (length out) max_count then rest else out

unfoldable pub list_queue : Scheduler → ℕ → ProcessQueue → List ProcessInfo → List ProcessInfo
list_queue s max_count q out = list_from address_limit s max_count q.head out

unfoldable pub is_listed : ℕ → List ProcessInfo → Bool
is_listed pid [] = false
is_listed pid (x ∷ xs) = x.pid == pid || is_listed pid xs

-- The entry of the process that runs, if it is listed already, is brought up to date.
unfoldable pub refresh_entry : Scheduler → ℕ → List ProcessInfo → List ProcessInfo
refresh_entry s p [] = []
refresh_entry s p (x ∷ xs) =
    let rest = x ∷ refresh_entry s p xs in
    if x.pid == s.procs.pid p
    then record x {
      state = s.procs.state p;
      rsp = s.procs.rsp p;
      rbp = s.procs.rbp p;
      foreground = s.procs.is_foreground p;
    }
      ∷ xs
    else rest

unfoldable pub list_current : Scheduler → ℕ → List ProcessInfo → List ProcessInfo
list_current s max_count out =
    if s.current != 0 && ltb (length out) max_count
    then if is_listed (s.procs.pid s.current) out
      then refresh_entry s s.current out
      else add_process_to_list s max_count s.current out
    else out

-- The answer of the function is the length.
unfoldable pub scheduler_list_all_processes : Scheduler → ℕ → ℕ → List ProcessInfo
scheduler_list_all_processes s buffer max_count =
    let ready_ones =
      list_queue s max_count (s.ready_queues 2) (
        list_queue s max_count (s.ready_queues 1) (list_queue s max_count (s.ready_queues 0) [])) in
    let queued =
      list_queue s max_count s.finished_q (list_queue s max_count s.blocked_q ready_ones) in
    if buffer == 0 || max_count == 0 then [] else list_current s max_count queued

length-add_process_to_list :
    (s : Scheduler) (m p : ℕ) (out : List ProcessInfo)
    → length out ≤ m
    → length (add_process_to_list s m p out) ≤ m
unfolding add_process_to_list
length-add_process_to_list s m p out h = elim (Bool-cases (leb m (length out))) [
  | inl e ↦ elim (Bool-cases (p == 0)) [ inl z ↦ rw z h | inr n ↦ rw (n, e) h ]
  | inr e ↦ elim (Bool-cases (p == 0)) [
    | inl z ↦ rw z h
    | inr n ↦ elim (Bool-cases (p == s.idle_p)) [
      | inl i ↦ rw (n, e, i) h
      | inr i ↦ rw (n, e, i) (one_more out (info_of s p) m (below m (length out) e))
    ]
  ]
]
  where
    below : (m n : ℕ) → leb m n ≡ false → n < m
    below m n e = ground (arith, e)

    one_more :
        (xs : List ProcessInfo) (x : ProcessInfo) (m : ℕ)
        → length xs < m
        → length (xs ++ x ∷ []) ≤ m
    one_more xs x m h = omega (arith, length-append xs (x ∷ []))

length-list_from :
    (fuel : ℕ) (s : Scheduler) (m it : ℕ) (out : List ProcessInfo)
    → length out ≤ m
    → length (list_from fuel s m it out) ≤ m
unfolding list_from
length-list_from zero s m it out h = h
length-list_from (suc fuel) s m it out h = elim (Bool-cases (it != 0 && ltb (length out) m)) [
  | inl e ↦ rw e (length-list_from fuel s m _ _ (length-add_process_to_list s m it out h))
  | inr e ↦ rw e h
]

length-list_queue :
    (s : Scheduler) (m : ℕ) (q : ProcessQueue) (out : List ProcessInfo)
    → length out ≤ m
    → length (list_queue s m q out) ≤ m
unfolding list_queue
length-list_queue s m q out h = length-list_from address_limit s m q.head out h

length-refresh_entry :
    (s : Scheduler) (p : ℕ) (out : List ProcessInfo) → length (refresh_entry s p out) ≡ length out
unfolding refresh_entry
length-refresh_entry s p [] = refl
length-refresh_entry s p (x ∷ xs) = elim (Bool-cases (x.pid == s.procs.pid p)) [
  | inl e ↦ rw e refl
  | inr e ↦ rw (e, length-refresh_entry s p xs) refl
]

length-list_current :
    (s : Scheduler) (m : ℕ) (out : List ProcessInfo)
    → length out ≤ m
    → length (list_current s m out) ≤ m
unfolding list_current
length-list_current s m out h = elim (Bool-cases (s.current != 0 && ltb (length out) m)) [
  | inr e ↦ rw e h
  | inl e ↦ elim (Bool-cases (is_listed (s.procs.pid s.current) out)) [
    | inl g ↦ rw (e, g, length-refresh_entry s s.current out) h
    | inr g ↦ rw (e, g) (length-add_process_to_list s m s.current out h)
  ]
]

-- The listing never writes more entries than the caller's buffer has, whatever the queues hold.
pub length-scheduler_list_all_processes :
    (s : Scheduler) (buffer max_count : ℕ)
    → length (scheduler_list_all_processes s buffer max_count) ≤ max_count
unfolding scheduler_list_all_processes
length-scheduler_list_all_processes s buffer m = elim (Bool-cases (buffer == 0 || m == 0)) [
  | inl e ↦ rw e (omega arith)
  | inr e ↦ rw e (
      length-list_current s m _ (
        length-list_queue s m _ _ (
          length-list_queue s m _ _ (
            length-list_queue s m _ _
              (length-list_queue s m _ _ (length-list_queue s m _ [] (omega arith)))))))
]
