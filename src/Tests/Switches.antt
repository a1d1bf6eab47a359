-- ===== src/Tests/Switches.antt =====
-- The switch and the end of processes at the sample queues.
use so_tp.Base.{ℕ, ◌≡◌, ◌≢◌, ◌<◌, ◌⊎◌, refl, List, [], ◌∷◌, arith, inl, inr, eq-cases, eq→==, ne→==}
use so_tp.State.{running, blocked, finished}
use so_tp.Scheduler.Places.{ready_at, blocked_at, finished_at, Represents, Free, put_at}
use so_tp.Scheduler.Enqueue.{append_at, queue_priority}
use so_tp.Scheduler.Wake.{erase_at}
use so_tp.Lifecycle.{dispatch, end_process, save_context}
use so_tp.Lifecycle.Dispatch.{Runs, dispatch-Runs}
use so_tp.Lifecycle.Saving.{save_context-Represents}
use so_tp.Lifecycle.Ending.{Ended, end_process-Ended}
use so_tp.Base.{length, ◌≤◌}
use so_tp.Lifecycle.Foreground.{scheduler_get_foreground_pid}
use so_tp.Lifecycle.Foreground.{Flagged, foreground_pid-Flagged}
use so_tp.Process.Listing.{scheduler_list_all_processes, length-scheduler_list_all_processes}
use so_tp.Tests.Schedules.{
  scheduler, lists, processes, scheduler-Represents, current-Free, sample_limit,
}

idle-Free : Free lists 80
idle-Free (ready_at pr) = elim (eq-cases pr 1) [
  | inl e ↦ rw (eq→== pr 1 e) (omega arith)
  | inr n ↦ rw (ne→== pr 1 n) tt
]
idle-Free blocked_at = omega arith
idle-Free finished_at = tt

dispatch-Runs_example :
    let s' = dispatch 9 scheduler in
    (((k : ℕ) → k < 3 → lists (ready_at k) ≡ []) × Runs s' lists 80)
    ⊎ ((pr p : ℕ) × (xs : List ℕ) × (pr < 3)
        × (lists (ready_at pr) ≡ p ∷ xs)
        × ((k : ℕ) → pr < k → k < 3 → lists (ready_at k) ≡ [])
        × Runs s' (put_at lists (ready_at pr) xs) p)
dispatch-Runs_example = dispatch-Runs {s = scheduler} {f = lists} 9 scheduler-Represents idle-Free

save_context-Represents_example :
    let s' = (save_context scheduler 64 4096 0).0 in
    (◌≢◌ {A = ℕ} 64 80
      → running ≡ running
      → Represents s' (append_at lists (ready_at (queue_priority processes 64)) 64))
    × (running ≡ blocked → Represents s' (append_at lists blocked_at 64))
    × (running ≡ finished → ◌≡◌ {A = ℕ} 0 0 → Represents s' (append_at lists finished_at 64))
save_context-Represents_example =
    save_context-Represents {s = scheduler} {f = lists} 64 4096 0 scheduler-Represents current-Free
      (omega arith) (sample_limit 64 (omega arith))

end_process-Ended_example :
    Ended (end_process scheduler 48) (append_at (erase_at lists blocked_at 48) finished_at 48) 48
end_process-Ended_example =
    end_process-Ended {s = scheduler} {f = lists} blocked_at 48 scheduler-Represents tt refl refl

foreground_pid-Flagged_example : Flagged scheduler (scheduler_get_foreground_pid scheduler)
foreground_pid-Flagged_example = foreground_pid-Flagged scheduler

list_all_example : length (scheduler_list_all_processes scheduler 4096 2) ≤ 2
list_all_example = length-scheduler_list_all_processes scheduler 4096 2
