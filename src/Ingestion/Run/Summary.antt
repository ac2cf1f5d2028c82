-- ===== src/Ingestion/Run/Summary.antt =====
-- The state table of SummarizeRun.
use xr_trading.Base.{
  ℕ, ◌+◌, ◌<◌, ◌≡◌, ◌≢◌, ◌↔◌, refl, Option, none, if◌then◌else◌, arith, inl, inr, ◌⊎◌,
}
use xr_trading.Domain.Errors.{ok, err, sentinel, invalid_data}
use xr_trading.Domain.Time.{Instant}
use xr_trading.Ingestion.Contracts.{
  RunTaskSnapshot, task_count, RunStatus, pending, running, success, failed, canceled, partial,
  RunSummary,
}
use xr_trading.Ingestion.Run.{validate_run_task_snapshot, run_status, is_open, summarize_run}

-- Tasks that have not reached a terminal state.
abbrev pub unfinished : RunTaskSnapshot → ℕ
unfinished s = s.pending_count + s.running_count + s.retry_wait_count

-- When a run is in each state, in terms of its task counts alone.
pub record IsStatus (s : RunTaskSnapshot) (status : RunStatus) : Type 0 where
  pub pending_iff : (status ≡ pending) ↔ (s.pending_count ≡ task_count s)
  pub running_iff : (status ≡ running) ↔ ((0 < unfinished s) × (s.pending_count < task_count s))
  pub success_iff : (status ≡ success) ↔ (s.success_count ≡ task_count s)
  pub failed_iff : (status ≡ failed) ↔ (s.failed_count ≡ task_count s)
  pub canceled_iff : (status ≡ canceled) ↔ (s.canceled_count ≡ task_count s)
  pub partial_iff : (status ≡ partial) ↔ (
      (unfinished s ≡ 0)
      × (s.success_count < task_count s)
      × (s.failed_count < task_count s)
      × (s.canceled_count < task_count s))

run_status-IsStatus :
    (s : RunTaskSnapshot) → 0 < task_count s → IsStatus s (run_status s (task_count s))
unfolding run_status task_count
run_status-IsStatus s h = record {
  pending_iff = ground arith;
  running_iff = ground arith;
  success_iff = ground arith;
  failed_iff = ground arith;
  canceled_iff = ground arith;
  partial_iff = ground arith;
}

-- What a summary says of its snapshot.
pub record IsSummary (s : RunTaskSnapshot) (r : RunSummary) : Type 0 where
  pub run : r.run_id ≡ s.run_id
  pub status : IsStatus s r.status
  pub total :
      r.task_count
      ≡ r.pending_count + r.running_count + r.retry_wait_count + r.success_count + r.failed_count
        + r.canceled_count
  pub open_counts :
      (r.pending_count ≡ s.pending_count)
      × (r.running_count ≡ s.running_count)
      × (r.retry_wait_count ≡ s.retry_wait_count)
  pub end_counts :
      (r.success_count ≡ s.success_count)
      × (r.failed_count ≡ s.failed_count)
      × (r.canceled_count ≡ s.canceled_count)
  pub start : r.earliest_started_at ≡ s.earliest_started_at
  pub end_open : 0 < unfinished s → r.latest_finished_at ≡ none
  pub end_over : unfinished s ≡ 0 → r.latest_finished_at ≡ s.latest_finished_at

snapshot_cases :
    (s : RunTaskSnapshot)
    → ((validate_run_task_snapshot s ≡ err (sentinel invalid_data))
        × ((s.run_id ≡ 0) ⊎ (task_count s ≡ 0)))
      ⊎ ((validate_run_task_snapshot s ≡ ok tt) × (s.run_id ≢ 0) × (0 < task_count s))
unfolding validate_run_task_snapshot
snapshot_cases s = ground arith

end_cases :
    (s : RunTaskSnapshot) (end : Option Instant)
    → 0 < task_count s
    → (0 < unfinished s → (if is_open (run_status s (task_count s)) then none else end) ≡ none)
      × (unfinished s ≡ 0 → (if is_open (run_status s (task_count s)) then none else end) ≡ end)
unfolding run_status task_count
end_cases s end h = (λ open_tasks. ground arith, λ over. ground arith)

-- Of the snapshots whose counts are not negative, SummarizeRun refuses exactly those without a run or without a task,
-- with invalid data; otherwise the run's status is the one that the counts determine, the counts are copied, and the run has
-- an end only when no task is pending, running or waiting for a retry, namely the latest one.
pub summarize_run-IsSummary :
    (s : RunTaskSnapshot)
    → ((summarize_run s ≡ err (sentinel invalid_data)) × ((s.run_id ≡ 0) ⊎ (task_count s ≡ 0)))
      ⊎ ((r : RunSummary) × (summarize_run s ≡ ok r)
          × (s.run_id ≢ 0)
          × (0 < task_count s)
          × IsSummary s r)
unfolding summarize_run task_count
summarize_run-IsSummary s = elim (snapshot_cases s) [
  | inl (bad, why) ↦ inl (rw (summarize_run, bad) refl, why)
  | inr (good, named, filled) ↦
      let ends = end_cases s s.latest_finished_at filled in
      inr (
        _,
        rw (summarize_run, good) refl,
        named,
        filled,
        record {
          run = refl;
          status = run_status-IsStatus s filled;
          total = refl;
          open_counts = (refl, refl, refl);
          end_counts = (refl, refl, refl);
          start = refl;
          end_open = ends.0;
          end_over = ends.1;
        },
      )
]
