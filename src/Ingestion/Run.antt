-- ===== src/Ingestion/Run.antt =====
-- ingestion/run.go: the state of a run, derived from the counts of its tasks, and its bounded refresh.
pub mod Summary
pub mod Refresh
use xr_trading.Base.{
  ℕ, zero, suc, ◌+◌, ◌≡◌, Bool, true, false, not, ◌||◌, Option, none, some, List, [], ◌∷◌, ltb,
  ◌==◌, if◌then◌else◌,
}
use xr_trading.Domain.Errors.{
  Error, Result, ok, err, sentinel, errors_is, refuse_if, ◌>>=◌, ◌>>◌, invalid_data, conflict,
}
use xr_trading.Domain.Time.{Instant}
use xr_trading.Domain.Task.{Uuid, is_nil}
use xr_trading.Ingestion.Contracts.{
  RunTaskSnapshot, task_count, RunStatus, pending, running, success, failed, canceled, partial,
  RunSummary,
}

-- A snapshot here is one whose counts are not negative; the code refuses any other by the tests in front.
unfoldable pub validate_run_task_snapshot : RunTaskSnapshot → Result (Unit {0})
unfolding task_count
validate_run_task_snapshot s = refuse_if (is_nil s.run_id || task_count s == 0) invalid_data

-- The `switch` of SummarizeRun.
unfoldable pub run_status : RunTaskSnapshot → ℕ → RunStatus
run_status s total =
    if s.pending_count == total
    then pending
    else if ltb 0 (s.pending_count + s.running_count + s.retry_wait_count)
    then running
    else if s.success_count == total
    then success
    else if s.failed_count == total
    then failed
    else if s.canceled_count == total
    then canceled
    else partial

abbrev pub is_open : RunStatus → Bool
is_open pending = true
is_open running = true
is_open _ = false

unfoldable pub summarize_run : RunTaskSnapshot → Result RunSummary
unfolding validate_run_task_snapshot run_status task_count
summarize_run s = do
  validate_run_task_snapshot s
  let total = task_count s
  let status = run_status s total
  ok (record {
    run_id = s.run_id;
    status = status;
    task_count = total;
    pending_count = s.pending_count;
    running_count = s.running_count;
    retry_wait_count = s.retry_wait_count;
    success_count = s.success_count;
    failed_count = s.failed_count;
    canceled_count = s.canceled_count;
    earliest_started_at = s.earliest_started_at;
    latest_finished_at = if is_open status then none else s.latest_finished_at;
  })

-- RunStore: each call reads or changes the store's state, which others may change between calls.
pub record RunStore : Type 1 where
  pub State : Type 0
  pub load_run_task_snapshot : Uuid → State → Result RunTaskSnapshot × State
  pub save_run_summary : RunSummary → State → Result (Unit {0}) × State

abbrev pub maximum_run_refresh_attempts : ℕ
maximum_run_refresh_attempts = 3

module _ (store : RunStore) where
  open store use {State, load_run_task_snapshot, save_run_summary}

  -- One round: the summary to save, if the snapshot is one of this run and can be summarised.
  unfoldable pub observe : Uuid → Result RunTaskSnapshot → Result RunSummary
  observe run_id loaded = do
    snapshot ← loaded
    refuse_if (not (snapshot.run_id == run_id)) invalid_data
    summarize_run snapshot

  -- The loop of Refresh with so many attempts left.
  unfoldable pub refresh_loop : ℕ → Uuid → State → Result RunSummary × State
  refresh_loop zero run_id s = (err (sentinel conflict), s)
  refresh_loop (suc attempts) run_id s =
      let (loaded, s1) = load_run_task_snapshot run_id s in
      elim (observe run_id loaded) [
        | err e ↦ (err e, s1)
        | ok summary ↦
            let (saved, s2) = save_run_summary summary s1 in
            elim saved [
              | ok _ ↦ (ok summary, s2)
              | err e ↦ elim (errors_is e conflict) [
                | true ↦ refresh_loop attempts run_id s2
                | false ↦ (err e, s2)
              ]
            ]
      ]

  unfoldable pub refresh : Uuid → State → Result RunSummary × State
  refresh run_id s =
      if is_nil run_id
      then (err (sentinel invalid_data), s)
      else refresh_loop maximum_run_refresh_attempts run_id s
