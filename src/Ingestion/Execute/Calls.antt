-- ===== src/Ingestion/Execute/Calls.antt =====
-- What ExecuteTask calls, and under which conditions: whatever those calls keep true, it keeps true.
pub mod Kept
use xr_trading.Base.{
  ℕ, zero, suc, ◌≡◌, ◌≢◌, refl, sym, ◌∙◌, not, true, false, Bool-cases, Option-cases, inl, inr,
  String, List, [], ◌∷◌, Option, none, some, ◌==◌, arith, not-false, or_false,
}
use xr_trading.Domain.Errors.{
  Error, Result, Result-cases, ok, err, refuse_if, refuse_if-ok, invalid_data, errors_is,
  task_lease_lost, conflict, same_value,
}
use xr_trading.Domain.Time.{Instant, new_utc_instant, new_utc_instant-same}
use xr_trading.Domain.Interval.{parse_bar_interval}
use xr_trading.Domain.Task.{TaskClaim, is_nil, same_id}
use xr_trading.Ingestion.Contracts.{FailureCommit, RunTaskSnapshot, RunSummary}
use xr_trading.Ingestion.Adapter.{ProviderInstrumentRef, ProviderBar, FetchBarsRequest}
use xr_trading.Ingestion.Fetch.{admit, accept, fetch_pages, fetch_all_bars, rounds}
use xr_trading.Ingestion.Execution.{ExecutionContext, reference}
use xr_trading.Ingestion.Execution.Resolved.{IsResolved, reference-IsResolved}
use xr_trading.Ingestion.Quality.{QualityResult, validate_quality_result}
use xr_trading.Ingestion.Retry.{failure_commit, validate_executable_claim}
use xr_trading.Ingestion.Run.{
  refresh, refresh_loop, observe, summarize_run, maximum_run_refresh_attempts,
}
use xr_trading.Ingestion.Run.Refresh.{observed}
use xr_trading.Ingestion.Action.{Action, continue-keeps}
use xr_trading.Ingestion.Execute.{
  Service, registered, success_commit, claim_request, run_store, bar_source, clock, commit_claim,
  collect_claim, execute_claim, is_abandoned, settle_failure, fail_claim, settle_success, conclude,
  execute_task,
}
use xr_trading.Ingestion.Execute.Committed.{IsLeased, checked_range}

-- The service calls its dependencies only as this says: each field is a promise that one call keeps `P`, and
-- its hypotheses are what the service has then made sure of.
module _ (service : Service) (claim : TaskClaim) where
  open service use {
    State, config, is_timezone, now, load_execution_context, adapter, validate_bars, commit_success,
    commit_failure, load_run_task_snapshot, save_run_summary,
  }

  pub record IsKept (P : State → Type 0) : Type 0 where
    pub by_now : (s : State) → P s → P (now s).1
    pub by_load : (s : State) → P s → P (load_execution_context claim.task.subscription_id s).1
    pub by_fetch :
        (code : String) (fetch : _) (request : FetchBarsRequest) (s : State)
        → adapter code ≡ some fetch
        → admit (bar_source service fetch) request s ≡ ok tt
        → P s
        → P (fetch request s).1
    pub by_validate :
        (execution : ExecutionContext) (bars : List ProviderBar) (s : State)
        → P s
        → P (validate_bars execution bars s).1
    pub by_success :
        (execution : ExecutionContext) (referred : ProviderInstrumentRef) (quality : QualityResult)
        (asked : State)
        → IsResolved execution referred
        → execution.subscription.id ≡ claim.task.subscription_id
        → validate_quality_result quality referred execution.subscription.interval
            claim.task.range_start claim.task.range_end
          ≡ ok tt
        → IsLeased claim (now asked).0
        → P (now asked).1
        → P (commit_success (success_commit claim execution quality (now asked).0) (now asked).1).1
    pub by_failure :
        (e : Error) (commit : FailureCommit) (asked : State)
        → errors_is e task_lease_lost ≡ false
        → IsLeased claim (now asked).0
        → failure_commit config claim e (now asked).0 ≡ some commit
        → P (now asked).1
        → P (commit_failure commit (now asked).1).1
    pub by_snapshot : (s : State) → P s → P (load_run_task_snapshot claim.task.run_id s).1
    pub by_summary :
        (snapshot : RunTaskSnapshot) (summary : RunSummary) (s : State)
        → snapshot.run_id ≡ claim.task.run_id
        → summarize_run snapshot ≡ ok summary
        → P s
        → P (save_run_summary summary s).1

  module _ (P : State → Type 0) (kept : IsKept P) where
    pub refresh_loop-keeps :
        (n : ℕ) (s : State) → P s → P (refresh_loop (run_store service) n claim.task.run_id s).1
    unfolding refresh_loop
    refresh_loop-keeps zero s p = p
    refresh_loop-keeps (suc n) s p =
        let loaded = (load_run_task_snapshot claim.task.run_id s).0 in
        let s1 = (load_run_task_snapshot claim.task.run_id s).1 in
        let p1 : P s1 = kept.by_snapshot s p in
        elim (Result-cases (observe (run_store service) claim.task.run_id loaded)) [
          | inl (e, bad) ↦ rw (refresh_loop, bad) p1
          | inr (made, good) ↦
              let (snapshot, _, same, summarized) =
                observed (run_store service) claim.task.run_id loaded good in
              let p2 : P (save_run_summary made s1).1 =
                kept.by_summary snapshot made s1 same summarized p1 in
              elim (Result-cases (save_run_summary made s1).0) [
                | inl (e, unsaved) ↦ elim (Bool-cases (errors_is e conflict)) [
                  | inl stale ↦
                      rw (refresh_loop, good, unsaved, stale)
                        (refresh_loop-keeps n (save_run_summary made s1).1 p2)
                  | inr other ↦ rw (refresh_loop, good, unsaved, other) p2
                ]
                | inr (_, written) ↦ rw (refresh_loop, good, written) p2
              ]
        ]

    pub refresh-keeps : (s : State) → P s → P (refresh (run_store service) claim.task.run_id s).1
    unfolding refresh
    refresh-keeps s p = elim (Bool-cases (is_nil claim.task.run_id)) [
      | inl bad ↦ rw (refresh, bad) p
      | inr good ↦ rw (refresh, good) (refresh_loop-keeps maximum_run_refresh_attempts s p)
    ]

    pub fetch_pages-keeps :
        (code : String) (fetch : _)
        → adapter code ≡ some fetch
        → (n : ℕ) (request : FetchBarsRequest) (bars : List ProviderBar) (s : State) → P s
        → P (fetch_pages (bar_source service fetch) n request bars s).1
    unfolding fetch_pages
    fetch_pages-keeps code fetch found zero request bars s p = p
    fetch_pages-keeps code fetch found (suc n) request bars s p =
        let source = bar_source service fetch in
        elim (Result-cases (admit source request s)) [
          | inl (e, bad) ↦ rw (fetch_pages, bad) p
          | inr (_, good) ↦
              let p1 : P (fetch request s).1 = kept.by_fetch code fetch request s found good p in
              elim (Result-cases (accept source request bars (fetch request s).0)) [
                | inl (e, bad) ↦ rw (fetch_pages, good, bad) p1
                | inr ((result, joined), fits) ↦ elim (Bool-cases result.has_more) [
                  | inl more ↦
                      rw (fetch_pages, good, fits, more)
                        (fetch_pages-keeps code fetch found n
                          (record request { cursor = result.next_cursor }) joined
                          (fetch request s).1 p1)
                  | inr last ↦ rw (fetch_pages, good, fits, last) p1
                ]
              ]
        ]
