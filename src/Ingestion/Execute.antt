-- ===== src/Ingestion/Execute.antt =====
-- ExecuteTask and executeClaim of ingestion/service.go: one claimed task from its catalog rows to a commit.
-- What the service calls is a Service; `errors.Join` makes a list of errors, and the empty list is nil.
pub mod Committed
pub mod Settled
pub mod Calls
mod Samples
use xr_trading.Base.{
  String, Bool, true, false, not, ◌&&◌, ◌||◌, ◌==◌, Option, none, some, List, [], ◌∷◌, is_none,
  is_some,
}
use xr_trading.Domain.Errors.{
  Error, Sentinel, Result, ok, err, sentinel, refuse_if, errors_is, invalid_data, task_lease_lost,
  adapter_not_registered, context_canceled, deadline_exceeded,
}
use xr_trading.Domain.Time.{Instant, new_utc_instant}
use xr_trading.Domain.Interval.{BarInterval, parse_bar_interval}
use xr_trading.Domain.Task.{Uuid, TaskClaim}
use xr_trading.Ingestion.ProviderErrors.{as_provider_error}
use xr_trading.Ingestion.Contracts.{
  Config, FailureCommit, SuccessCommit, RunTaskSnapshot, RunSummary,
}
use xr_trading.Ingestion.Adapter.{
  ProviderInstrumentRef, ProviderBar, FetchBarsRequest, FetchBarsResult,
}
use xr_trading.Ingestion.Fetch.{BarSource, fetch_all_bars}
use xr_trading.Ingestion.Execution.{ExecutionContext, reference}
use xr_trading.Ingestion.Quality.{QualityResult, validate_quality_result, successful_checkpoint}
use xr_trading.Ingestion.Retry.{failure_commit, validate_executable_claim}
use xr_trading.Ingestion.Run.{RunStore, refresh}
use xr_trading.Ingestion.Action.{Action, ◌>>=◌, ◌>>◌, pure}

-- What ExecuteTask calls: the context, the clock, the store, the registry with its adapters, the quality
-- validator and the time zone database. Each call may change what the later ones see.
pub record Service : Type 1 where
  pub State : Type 0
  pub config : Config
  pub is_timezone : String → Bool
  pub context_error : State → Option Sentinel
  pub now : State → Instant × State
  pub load_execution_context : Uuid → Action State ExecutionContext
  pub adapter : String → Option (FetchBarsRequest → Action State FetchBarsResult)
  pub validate_bars_request : FetchBarsRequest → Result (Unit {0})
  pub validate_bars : ExecutionContext → List ProviderBar → Action State QualityResult
  pub commit_success : SuccessCommit → Action State (Unit {0})
  pub commit_failure : FailureCommit → Action State (Unit {0})
  pub load_run_task_snapshot : Uuid → Action State RunTaskSnapshot
  pub save_run_summary : RunSummary → Action State (Unit {0})

-- `!exists || adapter == nil`
abbrev pub registered {ℓ} : {A : Type ℓ} → Option A → Result A
registered none = err (sentinel adapter_not_registered)
registered (some found) = ok found

-- The request for the bars of the claim's range.
abbrev pub claim_request :
    Config → ProviderInstrumentRef → BarInterval → Instant → Instant → FetchBarsRequest
claim_request config referred interval start end = record {
  instrument = referred;
  interval = interval;
  start_time = start;
  end_time = end;
  limit = config.bars_per_page;
  cursor = "";
}

-- The write set of a success.
abbrev pub success_commit : TaskClaim → ExecutionContext → QualityResult → Instant → SuccessCommit
success_commit claim execution quality finished_at = record {
  claim = claim;
  bars = quality.bars;
  issues = quality.issues;
  checkpoint = successful_checkpoint execution.subscription.id quality.bars finished_at;
  finished_at = finished_at;
}

-- How ExecuteTask ends: with the errors that it joins, of which none is a success, or in the panic that an
-- index of the backoffs out of range would be.
pub data Outcome : Type 0 where
  returned : List Error → Outcome
  panicked : Outcome

module _ (service : Service) where
  open service use {
    State, config, is_timezone, context_error, now, load_execution_context, adapter,
    validate_bars_request, validate_bars, commit_success, commit_failure, load_run_task_snapshot,
    save_run_summary,
  }

  abbrev pub clock : Action State Instant
  clock s = (ok (now s).0, (now s).1)

  abbrev pub bar_source : (FetchBarsRequest → Action State FetchBarsResult) → BarSource
  bar_source fetch = record {
    State = State;
    context_error = context_error;
    validate_bars_request = validate_bars_request;
    fetch_bars = fetch;
  }

  abbrev pub run_store : RunStore
  run_store = record {
    State = State;
    load_run_task_snapshot = load_run_task_snapshot;
    save_run_summary = save_run_summary;
  }

  -- The end of executeClaim: the time, the lease once more, and the commit.
  unfoldable pub commit_claim :
      TaskClaim → ExecutionContext → QualityResult → Action State (Unit {0})
  commit_claim claim execution quality = do
    finished_at ← clock
    pure (validate_executable_claim claim finished_at)
    commit_success (success_commit claim execution quality finished_at)

  -- From the request to the commit.
  unfoldable pub collect_claim :
      TaskClaim
      → ExecutionContext
      → FetchBarsRequest
      → (FetchBarsRequest → Action State FetchBarsResult)
      → Action State (Unit {0})
  unfolding commit_claim
  collect_claim claim execution request fetch = do
    bars ← fetch_all_bars (bar_source fetch) config.maximum_pages request
    quality ← validate_bars execution bars
    pure (
        validate_quality_result quality request.instrument request.interval request.start_time
          request.end_time)
    commit_claim claim execution quality

  -- executeClaim
  unfoldable pub execute_claim : TaskClaim → Action State (Unit {0})
  unfolding collect_claim
  execute_claim claim = do
    execution ← load_execution_context claim.task.subscription_id
    pure (refuse_if (not (execution.subscription.id == claim.task.subscription_id)) invalid_data)
    referred ← pure (reference is_timezone execution)
    interval ← pure (parse_bar_interval execution.subscription.interval)
    start ← pure (new_utc_instant claim.task.range_start)
    end ← pure (new_utc_instant claim.task.range_end)
    fetch ← pure (registered (adapter execution.provider.code))
    collect_claim claim execution (claim_request config referred interval start end) fetch

  -- ExecuteTask returns the error of executeClaim as it is.
  abbrev pub is_abandoned : Error → State → Bool
  is_abandoned e s =
      errors_is e task_lease_lost
      || is_some (context_error s)
      || is_none (as_provider_error e)
        && (errors_is e context_canceled || errors_is e deadline_exceeded)

  -- After the failure has been committed, or not.
  unfoldable pub settle_failure : TaskClaim → Error → Result (Unit {0}) × State → Outcome × State
  settle_failure claim e (err f, s) = (returned (e ∷ f ∷ []), s)
  settle_failure claim e (ok _, s) =
      let (refreshed, s') = refresh run_store claim.task.run_id s in
      elim refreshed [ err f ↦ (returned (e ∷ f ∷ []), s') | ok _ ↦ (returned (e ∷ []), s') ]

  -- The failure transition, from the time on.
  unfoldable pub fail_claim : TaskClaim → Error → State → Outcome × State
  unfolding settle_failure
  fail_claim claim e s =
      let (finished_at, s1) = now s in
      elim (validate_executable_claim claim finished_at) [
        | err lost ↦ (returned (e ∷ lost ∷ []), s1)
        | ok _ ↦ elim (failure_commit config claim e finished_at) [
          | none ↦ (panicked, s1)
          | some commit ↦ settle_failure claim e (commit_failure commit s1)
        ]
      ]

  unfoldable pub settle_success : TaskClaim → State → Outcome × State
  settle_success claim s =
      let (refreshed, s') = refresh run_store claim.task.run_id s in
      elim refreshed [ err f ↦ (returned (f ∷ []), s') | ok _ ↦ (returned [], s') ]

  -- What ExecuteTask makes of the result of executeClaim.
  unfoldable pub conclude : TaskClaim → Result (Unit {0}) × State → Outcome × State
  unfolding fail_claim settle_success
  conclude claim (ok _, s) = settle_success claim s
  conclude claim (err e, s) = elim (is_abandoned e s) [
    | true ↦ (returned (e ∷ []), s)
    | false ↦ fail_claim claim e s
  ]

  unfoldable pub execute_task : TaskClaim → State → Outcome × State
  unfolding execute_claim conclude
  execute_task claim s =
      let (started_at, s1) = now s in
      elim (validate_executable_claim claim started_at) [
        | err e ↦ (returned (e ∷ []), s1)
        | ok _ ↦ conclude claim (execute_claim claim s1)
      ]
