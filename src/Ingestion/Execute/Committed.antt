-- ===== src/Ingestion/Execute/Committed.antt =====
-- What ExecuteTask has done when it returns nil.
use xr_trading.Base.{Option-cases, inl, inr, some, arith, ◌<◌, ◌∙◌, ◌≡◌, sym, not, ◌==◌, not-false}
use xr_trading.Domain.Errors.{same_value, ok, refuse_if, refuse_if-ok, invalid_data}
use xr_trading.Domain.Time.{new_utc_instant-same, Instant, new_utc_instant}
use xr_trading.Domain.Interval.{BarInterval, parse_bar_interval}
use xr_trading.Domain.Task.{same_id, TaskClaim, running}
use xr_trading.Ingestion.Adapter.{ProviderInstrumentRef, FetchBarsRequest}
use xr_trading.Ingestion.Fetch.{fetch_all_bars}
use xr_trading.Ingestion.Execution.{ExecutionContext, reference}
use xr_trading.Ingestion.Execution.Resolved.{IsResolved, reference-IsResolved}
use xr_trading.Ingestion.Quality.{QualityResult, validate_quality_result}
use xr_trading.Ingestion.Retry.{validate_executable_claim}
use xr_trading.Ingestion.Action.{continue-ok}
use xr_trading.Ingestion.Execute.{
  Service, registered, success_commit, claim_request, bar_source, clock, commit_claim,
  collect_claim, execute_claim,
}

-- The range that was checked is the claim's.
pub checked_range :
    (quality : QualityResult) (referred : ProviderInstrumentRef) {interval own : BarInterval}
    {start from end to : Instant}
    → interval ≡ own
    → start ≡ from
    → end ≡ to
    → validate_quality_result quality referred interval start end ≡ ok tt
    → validate_quality_result quality referred own from to ≡ ok tt
checked_range quality referred i a b h = rw (sym i, sym a, sym b) h

-- The task runs under a lease that ends after the time.
pub record IsLeased (claim : TaskClaim) (t : Instant) : Type 0 where
  pub until : Instant
  pub lease : claim.task.locked_until ≡ some until
  pub running_task : claim.task.status ≡ running
  pub in_force : t < until

pub executable-IsLeased :
    (claim : TaskClaim) (t : Instant) → validate_executable_claim claim t ≡ ok tt → IsLeased claim t
unfolding validate_executable_claim
executable-IsLeased claim t h = elim (Option-cases claim.task.locked_until) [
  | inl missing ↦ ground (arith, h, missing)
  | inr (until, given) ↦ record {
    until = until;
    lease = given;
    running_task = ground (arith, h, given);
    in_force = ground (arith, h, given);
  }
]

module _ (service : Service) (claim : TaskClaim) where
  open service use {
    State, config, is_timezone, now, load_execution_context, adapter, validate_bars, commit_success,
    commit_failure,
  }

  -- The commit that the store accepted, and where its parts came from.
  pub record IsCommitted : Type 0 where
    pub before : State
    pub execution : ExecutionContext
    pub loaded : (load_execution_context claim.task.subscription_id before).0 ≡ ok execution
    pub own : execution.subscription.id ≡ claim.task.subscription_id
    pub referred : ProviderInstrumentRef
    pub resolved : IsResolved execution referred
    pub quality : QualityResult
    pub checked :
        validate_quality_result quality referred execution.subscription.interval
          claim.task.range_start claim.task.range_end
        ≡ ok tt
    pub asked : State
    pub leased : IsLeased claim (now asked).0
    pub committed :
        (commit_success (success_commit claim execution quality (now asked).0) (now asked).1).0
        ≡ ok tt

  -- What the end of executeClaim tells.
  record IsFinished (execution : ExecutionContext) (quality : QualityResult) : Type 0 where
    asked : State
    leased : IsLeased claim (now asked).0
    committed :
        (commit_success (success_commit claim execution quality (now asked).0) (now asked).1).0
        ≡ ok tt

  commit_claim-IsFinished :
      (execution : ExecutionContext) (quality : QualityResult) (s : State)
      → (commit_claim service claim execution quality s).0 ≡ ok tt
      → IsFinished execution quality
  unfolding commit_claim
  commit_claim-IsFinished execution quality s h =
      let (finished_at, timed, v1, _) = continue-ok (clock service s) _ h in
      let (_, leased, committed, _) =
        continue-ok (validate_executable_claim claim finished_at, (now s).1) _ v1 in
      let same : (now s).0 ≡ finished_at = same_value timed in
      record {
        asked = s;
        leased = rw same (executable-IsLeased claim finished_at leased);
        committed = rw same committed;
      }

  collect_claim-IsFinished :
      (execution : ExecutionContext) (request : FetchBarsRequest) (fetch : _) (s : State)
      → (collect_claim service claim execution request fetch s).0 ≡ ok tt
      → (quality : QualityResult) × (validate_quality_result quality request.instrument
            request.interval request.start_time request.end_time
          ≡ ok tt)
        × IsFinished execution quality
  unfolding collect_claim
  collect_claim-IsFinished execution request fetch s h =
      let (bars, _, v1, _) =
        continue-ok (fetch_all_bars (bar_source service fetch) config.maximum_pages request s) _
          h in
      let s1 = (fetch_all_bars (bar_source service fetch) config.maximum_pages request s).1 in
      let (quality, _, v2, _) = continue-ok (validate_bars execution bars s1) _ v1 in
      let s2 = (validate_bars execution bars s1).1 in
      let (_, checked, v3, _) =
        continue-ok
          (
            validate_quality_result quality request.instrument request.interval request.start_time
                request.end_time,
            s2,
          )
          _ v2 in
      (quality, checked, commit_claim-IsFinished execution quality s2 v3)

  pub execute_claim-IsCommitted :
      (s : State) → (execute_claim service claim s).0 ≡ ok tt → IsCommitted
  unfolding execute_claim
  execute_claim-IsCommitted s h =
      let (execution, loaded, v1, _) =
        continue-ok (load_execution_context claim.task.subscription_id s) _ h in
      let s1 = (load_execution_context claim.task.subscription_id s).1 in
      let (_, own, v2, _) =
        continue-ok
          (
            refuse_if (not (execution.subscription.id == claim.task.subscription_id)) invalid_data,
            s1,
          )
          _ v1 in
      let (referred, made, v3, _) = continue-ok (reference is_timezone execution, s1) _ v2 in
      let (interval, parsed, v4, _) =
        continue-ok (parse_bar_interval execution.subscription.interval, s1) _ v3 in
      let (start, starts, v5, _) = continue-ok (new_utc_instant claim.task.range_start, s1) _ v4 in
      let (end, ends, v6, _) = continue-ok (new_utc_instant claim.task.range_end, s1) _ v5 in
      let (fetch, _, v7, _) = continue-ok (registered (adapter execution.provider.code), s1) _ v6 in
      let (quality, checked, f) =
        collect_claim-IsFinished execution (claim_request config referred interval start end) fetch
          s1 v7 in
      let resolved = reference-IsResolved is_timezone execution referred made in
      record {
        before = s;
        execution = execution;
        loaded = loaded;
        own = same_id (not-false (refuse_if-ok _ _ own));
        referred = referred;
        resolved = resolved;
        quality = quality;
        checked =
            checked_range quality referred (same_value (sym parsed ∙ resolved.parsed))
              (new_utc_instant-same claim.task.range_start starts)
              (new_utc_instant-same claim.task.range_end ends) checked;
        asked = f.asked;
        leased = f.leased;
        committed = f.committed;
      }
