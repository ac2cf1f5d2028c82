-- ===== src/Ingestion/Retry.antt =====
-- ingestion/retry.go, with the construction of the service's retry settings and the claim check of
-- ingestion/service.go.
pub mod Backoff
pub mod Outcome
use xr_trading.Base.{
  ℕ, zero, suc, ◌+◌, ◌-◌, ◌*◌, String, Bool, true, false, not, ◌&&◌, ◌||◌, Option, none, some, List,
  [], ◌∷◌, ltb, leb, ◌==◌, ℤ, pos, ltz, minz, if◌then◌else◌, length, get_elem?, is_none, is_some,
}
use xr_trading.Domain.Errors.{
  Sentinel, Error, ProviderError, Result, ok, err, sentinel, errors_is, refuse_if, ◌>>=◌, ◌>>◌,
  not_found, conflict, reference_violation, invalid_data, database_unavailable, invalid_state,
  adapter_not_registered, provider_limit_exceeded, internal, task_lease_lost,
}
use xr_trading.Domain.Time.{Instant, Duration, add, minute, hour}
use xr_trading.Domain.Task.{
  Json, object, TaskClaim, failed, retry_wait, running, same_status, is_nil, has_owner, is_leased,
}
use xr_trading.Ingestion.ProviderErrors.{as_provider_error, is_retryable, code_text}
use xr_trading.Ingestion.Contracts.{Config, FailureCommit}

-- defaultRetryBackoffs: 1, 5, 15, 30 and 60 minutes
abbrev pub default_retry_backoffs : List Duration
default_retry_backoffs =
    pos (1 * minute)
    ∷ pos (5 * minute)
    ∷ pos (15 * minute)
    ∷ pos (30 * minute)
    ∷ pos (1 * hour)
    ∷ []

-- The loop of validateRetryConfig: every delay is positive and none is below the one before it.
unfoldable pub is_ascending : Duration → List Duration → Bool
is_ascending previous [] = true
is_ascending previous (d ∷ ds) = not (not (ltz (pos 0) d) || ltz d previous) && is_ascending d ds

unfoldable pub validate_retry_config : Config → Result (Unit {0})
validate_retry_config c = do
  refuse_if (not (ltz (pos 0) c.maximum_retry_delay) || length c.retry_backoffs == 0) internal
  refuse_if (not (is_ascending (pos 0) c.retry_backoffs)) internal

is_pos_zero : Duration → Bool
is_pos_zero (pos n) = n == 0
is_pos_zero _ = false

or_default : List Duration → List Duration
or_default [] = default_retry_backoffs
or_default (d ∷ ds) = d ∷ ds

-- The settings that NewService keeps; the other dependencies are parameters of the model.
unfoldable pub service_config : Config → Result Config
unfolding is_pos_zero or_default
service_config c = do
  refuse_if (not (ltz (pos 0) c.bars_per_page) || not (ltz (pos 0) c.maximum_pages)) internal
  let filled = record c {
    retry_backoffs = or_default c.retry_backoffs;
    maximum_retry_delay =
        if is_pos_zero c.maximum_retry_delay then pos (1 * hour) else c.maximum_retry_delay;
  }
  validate_retry_config filled
  ok filled

pub record FailureClassification : Type 0 where
  pub code : String
  pub message : String
  pub details : Json
  pub retryable : Bool
  pub retry_after : Option Duration

abbrev pub classified : String → String → Bool → FailureClassification
classified code message retryable = record {
  code = code;
  message = message;
  details = object [];
  retryable = retryable;
  retry_after = none;
}

unfoldable pub classify_provider_error : ProviderError → FailureClassification
classify_provider_error p = record {
  code = code_text p.code;
  message = p.message;
  details = object (("provider_code", p.provider_code) ∷ []);
  retryable = is_retryable p.code;
  retry_after = p.retry_after;
}

-- The `switch` over the sentinels.
unfoldable pub classify_sentinel : Error → FailureClassification
classify_sentinel e =
    if errors_is e database_unavailable
    then classified "database_unavailable" "database temporarily unavailable" true
    else if errors_is e Sentinel.retryable
    then classified "temporary_failure" "service temporarily unavailable" true
    else if errors_is e adapter_not_registered
    then classified "adapter_not_registered" "provider adapter is not registered" false
    else if errors_is e provider_limit_exceeded
    then classified "provider_limit_exceeded" "provider pagination limit was exceeded" false
    else if errors_is e not_found
    then classified "configuration_not_found" "ingestion configuration was not found" false
    else if errors_is e invalid_data
        || errors_is e invalid_state
        || errors_is e reference_violation
        || errors_is e conflict
    then classified "configuration_invalid" "ingestion configuration or data contract is invalid"
        false
    else classified "internal_error" "ingestion task failed" false

unfoldable pub classify_failure : Error → FailureClassification
classify_failure e = elim (as_provider_error e) [
  | some p ↦ classify_provider_error p
  | none ↦ classify_sentinel e
]

-- The delay before the next attempt; `none` is an index out of range, a panic in Go.
unfoldable pub retry_backoff : Config → ℕ → Option Duration
retry_backoff c attempt_count =
    let index = attempt_count - 1 in
    let last = length c.retry_backoffs - 1 in
    elim (get_elem? c.retry_backoffs
      (if leb (length c.retry_backoffs) index then last else index)) [
        | none ↦ none
        | some d ↦ some (minz d c.maximum_retry_delay)
      ]

retry_commit : Config → FailureCommit → Option Duration → Duration → FailureCommit
retry_commit c commit retry_after backoff =
    let delay : Duration = elim retry_after [
      | none ↦ backoff
      | some after ↦ minz after c.maximum_retry_delay
    ] in
    record commit { status = retry_wait; next_attempt_at = some (add commit.finished_at delay) }

-- Service.failureCommit; `none` is the panic of retry_backoff.
unfoldable pub failure_commit : Config → TaskClaim → Error → Instant → Option FailureCommit
unfolding retry_commit
failure_commit c claim failure finished_at =
    let classified = classify_failure failure in
    let commit : FailureCommit = record {
      claim = claim;
      status = failed;
      next_attempt_at = none;
      error_code = classified.code;
      error_message = classified.message;
      error_details = classified.details;
      finished_at = finished_at;
    } in
    if not classified.retryable || leb claim.task.max_attempts claim.task.attempt_count
    then some commit
    else elim (retry_backoff c claim.task.attempt_count) [
      | none ↦ none
      | some backoff ↦ some (retry_commit c commit classified.retry_after backoff)
    ]

-- validateExecutableClaim
unfoldable pub validate_executable_claim : TaskClaim → Instant → Result (Unit {0})
validate_executable_claim claim now = do
  let task = claim.task
  refuse_if
      (is_nil task.id
        || is_nil task.run_id
        || is_nil task.subscription_id
        || not (same_status task.status running)
        || task.attempt_count == 0
        || task.max_attempts == 0
        || not (ltb task.range_start task.range_end)
        || not (has_owner task.locked_by)
        || is_none task.locked_until)
      invalid_data
  refuse_if (not (is_leased task.locked_until now)) task_lease_lost
