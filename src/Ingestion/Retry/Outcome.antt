-- ===== src/Ingestion/Retry/Outcome.antt =====
-- What Service.failureCommit decides for each failure.
use xr_trading.Base.{
  ℕ, ◌+◌, ◌≤◌, ◌<◌, ◌≡◌, ◌⊎◌, inl, inr, refl, true, false, Option, none, some, arith, leb, ℤ, pos,
  negsuc, ltz, minz, Bool-cases, Option-cases,
}
use xr_trading.Domain.Errors.{Error, ProviderError, sentinel, provider}
use xr_trading.Domain.Time.{Instant, Duration, add}
use xr_trading.Domain.Task.{TaskClaim, retry_wait, failed}
use xr_trading.Ingestion.ProviderErrors.{as_provider_error, is_valid}
use xr_trading.Ingestion.Contracts.{Config, FailureCommit}
use xr_trading.Ingestion.Retry.{
  classify_failure, classify_sentinel, classify_provider_error, retry_commit, failure_commit,
}
use xr_trading.Ingestion.Retry.Backoff.{IsRetryConfig, IsPositive, retry_backoff_found}

classify_sentinel-retry_after : (e : Error) → (classify_sentinel e).retry_after ≡ none
unfolding classify_sentinel
classify_sentinel-retry_after e = ground arith

retry_after_of_valid :
    (p : ProviderError) {d : Duration} → is_valid p ≡ true → p.retry_after ≡ some d → IsPositive d
unfolding is_valid
retry_after_of_valid p h e = ground arith

pub is_valid_of_found :
    (e : Error) {p : ProviderError} → as_provider_error e ≡ some p → is_valid p ≡ true
unfolding as_provider_error
is_valid_of_found (sentinel s) h = ground arith
is_valid_of_found (provider q) {p} h = ground arith

-- A delay that a provider asks for is positive: other failures are not classified as the provider's.
retry_after-IsPositive :
    (e : Error) {d : Duration} → (classify_failure e).retry_after ≡ some d → IsPositive d
unfolding classify_failure classify_provider_error
retry_after-IsPositive e {d} h = elim (Option-cases (as_provider_error e)) [
  | inl unclassified ↦ ground (arith, unclassified, classify_sentinel-retry_after e)
  | inr (p, found) ↦
      retry_after_of_valid p {d = d} (is_valid_of_found e found) (ground (arith, found))
]

minz_le_right : (a m : ℤ) → ltz m (minz a m) ≡ false
minz_le_right (pos a) (pos m) = ground arith
minz_le_right a m = ground arith

minz-IsPositive : (a m : ℤ) → IsPositive a → IsPositive m → IsPositive (minz a m)
minz-IsPositive a m h k = ground arith

-- A later instant, by a positive delay that is not above the bound.
pub data IsDelayed (finished_at : Instant) (bound : Duration) : Option Instant → Type 0 where
  delayed :
      (d : ℕ) {next : Option Instant}
      → 0 < d
      → ltz bound (pos d) ≡ false
      → next ≡ some (finished_at + d)
      → IsDelayed finished_at bound next

IsDelayed-by :
    (t : Instant) (bound d : Duration)
    → IsPositive d
    → ltz bound d ≡ false
    → IsDelayed t bound (some (add t d))
IsDelayed-by t bound (pos d) h k = delayed d (ground arith) k refl
IsDelayed-by t bound (negsuc d) h k = ground arith

-- What is committed in every case.
pub record IsRecorded (claim : TaskClaim) (failure : Error) (t : Instant) (k : FailureCommit)
    : Type 0 where
  pub claimed : k.claim ≡ claim
  pub coded : k.error_code ≡ (classify_failure failure).code
  pub explained : k.error_message ≡ (classify_failure failure).message
  pub detailed : k.error_details ≡ (classify_failure failure).details
  pub finished : k.finished_at ≡ t

pub data Outcome (c : Config) (claim : TaskClaim) (failure : Error) (t : Instant)
    (k : FailureCommit) : Type 0 where
  retried :
      k.status ≡ retry_wait
      → (classify_failure failure).retryable ≡ true
      → claim.task.attempt_count < claim.task.max_attempts
      → IsDelayed t c.maximum_retry_delay k.next_attempt_at
      → Outcome c claim failure t k
  gave_up :
      k.status ≡ failed
      → ((classify_failure failure).retryable ≡ false)
        ⊎ (claim.task.max_attempts ≤ claim.task.attempt_count)
      → k.next_attempt_at ≡ none
      → Outcome c claim failure t k

-- The commit of a failure that is not retried.
abbrev final_commit : TaskClaim → Error → Instant → FailureCommit
final_commit claim failure t = record {
  claim = claim;
  status = failed;
  next_attempt_at = none;
  error_code = (classify_failure failure).code;
  error_message = (classify_failure failure).message;
  error_details = (classify_failure failure).details;
  finished_at = t;
}

-- The commit of a failure that is retried after the delay.
abbrev retried_commit : TaskClaim → Error → Instant → Duration → FailureCommit
retried_commit claim failure t delay = record (final_commit claim failure t) {
  status = retry_wait;
  next_attempt_at = some (add t delay);
}

all-IsRecorded :
    (claim : TaskClaim) (failure : Error) (t : Instant) (delay : Duration)
    → IsRecorded claim failure t (final_commit claim failure t)
      × IsRecorded claim failure t (retried_commit claim failure t delay)
all-IsRecorded claim failure t delay = (
  record { claimed = refl; coded = refl; explained = refl; detailed = refl; finished = refl },
  record { claimed = refl; coded = refl; explained = refl; detailed = refl; finished = refl },
)

module _ (c : Config) (v : IsRetryConfig c) (claim : TaskClaim) (failure : Error)
    (t : Instant) where
  -- With a configuration that NewService accepts, failureCommit never panics. It retries exactly
  -- when the failure is retryable and attempts are left, by a positive delay of at most the
  -- configured maximum; else the task fails for good and has no next attempt. Either way the
  -- claim, the classified error and the time are recorded.
  pub failure_commit-Outcome :
      (k : FailureCommit) × (failure_commit c claim failure t ≡ some k)
      × IsRecorded claim failure t k
      × Outcome c claim failure t k
  unfolding failure_commit retry_commit
  failure_commit-Outcome =
      let (backoff, found, positive, capped) = retry_backoff_found c v claim.task.attempt_count in
      elim (Bool-cases (classify_failure failure).retryable) [
        | inr fatal ↦ (
          final_commit claim failure t,
          ground (arith, fatal),
          (all-IsRecorded claim failure t backoff).0,
          gave_up refl (inl fatal) refl,
        )
        | inl transient ↦ elim (Bool-cases (leb claim.task.max_attempts claim.task.attempt_count)) [
          | inl spent ↦ (
            final_commit claim failure t,
            ground (arith, spent),
            (all-IsRecorded claim failure t backoff).0,
            gave_up refl (inr (ground (arith, spent))) refl,
          )
          | inr left ↦ elim (Option-cases (classify_failure failure).retry_after) [
            | inl unasked ↦ (
              retried_commit claim failure t backoff,
              ground (arith, transient, left, unasked, found),
              (all-IsRecorded claim failure t backoff).1,
              retried refl transient (ground (arith, left))
                  (IsDelayed-by t c.maximum_retry_delay backoff positive capped),
            )
            | inr (after, asked) ↦ (
              retried_commit claim failure t (minz after c.maximum_retry_delay),
              ground (arith, transient, left, asked, found),
              (all-IsRecorded claim failure t (minz after c.maximum_retry_delay)).1,
              retried refl transient (ground (arith, left)) (
                  IsDelayed-by t c.maximum_retry_delay (minz after c.maximum_retry_delay)
                    (minz-IsPositive after c.maximum_retry_delay
                      (retry_after-IsPositive failure asked) v.maximum_positive)
                    (minz_le_right after c.maximum_retry_delay)),
            )
          ]
        ]
      ]
