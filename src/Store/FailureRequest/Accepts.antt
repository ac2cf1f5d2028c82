-- ===== src/Store/FailureRequest/Accepts.antt =====
-- What the ingestion service commits for a failure passes the repository's checks.
use xr_trading.Base.{◌≡◌, ◌≢◌, refl, true, some, inl, inr, arith, Option-cases}
use xr_trading.Domain.Text.{is_bounded_text, is_padded, rune_count}
use xr_trading.Domain.Errors.{
  Error, ProviderError, ProviderErrorCode, rate_limited, network, temporary_unavailable,
  unauthorized, invalid_instrument, unsupported_interval, bad_request, invalid_response, unknown,
  unsupported, ok,
}
use xr_trading.Domain.Time.{Instant, zero_time}
use xr_trading.Domain.Task.{TaskClaim, is_json_object}
use xr_trading.Ingestion.ProviderErrors.{as_provider_error, is_valid, is_known, code_text}
use xr_trading.Ingestion.Contracts.{Config, FailureCommit}
use xr_trading.Ingestion.Retry.{
  FailureClassification, classify_failure, classify_sentinel, classify_provider_error,
  failure_commit, validate_executable_claim,
}
use xr_trading.Ingestion.Retry.Backoff.{IsRetryConfig}
use xr_trading.Ingestion.Retry.Outcome.{
  is_valid_of_found, IsRecorded, Outcome, retried, gave_up, delayed, failure_commit-Outcome,
}
use xr_trading.Store.FailureRequest.{validate_failure_commit}

code_text_bounded :
    (c : ProviderErrorCode) → is_known c ≡ true → is_bounded_text 64 (code_text c) ≡ true
unfolding code_text is_bounded_text is_padded rune_count
code_text_bounded rate_limited h = refl
code_text_bounded network h = refl
code_text_bounded temporary_unavailable h = refl
code_text_bounded unauthorized h = refl
code_text_bounded invalid_instrument h = refl
code_text_bounded unsupported_interval h = refl
code_text_bounded bad_request h = refl
code_text_bounded invalid_response h = refl
code_text_bounded unknown h = refl
code_text_bounded unsupported h = ground arith

-- The classified texts fit their columns, and the details are a JSON object.
record IsStorable (f : FailureClassification) : Type 0 where
  coded : is_bounded_text 64 f.code ≡ true
  explained : is_bounded_text 512 f.message ≡ true
  detailed : is_json_object f.details ≡ true

provider-IsStorable :
    (p : ProviderError) → is_valid p ≡ true → IsStorable (classify_provider_error p)
unfolding is_valid classify_provider_error
provider-IsStorable p h = ground (arith, code_text_bounded p.code)

codes_bounded :
    (is_bounded_text 64 "database_unavailable" ≡ true)
    × (is_bounded_text 64 "temporary_failure" ≡ true)
    × (is_bounded_text 64 "adapter_not_registered" ≡ true)
    × (is_bounded_text 64 "provider_limit_exceeded" ≡ true)
    × (is_bounded_text 64 "configuration_not_found" ≡ true)
    × (is_bounded_text 64 "configuration_invalid" ≡ true)
    × (is_bounded_text 64 "internal_error" ≡ true)
unfolding is_bounded_text is_padded rune_count
codes_bounded = (refl, refl, refl, refl, refl, refl, refl)

messages_bounded :
    (is_bounded_text 512 "database temporarily unavailable" ≡ true)
    × (is_bounded_text 512 "service temporarily unavailable" ≡ true)
    × (is_bounded_text 512 "provider adapter is not registered" ≡ true)
    × (is_bounded_text 512 "provider pagination limit was exceeded" ≡ true)
    × (is_bounded_text 512 "ingestion configuration was not found" ≡ true)
    × (is_bounded_text 512 "ingestion configuration or data contract is invalid" ≡ true)
    × (is_bounded_text 512 "ingestion task failed" ≡ true)
unfolding is_bounded_text is_padded rune_count
messages_bounded = (refl, refl, refl, refl, refl, refl, refl)

sentinel-IsStorable : (e : Error) → IsStorable (classify_sentinel e)
unfolding classify_sentinel
sentinel-IsStorable e = ground (arith, codes_bounded, messages_bounded)

classify_failure-IsStorable : (e : Error) → IsStorable (classify_failure e)
unfolding classify_failure
classify_failure-IsStorable e = elim (Option-cases (as_provider_error e)) [
  | inl unclassified ↦ rw (unclassified, classify_failure) (sentinel-IsStorable e)
  | inr (p, found) ↦
      rw (found, classify_failure) (provider-IsStorable p (is_valid_of_found e found))
]

accepted :
    (claim : TaskClaim) (e : Error) (t : Instant) (k : FailureCommit) (c : Config)
    → validate_executable_claim claim t ≡ ok tt
    → t ≢ zero_time
    → IsRecorded claim e t k
    → Outcome c claim e t k
    → validate_failure_commit k ≡ ok tt
unfolding validate_executable_claim validate_failure_commit
accepted claim e t k c valid present r (gave_up failed _ next) = ground (
  arith,
  r.claimed,
  r.finished,
  r.coded,
  r.explained,
  r.detailed,
  (classify_failure-IsStorable e).coded,
  (classify_failure-IsStorable e).explained,
  (classify_failure-IsStorable e).detailed,
)
accepted claim e t k c valid present r (retried status _ _ (delayed d positive capped next)) =
    ground (
      arith,
      r.claimed,
      r.finished,
      r.coded,
      r.explained,
      r.detailed,
      (classify_failure-IsStorable e).coded,
      (classify_failure-IsStorable e).explained,
      (classify_failure-IsStorable e).detailed,
    )

-- With a configuration that NewService accepts, the commit that failureCommit makes for an
-- executable claim at a present time exists and passes validateFailureCommit, whatever the failure.
pub failure_commit_accepted :
    (c : Config) (claim : TaskClaim) (e : Error) (t : Instant)
    → IsRetryConfig c
    → validate_executable_claim claim t ≡ ok tt
    → t ≢ zero_time
    → (k : FailureCommit) × (failure_commit c claim e t ≡ some k)
      × (validate_failure_commit k ≡ ok tt)
failure_commit_accepted c claim e t v valid present =
    let (k, made, recorded, outcome) = failure_commit-Outcome c v claim e t in
    (k, made, accepted claim e t k c valid present recorded outcome)
