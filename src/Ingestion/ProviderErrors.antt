-- ===== src/Ingestion/ProviderErrors.antt =====
-- ingestion/ports/provider_error.go: the classification of provider failures.
use xr_trading.Base.{
  String, Bool, true, false, not, ◌&&◌, ◌||◌, Option, none, some, ℤ, pos, ltz, if◌then◌else◌,
}
use xr_trading.Domain.Text.{same_text, is_bounded_text}
use xr_trading.Domain.Errors.{
  ProviderErrorCode, rate_limited, network, temporary_unavailable, unauthorized, invalid_instrument,
  unsupported_interval, bad_request, invalid_response, unknown, unsupported, ProviderError, Error,
  sentinel, provider,
}

-- The text of a code; `unsupported` stands for every text but these, so it has none of its own.
unfoldable pub code_text : ProviderErrorCode → String
code_text rate_limited = "rate_limited"
code_text network = "network"
code_text temporary_unavailable = "temporary_unavailable"
code_text unauthorized = "unauthorized"
code_text invalid_instrument = "invalid_instrument"
code_text unsupported_interval = "unsupported_interval"
code_text bad_request = "bad_request"
code_text invalid_response = "invalid_response"
code_text unknown = "unknown"
code_text unsupported = ""

-- ParseProviderErrorCode succeeds.
abbrev pub is_known : ProviderErrorCode → Bool
is_known unsupported = false
is_known _ = true

-- ProviderErrorCode.Retryable
unfoldable pub is_retryable : ProviderErrorCode → Bool
is_retryable rate_limited = true
is_retryable network = true
is_retryable temporary_unavailable = true
is_retryable unknown = true
is_retryable _ = false

-- `*retryAfter <= 0 || !code.Retryable()`, where there is a retry-after
abbrev bad_retry_after : Option ℤ → ProviderErrorCode → Bool
bad_retry_after none code = false
bad_retry_after (some after) code = not (ltz (pos 0) after) || not (is_retryable code)

-- ProviderError.Validate returns no error.
unfoldable pub is_valid : ProviderError → Bool
is_valid p =
    not (same_text p.provider_code "")
    && is_known p.code
    && is_bounded_text 512 p.message
    && not (bad_retry_after p.retry_after p.code)

-- AsProviderError
unfoldable pub as_provider_error : Error → Option ProviderError
as_provider_error (sentinel s) = none
as_provider_error (provider p) = if is_valid p then some p else none

abbrev is_retryable_found : Option ProviderError → Bool
is_retryable_found none = false
is_retryable_found (some p) = is_retryable p.code

unfoldable pub is_retryable_provider_error : Error → Bool
unfolding as_provider_error
is_retryable_provider_error e = is_retryable_found (as_provider_error e)
