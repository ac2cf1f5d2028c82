-- ===== src/Ingestion/Samples.antt =====
-- The theorems of the execution at a small task, provider and store.
use xr_trading.Base.{
  ℕ, ◌+◌, ◌*◌, ◌<◌, ◌≡◌, ◌≢◌, ◌⊎◌, refl, String, true, false, Option, none, some, List, [], ◌∷◌,
  pos,
}
use xr_trading.Domain.Errors.{
  Sentinel, Error, Result, ok, err, sentinel, provider, rate_limited, conflict, retryable,
  invalid_data,
}
use xr_trading.Domain.Time.{Instant, minute, hour}
use xr_trading.Domain.Interval.{hour1}
use xr_trading.Domain.Task.{running, object, absent, TaskClaim}
use xr_trading.Domain.MarketData.{MarketBar, valid}
use xr_trading.Ingestion.Contracts.{
  Config, FailureCommit, RunTaskSnapshot, task_count, RunSummary, failed,
}
use xr_trading.Ingestion.Adapter.{
  ProviderInstrumentRef, crypto, spot, ProviderBar, FetchBarsRequest, FetchBarsResult,
}
use xr_trading.Ingestion.Quotes.{ProviderQuote, validate_latest_quote_batch}
use xr_trading.Ingestion.Quotes.Batch.{IsAnswer, validate_latest_quote_batch-IsAnswer}
use xr_trading.Ingestion.Capabilities.{ProviderCapabilities, validate_capabilities}
use xr_trading.Ingestion.Fetch.{BarSource, fetch_all_bars}
use xr_trading.Ingestion.Fetch.Joined.{IsJoined, fetch_all_bars-IsJoined}
use xr_trading.Ingestion.Quality.{
  QualityResult, assessed_bar, validate_bars, validate_quality_result, successful_checkpoint,
}
use xr_trading.Ingestion.Quality.Passes.{validate_bars-accepted}
use xr_trading.Ingestion.Quality.Latest.{IsLatest, successful_checkpoint-IsLatest}
use xr_trading.Ingestion.Retry.{
  default_retry_backoffs, service_config, retry_backoff, failure_commit,
}
use xr_trading.Ingestion.Retry.Backoff.{service_config-IsRetryConfig}
use xr_trading.Ingestion.Retry.Outcome.{IsRecorded, Outcome, failure_commit-Outcome}
use xr_trading.Ingestion.Run.{RunStore, summarize_run, refresh}
use xr_trading.Ingestion.Run.Summary.{IsSummary, summarize_run-IsSummary}

-- A configuration without retry settings, and what NewService makes of it.
abbrev pub given_config : Config
given_config = record {
  bars_per_page = pos 500;
  maximum_pages = pos 2;
  retry_backoffs = [];
  maximum_retry_delay = pos 0;
}

abbrev pub config : Config
config = record given_config {
  retry_backoffs = default_retry_backoffs;
  maximum_retry_delay = pos hour;
}

pub accepts_config : service_config given_config ≡ ok config
unfolding service_config xr_trading.Ingestion.Retry.validate_retry_config
    xr_trading.Ingestion.Retry.is_ascending
accepts_config = refl

second_backoff : retry_backoff config 2 ≡ some (pos (5 * minute))
unfolding retry_backoff
second_backoff = refl

last_backoff : retry_backoff config 9 ≡ some (pos hour)
unfolding retry_backoff
last_backoff = refl

abbrev pub claim : TaskClaim
claim = record {
  task = record {
    id = 1;
    run_id = 7;
    subscription_id = 8;
    retry_of_task_id = none;
    range_start = 0;
    range_end = 4 * hour;
    status = running;
    attempt_count = 1;
    max_attempts = 3;
    next_attempt_at = none;
    locked_by = some "worker";
    locked_until = some 160;
    started_at = some 100;
    finished_at = none;
    provider_request_id = none;
    error_code = none;
    error_message = none;
    error_details = object [];
    canceled_by = none;
    cancel_reason = none;
    created_at = 10;
    updated_at = 100;
  };
}

abbrev transient : Error
transient = sentinel retryable

failure_commit-Outcome_example :
    (k : FailureCommit) × (failure_commit config claim transient 120 ≡ some k)
    × IsRecorded claim transient 120 k
    × Outcome config claim transient 120 k
failure_commit-Outcome_example =
    failure_commit-Outcome config (service_config-IsRetryConfig given_config config accepts_config)
      claim transient 120

abbrev pub snapshot : RunTaskSnapshot
snapshot = record {
  run_id = 7;
  pending_count = 0;
  running_count = 0;
  retry_wait_count = 0;
  success_count = 0;
  failed_count = 2;
  canceled_count = 0;
  earliest_started_at = some 100;
  latest_finished_at = some 200;
}

summarize_run-IsSummary_example :
    ((summarize_run snapshot ≡ err (sentinel invalid_data))
      × ((snapshot.run_id ≡ 0) ⊎ (task_count snapshot ≡ 0)))
    ⊎ ((r : RunSummary) × (summarize_run snapshot ≡ ok r)
        × (snapshot.run_id ≢ 0)
        × (0 < task_count snapshot)
        × IsSummary snapshot r)
summarize_run-IsSummary_example = summarize_run-IsSummary snapshot

-- A store whose first save meets a conflict.
abbrev store : RunStore
store = record {
  State = ℕ;
  load_run_task_snapshot = λ id s. (ok snapshot, s);
  save_run_summary = λ summary s. (first_save s, s + 1);
}
  where
    first_save : ℕ → Result (Unit {0})
    first_save ℕ.zero = err (sentinel conflict)
    first_save (ℕ.suc _) = ok tt

abbrev summary : RunSummary
summary = record {
  run_id = 7;
  status = failed;
  task_count = 2;
  pending_count = 0;
  running_count = 0;
  retry_wait_count = 0;
  success_count = 0;
  failed_count = 2;
  canceled_count = 0;
  earliest_started_at = some 100;
  latest_finished_at = some 200;
}

refreshes : (refresh store 7 0).0 ≡ ok summary
unfolding refresh xr_trading.Ingestion.Run.refresh_loop xr_trading.Ingestion.Run.observe
    summarize_run xr_trading.Domain.Errors.errors_is
refreshes = refl

abbrev pub reference : ProviderInstrumentRef
reference = record {
  provider_instrument_id = 4;
  provider_instrument_code = "provider.okx.btc";
  instrument_id = 3;
  asset_id = 2;
  provider_code = "okx";
  provider_market = "spot";
  asset_type = crypto;
  instrument_type = spot;
  external_symbol = "BTC-USDT";
  instrument_code = "instrument.btc";
  instrument_symbol = "BTC";
  quote_currency = "USDT";
  metadata = absent;
}

abbrev request : FetchBarsRequest
request = record {
  instrument = reference;
  interval = hour1;
  start_time = hour;
  end_time = 4 * hour;
  limit = pos 1;
  cursor = "";
}

abbrev pub bar : Instant → ProviderBar
bar open_time = record {
  provider_instrument_id = 4;
  instrument_id = 3;
  asset_id = 2;
  provider_code = "okx";
  interval = hour1;
  open_time = open_time;
  close_time = open_time + hour;
  open_price = pos 10;
  high_price = pos 12;
  low_price = pos 9;
  close_price = pos 11;
  base_volume = none;
  quote_volume = none;
  trade_count = none;
  is_closed = true;
  provider_updated_at = none;
  received_at = 9 * hour;
  raw_payload = absent;
}

-- A provider that answers its two bars on two pages, the later one first.
abbrev pages : BarSource
pages = record {
  State = ℕ;
  context_error = λ s. none;
  validate_bars_request = λ r. ok tt;
  fetch_bars = λ r s. (page s, s + 1);
}
  where
    page : ℕ → Result FetchBarsResult
    page ℕ.zero = ok (record { bars = bar (2 * hour) ∷ []; next_cursor = "next"; has_more = true })
    page (ℕ.suc _) = ok (record { bars = bar hour ∷ []; next_cursor = ""; has_more = false })

abbrev fetched : List ProviderBar
fetched = bar hour ∷ bar (2 * hour) ∷ []

fetches : (fetch_all_bars pages (pos 2) request 0).0 ≡ ok fetched
unfolding fetch_all_bars xr_trading.Ingestion.Fetch.fetch_pages xr_trading.Ingestion.Fetch.admit
    xr_trading.Ingestion.Fetch.accept xr_trading.Ingestion.Adapter.validate_result
    xr_trading.Ingestion.Adapter.validate_request xr_trading.Domain.Text.is_padded
    xr_trading.Ingestion.Adapter.validate_bar_for xr_trading.Ingestion.Adapter.validate_provider_bar
    xr_trading.Domain.MarketData.new_bar xr_trading.Domain.MarketData.validate_bar
    xr_trading.Ingestion.Fetch.collect xr_trading.Ingestion.Fetch.sort_bars
fetches = refl

fetch_all_bars-IsJoined_example : IsJoined request fetched
fetch_all_bars-IsJoined_example =
    fetch_all_bars-IsJoined pages (pos 2) request 0 {bars = fetched} fetches

abbrev pub hash : ProviderBar → String
hash _ = "h"

abbrev pub canceled : ℕ → Option Sentinel
canceled _ = none

abbrev result : QualityResult
result = record {
  bars =
      assessed_bar "h" (object []) (bar hour) ∷ assessed_bar "h" (object []) (bar (2 * hour)) ∷ [];
  issues = [];
}

assesses : validate_bars hash canceled (ok reference) fetched ≡ ok result
unfolding validate_bars xr_trading.Ingestion.Adapter.validate_bar_for
    xr_trading.Ingestion.Adapter.validate_reference xr_trading.Domain.Text.is_padded
    xr_trading.Ingestion.Adapter.validate_provider_bar xr_trading.Domain.MarketData.new_bar
    xr_trading.Domain.MarketData.validate_bar
assesses = refl

validate_bars-accepted_example :
    validate_quality_result result reference hour1 hour (4 * hour) ≡ ok tt
validate_bars-accepted_example =
    validate_bars-accepted hash request canceled fetched {result = result}
      (fetch_all_bars-IsJoined pages (pos 2) request 0 {bars = fetched} fetches) assesses

successful_checkpoint-IsLatest_example :
    let c = successful_checkpoint 8 result.bars 120 in
    (c.subscription_id ≡ 8)
    × (c.last_success_open_time ≡ c.last_closed_open_time)
    × IsLatest result.bars c.last_closed_open_time
successful_checkpoint-IsLatest_example = successful_checkpoint-IsLatest 8 result.bars 120

abbrev quote : ProviderQuote
quote = record {
  provider_instrument_id = 4;
  instrument_id = 3;
  asset_id = 2;
  provider_code = "okx";
  last_price = pos 10;
  bid_price = some (pos 9);
  bid_size = none;
  ask_price = some (pos 11);
  ask_size = none;
  open_24h = none;
  high_24h = none;
  low_24h = none;
  base_volume_24h = none;
  quote_volume_24h = none;
  market_time = hour;
  received_at = hour;
  raw_payload = absent;
}

accepts_quotes : validate_latest_quote_batch "okx" (reference ∷ []) (quote ∷ []) ≡ ok tt
unfolding validate_latest_quote_batch xr_trading.Ingestion.Quotes.index_references
    xr_trading.Ingestion.Adapter.validate_reference xr_trading.Domain.Text.is_padded
    xr_trading.Ingestion.Quotes.requested xr_trading.Ingestion.Quotes.check_quotes
    xr_trading.Ingestion.Quotes.is_answered xr_trading.Ingestion.Quotes.validate_quote_for
    xr_trading.Ingestion.Quotes.validate_provider_quote xr_trading.Domain.Quotes.new_quote
accepts_quotes = refl

validate_latest_quote_batch-IsAnswer_example : IsAnswer (reference ∷ []) (quote ∷ [])
validate_latest_quote_batch-IsAnswer_example =
    validate_latest_quote_batch-IsAnswer "okx" (reference ∷ []) (quote ∷ []) accepts_quotes

abbrev capabilities : ProviderCapabilities
capabilities = record {
  provider_code = "okx";
  markets =
      record {
        provider_market = "spot";
        asset_types = crypto ∷ [];
        instrument_types = spot ∷ [];
        supports_quote = true;
        supports_bars = true;
        intervals = hour1 ∷ [];
        max_batch_size = pos 20;
        max_bars_per_request = pos 300;
      }
      ∷ [];
}

accepts_capabilities : validate_capabilities capabilities ≡ ok tt
unfolding validate_capabilities
accepts_capabilities = refl
