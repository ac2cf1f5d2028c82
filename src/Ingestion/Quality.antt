-- ===== src/Ingestion/Quality.antt =====
-- The checks between the provider and the store: ingestion/quality.go, and validateQualityResult and
-- successfulCheckpoint of ingestion/service.go. The hash of a bar is a parameter.
pub mod Passes
pub mod Latest
use xr_trading.Base.{
  ℕ, suc, String, Bool, true, false, not, ◌&&◌, ◌||◌, Option, none, some, List, [], ◌∷◌, ltb, ◌==◌,
  ℤ, pos, if◌then◌else◌,
}
use xr_trading.Domain.Text.{same_text}
use xr_trading.Domain.Errors.{
  Sentinel, Result, ok, err, sentinel, refuse_if, ◌>>=◌, ◌>>◌, invalid_data, internal,
}
use xr_trading.Domain.Time.{Instant, is_zero}
use xr_trading.Domain.Interval.{BarInterval, same_interval}
use xr_trading.Domain.Task.{
  Uuid, is_nil, Json, object, nested, other_value, absent, malformed, is_json_object,
  IngestionCheckpoint,
}
use xr_trading.Domain.MarketData.{
  MarketBar, DataQualityIssue, QualityStatus, valid, warning, new_bar, validate_bar,
}
use xr_trading.Ingestion.Adapter.{
  ProviderInstrumentRef, ProviderBar, validate_bar_for, is_not_after, is_optional_json_object,
}
use xr_trading.Ingestion.Fetch.{refuse_canceled}

pub record QualityResult : Type 0 where
  pub bars : List MarketBar
  pub issues : List DataQualityIssue

-- rawPayloadMetadata
unfoldable pub raw_payload_metadata : Json → Result Json
raw_payload_metadata absent = ok (object [])
raw_payload_metadata malformed = err (sentinel internal)
raw_payload_metadata (object fields) = ok (nested "provider_payload" (object fields))
raw_payload_metadata (nested field value) = ok (nested "provider_payload" (nested field value))
raw_payload_metadata other_value = ok (nested "provider_payload" other_value)

-- The bar that ValidateBars gives to NewBar.
abbrev pub assessed_bar : String → Json → ProviderBar → MarketBar
assessed_bar hash metadata b = record {
  instrument_id = b.instrument_id;
  provider_instrument_id = b.provider_instrument_id;
  interval = b.interval;
  open_time = b.open_time;
  revision = pos 0;
  close_time = b.close_time;
  open_price = b.open_price;
  high_price = b.high_price;
  low_price = b.low_price;
  close_price = b.close_price;
  base_volume = b.base_volume;
  quote_volume = b.quote_volume;
  trade_count = b.trade_count;
  is_closed = b.is_closed;
  is_current = false;
  quality_status = if b.is_closed then valid else warning;
  provider_updated_at = b.provider_updated_at;
  collected_at = b.received_at;
  raw_hash = hash;
  metadata = metadata;
}

-- `canceled` is what the context's Err returns before the bar of each index; `hash` is normalizedBarHash.
module _ (hash : ProviderBar → String) where
  unfoldable pub assess_bar : ProviderInstrumentRef → ProviderBar → Result MarketBar
  unfolding raw_payload_metadata
  assess_bar reference b = do
    validate_bar_for reference b
    metadata ← raw_payload_metadata b.raw_payload
    new_bar (assessed_bar (hash b) metadata b)

  -- The loop of ValidateBars, from an index on.
  unfoldable pub assess_bars :
      (ℕ → Option Sentinel) → ProviderInstrumentRef → ℕ → List ProviderBar → Result (List MarketBar)
  unfolding assess_bar
  assess_bars canceled reference index [] = ok []
  assess_bars canceled reference index (b ∷ bs) = do
    refuse_canceled (canceled index)
    bar ← assess_bar reference b
    bars ← assess_bars canceled reference (suc index) bs
    ok (bar ∷ bars)

  -- StructuralBarQualityValidator.ValidateBars, given what the execution's Reference returned.
  unfoldable pub validate_bars :
      (ℕ → Option Sentinel) → Result ProviderInstrumentRef → List ProviderBar → Result QualityResult
  unfolding assess_bars
  validate_bars canceled referred provider_bars = do
    reference ← referred
    bars ← assess_bars canceled reference 0 provider_bars
    ok (record { bars = bars; issues = [] })

-- `err != nil`
abbrev pub is_refused {ℓ} : {A : Type ℓ} → Result A → Bool
is_refused (ok _) = false
is_refused (err _) = true

abbrev pub is_foreign : ProviderInstrumentRef → BarInterval → Instant → Instant → MarketBar → Bool
is_foreign reference interval start end b =
    not (b.instrument_id == reference.instrument_id)
    || not (b.provider_instrument_id == reference.provider_instrument_id)
    || not (same_interval b.interval interval)
    || ltb b.open_time start
    || not (ltb b.open_time end)

-- `_, duplicate := seen[bar.OpenTime]`
unfoldable pub has_open_time : Instant → List MarketBar → Bool
has_open_time t [] = false
has_open_time t (b ∷ bs) = b.open_time == t || has_open_time t bs

-- The first loop of validateQualityResult, with the bars seen so far and the open time of the last one.
unfoldable pub check_result_bars :
    ProviderInstrumentRef
    → BarInterval
    → Instant
    → Instant
    → List MarketBar
    → Option Instant
    → List MarketBar
    → Result (Unit {0})
unfolding validate_bar has_open_time
check_result_bars reference interval start end seen previous [] = ok tt
check_result_bars reference interval start end seen previous (b ∷ bs) = do
  refuse_if (is_refused (validate_bar b) || is_foreign reference interval start end b) invalid_data
  refuse_if (has_open_time b.open_time seen) invalid_data
  refuse_if (is_not_after previous b.open_time) invalid_data
  check_result_bars reference interval start end (b ∷ seen) (some b.open_time) bs

unfoldable pub is_issue_severity : String → Bool
is_issue_severity value =
    same_text value "info"
    || same_text value "warning"
    || same_text value "error"
    || same_text value "critical"

-- `p == nil || *p != id`
abbrev is_other_id : Option Uuid → Uuid → Bool
is_other_id none id = true
is_other_id (some a) id = not (a == id)

abbrev is_other_interval : Option BarInterval → BarInterval → Bool
is_other_interval none interval = false
is_other_interval (some a) interval = not (same_interval a interval)

abbrev is_out_of_range : Option Instant → Instant → Instant → Bool
is_out_of_range none start end = false
is_out_of_range (some t) start end = ltb t start || not (ltb t end)

-- The second loop of validateQualityResult.
unfoldable pub check_result_issues :
    ProviderInstrumentRef
    → BarInterval
    → Instant
    → Instant
    → List DataQualityIssue
    → Result (Unit {0})
unfolding is_issue_severity
check_result_issues reference interval start end [] = ok tt
check_result_issues reference interval start end (i ∷ is) = do
  refuse_if
      (is_nil i.id
        || not (i.instrument_id == reference.instrument_id)
        || is_other_id i.provider_instrument_id reference.provider_instrument_id
        || same_text i.rule_code ""
        || same_text i.summary ""
        || is_zero i.detected_at
        || is_zero i.created_at
        || is_zero i.updated_at
        || not (is_issue_severity i.severity))
      invalid_data
  refuse_if (is_other_interval i.interval interval) invalid_data
  refuse_if (is_out_of_range i.open_time start end) invalid_data
  refuse_if (not (is_optional_json_object i.details)) invalid_data
  check_result_issues reference interval start end is

unfoldable pub validate_quality_result :
    QualityResult → ProviderInstrumentRef → BarInterval → Instant → Instant → Result (Unit {0})
unfolding check_result_bars check_result_issues
validate_quality_result result reference interval start end = do
  check_result_bars reference interval start end [] none result.bars
  check_result_issues reference interval start end result.issues

-- `last == nil || t.After(*last)`
abbrev is_later : Option Instant → Instant → Bool
is_later none t = true
is_later (some last) t = ltb last t

-- The loop of successfulCheckpoint, with the time kept so far.
unfoldable pub latest_closed : Option Instant → List MarketBar → Option Instant
latest_closed last [] = last
latest_closed last (b ∷ bs) =
    latest_closed (if b.is_closed && is_later last b.open_time then some b.open_time else last) bs

unfoldable pub successful_checkpoint : Uuid → List MarketBar → Instant → IngestionCheckpoint
unfolding latest_closed
successful_checkpoint subscription_id bars now = record {
  subscription_id = subscription_id;
  last_success_open_time = latest_closed none bars;
  last_closed_open_time = latest_closed none bars;
  last_attempt_at = some now;
  last_success_at = some now;
  consecutive_failures = 0;
  updated_at = now;
}
