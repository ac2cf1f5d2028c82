-- ===== src/Domain/MarketData.antt =====
-- domain/market_data.go and domain/quality.go: sources, time ranges, bars and quality issues. Prices
-- and volumes are exact decimals; only their order and their sign are used, so a Decimal is an
-- integer number of units of one common scale.
use xr_trading.Base.{
  String, Bool, true, false, not, ◌&&◌, ◌||◌, Option, none, some, ltb, ℤ, pos, ltz, if◌then◌else◌,
}
use xr_trading.Domain.Text.{rune_count}
use xr_trading.Domain.Errors.{Result, ok, err, refuse_if, ◌>>=◌, ◌>>◌, invalid_data}
use xr_trading.Domain.Time.{Instant, is_zero, new_utc_instant}
use xr_trading.Domain.Interval.{BarInterval, parse_bar_interval}
use xr_trading.Domain.Task.{Uuid, is_nil, Json, is_json_object, normalized_json}

abbrev pub Decimal : Type 0
Decimal = ℤ

abbrev pub is_negative : Decimal → Bool
is_negative d = ltz d (pos 0)

-- `other` stands for every text but the four constants.
pub data QualityStatus : Type 0 where
  unchecked valid warning invalid other : QualityStatus

abbrev pub is_quality_status : QualityStatus → Bool
is_quality_status other = false
is_quality_status _ = true

-- MarketDataSource.Validate
unfoldable pub validate_source : Uuid → Uuid → Result (Unit {0})
validate_source instrument_id provider_instrument_id =
    refuse_if (is_nil instrument_id || is_nil provider_instrument_id) invalid_data

pub record TimeRange : Type 0 where
  pub start : Option Instant
  pub end : Option Instant

abbrev is_zero_bound : Option Instant → Bool
is_zero_bound none = false
is_zero_bound (some t) = is_zero t

-- `start != nil && end != nil && !start.Before(end)`
abbrev is_reversed : Option Instant → Option Instant → Bool
is_reversed (some s) (some e) = not (ltb s e)
is_reversed _ _ = false

-- TimeRange.Validate
unfoldable pub validate_range : TimeRange → Result (Unit {0})
validate_range r = do
  refuse_if (is_zero_bound r.start) invalid_data
  refuse_if (is_zero_bound r.end) invalid_data
  refuse_if (is_reversed r.start r.end) invalid_data

normalize_bound : Option Instant → Result (Option Instant)
normalize_bound none = ok none
normalize_bound (some t) = new_utc_instant t >>= λ u. ok (some u)

-- NewTimeRange
unfoldable pub new_time_range : Option Instant → Option Instant → Result TimeRange
unfolding normalize_bound validate_range new_utc_instant
new_time_range start end = do
  s ← normalize_bound start
  e ← normalize_bound end
  let range : TimeRange = record { start = s; end = e }
  validate_range range
  ok range

abbrev is_valid_range : TimeRange → Bool
is_valid_range r = elim (validate_range r) [ ok _ ↦ true | err _ ↦ false ]

-- `start != nil && instant.Before(start)`
abbrev is_before_start : Instant → Option Instant → Bool
is_before_start t none = false
is_before_start t (some s) = ltb t s

-- `end == nil || instant.Before(end)`
abbrev is_before_end : Instant → Option Instant → Bool
is_before_end t none = true
is_before_end t (some e) = ltb t e

-- TimeRange.Contains
unfoldable pub contains : TimeRange → Instant → Bool
unfolding validate_range
contains r instant =
    if is_zero instant || not (is_valid_range r)
    then false
    else if is_before_start instant r.start
    then false
    else is_before_end instant r.end

-- domain.Bar
pub record MarketBar : Type 0 where
  pub instrument_id : Uuid
  pub provider_instrument_id : Uuid
  pub interval : BarInterval
  pub open_time : Instant
  pub revision : ℤ
  pub close_time : Instant
  pub open_price : Decimal
  pub high_price : Decimal
  pub low_price : Decimal
  pub close_price : Decimal
  pub base_volume : Option Decimal
  pub quote_volume : Option Decimal
  pub trade_count : Option ℤ
  pub is_closed : Bool
  pub is_current : Bool
  pub quality_status : QualityStatus
  pub provider_updated_at : Option Instant
  pub collected_at : Instant
  pub raw_hash : String
  pub metadata : Json

unfoldable pub validate_ohlc : Decimal → Decimal → Decimal → Decimal → Result (Unit {0})
validate_ohlc open_price high low close_price = do
  refuse_if
      (is_negative open_price || is_negative high || is_negative low || is_negative close_price)
      invalid_data
  refuse_if
      (ltz high low
        || ltz high open_price
        || ltz high close_price
        || ltz open_price low
        || ltz close_price low)
      invalid_data

abbrev pub is_negative_volume : Option Decimal → Bool
is_negative_volume none = false
is_negative_volume (some v) = is_negative v

-- Bar.Validate
unfoldable pub validate_bar : MarketBar → Result (Unit {0})
unfolding validate_source parse_bar_interval validate_ohlc
validate_bar bar = do
  validate_source bar.instrument_id bar.provider_instrument_id
  _ ← parse_bar_interval bar.interval
  refuse_if (is_zero bar.open_time || is_zero bar.close_time || is_zero bar.collected_at)
      invalid_data
  refuse_if (not (ltb bar.open_time bar.close_time)) invalid_data
  refuse_if (ltz bar.revision (pos 0)) invalid_data
  validate_ohlc bar.open_price bar.high_price bar.low_price bar.close_price
  refuse_if (is_negative_volume bar.base_volume) invalid_data
  refuse_if (is_negative_volume bar.quote_volume) invalid_data
  refuse_if (is_negative_volume bar.trade_count) invalid_data
  refuse_if (bar.is_closed && ltb bar.collected_at bar.close_time) invalid_data
  refuse_if (is_zero_bound bar.provider_updated_at) invalid_data
  refuse_if (not (is_quality_status bar.quality_status)) invalid_data
  refuse_if (ltb 64 (rune_count bar.raw_hash)) invalid_data
  refuse_if (not (is_json_object bar.metadata)) invalid_data

-- NewBar
unfoldable pub new_bar : MarketBar → Result MarketBar
unfolding normalized_json
new_bar given = do
  let bar = record given { metadata = normalized_json given.metadata }
  validate_bar bar
  ok bar

-- domain.DataQualityIssue; the status is one of the workflow's.
pub data IssueStatus : Type 0 where
  opened acknowledged resolved ignored : IssueStatus

pub record DataQualityIssue : Type 0 where
  pub id : Uuid
  pub instrument_id : Uuid
  pub provider_instrument_id : Option Uuid
  pub interval : Option BarInterval
  pub open_time : Option Instant
  pub rule_code : String
  pub severity : String
  pub status : IssueStatus
  pub summary : String
  pub details : Json
  pub detected_at : Instant
  pub created_at : Instant
  pub updated_at : Instant
