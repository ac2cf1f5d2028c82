-- ===== src/Ingestion/Adapter.antt =====
-- The contracts of a provider adapter: ingestion/ports/market_data_adapter.go and the validators
-- of ingestion/ports/validation.go for bars. A Code is its text.
use xr_trading.Base.{
  ℕ, String, Bool, true, false, not, ◌||◌, Option, none, some, List, [], ◌∷◌, ltb, ◌==◌, ℤ, pos,
  ltz, if◌then◌else◌, length,
}
pub use xr_trading.Domain.Classification.{
  AssetType, stock, etf, crypto, cash, fx, other_asset, InstrumentType, equity, etf_share, spot,
  fx_rate, other_instrument, is_asset_type, is_instrument_type,
}
use xr_trading.Domain.Text.{
  bytes, has_prefix, matches_words, codes, same_text, rune_count, is_bounded_text,
}
use xr_trading.Domain.Errors.{Result, ok, refuse_if, ◌>>=◌, ◌>>◌, invalid_data}
use xr_trading.Domain.Time.{Instant, is_zero}
use xr_trading.Domain.Interval.{BarInterval, same_interval, parse_bar_interval}
use xr_trading.Domain.Task.{Uuid, is_nil, Json, object, absent, malformed, nested, other_value}
use xr_trading.Domain.MarketData.{Decimal, MarketBar, unchecked, new_bar}

pub record ProviderInstrumentRef : Type 0 where
  pub provider_instrument_id : Uuid
  pub provider_instrument_code : String
  pub instrument_id : Uuid
  pub asset_id : Uuid
  pub provider_code : String
  pub provider_market : String
  pub asset_type : AssetType
  pub instrument_type : InstrumentType
  pub external_symbol : String
  pub instrument_code : String
  pub instrument_symbol : String
  pub quote_currency : String
  pub metadata : Json

pub record FetchBarsRequest : Type 0 where
  pub instrument : ProviderInstrumentRef
  pub interval : BarInterval
  pub start_time : Instant
  pub end_time : Instant
  pub limit : ℤ
  pub cursor : String

pub record ProviderBar : Type 0 where
  pub provider_instrument_id : Uuid
  pub instrument_id : Uuid
  pub asset_id : Uuid
  pub provider_code : String
  pub interval : BarInterval
  pub open_time : Instant
  pub close_time : Instant
  pub open_price : Decimal
  pub high_price : Decimal
  pub low_price : Decimal
  pub close_price : Decimal
  pub base_volume : Option Decimal
  pub quote_volume : Option Decimal
  pub trade_count : Option ℤ
  pub is_closed : Bool
  pub provider_updated_at : Option Instant
  pub received_at : Instant
  pub raw_payload : Json

pub record FetchBarsResult : Type 0 where
  pub bars : List ProviderBar
  pub next_cursor : String
  pub has_more : Bool

-- `[._-]`
abbrev is_separator : ℕ → Bool
is_separator c = c == 46 || c == 95 || c == 45

-- providerMarketPattern, `^[a-z0-9]+(?:[._-][a-z0-9]+)*$`
unfoldable pub matches_market : String → Bool
unfolding matches_words
matches_market s = matches_words is_separator false (codes s)

-- validateProviderMarket
unfoldable pub validate_provider_market : String → Result (Unit {0})
unfolding matches_market rune_count
validate_provider_market s =
    refuse_if (ltb 32 (rune_count s) || not (matches_market s)) invalid_data

-- validateAdapterText
unfoldable pub validate_adapter_text : String → ℕ → Result (Unit {0})
unfolding is_bounded_text
validate_adapter_text value maximum = refuse_if (not (is_bounded_text maximum value)) invalid_data

-- validOptionalJSONObject
abbrev pub is_optional_json_object : Json → Bool
is_optional_json_object absent = true
is_optional_json_object (object _) = true
is_optional_json_object (nested _ _) = true
is_optional_json_object other_value = false
is_optional_json_object malformed = false

-- validOptionalJSON
abbrev pub is_optional_json : Json → Bool
is_optional_json malformed = false
is_optional_json _ = true

-- ProviderInstrumentRef.Validate
unfoldable pub validate_reference : ProviderInstrumentRef → Result (Unit {0})
unfolding has_prefix validate_provider_market validate_adapter_text
validate_reference r = do
  refuse_if (is_nil r.provider_instrument_id || is_nil r.instrument_id || is_nil r.asset_id)
      invalid_data
  refuse_if (not (has_prefix (codes r.provider_instrument_code) (codes "provider."))) invalid_data
  refuse_if (not (has_prefix (codes r.instrument_code) (codes "instrument."))) invalid_data
  refuse_if (same_text r.provider_code "") invalid_data
  validate_provider_market r.provider_market
  refuse_if (not (is_asset_type r.asset_type)) invalid_data
  refuse_if (not (is_instrument_type r.instrument_type)) invalid_data
  validate_adapter_text r.external_symbol 128
  validate_adapter_text r.instrument_symbol 64
  validate_adapter_text r.quote_currency 16
  refuse_if (not (is_optional_json_object r.metadata)) invalid_data

-- `len(cursor) > maximumAdapterCursorLength`
unfoldable pub is_long_cursor : String → Bool
unfolding bytes
is_long_cursor cursor = ltb 2048 (bytes (codes cursor))

-- FetchBarsRequest.Validate
unfoldable pub validate_request : FetchBarsRequest → Result (Unit {0})
unfolding validate_reference parse_bar_interval is_long_cursor
validate_request r = do
  validate_reference r.instrument
  _ ← parse_bar_interval r.interval
  refuse_if (is_zero r.start_time || is_zero r.end_time || not (ltb r.start_time r.end_time))
      invalid_data
  refuse_if (not (ltz (pos 0) r.limit)) invalid_data
  refuse_if (is_long_cursor r.cursor) invalid_data

-- The bar that ProviderBar.Validate gives to NewBar.
abbrev unchecked_bar : ProviderBar → MarketBar
unchecked_bar b = record {
  instrument_id = b.instrument_id;
  provider_instrument_id = b.provider_instrument_id;
  interval = b.interval;
  open_time = b.open_time;
  revision = pos 0;
  close_time = b.close_time;
  open_price = b.open_price;
  high_price = b.high_price;
  low_price = b.low_price;
  close_price = b.close_price;
  base_volume = b.base_volume;
  quote_volume = b.quote_volume;
  trade_count = b.trade_count;
  is_closed = b.is_closed;
  is_current = false;
  quality_status = unchecked;
  provider_updated_at = b.provider_updated_at;
  collected_at = b.received_at;
  raw_hash = "";
  metadata = object [];
}

-- ProviderBar.Validate
unfoldable pub validate_provider_bar : ProviderBar → Result (Unit {0})
validate_provider_bar b = do
  refuse_if (is_nil b.asset_id || same_text b.provider_code "") invalid_data
  _ ← new_bar (unchecked_bar b)
  refuse_if (not (is_optional_json b.raw_payload)) invalid_data

-- ProviderBar.ValidateFor
unfoldable pub validate_bar_for : ProviderInstrumentRef → ProviderBar → Result (Unit {0})
validate_bar_for r b = do
  validate_reference r
  validate_provider_bar b
  refuse_if
      (not (b.provider_instrument_id == r.provider_instrument_id)
        || not (b.instrument_id == r.instrument_id)
        || not (b.asset_id == r.asset_id)
        || not (same_text b.provider_code r.provider_code))
      invalid_data

-- `index > 0 && !bar.OpenTime.After(previous)`
abbrev pub is_not_after : Option Instant → Instant → Bool
is_not_after none t = false
is_not_after (some previous) t = not (ltb previous t)

-- A bar of another interval or outside the range.
abbrev pub is_unrequested : FetchBarsRequest → ProviderBar → Bool
is_unrequested r b =
    not (same_interval b.interval r.interval)
    || ltb b.open_time r.start_time
    || not (ltb b.open_time r.end_time)

-- The loop of FetchBarsResult.Validate, with the open time of the bar before.
unfoldable pub check_page : FetchBarsRequest → Option Instant → List ProviderBar → Result (Unit {0})
check_page r previous [] = ok tt
check_page r previous (b ∷ bs) = do
  validate_bar_for r.instrument b
  refuse_if (is_unrequested r b) invalid_data
  refuse_if (is_not_after previous b.open_time) invalid_data
  check_page r (some b.open_time) bs

-- The test of the next cursor.
unfoldable pub check_cursor : FetchBarsRequest → FetchBarsResult → Result (Unit {0})
unfolding is_long_cursor
check_cursor request result =
    if result.has_more
    then refuse_if
        (same_text result.next_cursor ""
          || same_text result.next_cursor request.cursor
          || length result.bars == 0)
        invalid_data
      >> refuse_if (is_long_cursor result.next_cursor) invalid_data
    else refuse_if (not (same_text result.next_cursor "")) invalid_data

abbrev pub exceeds_limit : FetchBarsRequest → FetchBarsResult → Bool
exceeds_limit request result = ltz request.limit (pos (length result.bars))

-- FetchBarsResult.Validate
unfoldable pub validate_result : FetchBarsRequest → FetchBarsResult → Result (Unit {0})
unfolding check_cursor check_page
validate_result request result = do
  validate_request request
  refuse_if (exceeds_limit request result) invalid_data
  check_cursor request result
  check_page request none result.bars
