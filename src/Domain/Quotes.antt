-- ===== src/Domain/Quotes.antt =====
-- The quotes of domain/market_data.go.
use xr_trading.Base.{Bool, false, not, ◌||◌, Option, some, List, [], ◌∷◌, ltz}
use xr_trading.Domain.Errors.{Result, ok, refuse_if, ◌>>◌, invalid_data}
use xr_trading.Domain.Time.{Instant, is_zero}
use xr_trading.Domain.Task.{Uuid, Json, is_json_object, normalized_json}
use xr_trading.Domain.MarketData.{
  Decimal, is_negative, is_negative_volume, QualityStatus, is_quality_status, validate_source,
}

pub record Quote : Type 0 where
  pub instrument_id : Uuid
  pub provider_instrument_id : Uuid
  pub market_time : Instant
  pub last_price : Decimal
  pub bid_price : Option Decimal
  pub bid_size : Option Decimal
  pub ask_price : Option Decimal
  pub ask_size : Option Decimal
  pub open_24h : Option Decimal
  pub high_24h : Option Decimal
  pub low_24h : Option Decimal
  pub base_volume_24h : Option Decimal
  pub quote_volume_24h : Option Decimal
  pub quality_status : QualityStatus
  pub collected_at : Instant
  pub metadata : Json

-- `a != nil && b != nil && a.LessThan(b)`
abbrev pub is_below : Option Decimal → Option Decimal → Bool
is_below (some a) (some b) = ltz a b
is_below _ _ = false

-- validateOptionalOHLC
unfoldable pub validate_optional_ohlc :
    Option Decimal → Option Decimal → Option Decimal → Result (Unit {0})
validate_optional_ohlc open_price high low = do
  refuse_if (is_below high low) invalid_data
  refuse_if (is_below high open_price) invalid_data
  refuse_if (is_below open_price low) invalid_data

-- The loop of Quote.Validate over the optional values.
unfoldable pub check_values : List (Option Decimal) → Result (Unit {0})
check_values [] = ok tt
check_values (v ∷ vs) = do refuse_if (is_negative_volume v) invalid_data; check_values vs

-- Quote.Validate
unfoldable pub validate_quote : Quote → Result (Unit {0})
unfolding validate_source check_values validate_optional_ohlc
validate_quote q = do
  validate_source q.instrument_id q.provider_instrument_id
  refuse_if (is_zero q.market_time || is_zero q.collected_at) invalid_data
  refuse_if (is_negative q.last_price) invalid_data
  check_values (
      q.bid_price ∷ q.bid_size ∷ q.ask_price ∷ q.ask_size ∷ q.open_24h ∷ q.high_24h ∷ q.low_24h
      ∷ q.base_volume_24h ∷ q.quote_volume_24h ∷ [])
  refuse_if (is_below q.ask_price q.bid_price) invalid_data
  validate_optional_ohlc q.open_24h q.high_24h q.low_24h
  refuse_if (not (is_quality_status q.quality_status)) invalid_data
  refuse_if (not (is_json_object q.metadata)) invalid_data

-- NewQuote
unfoldable pub new_quote : Quote → Result Quote
unfolding normalized_json validate_quote
new_quote given = do
  let quote = record given { metadata = normalized_json given.metadata }
  validate_quote quote
  ok quote
