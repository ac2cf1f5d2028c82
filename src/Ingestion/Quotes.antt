-- ===== src/Ingestion/Quotes.antt =====
-- The contract of a batch of quotes: ingestion/ports/validation.go.
pub mod Batch
use xr_trading.Base.{
  String, Bool, true, false, not, ◌||◌, Option, none, some, List, [], ◌∷◌, ◌==◌, length, ℕ, is_some,
  if◌then◌else◌,
}
use xr_trading.Domain.Text.{same_text}
use xr_trading.Domain.Errors.{Result, ok, err, sentinel, refuse_if, ◌>>=◌, ◌>>◌, invalid_data}
use xr_trading.Domain.Time.{Instant}
use xr_trading.Domain.Task.{Uuid, is_nil, Json, object}
use xr_trading.Domain.MarketData.{Decimal, unchecked}
use xr_trading.Domain.Quotes.{Quote, new_quote}
use xr_trading.Ingestion.Adapter.{ProviderInstrumentRef, validate_reference, is_optional_json}

pub record ProviderQuote : Type 0 where
  pub provider_instrument_id : Uuid
  pub instrument_id : Uuid
  pub asset_id : Uuid
  pub provider_code : String
  pub last_price : Decimal
  pub bid_price : Option Decimal
  pub bid_size : Option Decimal
  pub ask_price : Option Decimal
  pub ask_size : Option Decimal
  pub open_24h : Option Decimal
  pub high_24h : Option Decimal
  pub low_24h : Option Decimal
  pub base_volume_24h : Option Decimal
  pub quote_volume_24h : Option Decimal
  pub market_time : Instant
  pub received_at : Instant
  pub raw_payload : Json

-- The quote that ProviderQuote.Validate gives to NewQuote.
abbrev pub unchecked_quote : ProviderQuote → Quote
unchecked_quote q = record {
  instrument_id = q.instrument_id;
  provider_instrument_id = q.provider_instrument_id;
  market_time = q.market_time;
  last_price = q.last_price;
  bid_price = q.bid_price;
  bid_size = q.bid_size;
  ask_price = q.ask_price;
  ask_size = q.ask_size;
  open_24h = q.open_24h;
  high_24h = q.high_24h;
  low_24h = q.low_24h;
  base_volume_24h = q.base_volume_24h;
  quote_volume_24h = q.quote_volume_24h;
  quality_status = unchecked;
  collected_at = q.received_at;
  metadata = object [];
}

-- ProviderQuote.Validate
unfoldable pub validate_provider_quote : ProviderQuote → Result (Unit {0})
validate_provider_quote q = do
  refuse_if (is_nil q.asset_id || same_text q.provider_code "") invalid_data
  _ ← new_quote (unchecked_quote q)
  refuse_if (not (is_optional_json q.raw_payload)) invalid_data

-- A quote of another mapping than the reference's.
abbrev pub is_mismatch : ProviderInstrumentRef → ProviderQuote → Bool
is_mismatch r q =
    not (q.provider_instrument_id == r.provider_instrument_id)
    || not (q.instrument_id == r.instrument_id)
    || not (q.asset_id == r.asset_id)
    || not (same_text q.provider_code r.provider_code)

-- ProviderQuote.ValidateFor
unfoldable pub validate_quote_for : ProviderInstrumentRef → ProviderQuote → Result (Unit {0})
validate_quote_for r q = do
  validate_reference r
  validate_provider_quote q
  refuse_if (is_mismatch r q) invalid_data

-- The map `requested`: the reference of an ID.
unfoldable pub requested : Uuid → List ProviderInstrumentRef → Option ProviderInstrumentRef
requested id [] = none
requested id (r ∷ rs) = if r.provider_instrument_id == id then some r else requested id rs

-- The loop over the references, with the map so far.
unfoldable pub index_references :
    String
    → List ProviderInstrumentRef
    → List ProviderInstrumentRef
    → Result (List ProviderInstrumentRef)
index_references provider_code known [] = ok known
index_references provider_code known (r ∷ rs) = do
  validate_reference r
  refuse_if (not (same_text r.provider_code provider_code)) invalid_data
  refuse_if (is_some (requested r.provider_instrument_id known)) invalid_data
  index_references provider_code (r ∷ known) rs

-- `_, duplicate := seen[quote.ProviderInstrumentID]`
unfoldable pub is_answered : Uuid → List ProviderQuote → Bool
is_answered id [] = false
is_answered id (q ∷ qs) = q.provider_instrument_id == id || is_answered id qs

abbrev pub check_found : Option ProviderInstrumentRef → Result ProviderInstrumentRef
check_found none = err (sentinel invalid_data)
check_found (some r) = ok r

-- The loop over the quotes, with those seen so far.
unfoldable pub check_quotes :
    List ProviderInstrumentRef → List ProviderQuote → List ProviderQuote → Result (Unit {0})
check_quotes known seen [] = ok tt
check_quotes known seen (q ∷ qs) = do
  reference ← check_found (requested q.provider_instrument_id known)
  refuse_if (is_answered q.provider_instrument_id seen) invalid_data
  validate_quote_for reference q
  check_quotes known (q ∷ seen) qs

-- ValidateLatestQuoteBatch
unfoldable pub validate_latest_quote_batch :
    String → List ProviderInstrumentRef → List ProviderQuote → Result (Unit {0})
validate_latest_quote_batch provider_code references quotes = do
  refuse_if (same_text provider_code "" || length references == 0) invalid_data
  known ← index_references provider_code [] references
  check_quotes known [] quotes
