-- ===== src/Domain/Catalog.antt =====
-- domain/catalog_entities.go, with ParseCode of domain/code.go and the subscription of
-- domain/catalog.go. A Code is its text; UTC leaves an instant as it is. What time.LoadLocation finds in the time
-- zone database is the parameter `is_timezone`.
use xr_trading.Base.{
  ℕ, String, Bool, false, not, ◌&&◌, ◌||◌, Option, none, some, List, [], ◌∷◌, ltb, ◌==◌, ℤ, pos,
  ltz, is_some,
}
use xr_trading.Domain.Text.{
  codes, same_text, is_blank, has_prefix, bytes, matches_words, rune_count,
}
use xr_trading.Domain.Errors.{Result, ok, refuse_if, ◌>>=◌, ◌>>◌, invalid_data}
use xr_trading.Domain.Time.{Instant, is_zero}
use xr_trading.Domain.Interval.{BarInterval, same_interval, parse_bar_interval}
use xr_trading.Domain.Task.{Uuid, is_nil, Json, is_json_object, normalized_json}
use xr_trading.Domain.MarketData.{Decimal}
use xr_trading.Domain.Classification.{
  AssetType, is_asset_type, InstrumentType, is_instrument_type, AssetStatus, is_asset_status,
  InstrumentStatus, is_instrument_status, ProviderType, is_provider_type, ProviderStatus,
  is_provider_status, is_compatible,
}

pub record Asset : Type 0 where
  pub id : Uuid
  pub code : String
  pub asset_type : AssetType
  pub canonical_symbol : String
  pub name : String
  pub status : AssetStatus
  pub metadata : Json
  pub created_at : Instant
  pub updated_at : Instant

pub record Instrument : Type 0 where
  pub id : Uuid
  pub code : String
  pub asset_id : Uuid
  pub venue : String
  pub instrument_type : InstrumentType
  pub symbol : String
  pub quote_asset_id : Option Uuid
  pub quote_currency : String
  pub market_timezone : String
  pub price_scale : Option ℤ
  pub quantity_scale : Option ℤ
  pub lot_size : Option Decimal
  pub min_quantity : Option Decimal
  pub status : InstrumentStatus
  pub valid_from : Option Instant
  pub valid_to : Option Instant
  pub metadata : Json
  pub created_at : Instant
  pub updated_at : Instant

pub record Provider : Type 0 where
  pub id : Uuid
  pub code : String
  pub name : String
  pub provider_type : ProviderType
  pub status : ProviderStatus
  pub metadata : Json
  pub created_at : Instant
  pub updated_at : Instant

pub record ProviderCapabilities : Type 0 where
  pub quote : Bool
  pub historical : Bool
  pub intervals : List BarInterval

pub record ProviderInstrument : Type 0 where
  pub id : Uuid
  pub code : String
  pub provider_id : Uuid
  pub instrument_id : Uuid
  pub external_symbol : String
  pub provider_market : String
  pub capabilities : ProviderCapabilities
  pub priority : ℤ
  pub is_default : Bool
  pub enabled : Bool
  pub valid_from : Option Instant
  pub valid_to : Option Instant
  pub metadata : Json
  pub created_at : Instant
  pub updated_at : Instant

pub record CollectionSubscription : Type 0 where
  pub id : Uuid
  pub provider_instrument_id : Uuid
  pub interval : BarInterval
  pub enabled : Bool
  pub priority : ℤ
  pub close_delay_seconds : ℤ
  pub revision_delay_seconds : Option ℤ
  pub metadata : Json
  pub created_at : Instant
  pub updated_at : Instant

-- `[.-]`
abbrev is_code_separator : ℕ → Bool
is_code_separator c = c == 46 || c == 45

-- ParseCode succeeds.
unfoldable pub is_code : String → Bool
unfolding matches_words bytes
is_code s =
    not (bytes (codes s) == 0)
    && not (ltb 192 (bytes (codes s)))
    && matches_words is_code_separator false (codes s)

unfoldable pub validate_identity : Uuid → String → String → ℕ → Result (Unit {0})
unfolding is_code bytes has_prefix
validate_identity id code prefix maximum_length = do
  refuse_if (is_nil id) invalid_data
  refuse_if (not (is_code code) || ltb maximum_length (bytes (codes code))) invalid_data
  refuse_if (not (same_text prefix "") && not (has_prefix (codes code) (codes prefix))) invalid_data

unfoldable pub validate_text : String → ℕ → Result (Unit {0})
unfolding is_blank rune_count
validate_text value maximum_length =
    refuse_if (is_blank value || ltb maximum_length (rune_count value)) invalid_data

abbrev is_bad_scale : Option ℤ → Bool
is_bad_scale none = false
is_bad_scale (some n) = ltz n (pos 0) || ltz (pos 18) n

abbrev is_not_positive : Option Decimal → Bool
is_not_positive none = false
is_not_positive (some d) = not (ltz (pos 0) d)

-- `from != nil && to != nil && !to.After(*from)`
abbrev is_empty_range : Option Instant → Option Instant → Bool
is_empty_range (some from) (some to) = not (ltb from to)
is_empty_range _ _ = false

unfoldable pub validate_record : Json → Instant → Instant → Result (Unit {0})
validate_record metadata created_at updated_at = do
  refuse_if (not (is_json_object metadata)) invalid_data
  refuse_if (is_zero created_at || is_zero updated_at || ltb updated_at created_at) invalid_data

-- Asset.Validate
unfoldable pub validate_asset : Asset → Result (Unit {0})
unfolding validate_identity validate_text validate_record
validate_asset a = do
  validate_identity a.id a.code "asset." 128
  refuse_if (not (is_asset_type a.asset_type)) invalid_data
  refuse_if (not (is_asset_status a.status)) invalid_data
  validate_text a.canonical_symbol 64
  validate_text a.name 255
  validate_record a.metadata a.created_at a.updated_at

unfoldable pub new_asset : Asset → Result Asset
unfolding normalized_json validate_asset
new_asset given = do
  let asset = record given { metadata = normalized_json given.metadata }
  validate_asset asset
  ok asset

-- `quote != nil && (quote.IsZero() || *quote == asset)`
abbrev is_bad_quote : Option Uuid → Uuid → Bool
is_bad_quote none asset_id = false
is_bad_quote (some id) asset_id = is_nil id || id == asset_id

module _ (is_timezone : String → Bool) where
  -- Instrument.Validate
  unfoldable pub validate_instrument : Instrument → Result (Unit {0})
  unfolding validate_identity validate_text validate_record
  validate_instrument i = do
    validate_identity i.id i.code "instrument." 160
    refuse_if (is_nil i.asset_id) invalid_data
    refuse_if (not (is_instrument_type i.instrument_type)) invalid_data
    refuse_if (not (is_instrument_status i.status)) invalid_data
    validate_text i.venue 32
    validate_text i.symbol 64
    validate_text i.quote_currency 16
    validate_text i.market_timezone 64
    refuse_if (not (is_timezone i.market_timezone)) invalid_data
    refuse_if (is_bad_quote i.quote_asset_id i.asset_id) invalid_data
    refuse_if (is_bad_scale i.price_scale) invalid_data
    refuse_if (is_bad_scale i.quantity_scale) invalid_data
    refuse_if (is_not_positive i.lot_size) invalid_data
    refuse_if (is_not_positive i.min_quantity) invalid_data
    refuse_if (is_empty_range i.valid_from i.valid_to) invalid_data
    validate_record i.metadata i.created_at i.updated_at

  unfoldable pub new_instrument : Instrument → Result Instrument
  unfolding normalized_json validate_instrument
  new_instrument given = do
    let instrument = record given { metadata = normalized_json given.metadata }
    validate_instrument instrument
    ok instrument

-- Provider.Validate
unfoldable pub validate_provider : Provider → Result (Unit {0})
unfolding validate_identity validate_text validate_record
validate_provider p = do
  validate_identity p.id p.code "" 64
  validate_text p.name 128
  refuse_if (not (is_provider_type p.provider_type)) invalid_data
  refuse_if (not (is_provider_status p.status)) invalid_data
  validate_record p.metadata p.created_at p.updated_at

unfoldable pub new_provider : Provider → Result Provider
unfolding normalized_json validate_provider
new_provider given = do
  let provider = record given { metadata = normalized_json given.metadata }
  validate_provider provider
  ok provider

-- `_, exists := seen[interval]`
unfoldable pub has_interval : BarInterval → List BarInterval → Bool
has_interval i [] = false
has_interval i (j ∷ js) = same_interval j i || has_interval i js

-- The loop of ProviderCapabilities.Validate, with the intervals seen so far.
unfoldable pub check_intervals : List BarInterval → List BarInterval → Result (Unit {0})
unfolding parse_bar_interval has_interval
check_intervals seen [] = ok tt
check_intervals seen (i ∷ is) = do
  _ ← parse_bar_interval i
  refuse_if (has_interval i seen) invalid_data
  check_intervals (i ∷ seen) is

-- ProviderInstrument.Validate
unfoldable pub validate_provider_instrument : ProviderInstrument → Result (Unit {0})
unfolding validate_identity validate_text validate_record check_intervals
validate_provider_instrument m = do
  validate_identity m.id m.code "provider." 192
  refuse_if (is_nil m.provider_id || is_nil m.instrument_id) invalid_data
  validate_text m.external_symbol 128
  validate_text m.provider_market 32
  refuse_if (ltz m.priority (pos 0)) invalid_data
  check_intervals [] m.capabilities.intervals
  refuse_if (is_empty_range m.valid_from m.valid_to) invalid_data
  refuse_if (m.is_default && (not m.enabled || is_some m.valid_to)) invalid_data
  validate_record m.metadata m.created_at m.updated_at

unfoldable pub new_provider_instrument : ProviderInstrument → Result ProviderInstrument
unfolding normalized_json validate_provider_instrument
new_provider_instrument given = do
  let mapping = record given { metadata = normalized_json given.metadata }
  validate_provider_instrument mapping
  ok mapping

module _ (is_timezone : String → Bool) where
  unfoldable pub validate_asset_instrument : Asset → Instrument → Result (Unit {0})
  unfolding validate_asset validate_instrument
  validate_asset_instrument asset instrument = do
    validate_asset asset
    validate_instrument is_timezone instrument
    refuse_if (not (asset.id == instrument.asset_id)) invalid_data
    refuse_if (not (is_compatible asset.asset_type instrument.instrument_type)) invalid_data

  unfoldable pub validate_provider_mapping :
      Provider → Instrument → ProviderInstrument → Result (Unit {0})
  unfolding validate_provider validate_instrument validate_provider_instrument
  validate_provider_mapping provider instrument mapping = do
    validate_provider provider
    validate_instrument is_timezone instrument
    validate_provider_instrument mapping
    refuse_if
        (not (mapping.provider_id == provider.id) || not (mapping.instrument_id == instrument.id))
        invalid_data
