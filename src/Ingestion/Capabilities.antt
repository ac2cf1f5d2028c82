-- ===== src/Ingestion/Capabilities.antt =====
-- What an adapter declares: ProviderCapabilities and ProviderMarketCapability of
-- ingestion/ports/market_data_adapter.go, and their checks in ingestion/ports/validation.go.
pub mod Declared
use xr_trading.Base.{
  ℕ, String, Bool, true, false, not, ◌&&◌, ◌||◌, List, [], ◌∷◌, ◌==◌, ℤ, pos, negsuc, ltz, length,
  if◌then◌else◌,
}
use xr_trading.Domain.Text.{same_text}
use xr_trading.Domain.Errors.{Result, ok, err, refuse_if, ◌>>=◌, ◌>>◌, invalid_data}
use xr_trading.Domain.Interval.{BarInterval, same_interval, parse_bar_interval}
use xr_trading.Ingestion.Adapter.{
  AssetType, stock, etf, crypto, cash, fx, other_asset, InstrumentType, equity, etf_share, spot,
  fx_rate, other_instrument, is_asset_type, is_instrument_type, validate_provider_market,
}

pub record ProviderMarketCapability : Type 0 where
  pub provider_market : String
  pub asset_types : List AssetType
  pub instrument_types : List InstrumentType
  pub supports_quote : Bool
  pub supports_bars : Bool
  pub intervals : List BarInterval
  pub max_batch_size : ℤ
  pub max_bars_per_request : ℤ

pub record ProviderCapabilities : Type 0 where
  pub provider_code : String
  pub markets : List ProviderMarketCapability

abbrev asset_rank : AssetType → ℕ
asset_rank stock = 0
asset_rank etf = 1
asset_rank crypto = 2
asset_rank cash = 3
asset_rank fx = 4
asset_rank other_asset = 5

abbrev pub same_asset_type : AssetType → AssetType → Bool
same_asset_type a b = asset_rank a == asset_rank b

abbrev instrument_rank : InstrumentType → ℕ
instrument_rank equity = 0
instrument_rank etf_share = 1
instrument_rank spot = 2
instrument_rank fx_rate = 3
instrument_rank other_instrument = 4

abbrev pub same_instrument_type : InstrumentType → InstrumentType → Bool
same_instrument_type a b = instrument_rank a == instrument_rank b

module _ {ℓ} {A : Type ℓ} (known : A → Bool) (same : A → A → Bool) where
  -- `_, exists := seen[value]`
  unfoldable pub is_among : A → List A → Bool
  is_among x [] = false
  is_among x (y ∷ ys) = same y x || is_among x ys

  -- The loops that refuse a value that is not known or that was seen before.
  unfoldable pub check_distinct : List A → List A → Result (Unit {0})
  unfolding is_among
  check_distinct seen [] = ok tt
  check_distinct seen (x ∷ xs) = do
    refuse_if (not (known x)) invalid_data
    refuse_if (is_among x seen) invalid_data
    check_distinct (x ∷ seen) xs

-- validateAssetTypes
unfoldable pub validate_asset_types : List AssetType → Result (Unit {0})
unfolding check_distinct
validate_asset_types values = do
  refuse_if (length values == 0) invalid_data
  check_distinct is_asset_type same_asset_type [] values

-- validateInstrumentTypes
unfoldable pub validate_instrument_types : List InstrumentType → Result (Unit {0})
unfolding check_distinct
validate_instrument_types values = do
  refuse_if (length values == 0) invalid_data
  check_distinct is_instrument_type same_instrument_type [] values

-- ParseBarInterval succeeds.
abbrev pub is_interval : BarInterval → Bool
is_interval i = elim (parse_bar_interval i) [ ok _ ↦ true | err _ ↦ false ]

abbrev is_zero_int : ℤ → Bool
is_zero_int (pos n) = n == 0
is_zero_int (negsuc _) = false

-- The tests of the batch size and of the bar limit.
abbrev pub check_quote_limit : ProviderMarketCapability → Result (Unit {0})
check_quote_limit c =
    if c.supports_quote
    then refuse_if (not (ltz (pos 0) c.max_batch_size)) invalid_data
    else refuse_if (not (is_zero_int c.max_batch_size)) invalid_data

abbrev pub check_bar_limit : ProviderMarketCapability → Result (Unit {0})
check_bar_limit c =
    if c.supports_bars
    then refuse_if (not (ltz (pos 0) c.max_bars_per_request) || length c.intervals == 0)
        invalid_data
    else refuse_if (not (is_zero_int c.max_bars_per_request) || not (length c.intervals == 0))
        invalid_data

-- ProviderMarketCapability.Validate
unfoldable pub validate_market_capability : ProviderMarketCapability → Result (Unit {0})
unfolding validate_provider_market validate_asset_types validate_instrument_types check_distinct
    parse_bar_interval
validate_market_capability c = do
  validate_provider_market c.provider_market
  validate_asset_types c.asset_types
  validate_instrument_types c.instrument_types
  refuse_if (not c.supports_quote && not c.supports_bars) invalid_data
  check_quote_limit c
  check_bar_limit c
  check_distinct is_interval same_interval [] c.intervals

-- `_, exists := seen[market.ProviderMarket]`
unfoldable pub is_declared : String → List ProviderMarketCapability → Bool
is_declared market [] = false
is_declared market (c ∷ cs) = same_text c.provider_market market || is_declared market cs

-- The loop of ProviderCapabilities.Validate, with the markets seen so far.
unfoldable pub check_markets :
    List ProviderMarketCapability → List ProviderMarketCapability → Result (Unit {0})
unfolding validate_market_capability is_declared
check_markets seen [] = ok tt
check_markets seen (c ∷ cs) = do
  validate_market_capability c
  refuse_if (is_declared c.provider_market seen) invalid_data
  check_markets (c ∷ seen) cs

-- ProviderCapabilities.Validate
unfoldable pub validate_capabilities : ProviderCapabilities → Result (Unit {0})
unfolding check_markets
validate_capabilities c = do
  refuse_if (same_text c.provider_code "") invalid_data
  refuse_if (length c.markets == 0) invalid_data
  check_markets [] c.markets
