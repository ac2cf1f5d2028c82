-- ===== src/Domain/Classification.antt =====
-- domain/classification.go and domain/catalog_classification.go: the constants of the catalog. Each of
-- these types is a string in the source; its `other_*` constructor stands for any string but the constants.
use xr_trading.Base.{Bool, true, false}

pub data AssetType : Type 0 where
  stock etf crypto cash fx other_asset : AssetType

pub data InstrumentType : Type 0 where
  equity etf_share spot fx_rate other_instrument : InstrumentType

-- ParseAssetType and ParseInstrumentType succeed.
abbrev pub is_asset_type : AssetType → Bool
is_asset_type other_asset = false
is_asset_type _ = true

abbrev pub is_instrument_type : InstrumentType → Bool
is_instrument_type other_instrument = false
is_instrument_type _ = true

pub data AssetStatus : Type 0 where
  active_asset inactive_asset delisted_asset other_asset_status : AssetStatus

abbrev pub is_asset_status : AssetStatus → Bool
is_asset_status other_asset_status = false
is_asset_status _ = true

pub data InstrumentStatus : Type 0 where
  active_instrument suspended_instrument delisted_instrument other_instrument_status :
      InstrumentStatus

abbrev pub is_instrument_status : InstrumentStatus → Bool
is_instrument_status other_instrument_status = false
is_instrument_status _ = true

pub data ProviderType : Type 0 where
  broker exchange aggregator other_provider : ProviderType

abbrev pub is_provider_type : ProviderType → Bool
is_provider_type other_provider = false
is_provider_type _ = true

pub data ProviderStatus : Type 0 where
  active_provider disabled_provider degraded_provider other_provider_status : ProviderStatus

abbrev pub is_provider_status : ProviderStatus → Bool
is_provider_status other_provider_status = false
is_provider_status _ = true

-- The combinations of an asset and an instrument that the catalog admits.
abbrev pub is_compatible : AssetType → InstrumentType → Bool
is_compatible stock equity = true
is_compatible etf etf_share = true
is_compatible crypto spot = true
is_compatible fx fx_rate = true
is_compatible _ _ = false

-- `status == Active` and `status == Disabled`
abbrev pub is_active_asset : AssetStatus → Bool
is_active_asset active_asset = true
is_active_asset _ = false

abbrev pub is_active_instrument : InstrumentStatus → Bool
is_active_instrument active_instrument = true
is_active_instrument _ = false

abbrev pub is_disabled_provider : ProviderStatus → Bool
is_disabled_provider disabled_provider = true
is_disabled_provider _ = false
