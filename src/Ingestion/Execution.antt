-- ===== src/Ingestion/Execution.antt =====
-- ExecutionContext of ingestion/contracts.go: the catalog rows of a task, and the adapter's reference
-- that they determine. What time.LoadLocation finds is the parameter `is_timezone`.
pub mod Resolved
use xr_trading.Base.{String, Bool, not, ◌||◌, ◌==◌}
use xr_trading.Domain.Errors.{Result, ok, refuse_if, ◌>>=◌, ◌>>◌, invalid_state}
use xr_trading.Domain.Interval.{BarInterval, parse_bar_interval}
use xr_trading.Domain.Task.{is_nil}
use xr_trading.Domain.Classification.{is_active_asset, is_active_instrument, is_disabled_provider}
use xr_trading.Domain.Catalog.{
  Asset, Instrument, Provider, ProviderInstrument, CollectionSubscription, has_interval,
  validate_asset_instrument, validate_provider_mapping,
}
use xr_trading.Ingestion.Adapter.{ProviderInstrumentRef, validate_reference}
use xr_trading.Ingestion.Quality.{is_refused}

pub record ExecutionContext : Type 0 where
  pub subscription : CollectionSubscription
  pub asset : Asset
  pub instrument : Instrument
  pub provider : Provider
  pub provider_instrument : ProviderInstrument

-- The three tests of ExecutionContext.Validate.
abbrev pub is_unsubscribed : ExecutionContext → Bool
is_unsubscribed x =
    is_nil x.subscription.id
    || not (x.subscription.provider_instrument_id == x.provider_instrument.id)
    || not x.subscription.enabled

abbrev pub is_inactive : ExecutionContext → Bool
is_inactive x =
    not (is_active_asset x.asset.status)
    || not (is_active_instrument x.instrument.status)
    || is_disabled_provider x.provider.status
    || not x.provider_instrument.enabled

-- containsInterval is `has_interval`.
abbrev pub is_uncovered : ExecutionContext → Bool
is_uncovered x =
    is_refused (parse_bar_interval x.subscription.interval)
    || not x.provider_instrument.capabilities.historical
    || not (has_interval x.subscription.interval x.provider_instrument.capabilities.intervals)

-- The reference that ExecutionContext.Reference fills in.
abbrev pub filled_reference : ExecutionContext → ProviderInstrumentRef
filled_reference x = record {
  provider_instrument_id = x.provider_instrument.id;
  provider_instrument_code = x.provider_instrument.code;
  instrument_id = x.instrument.id;
  asset_id = x.asset.id;
  provider_code = x.provider.code;
  provider_market = x.provider_instrument.provider_market;
  asset_type = x.asset.asset_type;
  instrument_type = x.instrument.instrument_type;
  external_symbol = x.provider_instrument.external_symbol;
  instrument_code = x.instrument.code;
  instrument_symbol = x.instrument.symbol;
  quote_currency = x.instrument.quote_currency;
  metadata = x.provider_instrument.metadata;
}

module _ (is_timezone : String → Bool) where
  -- ExecutionContext.Validate
  unfoldable pub validate_execution : ExecutionContext → Result (Unit {0})
  unfolding parse_bar_interval has_interval
  validate_execution x = do
    refuse_if (is_unsubscribed x) invalid_state
    validate_asset_instrument is_timezone x.asset x.instrument
    validate_provider_mapping is_timezone x.provider x.instrument x.provider_instrument
    refuse_if (is_inactive x) invalid_state
    refuse_if (is_uncovered x) invalid_state

  -- ExecutionContext.Reference
  unfoldable pub reference : ExecutionContext → Result ProviderInstrumentRef
  unfolding validate_execution
  reference x = do
    validate_execution x
    validate_reference (filled_reference x)
    ok (filled_reference x)
