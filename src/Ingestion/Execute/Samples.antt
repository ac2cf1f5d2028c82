-- ===== src/Ingestion/Execute/Samples.antt =====
-- The execution of a task at a small store, with one provider that answers one page.
use xr_trading.Base.{◌≡◌, refl, Bool, true, false, String, Option, none, some, List, [], ◌∷◌, pos}
use xr_trading.Domain.Errors.{ok}
use xr_trading.Domain.Text.{same_text}
use xr_trading.Domain.Time.{hour}
use xr_trading.Domain.Interval.{hour1}
use xr_trading.Domain.Task.{object, is_leased}
use xr_trading.Domain.Classification.{
  crypto, spot, active_asset, active_instrument, exchange, active_provider,
}
use xr_trading.Ingestion.Contracts.{SuccessCommit, FailureCommit}
use xr_trading.Ingestion.Adapter.{ProviderInstrumentRef, FetchBarsRequest, FetchBarsResult}
use xr_trading.Ingestion.Action.{Action}
use xr_trading.Ingestion.Execution.{ExecutionContext, reference}
use xr_trading.Ingestion.Execution.Resolved.{IsResolved, reference-IsResolved}
use xr_trading.Ingestion.Quality.{validate_bars}
use xr_trading.Ingestion.Execute.{Service}
use xr_trading.Ingestion.Samples.{
  config, claim, snapshot, bar, hash, canceled, reference as sample_reference,
}

abbrev execution : ExecutionContext
execution = record {
  subscription = record {
    id = 8;
    provider_instrument_id = 4;
    interval = hour1;
    enabled = true;
    priority = pos 0;
    close_delay_seconds = pos 60;
    revision_delay_seconds = none;
    metadata = object [];
    created_at = 10;
    updated_at = 10;
  };
  asset = record {
    id = 2;
    code = "asset.btc";
    asset_type = crypto;
    canonical_symbol = "BTC";
    name = "Bitcoin";
    status = active_asset;
    metadata = object [];
    created_at = 10;
    updated_at = 10;
  };
  instrument = record {
    id = 3;
    code = "instrument.btc";
    asset_id = 2;
    venue = "OKX";
    instrument_type = spot;
    symbol = "BTC";
    quote_asset_id = none;
    quote_currency = "USDT";
    market_timezone = "UTC";
    price_scale = some (pos 2);
    quantity_scale = none;
    lot_size = none;
    min_quantity = none;
    status = active_instrument;
    valid_from = none;
    valid_to = none;
    metadata = object [];
    created_at = 10;
    updated_at = 10;
  };
  provider = record {
    id = 6;
    code = "okx";
    name = "OKX";
    provider_type = exchange;
    status = active_provider;
    metadata = object [];
    created_at = 10;
    updated_at = 10;
  };
  provider_instrument = record {
    id = 4;
    code = "provider.okx.btc";
    provider_id = 6;
    instrument_id = 3;
    external_symbol = "BTC-USDT";
    provider_market = "spot";
    capabilities = record { quote = true; historical = true; intervals = hour1 ∷ [] };
    priority = pos 0;
    is_default = true;
    enabled = true;
    valid_from = none;
    valid_to = none;
    metadata = object [];
    created_at = 10;
    updated_at = 10;
  };
}

abbrev is_utc : String → Bool
is_utc zone = same_text zone "UTC"

-- The writes that the store has accepted.
data Write : Type 0 where
  success_of : SuccessCommit → Write
  failure_of : FailureCommit → Write

abbrev adapter_of : String → Option (FetchBarsRequest → Action (List Write) FetchBarsResult)
adapter_of code = elim (same_text code "okx") [
  | true ↦
      some λ request log.
        (ok (record { bars = bar hour ∷ []; next_cursor = ""; has_more = false }), log)
  | false ↦ none
]

abbrev service : Service
service = record {
  State = List Write;
  config = config;
  is_timezone = is_utc;
  context_error = λ _. none;
  now = λ log. (120, log);
  load_execution_context = λ id log. (ok execution, log);
  adapter = adapter_of;
  validate_bars_request = λ _. ok tt;
  validate_bars = λ x bars log. (validate_bars hash canceled (reference is_utc x) bars, log);
  commit_success = λ commit log. (ok tt, success_of commit ∷ log);
  commit_failure = λ commit log. (ok tt, failure_of commit ∷ log);
  load_run_task_snapshot = λ id log. (ok snapshot, log);
  save_run_summary = λ summary log. (ok tt, log);
}

-- The bars of every accepted success were committed within the lease.
abbrev InLease : Write → Type 0
InLease (success_of commit) = is_leased claim.task.locked_until commit.finished_at ≡ true
InLease (failure_of _) = Unit

-- The log behind a call of an adapter, if there is one.
abbrev logged :
    Option (FetchBarsRequest → Action (List Write) FetchBarsResult)
    → FetchBarsRequest
    → List Write
    → List Write
logged none request log = log
logged (some fetch) request log = (fetch request log).1

abbrev referred : ProviderInstrumentRef
referred = record sample_reference { metadata = object [] }

refers : reference is_utc execution ≡ ok referred
unfolding reference xr_trading.Domain.Catalog.validate_asset_instrument
    xr_trading.Domain.Catalog.validate_provider_mapping
    xr_trading.Ingestion.Adapter.validate_reference xr_trading.Domain.Text.is_padded
refers = refl

reference-IsResolved_example : IsResolved execution referred
reference-IsResolved_example = reference-IsResolved is_utc execution referred refers
