-- ===== src/Scheduler/Targets.antt =====
-- SchedulingTarget of scheduler/incremental.go and the choice of its market.
use xr_trading.Base.{String, Bool, false, not, ◌||◌, Option, none, some, ltz, pos, ℤ, if◌then◌else◌}
use xr_trading.Domain.Text.{same_text, is_padded}
use xr_trading.Domain.Errors.{
  Result, ok, err, sentinel, refuse_if, ◌>>=◌, ◌>>◌, invalid_data, invalid_state,
}
use xr_trading.Domain.Time.{Instant, Duration, is_zero}
use xr_trading.Domain.Interval.{parse_bar_interval}
use xr_trading.Domain.Task.{is_nil}
use xr_trading.Domain.Classification.{
  AssetType, stock, etf, crypto, fx, InstrumentType, equity, etf_share, spot, fx_rate,
}
use xr_trading.Domain.Catalog.{ProviderCapabilities, CollectionSubscription, has_interval}
use xr_trading.Ingestion.Quality.{is_refused}
use xr_trading.MarketTime.Calendar.{TradingCalendar}
use xr_trading.Scheduler.Window.{
  CollectionWindow, WindowTrigger, calculate_latest_continuous_window,
}
use xr_trading.Scheduler.Sessions.{calculate_latest_us_window}

pub record SchedulingTarget : Type 0 where
  pub subscription : CollectionSubscription
  pub provider_code : String
  pub provider_market : String
  pub instrument_code : String
  pub asset_type : AssetType
  pub instrument_type : InstrumentType
  pub capabilities : ProviderCapabilities

-- The texts "continuous" and "us_regular".
pub data Market : Type 0 where
  continuous us_regular : Market

unfoldable pub market_for : String → AssetType → InstrumentType → Result Market
market_for market crypto spot = ok continuous
market_for market fx fx_rate = ok continuous
market_for market stock equity =
    if same_text market "us" then ok us_regular else err (sentinel invalid_state)
market_for market etf etf_share =
    if same_text market "us" then ok us_regular else err (sentinel invalid_state)
market_for market _ _ = err (sentinel invalid_state)

unfoldable pub scheduling_market : SchedulingTarget → Result Market
unfolding market_for
scheduling_market t = market_for t.provider_market t.asset_type t.instrument_type

abbrev is_negative : Option ℤ → Bool
is_negative none = false
is_negative (some n) = ltz n (pos 0)

-- SchedulingTarget.Validate; supportsInterval is `has_interval`.
unfoldable pub validate_target : SchedulingTarget → Result (Unit {0})
unfolding parse_bar_interval has_interval scheduling_market
validate_target t = do
  let s = t.subscription
  refuse_if
      (is_nil s.id
        || is_nil s.provider_instrument_id
        || not s.enabled
        || is_zero s.created_at
        || is_zero s.updated_at
        || same_text t.provider_code ""
        || same_text t.instrument_code ""
        || is_padded t.provider_market
        || same_text t.provider_market ""
        || ltz s.close_delay_seconds (pos 0)
        || is_negative s.revision_delay_seconds)
      invalid_data
  refuse_if
      (is_refused (parse_bar_interval s.interval)
        || not t.capabilities.historical
        || not (has_interval s.interval t.capabilities.intervals))
      invalid_state
  _ ← scheduling_market t
  ok tt

-- IncrementalScheduler.latestWindow
unfoldable pub latest_window :
    TradingCalendar
    → SchedulingTarget
    → WindowTrigger
    → Duration
    → Instant
    → Result (Option CollectionWindow)
unfolding scheduling_market
latest_window calendar t trigger delay observed_at = do
  market ← scheduling_market t
  elim market [
    | continuous ↦
        calculate_latest_continuous_window t.subscription.interval trigger observed_at delay
    | us_regular ↦
        calculate_latest_us_window calendar t.subscription.interval trigger observed_at delay
  ]
