-- ===== src/Scheduler/Freshness.antt =====
-- CalculateUSFreshness of scheduler/freshness.go, with usBarForOpen and regularTradingDuration.
pub mod Delay
pub mod Status
mod Samples
use xr_trading.Base.{
  ℕ, zero, suc, ◌+◌, ◌-◌, ◌/◌, Bool, true, false, not, Option, none, some, List, [], ◌∷◌, ltb, ◌==◌,
  pos, ltz, if◌then◌else◌,
}
use xr_trading.Domain.Errors.{Result, ok, err, sentinel, refuse_if, ◌>>=◌, ◌>>◌, invalid_data}
use xr_trading.Domain.Time.{Instant, Duration, second, day, zero_time, is_zero}
use xr_trading.Domain.Interval.{BarInterval, hour1, day1, other}
use xr_trading.MarketTime.Date.{MarketDate, validate_date}
use xr_trading.MarketTime.Calendar.{MarketSession, TradingCalendar, date_in_location}
use xr_trading.MarketTime.Nyse.{ended}
use xr_trading.Scheduler.Window.{duration_for_interval}
use xr_trading.Scheduler.Sessions.{
  ScheduledUsBar, earlier_of, bars_for_us_session, latest_eligible_us_bar,
}

pub data MarketState : Type 0 where
  market_open market_closed : MarketState

pub data FreshnessStatus : Type 0 where
  fresh delayed unknown not_applicable : FreshnessStatus

pub record UsFreshnessInput : Type 0 where
  pub observed_at : Instant
  pub interval : BarInterval
  pub close_delay : Duration
  pub last_closed_open_time : Option Instant

pub record UsFreshnessResult : Type 0 where
  pub market_state : MarketState
  pub freshness_status : FreshnessStatus
  pub data_delay_seconds : Option ℕ
  pub expected_open_time : Option Instant
  pub expected_close_time : Option Instant
  pub next_market_open_at : Option Instant

abbrev pub closed_result : Instant → UsFreshnessResult
closed_result next_open = record {
  market_state = market_closed;
  freshness_status = not_applicable;
  data_delay_seconds = none;
  expected_open_time = none;
  expected_close_time = none;
  next_market_open_at = some next_open;
}

abbrev pub unknown_result : UsFreshnessResult
unknown_result = record {
  market_state = market_open;
  freshness_status = unknown;
  data_delay_seconds = none;
  expected_open_time = none;
  expected_close_time = none;
  next_market_open_at = none;
}

-- The bar that opens at an instant.
unfoldable pub bar_at : Instant → List ScheduledUsBar → Result ScheduledUsBar
bar_at t [] = err (sentinel invalid_data)
bar_at t (b ∷ bs) = if b.opens_at == t then ok b else bar_at t bs

-- The session that a bar must lie in.
abbrev required : Option MarketSession → Result MarketSession
required none = err (sentinel invalid_data)
required (some s) = ok s

-- UTCDate; `utc_date` is the civil date that Go's time package has for an instant in UTC.
unfoldable pub utc_market_date : (Instant → MarketDate) → Instant → Result MarketDate
utc_market_date utc_date value = do
  refuse_if (is_zero value) invalid_data
  validate_date (utc_date value)
  ok (utc_date value)

module _ (utc_date : Instant → MarketDate) (calendar : TradingCalendar) where
  open calendar use {session_for_date, session_at, next_session}

  -- usBarForOpen
  unfoldable pub us_bar_for_open : BarInterval → Instant → Result ScheduledUsBar
  unfolding bar_at date_in_location utc_market_date
  us_bar_for_open interval open_at = do
    refuse_if (is_zero open_at) invalid_data
    date ← elim interval [
      | day1 ↦ utc_market_date utc_date open_at
      | hour1 ↦ date_in_location calendar.zone open_at
      | other ↦ date_in_location calendar.zone open_at
    ]
    found ← session_for_date date
    s ← required found
    bars ← bars_for_us_session s interval
    bar_at open_at bars

  -- The session at a moment of the sum, or the next one.
  unfoldable pub session_from : Instant → Result MarketSession
  session_from cursor = do
    active ← session_at cursor
    elim active [ some s ↦ ok s | none ↦ next_session cursor ]

  -- The part of a session between two instants; natural subtraction is zero where they are not in order.
  unfoldable pub share : MarketSession → Instant → Instant → ℕ
  share s cursor to =
      earlier_of to s.closes_at - (if ltb cursor s.opens_at then s.opens_at else cursor)

  -- The loop of regularTradingDuration, with the total so far; `none` is a loop that has not ended.
  unfoldable pub trading_loop : ℕ → ℕ → Instant → Instant → Option (Result ℕ)
  unfolding session_from
  trading_loop zero total cursor to = none
  trading_loop (suc n) total cursor to = elim (ltb cursor to) [
    | false ↦ some (ok total)
    | true ↦ elim (session_from cursor) [
      | err e ↦ some (err e)
      | ok s ↦ elim (ltb s.closes_at to) [
        | false ↦ some (ok (total + share s cursor to))
        | true ↦ trading_loop n (total + share s cursor to) s.closes_at to
      ]
    ]
  ]

  -- Every round moves the cursor to a later close.
  unfoldable pub regular_trading_duration : Instant → Instant → Option (Result ℕ)
  unfolding trading_loop
  regular_trading_duration from to = trading_loop (suc (to - from)) 0 from to

  abbrev pub open_result : ScheduledUsBar → FreshnessStatus → Option ℕ → UsFreshnessResult
  open_result expected status delay_seconds = record {
    market_state = market_open;
    freshness_status = status;
    data_delay_seconds = delay_seconds;
    expected_open_time = some expected.opens_at;
    expected_close_time = some expected.closes_at;
    next_market_open_at = none;
  }

  -- With an expected bar and the bar that was last closed.
  unfoldable pub compare_bars : Instant → ScheduledUsBar → ScheduledUsBar → Result UsFreshnessResult
  unfolding regular_trading_duration
  compare_bars observed_at expected actual = do
    refuse_if (ltb observed_at actual.closes_at) invalid_data
    elim (ltb actual.opens_at expected.opens_at) [
      | false ↦ ok (open_result expected fresh (some 0))
      | true ↦ ended (regular_trading_duration actual.closes_at expected.closes_at) >>= λ delay.
          ok (open_result expected delayed (some (delay / second)))
    ]

  -- While the market is open.
  unfoldable pub open_freshness : UsFreshnessInput → MarketSession → Result UsFreshnessResult
  unfolding latest_eligible_us_bar compare_bars us_bar_for_open
  open_freshness input s = do
    found ←
        ended (latest_eligible_us_bar calendar s input.interval input.observed_at input.close_delay)
    elim found [
      | none ↦ ok unknown_result
      | some expected ↦ elim input.last_closed_open_time [
        | none ↦ ok (open_result expected unknown none)
        | some last ↦ us_bar_for_open input.interval last >>= λ actual.
            compare_bars input.observed_at expected actual
      ]
    ]

  -- CalculateUSFreshness
  unfoldable pub calculate_us_freshness : UsFreshnessInput → Result UsFreshnessResult
  unfolding open_freshness
  calculate_us_freshness input = do
    refuse_if (is_zero input.observed_at) invalid_data
    refuse_if (ltz input.close_delay (pos 0)) invalid_data
    _ ← duration_for_interval input.interval
    current ← session_at input.observed_at
    elim current [
      | none ↦ next_session input.observed_at >>= λ next. ok (closed_result next.opens_at)
      | some s ↦ open_freshness input s
    ]
