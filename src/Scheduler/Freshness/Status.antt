-- ===== src/Scheduler/Freshness/Status.antt =====
-- What a freshness result says.
use xr_trading.Base.{ℕ, ◌-◌, ◌*◌, ◌≡◌, Option, none, some, ◌<◌, ◌≤◌}
use xr_trading.Domain.Errors.{ok}
use xr_trading.Domain.Time.{Instant, second, add}
use xr_trading.MarketTime.Date.{MarketDate}
use xr_trading.MarketTime.Calendar.{MarketSession, TradingCalendar}
use xr_trading.Scheduler.Sessions.{ScheduledUsBar}
use xr_trading.Scheduler.Sessions.Latest.{Finds, Lacks}
use xr_trading.Scheduler.Freshness.{
  UsFreshnessInput, UsFreshnessResult, FreshnessStatus, fresh, delayed, unknown, closed_result,
  unknown_result, open_result, us_bar_for_open,
}

module _ (utc_date : Instant → MarketDate) (calendar : TradingCalendar) where
  open calendar use {session_at, next_session}

  -- The status of an expected bar, given the open time of the last closed one: the status and the delay.
  pub data Status (input : UsFreshnessInput) (expected : ScheduledUsBar)
      : FreshnessStatus → Option ℕ → Type 0 where
    unmeasured : input.last_closed_open_time ≡ none → Status input expected unknown none
    caught_up :
        {last : Instant} (actual : ScheduledUsBar)
        → input.last_closed_open_time ≡ some last
        → us_bar_for_open utc_date calendar input.interval last ≡ ok actual
        → actual.closes_at ≤ input.observed_at
        → expected.opens_at ≤ actual.opens_at
        → Status input expected fresh (some 0)
    behind :
        {last : Instant} (actual : ScheduledUsBar) (seconds : ℕ)
        → input.last_closed_open_time ≡ some last
        → us_bar_for_open utc_date calendar input.interval last ≡ ok actual
        → actual.closes_at ≤ input.observed_at
        → actual.opens_at < expected.opens_at
        → seconds * second ≤ expected.closes_at - actual.closes_at
        → Status input expected delayed (some seconds)

  -- The whole result.
  pub data Freshness (input : UsFreshnessInput) : UsFreshnessResult → Type 0 where
    shut :
        (next_open : Instant)
        → session_at input.observed_at ≡ ok none
        → input.observed_at < next_open
        → Freshness input (closed_result next_open)
    unexpected :
        {s : MarketSession}
        → session_at input.observed_at ≡ ok (some s)
        → Lacks calendar input.interval input.observed_at input.close_delay s
        → Freshness input unknown_result
    expects :
        {s : MarketSession} {expected : ScheduledUsBar} {status : FreshnessStatus}
        {seconds : Option ℕ}
        → session_at input.observed_at ≡ ok (some s)
        → Finds calendar input.interval input.observed_at input.close_delay s expected
        → add expected.closes_at input.close_delay ≤ input.observed_at
        → Status input expected status seconds
        → Freshness input (open_result utc_date calendar expected status seconds)
