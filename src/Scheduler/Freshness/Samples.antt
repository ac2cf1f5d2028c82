-- ===== src/Scheduler/Freshness/Samples.antt =====
-- US sessions and freshness on 2 July 2026, with the calendar five hours behind UTC.
use xr_trading.Base.{◌+◌, ◌*◌, ◌≡◌, refl, some, none, List, [], ◌∷◌, pos}
use xr_trading.Domain.Errors.{ok}
use xr_trading.Domain.Time.{Instant, hour, minute}
use xr_trading.Domain.Interval.{hour1}
use xr_trading.MarketTime.Date.{MarketDate, utc_midnight}
use xr_trading.MarketTime.Calendar.{MarketSession, TradingCalendar, on, official_nyse_rules}
use xr_trading.MarketTime.Nyse.{nyse}
use xr_trading.MarketTime.Samples.{zone}
use xr_trading.Scheduler.Window.{CollectionWindow, close}
use xr_trading.Scheduler.Sessions.{ScheduledUsBar, bars_for_us_session, calculate_latest_us_window}
use xr_trading.Scheduler.Sessions.Tiling.{Tiles, bars_for_us_session-Tiles}
use xr_trading.Scheduler.Sessions.Latest.{IsNewest, calculate_latest_us_window-IsNewest}
use xr_trading.Scheduler.Freshness.{UsFreshnessInput, UsFreshnessResult, market_open, delayed}
use xr_trading.Scheduler.Freshness.Status.{Freshness}

abbrev calendar : TradingCalendar
calendar = nyse zone official_nyse_rules

abbrev midnight : Instant
midnight = utc_midnight (on 2026 7 2)

abbrev opening : Instant
opening = midnight + 14 * hour + 30 * minute

-- A session of an hour and a half.
abbrev short : MarketSession
short = record { date = on 2026 7 2; opens_at = opening; closes_at = opening + hour + 30 * minute }

abbrev short_bars : List ScheduledUsBar
short_bars =
    record { opens_at = opening; closes_at = opening + hour }
    ∷ record { opens_at = opening + hour; closes_at = opening + hour + 30 * minute }
    ∷ []

bars_of_short : bars_for_us_session short hour1 ≡ ok short_bars
unfolding bars_for_us_session xr_trading.MarketTime.Calendar.validate_session
    xr_trading.MarketTime.Date.validate_date utc_midnight
bars_of_short = refl

bars_for_us_session-Tiles_example : Tiles opening (opening + hour + 30 * minute) short_bars
bars_for_us_session-Tiles_example = bars_for_us_session-Tiles short short_bars bars_of_short

-- Twenty minutes into the second hour, with a delay of a minute.
abbrev observed : Instant
observed = opening + 80 * minute

abbrev window : CollectionWindow
window = record {
  interval = hour1;
  trigger = close;
  range_start = opening;
  range_end = opening + hour;
  eligible_at = opening + hour + minute;
}

plans : calculate_latest_us_window calendar hour1 close observed (pos minute) ≡ ok (some window)
unfolding calculate_latest_us_window utc_midnight xr_trading.Scheduler.Window.duration_for_interval
    xr_trading.MarketTime.Date.validate_date xr_trading.MarketTime.Date.next_day
    xr_trading.MarketTime.Calendar.session_for_date xr_trading.MarketTime.Date.is_weekend
    xr_trading.MarketTime.Calendar.rule_for
plans = refl

calculate_latest_us_window-IsNewest_example :
    IsNewest calendar hour1 close observed (pos minute) window
calculate_latest_us_window-IsNewest_example =
    calculate_latest_us_window-IsNewest calendar hour1 close observed (pos minute) window plans

-- The last closed bar is the last one of the day before: one hour of trading is missing.
abbrev input : UsFreshnessInput
input = record {
  observed_at = observed;
  interval = hour1;
  close_delay = pos minute;
  last_closed_open_time = some (utc_midnight (on 2026 7 1) + 20 * hour + 30 * minute);
}

abbrev result : UsFreshnessResult
result = record {
  market_state = market_open;
  freshness_status = delayed;
  data_delay_seconds = some 3600;
  expected_open_time = some opening;
  expected_close_time = some (opening + hour);
  next_market_open_at = none;
}
