-- ===== src/MarketTime/Samples.antt =====
-- The calendar around the Independence Day of 2026, five hours behind UTC.
use xr_trading.Base.{ℕ, zero, suc, ◌+◌, ◌-◌, ◌*◌, ◌/◌, ◌≡◌, refl, some, ℤ, pos}
use xr_trading.Domain.Errors.{Result, ok}
use xr_trading.Domain.Time.{Instant, hour, minute, day as day_length}
use xr_trading.MarketTime.Date.{MarketDate, next_day, previous_day, utc_midnight, new_market_date}
use xr_trading.MarketTime.Calendar.{
  MarketSession, Zone, Rules, on, official_nyse_rules, new_nyse_calendar, opens_after, closed_by,
  next_session, previous_session, date_in_location, session_for_date,
}
use xr_trading.MarketTime.Nyse.{IsCalendar, nyse, nyse-IsCalendar}
use xr_trading.MarketTime.Calendar.Walk.{Reaches, next_session-Reaches}

abbrev days_on : ℕ → MarketDate → MarketDate
days_on zero d = d
days_on (suc n) d = days_on n (next_day d)

abbrev minutes : ℤ → ℤ → ℕ
minutes (pos h) (pos m) = h * 60 + m
minutes _ _ = 0

-- Dates are right from the start of 2026 on.
abbrev pub zone : Zone
zone = record {
  date_at = λ t. days_on ((t - utc_midnight (on 2026 1 1) - 5 * hour) / day_length) (on 2026 1 1);
  instant_at = λ d h m. utc_midnight d + 5 * hour + minutes h m * minute;
}

-- 17:00 at the exchange on 2 July 2026, after the close; the 3rd is a holiday, then comes a weekend.
abbrev pub evening : Instant
evening = 63918626400000000000 + 9223372800000000000

local_evening : date_in_location zone evening ≡ ok (on 2026 7 2)
unfolding date_in_location xr_trading.MarketTime.Date.validate_date utc_midnight next_day
local_evening = refl

abbrev monday : MarketSession
monday = record {
  date = on 2026 7 6;
  opens_at = utc_midnight (on 2026 7 6) + 14 * hour + 30 * minute;
  closes_at = utc_midnight (on 2026 7 6) + 21 * hour;
}

opens_on_monday : next_session zone official_nyse_rules evening ≡ some (ok monday)
unfolding next_session xr_trading.MarketTime.Date.validate_date utc_midnight next_day
    session_for_date xr_trading.MarketTime.Date.is_weekend xr_trading.MarketTime.Calendar.rule_for
    xr_trading.MarketTime.Date.order
opens_on_monday = refl

next_session-Reaches_example :
    (r : Result MarketSession) × (next_session zone official_nyse_rules evening ≡ some r)
    × Reaches zone official_nyse_rules
        (opens_after zone official_nyse_rules evening)
        next_day
        (on 2026 7 2)
        r
next_session-Reaches_example =
    next_session-Reaches zone official_nyse_rules evening (on 2026 7 2) local_evening

nyse-IsCalendar_example : IsCalendar (nyse zone official_nyse_rules)
nyse-IsCalendar_example = nyse-IsCalendar zone official_nyse_rules
