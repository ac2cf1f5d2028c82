-- ===== src/Scheduler/Sessions.antt =====
-- The bars of the US regular sessions in scheduler/freshness.go. The calendar is a parameter; the loops have fuel,
-- and a loop that has not ended by then is `none`.
pub mod Tiling
pub mod Latest
use xr_trading.Base.{
  ℕ, zero, suc, ◌+◌, ◌-◌, Bool, true, false, not, ◌||◌, Option, none, some, List, [], ◌∷◌, ltb,
  ◌==◌, pos, ltz, if◌then◌else◌,
}
use xr_trading.Domain.Errors.{
  Error, Result, ok, err, sentinel, refuse_if, errors_is, ◌>>=◌, ◌>>◌, invalid_data,
  calendar_out_of_range,
}
use xr_trading.Domain.Time.{Instant, Duration, hour, is_zero, add}
use xr_trading.Domain.Interval.{BarInterval, hour1, day1, other}
use xr_trading.MarketTime.Date.{MarketDate, utc_midnight}
use xr_trading.MarketTime.Calendar.{
  MarketSession, TradingCalendar, validate_session, date_in_location,
}
use xr_trading.MarketTime.Nyse.{ended}
use xr_trading.Scheduler.Window.{
  CollectionWindow, WindowTrigger, is_supported, duration_for_interval,
}

pub record ScheduledUsBar : Type 0 where
  pub opens_at : Instant
  pub closes_at : Instant

-- `if closeAt.After(session.Close) { closeAt = session.Close }`
abbrev pub earlier_of : Instant → Instant → Instant
earlier_of a b = if ltb b a then b else a

-- The loop over the hours of a session, with so many rounds.
unfoldable pub hour_bars : ℕ → Instant → Instant → List ScheduledUsBar
hour_bars zero close open_at = []
hour_bars (suc n) close open_at = elim (ltb open_at close) [
  | true ↦
      let close_at = earlier_of (open_at + hour) close in
      record { opens_at = open_at; closes_at = close_at } ∷ hour_bars n close close_at
  | false ↦ []
]

unfoldable pub bars_for_us_session : MarketSession → BarInterval → Result (List ScheduledUsBar)
unfolding hour_bars
bars_for_us_session s interval = do
  validate_session s
  elim interval [
    | day1 ↦ ok (record { opens_at = utc_midnight s.date; closes_at = s.closes_at } ∷ [])
    | hour1 ↦ ok (hour_bars (s.closes_at - s.opens_at) s.closes_at s.opens_at)
    | other ↦ err (sentinel invalid_data)
  ]

-- `!bars[index].close.Add(delay).After(observedAt)`
abbrev pub is_due : Instant → Duration → ScheduledUsBar → Bool
is_due observed_at delay bar = not (ltb observed_at (add bar.closes_at delay))

-- The loop over a session's bars from the last one down.
unfoldable pub last_due : Instant → Duration → List ScheduledUsBar → Option ScheduledUsBar
last_due observed_at delay [] = none
last_due observed_at delay (b ∷ bs) = elim (last_due observed_at delay bs) [
  | some found ↦ some found
  | none ↦ if is_due observed_at delay b then some b else none
]

-- A call of the calendar that leads out of its range ends the search without a bar.
abbrev pub unless_out_of_range {ℓ} : {A : Type ℓ} → Error → Result (Option A)
unless_out_of_range e = if errors_is e calendar_out_of_range then ok none else err e

module _ (calendar : TradingCalendar) where
  open calendar use {session_for_date, previous_session}

  unfoldable pub search_sessions :
      ℕ → MarketSession → BarInterval → Instant → Duration → Option (Result (Option ScheduledUsBar))
  unfolding last_due bars_for_us_session
  search_sessions zero s interval observed_at delay = none
  search_sessions (suc n) s interval observed_at delay = elim (bars_for_us_session s interval) [
    | err e ↦ some (err e)
    | ok bars ↦ elim (last_due observed_at delay bars) [
      | some bar ↦ some (ok (some bar))
      | none ↦ elim (previous_session s.opens_at) [
        | err e ↦ some (unless_out_of_range e)
        | ok previous ↦ search_sessions n previous interval observed_at delay
      ]
    ]
  ]

  -- Sessions back from one: each opens before the one after it, so there are fewer than its open time.
  unfoldable pub latest_eligible_us_bar :
      MarketSession → BarInterval → Instant → Duration → Option (Result (Option ScheduledUsBar))
  unfolding search_sessions
  latest_eligible_us_bar s interval observed_at delay =
      search_sessions (suc s.opens_at) s interval observed_at delay

  -- The session to start from: today's once it has opened, else the one before.
  unfoldable pub starting_session : Instant → Result (Option MarketSession)
  unfolding date_in_location
  starting_session observed_at = do
    date ← date_in_location calendar.zone observed_at
    found ← session_for_date date
    let previous : Result (Option MarketSession) = elim (previous_session observed_at) [
      | err e ↦ unless_out_of_range e
      | ok s ↦ ok (some s)
    ]
    elim found [
      | none ↦ previous
      | some s ↦ if ltb observed_at s.opens_at then previous else ok (some s)
    ]

  abbrev pub us_window : BarInterval → WindowTrigger → Duration → ScheduledUsBar → CollectionWindow
  us_window interval trigger delay bar = record {
    interval = interval;
    trigger = trigger;
    range_start = bar.opens_at;
    range_end = bar.closes_at;
    eligible_at = add bar.closes_at delay;
  }

  -- The end of CalculateLatestUSWindow, from a session on.
  unfoldable pub window_from :
      Option MarketSession
      → BarInterval
      → WindowTrigger
      → Instant
      → Duration
      → Result (Option CollectionWindow)
  unfolding latest_eligible_us_bar
  window_from none interval trigger observed_at delay = ok none
  window_from (some s) interval trigger observed_at delay = do
    found ← ended (latest_eligible_us_bar s interval observed_at delay)
    elim found [ none ↦ ok none | some bar ↦ ok (some (us_window interval trigger delay bar)) ]

  -- CalculateLatestUSWindow
  unfoldable pub calculate_latest_us_window :
      BarInterval → WindowTrigger → Instant → Duration → Result (Option CollectionWindow)
  unfolding starting_session window_from
  calculate_latest_us_window interval trigger observed_at delay = do
    refuse_if (is_zero observed_at || ltz delay (pos 0) || not (is_supported trigger)) invalid_data
    _ ← duration_for_interval interval
    start ← starting_session observed_at
    window_from start interval trigger observed_at delay
