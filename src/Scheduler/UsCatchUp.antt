-- ===== src/Scheduler/UsCatchUp.antt =====
-- expectedUSWindows, barForOpen and validateCheckpoint of scheduler/catchup.go, over any calendar.
pub mod Expected
use xr_trading.Base.{
  ℕ, zero, suc, ◌+◌, ◌-◌, Bool, true, false, not, ◌&&◌, ◌||◌, Option, none, some, List, [], ◌∷◌,
  ◌++◌, ltb, ◌==◌, ℤ, pos, ltz, if◌then◌else◌, length,
}
use xr_trading.Domain.Errors.{
  Error, Result, ok, err, sentinel, refuse_if, ◌>>=◌, ◌>>◌, invalid_data,
}
use xr_trading.Domain.Time.{Instant, Duration, truncate, add, is_zero}
use xr_trading.Domain.Interval.{BarInterval, parse_bar_interval}
use xr_trading.Domain.Task.{Uuid, IngestionCheckpoint}
use xr_trading.MarketTime.Date.{MarketDate, validate_date, next_day, order}
use xr_trading.MarketTime.Calendar.{MarketSession, TradingCalendar, date_in_location}
use xr_trading.MarketTime.Nyse.{ended}
use xr_trading.Scheduler.Window.{CollectionWindow, duration_for_interval}
use xr_trading.Scheduler.CatchUp.{close_window, expected_continuous_windows}
use xr_trading.Scheduler.Sessions.{ScheduledUsBar, bars_for_us_session}
use xr_trading.Scheduler.Freshness.{us_bar_for_open}
use xr_trading.Scheduler.Targets.{SchedulingTarget, scheduling_market, continuous, us_regular}

-- `bar.close.After(boundary) && !bar.open.After(latest.RangeStart)`
abbrev pub is_expected : Instant → Instant → ScheduledUsBar → Bool
is_expected boundary latest bar = ltb boundary bar.closes_at && not (ltb latest bar.opens_at)

-- `limit <= 0 || len(windows) < limit`
abbrev pub has_room : ℤ → List CollectionWindow → Bool
has_room limit windows = not (ltz (pos 0) limit) || ltz (pos (length windows)) limit

-- The loop over the bars of a session: it adds a window, and stops when the limit is reached.
unfoldable pub session_windows :
    BarInterval
    → Instant
    → Instant
    → Duration
    → ℤ
    → List CollectionWindow
    → List ScheduledUsBar
    → List CollectionWindow
session_windows interval boundary latest delay limit windows [] = windows
session_windows interval boundary latest delay limit windows (b ∷ bs) =
    elim (is_expected boundary latest b && has_room limit windows) [
      | true ↦
          session_windows interval boundary latest delay limit
            (windows ++ close_window interval delay b.opens_at b.closes_at ∷ []) bs
      | false ↦ session_windows interval boundary latest delay limit windows bs
    ]

-- sessionDateBefore
abbrev pub is_before_date : MarketDate → MarketDate → Bool
is_before_date a b =
    ltb a.year b.year
    || a.year == b.year && (ltb a.month b.month || a.month == b.month && ltb a.day b.day)

module _ (calendar : TradingCalendar) where
  open calendar use {zone, session_for_date}

  -- The windows of one date, behind those that were found before.
  unfoldable pub date_windows :
      BarInterval
      → Instant
      → Instant
      → Duration
      → ℤ
      → MarketDate
      → List CollectionWindow
      → Result (List CollectionWindow)
  unfolding session_windows bars_for_us_session
  date_windows interval boundary latest delay limit d windows = do
    found ← session_for_date d
    elim found [
      | none ↦ ok windows
      | some s ↦ bars_for_us_session s interval >>= λ bars.
          ok (session_windows interval boundary latest delay limit windows bars)
    ]

  -- The loop over the dates; `none` is a loop that has not ended. The date behind the last one is `end`.
  unfoldable pub date_loop :
      ℕ
      → BarInterval
      → Instant
      → Instant
      → Duration
      → ℤ
      → (end : MarketDate) → MarketDate
      → List CollectionWindow
      → Option (Result (List CollectionWindow))
  unfolding date_windows
  date_loop zero interval boundary latest delay limit end d windows = none
  date_loop (suc n) interval boundary latest delay limit end d windows =
      elim (has_room limit windows) [
        | false ↦ some (ok windows)
        | true ↦ elim (date_windows interval boundary latest delay limit d windows) [
          | err e ↦ some (err e)
          | ok more ↦ elim (is_before_date d end) [
            | false ↦ some (ok more)
            | true ↦ elim (validate_date (next_day d)) [
              | err e ↦ some (err e)
              | ok _ ↦ date_loop n interval boundary latest delay limit end (next_day d) more
            ]
          ]
        ]
      ]

  -- A date for each round, up to the exchange's date of the latest window's end.
  unfoldable pub expected_us_windows :
      BarInterval
      → Instant
      → CollectionWindow
      → Duration
      → ℤ
      → Option (Result (List CollectionWindow))
  unfolding date_loop date_in_location
  expected_us_windows interval boundary latest delay limit = elim (date_in_location zone boundary) [
    | err e ↦ some (err e)
    | ok d ↦
        let end = zone.date_at latest.range_end in
        date_loop (suc (order end - order d)) interval boundary latest.range_start delay limit end d
          []
  ]

  -- expectedCloseWindowsUntil
  unfoldable pub expected_close_windows :
      SchedulingTarget → Instant → CollectionWindow → Duration → Result (List CollectionWindow)
  unfolding expected_continuous_windows expected_us_windows parse_bar_interval scheduling_market
  expected_close_windows target boundary latest delay = do
    interval ← parse_bar_interval target.subscription.interval
    market ← scheduling_market target
    elim market [
      | continuous ↦ expected_continuous_windows interval boundary latest delay (pos 0)
      | us_regular ↦ ended (expected_us_windows interval boundary latest delay (pos 0))
    ]

  -- IncrementalScheduler.barForOpen
  unfoldable pub bar_for_open :
      (Instant → MarketDate) → SchedulingTarget → Instant → Result ScheduledUsBar
  unfolding parse_bar_interval scheduling_market us_bar_for_open duration_for_interval
  bar_for_open utc_date target open_at = do
    interval ← parse_bar_interval target.subscription.interval
    market ← scheduling_market target
    elim market [
      | us_regular ↦ us_bar_for_open utc_date calendar interval open_at
      | continuous ↦ duration_for_interval interval >>= λ duration.
          refuse_if (not (open_at == truncate open_at duration)) invalid_data
          >> ok (record { opens_at = open_at; closes_at = open_at + duration })
    ]

abbrev is_zero_time : Option Instant → Bool
is_zero_time none = false
is_zero_time (some t) = is_zero t

-- validateCheckpoint; the count of failures is a natural.
unfoldable pub validate_checkpoint : Uuid → IngestionCheckpoint → Result (Unit {0})
validate_checkpoint subscription_id c =
    refuse_if
      (not (c.subscription_id == subscription_id)
        || is_zero c.updated_at
        || is_zero_time c.last_closed_open_time)
      invalid_data
