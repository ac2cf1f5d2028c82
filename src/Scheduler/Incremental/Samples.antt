-- ===== src/Scheduler/Incremental/Samples.antt =====
-- One scan of a store with one subscription, and the catch-up of a US market over a weekend.
use xr_trading.Base.{ℕ, ◌+◌, ◌*◌, ◌^◌, ◌≡◌, refl, Bool, true, none, some, List, [], ◌∷◌, All, pos}
use xr_trading.Domain.Errors.{Result, ok}
use xr_trading.Domain.Time.{Instant, hour, minute}
use xr_trading.Domain.Interval.{day1}
use xr_trading.MarketTime.Date.{utc_midnight, validate_date}
use xr_trading.MarketTime.Calendar.{TradingCalendar, on, official_nyse_rules}
use xr_trading.MarketTime.Nyse.{nyse}
use xr_trading.MarketTime.Samples.{zone}
use xr_trading.Scheduler.Window.{CollectionWindow, close}
use xr_trading.Scheduler.CatchUp.{close_window}
use xr_trading.Scheduler.Batches.Samples.{texts, target}
use xr_trading.Scheduler.UsCatchUp.{expected_us_windows}
use xr_trading.Scheduler.UsCatchUp.Expected.{IsWanted, expected_us_windows-IsWanted}
use xr_trading.Scheduler.Incremental.{IncrementalStore, IncrementalResult, no_result, run_once}
use xr_trading.Scheduler.Incremental.Counts.{IsNear, IsBalanced, run_once-IsNear}

abbrev calendar : TradingCalendar
calendar = nyse zone official_nyse_rules

-- The state counts the IDs; every run is new.
abbrev store : IncrementalStore
store = record {
  State = ℕ;
  calendar = calendar;
  utc_date = λ _. on 2026 7 1;
  texts = texts;
  page_size = 50;
  maximum_attempts = 5;
  maximum_catch_up_bars = 500;
  maximum_catch_up_runs = 20;
  now = λ s. (ok (3 * hour + 2 * minute), s);
  new_id = λ s. (ok (7 * 2 ^ 76 + s), s + 1);
  list_scheduling_targets =
      λ after size t s. (ok (record { items = target ∷ []; next_after_id = none }), s);
  load_scheduling_checkpoint = λ id s. (ok none, s);
  list_closed_bar_open_times = λ t from to s. (ok (hour ∷ []), s);
  create_scheduled_batch = λ batch s. (ok true, s);
  recover_expired_tasks = λ t s. (ok 0, s);
}

-- The bars of the first and the third hour are missing.
abbrev counted : IncrementalResult
counted = record no_result { scanned_subscriptions = 1; due_windows = 2; created_runs = 2 }

scans : run_once store 1 (no_result, 1) ≡ (ok true, (counted, 5))
unfolding run_once xr_trading.Ingestion.Action.continue xr_trading.Domain.Text.is_padded
    xr_trading.Scheduler.Window.seconds_duration
    xr_trading.Scheduler.Window.calculate_latest_continuous_window
    xr_trading.Scheduler.Window.calculate_continuous_window xr_trading.Domain.Time.truncate
    xr_trading.Scheduler.Window.window_until xr_trading.Scheduler.CatchUp.continuous_loop
    xr_trading.Scheduler.CatchUp.first_open xr_trading.Scheduler.CatchUp.group_loop
    xr_trading.Scheduler.CatchUp.is_present xr_trading.Scheduler.CatchUp.extend_group
scans = refl

run_once-IsNear_example :
    IsNear (run_once store 1 (no_result, 1)).1.0
    × ((ended : Bool)
        → (run_once store 1 (no_result, 1)).0 ≡ ok ended
        → IsBalanced (run_once store 1 (no_result, 1)).1.0)
run_once-IsNear_example = run_once-IsNear store 1 1

-- The daily bars from the start of 2 July on, up to that of 6 July.
abbrev latest : CollectionWindow
latest =
    close_window day1 (pos minute) (utc_midnight (on 2026 7 6))
      (utc_midnight (on 2026 7 6) + 21 * hour)

local_end : validate_date (zone.date_at latest.range_end) ≡ ok tt
unfolding validate_date utc_midnight xr_trading.MarketTime.Date.next_day
local_end = refl

expected_us_windows-IsWanted_example :
    (r : Result (List CollectionWindow)) × (expected_us_windows calendar day1
        (utc_midnight (on 2026 7 2))
        latest
        (pos minute)
        (pos 0)
      ≡ some r)
    × ((found : List CollectionWindow)
        → r ≡ ok found
        → All
            (IsWanted calendar day1
              (utc_midnight (on 2026 7 2))
              (utc_midnight (on 2026 7 6))
              (pos minute))
            found)
expected_us_windows-IsWanted_example =
    expected_us_windows-IsWanted calendar day1 (utc_midnight (on 2026 7 2)) latest (pos minute)
      (pos 0) local_end
