-- ===== src/Scheduler/Samples.antt =====
-- The theorems of the scheduler at concrete windows.
use xr_trading.Base.{
  ℕ, ◌+◌, ◌*◌, ◌≤◌, ◌<◌, ◌≡◌, ◌↔◌, refl, true, none, some, List, [], ◌∷◌, arith, pos,
}
use xr_trading.Domain.Errors.{ok}
use xr_trading.Domain.Time.{Instant, hour}
use xr_trading.Domain.Interval.{hour1}
use xr_trading.Scheduler.Window.{
  WindowTrigger, close, ContinuousWindowRequest, CollectionWindow, duration_for_interval,
  calculate_continuous_window, calculate_latest_continuous_window,
}
use xr_trading.Scheduler.Window.Bounds.{IsDueWindow, calculate_continuous_window-IsDueWindow}
use xr_trading.Scheduler.CatchUp.{
  expected_continuous_windows, missing_window_groups, all_windows_present,
}
use xr_trading.Scheduler.CatchUp.Expected.{is_opened, expected_continuous_windows_complete}
use xr_trading.Scheduler.CatchUp.Groups.{IsGrouping, missing_window_groups-IsGrouping}

-- A request for hourly bars from the tenth hour on, five seconds after each close.
abbrev request : ContinuousWindowRequest
request = record {
  interval = hour1;
  trigger = close;
  next_open_time = 10 * hour;
  delay = pos 5000000000;
}

abbrev window : ℕ → ℕ → CollectionWindow
window first last = record {
  interval = hour1;
  trigger = close;
  range_start = first * hour;
  range_end = last * hour;
  eligible_at = last * hour + 5000000000;
}

hourly : duration_for_interval hour1 ≡ ok hour
unfolding duration_for_interval
hourly = refl

calculates : calculate_continuous_window request (13 * hour) ≡ ok (some (window 10 12))
unfolding calculate_continuous_window duration_for_interval xr_trading.Domain.Time.truncate
    xr_trading.Scheduler.Window.window_until
calculates = refl

waits : calculate_continuous_window request (11 * hour) ≡ ok none
unfolding calculate_continuous_window duration_for_interval xr_trading.Domain.Time.truncate
    xr_trading.Scheduler.Window.window_until
waits = refl

calculates_latest :
    calculate_latest_continuous_window hour1 close (13 * hour) (pos 5000000000)
    ≡ ok (some (window 11 12))
unfolding calculate_latest_continuous_window duration_for_interval calculate_continuous_window
    xr_trading.Domain.Time.truncate xr_trading.Scheduler.Window.window_until
calculates_latest = refl

calculate_continuous_window-IsDueWindow_example :
    IsDueWindow (10 * hour) hour 5000000000 (13 * hour) (window 10 12)
calculate_continuous_window-IsDueWindow_example =
    calculate_continuous_window-IsDueWindow request (13 * hour) hour 5000000000 {w = window 10 12}
      hourly refl (omega arith) calculates

abbrev tiles : List CollectionWindow
tiles = window 10 11 ∷ window 11 12 ∷ []

lists :
    expected_continuous_windows hour1 (10 * hour) (window 11 12) (pos 5000000000) (pos 0) ≡ ok tiles
unfolding expected_continuous_windows duration_for_interval
    xr_trading.Scheduler.CatchUp.continuous_loop xr_trading.Scheduler.CatchUp.first_open
    xr_trading.Domain.Time.truncate
lists = refl

expected_continuous_windows_complete_example :
    (is_opened tiles (11 * hour) ≡ true)
    ↔ ((10 * hour < 11 * hour + hour) × (11 * hour ≤ 11 * hour))
expected_continuous_windows_complete_example =
    expected_continuous_windows_complete hour1 hour (pos 5000000000) (10 * hour) (window 11 12)
      hourly {ws = tiles} (11 * hour) lists refl

missing_window_groups-IsGrouping_example :
    IsGrouping tiles (10 * hour ∷ []) 2 1 (missing_window_groups tiles (10 * hour ∷ []) 2 1)
missing_window_groups-IsGrouping_example =
    missing_window_groups-IsGrouping tiles (10 * hour ∷ []) 2 1 (omega arith)
