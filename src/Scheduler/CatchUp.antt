-- ===== src/Scheduler/CatchUp.antt =====
-- scheduler/catchup.go: the bars that should exist on a 7x24 axis, and the grouping of those that
-- are missing into bounded task ranges.
pub mod Expected
pub mod Runs
pub mod Groups
use xr_trading.Base.{
  ℕ, zero, suc, ◌+◌, ◌-◌, ◌/◌, Bool, true, false, not, ◌&&◌, ◌||◌, List, [], ◌∷◌, ◌++◌, ltb, ◌==◌,
  ℤ, pos, ltz, if◌then◌else◌, length,
}
use xr_trading.Domain.Errors.{Result, ok, ◌>>=◌}
use xr_trading.Domain.Time.{Instant, Duration, add, truncate}
use xr_trading.Domain.Interval.{BarInterval}
use xr_trading.Scheduler.Window.{CollectionWindow, close, duration_for_interval}

-- The window of one bar.
abbrev pub close_window : BarInterval → Duration → Instant → Instant → CollectionWindow
close_window interval delay open_at close_at = record {
  interval = interval;
  trigger = close;
  range_start = open_at;
  range_end = close_at;
  eligible_at = add close_at delay;
}

-- The loop of expectedContinuousWindows: it goes on while the limit, if there is one, is not
-- reached and the open time is not after the latest window's.
unfoldable pub continuous_loop :
    ℕ
    → (interval : BarInterval) (duration : ℕ) (delay : Duration) (limit : ℤ) (latest : Instant)
    → Instant
    → List CollectionWindow
    → List CollectionWindow
continuous_loop zero interval duration delay limit latest open_at windows = windows
continuous_loop (suc fuel) interval duration delay limit latest open_at windows =
    elim ((not (ltz (pos 0) limit) || ltz (pos (length windows)) limit)
      && not (ltb latest open_at)) [
        | true ↦
            continuous_loop fuel interval duration delay limit latest (open_at + duration)
              (windows ++ close_window interval delay open_at (open_at + duration) ∷ [])
        | false ↦ windows
      ]

-- The open time of the first bar that closes after the boundary.
unfoldable pub first_open : ℕ → Instant → Instant
first_open duration boundary =
    let open_at = truncate boundary duration in
    if not (ltb boundary (open_at + duration)) then open_at + duration else open_at

unfoldable pub expected_continuous_windows :
    BarInterval → Instant → CollectionWindow → Duration → ℤ → Result (List CollectionWindow)
expected_continuous_windows interval boundary latest delay limit = do
  duration ← duration_for_interval interval
  let open_at = first_open duration boundary
  ok (
      continuous_loop (suc (suc ((latest.range_start - open_at) / duration))) interval duration
        delay limit latest.range_start open_at [])

-- `_, ok := present[open]`
unfoldable pub is_present : List Instant → Instant → Bool
is_present [] open_at = false
is_present (t ∷ ts) open_at = t == open_at || is_present ts open_at

-- The inner loop of missingWindowGroups, with `room` more bars before the group is full: the group,
-- and the candidates behind it.
unfoldable pub extend_group :
    List Instant
    → ℕ
    → CollectionWindow
    → List CollectionWindow
    → CollectionWindow × List CollectionWindow
extend_group existing room group [] = (group, [])
extend_group existing zero group (c ∷ cs) = (group, c ∷ cs)
extend_group existing (suc room) group (c ∷ cs) =
    if is_present existing c.range_start
    then (group, c ∷ cs)
    else extend_group existing room
        (record group { range_end = c.range_end; eligible_at = c.eligible_at }) cs

-- The outer loop, with room for so many more groups. Each round drops a candidate.
unfoldable pub group_loop : ℕ → List Instant → ℕ → ℕ → List CollectionWindow → List CollectionWindow
group_loop fuel existing maximum_bars zero candidates = []
group_loop zero existing maximum_bars (suc groups) candidates = []
group_loop (suc fuel) existing maximum_bars (suc groups) [] = []
group_loop (suc fuel) existing maximum_bars (suc groups) (c ∷ cs) =
    elim (is_present existing c.range_start) [
      | true ↦ group_loop fuel existing maximum_bars (suc groups) cs
      | false ↦
          let (group, rest) = extend_group existing (maximum_bars - 1) c cs in
          group ∷ group_loop fuel existing maximum_bars groups rest
    ]

unfoldable pub missing_window_groups :
    List CollectionWindow → List Instant → ℕ → ℕ → List CollectionWindow
missing_window_groups candidates existing maximum_bars maximum_groups =
    group_loop (length candidates) existing maximum_bars maximum_groups candidates

unfoldable pub all_windows_present : List CollectionWindow → List Instant → Bool
all_windows_present [] existing = true
all_windows_present (c ∷ cs) existing =
    if not (is_present existing c.range_start) then false else all_windows_present cs existing
