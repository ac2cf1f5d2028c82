-- ===== src/Scheduler/Window.antt =====
-- scheduler/window.go: the delay policy and the collection windows of a market that never closes.
pub mod Bounds
use xr_trading.Base.{
  ℕ, ◌+◌, ◌-◌, ◌*◌, Bool, true, false, not, ◌||◌, Option, none, some, ltb, ◌==◌, ℤ, pos, negsuc,
  ltz, if◌then◌else◌,
}
use xr_trading.Domain.Errors.{Result, ok, err, sentinel, invalid_data, refuse_if, ◌>>=◌, ◌>>◌}
use xr_trading.Domain.Time.{Instant, Duration, second, hour, day, is_zero, add, truncate}
use xr_trading.Domain.Interval.{BarInterval, hour1, day1, other, parse_bar_interval}

-- A WindowTrigger is a string; `unsupported` stands for any but the two constants.
pub data WindowTrigger : Type 0 where
  close revision unsupported : WindowTrigger

pub record DelayPolicy : Type 0 where
  pub close_delay : Duration
  pub revision_delay : Option Duration

pub record ContinuousWindowRequest : Type 0 where
  pub interval : BarInterval
  pub trigger : WindowTrigger
  pub next_open_time : Instant
  pub delay : Duration

pub record CollectionWindow : Type 0 where
  pub interval : BarInterval
  pub trigger : WindowTrigger
  pub range_start : Instant
  pub range_end : Instant
  pub eligible_at : Instant

-- int64((1<<63 - 1) / time.Second)
abbrev max_seconds : ℤ
max_seconds = pos 9223372036

unfoldable pub seconds_duration : ℤ → Result Duration
seconds_duration (negsuc n) = err (sentinel invalid_data)
seconds_duration (pos n) =
    if ltz max_seconds (pos n) then err (sentinel invalid_data) else ok (pos (n * second))

unfoldable pub new_delay_policy : ℤ → Option ℤ → Result DelayPolicy
new_delay_policy close_seconds revision_seconds = do
  close_delay ← seconds_duration close_seconds
  elim revision_seconds [
    | none ↦ ok (record { close_delay = close_delay; revision_delay = none })
    | some s ↦ seconds_duration s >>= λ d.
        ok (record { close_delay = close_delay; revision_delay = some d })
  ]

-- The delay, and whether the trigger is enabled.
unfoldable pub delay_of : DelayPolicy → WindowTrigger → Result (Duration × Bool)
delay_of policy close =
    if ltz policy.close_delay (pos 0)
    then err (sentinel invalid_data)
    else ok (policy.close_delay, true)
delay_of policy revision = elim policy.revision_delay [
  | none ↦ ok (pos 0, false)
  | some d ↦ if ltz d (pos 0) then err (sentinel invalid_data) else ok (d, true)
]
delay_of policy unsupported = err (sentinel invalid_data)

unfoldable pub duration_for_interval : BarInterval → Result ℕ
unfolding parse_bar_interval
duration_for_interval interval = do
  _ ← parse_bar_interval interval
  elim interval [ hour1 ↦ ok hour | day1 ↦ ok day | other ↦ err (sentinel invalid_data) ]

abbrev pub is_supported : WindowTrigger → Bool
is_supported close = true
is_supported revision = true
is_supported unsupported = false

-- `-request.Delay`, after the guard against a negative delay
abbrev pub negated : Duration → Duration
negated (pos ℕ.zero) = pos 0
negated (pos (ℕ.suc n)) = negsuc n
negated (negsuc n) = pos (n + 1)

unfoldable pub window_until : ContinuousWindowRequest → Instant → ℕ → Option CollectionWindow
window_until request observed_at interval_duration =
    let latest_eligible_end =
      truncate (add observed_at (negated request.delay)) interval_duration in
    if not (ltb request.next_open_time latest_eligible_end)
    then none
    else some (record {
      interval = request.interval;
      trigger = request.trigger;
      range_start = request.next_open_time;
      range_end = latest_eligible_end;
      eligible_at = add latest_eligible_end request.delay;
    })

-- CalculateContinuousWindow
unfoldable pub calculate_continuous_window :
    ContinuousWindowRequest → Instant → Result (Option CollectionWindow)
calculate_continuous_window request observed_at = do
  interval_duration ← duration_for_interval request.interval
  refuse_if (not (is_supported request.trigger)) invalid_data
  refuse_if (is_zero observed_at) invalid_data
  refuse_if (is_zero request.next_open_time) invalid_data
  refuse_if (ltz request.delay (pos 0)) invalid_data
  refuse_if (not (request.next_open_time == truncate request.next_open_time interval_duration))
      invalid_data
  ok (window_until request observed_at interval_duration)

-- CalculateLatestContinuousWindow
unfoldable pub calculate_latest_continuous_window :
    BarInterval → WindowTrigger → Instant → Duration → Result (Option CollectionWindow)
calculate_latest_continuous_window interval trigger observed_at delay = do
  duration ← duration_for_interval interval
  refuse_if (is_zero observed_at || ltz delay (pos 0) || not (is_supported trigger)) invalid_data
  let latest_end = truncate (add observed_at (negated delay)) duration
  calculate_continuous_window
      (record {
        interval = interval;
        trigger = trigger;
        next_open_time = latest_end - duration;
        delay = delay;
      })
      observed_at
