-- ===== src/Scheduler/Window/Bounds.antt =====
-- Which window the calculators of scheduler/window.go return.
use xr_trading.Base.{
  ℕ, zero, suc, ◌+◌, ◌-◌, ◌%◌, ◌≤◌, ◌<◌, ◌≡◌, refl, ◌⊎◌, inl, inr, ℤ-cases, Option, none, some, pos,
  arith, true, ◌≢◌, ◌↔◌,
}
use xr_trading.Domain.Errors.{ok, err, sentinel, invalid_data}
use xr_trading.Domain.Time.{add, truncate, zero_time}
use xr_trading.Domain.Time.Truncate.{
  truncate-le, lt-truncate, truncate-mod, truncate_multiple, le-truncate,
}
use xr_trading.Domain.Interval.{BarInterval}
use xr_trading.Scheduler.Window.{
  WindowTrigger, ContinuousWindowRequest, CollectionWindow, window_until, negated,
  duration_for_interval, is_supported, calculate_continuous_window,
  calculate_latest_continuous_window,
}

pub duration_positive : (i : BarInterval) {d : ℕ} → duration_for_interval i ≡ ok d → 0 < d
unfolding duration_for_interval
duration_positive i h = ground arith

add-negated : (t n : ℕ) → add t (negated (pos n)) ≡ t - n
add-negated t zero = omega arith
add-negated t (suc n) = refl

-- A window of whole bars from the next open time on that were all due, while the bar behind it
-- was not.
pub record IsDueWindow (next_open duration delay observed_at : ℕ) (w : CollectionWindow)
    : Type 0 where
  pub starts : w.range_start ≡ next_open
  pub nonempty : next_open < w.range_end
  pub aligned : w.range_end % duration ≡ 0
  pub eligible : w.eligible_at ≡ w.range_end + delay
  pub due : w.range_end + delay ≤ observed_at
  pub newest : observed_at < w.range_end + duration + delay

module _ (r : ContinuousWindowRequest) (observed_at d n : ℕ)
    (duration : duration_for_interval r.interval ≡ ok d) (delayed : r.delay ≡ pos n) where
  calculated :
      {o : Option CollectionWindow}
      → calculate_continuous_window r observed_at ≡ ok o
      → window_until r observed_at d ≡ o
  unfolding calculate_continuous_window
  calculated h = ground (arith, duration)

  end_lem : truncate (add observed_at (negated r.delay)) d ≡ truncate (observed_at - n) d
  end_lem = rw delayed (rw add-negated refl)

  window_until-IsDueWindow :
      {w : CollectionWindow}
      → n ≤ observed_at
      → window_until r observed_at d ≡ some w
      → IsDueWindow r.next_open_time d n observed_at w
  unfolding window_until
  window_until-IsDueWindow le h = ground (
    arith,
    end_lem,
    delayed,
    truncate-le (observed_at - n) d,
    lt-truncate (observed_at - n) d (duration_positive r.interval duration),
    truncate-mod (observed_at - n) d,
  )

  window_until-none :
      n ≤ observed_at → window_until r observed_at d ≡ none → observed_at < r.next_open_time + d + n
  unfolding window_until
  window_until-none le h = ground (
    arith,
    end_lem,
    delayed,
    lt-truncate (observed_at - n) d (duration_positive r.interval duration),
  )

-- A window that CalculateContinuousWindow returns starts at the requested open time, ends on an
-- interval boundary after it, has an end that was due by the observed time, and stops only because
-- the next bar was not due. The observed time does not lie before the delay's length.
pub calculate_continuous_window-IsDueWindow :
    (r : ContinuousWindowRequest) (observed_at d n : ℕ) {w : CollectionWindow}
    → duration_for_interval r.interval ≡ ok d
    → r.delay ≡ pos n
    → n ≤ observed_at
    → calculate_continuous_window r observed_at ≡ ok (some w)
    → IsDueWindow r.next_open_time d n observed_at w
calculate_continuous_window-IsDueWindow r observed_at d n duration delayed le h =
    window_until-IsDueWindow r observed_at d n duration delayed le
      (calculated r observed_at d n duration delayed h)

-- CalculateContinuousWindow returns no window (and no error) only when the first bar of the request
-- has not reached its delay at the observed time.
pub calculate_continuous_window-none :
    (r : ContinuousWindowRequest) (observed_at d n : ℕ)
    → duration_for_interval r.interval ≡ ok d
    → r.delay ≡ pos n
    → n ≤ observed_at
    → calculate_continuous_window r observed_at ≡ ok none
    → observed_at < r.next_open_time + d + n
calculate_continuous_window-none r observed_at d n duration delayed le h =
    window_until-none r observed_at d n duration delayed le
      (calculated r observed_at d n duration delayed h)

duration_known :
    (i : BarInterval)
    → ((d : ℕ) × (duration_for_interval i ≡ ok d))
      ⊎ (duration_for_interval i ≡ err (sentinel invalid_data))
unfolding duration_for_interval
duration_known i = ground arith

-- The request that CalculateContinuousWindow accepts.
pub record IsAccepted (r : ContinuousWindowRequest) (observed_at : ℕ) : Type 0 where
  pub supported : is_supported r.trigger ≡ true
  pub observed : observed_at ≢ zero_time
  pub opened : r.next_open_time ≢ zero_time
  pub delayed : (n : ℕ) × (r.delay ≡ pos n)
  pub timed : (d : ℕ) × (duration_for_interval r.interval ≡ ok d) × (r.next_open_time % d ≡ 0)

-- CalculateContinuousWindow succeeds on exactly the requests with a supported interval and trigger,
-- present times, a delay that is not negative, and an open time on the interval's boundary.
pub calculate_continuous_window-ok_iff :
    (r : ContinuousWindowRequest) (observed_at : ℕ)
    → ((o : Option CollectionWindow) × (calculate_continuous_window r observed_at ≡ ok o))
      ↔ IsAccepted r observed_at
unfolding calculate_continuous_window
calculate_continuous_window-ok_iff r observed_at = (
  λ (o, h). elim (duration_known r.interval) [
    | inl (d, e) ↦ elim (ℤ-cases r.delay) [
      | inl (n, p) ↦ record {
        supported = ground (arith, e, p);
        observed = ground (arith, e, p);
        opened = ground (arith, e, p);
        delayed = (n, p);
        timed = (d, e, ground (arith, e, p, truncate-mod r.next_open_time d));
      }
      | inr (n, p) ↦ ground (arith, e, p)
    ]
    | inr e ↦ ground (arith, e)
  ],
  λ a. (
    window_until r observed_at a.timed.0,
    ground (
      arith,
      a.supported,
      a.observed,
      a.opened,
      a.delayed.1,
      a.timed.1,
      a.timed.2,
      truncate_multiple r.next_open_time a.timed.0,
    ),
  ),
)

window_until_end :
    (r : ContinuousWindowRequest) (observed_at d : ℕ) {w : CollectionWindow}
    → window_until r observed_at d ≡ some w
    → w.range_end ≡ truncate (add observed_at (negated r.delay)) d
unfolding window_until
window_until_end r observed_at d h = ground arith

-- The request that CalculateLatestContinuousWindow makes.
abbrev latest_request : BarInterval → WindowTrigger → ℕ → ℕ → ℕ → ContinuousWindowRequest
latest_request i trigger observed_at d n = record {
  interval = i;
  trigger = trigger;
  next_open_time = truncate (add observed_at (negated (pos n))) d - d;
  delay = pos n;
}

latest_calculated :
    (i : BarInterval) (trigger : WindowTrigger) (observed_at d n : ℕ) {w : CollectionWindow}
    → duration_for_interval i ≡ ok d
    → calculate_latest_continuous_window i trigger observed_at (pos n) ≡ ok (some w)
    → calculate_continuous_window (latest_request i trigger observed_at d n) observed_at
      ≡ ok (some w)
unfolding calculate_latest_continuous_window
latest_calculated i trigger observed_at d n duration h = ground (arith, duration)

-- A window that CalculateLatestContinuousWindow returns is exactly one bar, the newest whose close and delay
-- have passed at the observed time. The observed time does not lie before the length of the delay.
pub calculate_latest_continuous_window_one_bar :
    (i : BarInterval) (trigger : WindowTrigger) (observed_at d n : ℕ) {w : CollectionWindow}
    → duration_for_interval i ≡ ok d
    → n ≤ observed_at
    → calculate_latest_continuous_window i trigger observed_at (pos n) ≡ ok (some w)
    → (w.range_end ≡ w.range_start + d)
      × (w.range_end % d ≡ 0)
      × (w.range_end + n ≤ observed_at)
      × (observed_at < w.range_end + d + n)
calculate_latest_continuous_window_one_bar i trigger observed_at d n duration le h =
    let r = latest_request i trigger observed_at d n in
    let made = latest_calculated i trigger observed_at d n duration h in
    let window = calculated r observed_at d n duration refl made in
    let due = calculate_continuous_window-IsDueWindow r observed_at d n duration refl le made in
    (
      ground (
        arith,
        window_until_end r observed_at d window,
        due.starts,
        due.nonempty,
        le-truncate (add observed_at (negated (pos n))) d,
      ),
      due.aligned,
      due.due,
      due.newest,
    )
