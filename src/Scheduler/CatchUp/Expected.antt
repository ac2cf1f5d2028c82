-- ===== src/Scheduler/CatchUp/Expected.antt =====
-- Which bars expectedContinuousWindows lists.
use native.Mathlib.Nat.{mod-lt, div-add-mod, add-mod_right}
use xr_trading.Base.{
  ℕ, zero, suc, ◌+◌, ◌-◌, ◌*◌, ◌/◌, ◌%◌, ◌≤◌, ◌<◌, ◌≡◌, ◌↔◌, refl, ◌∙◌, Bool, true, false, ◌||◌,
  ◌&&◌, List, [], ◌∷◌, ◌++◌, All, arith, leb, ◌==◌, pos,
}
use xr_trading.Domain.Errors.{ok}
use xr_trading.Domain.Time.{Instant, Duration, add}
use xr_trading.Domain.Time.Truncate.{truncate-le, lt-truncate, truncate-mod}
use xr_trading.Domain.Interval.{BarInterval}
use xr_trading.Scheduler.Window.{CollectionWindow, close, duration_for_interval}
use xr_trading.Scheduler.Window.Bounds.{duration_positive}
use xr_trading.Scheduler.CatchUp.{
  close_window, continuous_loop, first_open, expected_continuous_windows,
}

-- Some window starts at the instant.
abbrev pub is_opened : List CollectionWindow → Instant → Bool
is_opened [] t = false
is_opened (w ∷ ws) t = w.range_start == t || is_opened ws t

-- A window of one bar on the interval's boundaries.
pub record IsTile (duration : ℕ) (delay : Duration) (w : CollectionWindow) : Type 0 where
  pub triggered : w.trigger ≡ close
  pub aligned : w.range_start % duration ≡ 0
  pub one_bar : w.range_end ≡ w.range_start + duration
  pub delayed : w.eligible_at ≡ add w.range_end delay

next_multiple : (a b d : ℕ) → a % d ≡ 0 → b % d ≡ 0 → a < b → a + d ≤ b
next_multiple a b d ha hb h = grind (arith, div-add-mod a d, div-add-mod b d)

is_opened-snoc :
    (ws : List CollectionWindow) (w : CollectionWindow) (t : Instant)
    → is_opened (ws ++ w ∷ []) t ≡ (is_opened ws t || w.range_start == t)
is_opened-snoc [] w t = ground arith
is_opened-snoc (v ∷ ws) w t = ground (arith, is_opened-snoc ws w t)

All-snoc :
    (P : CollectionWindow → Type 0) (ws : List CollectionWindow) (w : CollectionWindow)
    → All P ws
    → P w
    → All P (ws ++ w ∷ [])
All-snoc P [] w h p = (p, tt)
All-snoc P (v ∷ ws) w h p = (h.0, All-snoc P ws w h.1 p)

next_mod : (a d : ℕ) → a % d ≡ 0 → (a + d) % d ≡ 0
next_mod a d h = add-mod_right a d ∙ h

module _ (i : BarInterval) (d : ℕ) (delay : Duration) (latest : Instant) (positive : 0 < d) where
  loop_opened :
      (f : ℕ) (a t : ℕ) (ws : List CollectionWindow)
      → a % d ≡ 0
      → t % d ≡ 0
      → latest < a + f * d
      → is_opened (continuous_loop f i d delay (pos 0) latest a ws) t
        ≡ (is_opened ws t || leb a t && leb t latest)
  unfolding continuous_loop
  loop_opened zero a t ws ha ht h = ground arith
  loop_opened (suc f) a t ws ha ht h = ground (
    arith,
    loop_opened f (a + d) t (ws ++ close_window i delay a (a + d) ∷ []) (next_mod a d ha) ht,
    is_opened-snoc ws (close_window i delay a (a + d)) t,
    next_multiple a t d ha ht,
  )

  loop-IsTile :
      (f : ℕ) (a : ℕ) (ws : List CollectionWindow)
      → a % d ≡ 0
      → All (IsTile d delay) ws
      → All (IsTile d delay) (continuous_loop f i d delay (pos 0) latest a ws)
  unfolding continuous_loop
  loop-IsTile zero a ws ha h = h
  loop-IsTile (suc f) a ws ha h = ground (
    arith,
    loop-IsTile f (a + d) (ws ++ close_window i delay a (a + d) ∷ []) (next_mod a d ha) (
        All-snoc (IsTile d delay) ws (close_window i delay a (a + d)) h
          (record { triggered = refl; aligned = ha; one_bar = refl; delayed = refl })),
  )

-- The first bar is the one that the boundary lies in.
first_open_bounds :
    (d b : ℕ) → 0 < d → (first_open d b % d ≡ 0) × (first_open d b ≤ b) × (b < first_open d b + d)
unfolding first_open
first_open_bounds d b h = ground (arith, truncate-mod b d, truncate-le b d, lt-truncate b d h)

rounds_suffice : (latest a d : ℕ) → 0 < d → latest < a + suc (suc ((latest - a) / d)) * d
rounds_suffice latest a d h = grind (arith, div-add-mod (latest - a) d, mod-lt (latest - a) h)

module _ (i : BarInterval) (d : ℕ) (delay : Duration) (boundary : Instant)
    (latest : CollectionWindow) (duration : duration_for_interval i ≡ ok d) where
  expected_loop :
      {ws : List CollectionWindow}
      → expected_continuous_windows i boundary latest delay (pos 0) ≡ ok ws
      → ws
        ≡ continuous_loop
            (suc (suc ((latest.range_start - first_open d boundary) / d)))
            i
            d
            delay
            (pos 0)
            latest.range_start
            (first_open d boundary)
            []
  unfolding expected_continuous_windows
  expected_loop h = ground (arith, duration)

  -- With no limit, expectedContinuousWindows lists the bar that opens at an interval boundary `t`
  -- exactly when that bar closes after the boundary and opens no later than the latest window.
  pub expected_continuous_windows_complete :
      {ws : List CollectionWindow} (t : Instant)
      → expected_continuous_windows i boundary latest delay (pos 0) ≡ ok ws
      → t % d ≡ 0
      → (is_opened ws t ≡ true) ↔ ((boundary < t + d) × (t ≤ latest.range_start))
  expected_continuous_windows_complete t h ht =
      let positive = duration_positive i duration in
      let first = first_open_bounds d boundary positive in
      let a = first_open d boundary in
      let f = suc (suc ((latest.range_start - a) / d)) in
      let opened =
        loop_opened i d delay latest.range_start positive f a t [] first.0 ht
          (rounds_suffice latest.range_start a d positive) in
      ground (arith, expected_loop h, opened, first, next_multiple t a d ht first.0)

  -- With no limit, every window that expectedContinuousWindows lists is one aligned bar with the close
  -- trigger, eligible when the delay after its close has passed.
  pub expected_continuous_windows-IsTile :
      {ws : List CollectionWindow}
      → expected_continuous_windows i boundary latest delay (pos 0) ≡ ok ws
      → All (IsTile d delay) ws
  expected_continuous_windows-IsTile h =
      let positive = duration_positive i duration in
      let first = first_open_bounds d boundary positive in
      rw (expected_loop h) (
        loop-IsTile i d delay latest.range_start positive
          (suc (suc ((latest.range_start - first_open d boundary) / d))) (first_open d boundary) []
          first.0 tt)
