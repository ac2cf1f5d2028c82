-- ===== src/Scheduler/Sessions/Tiling.antt =====
-- The hourly bars of a session cover it without a gap.
use xr_trading.Base.{
  ℕ, zero, suc, ◌+◌, ◌-◌, ◌≡◌, refl, sym, ◌⊎◌, inl, inr, List, [], ◌∷◌, Bool-cases, ltb, ◌<◌, ◌≤◌,
  arith,
}
use xr_trading.Domain.Errors.{ok, bind-ok, same_value}
use xr_trading.Domain.Time.{Instant, hour}
use xr_trading.Domain.Interval.{hour1}
use xr_trading.MarketTime.Calendar.{MarketSession, validate_session}
use xr_trading.MarketTime.Nyse.{validate_session-IsOpen}
use xr_trading.Scheduler.Sessions.{ScheduledUsBar, hour_bars, bars_for_us_session}

-- Bars from `a` to `b`: each opens where the one before closes, and lasts an hour unless it ends at `b`.
abbrev pub Tiles : Instant → Instant → List ScheduledUsBar → Type 0
Tiles a b [] = a ≡ b
Tiles a b (c ∷ cs) =
    (c.opens_at ≡ a)
    × (a < c.closes_at)
    × (c.closes_at ≤ a + hour)
    × ((c.closes_at ≡ a + hour) ⊎ (c.closes_at ≡ b))
    × Tiles c.closes_at b cs

hour_bars-Tiles :
    (n : ℕ) (close open_at : Instant)
    → open_at ≤ close
    → close ≤ open_at + n
    → Tiles open_at close (hour_bars n close open_at)
unfolding hour_bars
hour_bars-Tiles zero close open_at before room = omega (arith, before, room)
hour_bars-Tiles (suc n) close open_at before room = elim (Bool-cases (ltb open_at close)) [
  | inr ended ↦
      let past : close ≤ open_at = ground (arith, ended) in
      rw (hour_bars, ended) (omega (arith, past, before))
  | inl inside ↦
      let lt : open_at < close = ground (arith, inside) in
      elim (Bool-cases (ltb close (open_at + hour))) [
        | inl short ↦
            let le : close ≤ open_at + hour = ground (arith, short) in
            rw (hour_bars, inside, short)
              (refl, lt, le, inr refl, hour_bars-Tiles n close close (omega arith) (omega arith))
        | inr full ↦
            let le : open_at + hour ≤ close = ground (arith, full) in
            rw (hour_bars, inside, full)
              (
                refl,
                omega arith,
                omega arith,
                inl refl,
                hour_bars-Tiles n close (open_at + hour) le (omega (arith, room)),
              )
      ]
]

-- The hourly bars of a session tile it: the first opens with the session, each further one opens where the
-- one before closes, the last closes with the session, and each lasts an hour, but for a shorter last one.
pub bars_for_us_session-Tiles :
    (s : MarketSession) (bars : List ScheduledUsBar)
    → bars_for_us_session s hour1 ≡ ok bars
    → Tiles s.opens_at s.closes_at bars
unfolding bars_for_us_session
bars_for_us_session-Tiles s bars h =
    let (_, valid, made) = bind-ok (validate_session s) _ h in
    let lt : s.opens_at < s.closes_at = validate_session-IsOpen s valid in
    rw (sym (same_value made)) (
      hour_bars-Tiles (s.closes_at - s.opens_at) s.closes_at s.opens_at (omega (arith, lt))
        (omega (arith, lt)))
