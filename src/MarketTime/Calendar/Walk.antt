-- ===== src/MarketTime/Calendar/Walk.antt =====
-- NextSession and PreviousSession end, at the nearest session of their direction.
use xr_trading.Base.{
  ℕ, zero, suc, ◌+◌, ◌-◌, ◌≡◌, refl, sym, inl, inr, false, Option-cases, Option, none, some, ◌<◌,
  ◌≤◌, arith,
}
use xr_trading.Domain.Errors.{
  Error, Result, Result-cases, ok, err, refuse_if, refuse_if-ok, bind-ok, calendar_out_of_range,
}
use xr_trading.Domain.Time.{Instant}
use xr_trading.MarketTime.Date.{
  MarketDate, validate_date, next_day, previous_day, order, next_day-order, previous_day-order,
  validate_date-bounds,
}
use xr_trading.MarketTime.Calendar.{
  MarketSession, Rules, Zone, on, is_out_of_years, session_for_date, opens_after, closed_by, walk,
  rounds_after, rounds_before, next_session, previous_session, date_in_location,
}

module _ (zone : Zone) (rules : Rules) where
  -- The days from `d` on, in the direction of `step`, as a test sees them: some day is the first whose session
  -- passes, or the first for which the calendar has an error.
  pub data Reaches (test : Option MarketSession → Option MarketSession)
      (step : MarketDate → MarketDate) : MarketDate → Result MarketSession → Type 0 where
    stops :
        {d : MarketDate} {e : Error}
        → session_for_date zone rules d ≡ err e
        → Reaches test step d (err e)
    meets :
        {d : MarketDate} {found : Option MarketSession} {s : MarketSession}
        → session_for_date zone rules d ≡ ok found
        → test found ≡ some s
        → Reaches test step d (ok s)
    skips :
        {d : MarketDate} {found : Option MarketSession} {r : Result MarketSession}
        → session_for_date zone rules d ≡ ok found
        → test found ≡ none
        → Reaches test step (step d) r
        → Reaches test step d r

  walk-Reaches :
      (test : Option MarketSession → Option MarketSession) (step : MarketDate → MarketDate) (n : ℕ)
      (d : MarketDate) {r : Result MarketSession}
      → walk zone rules test step n d ≡ some r
      → Reaches test step d r
  unfolding walk
  walk-Reaches test step zero d h = ground (arith, h)
  walk-Reaches test step (suc n) d {r} h = elim (Result-cases (session_for_date zone rules d)) [
    | inl (e, bad) ↦ let same : err e ≡ r = ground (arith, h, bad) in rw (sym same) (stops bad)
    | inr (found, good) ↦ elim (Option-cases (test found)) [
      | inl missed ↦
          skips good missed (walk-Reaches test step n (step d) (ground (arith, h, good, missed)))
      | inr (s, hit) ↦
          let same : ok s ≡ r = ground (arith, h, good, hit) in rw (sym same) (meets good hit)
    ]
  ]

  -- A day that the calendar answers for is a date of its years.
  pub session_for_date-bounds :
      (d : MarketDate) {found : Option MarketSession}
      → session_for_date zone rules d ≡ ok found
      → (validate_date d ≡ ok tt) × (is_out_of_years d ≡ false)
  unfolding session_for_date
  session_for_date-bounds d h =
      let (_, valid, rest) = bind-ok (validate_date d) _ h in
      let (_, inside, _) = bind-ok (refuse_if (is_out_of_years d) calendar_out_of_range) _ rest in
      (valid, refuse_if-ok _ _ inside)

  order-bound :
      (d : MarketDate) {found : Option MarketSession}
      → session_for_date zone rules d ≡ ok found
      → order d < order (on 2029 13 0)
  unfolding order
  order-bound d good =
      let (valid, inside) = session_for_date-bounds d good in
      let (_, _, m12, _, d31) = validate_date-bounds d valid in
      let year : d.year ≤ 2028 = ground (arith, inside) in omega (arith, m12, d31, year)

  walk_after :
      (test : Option MarketSession → Option MarketSession) (n : ℕ) (d : MarketDate)
      → order (on 2029 13 0) ≤ order d + n
      → (r : Result MarketSession) × (walk zone rules test next_day (suc n) d ≡ some r)
  unfolding walk
  walk_after test zero d bound = elim (Result-cases (session_for_date zone rules d)) [
    | inl (e, bad) ↦ (err e, rw (walk, bad) refl)
    | inr (found, good) ↦ let no : ⊥ = omega (arith, bound, order-bound d good) in elim no [ ]
  ]
  walk_after test (suc n) d bound = elim (Result-cases (session_for_date zone rules d)) [
    | inl (e, bad) ↦ (err e, rw (walk, bad) refl)
    | inr (found, good) ↦ elim (Option-cases (test found)) [
      | inl missed ↦
          let (valid, _) = session_for_date-bounds d good in
          let (r, ends) =
            walk_after test n (next_day d) (omega (arith, bound, next_day-order d valid)) in
          (r, rw (walk, good, missed) ends)
      | inr (s, hit) ↦ (ok s, rw (walk, good, hit) refl)
    ]
  ]

  walk_before :
      (test : Option MarketSession → Option MarketSession) (n : ℕ) (d : MarketDate)
      → order d ≤ n
      → (r : Result MarketSession) × (walk zone rules test previous_day (suc n) d ≡ some r)
  unfolding walk
  walk_before test zero d bound = elim (Result-cases (session_for_date zone rules d)) [
    | inl (e, bad) ↦ (err e, rw (walk, bad) refl)
    | inr (found, good) ↦
        let (valid, _) = session_for_date-bounds d good in
        let no : ⊥ = omega (arith, bound, previous_day-order d valid) in elim no [ ]
  ]
  walk_before test (suc n) d bound = elim (Result-cases (session_for_date zone rules d)) [
    | inl (e, bad) ↦ (err e, rw (walk, bad) refl)
    | inr (found, good) ↦ elim (Option-cases (test found)) [
      | inl missed ↦
          let (valid, _) = session_for_date-bounds d good in
          let (r, ends) =
            walk_before test n (previous_day d)
              (omega (arith, bound, previous_day-order d valid)) in
          (r, rw (walk, good, missed) ends)
      | inr (s, hit) ↦ (ok s, rw (walk, good, hit) refl)
    ]
  ]

  -- The loop of NextSession ends, whatever the time zone and the overrides: it returns the session of the first
  -- day, from the exchange's date of the instant on, whose session opens after the instant, or the error of the
  -- first day for which the calendar has one; every day before it has no session that opens later.
  pub next_session-Reaches :
      (value : Instant) (d : MarketDate)
      → date_in_location zone value ≡ ok d
      → (r : Result MarketSession) × (next_session zone rules value ≡ some r)
        × Reaches (opens_after zone rules value) next_day d r
  unfolding next_session
  next_session-Reaches value d local =
      let (r, ends) =
        walk_after (opens_after zone rules value) (order (on 2029 13 0) - order d) d
          (omega arith) in
      (
        r,
        rw (next_session, local) ends,
        walk-Reaches (opens_after zone rules value) next_day (rounds_after zone rules d) d ends,
      )

  -- The same for PreviousSession, backwards: it returns the session of the nearest day, from the exchange's date
  -- of the instant back, whose session has closed by the instant, or the error of the first day for which the
  -- calendar has one; the days between have no session that had closed. The loop ends.
  pub previous_session-Reaches :
      (value : Instant) (d : MarketDate)
      → date_in_location zone value ≡ ok d
      → (r : Result MarketSession) × (previous_session zone rules value ≡ some r)
        × Reaches (closed_by zone rules value) previous_day d r
  unfolding previous_session
  previous_session-Reaches value d local =
      let (r, ends) = walk_before (closed_by zone rules value) (order d) d (omega arith) in
      (
        r,
        rw (previous_session, local) ends,
        walk-Reaches (closed_by zone rules value) previous_day (rounds_before zone rules d) d ends,
      )
