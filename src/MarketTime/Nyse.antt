-- ===== src/MarketTime/Nyse.antt =====
-- NYSECalendar of markettime/calendar.go as a TradingCalendar, and the laws that its clients rely on.
use xr_trading.Base.{
  ◌≡◌, refl, sym, ap, ◌∙◌, inl, inr, true, false, Bool, Bool-cases, Option, none, some, ltb, ◌<◌,
  ◌≤◌, arith, ◌||◌,
}
use xr_trading.Domain.Errors.{
  Result, Result-cases, ok, err, sentinel, internal, refuse_if, bind-ok, same_value, invalid_data,
  calendar_out_of_range,
}
use xr_trading.Domain.Time.{Instant, is_zero}
use xr_trading.MarketTime.Date.{MarketDate, validate_date, next_day, previous_day, is_weekend}
use xr_trading.MarketTime.Calendar.{
  MarketSession, Rules, Zone, TradingCalendar, validate_session, is_out_of_years, is_closed_by,
  rule_for, regular_session, trading_session, session_for_date, session_at, covering, opens_after,
  closed_by, next_session, previous_session, date_in_location,
}
use xr_trading.MarketTime.Calendar.Walk.{
  Reaches, stops, meets, skips, next_session-Reaches, previous_session-Reaches,
}

-- The loops always end (Calendar.Walk), so the case of one that does not is never read.
abbrev pub ended {ℓ} : {A : Type ℓ} → Option (Result A) → Result A
ended none = err (sentinel internal)
ended (some r) = r

pub ended-some {ℓ} : {A : Type ℓ} (o : Option (Result A)) {a : A} → ended o ≡ ok a → o ≡ some (ok a)
ended-some none h = ground (arith, h)
ended-some (some r) h = ap some h

abbrev pub nyse : Zone → Rules → TradingCalendar
nyse zone rules = record {
  zone = zone;
  session_for_date = session_for_date zone rules;
  session_at = session_at zone rules;
  next_session = λ value. ended (next_session zone rules value);
  previous_session = λ value. ended (previous_session zone rules value);
}

abbrev pub IsOpen : MarketSession → Type 0
IsOpen s = s.opens_at < s.closes_at

-- What the clients of a calendar rely on.
pub record IsCalendar (calendar : TradingCalendar) : Type 0 where
  pub dated :
      (d : MarketDate) (s : MarketSession) → calendar.session_for_date d ≡ ok (some s) → IsOpen s
  pub within :
      (t : Instant) (s : MarketSession)
      → calendar.session_at t ≡ ok (some s)
      → (s.opens_at ≤ t) × (t < s.closes_at)
  pub later :
      (t : Instant) (s : MarketSession)
      → calendar.next_session t ≡ ok s
      → (t < s.opens_at) × IsOpen s
  pub earlier :
      (t : Instant) (s : MarketSession)
      → calendar.previous_session t ≡ ok s
      → IsOpen s × (s.closes_at ≤ t)

pub validate_session-IsOpen : (s : MarketSession) → validate_session s ≡ ok tt → IsOpen s
unfolding validate_session
validate_session-IsOpen s h =
    let (_, _, bounds) = bind-ok (validate_date s.date) _ h in ground (arith, bounds)

module _ (zone : Zone) (rules : Rules) where
  trading_session-IsOpen :
      (d : MarketDate) (holiday : Bool) (s : MarketSession)
      → trading_session zone rules d holiday ≡ ok (some s)
      → IsOpen s
  unfolding trading_session
  trading_session-IsOpen d true s h = ground (arith, h)
  trading_session-IsOpen d false s h =
      let (_, valid, made) = bind-ok (validate_session (regular_session zone rules d)) _ h in
      let same : regular_session zone rules d ≡ s = ground (arith, made) in
      rw (sym same) (validate_session-IsOpen (regular_session zone rules d) valid)

  session_for_date-IsOpen :
      (d : MarketDate) (s : MarketSession) → session_for_date zone rules d ≡ ok (some s) → IsOpen s
  unfolding session_for_date
  session_for_date-IsOpen d s h =
      let (_, _, rest) = bind-ok (validate_date d) _ h in
      let (_, _, made) = bind-ok (refuse_if (is_out_of_years d) calendar_out_of_range) _ rest in
      trading_session-IsOpen d (is_weekend d || is_closed_by (rule_for d rules)) s made

  -- The session that a walk returns passed the test on some day.
  record Passed (test : Option MarketSession → Option MarketSession) (s : MarketSession)
      : Type 0 where
    day : MarketDate
    found : Option MarketSession
    answered : session_for_date zone rules day ≡ ok found
    hit : test found ≡ some s

  passed :
      (test : Option MarketSession → Option MarketSession) (step : MarketDate → MarketDate)
      (d : MarketDate) (r : Result MarketSession) (s : MarketSession)
      → Reaches zone rules test step d r
      → r ≡ ok s
      → Passed test s
  passed test step d r s (stops bad) same = ground (arith, same)
  passed test step d r s (meets {found = found} {s = t} good hit) same = record {
    day = d;
    found = found;
    answered = good;
    hit = hit ∙ ap some (same_value same);
  }
  passed test step d r s (skips _ _ rest) same = passed test step (step d) r s rest same

  opens_after-some :
      (t : Instant) (found : Option MarketSession) {s : MarketSession}
      → opens_after zone rules t found ≡ some s
      → (found ≡ some s) × (t < s.opens_at)
  opens_after-some t none h = ground (arith, h)
  opens_after-some t (some f) {s} h = elim (Bool-cases (ltb t f.opens_at)) [
    | inl after ↦
        let same : f ≡ s = ground (arith, h, after) in rw (sym same) (refl, ground (arith, after))
    | inr before ↦ ground (arith, h, before)
  ]

  closed_by-some :
      (t : Instant) (found : Option MarketSession) {s : MarketSession}
      → closed_by zone rules t found ≡ some s
      → (found ≡ some s) × (s.closes_at ≤ t)
  closed_by-some t none h = ground (arith, h)
  closed_by-some t (some f) {s} h = elim (Bool-cases (ltb t f.closes_at)) [
    | inl opens ↦ ground (arith, h, opens)
    | inr closed ↦
        let same : f ≡ s = ground (arith, h, closed) in rw (sym same) (refl, ground (arith, closed))
  ]

  covering-some :
      (t : Instant) (found : Option MarketSession) {s : MarketSession}
      → covering zone rules t found ≡ some s
      → (s.opens_at ≤ t) × (t < s.closes_at)
  covering-some t none h = ground (arith, h)
  covering-some t (some f) {s} h = elim (Bool-cases (ltb t f.opens_at)) [
    | inl early ↦ ground (arith, h, early)
    | inr opened ↦ elim (Bool-cases (ltb t f.closes_at)) [
      | inl opens ↦
          let same : f ≡ s = ground (arith, h, opened, opens) in
          rw (sym same) (ground (arith, opened), ground (arith, opens))
      | inr closed ↦ ground (arith, h, opened, closed)
    ]
  ]

  session_at-within :
      (t : Instant) (s : MarketSession)
      → session_at zone rules t ≡ ok (some s)
      → (s.opens_at ≤ t) × (t < s.closes_at)
  unfolding session_at
  session_at-within t s h =
      let (_, _, v1) = bind-ok (refuse_if (is_zero t) invalid_data) _ h in
      let (date, _, v2) = bind-ok (date_in_location zone t) _ v1 in
      let (found, _, last) = bind-ok (session_for_date zone rules date) _ v2 in
      covering-some t found (same_value last)

  next_session-later :
      (t : Instant) (s : MarketSession)
      → ended (next_session zone rules t) ≡ ok s
      → (t < s.opens_at) × IsOpen s
  unfolding next_session
  next_session-later t s h = elim (Result-cases (date_in_location zone t)) [
    | inl (e, bad) ↦ ground (arith, h, bad)
    | inr (d, good) ↦
        let (r, ends, reaches) = next_session-Reaches zone rules t d good in
        let same : r ≡ ok s = sym (ap ended ends) ∙ h in
        let p = passed (opens_after zone rules t) next_day d r s reaches same in
        let (given, after) = opens_after-some t p.found p.hit in
        (after, session_for_date-IsOpen p.day s (p.answered ∙ ap ok given))
  ]

  previous_session-earlier :
      (t : Instant) (s : MarketSession)
      → ended (previous_session zone rules t) ≡ ok s
      → IsOpen s × (s.closes_at ≤ t)
  unfolding previous_session
  previous_session-earlier t s h = elim (Result-cases (date_in_location zone t)) [
    | inl (e, bad) ↦ ground (arith, h, bad)
    | inr (d, good) ↦
        let (r, ends, reaches) = previous_session-Reaches zone rules t d good in
        let same : r ≡ ok s = sym (ap ended ends) ∙ h in
        let p = passed (closed_by zone rules t) previous_day d r s reaches same in
        let (given, before) = closed_by-some t p.found p.hit in
        (session_for_date-IsOpen p.day s (p.answered ∙ ap ok given), before)
  ]

  -- With any time zone and any overrides, the NYSE calendar keeps what its clients rely on: a session opens
  -- before it closes; SessionAt answers a session that covers the instant, NextSession one that opens after it,
  -- and PreviousSession one that has closed by it.
  pub nyse-IsCalendar : IsCalendar (nyse zone rules)
  nyse-IsCalendar = record {
    dated = session_for_date-IsOpen;
    within = session_at-within;
    later = next_session-later;
    earlier = previous_session-earlier;
  }
