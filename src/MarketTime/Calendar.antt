-- ===== src/MarketTime/Calendar.antt =====
-- The NYSE calendar of markettime/calendar.go. The time zone database is a Zone: the date of an instant at the
-- exchange, and the instant of a local time. The loops over the days have fuel; Walk proves it is enough.
pub mod Walk
use xr_trading.Base.{
  ℕ, zero, suc, ◌+◌, ◌-◌, ◌*◌, Bool, true, false, not, ◌&&◌, ◌||◌, Option, none, some, List, [],
  ◌∷◌, ◌++◌, map, ltb, ◌==◌, ℤ, pos, negsuc, ltz, if◌then◌else◌, ◌≡◌, ◌<◌, ◌≤◌,
}
use xr_trading.Domain.Errors.{
  Error, Result, ok, err, sentinel, refuse_if, ◌>>=◌, ◌>>◌, invalid_data, calendar_out_of_range,
}
use xr_trading.Domain.Time.{Instant, is_zero}
use xr_trading.MarketTime.Date.{
  MarketDate, same_date, validate_date, next_day, previous_day, is_weekend, order,
}

pub record MarketSession : Type 0 where
  pub date : MarketDate
  pub opens_at : Instant
  pub closes_at : Instant

-- MarketSession.Validate
unfoldable pub validate_session : MarketSession → Result (Unit {0})
validate_session s = do
  validate_date s.date
  refuse_if (is_zero s.opens_at || is_zero s.closes_at || not (ltb s.opens_at s.closes_at))
      invalid_data

pub record SessionOverride : Type 0 where
  pub date : MarketDate
  pub closed : Bool
  pub close_hour : ℤ
  pub close_minute : ℤ

pub record SessionRule : Type 0 where
  pub closed : Bool
  pub close_hour : ℤ
  pub close_minute : ℤ

-- A map of rules: the rule that was set last comes first.
abbrev pub Rules : Type 0
Rules = List (MarketDate × SessionRule)

unfoldable pub rule_for : MarketDate → Rules → Option SessionRule
rule_for d [] = none
rule_for d ((e, rule) ∷ rules) = if same_date e d then some rule else rule_for d rules

abbrev pub on : ℕ → ℕ → ℕ → MarketDate
on year month day = record { year = year; month = month; day = day }

abbrev holiday : MarketDate → MarketDate × SessionRule
holiday d = (d, record { closed = true; close_hour = pos 0; close_minute = pos 0 })

abbrev short_day : MarketDate → MarketDate × SessionRule
short_day d = (d, record { closed = false; close_hour = pos 13; close_minute = pos 0 })

-- officialNYSERules
abbrev pub official_nyse_rules : Rules
official_nyse_rules =
    map holiday (
      on 2026 1 1
      ∷ on 2026 1 19
      ∷ on 2026 2 16
      ∷ on 2026 4 3
      ∷ on 2026 5 25
      ∷ on 2026 6 19
      ∷ on 2026 7 3
      ∷ on 2026 9 7
      ∷ on 2026 11 26
      ∷ on 2026 12 25
      ∷ on 2027 1 1
      ∷ on 2027 1 18
      ∷ on 2027 2 15
      ∷ on 2027 3 26
      ∷ on 2027 5 31
      ∷ on 2027 6 18
      ∷ on 2027 7 5
      ∷ on 2027 9 6
      ∷ on 2027 11 25
      ∷ on 2027 12 24
      ∷ on 2028 1 17
      ∷ on 2028 2 21
      ∷ on 2028 4 14
      ∷ on 2028 5 29
      ∷ on 2028 6 19
      ∷ on 2028 7 4
      ∷ on 2028 9 4
      ∷ on 2028 11 23
      ∷ on 2028 12 25
      ∷ [])
    ++ map short_day
        (on 2026 11 27 ∷ on 2026 12 24 ∷ on 2027 11 26 ∷ on 2028 7 3 ∷ on 2028 11 24 ∷ [])

abbrev first_nyse_year : ℕ
first_nyse_year = 2026

abbrev last_nyse_year : ℕ
last_nyse_year = 2028

abbrev pub is_out_of_years : MarketDate → Bool
is_out_of_years d = ltb d.year first_nyse_year || ltb last_nyse_year d.year

abbrev is_zero_int : ℤ → Bool
is_zero_int (pos n) = n == 0
is_zero_int (negsuc _) = false

abbrev is_int : ℕ → ℤ → Bool
is_int n z = not (ltz z (pos n)) && not (ltz (pos n) z)

-- A close that is not after 09:30 or is later than 16:00.
abbrev pub is_bad_close : ℤ → ℤ → Bool
is_bad_close hour minute =
    ltz hour (pos 9)
    || ltz (pos 16) hour
    || ltz minute (pos 0)
    || ltz (pos 59) minute
    || is_int 9 hour && not (ltz (pos 30) minute)
    || is_int 16 hour && not (is_zero_int minute)

abbrev closed_rule : SessionRule
closed_rule = record { closed = true; close_hour = pos 0; close_minute = pos 0 }

abbrev open_rule : ℤ → ℤ → SessionRule
open_rule hour minute = record { closed = false; close_hour = hour; close_minute = minute }

-- The rule of an override, from its `if override.Closed` on.
unfoldable pub override_rule : Bool → ℤ → ℤ → Result SessionRule
override_rule true hour minute =
    refuse_if (not (is_zero_int hour) || not (is_zero_int minute)) invalid_data >> ok closed_rule
override_rule false hour minute =
    refuse_if (is_bad_close hour minute) invalid_data >> ok (open_rule hour minute)

unfoldable pub apply_override : SessionOverride → Rules → Result Rules
unfolding override_rule
apply_override o rules = do
  validate_date o.date
  refuse_if (is_out_of_years o.date) calendar_out_of_range
  rule ← override_rule o.closed o.close_hour o.close_minute
  ok ((o.date, rule) ∷ rules)

unfoldable pub apply_overrides : List SessionOverride → Rules → Result Rules
unfolding apply_override
apply_overrides [] rules = ok rules
apply_overrides (o ∷ os) rules = apply_override o rules >>= apply_overrides os

-- NewNYSECalendar, once the time zone has been loaded.
unfoldable pub new_nyse_calendar : List SessionOverride → Result Rules
unfolding apply_overrides
new_nyse_calendar overrides = apply_overrides overrides official_nyse_rules

-- What Go's time package answers for a location.
pub record Zone : Type 0 where
  pub date_at : Instant → MarketDate
  pub instant_at : MarketDate → ℤ → ℤ → Instant

-- The interface TradingCalendar with its location; a session exists where the option is `some`. The session that
-- SessionAt returns next to `false` is not read by its callers, and left out.
pub record TradingCalendar : Type 0 where
  pub zone : Zone
  pub session_for_date : MarketDate → Result (Option MarketSession)
  pub session_at : Instant → Result (Option MarketSession)
  pub next_session : Instant → Result MarketSession
  pub previous_session : Instant → Result MarketSession

unfoldable pub date_in_location : Zone → Instant → Result MarketDate
date_in_location zone value = do
  refuse_if (is_zero value) invalid_data
  let date = zone.date_at value
  validate_date date
  ok date

abbrev pub is_closed_by : Option SessionRule → Bool
is_closed_by none = false
is_closed_by (some rule) = rule.closed

abbrev pub close_of : Option SessionRule → ℤ × ℤ
close_of none = (pos 16, pos 0)
close_of (some rule) = (rule.close_hour, rule.close_minute)

module _ (zone : Zone) (rules : Rules) where
  open zone use {instant_at}

  -- The session that a trading day has.
  unfoldable pub regular_session : MarketDate → MarketSession
  regular_session d =
      let (hour, minute) = close_of (rule_for d rules) in
      record {
        date = d;
        opens_at = instant_at d (pos 9) (pos 30);
        closes_at = instant_at d hour minute;
      }

  -- On a day that is a holiday, or is not.
  unfoldable pub trading_session : MarketDate → Bool → Result (Option MarketSession)
  unfolding validate_session regular_session
  trading_session d true = ok none
  trading_session d false = validate_session (regular_session d) >> ok (some (regular_session d))

  unfoldable pub session_for_date : MarketDate → Result (Option MarketSession)
  unfolding trading_session
  session_for_date d = do
    validate_date d
    refuse_if (is_out_of_years d) calendar_out_of_range
    trading_session d (is_weekend d || is_closed_by (rule_for d rules))

  -- `!value.Before(session.Open) && value.Before(session.Close)`
  abbrev pub covering : Instant → Option MarketSession → Option MarketSession
  covering value none = none
  covering value (some s) =
      if not (ltb value s.opens_at) && ltb value s.closes_at then some s else none

  unfoldable pub session_at : Instant → Result (Option MarketSession)
  unfolding date_in_location
  session_at value = do
    refuse_if (is_zero value) invalid_data
    date ← date_in_location zone value
    found ← session_for_date date
    ok (covering value found)

  -- The two tests that end the loops.
  abbrev pub opens_after : Instant → Option MarketSession → Option MarketSession
  opens_after value none = none
  opens_after value (some s) = if ltb value s.opens_at then some s else none

  abbrev pub closed_by : Instant → Option MarketSession → Option MarketSession
  closed_by value none = none
  closed_by value (some s) = if not (ltb value s.closes_at) then some s else none

  -- `for { ... }` with a number of rounds; `none` is a loop that has not ended by then.
  unfoldable pub walk :
      (Option MarketSession → Option MarketSession)
      → (MarketDate → MarketDate)
      → ℕ
      → MarketDate
      → Option (Result MarketSession)
  walk test step zero d = none
  walk test step (suc n) d = elim (session_for_date d) [
    | err e ↦ some (err e)
    | ok found ↦ elim (test found) [ some s ↦ some (ok s) | none ↦ walk test step n (step d) ]
  ]

  -- More rounds than there are days left in the calendar, or before a day.
  abbrev pub rounds_after : MarketDate → ℕ
  rounds_after d = suc (order (on (suc last_nyse_year) 13 0) - order d)

  abbrev pub rounds_before : MarketDate → ℕ
  rounds_before d = suc (order d)

  unfoldable pub next_session : Instant → Option (Result MarketSession)
  unfolding date_in_location walk
  next_session value = elim (date_in_location zone value) [
    | err e ↦ some (err e)
    | ok d ↦ walk (opens_after value) next_day (rounds_after d) d
  ]

  unfoldable pub previous_session : Instant → Option (Result MarketSession)
  unfolding date_in_location walk
  previous_session value = elim (date_in_location zone value) [
    | err e ↦ some (err e)
    | ok d ↦ walk (closed_by value) previous_day (rounds_before d) d
  ]
