-- ===== src/MarketTime/Date.antt =====
-- MarketDate of markettime/calendar.go: civil dates, and the part of Go's calendar that they use. The fields
-- are naturals: Validate rejects a negative one as it rejects zero, and no date has one.
use xr_trading.Base.{
  ℕ, zero, suc, ◌+◌, ◌-◌, ◌*◌, ◌/◌, ◌%◌, Bool, not, ◌&&◌, ◌||◌, ltb, leb, ◌==◌, if◌then◌else◌, ◌<◌,
  ◌≤◌, ◌≡◌, arith, Bool-cases, inl, inr,
}
use xr_trading.Domain.Errors.{bind-ok, Result, ok, refuse_if, ◌>>◌, invalid_data}
use xr_trading.Domain.Time.{Instant, zero_time, day as day_length}

pub record MarketDate : Type 0 where
  pub year : ℕ
  pub month : ℕ
  pub day : ℕ

abbrev pub same_date : MarketDate → MarketDate → Bool
same_date a b = a.year == b.year && a.month == b.month && a.day == b.day

unfoldable pub is_leap : ℕ → Bool
is_leap y = y % 4 == 0 && not (y % 100 == 0) || y % 400 == 0

unfoldable pub days_in_month : ℕ → ℕ → ℕ
unfolding is_leap
days_in_month y m =
    if m == 2
    then (if is_leap y then 29 else 28)
    else if m == 4 || m == 6 || m == 9 || m == 11
    then 30
    else 31

-- MarketDate.Validate: time.Date keeps exactly the days that the month has.
unfoldable pub validate_date : MarketDate → Result (Unit {0})
unfolding days_in_month
validate_date d = do
  refuse_if (d.year == 0 || d.month == 0 || ltb 12 d.month || d.day == 0 || ltb 31 d.day)
      invalid_data
  refuse_if (ltb (days_in_month d.year d.month) d.day) invalid_data

unfoldable pub new_market_date : ℕ → ℕ → ℕ → Result MarketDate
unfolding validate_date
new_market_date year month day = do
  let date : MarketDate = record { year = year; month = month; day = day }
  validate_date date
  ok date

abbrev pub first_of : ℕ → ℕ → MarketDate
first_of year month = record { year = year; month = month; day = 1 }

-- MarketDate.addDays of a valid date is called with 1 and with -1.
unfoldable pub next_day : MarketDate → MarketDate
unfolding days_in_month
next_day d =
    if ltb d.day (days_in_month d.year d.month)
    then record d { day = d.day + 1 }
    else if ltb d.month 12
    then first_of d.year (d.month + 1)
    else first_of (d.year + 1) 1

unfoldable pub previous_day : MarketDate → MarketDate
unfolding days_in_month
previous_day d =
    if ltb 1 d.day
    then record d { day = d.day - 1 }
    else if ltb 1 d.month
    then record { year = d.year; month = d.month - 1; day = days_in_month d.year (d.month - 1) }
    else record { year = d.year - 1; month = 12; day = 31 }

-- The days of the months before one.
unfoldable pub days_before_month : ℕ → ℕ → ℕ
unfolding days_in_month
days_before_month y zero = 0
days_before_month y (suc zero) = 0
days_before_month y (suc (suc m)) = days_before_month y (suc m) + days_in_month y (suc m)

-- The days from 1 January of year 1, a Monday, to a date.
unfoldable pub day_number : MarketDate → ℕ
unfolding days_before_month
day_number d =
    let y = d.year - 1 in
    365 * y + y / 4 - y / 100 + y / 400 + days_before_month d.year d.month + (d.day - 1)

-- Saturday or Sunday.
unfoldable pub is_weekend : MarketDate → Bool
unfolding day_number
is_weekend d = leb 5 (day_number d % 7)

-- Midnight of a date in UTC.
unfoldable pub utc_midnight : MarketDate → Instant
unfolding day_number
utc_midnight d = zero_time + day_number d * day_length

-- A number that grows with the date.
unfoldable pub order : MarketDate → ℕ
order d = (d.year * 12 + d.month) * 32 + d.day

pub days_in_month_bound : (y m : ℕ) → days_in_month y m ≤ 31
unfolding days_in_month
days_in_month_bound y m = ground arith

-- What a valid date satisfies.
pub validate_date-bounds :
    (d : MarketDate)
    → validate_date d ≡ ok tt
    → (1 ≤ d.year) × (1 ≤ d.month) × (d.month ≤ 12) × (1 ≤ d.day) × (d.day ≤ 31)
unfolding validate_date
validate_date-bounds d valid =
    let (_, h, _) =
      bind-ok
        (refuse_if (d.year == 0 || d.month == 0 || ltb 12 d.month || d.day == 0 || ltb 31 d.day)
          invalid_data)
        _ valid in
    (ground (arith, h), ground (arith, h), ground (arith, h), ground (arith, h), ground (arith, h))

pub next_day-order : (d : MarketDate) → validate_date d ≡ ok tt → order d < order (next_day d)
unfolding order next_day
next_day-order d valid =
    let (y, m1, m12, d1, d31) = validate_date-bounds d valid in
    elim (Bool-cases (ltb d.day (days_in_month d.year d.month))) [
      | inl inside ↦ rw (next_day, inside) (omega arith)
      | inr last ↦ elim (Bool-cases (ltb d.month 12)) [
        | inl month ↦ rw (next_day, last, month) (omega (arith, d31, d1))
        | inr year ↦ rw (next_day, last, year) (omega (arith, d31, d1, m12))
      ]
    ]

pub previous_day-order :
    (d : MarketDate) → validate_date d ≡ ok tt → order (previous_day d) < order d
unfolding order previous_day
previous_day-order d valid =
    let (y, m1, m12, d1, d31) = validate_date-bounds d valid in
    elim (Bool-cases (ltb 1 d.day)) [
      | inl inside ↦
          let more : 1 < d.day = ground (arith, inside) in
          rw (previous_day, inside) (omega (arith, more))
      | inr first ↦ elim (Bool-cases (ltb 1 d.month)) [
        | inl month ↦
            let more : 1 < d.month = ground (arith, month) in
            rw (previous_day, first, month)
              (omega (arith, d1, more, days_in_month_bound d.year (d.month - 1)))
        | inr year ↦ rw (previous_day, first, year) (omega (arith, y, d1, m1))
      ]
    ]
