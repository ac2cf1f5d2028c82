-- ===== src/Scheduler/UsCatchUp/Expected.antt =====
-- The loop over the dates of a US market ends, and lists what it should.
use xr_trading.Base.{
  ap, ◌∙◌, ℕ, zero, suc, ◌-◌, ◌≡◌, refl, sym, inl, inr, true, ◌&&◌, Bool-cases, Option-cases, some,
  List, [], ◌∷◌, ◌++◌, All, ltb, ℤ, ◌<◌, ◌≤◌, arith,
}
use mathlib.Core.List.{append_assoc}
use xr_trading.Domain.Errors.{
  Result, Result-cases, ok, err, same_value, bind-ok, refuse_if, invalid_data, ◌>>=◌,
}
use xr_trading.Domain.Time.{Instant, Duration, is_zero, add}
use xr_trading.Domain.Interval.{BarInterval}
use xr_trading.MarketTime.Date.{
  MarketDate, validate_date, next_day, order, next_day-order, validate_date-bounds,
}
use xr_trading.MarketTime.Calendar.{Zone, MarketSession, TradingCalendar, date_in_location}
use xr_trading.Scheduler.Window.{CollectionWindow, close}
use xr_trading.Scheduler.CatchUp.{close_window}
use xr_trading.Scheduler.Sessions.{ScheduledUsBar, bars_for_us_session}
use xr_trading.Scheduler.UsCatchUp.{
  is_expected, has_room, session_windows, is_before_date, date_windows, date_loop,
  expected_us_windows,
}

before_date-order :
    (a b : MarketDate)
    → validate_date a ≡ ok tt
    → validate_date b ≡ ok tt
    → is_before_date a b ≡ true
    → order a < order b
unfolding order
before_date-order a b a_valid b_valid h =
    let (_, _, m12, _, d31) = validate_date-bounds a a_valid in
    let (_, m1, _, d1, _) = validate_date-bounds b b_valid in
    elim (Bool-cases (ltb a.year b.year)) [
      | inl year ↦
          let lt : a.year < b.year = ground (arith, year) in omega (arith, m12, d31, m1, d1, lt)
      | inr year ↦ elim (Bool-cases (ltb a.month b.month)) [
        | inl month ↦
            let lt : a.month < b.month = ground (arith, month) in
            let le : a.year ≤ b.year = ground (arith, h) in omega (arith, d31, d1, lt, le)
        | inr month ↦
            let e1 : a.year ≡ b.year = ground (arith, h, year) in
            let e2 : a.month ≡ b.month = ground (arith, h, year, month) in
            let e3 : a.day < b.day = ground (arith, h, year, month) in omega (arith, e1, e2, e3)
      ]
    ]

-- A bar of a session that the calendar has on some date, from one time to another.
pub record IsBar (calendar : TradingCalendar) (interval : BarInterval) (start end : Instant)
    : Type 0 where
  pub date : MarketDate
  pub session : MarketSession
  pub held : calendar.session_for_date date ≡ ok (some session)
  pub bars : List ScheduledUsBar
  pub cut : bars_for_us_session session interval ≡ ok bars
  pub before : List ScheduledUsBar
  pub after : List ScheduledUsBar
  pub place : before ++ record { opens_at = start; closes_at = end } ∷ after ≡ bars

-- A window that the catch-up wants: one bar with the close trigger that closes after the boundary and opens no
-- later than the latest window, and is eligible when the delay after its close has passed.
pub record IsWanted (calendar : TradingCalendar) (interval : BarInterval)
    (boundary latest : Instant) (delay : Duration) (w : CollectionWindow) : Type 0 where
  pub kind : (w.interval ≡ interval) × (w.trigger ≡ close)
  pub bar : IsBar calendar interval w.range_start w.range_end
  pub eligible : w.eligible_at ≡ add w.range_end delay
  pub after : boundary < w.range_end
  pub until : w.range_start ≤ latest

module _ (calendar : TradingCalendar) (interval : BarInterval) (boundary latest : Instant)
    (delay : Duration) (limit : ℤ) where
  abbrev Wanted : List CollectionWindow → Type 0
  Wanted = All (IsWanted calendar interval boundary latest delay)

  All-append :
      (ws : List CollectionWindow) (w : CollectionWindow)
      → Wanted ws
      → IsWanted calendar interval boundary latest delay w
      → Wanted (ws ++ w ∷ [])
  All-append [] w _ p = (p, tt)
  All-append (v ∷ ws) w q p = (q.0, All-append ws w q.1 p)

  session_windows-IsWanted :
      (date : MarketDate) (session : MarketSession) (all seen bars : List ScheduledUsBar)
      (windows : List CollectionWindow)
      → calendar.session_for_date date ≡ ok (some session)
      → bars_for_us_session session interval ≡ ok all
      → seen ++ bars ≡ all
      → Wanted windows
      → Wanted (session_windows interval boundary latest delay limit windows bars)
  unfolding session_windows
  session_windows-IsWanted date session all seen [] windows held cut place wanted = wanted
  session_windows-IsWanted date session all seen (b ∷ bs) windows held cut place wanted =
      let further : (seen ++ b ∷ []) ++ bs ≡ all = append_assoc seen (b ∷ []) bs ∙ place in
      elim (Bool-cases (is_expected boundary latest b && has_room limit windows)) [
        | inr other ↦
            rw (session_windows, other)
              (session_windows-IsWanted date session all (seen ++ b ∷ []) bs windows held cut
                further wanted)
        | inl expected ↦
            let w = close_window interval delay b.opens_at b.closes_at in
            rw (session_windows, expected)
              (session_windows-IsWanted date session all (seen ++ b ∷ []) bs (windows ++ w ∷ [])
                held cut further
                (All-append windows w wanted (record {
                  kind = (refl, refl);
                  bar = record {
                    date = date;
                    session = session;
                    held = held;
                    bars = all;
                    cut = cut;
                    before = seen;
                    after = bs;
                    place = place;
                  };
                  eligible = refl;
                  after = ground (arith, expected);
                  until = ground (arith, expected);
                })))
      ]

  open calendar use {zone, session_for_date}

  date_windows-IsWanted :
      (d : MarketDate) (windows : List CollectionWindow) {more : List CollectionWindow}
      → Wanted windows
      → date_windows calendar interval boundary latest delay limit d windows ≡ ok more
      → Wanted more
  unfolding date_windows
  date_windows-IsWanted d windows {more} wanted h =
      let (found, held, made) = bind-ok (session_for_date d) _ h in
      elim (Option-cases found) [
        | inl missing ↦
            let same : windows ≡ more = ground (arith, made, missing) in rw (sym same) wanted
        | inr (s, hit) ↦
            let rest : (bars_for_us_session s interval >>= λ bars.
            ok (session_windows interval boundary latest delay limit windows bars))
                ≡ ok more =
              ground (arith, made, hit) in
            let (bars, cut, same) = bind-ok (bars_for_us_session s interval) _ rest in
            rw (sym (same_value same))
              (session_windows-IsWanted d s bars [] bars windows (held ∙ ap ok hit) cut refl wanted)
      ]

  date_loop-IsWanted :
      (n : ℕ) (end d : MarketDate) (windows : List CollectionWindow)
      → validate_date end ≡ ok tt
      → validate_date d ≡ ok tt
      → order end - order d < n
      → Wanted windows
      → (r : Result (List CollectionWindow)) × (date_loop calendar n interval boundary latest delay
            limit end d windows
          ≡ some r)
        × ((found : List CollectionWindow) → r ≡ ok found → Wanted found)
  unfolding date_loop
  date_loop-IsWanted zero end d windows ending valid room wanted =
      let no : ⊥ = omega (arith, room) in elim no [ ]
  date_loop-IsWanted (suc n) end d windows ending valid room wanted =
      elim (Bool-cases (has_room limit windows)) [
        | inr full ↦
            (ok windows, rw (date_loop, full) refl, λ found same. rw (sym (same_value same)) wanted)
        | inl open_room ↦
            elim (Result-cases
              (date_windows calendar interval boundary latest delay limit d windows)) [
                | inl (e, bad) ↦
                    (err e, rw (date_loop, open_room, bad) refl, λ found same. ground (arith, same))
                | inr (more, good) ↦
                    let wants = date_windows-IsWanted d windows {more = more} wanted good in
                    elim (Bool-cases (is_before_date d end)) [
                      | inr last ↦ (
                        ok more,
                        rw (date_loop, open_room, good, last) refl,
                        λ found same. rw (sym (same_value same)) wants,
                      )
                      | inl before ↦ elim (Result-cases (validate_date (next_day d))) [
                        | inl (e, bad) ↦ (
                          err e,
                          rw (date_loop, open_room, good, before, bad) refl,
                          λ found same. ground (arith, same),
                        )
                        | inr (_, next) ↦
                            let (r, ends, holds) =
                              date_loop-IsWanted n end (next_day d) more ending next
                                (omega (
                                  arith,
                                  room,
                                  next_day-order d valid,
                                  before_date-order d end valid ending before,
                                ))
                                wants in
                            (r, rw (date_loop, open_room, good, before, next) ends, holds)
                      ]
                    ]
              ]
      ]

date_in_location-valid :
    (zone : Zone) (t : Instant) {d : MarketDate}
    → date_in_location zone t ≡ ok d
    → validate_date d ≡ ok tt
unfolding date_in_location
date_in_location-valid zone t h =
    let (_, _, v1) = bind-ok (refuse_if (is_zero t) invalid_data) _ h in
    let (_, valid, same) = bind-ok (validate_date (zone.date_at t)) _ v1 in
    rw (sym (same_value same)) valid

module _ (calendar : TradingCalendar) where
  open calendar use {zone}

  -- With any calendar whose time zone has a proper date for the end of the latest window, expectedUSWindows
  -- ends. Each window that it returns is one bar of a session of the calendar, with the close trigger, that
  -- closes after the boundary and opens no later than the latest window, eligible when the delay after its close has
  -- passed.
  pub expected_us_windows-IsWanted :
      (interval : BarInterval) (boundary : Instant) (latest : CollectionWindow) (delay : Duration)
      (limit : ℤ)
      → validate_date (zone.date_at latest.range_end) ≡ ok tt
      → (r : Result (List CollectionWindow)) × (expected_us_windows calendar interval boundary
            latest delay limit
          ≡ some r)
        × ((found : List CollectionWindow)
            → r ≡ ok found
            → All (IsWanted calendar interval boundary latest.range_start delay) found)
  unfolding expected_us_windows date_in_location
  expected_us_windows-IsWanted interval boundary latest delay limit ending =
      elim (Result-cases (date_in_location zone boundary)) [
        | inl (e, bad) ↦
            (err e, rw (expected_us_windows, bad) refl, λ found same. ground (arith, same))
        | inr (d, good) ↦
            let end = zone.date_at latest.range_end in
            let (r, ends, holds) =
              date_loop-IsWanted calendar interval boundary latest.range_start delay limit
                (suc (order end - order d)) end d [] ending
                (date_in_location-valid zone boundary good) (omega arith) tt in
            (r, rw (expected_us_windows, good) ends, holds)
      ]
