-- ===== src/Scheduler/Sessions/Latest.antt =====
-- The search for the newest bar that is due ends, and finds it.
use xr_trading.Base.{
  true, All, ◌++◌, ℕ, zero, suc, ◌≡◌, refl, sym, ap, ◌∙◌, inl, inr, ◌||◌, not, Option, none, some,
  Option-cases, List, [], ◌∷◌, Bool-cases, ltb, ltz, pos, ◌<◌, ◌≤◌, arith,
}
use xr_trading.Domain.Errors.{
  Error, Result, Result-cases, ok, err, errors_is, refuse_if, bind-ok, invalid_data,
  calendar_out_of_range,
}
use xr_trading.Domain.Time.{Instant, Duration, is_zero, add}
use xr_trading.Domain.Interval.{BarInterval}
use xr_trading.MarketTime.Calendar.{MarketSession, TradingCalendar, date_in_location}
use xr_trading.MarketTime.Date.{MarketDate}
use xr_trading.MarketTime.Nyse.{ended, ended-some, IsCalendar}
use xr_trading.Scheduler.Window.{
  CollectionWindow, WindowTrigger, is_supported, duration_for_interval,
}
use xr_trading.Scheduler.Sessions.{
  ScheduledUsBar, last_due, bars_for_us_session, unless_out_of_range, search_sessions,
  latest_eligible_us_bar, starting_session, us_window, window_from, calculate_latest_us_window,
}

-- A bar whose close and delay have not passed at the time.
abbrev pub IsLate : Instant → Duration → ScheduledUsBar → Type 0
IsLate t delay b = t < add b.closes_at delay

-- The last bar of a list that is not late.
pub record IsLastDue (t : Instant) (delay : Duration) (bars : List ScheduledUsBar)
    (bar : ScheduledUsBar) : Type 0 where
  pub before : List ScheduledUsBar
  pub after : List ScheduledUsBar
  pub place : before ++ bar ∷ after ≡ bars
  pub due : add bar.closes_at delay ≤ t
  pub late : All (IsLate t delay) after

-- The search from a session back: the last due bar of the first session that has one.
pub data Finds (calendar : TradingCalendar) (interval : BarInterval) (t : Instant)
    (delay : Duration) : MarketSession → ScheduledUsBar → Type 0 where
  here :
      {s : MarketSession} {bars : List ScheduledUsBar} {bar : ScheduledUsBar}
      → bars_for_us_session s interval ≡ ok bars
      → IsLastDue t delay bars bar
      → Finds calendar interval t delay s bar
  back :
      {s previous : MarketSession} {bars : List ScheduledUsBar} {bar : ScheduledUsBar}
      → bars_for_us_session s interval ≡ ok bars
      → All (IsLate t delay) bars
      → calendar.previous_session s.opens_at ≡ ok previous
      → Finds calendar interval t delay previous bar
      → Finds calendar interval t delay s bar

-- No session from one back, to the end of the calendar, has a bar that is due.
pub data Lacks (calendar : TradingCalendar) (interval : BarInterval) (t : Instant)
    (delay : Duration) : MarketSession → Type 0 where
  first :
      {s : MarketSession} {bars : List ScheduledUsBar} (e : Error)
      → bars_for_us_session s interval ≡ ok bars
      → All (IsLate t delay) bars
      → calendar.previous_session s.opens_at ≡ err e
      → errors_is e calendar_out_of_range ≡ true
      → Lacks calendar interval t delay s
  further :
      {s previous : MarketSession} {bars : List ScheduledUsBar}
      → bars_for_us_session s interval ≡ ok bars
      → All (IsLate t delay) bars
      → calendar.previous_session s.opens_at ≡ ok previous
      → Lacks calendar interval t delay previous
      → Lacks calendar interval t delay s

last_due-none :
    (t : Instant) (delay : Duration) (bars : List ScheduledUsBar)
    → last_due t delay bars ≡ none
    → All (IsLate t delay) bars
unfolding last_due
last_due-none t delay [] h = tt
last_due-none t delay (b ∷ bs) h = elim (Option-cases (last_due t delay bs)) [
  | inr (found, later) ↦ ground (arith, h, later)
  | inl missing ↦ elim (Bool-cases (ltb t (add b.closes_at delay))) [
    | inl early ↦ (ground (arith, early), last_due-none t delay bs missing)
    | inr due ↦ ground (arith, h, missing, due)
  ]
]

last_due-IsLastDue :
    (t : Instant) (delay : Duration) (bars : List ScheduledUsBar) {bar : ScheduledUsBar}
    → last_due t delay bars ≡ some bar
    → IsLastDue t delay bars bar
unfolding last_due
last_due-IsLastDue t delay [] h = ground (arith, h)
last_due-IsLastDue t delay (b ∷ bs) {bar} h = elim (Option-cases (last_due t delay bs)) [
  | inr (found, later) ↦
      let same : found ≡ bar = ground (arith, h, later) in
      let rest = last_due-IsLastDue t delay bs {bar = found} later in
      let whole : IsLastDue t delay (b ∷ bs) found = record {
        before = b ∷ rest.before;
        after = rest.after;
        place = ap (λ l. b ∷ l) rest.place;
        due = rest.due;
        late = rest.late;
      } in
      rw (sym same) whole
  | inl missing ↦ elim (Bool-cases (ltb t (add b.closes_at delay))) [
    | inl early ↦ ground (arith, h, missing, early)
    | inr due ↦
        let same : b ≡ bar = ground (arith, h, missing, due) in
        let whole : IsLastDue t delay (b ∷ bs) b = record {
          before = [];
          after = bs;
          place = refl;
          due = ground (arith, due);
          late = last_due-none t delay bs missing;
        } in
        rw (sym same) whole
  ]
]

module _ (calendar : TradingCalendar) (laws : IsCalendar calendar) where
  open calendar use {previous_session}

  search_sessions-ends :
      (n : ℕ) (s : MarketSession) (interval : BarInterval) (t : Instant) (delay : Duration)
      → s.opens_at < n
      → (r : Result (Option ScheduledUsBar)) × (search_sessions calendar n s interval t delay
          ≡ some r)
  unfolding search_sessions
  search_sessions-ends zero s interval t delay room =
      let no : ⊥ = omega (arith, room) in elim no [ ]
  search_sessions-ends (suc n) s interval t delay room =
      elim (Result-cases (bars_for_us_session s interval)) [
        | inl (e, bad) ↦ (err e, rw (search_sessions, bad) refl)
        | inr (bars, good) ↦ elim (Option-cases (last_due t delay bars)) [
          | inr (bar, due) ↦ (ok (some bar), rw (search_sessions, good, due) refl)
          | inl missing ↦ elim (Result-cases (previous_session s.opens_at)) [
            | inl (e, left) ↦
                (unless_out_of_range e, rw (search_sessions, good, missing, left) refl)
            | inr (previous, found) ↦
                let (opens, closed) = laws.earlier s.opens_at previous found in
                let (r, ends) =
                  search_sessions-ends n previous interval t delay
                    (omega (arith, opens, closed, room)) in
                (r, rw (search_sessions, good, missing, found) ends)
          ]
        ]
      ]

  -- The loop of latestEligibleUSBar ends, with any calendar that keeps its laws.
  pub latest_eligible_us_bar-ends :
      (s : MarketSession) (interval : BarInterval) (t : Instant) (delay : Duration)
      → (r : Result (Option ScheduledUsBar)) × (latest_eligible_us_bar calendar s interval t delay
          ≡ some r)
  unfolding latest_eligible_us_bar
  latest_eligible_us_bar-ends s interval t delay =
      search_sessions-ends (suc s.opens_at) s interval t delay (omega arith)

module _ (calendar : TradingCalendar) where
  open calendar use {previous_session, session_for_date}

  pub search_sessions-Finds :
      (n : ℕ) (s : MarketSession) (interval : BarInterval) (t : Instant) (delay : Duration)
      {bar : ScheduledUsBar}
      → search_sessions calendar n s interval t delay ≡ some (ok (some bar))
      → Finds calendar interval t delay s bar
  unfolding search_sessions
  search_sessions-Finds zero s interval t delay h = ground (arith, h)
  search_sessions-Finds (suc n) s interval t delay {bar} h =
      elim (Result-cases (bars_for_us_session s interval)) [
        | inl (e, bad) ↦ ground (arith, h, bad)
        | inr (bars, good) ↦ elim (Option-cases (last_due t delay bars)) [
          | inr (found, due) ↦
              let same : found ≡ bar = ground (arith, h, good, due) in
              let hit : last_due t delay bars ≡ some bar = rw (sym same) due in
              here good (last_due-IsLastDue t delay bars hit)
          | inl missing ↦ elim (Result-cases (previous_session s.opens_at)) [
            | inl (e, left) ↦ elim (Bool-cases (errors_is e calendar_out_of_range)) [
              | inl out ↦ ground (arith, h, good, missing, left, out)
              | inr other ↦ ground (arith, h, good, missing, left, other)
            ]
            | inr (previous, found) ↦ back good (last_due-none t delay bars missing) found (
                search_sessions-Finds n previous interval t delay {bar = bar}
                  (ground (arith, h, good, missing, found)))
          ]
        ]
      ]

  pub search_sessions-Lacks :
      (n : ℕ) (s : MarketSession) (interval : BarInterval) (t : Instant) (delay : Duration)
      → search_sessions calendar n s interval t delay ≡ some (ok none)
      → Lacks calendar interval t delay s
  unfolding search_sessions
  search_sessions-Lacks zero s interval t delay h = ground (arith, h)
  search_sessions-Lacks (suc n) s interval t delay h =
      elim (Result-cases (bars_for_us_session s interval)) [
        | inl (e, bad) ↦ ground (arith, h, bad)
        | inr (bars, good) ↦ elim (Option-cases (last_due t delay bars)) [
          | inr (found, due) ↦ ground (arith, h, good, due)
          | inl missing ↦ elim (Result-cases (previous_session s.opens_at)) [
            | inl (e, left) ↦ elim (Bool-cases (errors_is e calendar_out_of_range)) [
              | inl out ↦ first e good (last_due-none t delay bars missing) left out
              | inr other ↦ ground (arith, h, good, missing, left, other)
            ]
            | inr (previous, found) ↦ further good (last_due-none t delay bars missing) found (
                search_sessions-Lacks n previous interval t delay
                  (ground (arith, h, good, missing, found)))
          ]
        ]
      ]

  pub Finds-due :
      {interval : BarInterval} {t : Instant} {delay : Duration} {s : MarketSession}
      {bar : ScheduledUsBar}
      → Finds calendar interval t delay s bar
      → add bar.closes_at delay ≤ t
  Finds-due (here _ last) = last.due
  Finds-due (back _ _ _ more) = Finds-due more

  -- The session to start from: that of the exchange's date once it has opened, and else the one before.
  pub data Starts (t : Instant) : MarketSession → Type 0 where
    today :
        {d : MarketDate} {s : MarketSession}
        → date_in_location calendar.zone t ≡ ok d
        → session_for_date d ≡ ok (some s)
        → s.opens_at ≤ t
        → Starts t s
    not_open :
        {d : MarketDate} {next s : MarketSession}
        → date_in_location calendar.zone t ≡ ok d
        → session_for_date d ≡ ok (some next)
        → t < next.opens_at
        → previous_session t ≡ ok s
        → Starts t s
    closed :
        {d : MarketDate} {s : MarketSession}
        → date_in_location calendar.zone t ≡ ok d
        → session_for_date d ≡ ok none
        → previous_session t ≡ ok s
        → Starts t s

  previous_found :
      (t : Instant) (s : MarketSession)
      → (elim (previous_session t) [ err e ↦ unless_out_of_range e | ok p ↦ ok (some p) ])
        ≡ ok (some s)
      → previous_session t ≡ ok s
  previous_found t s h = elim (Result-cases (previous_session t)) [
    | inl (e, bad) ↦ elim (Bool-cases (errors_is e calendar_out_of_range)) [
      | inl out ↦ ground (arith, h, bad, out)
      | inr other ↦ ground (arith, h, bad, other)
    ]
    | inr (p, found) ↦ ground (arith, h, found)
  ]

  starting_session-Starts :
      (t : Instant) (s : MarketSession) → starting_session calendar t ≡ ok (some s) → Starts t s
  unfolding starting_session
  starting_session-Starts t s h =
      let (d, dated, v1) = bind-ok (date_in_location calendar.zone t) _ h in
      let (found, held, v2) = bind-ok (session_for_date d) _ v1 in
      elim (Option-cases found) [
        | inl missing ↦
            closed dated (held ∙ ap ok missing) (previous_found t s (ground (arith, v2, missing)))
        | inr (p, hit) ↦ elim (Bool-cases (ltb t p.opens_at)) [
          | inl early ↦
              not_open dated (held ∙ ap ok hit) (ground (arith, early))
                (previous_found t s (ground (arith, v2, hit, early)))
          | inr opened ↦
              let same : p ≡ s = ground (arith, v2, hit, opened) in
              rw (sym same) (today dated (held ∙ ap ok hit) (ground (arith, opened)))
        ]
      ]

  -- What a window of CalculateLatestUSWindow is made of.
  pub record IsNewest (interval : BarInterval) (trigger : WindowTrigger) (t : Instant)
      (delay : Duration) (w : CollectionWindow) : Type 0 where
    pub start : MarketSession
    pub started : Starts t start
    pub bar : ScheduledUsBar
    pub newest : Finds calendar interval t delay start bar
    pub range : (w.range_start ≡ bar.opens_at) × (w.range_end ≡ bar.closes_at)
    pub eligible : w.eligible_at ≡ add w.range_end delay
    pub kind : (w.interval ≡ interval) × (w.trigger ≡ trigger)
    pub due : w.eligible_at ≤ t

  window_from-IsNewest :
      (start : Option MarketSession) (interval : BarInterval) (trigger : WindowTrigger)
      (t : Instant) (delay : Duration) (w : CollectionWindow)
      → starting_session calendar t ≡ ok start
      → window_from calendar start interval trigger t delay ≡ ok (some w)
      → IsNewest interval trigger t delay w
  unfolding window_from latest_eligible_us_bar
  window_from-IsNewest none interval trigger t delay w started h = ground (arith, h)
  window_from-IsNewest (some s) interval trigger t delay w started h =
      let (found, answered, made) =
        bind-ok (ended (latest_eligible_us_bar calendar s interval t delay)) _ h in
      elim (Option-cases found) [
        | inl missing ↦ ground (arith, made, missing)
        | inr (bar, hit) ↦
            let same : us_window calendar interval trigger delay bar ≡ w =
              ground (arith, made, hit) in
            let newest = search_sessions-Finds (suc s.opens_at) s interval t delay {bar = bar} (
              ended-some (latest_eligible_us_bar calendar s interval t delay)
                (answered ∙ ap ok hit)) in
            let whole : IsNewest interval trigger t delay
                (us_window calendar interval trigger delay bar) =
              record {
                start = s;
                started = starting_session-Starts t s started;
                bar = bar;
                newest = newest;
                range = (refl, refl);
                eligible = refl;
                kind = (refl, refl);
                due = Finds-due newest;
              } in
            rw (sym same) whole
      ]

  -- A window that CalculateLatestUSWindow returns has the interval and the trigger asked for, and is one bar of a
  -- session: the last bar of the session whose close and delay have passed at the observed time. The session is the
  -- one of the exchange's date if it has opened, and else the one before the observed time; when none of its
  -- bars is due, the one before it, and so on.
  pub calculate_latest_us_window-IsNewest :
      (interval : BarInterval) (trigger : WindowTrigger) (t : Instant) (delay : Duration)
      (w : CollectionWindow)
      → calculate_latest_us_window calendar interval trigger t delay ≡ ok (some w)
      → IsNewest interval trigger t delay w
  unfolding calculate_latest_us_window
  calculate_latest_us_window-IsNewest interval trigger t delay w h =
      let (_, _, v1) =
        bind-ok
          (refuse_if (is_zero t || ltz delay (pos 0) || not (is_supported trigger)) invalid_data) _
          h in
      let (_, _, v2) = bind-ok (duration_for_interval interval) _ v1 in
      let (start, started, v3) = bind-ok (starting_session calendar t) _ v2 in
      window_from-IsNewest start interval trigger t delay w started v3
