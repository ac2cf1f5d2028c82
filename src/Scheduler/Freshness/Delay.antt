-- ===== src/Scheduler/Freshness/Delay.antt =====
-- The sum of trading time ends, and is no more than the time that has passed.
use xr_trading.Base.{
  ◌∙◌, ℕ, zero, suc, ◌+◌, ◌-◌, ◌≡◌, refl, ap, inl, inr, some, Option-cases, Bool-cases, ltb, ◌<◌,
  ◌≤◌, arith,
}
use xr_trading.Domain.Errors.{Result, Result-cases, ok, err, bind-ok, same_value}
use xr_trading.Domain.Time.{Instant}
use xr_trading.MarketTime.Date.{MarketDate}
use xr_trading.MarketTime.Calendar.{MarketSession, TradingCalendar}
use xr_trading.MarketTime.Nyse.{IsCalendar}
use xr_trading.Scheduler.Freshness.{session_from, share, trading_loop, regular_trading_duration}

module _ (utc_date : Instant → MarketDate) (calendar : TradingCalendar)
    (laws : IsCalendar calendar) where
  open calendar use {session_at, next_session}

  session_from-later :
      (cursor : Instant) (s : MarketSession)
      → session_from utc_date calendar cursor ≡ ok s
      → cursor < s.closes_at
  unfolding session_from
  session_from-later cursor s h =
      let (active, answered, made) = bind-ok (session_at cursor) _ h in
      elim (Option-cases active) [
        | inl missing ↦
            let later : next_session cursor ≡ ok s = ground (arith, made, missing) in
            let (opens, closes) = laws.later cursor s later in omega (arith, opens, closes)
        | inr (found, hit) ↦
            let same : found ≡ s = ground (arith, made, hit) in
            (laws.within cursor s (answered ∙ ap ok (hit ∙ ap some same))).1
      ]

  share-bound :
      (s : MarketSession) (cursor to : Instant)
      → cursor < to
      → share utc_date calendar s cursor to ≤ to - cursor
  unfolding share
  share-bound s cursor to lt = ground arith

  share-closed :
      (s : MarketSession) (cursor to : Instant)
      → s.closes_at < to
      → cursor < s.closes_at
      → share utc_date calendar s cursor to + (to - s.closes_at) ≤ to - cursor
  unfolding share
  share-closed s cursor to lt before = ground arith

  -- The loop ends, and adds no more than what is left.
  trading_loop-bound :
      (n total : ℕ) (cursor to : Instant)
      → to - cursor < n
      → (r : Result ℕ) × (trading_loop utc_date calendar n total cursor to ≡ some r)
        × ((sum : ℕ) → r ≡ ok sum → (total ≤ sum) × (sum ≤ total + (to - cursor)))
  unfolding trading_loop
  trading_loop-bound zero total cursor to room = let no : ⊥ = omega (arith, room) in elim no [ ]
  trading_loop-bound (suc n) total cursor to room = elim (Bool-cases (ltb cursor to)) [
    | inr done ↦ (
      ok total,
      rw (trading_loop, done) refl,
      λ sum same. let e : total ≡ sum = same_value same in (omega (arith, e), omega (arith, e)),
    )
    | inl going ↦
        let lt : cursor < to = ground (arith, going) in
        elim (Result-cases (session_from utc_date calendar cursor)) [
          | inl (e, bad) ↦
              (err e, rw (trading_loop, going, bad) refl, λ sum same. ground (arith, same))
          | inr (s, good) ↦
              let before = session_from-later cursor s good in
              let part = share utc_date calendar s cursor to in
              elim (Bool-cases (ltb s.closes_at to)) [
                | inr last ↦ (
                  ok (total + part),
                  rw (trading_loop, going, good, last) refl,
                  λ sum same.
                      let e : total + part ≡ sum = same_value same in
                      (omega (arith, e), omega (arith, e, share-bound s cursor to lt)),
                )
                | inl more ↦
                    let closes : s.closes_at < to = ground (arith, more) in
                    let (r, ends, bound) =
                      trading_loop-bound n (total + part) s.closes_at to
                        (omega (arith, room, before, closes)) in
                    (
                      r,
                      rw (trading_loop, going, good, more) ends,
                      λ sum same.
                          let (low, high) = bound sum same in
                          (
                            omega (arith, low),
                            omega (arith, high, share-closed s cursor to closes before),
                          ),
                    )
              ]
        ]
  ]

  -- With a calendar that keeps its laws, the loop of regularTradingDuration ends, and the trading time that
  -- it returns is at most the time between the two instants.
  pub regular_trading_duration-bound :
      (from to : Instant)
      → (r : Result ℕ) × (regular_trading_duration utc_date calendar from to ≡ some r)
        × ((sum : ℕ) → r ≡ ok sum → sum ≤ to - from)
  unfolding regular_trading_duration
  regular_trading_duration-bound from to =
      let (r, ends, bound) = trading_loop-bound (suc (to - from)) 0 from to (omega arith) in
      (r, ends, λ sum same. let (_, high) = bound sum same in omega (arith, high))
