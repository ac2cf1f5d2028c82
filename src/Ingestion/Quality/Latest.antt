-- ===== src/Ingestion/Quality/Latest.antt =====
-- The checkpoint of a success names the latest closed bar.
use xr_trading.Base.{
  ◌≤◌, ◌≡◌, refl, sym, true, false, ◌&&◌, Option, none, some, List, [], ◌∷◌, All, arith, ltb,
  Bool-cases, inl, inr, ◌⊎◌,
}
use xr_trading.Domain.Time.{Instant}
use xr_trading.Domain.Task.{Uuid}
use xr_trading.Domain.MarketData.{MarketBar}
use xr_trading.Ingestion.Quality.{latest_closed, successful_checkpoint}

-- One of the bars is closed and opens at `t`.
pub data HasClosed (t : Instant) : List MarketBar → Type 0 where
  here :
      {b : MarketBar} {bs : List MarketBar}
      → b.is_closed ≡ true
      → b.open_time ≡ t
      → HasClosed t (b ∷ bs)
  later : {b : MarketBar} {bs : List MarketBar} → HasClosed t bs → HasClosed t (b ∷ bs)

-- The latest open time of the closed bars; none where no bar is closed.
pub data IsLatest (bars : List MarketBar) : Option Instant → Type 0 where
  nothing_closed : All (λ b. b.is_closed ≡ false) bars → IsLatest bars none
  latest_of :
      {t : Instant}
      → HasClosed t bars
      → All (λ b. b.is_closed ≡ true → b.open_time ≤ t) bars
      → IsLatest bars (some t)

-- What the loop makes of a time that it already has.
kept_time :
    (last : Instant) (bars : List MarketBar)
    → (t : Instant) × (latest_closed (some last) bars ≡ some t)
      × ((t ≡ last) ⊎ HasClosed t bars)
      × (last ≤ t)
      × All (λ b. b.is_closed ≡ true → b.open_time ≤ t) bars
unfolding latest_closed
kept_time last [] = (last, refl, inl refl, omega arith, tt)
kept_time last (b ∷ bs) = elim (Bool-cases (b.is_closed && ltb last b.open_time)) [
  | inl taken ↦
      let (t, found, from, le, all) = kept_time b.open_time bs in
      (
        t,
        rw taken found,
        inr (elim from [ inl e ↦ here (ground (arith, taken)) (sym e) | inr h ↦ later h ]),
        ground (arith, taken, le),
        (λ _. le, all),
      )
  | inr passed ↦
      let (t, found, from, le, all) = kept_time last bs in
      (
        t,
        rw passed found,
        elim from [ inl e ↦ inl e | inr h ↦ inr (later h) ],
        le,
        ((λ closed. ground (arith, passed, closed, le)), all),
      )
]

latest_closed-IsLatest : (bars : List MarketBar) → IsLatest bars (latest_closed none bars)
unfolding latest_closed
latest_closed-IsLatest [] = nothing_closed tt
latest_closed-IsLatest (b ∷ bs) = elim (Bool-cases b.is_closed) [
  | inl closed ↦
      let (t, found, from, le, all) = kept_time b.open_time bs in
      let result : latest_closed none (b ∷ bs) ≡ some t = rw (latest_closed, closed, found) refl in
      rw result
        (latest_of (elim from [ inl e ↦ here closed (sym e) | inr h ↦ later h ]) (λ _. le, all))
  | inr open_bar ↦
      let result : latest_closed none (b ∷ bs) ≡ latest_closed none bs =
        rw (latest_closed, open_bar) refl in
      rw result (add_open b bs open_bar (latest_closed-IsLatest bs))
]
  where
    add_open :
        (b : MarketBar) (bs : List MarketBar) {o : Option Instant}
        → b.is_closed ≡ false
        → IsLatest bs o
        → IsLatest (b ∷ bs) o
    add_open b bs e (nothing_closed all) = nothing_closed (e, all)
    add_open b bs e (latest_of has all) =
        latest_of (later has) (λ closed. ground (arith, e, closed), all)

-- The checkpoint that a success commits for its subscription has, as its last successful and its last
-- closed open time, the latest open time of the closed bars, and none where no bar is closed:
-- a bar that is still open never advances the checkpoint.
pub successful_checkpoint-IsLatest :
    (id : Uuid) (bars : List MarketBar) (now : Instant)
    → let c = successful_checkpoint id bars now in
      (c.subscription_id ≡ id)
      × (c.last_success_open_time ≡ c.last_closed_open_time)
      × IsLatest bars c.last_closed_open_time
unfolding successful_checkpoint
successful_checkpoint-IsLatest id bars now = (refl, refl, latest_closed-IsLatest bars)
