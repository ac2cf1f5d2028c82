-- ===== src/Ingestion/Quality/Passes.antt =====
-- What the structural validator returns for fetched bars passes the service's checks.
use xr_trading.Base.{
  ℕ, suc, ◌<◌, ◌≡◌, refl, sym, String, false, Option, none, some, List, [], ◌∷◌, All, arith,
}
use xr_trading.Domain.Errors.{Sentinel, bind-ok, ok}
use xr_trading.Domain.Time.{Instant}
use xr_trading.Domain.MarketData.{MarketBar, validate_bar, new_bar}
use xr_trading.Ingestion.Adapter.{
  ProviderInstrumentRef, FetchBarsRequest, ProviderBar, validate_bar_for, validate_reference,
  validate_provider_bar, is_not_after,
}
use xr_trading.Ingestion.Fetch.{refuse_canceled}
use xr_trading.Ingestion.Fetch.Joined.{IsRequested, IsAscending, IsJoined}
use xr_trading.Ingestion.Quality.{
  QualityResult, raw_payload_metadata, assessed_bar, assess_bar, assess_bars, validate_bars,
  is_foreign, has_open_time, check_result_bars, check_result_issues, validate_quality_result,
}

-- A bar of the result and the provider's bar that it stands for.
record IsFrom (b : ProviderBar) (m : MarketBar) : Type 0 where
  valid : validate_bar m ≡ ok tt
  instrument : m.instrument_id ≡ b.instrument_id
  source : m.provider_instrument_id ≡ b.provider_instrument_id
  interval : m.interval ≡ b.interval
  open_time : m.open_time ≡ b.open_time

new_bar-valid : (given : MarketBar) {m : MarketBar} → new_bar given ≡ ok m → validate_bar m ≡ ok tt
unfolding new_bar
new_bar-valid given {m} h =
    let (_, valid, made) = bind-ok (validate_bar _) _ h in ground (arith, valid, made)

-- The reference's identities are those of the bar.
own_ids :
    (r : ProviderInstrumentRef) (b : ProviderBar)
    → validate_bar_for r b ≡ ok tt
    → (b.instrument_id ≡ r.instrument_id) × (b.provider_instrument_id ≡ r.provider_instrument_id)
unfolding validate_bar_for
own_ids r b h =
    let (_, _, v1) = bind-ok (validate_reference r) _ h in
    let (_, _, v2) = bind-ok (validate_provider_bar b) _ v1 in ground (arith, v2)

-- A bar that comes after those seen.
record IsFresh (seen : List MarketBar) (previous : Option Instant) (b : ProviderBar) : Type 0 where
  ordered : is_not_after previous b.open_time ≡ false
  unseen : has_open_time b.open_time seen ≡ false

IsFresh-first : (bs : List ProviderBar) → All (IsFresh [] none) bs
unfolding has_open_time
IsFresh-first [] = tt
IsFresh-first (b ∷ bs) = (record { ordered = refl; unseen = refl }, IsFresh-first bs)

IsFresh-next :
    (m : MarketBar) (seen : List MarketBar) (previous : Option Instant) (bs : List ProviderBar)
    → All (λ c. m.open_time < c.open_time) bs
    → All (IsFresh seen previous) bs
    → All (IsFresh (m ∷ seen) (some m.open_time)) bs
unfolding has_open_time
IsFresh-next m seen previous [] a f = tt
IsFresh-next m seen previous (c ∷ bs) a f = (
  record { ordered = ground (arith, a.0); unseen = ground (arith, a.0, f.0.unseen) },
  IsFresh-next m seen previous bs a.1 f.1,
)

foreign :
    (request : FetchBarsRequest) (b : ProviderBar) (m : MarketBar)
    → IsRequested request b
    → IsFrom b m
    → is_foreign request.instrument request.interval request.start_time request.end_time m ≡ false
foreign request b m q from = ground (
  arith,
  own_ids request.instrument b q.own,
  q.interval,
  q.not_before,
  q.before_end,
  from.instrument,
  from.source,
  from.interval,
  from.open_time,
)

module _ (hash : ProviderBar → String) where
  assess_bar-IsFrom :
      (r : ProviderInstrumentRef) (b : ProviderBar) {m : MarketBar}
      → assess_bar hash r b ≡ ok m
      → IsFrom b m
  unfolding assess_bar new_bar
  assess_bar-IsFrom r b {m} h =
      let (_, _, v1) = bind-ok (validate_bar_for r b) _ h in
      let (metadata, _, made) = bind-ok (raw_payload_metadata b.raw_payload) _ v1 in
      let (_, _, same) = bind-ok (validate_bar _) _ made in
      record {
        valid = new_bar-valid (assessed_bar (hash b) metadata b) made;
        instrument = ground (arith, same);
        source = ground (arith, same);
        interval = ground (arith, same);
        open_time = ground (arith, same);
      }

  checked :
      (request : FetchBarsRequest) (canceled : ℕ → Option Sentinel) (index : ℕ)
      (bs : List ProviderBar) (seen : List MarketBar) (previous : Option Instant)
      {bars : List MarketBar}
      → All (IsRequested request) bs
      → IsAscending bs
      → All (IsFresh seen previous) bs
      → assess_bars hash canceled request.instrument index bs ≡ ok bars
      → check_result_bars request.instrument request.interval request.start_time request.end_time
          seen previous bars
        ≡ ok tt
  unfolding assess_bars check_result_bars
  checked request canceled index [] seen previous {bars} q a fresh h =
      let same : List.[] ≡ bars = ground (arith, h) in rw (sym same) refl
  checked request canceled index (b ∷ bs) seen previous {bars} q a fresh h =
      let (_, _, v1) = bind-ok (refuse_canceled (canceled index)) _ h in
      let (m, made, v2) = bind-ok (assess_bar hash request.instrument b) _ v1 in
      let (ms, rest, last) =
        bind-ok (assess_bars hash canceled request.instrument (suc index) bs) _ v2 in
      let same : m ∷ ms ≡ bars = ground (arith, last) in
      let from = assess_bar-IsFrom request.instrument b made in
      let own : is_foreign request.instrument request.interval request.start_time request.end_time m
          ≡ false =
        foreign request b m q.0 from in
      let unseen : has_open_time m.open_time seen ≡ false = rw from.open_time fresh.0.unseen in
      let ordered : is_not_after previous m.open_time ≡ false = rw from.open_time fresh.0.ordered in
      rw (sym same, from.valid, own, unseen, ordered)
        (checked request canceled (suc index) bs (m ∷ seen) (some m.open_time) {bars = ms} q.1 a.1
          (IsFresh-next m seen previous bs (rw from.open_time a.0) fresh.1) rest)

  -- When the structural validator accepts the bars that fetchAllBars joined for a request, its result
  -- passes the service's own check of a quality result for that request: it is never refused there.
  pub validate_bars-accepted :
      (request : FetchBarsRequest) (canceled : ℕ → Option Sentinel) (bars : List ProviderBar)
      {result : QualityResult}
      → IsJoined request bars
      → validate_bars hash canceled (ok request.instrument) bars ≡ ok result
      → validate_quality_result result request.instrument request.interval request.start_time
          request.end_time
        ≡ ok tt
  unfolding validate_bars validate_quality_result check_result_issues
  validate_bars-accepted request canceled bars {result} joined h =
      let (made, assessed, last) =
        bind-ok (assess_bars hash canceled request.instrument 0 bars) _ h in
      let same : record { bars = made; issues = [] } ≡ result = ground (arith, last) in
      let passed =
        checked request canceled 0 bars [] none {bars = made} joined.requested joined.ascending
          (IsFresh-first bars) assessed in
      rw (sym same, validate_quality_result, passed) refl
