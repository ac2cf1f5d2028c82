-- ===== src/Ingestion/Fetch.antt =====
-- Service.fetchAllBars of ingestion/service.go: the pages of a provider, joined and sorted.
pub mod Joined
use xr_trading.Base.{
  ℕ, zero, suc, Bool, true, false, ◌||◌, Option, none, some, List, [], ◌∷◌, ◌++◌, ltb, ◌==◌, ℤ, pos,
  negsuc, if◌then◌else◌,
}
use xr_trading.Domain.Errors.{
  Sentinel, Result, ok, err, sentinel, refuse_if, ◌>>=◌, ◌>>◌, invalid_data,
  provider_limit_exceeded,
}
use xr_trading.Domain.Time.{Instant}
use xr_trading.Ingestion.Adapter.{ProviderBar, FetchBarsRequest, FetchBarsResult, validate_result}

-- What the loop calls: the state of the context, the registry's check and the adapter. Each may
-- change what the others see.
pub record BarSource : Type 1 where
  pub State : Type 0
  pub context_error : State → Option Sentinel
  pub validate_bars_request : FetchBarsRequest → Result (Unit {0})
  pub fetch_bars : FetchBarsRequest → State → Result FetchBarsResult × State

-- `_, duplicate := seen[bar.OpenTime]`: the open times seen are those of the bars collected.
unfoldable pub is_seen : Instant → List ProviderBar → Bool
is_seen t [] = false
is_seen t (b ∷ bs) = b.open_time == t || is_seen t bs

-- The loop over one page.
unfoldable pub collect : List ProviderBar → List ProviderBar → Result (List ProviderBar)
unfolding is_seen
collect bars [] = ok bars
collect bars (b ∷ page) =
    refuse_if (is_seen b.open_time bars) invalid_data >> collect (bars ++ (b ∷ [])) page

unfoldable pub insert : ProviderBar → List ProviderBar → List ProviderBar
insert b [] = b ∷ []
insert b (c ∷ cs) = if ltb c.open_time b.open_time then c ∷ insert b cs else b ∷ c ∷ cs

-- sort.Slice by open time; the open times differ, so there is one sorted order.
unfoldable pub sort_bars : List ProviderBar → List ProviderBar
unfolding insert
sort_bars [] = []
sort_bars (b ∷ bs) = insert b (sort_bars bs)

abbrev pub refuse_canceled : Option Sentinel → Result (Unit {0})
refuse_canceled none = ok tt
refuse_canceled (some e) = err (sentinel e)

-- `page < maximum` from page 0 on: the number of rounds.
abbrev pub rounds : ℤ → ℕ
rounds (pos n) = n
rounds (negsuc _) = 0

module _ (source : BarSource) where
  open source use {State, context_error, validate_bars_request, fetch_bars}

  -- What the loop asks before it calls the adapter.
  unfoldable pub admit : FetchBarsRequest → State → Result (Unit {0})
  admit request s = refuse_canceled (context_error s) >> validate_bars_request request

  -- What the loop makes of an answer, given the bars of the pages before.
  unfoldable pub accept :
      FetchBarsRequest
      → List ProviderBar
      → Result FetchBarsResult
      → Result (FetchBarsResult × List ProviderBar)
  accept request bars answer = do
    result ← answer
    validate_result request result
    joined ← collect bars result.bars
    ok (result, joined)

  -- The loop, with so many rounds left.
  unfoldable pub fetch_pages :
      ℕ → FetchBarsRequest → List ProviderBar → State → Result (List ProviderBar) × State
  fetch_pages zero request bars s = (err (sentinel provider_limit_exceeded), s)
  fetch_pages (suc n) request bars s =
      let (answer, s') = fetch_bars request s in
      elim (admit request s) [
        | err e ↦ (err e, s)
        | ok _ ↦ elim (accept request bars answer) [
          | err e ↦ (err e, s')
          | ok (result, joined) ↦ elim result.has_more [
            | true ↦ fetch_pages n (record request { cursor = result.next_cursor }) joined s'
            | false ↦ (ok (sort_bars joined), s')
          ]
        ]
      ]

  unfoldable pub fetch_all_bars : ℤ → FetchBarsRequest → State → Result (List ProviderBar) × State
  fetch_all_bars maximum_pages request s = fetch_pages (rounds maximum_pages) request [] s
