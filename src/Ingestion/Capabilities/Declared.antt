-- ===== src/Ingestion/Capabilities/Declared.antt =====
-- What accepted capabilities declare.
use xr_trading.Base.{
  ◌<◌, ◌≡◌, refl, Bool, true, false, not, ◌&&◌, List, [], ◌∷◌, All, arith, ◌⊎◌, ◌==◌, length, ltz,
  pos,
}
use xr_trading.Domain.Text.{same_text}
use xr_trading.Domain.Errors.{ok, bind-ok, refuse_if, invalid_data}
use xr_trading.Domain.Interval.{BarInterval, same_interval}
use xr_trading.Ingestion.Adapter.{validate_provider_market}
use xr_trading.Ingestion.Capabilities.{
  ProviderMarketCapability, ProviderCapabilities, is_among, check_distinct, validate_asset_types,
  validate_instrument_types, is_interval, check_quote_limit, check_bar_limit,
  validate_market_capability, is_declared, check_markets, validate_capabilities,
}

-- An operation is declared exactly with its limits.
pub record IsLimited (c : ProviderMarketCapability) : Type 0 where
  pub useful : (c.supports_quote ≡ true) ⊎ (c.supports_bars ≡ true)
  pub batch : ltz (pos 0) c.max_batch_size ≡ c.supports_quote
  pub bars : ltz (pos 0) c.max_bars_per_request ≡ c.supports_bars
  pub timed : c.supports_bars ≡ true → 0 < length c.intervals
  pub untimed : c.supports_bars ≡ false → c.intervals ≡ []
  pub known : All (λ i. is_interval i ≡ true) c.intervals

checked-known :
    {A : Type 0} (known : A → Bool) (same : A → A → Bool) (seen xs : List A)
    → check_distinct known same seen xs ≡ ok tt
    → All (λ x. known x ≡ true) xs
unfolding check_distinct
checked-known known same seen [] h = tt
checked-known known same seen (x ∷ xs) h =
    let (_, fits, h1) = bind-ok (refuse_if (not (known x)) invalid_data) _ h in
    let (_, _, rest) = bind-ok (refuse_if (is_among known same x seen) invalid_data) _ h1 in
    (ground (arith, fits), checked-known known same (x ∷ seen) xs rest)

empty : (xs : List BarInterval) → (length xs == 0) ≡ true → xs ≡ []
empty [] h = refl
empty (x ∷ xs) h = ground (arith, h)

market-IsLimited :
    (c : ProviderMarketCapability) → validate_market_capability c ≡ ok tt → IsLimited c
unfolding validate_market_capability
market-IsLimited c h =
    let (_, _, h1) = bind-ok (validate_provider_market c.provider_market) _ h in
    let (_, _, h2) = bind-ok (validate_asset_types c.asset_types) _ h1 in
    let (_, _, h3) = bind-ok (validate_instrument_types c.instrument_types) _ h2 in
    let (_, useful, h4) =
      bind-ok (refuse_if (not c.supports_quote && not c.supports_bars) invalid_data) _ h3 in
    let (_, quote, h5) = bind-ok (check_quote_limit c) _ h4 in
    let (_, bar, h6) = bind-ok (check_bar_limit c) _ h5 in
    record {
      useful = ground (arith, useful);
      batch = ground (arith, quote);
      bars = ground (arith, bar);
      timed = λ e. ground (arith, bar, e);
      untimed = λ e. empty c.intervals (ground (arith, bar, e));
      known = checked-known is_interval same_interval [] c.intervals h6;
    }

markets-IsLimited :
    (seen cs : List ProviderMarketCapability) → check_markets seen cs ≡ ok tt → All IsLimited cs
unfolding check_markets
markets-IsLimited seen [] h = tt
markets-IsLimited seen (c ∷ cs) h =
    let (_, fits, h1) = bind-ok (validate_market_capability c) _ h in
    let (_, _, rest) = bind-ok (refuse_if (is_declared c.provider_market seen) invalid_data) _ h1 in
    (market-IsLimited c fits, markets-IsLimited (c ∷ seen) cs rest)

-- In capabilities that Validate accepts, each market supports quotes or bars, has a positive
-- batch size exactly when it supports quotes and a positive limit of bars exactly when it supports bars, and
-- declares intervals, all of them supported ones, exactly when it supports bars; there is at least one market.
pub validate_capabilities-IsLimited :
    (c : ProviderCapabilities)
    → validate_capabilities c ≡ ok tt
    → (0 < length c.markets) × All IsLimited c.markets
unfolding validate_capabilities
validate_capabilities-IsLimited c h =
    let (_, _, h1) = bind-ok (refuse_if (same_text c.provider_code "") invalid_data) _ h in
    let (_, some_market, h2) = bind-ok (refuse_if (length c.markets == 0) invalid_data) _ h1 in
    (ground (arith, some_market), markets-IsLimited [] c.markets h2)
