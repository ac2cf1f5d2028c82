-- ===== src/Ingestion/Execution/Resolved.antt =====
-- A reference stands for one consistent, active set of catalog rows.
use xr_trading.Base.{
  not-false, or_false, String, Bool, true, false, not, ◌==◌, ◌≡◌, refl, sym, arith,
}
use xr_trading.Domain.Errors.{refuse_if-ok, ok, refuse_if, bind-ok, invalid_state, invalid_data}
use xr_trading.Domain.Task.{same_id}
use xr_trading.Domain.Interval.{BarInterval, parse_bar_interval}
use xr_trading.Domain.Classification.{
  is_active_asset, is_active_instrument, is_disabled_provider, is_compatible,
}
use xr_trading.Domain.Catalog.{
  has_interval, validate_asset, validate_instrument, validate_provider,
  validate_provider_instrument, validate_asset_instrument, validate_provider_mapping,
}
use xr_trading.Ingestion.Adapter.{ProviderInstrumentRef, validate_reference}
use xr_trading.Ingestion.Quality.{is_refused}
use xr_trading.Ingestion.Execution.{
  ExecutionContext, is_unsubscribed, is_inactive, is_uncovered, filled_reference,
  validate_execution, reference,
}

-- What holds of the rows behind a reference.
pub record IsResolved (x : ExecutionContext) (r : ProviderInstrumentRef) : Type 0 where
  pub accepted : validate_reference r ≡ ok tt
  pub subscribed : x.subscription.provider_instrument_id ≡ r.provider_instrument_id
  pub enabled : (x.subscription.enabled ≡ true) × (x.provider_instrument.enabled ≡ true)
  pub mapped : x.provider_instrument.instrument_id ≡ r.instrument_id
  pub provided : x.provider_instrument.provider_id ≡ x.provider.id
  pub provider_code : x.provider.code ≡ r.provider_code
  pub owned : x.instrument.asset_id ≡ r.asset_id
  pub compatible : is_compatible r.asset_type r.instrument_type ≡ true
  pub active :
      (is_active_asset x.asset.status ≡ true) × (is_active_instrument x.instrument.status ≡ true)
  pub usable : is_disabled_provider x.provider.status ≡ false
  pub historical : x.provider_instrument.capabilities.historical ≡ true
  pub parsed : parse_bar_interval x.subscription.interval ≡ ok x.subscription.interval
  pub covered :
      has_interval x.subscription.interval x.provider_instrument.capabilities.intervals ≡ true

parse_bar_interval-ok :
    (i : BarInterval) → is_refused (parse_bar_interval i) ≡ false → parse_bar_interval i ≡ ok i
unfolding parse_bar_interval
parse_bar_interval-ok BarInterval.hour1 h = refl
parse_bar_interval-ok BarInterval.day1 h = refl
parse_bar_interval-ok BarInterval.other h = ground arith

subscription_parts :
    (x : ExecutionContext)
    → is_unsubscribed x ≡ false
    → (x.subscription.provider_instrument_id ≡ x.provider_instrument.id)
      × (x.subscription.enabled ≡ true)
subscription_parts x h =
    let p = or_false h in let q = or_false p.0 in (same_id (not-false q.1), not-false p.1)

active_parts :
    (x : ExecutionContext)
    → is_inactive x ≡ false
    → (is_active_asset x.asset.status ≡ true)
      × (is_active_instrument x.instrument.status ≡ true)
      × (is_disabled_provider x.provider.status ≡ false)
      × (x.provider_instrument.enabled ≡ true)
active_parts x h =
    let p = or_false h in
    let q = or_false p.0 in
    let r = or_false q.0 in (not-false r.0, not-false r.1, q.1, not-false p.1)

covered_parts :
    (x : ExecutionContext)
    → is_uncovered x ≡ false
    → (is_refused (parse_bar_interval x.subscription.interval) ≡ false)
      × (x.provider_instrument.capabilities.historical ≡ true)
      × (has_interval x.subscription.interval x.provider_instrument.capabilities.intervals ≡ true)
covered_parts x h =
    let p = or_false h in let q = or_false p.0 in (q.0, not-false q.1, not-false p.1)

module _ (is_timezone : String → Bool) where
  -- When Reference returns a reference, it passes its own validation, it identifies the mapping that the
  -- subscription names, the instrument of that mapping and the asset of that instrument, with compatible
  -- types; all of them are enabled or active, the provider is not disabled, and the mapping offers
  -- historical bars of the subscription's interval, which is a supported one.
  pub reference-IsResolved :
      (x : ExecutionContext) (r : ProviderInstrumentRef)
      → reference is_timezone x ≡ ok r
      → IsResolved x r
  unfolding reference validate_execution validate_asset_instrument validate_provider_mapping
  reference-IsResolved x r h =
      let (_, validated, filled) = bind-ok (validate_execution is_timezone x) _ h in
      let (_, accepted, returned) = bind-ok (validate_reference (filled_reference x)) _ filled in
      let (_, subscribed, v1) = bind-ok (refuse_if (is_unsubscribed x) invalid_state) _ validated in
      let (_, owned, v2) =
        bind-ok (validate_asset_instrument is_timezone x.asset x.instrument) _ v1 in
      let (_, mapped, v3) =
        bind-ok
          (validate_provider_mapping is_timezone x.provider x.instrument x.provider_instrument) _
          v2 in
      let (_, active, covered) = bind-ok (refuse_if (is_inactive x) invalid_state) _ v3 in
      let (_, _, a1) = bind-ok (validate_asset x.asset) _ owned in
      let (_, _, a2) = bind-ok (validate_instrument is_timezone x.instrument) _ a1 in
      let (_, same_asset, compatible) =
        bind-ok (refuse_if (not (x.asset.id == x.instrument.asset_id)) invalid_data) _ a2 in
      let (_, _, m1) = bind-ok (validate_provider x.provider) _ mapped in
      let (_, _, m2) = bind-ok (validate_instrument is_timezone x.instrument) _ m1 in
      let (_, _, same_mapping) =
        bind-ok (validate_provider_instrument x.provider_instrument) _ m2 in
      let same : filled_reference x ≡ r = ground (arith, returned) in
      let s = subscription_parts x (refuse_if-ok _ _ subscribed) in
      let a = active_parts x (refuse_if-ok _ _ active) in
      let c = covered_parts x (refuse_if-ok _ _ covered) in
      let m = or_false (refuse_if-ok _ _ same_mapping) in
      rw (sym same) (record {
        accepted = accepted;
        subscribed = s.0;
        enabled = (s.1, a.3);
        mapped = same_id (not-false m.1);
        provided = same_id (not-false m.0);
        provider_code = refl;
        owned = sym (same_id (not-false (refuse_if-ok _ _ same_asset)));
        compatible = not-false (refuse_if-ok _ _ compatible);
        active = (a.0, a.1);
        usable = a.2;
        historical = c.1;
        parsed = parse_bar_interval-ok x.subscription.interval c.0;
        covered = c.2;
      })
