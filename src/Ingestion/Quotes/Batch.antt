-- ===== src/Ingestion/Quotes/Batch.antt =====
-- What an accepted batch of quotes answers.
use xr_trading.Base.{
  ltz, pos, ◌≡◌, ◌≢◌, String, true, false, not, ◌||◌, Option, none, some, List, [], ◌∷◌, All, arith,
  Bool-cases, inl, inr, ◌==◌, length, is_some, ◌⊎◌,
}
use mathlib.Core.Path.{subst}
use xr_trading.Domain.Text.{same_text}
use xr_trading.Domain.Errors.{ok, bind-ok, refuse_if, refuse_if-ok, invalid_data}
use xr_trading.Domain.Task.{Uuid, is_nil}
use xr_trading.Domain.Time.{is_zero, zero_time}
use xr_trading.Domain.MarketData.{Decimal, is_negative, is_negative_volume, validate_source}
use xr_trading.Domain.Quotes.{
  Quote, new_quote, validate_quote, check_values, validate_optional_ohlc, is_below,
}
use xr_trading.Ingestion.Adapter.{ProviderInstrumentRef, validate_reference}
use xr_trading.Ingestion.Quotes.{
  unchecked_quote, ProviderQuote, validate_provider_quote, is_mismatch, validate_quote_for,
  requested, index_references, is_answered, check_found, check_quotes, validate_latest_quote_batch,
}

-- The quote is one of the reference's mapping, instrument, asset and provider.
pub record IsOwn (r : ProviderInstrumentRef) (q : ProviderQuote) : Type 0 where
  pub mapping : q.provider_instrument_id ≡ r.provider_instrument_id
  pub instrument : q.instrument_id ≡ r.instrument_id
  pub asset : q.asset_id ≡ r.asset_id
  pub provider : same_text q.provider_code r.provider_code ≡ true

match-IsOwn : (r : ProviderInstrumentRef) (q : ProviderQuote) → is_mismatch r q ≡ false → IsOwn r q
match-IsOwn r q h = record {
  mapping = ground (arith, h);
  instrument = ground (arith, h);
  asset = ground (arith, h);
  provider = ground (arith, h);
}

-- A value that is present is not negative; and where both are present, the one is not below the other.
abbrev pub IsAmount : Option Decimal → Type 0
IsAmount x = (a : Decimal) → x ≡ some a → ltz a (pos 0) ≡ false

abbrev pub IsNotBelow : Option Decimal → Option Decimal → Type 0
IsNotBelow x y = (a b : Decimal) → x ≡ some a → y ≡ some b → ltz a b ≡ false

abbrev pub amounts_of : ProviderQuote → List (Option Decimal)
amounts_of q =
    q.bid_price ∷ q.bid_size ∷ q.ask_price ∷ q.ask_size ∷ q.open_24h ∷ q.high_24h ∷ q.low_24h
    ∷ q.base_volume_24h ∷ q.quote_volume_24h ∷ []

-- What makes a quote usable: it names its asset, mapping and instrument, its times are present, no price or size
-- is negative, the ask is not below the bid, and the open of the day lies between its low and its high.
pub record IsUsable (q : ProviderQuote) : Type 0 where
  pub named : (q.asset_id ≢ 0) × (q.provider_instrument_id ≢ 0) × (q.instrument_id ≢ 0)
  pub dated : (q.market_time ≢ zero_time) × (q.received_at ≢ zero_time)
  pub priced : ltz q.last_price (pos 0) ≡ false
  pub amounts : All IsAmount (amounts_of q)
  pub ordered : IsNotBelow q.ask_price q.bid_price
  pub ranged :
      IsNotBelow q.high_24h q.low_24h
      × IsNotBelow q.high_24h q.open_24h
      × IsNotBelow q.open_24h q.low_24h

not_below : (x y : Option Decimal) → is_below x y ≡ false → IsNotBelow x y
not_below x y h a b e f = ground (arith, h, e, f)

checked_values : (vs : List (Option Decimal)) → check_values vs ≡ ok tt → All IsAmount vs
unfolding check_values
checked_values [] h = tt
checked_values (v ∷ vs) h =
    let (_, good, rest) = bind-ok (refuse_if (is_negative_volume v) invalid_data) _ h in
    let this : IsAmount v = λ a e. ground (arith, refuse_if-ok (is_negative_volume v) _ good, e) in
    (this, checked_values vs rest)

checked_ranges :
    (o h l : Option Decimal)
    → validate_optional_ohlc o h l ≡ ok tt
    → IsNotBelow h l × IsNotBelow h o × IsNotBelow o l
unfolding validate_optional_ohlc
checked_ranges o h l v =
    let (_, a, v1) = bind-ok (refuse_if (is_below h l) invalid_data) _ v in
    let (_, b, c) = bind-ok (refuse_if (is_below h o) invalid_data) _ v1 in
    (
      not_below h l (refuse_if-ok _ _ a),
      not_below h o (refuse_if-ok _ _ b),
      not_below o l (refuse_if-ok _ _ c),
    )

unchecked-IsUsable :
    (q : ProviderQuote) {made : Quote}
    → q.asset_id ≢ 0
    → new_quote (unchecked_quote q) ≡ ok made
    → IsUsable q
unfolding new_quote validate_quote validate_source
unchecked-IsUsable q asset h =
    let (_, valid, _) = bind-ok (validate_quote (unchecked_quote q)) _ h in
    let (_, v1, w1) = bind-ok (validate_source q.instrument_id q.provider_instrument_id) _ valid in
    let (_, v2, w2) =
      bind-ok (refuse_if (is_zero q.market_time || is_zero q.received_at) invalid_data) _ w1 in
    let (_, v3, w3) = bind-ok (refuse_if (is_negative q.last_price) invalid_data) _ w2 in
    let (_, v4, w4) = bind-ok (check_values (amounts_of q)) _ w3 in
    let (_, v5, w5) = bind-ok (refuse_if (is_below q.ask_price q.bid_price) invalid_data) _ w4 in
    let (_, v6, _) = bind-ok (validate_optional_ohlc q.open_24h q.high_24h q.low_24h) _ w5 in
    record {
      named = (asset, ground (arith, refuse_if-ok _ _ v1), ground (arith, refuse_if-ok _ _ v1));
      dated = (ground (arith, refuse_if-ok _ _ v2), ground (arith, refuse_if-ok _ _ v2));
      priced = ground (arith, refuse_if-ok _ _ v3);
      amounts = checked_values (amounts_of q) v4;
      ordered = not_below q.ask_price q.bid_price (refuse_if-ok _ _ v5);
      ranged = checked_ranges q.open_24h q.high_24h q.low_24h v6;
    }

valid-IsUsable : (q : ProviderQuote) → validate_provider_quote q ≡ ok tt → IsUsable q
unfolding validate_provider_quote
valid-IsUsable q h =
    let (_, named, rest) =
      bind-ok (refuse_if (is_nil q.asset_id || same_text q.provider_code "") invalid_data) _ h in
    let (_, made, _) = bind-ok (new_quote (unchecked_quote q)) _ rest in
    unchecked-IsUsable q (ground (arith, refuse_if-ok _ _ named)) made

-- One of the references asks for the quote's mapping.
pub data IsAsked (q : ProviderQuote) : List ProviderInstrumentRef → Type 0 where
  here :
      {r : ProviderInstrumentRef} {rs : List ProviderInstrumentRef} → IsOwn r q → IsAsked q (r ∷ rs)
  there :
      {r : ProviderInstrumentRef} {rs : List ProviderInstrumentRef}
      → IsAsked q rs
      → IsAsked q (r ∷ rs)

-- No two quotes answer for one mapping.
abbrev pub IsUnrepeated : List ProviderQuote → Type 0
IsUnrepeated [] = Unit
IsUnrepeated (q ∷ qs) =
    All (λ p. p.provider_instrument_id ≢ q.provider_instrument_id) qs × IsUnrepeated qs

requested-IsAsked :
    (q : ProviderQuote) (rs : List ProviderInstrumentRef) {r : ProviderInstrumentRef} (id : Uuid)
    → requested id rs ≡ some r
    → IsOwn r q
    → IsAsked q rs
unfolding requested
requested-IsAsked q [] id e m = ground (arith, e)
requested-IsAsked q (s ∷ rs) {r} id e m = elim (Bool-cases (s.provider_instrument_id == id)) [
  | inl hit ↦ let same : s ≡ r = ground (arith, e, hit) in here (rw same m)
  | inr miss ↦ there (requested-IsAsked q rs {r = r} id (ground (arith, e, miss)) m)
]

-- What the loop over the quotes has checked.
record IsChecked (known : List ProviderInstrumentRef) (qs : List ProviderQuote) : Type 0 where
  valid : All IsUsable qs
  asked : All (λ q. IsAsked q known) qs
  unrepeated : IsUnrepeated qs

unanswered :
    (a b : Uuid) (seen : List ProviderQuote)
    → is_answered a seen ≡ false
    → is_answered b seen ≡ true
    → a ≢ b
unanswered a b seen h e same = ground (arith, subst (λ x. is_answered x seen ≡ false) same h, e)

-- The quotes behind `seen` repeat none of it.
fresh_ids :
    (known : List ProviderInstrumentRef) (seen qs : List ProviderQuote) (id : Uuid)
    → check_quotes known seen qs ≡ ok tt
    → is_answered id seen ≡ true
    → All (λ p. p.provider_instrument_id ≢ id) qs
unfolding check_quotes is_answered
fresh_ids known seen [] id h e = tt
fresh_ids known seen (q ∷ qs) id h e =
    let (r, _, h1) = bind-ok (check_found (requested q.provider_instrument_id known)) _ h in
    let (_, new, h2) =
      bind-ok (refuse_if (is_answered q.provider_instrument_id seen) invalid_data) _ h1 in
    let (_, _, rest) = bind-ok (validate_quote_for r q) _ h2 in
    (
      unanswered q.provider_instrument_id id seen (ground (arith, new)) e,
      fresh_ids known (q ∷ seen) qs id rest (ground (arith, e)),
    )

found_some :
    (o : Option ProviderInstrumentRef) {r : ProviderInstrumentRef}
    → check_found o ≡ ok r
    → o ≡ some r
found_some none e = ground arith
found_some (some r) e = ground arith

quote-IsUsable :
    (r : ProviderInstrumentRef) (q : ProviderQuote)
    → validate_quote_for r q ≡ ok tt
    → IsUsable q × IsOwn r q
unfolding validate_quote_for
quote-IsUsable r q h =
    let (_, _, h1) = bind-ok (validate_reference r) _ h in
    let (_, valid, h2) = bind-ok (validate_provider_quote q) _ h1 in
    (valid-IsUsable q valid, match-IsOwn r q (refuse_if-ok _ _ h2))

check_quotes-IsChecked :
    (known : List ProviderInstrumentRef) (seen qs : List ProviderQuote)
    → check_quotes known seen qs ≡ ok tt
    → IsChecked known qs
unfolding check_quotes is_answered
check_quotes-IsChecked known seen [] h = record { valid = tt; asked = tt; unrepeated = tt }
check_quotes-IsChecked known seen (q ∷ qs) h =
    let (r, found, h1) = bind-ok (check_found (requested q.provider_instrument_id known)) _ h in
    let (_, _, h2) =
      bind-ok (refuse_if (is_answered q.provider_instrument_id seen) invalid_data) _ h1 in
    let (_, fits, rest) = bind-ok (validate_quote_for r q) _ h2 in
    let next = check_quotes-IsChecked known (q ∷ seen) qs rest in
    let (valid, matched) = quote-IsUsable r q fits in
    record {
      valid = (valid, next.valid);
      asked = (
        requested-IsAsked q known {r = r} q.provider_instrument_id (found_some _ found) matched,
        next.asked,
      );
      unrepeated = (
        fresh_ids known (q ∷ seen) qs q.provider_instrument_id rest (ground arith),
        next.unrepeated,
      );
    }

index_references-IsAsked :
    (provider_code : String) (known rs indexed : List ProviderInstrumentRef) (q : ProviderQuote)
    → index_references provider_code known rs ≡ ok indexed
    → IsAsked q indexed
    → IsAsked q known ⊎ IsAsked q rs
unfolding index_references
index_references-IsAsked provider_code known [] indexed q h a =
    let same : known ≡ indexed = ground (arith, h) in inl (rw same a)
index_references-IsAsked provider_code known (r ∷ rs) indexed q h a =
    let (_, _, h1) = bind-ok (validate_reference r) _ h in
    let (_, _, h2) =
      bind-ok (refuse_if (not (same_text r.provider_code provider_code)) invalid_data) _ h1 in
    let (_, _, rest) =
      bind-ok (refuse_if (is_some (requested r.provider_instrument_id known)) invalid_data) _ h2 in
    elim (index_references-IsAsked provider_code (r ∷ known) rs indexed q rest a) [
      | inl old ↦ elim old [ here m ↦ inr (here m) | there k ↦ inl k ]
      | inr new ↦ inr (there new)
    ]

-- What an accepted batch satisfies.
pub record IsAnswer (references : List ProviderInstrumentRef) (quotes : List ProviderQuote)
    : Type 0 where
  pub valid : All IsUsable quotes
  pub asked : All (λ q. IsAsked q references) quotes
  pub unrepeated : IsUnrepeated quotes

index_references-IsAsked_all :
    (provider_code : String) (rs indexed : List ProviderInstrumentRef) (qs : List ProviderQuote)
    → index_references provider_code [] rs ≡ ok indexed
    → All (λ q. IsAsked q indexed) qs
    → All (λ q. IsAsked q rs) qs
index_references-IsAsked_all provider_code rs indexed [] h a = tt
index_references-IsAsked_all provider_code rs indexed (q ∷ qs) h a = (
  elim (index_references-IsAsked provider_code [] rs indexed q h a.0) [
    | inl old ↦ elim old [ ]
    | inr new ↦ new
  ],
  index_references-IsAsked_all provider_code rs indexed qs h a.1,
)

-- In a batch that ValidateLatestQuoteBatch accepts, every quote is usable (its IDs and times are present, its amounts are
-- not negative, its bid, ask and day's prices are in order) and has the mapping, instrument, asset and provider of one of
-- the references, and no two quotes answer for one mapping.
pub validate_latest_quote_batch-IsAnswer :
    (provider_code : String) (references : List ProviderInstrumentRef) (quotes : List ProviderQuote)
    → validate_latest_quote_batch provider_code references quotes ≡ ok tt
    → IsAnswer references quotes
unfolding validate_latest_quote_batch
validate_latest_quote_batch-IsAnswer provider_code references quotes h =
    let (_, _, h1) =
      bind-ok (refuse_if (same_text provider_code "" || length references == 0) invalid_data) _ h in
    let (known, indexed, rest) = bind-ok (index_references provider_code [] references) _ h1 in
    let c = check_quotes-IsChecked known [] quotes rest in
    record {
      valid = c.valid;
      asked = index_references-IsAsked_all provider_code references known quotes indexed c.asked;
      unrepeated = c.unrepeated;
    }
