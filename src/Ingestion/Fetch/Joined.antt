-- ===== src/Ingestion/Fetch/Joined.antt =====
-- The joined pages are bars of the request, in strictly ascending order.
use xr_trading.Base.{
  ℕ, zero, suc, ◌≤◌, ◌<◌, ◌≡◌, ◌≢◌, sym, true, false, Option, none, some, List, [], ◌∷◌, ◌++◌, All,
  arith, Bool-cases, inl, inr, ℤ, ltb, String,
}
use xr_trading.Domain.Errors.{Result, Result-cases, bind-ok, ok, refuse_if, invalid_data}
use xr_trading.Domain.Time.{Instant}
use xr_trading.Domain.Interval.{same_interval}
use xr_trading.Ingestion.Adapter.{
  ProviderBar, FetchBarsRequest, FetchBarsResult, validate_bar_for, check_page, validate_result,
  validate_request, check_cursor, is_unrequested, is_not_after, exceeds_limit,
}
use xr_trading.Ingestion.Fetch.{
  BarSource, is_seen, collect, insert, sort_bars, rounds, accept, fetch_pages, fetch_all_bars,
  admit,
}

-- A bar that the request asks for.
pub record IsRequested (r : FetchBarsRequest) (b : ProviderBar) : Type 0 where
  pub own : validate_bar_for r.instrument b ≡ ok tt
  pub interval : same_interval b.interval r.interval ≡ true
  pub not_before : r.start_time ≤ b.open_time
  pub before_end : b.open_time < r.end_time

-- Every bar opens after the ones before it.
abbrev pub IsAscending : List ProviderBar → Type 0
IsAscending [] = Unit
IsAscending (b ∷ bs) = All (λ c. b.open_time < c.open_time) bs × IsAscending bs

abbrev Differs : ProviderBar → ProviderBar → Type 0
Differs b c = c.open_time ≢ b.open_time

abbrev IsDistinct : List ProviderBar → Type 0
IsDistinct [] = Unit
IsDistinct (b ∷ bs) = All (Differs b) bs × IsDistinct bs

All-append {ℓ κ} :
    {A : Type ℓ} (P : A → Type κ) (xs : List A) (y : A) → All P xs → P y → All P (xs ++ (y ∷ []))
All-append P [] y h p = (p, tt)
All-append P (x ∷ xs) y h p = (h.0, All-append P xs y h.1 p)

IsDistinct-append :
    (bs : List ProviderBar) (b : ProviderBar)
    → IsDistinct bs
    → is_seen b.open_time bs ≡ false
    → IsDistinct (bs ++ (b ∷ []))
unfolding is_seen
IsDistinct-append [] b d h = (tt, tt)
IsDistinct-append (c ∷ bs) b d h = (
  All-append (Differs c) bs b d.0 (ground (arith, h)),
  IsDistinct-append bs b d.1 (ground (arith, h)),
)

checked_page :
    (r : FetchBarsRequest) (previous : Option Instant) (bs : List ProviderBar)
    → check_page r previous bs ≡ ok tt
    → All (IsRequested r) bs
unfolding check_page
checked_page r previous [] h = tt
checked_page r previous (b ∷ bs) h =
    let (_, own, fits) = bind-ok (validate_bar_for r.instrument b) _ h in
    let (_, inside, ordered) = bind-ok (refuse_if (is_unrequested r b) invalid_data) _ fits in
    let (_, _, rest) =
      bind-ok (refuse_if (is_not_after previous b.open_time) invalid_data) _ ordered in
    (
      record {
        own = own;
        interval = ground (arith, inside);
        not_before = ground (arith, inside);
        before_end = ground (arith, inside);
      },
      checked_page r (some b.open_time) bs rest,
    )

module _ (P : ProviderBar → Type 0) where
  collected :
      (bars page : List ProviderBar) {joined : List ProviderBar}
      → collect bars page ≡ ok joined
      → All P bars
      → IsDistinct bars
      → All P page
      → All P joined × IsDistinct joined
  unfolding collect
  collected bars [] {joined} h p d q =
      let same : bars ≡ joined = ground (arith, h) in rw (sym same) (p, d)
  collected bars (b ∷ page) {joined} h p d q =
      let (_, fresh, rest) = bind-ok (refuse_if (is_seen b.open_time bars) invalid_data) _ h in
      collected (bars ++ (b ∷ [])) page {joined = joined} rest (All-append P bars b p q.0)
        (IsDistinct-append bars b d (ground (arith, fresh))) q.1

  All-insert : (b : ProviderBar) (bs : List ProviderBar) → P b → All P bs → All P (insert b bs)
  unfolding insert
  All-insert b [] p h = (p, tt)
  All-insert b (c ∷ bs) p h = elim (Bool-cases (ltb c.open_time b.open_time)) [
    | inl after ↦ rw after (h.0, All-insert b bs p h.1)
    | inr before ↦ rw before (p, h)
  ]

  All-sort_bars : (bs : List ProviderBar) → All P bs → All P (sort_bars bs)
  unfolding sort_bars
  All-sort_bars [] h = tt
  All-sort_bars (b ∷ bs) h = All-insert b (sort_bars bs) h.0 (All-sort_bars bs h.1)

above :
    (b c : ProviderBar) (bs : List ProviderBar)
    → b.open_time < c.open_time
    → All (λ d. c.open_time < d.open_time) bs
    → All (λ d. b.open_time < d.open_time) bs
above b c [] lt h = tt
above b c (d ∷ bs) lt h = (omega (arith, lt, h.0), above b c bs lt h.1)

insert-IsAscending :
    (b : ProviderBar) (bs : List ProviderBar)
    → All (Differs b) bs
    → IsAscending bs
    → IsAscending (insert b bs)
unfolding insert
insert-IsAscending b [] d a = (tt, tt)
insert-IsAscending b (c ∷ bs) d a = elim (Bool-cases (ltb c.open_time b.open_time)) [
  | inl after ↦ rw after (
    All-insert (λ x. c.open_time < x.open_time) b bs (ground (arith, after)) a.0,
    insert-IsAscending b bs d.1 a.1,
  )
  | inr before ↦
      let lt : b.open_time < c.open_time = ground (arith, before, d.0) in
      rw before ((lt, above b c bs lt a.0), a)
]

sort_bars-IsAscending : (bs : List ProviderBar) → IsDistinct bs → IsAscending (sort_bars bs)
unfolding sort_bars
sort_bars-IsAscending [] d = tt
sort_bars-IsAscending (b ∷ bs) d =
    insert-IsAscending b (sort_bars bs) (All-sort_bars (Differs b) bs d.0)
      (sort_bars-IsAscending bs d.1)

accepted :
    (source : BarSource) (r : FetchBarsRequest) (bars : List ProviderBar)
    (answer : Result FetchBarsResult) {result : FetchBarsResult} {joined : List ProviderBar}
    → accept source r bars answer ≡ ok (result, joined)
    → All (IsRequested r) result.bars × (collect bars result.bars ≡ ok joined)
unfolding accept validate_result
accepted source r bars answer {result} {joined} h =
    let (given, answered, checked) = bind-ok answer _ h in
    let (_, valid, after) = bind-ok (validate_result r given) _ checked in
    let (made, collects, last) = bind-ok (collect bars given.bars) _ after in
    let (_, _, v1) = bind-ok (validate_request r) _ valid in
    let (_, _, v2) = bind-ok (refuse_if (exceeds_limit r given) invalid_data) _ v1 in
    let (_, _, page) = bind-ok (check_cursor r given) _ v2 in
    let same : given ≡ result = ground (arith, last) in
    let joins : made ≡ joined = ground (arith, last) in
    rw (sym same, sym joins) (checked_page r none given.bars page, collects)

-- A request is the same for the bars of the next page.
next_page :
    (r : FetchBarsRequest) (cursor : String) (bs : List ProviderBar)
    → All (IsRequested (record r { cursor = cursor })) bs
    → All (IsRequested r) bs
next_page r cursor [] h = tt
next_page r cursor (b ∷ bs) h = (
  record {
    own = h.0.own;
    interval = h.0.interval;
    not_before = h.0.not_before;
    before_end = h.0.before_end;
  },
  next_page r cursor bs h.1,
)

-- What the joined pages satisfy.
pub record IsJoined (r : FetchBarsRequest) (bars : List ProviderBar) : Type 0 where
  pub requested : All (IsRequested r) bars
  pub ascending : IsAscending bars

module _ (source : BarSource) where
  open source use {State, fetch_bars}

  fetch_pages-IsJoined :
      (n : ℕ) (r : FetchBarsRequest) (so_far : List ProviderBar) (s : State)
      {bars : List ProviderBar}
      → All (IsRequested r) so_far
      → IsDistinct so_far
      → (fetch_pages source n r so_far s).0 ≡ ok bars
      → IsJoined r bars
  unfolding fetch_pages
  fetch_pages-IsJoined zero r so_far s p d h = ground arith
  fetch_pages-IsJoined (suc n) r so_far s {bars} p d h = elim (Result-cases (admit source r s)) [
    | inl (e, bad) ↦ ground (arith, bad)
    | inr (_, good) ↦ elim (Result-cases (accept source r so_far (fetch_bars r s).0)) [
      | inl (e, bad) ↦ ground (arith, good, bad)
      | inr ((result, joined), fits) ↦
          let (page, joins) = accepted source r so_far (fetch_bars r s).0 fits in
          let (all, distinct) =
            collected (IsRequested r) so_far result.bars {joined = joined} joins p d page in
          elim (Bool-cases result.has_more) [
            | inl more ↦
                let next : FetchBarsRequest = record r { cursor = result.next_cursor } in
                let rest : (fetch_pages source n next joined (fetch_bars r s).1).0 ≡ ok bars =
                  ground (arith, good, fits, more) in
                let join =
                  fetch_pages-IsJoined n next joined (fetch_bars r s).1 {bars = bars}
                    (next_page next r.cursor joined all) distinct rest in
                record {
                  requested = next_page r result.next_cursor bars join.requested;
                  ascending = join.ascending;
                }
            | inr done ↦
                let sorted : sort_bars joined ≡ bars = ground (arith, good, fits, done) in
                rw (sym sorted) (record {
                  requested = All-sort_bars (IsRequested r) joined all;
                  ascending = sort_bars-IsAscending joined distinct;
                })
          ]
    ]
  ]

  -- When fetchAllBars returns bars, whatever pages the provider answered, each is a valid bar of the
  -- requested instrument and interval that opens within the requested range, and every bar opens strictly
  -- after the one before it: no page was lost its order or repeated.
  pub fetch_all_bars-IsJoined :
      (maximum_pages : ℤ) (r : FetchBarsRequest) (s : State) {bars : List ProviderBar}
      → (fetch_all_bars source maximum_pages r s).0 ≡ ok bars
      → IsJoined r bars
  unfolding fetch_all_bars
  fetch_all_bars-IsJoined maximum_pages r s {bars} h =
      fetch_pages-IsJoined (rounds maximum_pages) r [] s {bars = bars} tt tt h
