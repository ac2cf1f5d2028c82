-- ===== src/Store/Bars/Versions.antt =====
-- The versions of a bar: at most one is current, and a write makes its bar the current one.
use xr_trading.Base.{
  ◌+◌, ◌≤◌, ◌≡◌, refl, Bool, true, false, ◌&&◌, none, some, List, [], ◌∷◌, arith, Bool-cases,
  Option-cases, ◌==◌, inl, inr, ℤ, pos,
}
use mathlib.Core.Path.{sym}
use xr_trading.Domain.Errors.{ok, bind-ok}
use xr_trading.Domain.MarketData.{MarketBar, new_bar}
use xr_trading.Store.Database.{select_one, update_where, count_where}
use xr_trading.Store.Bars.{
  insert_current, insert_market_bar, is_row, MarketBarWriteResult, same_bar, next_revision,
  load_current_market_bar, is_unchanged, closes, write_checked_bar, write_market_bar_in_transaction,
  write_bars,
}

-- What a write did: it kept a current version with the same hash, or made the bar the current version.
pub data Written (bar : MarketBar) (rows : List MarketBar)
    : MarketBarWriteResult → List MarketBar → Type 0 where
  unchanged :
      {current : MarketBar}
      → load_current_market_bar bar rows ≡ some current
      → is_unchanged bar current ≡ true
      → Written bar rows (record { applied = false; revision = current.revision }) rows
  first :
      {rows' : List MarketBar}
      → load_current_market_bar bar rows ≡ none
      → load_current_market_bar bar rows'
        ≡ some (record bar { revision = pos 1; is_current = true })
      → Written bar rows (record { applied = true; revision = pos 1 }) rows'
  revised :
      {current : MarketBar} {rows' : List MarketBar}
      → load_current_market_bar bar rows ≡ some current
      → is_unchanged bar current ≡ false
      → load_current_market_bar bar rows'
        ≡ some (record bar { revision = next_revision current.revision; is_current = true })
      → Written bar rows
          (record { applied = true; revision = next_revision current.revision })
          rows'

-- A stored row that is the current version of the bar.
abbrev pub is_version : MarketBar → MarketBar → Bool
is_version bar row = same_bar row bar && row.is_current

-- No bar has two current versions.
abbrev pub IsVersioned : List MarketBar → Type 0
IsVersioned rows = (bar : MarketBar) → count_where (is_version bar) rows ≤ 1

abbrev past : MarketBar → MarketBar
past row = record row { is_current = false }

closed_row :
    (bar current b row : MarketBar)
    → closes bar current row ≡ true
    → (same_bar row bar ≡ true) × (is_version b (past row) ≡ false)
closed_row bar current b row h = (ground arith, ground arith)

-- Rows of the same bar trade places: one identity is the other's.
same_bar_through :
    (bar b row : MarketBar) → same_bar row bar ≡ true → same_bar row b ≡ same_bar bar b
same_bar_through bar b row h = ground arith

same_bar_back : (bar b row : MarketBar) → same_bar bar b ≡ true → same_bar row b ≡ same_bar row bar
same_bar_back bar b row h = ground arith

count_closed_same :
    (bar current b : MarketBar) (rows : List MarketBar)
    → same_bar bar b ≡ true
    → count_where (is_version b) (update_where (closes bar current) past rows)
        + count_where (closes bar current) rows
      ≡ count_where (is_version b) rows
unfolding count_where update_where
count_closed_same bar current b [] h = refl
count_closed_same bar current b (row ∷ rows) h =
    ground (arith, same_bar_through bar b row, count_closed_same bar current b rows h)

count_closed_other :
    (bar current b : MarketBar) (rows : List MarketBar)
    → same_bar bar b ≡ false
    → count_where (is_version b) (update_where (closes bar current) past rows)
      ≡ count_where (is_version b) rows
unfolding count_where update_where
count_closed_other bar current b [] h = refl
count_closed_other bar current b (row ∷ rows) h =
    ground (arith, same_bar_through bar b row, count_closed_other bar current b rows h)

-- A bar without a current version, under any name of it.
count_missing :
    (bar b : MarketBar) (rows : List MarketBar)
    → same_bar bar b ≡ true
    → load_current_market_bar bar rows ≡ none
    → count_where (is_version b) rows ≡ 0
unfolding load_current_market_bar select_one count_where
count_missing bar b [] h e = refl
count_missing bar b (row ∷ rows) h e =
    ground (arith, same_bar_back bar b row h, count_missing bar b rows h)

inserted :
    (bar : MarketBar) (revision : ℤ) (rows : List MarketBar) {w : MarketBarWriteResult}
    {rows' : List MarketBar}
    → insert_current bar revision rows ≡ ok (w, rows')
    → record bar { revision = revision; is_current = true } ∷ rows ≡ rows'
unfolding insert_market_bar
inserted bar revision rows h =
    let row = record bar { revision = revision; is_current = true } in
    elim (Option-cases (select_one (is_row row) rows)) [
      | inr (_, taken) ↦ ground (arith, h, taken)
      | inl free ↦ ground (arith, h, free)
    ]

-- What the write of a bar leaves: the bar's versions, and those of the others.
write_checked_bar-IsVersioned :
    (bar : MarketBar) (rows : List MarketBar) {w : MarketBarWriteResult} {rows' : List MarketBar}
    → IsVersioned rows
    → write_checked_bar bar rows ≡ ok (w, rows')
    → IsVersioned rows'
unfolding write_checked_bar load_current_market_bar count_where
write_checked_bar-IsVersioned bar rows {w} {rows'} v e b =
    elim (Option-cases (load_current_market_bar bar rows)) [
      | inl missing ↦ elim (Bool-cases (same_bar bar b)) [
        | inl own ↦
            let made =
              inserted bar (pos 1) rows {w = w} {rows' = rows'} (ground (arith, e, missing)) in
            rw (sym made) (ground (arith, own, count_missing bar b rows own missing))
        | inr other ↦
            let made =
              inserted bar (pos 1) rows {w = w} {rows' = rows'} (ground (arith, e, missing)) in
            rw (sym made) (ground (arith, other, v b))
      ]
      | inr (current, found) ↦ elim (Bool-cases (is_unchanged bar current)) [
        | inl same ↦ ground (arith, found, same, v b)
        | inr changed ↦ elim (Bool-cases (count_where (closes bar current) rows == 1)) [
          | inr lost ↦ ground (arith, e, found, changed, lost)
          | inl once ↦
              let made =
                inserted bar (next_revision current.revision)
                  (update_where (closes bar current) past rows) {w = w} {rows' = rows'}
                  (ground (arith, e, found, changed, once)) in
              elim (Bool-cases (same_bar bar b)) [
                | inl own ↦
                    rw (sym made)
                      (ground (arith, once, own, v b, count_closed_same bar current b rows own))
                | inr other ↦
                    rw (sym made)
                      (ground (arith, other, v b, count_closed_other bar current b rows other))
              ]
        ]
      ]
    ]

-- When no bar has two current versions among the stored ones, then neither after a write: whatever
-- bars a commit writes in its transaction, each identity of source, interval and open time keeps at most one
-- current version.
pub write_bars-IsVersioned :
    (bars rows : List MarketBar) {rows' : List MarketBar}
    → IsVersioned rows
    → write_bars bars rows ≡ ok rows'
    → IsVersioned rows'
unfolding write_bars write_market_bar_in_transaction
write_bars-IsVersioned [] rows v e b = ground (arith, v b)
write_bars-IsVersioned (bar ∷ bars) rows {rows'} v e b =
    let ((w, next), written, rest) = bind-ok (write_market_bar_in_transaction bar rows) _ e in
    let (made, checked, stored) = bind-ok (new_bar bar) _ written in
    write_bars-IsVersioned bars next (write_checked_bar-IsVersioned made rows v stored) rest b

-- A row of the bar's identity already has the revision that the bar would get.
pub data Taken (bar : MarketBar) (rows : List MarketBar) : Type 0 where
  first_taken :
      (row : MarketBar)
      → load_current_market_bar bar rows ≡ none
      → select_one (is_row (record bar { revision = pos 1; is_current = true })) rows ≡ some row
      → Taken bar rows
  next_taken :
      (current row : MarketBar)
      → load_current_market_bar bar rows ≡ some current
      → select_one
          (is_row (record bar { revision = next_revision current.revision; is_current = true }))
          (update_where (closes bar current) past rows)
        ≡ some row
      → Taken bar rows
