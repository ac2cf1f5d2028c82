-- ===== src/Store/Bars.antt =====
-- The versioned bars: loadCurrentMarketBar of repository/postgres/market_data.go and
-- writeMarketBarInTransaction of repository/postgres/ingestion.go.
pub mod Versions
use xr_trading.Base.{
  ℕ, suc, ◌+◌, Bool, true, false, not, ◌&&◌, Option, none, some, List, [], ◌∷◌, ◌==◌, ℤ, pos,
  negsuc, if◌then◌else◌,
}
use xr_trading.Domain.Text.{same_text}
use xr_trading.Domain.Errors.{Result, ok, err, sentinel, ◌>>=◌, conflict}
use xr_trading.Domain.Interval.{same_interval}
use xr_trading.Domain.MarketData.{MarketBar, new_bar}
use xr_trading.Store.Database.{select_one, update_where, count_where}

-- The identity of a bar: its source, interval and open time.
abbrev pub same_bar : MarketBar → MarketBar → Bool
same_bar a b =
    a.instrument_id == b.instrument_id
    && a.provider_instrument_id == b.provider_instrument_id
    && same_interval a.interval b.interval
    && a.open_time == b.open_time

abbrev pub same_revision : ℤ → ℤ → Bool
same_revision (pos a) (pos b) = a == b
same_revision (negsuc a) (negsuc b) = a == b
same_revision _ _ = false

abbrev pub next_revision : ℤ → ℤ
next_revision (pos n) = pos (n + 1)
next_revision (negsuc ℕ.zero) = pos 0
next_revision (negsuc (suc n)) = negsuc n

pub record MarketBarWriteResult : Type 0 where
  pub applied : Bool
  pub revision : ℤ

-- The current revision of a bar.
unfoldable pub load_current_market_bar : MarketBar → List MarketBar → Option MarketBar
unfolding select_one
load_current_market_bar bar = select_one (λ row. same_bar row bar && row.is_current)

-- `bar.RawHash != "" && current.RawHash == bar.RawHash`
abbrev pub is_unchanged : MarketBar → MarketBar → Bool
is_unchanged bar current =
    not (same_text bar.raw_hash "") && same_text current.raw_hash bar.raw_hash

abbrev pub closes : MarketBar → MarketBar → MarketBar → Bool
closes bar current row =
    same_bar row bar && same_revision row.revision current.revision && row.is_current

-- The primary key of the table: the identity of a bar and its revision.
abbrev pub is_row : MarketBar → MarketBar → Bool
is_row bar row = same_bar row bar && same_revision row.revision bar.revision

-- insertMarketBarSQL: a row with the same key is a conflict.
unfoldable pub insert_market_bar : MarketBar → List MarketBar → Result (List MarketBar)
unfolding select_one
insert_market_bar bar rows = elim (select_one (is_row bar) rows) [
  | some _ ↦ err (sentinel conflict)
  | none ↦ ok (bar ∷ rows)
]

-- The insert of a bar as the current one with a revision.
abbrev pub insert_current :
    MarketBar → ℤ → List MarketBar → Result (MarketBarWriteResult × List MarketBar)
insert_current bar revision rows =
    insert_market_bar (record bar { revision = revision; is_current = true }) rows >>= λ rows'.
    ok (record { applied = true; revision = revision }, rows')

-- The write of a checked bar. A new row stands before the older ones.
unfoldable pub write_checked_bar :
    MarketBar → List MarketBar → Result (MarketBarWriteResult × List MarketBar)
unfolding load_current_market_bar insert_market_bar
write_checked_bar bar rows = elim (load_current_market_bar bar rows) [
  | none ↦ insert_current bar (pos 1) rows
  | some current ↦
      if is_unchanged bar current
      then ok (record { applied = false; revision = current.revision }, rows)
      else if not (count_where (closes bar current) rows == 1)
      then err (sentinel conflict)
      else insert_current bar (next_revision current.revision)
          (update_where (closes bar current) (λ row. record row { is_current = false }) rows)
]

unfoldable pub write_market_bar_in_transaction :
    MarketBar → List MarketBar → Result (MarketBarWriteResult × List MarketBar)
unfolding write_checked_bar
write_market_bar_in_transaction given rows = do bar ← new_bar given; write_checked_bar bar rows

-- The loop of CommitSuccess over its bars.
unfoldable pub write_bars : List MarketBar → List MarketBar → Result (List MarketBar)
unfolding write_market_bar_in_transaction
write_bars [] rows = ok rows
write_bars (bar ∷ bars) rows =
    write_market_bar_in_transaction bar rows >>= λ written. write_bars bars written.1
