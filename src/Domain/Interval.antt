-- ===== src/Domain/Interval.antt =====
-- domain/classification.go: the bar interval. A BarInterval is a string; `other` stands for every
-- string that is not one of the two constants.
use xr_trading.Base.{ℕ, Bool, ◌==◌}
use xr_trading.Domain.Errors.{Result, ok, err, sentinel, invalid_data}

pub data BarInterval : Type 0 where
  hour1 day1 other : BarInterval

abbrev pub same_interval : BarInterval → BarInterval → Bool
same_interval a b = rank a == rank b
  where
    rank : BarInterval → ℕ
    rank hour1 = 0
    rank day1 = 1
    rank other = 2

-- domain.ParseBarInterval
unfoldable pub parse_bar_interval : BarInterval → Result BarInterval
parse_bar_interval hour1 = ok hour1
parse_bar_interval day1 = ok day1
parse_bar_interval other = err (sentinel invalid_data)
