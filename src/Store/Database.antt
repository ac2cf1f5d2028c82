-- ===== src/Store/Database.antt =====
-- The tables that the ingestion repository writes. A query or a statement of its SQL is a function
-- of these lists; a row that another transaction has locked, which SKIP LOCKED passes over, is one
-- that the argument `skip` names. An instant is stored as it is: the rounding of a timestamptz to
-- microseconds does not show.
use xr_trading.Base.{ℕ, ◌+◌, Bool, Option, none, some, List, [], ◌∷◌, if◌then◌else◌}
use xr_trading.Domain.Task.{IngestionTask, IngestionCheckpoint}
use xr_trading.Domain.MarketData.{MarketBar, DataQualityIssue}

pub record Database : Type 0 where
  pub tasks : List IngestionTask
  pub checkpoints : List IngestionCheckpoint
  pub bars : List MarketBar
  pub issues : List DataQualityIssue

module _ {ℓ} {A : Type ℓ} where
  -- SELECT ... WHERE p LIMIT 1
  unfoldable pub select_one : (A → Bool) → List A → Option A
  select_one p [] = none
  select_one p (x ∷ xs) = if p x then some x else select_one p xs

  -- UPDATE ... SET f WHERE p
  unfoldable pub update_where : (A → Bool) → (A → A) → List A → List A
  update_where p f [] = []
  update_where p f (x ∷ xs) = (if p x then f x else x) ∷ update_where p f xs

  -- The number of rows that a condition holds of, RowsAffected of the statement above.
  unfoldable pub count_where : (A → Bool) → List A → ℕ
  count_where p [] = 0
  count_where p (x ∷ xs) = (if p x then 1 else 0) + count_where p xs

  -- SELECT ... WHERE p
  unfoldable pub select_where : (A → Bool) → List A → List A
  select_where p [] = []
  select_where p (x ∷ xs) = let rest = select_where p xs in if p x then x ∷ rest else rest
