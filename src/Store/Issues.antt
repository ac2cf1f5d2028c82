-- ===== src/Store/Issues.antt =====
-- openQualityIssue of repository/postgres/quality.go.
use xr_trading.Base.{Bool, true, false, ◌&&◌, ◌||◌, Option, none, some, List, [], ◌∷◌, ◌==◌}
use xr_trading.Domain.Text.{same_text}
use xr_trading.Domain.Errors.{Result, ok, refuse_if, ◌>>=◌, ◌>>◌, invalid_data}
use xr_trading.Domain.Time.{is_zero}
use xr_trading.Domain.Interval.{same_interval}
use xr_trading.Domain.Task.{is_nil}
use xr_trading.Domain.MarketData.{DataQualityIssue, IssueStatus, opened, acknowledged}
use xr_trading.Store.Database.{select_one}

abbrev same_optional {ℓ} : {A : Type ℓ} → (A → A → Bool) → Option A → Option A → Bool
same_optional same none none = true
same_optional same (some a) (some b) = same a b
same_optional same _ _ = false

abbrev pub is_active : IssueStatus → Bool
is_active opened = true
is_active acknowledged = true
is_active _ = false

-- The key of the unique index over active issues, with NULLS NOT DISTINCT.
abbrev pub conflicts : DataQualityIssue → DataQualityIssue → Bool
conflicts new row =
    is_active row.status
    && row.instrument_id == new.instrument_id
    && same_optional (λ a b. a == b) row.provider_instrument_id new.provider_instrument_id
    && same_optional same_interval row.interval new.interval
    && same_optional (λ a b. a == b) row.open_time new.open_time
    && same_text row.rule_code new.rule_code

insert_issue : DataQualityIssue → List DataQualityIssue → Bool × List DataQualityIssue
insert_issue new rows = elim (select_one (conflicts new) rows) [
  | none ↦ (true, record new { status = opened } ∷ rows)
  | some _ ↦ (false, rows)
]

unfoldable pub open_quality_issue :
    DataQualityIssue → List DataQualityIssue → Result (Bool × List DataQualityIssue)
unfolding insert_issue select_one
open_quality_issue new rows = do
  refuse_if
      (is_nil new.id
        || is_nil new.instrument_id
        || same_text new.rule_code ""
        || is_zero new.detected_at
        || is_zero new.created_at
        || is_zero new.updated_at)
      invalid_data
  ok (insert_issue new rows)

-- The loop of CommitSuccess over its issues.
unfoldable pub open_issues :
    List DataQualityIssue → List DataQualityIssue → Result (List DataQualityIssue)
unfolding open_quality_issue
open_issues [] rows = ok rows
open_issues (issue ∷ issues) rows =
    open_quality_issue issue rows >>= λ opened. open_issues issues opened.1
