-- ===== src/Store/Commits.antt =====
-- CommitFailure and CommitSuccess of repository/postgres/ingestion.go: the fence that compares the
-- locked row with the claim, and the writes behind it.
use xr_trading.Base.{
  String, Bool, true, false, not, ◌&&◌, ◌||◌, Option, none, some, List, [], ◌∷◌, ◌==◌, is_none,
  if◌then◌else◌,
}
use xr_trading.Domain.Text.{same_text}
use xr_trading.Domain.Errors.{
  Result, ok, err, sentinel, refuse_if, ◌>>=◌, ◌>>◌, invalid_data, task_lease_lost,
}
use xr_trading.Domain.Time.{Instant, is_zero}
use xr_trading.Domain.Interval.{BarInterval, same_interval}
use xr_trading.Domain.Task.{
  Uuid, is_nil, running, success, failed, same_status, object, IngestionTask, TaskClaim, has_owner,
  is_leased,
}
use xr_trading.Domain.MarketData.{MarketBar, DataQualityIssue, new_bar}
use xr_trading.Ingestion.Contracts.{FailureCommit, SuccessCommit}
use xr_trading.Store.FailureRequest.{validate_failure_commit}
use xr_trading.Store.Database.{Database, select_one, update_where, count_where}
use xr_trading.Store.Checkpoints.{upsert_successful_checkpoint, upsert_failed_checkpoint}
use xr_trading.Store.Bars.{same_bar, write_bars}
use xr_trading.Store.Issues.{open_issues}
use xr_trading.Store.Queue.{has_id}

abbrev same_owner : Option String → Option String → Bool
same_owner (some a) (some b) = same_text a b
same_owner _ _ = false

abbrev same_lease : Option Instant → Option Instant → Bool
same_lease (some a) (some b) = a == b
same_lease _ _ = false

-- The conditions that both fences put on the row: it is the claim's attempt, and the lease is live.
unfoldable pub holds_lease : TaskClaim → Instant → IngestionTask → Bool
holds_lease claim finished_at row =
    same_status row.status running
    && row.attempt_count == claim.task.attempt_count
    && row.subscription_id == claim.task.subscription_id
    && same_owner row.locked_by claim.task.locked_by
    && same_lease row.locked_until claim.task.locked_until
    && is_leased row.locked_until finished_at

-- The WHERE clause of the final UPDATE.
unfoldable pub is_fenced : TaskClaim → Instant → IngestionTask → Bool
is_fenced claim finished_at row =
    row.id == claim.task.id
    && same_status row.status running
    && row.attempt_count == claim.task.attempt_count
    && same_owner row.locked_by claim.task.locked_by
    && same_lease row.locked_until claim.task.locked_until
    && is_leased row.locked_until finished_at

-- lockAndValidateFailureClaim
unfoldable pub lock_and_validate_failure_claim : FailureCommit → Database → Result (Unit {0})
unfolding select_one
lock_and_validate_failure_claim r db = elim (select_one (has_id r.claim.task.id) db.tasks) [
  | none ↦ err (sentinel task_lease_lost)
  | some row ↦ refuse_if (not (holds_lease r.claim r.finished_at row)) task_lease_lost
]

-- The SET clause of CommitFailure.
abbrev pub failed_task : FailureCommit → IngestionTask → IngestionTask
failed_task r t = record t {
  status = r.status;
  next_attempt_at = r.next_attempt_at;
  locked_by = none;
  locked_until = none;
  finished_at = if same_status r.status failed then some r.finished_at else none;
  error_code = some r.error_code;
  error_message = some r.error_message;
  error_details = r.error_details;
  updated_at = r.finished_at;
}

-- The UPDATE of one fenced row; another number of rows ends the transaction.
unfoldable pub update_fenced :
    TaskClaim → Instant → (IngestionTask → IngestionTask) → Database → Result Database
update_fenced claim finished_at set db =
    if not (count_where (is_fenced claim finished_at) db.tasks == 1)
    then err (sentinel task_lease_lost)
    else ok (record db { tasks = update_where (is_fenced claim finished_at) set db.tasks })

-- A transaction: the new database if it commits, else the old one.
abbrev pub transact : Database → Result Database → Result (Unit {0}) × Database
transact db (ok db') = (ok tt, db')
transact db (err e) = (err e, db)

unfoldable pub commit_failure : FailureCommit → Database → Result (Unit {0}) × Database
commit_failure r db = transact db (do
  validate_failure_commit r
  lock_and_validate_failure_claim r db
  update_fenced r.claim r.finished_at (failed_task r) (record db {
    checkpoints =
        upsert_failed_checkpoint r.claim.task.subscription_id r.finished_at db.checkpoints;
  }))

-- No bar has the key of one before it.
abbrev has_duplicate : MarketBar → List MarketBar → Bool
has_duplicate bar [] = false
has_duplicate bar (b ∷ bs) = same_bar b bar || has_duplicate bar bs

-- The loop of validateSuccessCommit over the bars, with those seen before.
unfoldable pub check_bars : List MarketBar → List MarketBar → Result (Unit {0})
check_bars seen [] = ok tt
check_bars seen (b ∷ bs) = new_bar b >>= λ _.
    refuse_if (has_duplicate b seen) invalid_data >>= λ _. check_bars (b ∷ seen) bs

unfoldable pub check_issues : List DataQualityIssue → Result (Unit {0})
check_issues [] = ok tt
check_issues (i ∷ is) =
    refuse_if
      (is_nil i.id
        || is_nil i.instrument_id
        || same_text i.rule_code ""
        || same_text i.severity ""
        || same_text i.summary ""
        || is_zero i.detected_at
        || is_zero i.created_at
        || is_zero i.updated_at)
      invalid_data
    >>= λ _. check_issues is

unfoldable pub validate_success_commit : SuccessCommit → Result (Unit {0})
unfolding check_bars check_issues
validate_success_commit r = do
  let task = r.claim.task
  refuse_if
      (is_nil task.id
        || is_nil task.subscription_id
        || not (same_status task.status running)
        || task.attempt_count == 0
        || not (has_owner task.locked_by)
        || is_none task.locked_until
        || is_zero r.finished_at
        || not (is_leased task.locked_until r.finished_at))
      invalid_data
  refuse_if
      (not (r.checkpoint.subscription_id == task.subscription_id)
        || is_zero r.checkpoint.updated_at
        || is_none r.checkpoint.last_attempt_at
        || is_none r.checkpoint.last_success_at)
      invalid_data
  check_bars [] r.bars
  check_issues r.issues

-- What the fence of CommitSuccess joins to the task: the interval and the source of its subscription.
pub record Source : Type 0 where
  pub interval : BarInterval
  pub provider_instrument_id : Uuid
  pub instrument_id : Uuid

abbrev is_from : Source → MarketBar → Bool
is_from s b =
    b.instrument_id == s.instrument_id
    && b.provider_instrument_id == s.provider_instrument_id
    && same_interval b.interval s.interval

unfoldable pub bars_from : Source → List MarketBar → Bool
bars_from s [] = true
bars_from s (b ∷ bs) = is_from s b && bars_from s bs

abbrev is_id : Option Uuid → Uuid → Bool
is_id none id = false
is_id (some a) id = a == id

abbrev is_interval : Option BarInterval → BarInterval → Bool
is_interval none interval = true
is_interval (some a) interval = same_interval a interval

unfoldable pub issues_from : Source → List DataQualityIssue → Bool
issues_from s [] = true
issues_from s (i ∷ is) =
    i.instrument_id == s.instrument_id
    && is_id i.provider_instrument_id s.provider_instrument_id
    && is_interval i.interval s.interval
    && issues_from s is

-- lockAndValidateTaskClaim; `source` is what the catalog tables hold for a subscription.
unfoldable pub lock_and_validate_task_claim :
    (Uuid → Option Source) → SuccessCommit → Database → Result (Unit {0})
unfolding select_one
lock_and_validate_task_claim source r db = elim (select_one (has_id r.claim.task.id) db.tasks) [
  | none ↦ err (sentinel task_lease_lost)
  | some row ↦ elim (source row.subscription_id) [
    | none ↦ err (sentinel task_lease_lost)
    | some s ↦
        refuse_if (not (holds_lease r.claim r.finished_at row)) task_lease_lost
        >> refuse_if (not (bars_from s r.bars)) invalid_data
        >> refuse_if (not (issues_from s r.issues)) invalid_data
  ]
]

-- The SET clause of CommitSuccess.
abbrev pub succeeded : Instant → IngestionTask → IngestionTask
succeeded finished_at t = record t {
  status = success;
  next_attempt_at = none;
  locked_by = none;
  locked_until = none;
  finished_at = some finished_at;
  error_code = none;
  error_message = none;
  error_details = object [];
  updated_at = finished_at;
}

unfoldable pub commit_success :
    (Uuid → Option Source) → SuccessCommit → Database → Result (Unit {0}) × Database
commit_success source r db = transact db (do
  validate_success_commit r
  lock_and_validate_task_claim source r db
  bars ← write_bars r.bars db.bars
  issues ← open_issues r.issues db.issues
  update_fenced r.claim r.finished_at (succeeded r.finished_at) (record db {
    bars = bars;
    issues = issues;
    checkpoints = upsert_successful_checkpoint r.checkpoint db.checkpoints;
  }))
