-- ===== src/Store/Lifecycle.antt =====
-- How the operations of the queue change the status of a task.
use xr_trading.Base.{
  ℕ, zero, suc, ◌+◌, ◌-◌, ◌≤◌, ◌<◌, ◌≡◌, ◌≢◌, refl, sym, ◌⊎◌, inl, inr, String, Bool, true, false,
  not, ◌&&◌, Option, none, some, List, [], ◌∷◌, All, ltz, pos, ◌||◌, arith, Bool-cases,
  Option-cases, ==_iff, is_some, leb, ◌==◌,
}
use mathlib.Core.Path.{subst}
use text.Mathlib.Text.{◌==◌ as str_eq}
use xr_trading.Domain.Errors.{Result, ok, err}
use xr_trading.Domain.Time.{Instant, Duration, add, zero_time}
use xr_trading.Domain.Task.{
  Uuid, TaskStatus, pending, running, retry_wait, success, failed, canceled, same_status,
  IngestionTask, TaskClaim,
}
use xr_trading.Ingestion.Contracts.{FailureCommit, SuccessCommit}
use xr_trading.Store.FailureRequest.{validate_failure_commit}
use xr_trading.Store.Database.{Database, select_one, update_where, count_where}
use xr_trading.Store.Queue.{
  is_claimable, claimed, has_id, oldest, claim_next_task, is_cancelable, cancelled, has_status,
  cancel_task, is_expired, recovered, record_all_failures, recover_expired_tasks,
}
use xr_trading.Store.Commits.{
  Source, is_fenced, failed_task, update_fenced, commit_failure, succeeded, commit_success,
}
use xr_trading.Store.Rows.{
  Rows, Rows-refl, Rows-update_where, IsKeyed, IsOnly, oldest_fits, oldest-IsOnly, All-update_where,
}
pub mod Changes
pub mod Calls

-- What one operation may do to one task.
pub data Moves (t u : IngestionTask) : Type 0 where
  kept : u ≡ t → Moves t u
  started :
      (t.status ≡ pending) ⊎ (t.status ≡ retry_wait)
      → u.status ≡ running
      → u.attempt_count ≡ t.attempt_count + 1
      → u.id ≡ t.id
      → Moves t u
  ended :
      t.status ≡ running
      → (u.status ≡ success) ⊎ (u.status ≡ failed) ⊎ (u.status ≡ retry_wait) ⊎ (u.status ≡ pending)
      → u.attempt_count ≡ t.attempt_count
      → u.id ≡ t.id
      → Moves t u
  stopped :
      (t.status ≡ pending) ⊎ (t.status ≡ retry_wait) ⊎ (t.status ≡ running)
      → u.status ≡ canceled
      → u.attempt_count ≡ t.attempt_count
      → u.id ≡ t.id
      → Moves t u

-- A call on the tasks that are stored: ClaimNextTask, CancelTask, RecoverExpiredTasks and the two commits. The calls
-- that insert tasks and CancelTaskWithAudit are not among them.
pub data Call : Type 0 where
  claims : (skip : Uuid → Bool) (worker_id : String) (now : Instant) (lease : Duration) → Call
  cancels : (task_id : Uuid) (canceled_by reason : String) (now : Instant) → Call
  recovers : (skip : Uuid → Bool) (now : Instant) → Call
  fails : FailureCommit → Call
  succeeds : SuccessCommit → Call

-- The database after a call, whatever its result.
unfoldable pub after : (Uuid → Option Source) → Call → Database → Database
after source (claims skip worker_id now lease) db = (claim_next_task skip worker_id now lease db).1
after source (cancels task_id canceled_by reason now) db =
    (cancel_task task_id canceled_by reason now db).1
after source (recovers skip now) db = (recover_expired_tasks skip now db).1
after source (fails r) db = (commit_failure r db).1
after source (succeeds r) db = (commit_success source r db).1

abbrev pub is_terminal : TaskStatus → Bool
is_terminal success = true
is_terminal failed = true
is_terminal canceled = true
is_terminal _ = false

-- The optional columns of a task match its status: a lease exactly while it runs, a next attempt
-- exactly while it waits for one, and an end exactly when it is terminal.
pub record IsSound (t : IngestionTask) : Type 0 where
  pub owned : is_some t.locked_by ≡ same_status t.status running
  pub leased : is_some t.locked_until ≡ same_status t.status running
  pub scheduled : is_some t.next_attempt_at ≡ same_status t.status retry_wait
  pub ended : is_some t.finished_at ≡ is_terminal t.status

pub record IsChange (t u : IngestionTask) : Type 0 where
  pub moves : Moves t u
  pub sound : IsSound t → IsSound u
