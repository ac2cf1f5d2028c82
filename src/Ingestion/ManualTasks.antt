-- ===== src/Ingestion/ManualTasks.antt =====
-- ManualTaskService of ingestion/manual_tasks.go: the retry of a failed task by an administrator, and the
-- cooperative cancellation. The store, the refresh of a run, the clock and the source of IDs are parameters.
pub mod Created
mod Samples
use xr_trading.Base.{ℕ, String, Bool, not, ◌≡◌, refl, ◌||◌, ◌&&◌, ◌∷◌, [], ◌==◌, true, false}
use xr_trading.Domain.Text.{same_text}
use xr_trading.Domain.Errors.{Result, ok, err, refuse_if, invalid_data}
use xr_trading.Domain.Time.{Instant, is_zero}
use xr_trading.Domain.Task.{Uuid, is_nil, Json, object, TaskStatus, pending, canceled}
use xr_trading.Ingestion.Action.{Action, ◌>>=◌, ◌>>◌, pure, continue}
use xr_trading.Ingestion.Contracts.{RunSummary, RunStatus}
use xr_trading.Ingestion.Backfill.{is_backfill_text}
use xr_trading.Scheduler.Batches.{Texts, is_scheduled_id}

pub record TaskOperationAudit : Type 0 where
  pub requested_by : String
  pub actor_type : String
  pub request_id : String
  pub reason : String

pub record ManualRetryCreation : Type 0 where
  pub original_task_id : Uuid
  pub run_id : Uuid
  pub task_id : Uuid
  pub maximum_attempts : ℕ
  pub audit : TaskOperationAudit
  pub created_at : Instant
  pub run_context : Json

pub record ManualRetryResult : Type 0 where
  pub run_id : Uuid
  pub task_id : Uuid
  pub status : RunStatus
  pub created_at : Instant

pub record TaskCancellationResult : Type 0 where
  pub task_id : Uuid
  pub run_id : Uuid
  pub status : TaskStatus
  pub canceled_at : Instant

-- validTaskOperationAudit
unfoldable pub is_audit : TaskOperationAudit → Bool
unfolding is_backfill_text
is_audit a =
    is_backfill_text a.requested_by 128
    && is_backfill_text a.request_id 128
    && is_backfill_text a.reason 512
    && (same_text a.actor_type "user" || same_text a.actor_type "service")

-- What the service calls.
pub record ManualTaskStore : Type 1 where
  pub State : Type 0
  pub texts : Texts
  pub maximum_attempts : ℕ
  pub now : Action State Instant
  pub new_id : Action State Uuid
  pub create_manual_retry : ManualRetryCreation → Action State (Unit {0})
  pub cancel_task_with_audit : Uuid → TaskOperationAudit → Instant → Action State Uuid
  pub refresh : Uuid → Action State RunSummary

-- The context of the run is the JSON object of the audit and of the task that failed.
unfoldable pub manual_retry_creation :
    Texts → ℕ → Uuid → Uuid → Uuid → TaskOperationAudit → Instant → ManualRetryCreation
manual_retry_creation texts maximum original run_id task_id audit t = record {
  original_task_id = original;
  run_id = run_id;
  task_id = task_id;
  maximum_attempts = maximum;
  audit = audit;
  created_at = t;
  run_context = object (
      ("actor_type", audit.actor_type)
      ∷ ("reason", audit.reason)
      ∷ ("request_id", audit.request_id)
      ∷ ("retry_of_task_id", texts.id_text original)
      ∷ []);
}

module _ (store : ManualTaskStore) where
  open store use {
    State, texts, maximum_attempts, now, new_id, create_manual_retry, cancel_task_with_audit,
    refresh,
  }

  -- ManualTaskService.Retry
  unfoldable pub retry : Uuid → TaskOperationAudit → Action State ManualRetryResult
  unfolding is_audit manual_retry_creation
  retry original audit = do
    pure (refuse_if (is_nil original || not (is_audit audit)) invalid_data)
    created_at ← now
    pure (refuse_if (is_zero created_at) invalid_data)
    run_id ← new_id
    pure (refuse_if (not (is_scheduled_id run_id) || run_id == original) invalid_data)
    task_id ← new_id
    pure (
        refuse_if (not (is_scheduled_id task_id) || task_id == run_id || task_id == original)
          invalid_data)
    create_manual_retry
        (manual_retry_creation texts maximum_attempts original run_id task_id audit created_at)
    pure (
        ok (record {
          run_id = run_id;
          task_id = task_id;
          status = RunStatus.pending;
          created_at = created_at;
        }))

  -- `_, _ = service.runs.Refresh(ctx, runID)`: the state it leaves, without its answer
  unfoldable pub try_refresh : Uuid → Action State (Unit {0})
  try_refresh run_id s = (ok tt, (refresh run_id s).1)

  -- ManualTaskService.Cancel
  unfoldable pub cancel : Uuid → TaskOperationAudit → Action State TaskCancellationResult
  unfolding is_audit try_refresh
  cancel task_id audit = do
    pure (refuse_if (is_nil task_id || not (is_audit audit)) invalid_data)
    canceled_at ← now
    pure (refuse_if (is_zero canceled_at) invalid_data)
    run_id ← cancel_task_with_audit task_id audit canceled_at
    try_refresh run_id
    pure (
        ok (record {
          task_id = task_id;
          run_id = run_id;
          status = canceled;
          canceled_at = canceled_at;
        }))
