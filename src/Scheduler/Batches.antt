-- ===== src/Scheduler/Batches.antt =====
-- ScheduledBatch, StableRunKey and newBatch of scheduler/incremental.go. The texts that Go's packages make of an
-- ID and an instant are parameters, and a run key is the sequence of its characters.
pub mod Keys
pub mod Accepted
pub mod Samples
use xr_trading.Base.{
  ℕ, String, Bool, true, false, not, ◌&&◌, ◌||◌, Option, none, some, List, [], ◌∷◌, ◌++◌, ltb, ◌==◌,
  is_some, if◌then◌else◌,
}
use xr_trading.Domain.Text.{same_text, codes, same_codes}
use xr_trading.Domain.Errors.{Result, ok, err, sentinel, refuse_if, invalid_data}
use xr_trading.Domain.Time.{Instant, is_zero}
use xr_trading.Domain.Interval.{BarInterval, hour1, day1, other}
use xr_trading.Domain.Task.{
  Uuid, is_nil, version, Json, object, is_json_object, IngestionTask, pending, same_status,
}
use xr_trading.Ingestion.Action.{Action, ◌>>=◌, ◌>>◌, pure}
use xr_trading.Ingestion.Contracts.{RunStatus}
use xr_trading.Scheduler.Window.{
  CollectionWindow, WindowTrigger, close, revision, unsupported, is_supported,
}
use xr_trading.Scheduler.Targets.{SchedulingTarget}

-- domain.IngestionRun
pub record IngestionRun : Type 0 where
  pub id : Uuid
  pub run_key : List ℕ
  pub run_type : String
  pub trigger_type : String
  pub status : RunStatus
  pub scheduled_at : Option Instant
  pub started_at : Option Instant
  pub finished_at : Option Instant
  pub requested_by : Option String
  pub task_count : ℕ
  pub success_count : ℕ
  pub failed_count : ℕ
  pub run_context : Json
  pub error_summary : Json
  pub created_at : Instant

pub record ScheduledBatch : Type 0 where
  pub trigger : WindowTrigger
  pub run : IngestionRun
  pub task : IngestionTask

-- The text of a trigger; one that is not supported is refused before it is read.
abbrev pub trigger_text : WindowTrigger → String
trigger_text close = "close"
trigger_text revision = "revision"
trigger_text unsupported = ""

abbrev pub run_type_for : WindowTrigger → String
run_type_for close = "incremental"
run_type_for revision = "revision"
run_type_for unsupported = "incremental"

abbrev pub interval_text : BarInterval → String
interval_text hour1 = "1h"
interval_text day1 = "1d"
interval_text other = ""

abbrev is_pending_run : RunStatus → Bool
is_pending_run RunStatus.pending = true
is_pending_run _ = false

-- `run.ScheduledAt == nil` or a time that the test refuses
abbrev pub refuses : Option Instant → (Instant → Bool) → Bool
refuses none test = true
refuses (some t) test = test t

-- uuid.UUID.String, Format("20060102T150405.000000000Z") and Format(time.RFC3339Nano) of an instant in UTC.
pub record Texts : Type 0 where
  pub id_text : Uuid → String
  pub key_time : Instant → String
  pub json_time : Instant → String

-- strings.Join(parts, ".")
unfoldable pub join_dots : List (List ℕ) → List ℕ
join_dots [] = []
join_dots (p ∷ []) = p
join_dots (p ∷ q ∷ ps) = p ++ 46 ∷ join_dots (q ∷ ps)

-- validScheduledID
abbrev pub is_scheduled_id : Uuid → Bool
is_scheduled_id id = not (is_nil id) && version id == 7

module _ (texts : Texts) where
  open texts use {id_text, key_time, json_time}

  unfoldable pub stable_run_key : WindowTrigger → Uuid → Instant → Instant → List ℕ
  unfolding join_dots
  stable_run_key trigger subscription_id start end = join_dots (
      codes (run_type_for trigger)
      ∷ codes "scheduler"
      ∷ codes (trigger_text trigger)
      ∷ codes (id_text subscription_id)
      ∷ codes (key_time start)
      ∷ codes (key_time end)
      ∷ [])

  -- The tests of Validate on the identities, the run and the task.
  abbrev pub is_misnamed : ScheduledBatch → Bool
  is_misnamed b =
      not (is_scheduled_id b.run.id)
      || not (is_scheduled_id b.task.id)
      || b.run.id == b.task.id
      || not (b.task.run_id == b.run.id)
      || is_nil b.task.subscription_id
      || not (
          same_codes b.run.run_key
            (stable_run_key b.trigger b.task.subscription_id b.task.range_start b.task.range_end))

  abbrev pub is_bad_run : ScheduledBatch → Bool
  is_bad_run b =
      not (same_text b.run.run_type (run_type_for b.trigger))
      || not (same_text b.run.trigger_type "scheduler")
      || not (is_pending_run b.run.status)
      || is_some b.run.started_at
      || is_some b.run.finished_at
      || is_some b.run.requested_by
      || not (b.run.task_count == 1)
      || not (b.run.success_count == 0)
      || not (b.run.failed_count == 0)
      || is_zero b.run.created_at
      || refuses b.run.scheduled_at (λ t. ltb b.run.created_at t)
      || not (is_json_object b.run.run_context)
      || not (is_json_object b.run.error_summary)

  abbrev pub is_bad_task : ScheduledBatch → Bool
  is_bad_task b =
      not (same_status b.task.status pending)
      || not (b.task.attempt_count == 0)
      || ltb b.task.max_attempts 1
      || not (ltb b.task.range_start b.task.range_end)
      || refuses b.run.scheduled_at (λ t. ltb t b.task.range_end)
      || is_some b.task.retry_of_task_id
      || is_some b.task.next_attempt_at
      || is_some b.task.locked_by
      || is_some b.task.locked_until
      || is_some b.task.started_at
      || is_some b.task.finished_at
      || is_some b.task.provider_request_id
      || is_some b.task.error_code
      || is_some b.task.error_message
      || is_some b.task.canceled_by
      || is_some b.task.cancel_reason
      || not (b.task.created_at == b.run.created_at)
      || not (b.task.updated_at == b.run.created_at)
      || not (is_json_object b.task.error_details)

  -- ScheduledBatch.Validate
  unfoldable pub validate_batch : ScheduledBatch → Result (Unit {0})
  unfolding same_codes stable_run_key
  validate_batch b =
      if not (is_supported b.trigger)
      then err (sentinel invalid_data)
      else refuse_if (is_misnamed b || is_bad_run b || is_bad_task b) invalid_data

  -- The run and the task that newBatch fills in.
  unfoldable pub batch_for :
      ℕ → SchedulingTarget → CollectionWindow → Instant → Uuid → Uuid → ScheduledBatch
  unfolding stable_run_key
  batch_for maximum_attempts target window observed_at run_id task_id = record {
    trigger = window.trigger;
    run = record {
      id = run_id;
      run_key =
          stable_run_key window.trigger target.subscription.id window.range_start window.range_end;
      run_type = run_type_for window.trigger;
      trigger_type = "scheduler";
      status = RunStatus.pending;
      scheduled_at = some window.eligible_at;
      started_at = none;
      finished_at = none;
      requested_by = none;
      task_count = 1;
      success_count = 0;
      failed_count = 0;
      run_context = object (
          ("instrument_code", target.instrument_code)
          ∷ ("interval", interval_text window.interval)
          ∷ ("provider", target.provider_code)
          ∷ ("range_end", json_time window.range_end)
          ∷ ("range_start", json_time window.range_start)
          ∷ ("subscription_id", id_text target.subscription.id)
          ∷ ("trigger", trigger_text window.trigger)
          ∷ []);
      error_summary = object [];
      created_at = observed_at;
    };
    task = record {
      id = task_id;
      run_id = run_id;
      subscription_id = target.subscription.id;
      retry_of_task_id = none;
      range_start = window.range_start;
      range_end = window.range_end;
      status = pending;
      attempt_count = 0;
      max_attempts = maximum_attempts;
      next_attempt_at = none;
      locked_by = none;
      locked_until = none;
      started_at = none;
      finished_at = none;
      provider_request_id = none;
      error_code = none;
      error_message = none;
      error_details = object [];
      canceled_by = none;
      cancel_reason = none;
      created_at = observed_at;
      updated_at = observed_at;
    };
  }

  -- IncrementalScheduler.newBatch; `new_id` makes the IDs.
  unfoldable pub new_batch :
      {State : Type 0}
      → Action State Uuid
      → ℕ
      → SchedulingTarget
      → CollectionWindow
      → Instant
      → Action State ScheduledBatch
  unfolding validate_batch batch_for
  new_batch new_id maximum_attempts target window observed_at = do
    run_id ← new_id
    pure (refuse_if (not (is_scheduled_id run_id)) invalid_data)
    task_id ← new_id
    pure (refuse_if (not (is_scheduled_id task_id) || task_id == run_id) invalid_data)
    let batch = batch_for maximum_attempts target window observed_at run_id task_id
    pure (validate_batch batch)
    pure (ok batch)
