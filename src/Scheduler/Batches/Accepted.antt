-- ===== src/Scheduler/Batches/Accepted.antt =====
-- What newBatch makes of a window that is due passes Validate.
use xr_trading.Base.{ℕ, ◌≡◌, refl, true, false, ◌==◌, ◌<◌, ◌≤◌, ◌≢◌, arith}
use xr_trading.Domain.Text.{same_text, same_codes-same}
use xr_trading.Domain.Errors.{ok}
use xr_trading.Domain.Time.{Instant, zero_time}
use xr_trading.Domain.Task.{Uuid}
use xr_trading.Scheduler.Window.{
  CollectionWindow, WindowTrigger, close, revision, unsupported, is_supported,
}
use xr_trading.Scheduler.Targets.{SchedulingTarget}
use xr_trading.Scheduler.Batches.{
  Texts, is_scheduled_id, is_misnamed, is_bad_run, is_bad_task, stable_run_key, validate_batch,
  batch_for, run_type_for,
}

-- A window that is due at a time.
pub record IsDue (w : CollectionWindow) (t : Instant) : Type 0 where
  pub supported : is_supported w.trigger ≡ true
  pub ordered : w.range_start < w.range_end
  pub ended : w.range_end ≤ w.eligible_at
  pub eligible : w.eligible_at ≤ t

pub run_type_for-same : (x : WindowTrigger) → same_text (run_type_for x) (run_type_for x) ≡ true
run_type_for-same close = refl
run_type_for-same revision = refl
run_type_for-same unsupported = refl

module _ (texts : Texts) (target : SchedulingTarget) (w : CollectionWindow) (t : Instant) where
  named-IsScheduled :
      (maximum_attempts : ℕ) (run_id task_id : Uuid)
      → 0 < target.subscription.id
      → is_scheduled_id run_id ≡ true
      → is_scheduled_id task_id ≡ true
      → (run_id == task_id) ≡ false
      → is_misnamed texts (batch_for texts maximum_attempts target w t run_id task_id) ≡ false
  unfolding batch_for
  named-IsScheduled maximum_attempts run_id task_id named r k distinct =
      rw
        (
          r,
          k,
          distinct,
          same_codes-same
              (stable_run_key texts w.trigger target.subscription.id w.range_start w.range_end),
        )
        (ground (arith, named))

  run-IsPending :
      (maximum_attempts : ℕ) (run_id task_id : Uuid)
      → IsDue w t
      → t ≢ zero_time
      → is_bad_run texts (batch_for texts maximum_attempts target w t run_id task_id) ≡ false
  unfolding batch_for
  run-IsPending maximum_attempts run_id task_id due present =
      rw (run_type_for-same w.trigger) (ground (arith, present, due.eligible))

  task-IsPending :
      (maximum_attempts : ℕ) (run_id task_id : Uuid)
      → IsDue w t
      → 0 < maximum_attempts
      → is_bad_task texts (batch_for texts maximum_attempts target w t run_id task_id) ≡ false
  unfolding batch_for
  task-IsPending maximum_attempts run_id task_id due tried =
      ground (arith, due.ordered, due.ended, tried)

  -- The run and the task that newBatch fills in for a window that is due at a present time, for a subscription with an
  -- ID, a limit of at least one attempt, and two different IDs of version 7, pass ScheduledBatch.Validate,
  -- whatever the target is otherwise.
  pub batch_for-accepted :
      (maximum_attempts : ℕ) (run_id task_id : Uuid)
      → IsDue w t
      → t ≢ zero_time
      → 0 < target.subscription.id
      → 0 < maximum_attempts
      → is_scheduled_id run_id ≡ true
      → is_scheduled_id task_id ≡ true
      → (run_id == task_id) ≡ false
      → validate_batch texts (batch_for texts maximum_attempts target w t run_id task_id) ≡ ok tt
  unfolding validate_batch batch_for
  batch_for-accepted maximum_attempts run_id task_id due present named tried r k distinct =
      rw
        (
          validate_batch,
          due.supported,
          named-IsScheduled maximum_attempts run_id task_id named r k distinct,
          run-IsPending maximum_attempts run_id task_id due present,
          task-IsPending maximum_attempts run_id task_id due tried,
        )
        refl
