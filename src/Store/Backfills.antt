-- ===== src/Store/Backfills.antt =====
-- CreateBackfillRunWithTask of repository/postgres/ingestion.go. The advisory lock orders the transactions for
-- one range, so each sees the writes of the one before; `enabled` is what the subscription's row holds.
pub mod Accepted
pub mod Exclusive
mod Samples
use xr_trading.Base.{
  ℕ, String, Bool, true, false, not, ◌&&◌, ◌||◌, Option, none, some, List, [], ◌∷◌, ltb, ◌==◌,
  is_some, if◌then◌else◌,
}
use xr_trading.Domain.Text.{same_text, same_codes, is_bounded_text}
use xr_trading.Domain.Errors.{
  Result, ok, err, sentinel, refuse_if, ◌>>=◌, ◌>>◌, invalid_data, conflict,
  backfill_already_running,
}
use xr_trading.Domain.Time.{is_zero}
use xr_trading.Domain.Task.{
  Uuid, is_nil, pending, running, retry_wait, same_status, is_json_object, IngestionTask,
}
use xr_trading.Ingestion.Contracts.{RunStatus}
use xr_trading.Ingestion.Backfill.{backfill_key}
use xr_trading.Scheduler.Batches.{IngestionRun, Texts, is_scheduled_id}
use xr_trading.Store.Schedules.{ScheduleTables, has_key, enabled_row, insert_batch}
use xr_trading.Store.Database.{select_one}

abbrev is_pending_run : RunStatus → Bool
is_pending_run RunStatus.pending = true
is_pending_run _ = false

-- `requestedBy == nil` or a text that is blank at an end, empty or too long
abbrev is_unnamed : Option String → Bool
is_unnamed none = true
is_unnamed (some name) = not (is_bounded_text 128 name)

module _ (texts : Texts) where
  abbrev pub is_bad_backfill_run : IngestionRun → Bool
  is_bad_backfill_run r =
      not (same_codes r.run_key (backfill_key texts r.id))
      || not (same_text r.run_type "backfill")
      || not (same_text r.trigger_type "manual")
      || not (is_pending_run r.status)
      || is_some r.scheduled_at
      || is_some r.started_at
      || is_some r.finished_at
      || is_unnamed r.requested_by
      || not (r.task_count == 1)
      || not (r.success_count == 0)
      || not (r.failed_count == 0)
      || is_zero r.created_at
      || not (is_json_object r.run_context)
      || not (is_json_object r.error_summary)

  abbrev pub is_bad_backfill_task : IngestionRun → IngestionTask → Bool
  is_bad_backfill_task r t =
      not (same_status t.status pending)
      || not (t.attempt_count == 0)
      || ltb t.max_attempts 1
      || not (ltb t.range_start t.range_end)
      || ltb r.created_at t.range_end
      || is_some t.retry_of_task_id
      || is_some t.next_attempt_at
      || is_some t.locked_by
      || is_some t.locked_until
      || is_some t.started_at
      || is_some t.finished_at
      || is_some t.provider_request_id
      || is_some t.error_code
      || is_some t.error_message
      || is_some t.canceled_by
      || is_some t.cancel_reason
      || not (t.created_at == r.created_at)
      || not (t.updated_at == r.created_at)
      || not (is_json_object t.error_details)

  -- validateBackfillRunAndTask
  unfoldable pub validate_backfill_run_and_task : IngestionRun → IngestionTask → Result (Unit {0})
  unfolding same_codes is_bounded_text
  validate_backfill_run_and_task r t =
      refuse_if
        (not (is_scheduled_id r.id)
          || not (is_scheduled_id t.id)
          || t.id == r.id
          || not (t.run_id == r.id)
          || is_nil t.subscription_id
          || is_bad_backfill_run r
          || is_bad_backfill_task r t)
        invalid_data

-- A run of the type 'backfill' with an ID.
abbrev pub is_backfill : Uuid → IngestionRun → Bool
is_backfill run_id r = r.id == run_id && same_text r.run_type "backfill"

-- status IN ('pending', 'running', 'retry_wait')
abbrev pub is_active : IngestionTask → Bool
is_active t =
    same_status t.status pending || same_status t.status running || same_status t.status retry_wait

-- The conditions of the query on a row of the tasks and the runs that it joins.
unfoldable pub is_equivalent_backfill : List IngestionRun → IngestionTask → IngestionTask → Bool
unfolding select_one
is_equivalent_backfill runs wanted t =
    t.subscription_id == wanted.subscription_id
    && t.range_start == wanted.range_start
    && t.range_end == wanted.range_end
    && is_some (select_one (is_backfill t.run_id) runs)
    && is_active t

-- The insert of the run fails on a key that exists, too.
unfoldable pub insert_backfill :
    IngestionRun → IngestionTask → ScheduleTables → Result ScheduleTables
unfolding select_one
insert_backfill r t db = elim (select_one (has_key r.run_key) db.runs) [
  | some _ ↦ err (sentinel conflict)
  | none ↦ elim (select_one (λ s. s.id == r.id) db.runs) [
    | some _ ↦ err (sentinel conflict)
    | none ↦ elim (select_one (λ u. u.id == t.id) db.tasks) [
      | some _ ↦ err (sentinel conflict)
      | none ↦ ok (record { runs = r ∷ db.runs; tasks = t ∷ db.tasks })
    ]
  ]
]

abbrev committed : ScheduleTables → Result ScheduleTables → Result (Unit {0}) × ScheduleTables
committed db (ok db') = (ok tt, db')
committed db (err e) = (err e, db)

-- Behind the check of an active task for the same range.
unfoldable pub write_backfill :
    IngestionRun → IngestionTask → ScheduleTables → Result (Unit {0}) × ScheduleTables
unfolding select_one is_equivalent_backfill insert_backfill
write_backfill r t db = elim (select_one (is_equivalent_backfill db.runs t) db.tasks) [
  | some _ ↦ (err (sentinel backfill_already_running), db)
  | none ↦ committed db (insert_backfill r t db)
]

module _ (texts : Texts) (enabled : Uuid → Option Bool) where
  unfoldable pub create_backfill_run_with_task :
      IngestionRun → IngestionTask → ScheduleTables → Result (Unit {0}) × ScheduleTables
  unfolding validate_backfill_run_and_task write_backfill
  create_backfill_run_with_task r t db =
      elim (validate_backfill_run_and_task texts r t >> enabled_row (enabled t.subscription_id)) [
        | err e ↦ (err e, db)
        | ok _ ↦ write_backfill r t db
      ]
