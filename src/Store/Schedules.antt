-- ===== src/Store/Schedules.antt =====
-- CreateScheduledBatch of repository/postgres/ingestion.go. `enabled` is what the subscription's row holds under
-- the lock of the transaction; the texts of a run key are parameters, as in Scheduler.Batches.
pub mod Idempotent
mod Samples
use xr_trading.Base.{
  ℕ, Bool, true, false, not, ◌&&◌, ◌||◌, Option, none, some, List, [], ◌∷◌, ◌++◌, ◌==◌,
  if◌then◌else◌, length,
}
use xr_trading.Domain.Text.{same_text, same_codes}
use xr_trading.Domain.Errors.{
  Result, ok, err, sentinel, refuse_if, ◌>>=◌, ◌>>◌, not_found, conflict, invalid_state,
}
use xr_trading.Domain.Time.{Instant, stored_time}
use xr_trading.Domain.Task.{Uuid, IngestionTask}
use xr_trading.Scheduler.Batches.{Texts, IngestionRun, ScheduledBatch, validate_batch}
use xr_trading.Store.Database.{select_one, select_where}

pub record ScheduleTables : Type 0 where
  pub runs : List IngestionRun
  pub tasks : List IngestionTask

abbrev pub has_key : List ℕ → IngestionRun → Bool
has_key key r = same_codes r.run_key key

abbrev pub has_run_id : Uuid → IngestionRun → Bool
has_run_id id r = r.id == id

abbrev pub is_task_of : Uuid → IngestionTask → Bool
is_task_of run_id t = t.run_id == run_id

abbrev has_task_id : Uuid → IngestionTask → Bool
has_task_id id t = t.id == id

abbrev pub same_instant : Option Instant → Option Instant → Bool
same_instant (some a) (some b) = a == b
same_instant _ _ = false

-- The SELECT of equivalentScheduledBatch joins the run to its tasks; it scans the first row. The columns hold
-- microseconds and are compared with the batch's times as they are.
unfoldable pub is_equivalent : IngestionRun → List IngestionTask → ScheduledBatch → Result Bool
is_equivalent r [] b = err (sentinel not_found)
is_equivalent r (t ∷ ts) b = ok (
    length (t ∷ ts) == 1
    && same_text r.run_type b.run.run_type
    && same_text r.trigger_type b.run.trigger_type
    && same_instant r.scheduled_at b.run.scheduled_at
    && t.subscription_id == b.task.subscription_id
    && t.range_start == b.task.range_start
    && t.range_end == b.task.range_end)

-- The end of the transaction behind a key that exists.
unfoldable pub reuse : IngestionRun → ScheduledBatch → ScheduleTables → Result Bool
unfolding is_equivalent select_where
reuse r b db = is_equivalent r (select_where (is_task_of r.id) db.tasks) b >>= λ equivalent.
    if equivalent then ok false else err (sentinel conflict)

abbrev stored_option : Option Instant → Option Instant
stored_option none = none
stored_option (some t) = some (stored_time t)

-- What the columns of the two rows hold.
abbrev pub stored_run : IngestionRun → IngestionRun
stored_run r = record r {
  scheduled_at = stored_option r.scheduled_at;
  created_at = stored_time r.created_at;
}

abbrev pub stored_task : IngestionTask → IngestionTask
stored_task t = record t {
  range_start = stored_time t.range_start;
  range_end = stored_time t.range_end;
  created_at = stored_time t.created_at;
  updated_at = stored_time t.updated_at;
}

-- The two inserts; an ID that is taken is a conflict.
unfoldable pub insert_batch : ScheduledBatch → ScheduleTables → Result ScheduleTables
unfolding select_one
insert_batch b db = elim (select_one (has_run_id b.run.id) db.runs) [
  | some _ ↦ err (sentinel conflict)
  | none ↦ elim (select_one (has_task_id b.task.id) db.tasks) [
    | some _ ↦ err (sentinel conflict)
    | none ↦
        ok (record { runs = stored_run b.run ∷ db.runs; tasks = stored_task b.task ∷ db.tasks })
  ]
]

abbrev pub enabled_row : Option Bool → Result (Unit {0})
enabled_row none = err (sentinel not_found)
enabled_row (some enabled) = refuse_if (not enabled) invalid_state

abbrev stored : ScheduleTables → Result ScheduleTables → Result Bool × ScheduleTables
stored db (ok db') = (ok true, db')
stored db (err e) = (err e, db)

-- The INSERT that does nothing on a key that exists, and what follows it.
unfoldable pub write_batch : ScheduledBatch → ScheduleTables → Result Bool × ScheduleTables
unfolding select_one reuse insert_batch
write_batch b db = elim (select_one (has_key b.run.run_key) db.runs) [
  | some r ↦ (reuse r b db, db)
  | none ↦ stored db (insert_batch b db)
]

module _ (texts : Texts) (enabled : Uuid → Option Bool) where
  unfoldable pub create_scheduled_batch :
      ScheduledBatch → ScheduleTables → Result Bool × ScheduleTables
  unfolding validate_batch write_batch
  create_scheduled_batch b db =
      elim (validate_batch texts b >> enabled_row (enabled b.task.subscription_id)) [
        | err e ↦ (err e, db)
        | ok _ ↦ write_batch b db
      ]
