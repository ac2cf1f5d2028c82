-- ===== src/Store/Runs.antt =====
-- LoadRunTaskSnapshot and SaveRunSummary of repository/postgres/ingestion.go, the store of RunService.
pub mod Settles
use xr_trading.Base.{
  ℕ, ◌+◌, Bool, true, false, not, ◌&&◌, ◌||◌, Option, none, some, List, [], ◌∷◌, ◌==◌, ltb, is_some,
  if◌then◌else◌,
}
use xr_trading.Domain.Errors.{
  Result, ok, err, sentinel, refuse_if, ◌>>=◌, ◌>>◌, invalid_data, not_found, conflict,
}
use xr_trading.Domain.Time.{Instant}
use xr_trading.Domain.Task.{Uuid, is_nil, TaskStatus, same_status, IngestionTask}
use xr_trading.Ingestion.Contracts.{
  RunTaskSnapshot, RunStatus, pending, running, success, failed, canceled, partial, RunSummary,
}
use xr_trading.Ingestion.Run.{summarize_run, RunStore}
use xr_trading.Store.Database.{select_one, update_where, count_where}

-- The columns of ingestion_runs that the cache of a run is kept in.
pub record RunRow : Type 0 where
  pub id : Uuid
  pub status : RunStatus
  pub task_count : ℕ
  pub success_count : ℕ
  pub failed_count : ℕ
  pub started_at : Option Instant
  pub finished_at : Option Instant

pub record RunTables : Type 0 where
  pub runs : List RunRow
  pub tasks : List IngestionTask

abbrev pub is_run : Uuid → RunRow → Bool
is_run id r = r.id == id

abbrev pub is_of_run : Uuid → IngestionTask → Bool
is_of_run run_id t = t.run_id == run_id

-- count(tasks.id) FILTER (WHERE tasks.status = ...)
abbrev pub count_status : Uuid → TaskStatus → List IngestionTask → ℕ
count_status run_id status = count_where (λ t. is_of_run run_id t && same_status t.status status)

-- min and max, which pass over NULL
abbrev pub earlier : Option Instant → Option Instant → Option Instant
earlier none b = b
earlier (some a) none = some a
earlier (some a) (some b) = some (if ltb b a then b else a)

abbrev pub later : Option Instant → Option Instant → Option Instant
later none b = b
later (some a) none = some a
later (some a) (some b) = some (if ltb a b then b else a)

unfoldable pub first_start : Uuid → List IngestionTask → Option Instant
first_start run_id [] = none
first_start run_id (t ∷ ts) =
    let rest = first_start run_id ts in
    if is_of_run run_id t then earlier t.started_at rest else rest

unfoldable pub last_end : Uuid → List IngestionTask → Option Instant
last_end run_id [] = none
last_end run_id (t ∷ ts) =
    let rest = last_end run_id ts in if is_of_run run_id t then later t.finished_at rest else rest

-- The aggregate of the query over the tasks of a run.
unfoldable pub snapshot_of : Uuid → List IngestionTask → RunTaskSnapshot
snapshot_of run_id tasks = record {
  run_id = run_id;
  pending_count = count_status run_id TaskStatus.pending tasks;
  running_count = count_status run_id TaskStatus.running tasks;
  retry_wait_count = count_status run_id TaskStatus.retry_wait tasks;
  success_count = count_status run_id TaskStatus.success tasks;
  failed_count = count_status run_id TaskStatus.failed tasks;
  canceled_count = count_status run_id TaskStatus.canceled tasks;
  earliest_started_at = first_start run_id tasks;
  latest_finished_at = last_end run_id tasks;
}

-- LoadRunTaskSnapshot
unfoldable pub load_snapshot : Uuid → RunTables → Result RunTaskSnapshot
load_snapshot run_id db =
    if is_nil run_id
    then err (sentinel invalid_data)
    else elim (select_one (is_run run_id) db.runs) [
      | none ↦ err (sentinel not_found)
      | some _ ↦ ok (snapshot_of run_id db.tasks)
    ]

abbrev run_rank : RunStatus → ℕ
run_rank pending = 0
run_rank running = 1
run_rank success = 2
run_rank failed = 3
run_rank canceled = 4
run_rank partial = 5

abbrev pub same_run_status : RunStatus → RunStatus → Bool
same_run_status a b = run_rank a == run_rank b

abbrev pub cached_snapshot : RunSummary → RunTaskSnapshot
cached_snapshot s = record {
  run_id = s.run_id;
  pending_count = s.pending_count;
  running_count = s.running_count;
  retry_wait_count = s.retry_wait_count;
  success_count = s.success_count;
  failed_count = s.failed_count;
  canceled_count = s.canceled_count;
  earliest_started_at = s.earliest_started_at;
  latest_finished_at = s.latest_finished_at;
}

abbrev pub same_bool : Bool → Bool → Bool
same_bool true b = b
same_bool false b = not b

-- validateRunSummary
unfoldable pub validate_run_summary : RunSummary → Result (Unit {0})
validate_run_summary s = elim (summarize_run (cached_snapshot s)) [
  | err _ ↦ err (sentinel invalid_data)
  | ok expected ↦
      refuse_if
        (not (s.task_count == expected.task_count)
          || not (same_run_status s.status expected.status)
          || not (same_bool (is_some s.latest_finished_at) (is_some expected.latest_finished_at)))
        invalid_data
]

-- The condition of the UPDATE: the group of the run's tasks exists and has the summary's counts.
unfoldable pub is_fresh : RunSummary → List IngestionTask → Bool
is_fresh s tasks =
    not (count_where (is_of_run s.run_id) tasks == 0)
    && count_where (is_of_run s.run_id) tasks == s.task_count
    && count_status s.run_id TaskStatus.pending tasks == s.pending_count
    && count_status s.run_id TaskStatus.running tasks == s.running_count
    && count_status s.run_id TaskStatus.retry_wait tasks == s.retry_wait_count
    && count_status s.run_id TaskStatus.success tasks == s.success_count
    && count_status s.run_id TaskStatus.failed tasks == s.failed_count
    && count_status s.run_id TaskStatus.canceled tasks == s.canceled_count

-- COALESCE
abbrev coalesce : Option Instant → Option Instant → Option Instant
coalesce none b = b
coalesce (some a) b = some a

-- The SET clause.
abbrev pub cached : RunSummary → RunRow → RunRow
cached s r = record r {
  status = s.status;
  task_count = s.task_count;
  success_count = s.success_count;
  failed_count = s.failed_count;
  started_at = coalesce r.started_at s.earliest_started_at;
  finished_at = s.latest_finished_at;
}

-- The update of the run's row; other than one row is a conflict.
unfoldable pub write_summary : RunSummary → RunTables → Result (Unit {0}) × RunTables
write_summary s db =
    if not (is_fresh s db.tasks && count_where (is_run s.run_id) db.runs == 1)
    then (err (sentinel conflict), db)
    else (ok tt, record db { runs = update_where (is_run s.run_id) (cached s) db.runs })

-- SaveRunSummary
unfoldable pub save_summary : RunSummary → RunTables → Result (Unit {0}) × RunTables
save_summary s db = elim (validate_run_summary s) [
  | err e ↦ (err e, db)
  | ok _ ↦ write_summary s db
]

-- The database as the store of a run.
abbrev pub run_store : RunStore
run_store = record {
  State = RunTables;
  load_run_task_snapshot = λ run_id db. (load_snapshot run_id db, db);
  save_run_summary = save_summary;
}
