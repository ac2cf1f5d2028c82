-- ===== src/Store/Runs/Settles.antt =====
-- A run whose tasks do not change is refreshed at once.
use xr_trading.Base.{
  Bool-cases, ◌<◌, ◌≡◌, ◌≢◌, refl, ap, Bool, true, false, Option, none, some, List, [], ◌∷◌, ◌==◌,
  arith, inl, inr, is_some, if◌then◌else◌,
}
use mathlib.Core.Path.{subst}
use xr_trading.Domain.Errors.{Result, ok}
use xr_trading.Domain.Time.{Instant}
use xr_trading.Domain.Task.{Uuid, IngestionTask}
use xr_trading.Ingestion.Contracts.{RunTaskSnapshot, task_count, RunSummary}
use xr_trading.Ingestion.Run.{
  summarize_run, validate_run_task_snapshot, run_status, is_open, refresh, refresh_loop, observe,
}
use xr_trading.Ingestion.Run.Summary.{IsSummary, summarize_run-IsSummary}
use xr_trading.Store.Database.{select_one, update_where, count_where}
use xr_trading.Store.Rows.{Rows, nil, cons}
use xr_trading.Store.Runs.{
  RunRow, RunTables, is_run, is_of_run, snapshot_of, load_snapshot, cached_snapshot,
  same_run_status, same_bool, validate_run_summary, is_fresh, cached, write_summary, save_summary,
  run_store,
}

-- Every task has one of the six states.
counts_add_up :
    (run_id : Uuid) (ts : List IngestionTask)
    → task_count (snapshot_of run_id ts) ≡ count_where (is_of_run run_id) ts
unfolding task_count snapshot_of count_where
counts_add_up run_id [] = refl
counts_add_up run_id (t ∷ ts) = one_more run_id t ts (counts_add_up run_id ts)
  where
    one_more :
        (run_id : Uuid) (t : IngestionTask) (ts : List IngestionTask)
        → task_count (snapshot_of run_id ts) ≡ count_where (is_of_run run_id) ts
        → task_count (snapshot_of run_id (t ∷ ts)) ≡ count_where (is_of_run run_id) (t ∷ ts)
    one_more run_id t ts h = ground (arith, h)

status_refl : (s : _) → same_run_status s s ≡ true
status_refl s = ground arith

open_twice :
    (b : Bool) (t : Option Instant)
    → same_bool
        (is_some (if b then none else t))
        (is_some (if b then none else (if b then none else t)))
      ≡ true
open_twice b t = ground arith

-- The summary that SummarizeRun makes of a snapshot that it accepts.
abbrev summary_of : RunTaskSnapshot → RunSummary
summary_of s = record {
  run_id = s.run_id;
  status = run_status s (task_count s);
  task_count = task_count s;
  pending_count = s.pending_count;
  running_count = s.running_count;
  retry_wait_count = s.retry_wait_count;
  success_count = s.success_count;
  failed_count = s.failed_count;
  canceled_count = s.canceled_count;
  earliest_started_at = s.earliest_started_at;
  latest_finished_at = if is_open (run_status s (task_count s)) then none else s.latest_finished_at;
}

summarized :
    (s : RunTaskSnapshot)
    → validate_run_task_snapshot s ≡ ok tt
    → summarize_run s ≡ ok (summary_of s)
unfolding summarize_run
summarized s h = rw (summarize_run, h) refl

validates :
    (s : RunTaskSnapshot) → s.run_id ≢ 0 → 0 < task_count s → validate_run_task_snapshot s ≡ ok tt
unfolding validate_run_task_snapshot
validates s named filled = ground arith

passes :
    (s : RunTaskSnapshot)
    → s.run_id ≢ 0
    → 0 < task_count s
    → validate_run_summary (summary_of s) ≡ ok tt
unfolding validate_run_summary run_status task_count summarize_run
passes s named filled =
    let again =
      summarized (cached_snapshot (summary_of s))
        (validates (cached_snapshot (summary_of s)) named filled) in
    rw (validate_run_summary, again)
      (ground (
        arith,
        status_refl (run_status s (task_count s)),
        open_twice (is_open (run_status s (task_count s))) s.latest_finished_at,
      ))

fresh :
    (run_id : Uuid) (ts : List IngestionTask)
    → 0 < task_count (snapshot_of run_id ts)
    → is_fresh (summary_of (snapshot_of run_id ts)) ts ≡ true
unfolding is_fresh snapshot_of
fresh run_id ts filled = ground (arith, counts_add_up run_id ts)

loads :
    (run_id : Uuid) (db : RunTables) {row : RunRow}
    → run_id ≢ 0
    → select_one (is_run run_id) db.runs ≡ some row
    → load_snapshot run_id db ≡ ok (snapshot_of run_id db.tasks)
unfolding load_snapshot
loads run_id db named found = ground (arith, found)

observes :
    (run_id : Uuid) (ts : List IngestionTask)
    → observe run_store run_id (ok (snapshot_of run_id ts)) ≡ summarize_run (snapshot_of run_id ts)
unfolding observe snapshot_of
observes run_id ts = let own : (run_id == run_id) ≡ true = ground arith in rw own refl

saves :
    (s : RunSummary) (db : RunTables)
    → validate_run_summary s ≡ ok tt
    → is_fresh s db.tasks ≡ true
    → count_where (is_run s.run_id) db.runs ≡ 1
    → save_summary s db
      ≡ (ok tt, record db { runs = update_where (is_run s.run_id) (cached s) db.runs })
unfolding save_summary write_summary
saves s db valid live once = rw (save_summary, valid, write_summary, live, once) refl

same_summary : {o : Result RunSummary} {a b : RunSummary} → o ≡ ok a → o ≡ ok b → a ≡ b
same_summary h k = ground arith

summary_of-IsSummary :
    (s : RunTaskSnapshot) → summarize_run s ≡ ok (summary_of s) → IsSummary s (summary_of s)
summary_of-IsSummary s made = elim (summarize_run-IsSummary s) [
  | inl (bad, _) ↦ ground (arith, bad)
  | inr (r, found, _, _, is) ↦ subst (λ x. IsSummary s x) (same_summary found made) is
]

pair_with : RunSummary → Result (Unit {0}) × RunTables → Result RunSummary × RunTables
pair_with x p = (ok x, p.1)

settled :
    (run_id : Uuid) (db db' : RunTables) (s : RunTaskSnapshot) (x : RunSummary)
    → run_id ≢ 0
    → load_snapshot run_id db ≡ ok s
    → observe run_store run_id (ok s) ≡ ok x
    → save_summary x db ≡ (ok tt, db')
    → refresh run_store run_id db ≡ (ok x, db')
unfolding refresh refresh_loop pair_with
settled run_id db db' s x named loaded seen stored =
    let present : (run_id == 0) ≡ false = ground arith in
    let accepted : (save_summary x db).0 ≡ ok tt = rw stored refl in
    rw (refresh, present, refresh_loop, loaded, seen, accepted) (ap (pair_with x) stored)

-- The row of the run has the summary's status, its counts and its end; it keeps a start that it had, and else takes
-- the summary's. The rows of other runs are as they were.
pub data Caches (run_id : Uuid) (summary : RunSummary) (r u : RunRow) : Type 0 where
  own :
      r.id ≡ run_id
      → u.id ≡ run_id
      → u.status ≡ summary.status
      → u.task_count ≡ summary.task_count
      → u.success_count ≡ summary.success_count
      → u.failed_count ≡ summary.failed_count
      → u.finished_at ≡ summary.latest_finished_at
      → ((t : Instant) → r.started_at ≡ some t → u.started_at ≡ some t)
      → (r.started_at ≡ none → u.started_at ≡ summary.earliest_started_at)
      → Caches run_id summary r u
  other : r.id ≢ run_id → u ≡ r → Caches run_id summary r u

caches :
    (run_id : Uuid) (summary : RunSummary) (rows : List RunRow)
    → Rows (Caches run_id summary) rows (update_where (is_run run_id) (cached summary) rows)
unfolding update_where
caches run_id summary [] = nil
caches run_id summary (r ∷ rs) = elim (Bool-cases (is_run run_id r)) [
  | inl hit ↦
      let same : r.id ≡ run_id = ground (arith, hit) in
      rw (update_where, hit)
        (cons
          (own same same refl refl refl refl refl (λ t e. ground (arith, e))
            (λ e. ground (arith, e)))
          (caches run_id summary rs))
  | inr miss ↦
      rw (update_where, miss)
        (cons (other (λ e. ground (arith, e, miss)) refl) (caches run_id summary rs))
]

-- When a run with an ID that is not nil is stored once and has tasks, Refresh on the database, with no other
-- writer, returns the summary of the counts of its tasks and stores its status, its counts and its times in the row of
-- the run; no other row of a run and no task changes.
pub refresh-IsSummary :
    (run_id : Uuid) (db : RunTables) {row : RunRow}
    → run_id ≢ 0
    → select_one (is_run run_id) db.runs ≡ some row
    → count_where (is_run run_id) db.runs ≡ 1
    → 0 < count_where (is_of_run run_id) db.tasks
    → (summary : RunSummary) × (db' : RunTables) × (refresh run_store run_id db ≡ (ok summary, db'))
      × Rows (Caches run_id summary) db.runs db'.runs
      × (db'.tasks ≡ db.tasks)
      × IsSummary (snapshot_of run_id db.tasks) summary
unfolding snapshot_of
refresh-IsSummary run_id db named found once filled =
    let s = snapshot_of run_id db.tasks in
    let some_task : 0 < task_count s = rw (counts_add_up run_id db.tasks) filled in
    let made = summarized s (validates s named some_task) in
    let stored =
      saves (summary_of s) db (passes s named some_task) (fresh run_id db.tasks some_task) once in
    let seen : observe run_store run_id (ok s) ≡ ok (summary_of s) =
      rw (observes run_id db.tasks) made in
    (
      summary_of s,
      record db { runs = update_where (is_run run_id) (cached (summary_of s)) db.runs },
      settled run_id db _ s (summary_of s) named (loads run_id db named found) seen stored,
      caches run_id (summary_of s) db.runs,
      refl,
      summary_of-IsSummary s made,
    )
