-- ===== src/Store/Queue.antt =====
-- The task queue of repository/postgres/ingestion.go: claiming, cancelling, recovering expired
-- leases, and the fenced commits. Each operation maps the database to its result and the new
-- database; a transaction that fails leaves the database as it was. Failures of the database
-- itself are not modelled.
use xr_trading.Base.{
  ℕ, ◌+◌, String, Bool, false, not, ◌&&◌, ◌||◌, Option, none, some, List, [], ◌∷◌, ltb, leb, ◌==◌,
  pos, ltz, if◌then◌else◌,
}
use xr_trading.Domain.Text.{same_text, is_padded, rune_count}
use xr_trading.Domain.Errors.{Result, ok, err, sentinel, invalid_data, not_found, conflict}
use xr_trading.Domain.Time.{Instant, Duration, is_zero, add, stored_time}
use xr_trading.Domain.Task.{
  Uuid, is_nil, TaskStatus, pending, running, retry_wait, failed, canceled, same_status, object,
  IngestionTask, TaskClaim,
}
use xr_trading.Store.Database.{Database, select_one, update_where, count_where, select_where}
use xr_trading.Store.Checkpoints.{record_failures}

-- `next_attempt_at <= now`, false for NULL
abbrev is_due : Option Instant → Instant → Bool
is_due none now = false
is_due (some t) now = leb t now

-- The WHERE clause of the candidate of ClaimNextTask.
unfoldable pub is_claimable : Instant → IngestionTask → Bool
is_claimable now t =
    same_status t.status pending || same_status t.status retry_wait && is_due t.next_attempt_at now

-- ORDER BY created_at ASC LIMIT 1
unfoldable pub oldest : (IngestionTask → Bool) → List IngestionTask → Option IngestionTask
oldest p [] = none
oldest p (t ∷ ts) = elim (oldest p ts) [
  | none ↦ if p t then some t else none
  | some u ↦ if p t && leb t.created_at u.created_at then some t else some u
]

-- The SET clause of ClaimNextTask.
abbrev pub claimed : String → Instant → Instant → IngestionTask → IngestionTask
claimed worker_id now lease_until t = record t {
  status = running;
  locked_by = some worker_id;
  locked_until = some lease_until;
  attempt_count = t.attempt_count + 1;
  next_attempt_at = none;
  started_at = some now;
  updated_at = now;
}

abbrev pub has_id : Uuid → IngestionTask → Bool
has_id id t = t.id == id

unfoldable pub claim_next_task :
    (Uuid → Bool) → String → Instant → Duration → Database → Result (Option TaskClaim) × Database
claim_next_task skip worker_id now lease_duration db =
    if same_text worker_id "" || is_zero now || not (ltz (pos 0) lease_duration)
    then (err (sentinel invalid_data), db)
    else elim (oldest (λ t. is_claimable (stored_time now) t && not (skip t.id)) db.tasks) [
      | none ↦ (ok none, db)
      | some t ↦
          let taken = claimed worker_id (stored_time now) (stored_time (add now lease_duration)) in
          (
            ok (some (record { task = taken t })),
            record db { tasks = update_where (has_id t.id) taken db.tasks },
          )
    ]

abbrev pub is_cancelable : TaskStatus → Bool
is_cancelable status =
    same_status status pending || same_status status retry_wait || same_status status running

abbrev nullable_string : String → Option String
nullable_string s = if same_text s "" then none else some s

-- The SET clause of CancelTask.
abbrev pub cancelled : String → String → Instant → IngestionTask → IngestionTask
cancelled canceled_by reason now t = record t {
  status = canceled;
  canceled_by = some canceled_by;
  cancel_reason = nullable_string reason;
  next_attempt_at = none;
  locked_by = none;
  locked_until = none;
  finished_at = some now;
  updated_at = now;
}

abbrev pub has_status : Uuid → TaskStatus → IngestionTask → Bool
has_status id status t = t.id == id && same_status t.status status

unfoldable pub cancel_task :
    Uuid → String → String → Instant → Database → Result (Unit {0}) × Database
cancel_task task_id canceled_by reason now db =
    if is_nil task_id
      || is_padded canceled_by
      || same_text canceled_by ""
      || ltb 128 (rune_count canceled_by)
      || is_padded reason
      || is_zero now
    then (err (sentinel invalid_data), db)
    else elim (select_one (has_id task_id) db.tasks) [
      | none ↦ (err (sentinel not_found), db)
      | some row ↦
          if not (is_cancelable row.status)
          then (err (sentinel conflict), db)
          else if not (count_where (has_status task_id row.status) db.tasks == 1)
          then (err (sentinel conflict), db)
          else (
            ok tt,
            record db {
              tasks =
                  update_where (has_status task_id row.status) (cancelled canceled_by reason now)
                    db.tasks;
            },
          )
    ]

-- `locked_until < $1`, false for NULL
abbrev pub is_past : Option Instant → Instant → Bool
is_past none now = false
is_past (some t) now = ltb t now

-- The rows `expired` of RecoverExpiredTasks.
unfoldable pub is_expired : (Uuid → Bool) → Instant → IngestionTask → Bool
is_expired skip now t =
    same_status t.status running && is_past t.locked_until now && not (skip t.id)

-- The SET clause of RecoverExpiredTasks.
abbrev pub recovered : Instant → IngestionTask → IngestionTask
recovered now t =
    let exhausted = leb t.max_attempts t.attempt_count in
    record t {
      status = if exhausted then failed else pending;
      next_attempt_at = none;
      locked_by = none;
      locked_until = none;
      finished_at = if exhausted then some now else none;
      error_code = some "lease_expired";
      error_message = some "worker lease expired before completion";
      error_details = object [];
      updated_at = now;
    }

-- SELECT subscription_id, count(*) ... GROUP BY subscription_id
unfoldable pub bump : Uuid → List (Uuid × ℕ) → List (Uuid × ℕ)
bump id [] = (id, 1) ∷ []
bump id ((other, n) ∷ counts) =
    if other == id then (other, n + 1) ∷ counts else (other, n) ∷ bump id counts

unfoldable pub failure_counts : List IngestionTask → List (Uuid × ℕ)
unfolding bump
failure_counts [] = []
failure_counts (t ∷ ts) = bump t.subscription_id (failure_counts ts)

unfoldable pub record_all_failures : Instant → List (Uuid × ℕ) → Database → Database
record_all_failures now [] db = db
record_all_failures now ((id, n) ∷ counts) db =
    record_all_failures now counts
      (record db { checkpoints = record_failures id now n db.checkpoints })

-- The result is the number of recovered tasks.
unfoldable pub recover_expired_tasks : (Uuid → Bool) → Instant → Database → Result ℕ × Database
recover_expired_tasks skip now db = if is_zero now then (err (sentinel invalid_data), db) else (
  ok (count_where (is_expired skip now) db.tasks),
  record_all_failures now (failure_counts (select_where (is_expired skip now) db.tasks))
      (record db { tasks = update_where (is_expired skip now) (recovered now) db.tasks }),
)
