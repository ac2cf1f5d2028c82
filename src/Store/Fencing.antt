-- ===== src/Store/Fencing.antt =====
-- The fence of the commits: a worker that lost its attempt can no longer write.
use xr_trading.Base.{
  ℕ, ◌+◌, ◌≤◌, ◌<◌, ◌≡◌, ◌≢◌, refl, sym, ◌⊎◌, inl, inr, Bool, true, false, Option, none, some, List,
  [], ◌∷◌, All, arith, Bool-cases, Option-cases, ◌==◌, ==_iff, String, if◌then◌else◌,
}
use mathlib.Core.Path.{subst}
use xr_trading.Domain.Errors.{
  Error, Result, Result-cases, bind-ok, ok, err, sentinel, task_lease_lost,
}
use xr_trading.Domain.Time.{Instant, Duration}
use xr_trading.Domain.Task.{
  Uuid, TaskStatus, running, success, failed, retry_wait, pending, canceled, same_status,
  IngestionTask, TaskClaim,
}
use xr_trading.Ingestion.Contracts.{FailureCommit, SuccessCommit}
use xr_trading.Store.FailureRequest.{validate_failure_commit}
use xr_trading.Store.Database.{Database, select_one, update_where, count_where}
use xr_trading.Store.Queue.{has_id, claim_next_task}
use xr_trading.Store.Commits.{
  Source, holds_lease, is_fenced, lock_and_validate_failure_claim, lock_and_validate_task_claim,
  failed_task, update_fenced, commit_failure, succeeded, commit_success, validate_success_commit,
  transact,
}
use xr_trading.Store.Bars.{write_bars}
use xr_trading.Store.Issues.{open_issues}
use xr_trading.Store.Rows.{
  Rows, All-select_one, All-map, All-Rows, All-updated, IsKeyed, IsOnly, nil, cons,
}
use xr_trading.Store.Lifecycle.{Moves, kept, started, ended, stopped, Call, fails, succeeds, after}
use xr_trading.Store.Lifecycle.Calls.{after-Moves, after_all, after-IsKeyed}
pub mod Once
pub mod Takeover

-- A commit of a worker.
pub data Commit : Type 0 where
  of_failure : FailureCommit → Commit
  of_success : SuccessCommit → Commit

unfoldable pub claim_of : Commit → TaskClaim
claim_of (of_failure r) = r.claim
claim_of (of_success r) = r.claim

unfoldable pub commit : (Uuid → Option Source) → Commit → Database → Result (Unit {0}) × Database
commit source (of_failure r) db = commit_failure r db
commit source (of_success r) db = commit_success source r db

-- The commit returns an error and writes nothing.
abbrev pub IsRefused : (Uuid → Option Source) → Commit → Database → Type 0
IsRefused source c db = (e : Error) × (commit source c db ≡ (err e, db))

-- The attempt `n` of the task is over: a later one was started, or the task is not running.
abbrev pub IsSpent : Uuid → ℕ → IngestionTask → Type 0
IsSpent id n u =
    u.id ≡ id
    → (n < u.attempt_count) ⊎ ((n ≤ u.attempt_count) × (same_status u.status running ≡ false))

IsSpent-Moves :
    (id : Uuid) (n : ℕ) {t u : IngestionTask} → Moves t u → IsSpent id n t → IsSpent id n u
IsSpent-Moves id n (kept e) h = rw e h
IsSpent-Moves id n (started from to count same) h = λ e. ground (arith, h (ground (arith, e, same)))
IsSpent-Moves id n (ended from to count same) h = λ e. ground (arith, h (ground (arith, e, same)))
IsSpent-Moves id n (stopped from to count same) h = λ e. ground (arith, h (ground (arith, e, same)))

pub IsSpent-after_all :
    (source : Uuid → Option Source) (calls : List Call) (db : Database) (id : Uuid) (n : ℕ)
    → IsKeyed db.tasks
    → All (IsSpent id n) db.tasks
    → All (IsSpent id n) (after_all source calls db).tasks
unfolding after_all
IsSpent-after_all source [] db id n keyed h = h
IsSpent-after_all source (call ∷ calls) db id n keyed h =
    IsSpent-after_all source calls (after source call db) id n (after-IsKeyed source call db keyed)
      (All-Rows (λ t u. IsSpent-Moves id n) (after-Moves source call db keyed) h)

pub select_one_hit {ℓ} :
    {A : Type ℓ} (p : A → Bool) (xs : List A) {x : A} → select_one p xs ≡ some x → p x ≡ true
unfolding select_one
select_one_hit p [] e = ground arith
select_one_hit p (y ∷ xs) {x} e = ground (arith, select_one_hit p xs {x = x})

-- A row that an attempt up to `n` may no longer write.
spent_holds :
    (claim : TaskClaim) (t : Instant) (row : IngestionTask) (n : ℕ)
    → IsSpent claim.task.id n row
    → row.id ≡ claim.task.id
    → claim.task.attempt_count ≤ n
    → holds_lease claim t row ≡ false
unfolding holds_lease
spent_holds claim t row n h e le = ground (arith, h e)

lost :
    (claim : TaskClaim) (t : Instant) (db : Database) (row : IngestionTask) (n : ℕ)
    → All (IsSpent claim.task.id n) db.tasks
    → claim.task.attempt_count ≤ n
    → select_one (has_id claim.task.id) db.tasks ≡ some row
    → holds_lease claim t row ≡ false
lost claim t db row n spent le found =
    spent_holds claim t row n
      (All-select_one (IsSpent claim.task.id n) (has_id claim.task.id) db.tasks spent found)
      ((==_iff row.id claim.task.id).0 (select_one_hit (has_id claim.task.id) db.tasks found)) le

lost_failure :
    (r : FailureCommit) (db : Database) (n : ℕ)
    → All (IsSpent r.claim.task.id n) db.tasks
    → r.claim.task.attempt_count ≤ n
    → lock_and_validate_failure_claim r db ≡ err (sentinel task_lease_lost)
unfolding lock_and_validate_failure_claim
lost_failure r db n spent le = elim (Option-cases (select_one (has_id r.claim.task.id) db.tasks)) [
  | inl missing ↦ rw (lock_and_validate_failure_claim, missing) refl
  | inr (row, found) ↦
      rw
        (lock_and_validate_failure_claim, found, lost r.claim r.finished_at db row n spent le found)
        refl
]

lost_success :
    (source : Uuid → Option Source) (r : SuccessCommit) (db : Database) (n : ℕ)
    → All (IsSpent r.claim.task.id n) db.tasks
    → r.claim.task.attempt_count ≤ n
    → lock_and_validate_task_claim source r db ≡ err (sentinel task_lease_lost)
unfolding lock_and_validate_task_claim
lost_success source r db n spent le =
    elim (Option-cases (select_one (has_id r.claim.task.id) db.tasks)) [
      | inl missing ↦ rw (lock_and_validate_task_claim, missing) refl
      | inr (row, found) ↦ elim (Option-cases (source row.subscription_id)) [
        | inl unknown ↦ rw (lock_and_validate_task_claim, found, unknown) refl
        | inr (s, known) ↦
            rw
              (
                lock_and_validate_task_claim,
                found,
                known,
                lost r.claim r.finished_at db row n spent le found,
              )
              refl
      ]
    ]

pub refused :
    (source : Uuid → Option Source) (c : Commit) (db : Database) (n : ℕ)
    → All (IsSpent (claim_of c).task.id n) db.tasks
    → (claim_of c).task.attempt_count ≤ n
    → IsRefused source c db
unfolding commit claim_of commit_failure commit_success
refused source (of_failure r) db n spent le = elim (Result-cases (validate_failure_commit r)) [
  | inl (e, bad) ↦ (e, rw (commit, commit_failure, bad) refl)
  | inr (_, good) ↦ (
    sentinel task_lease_lost,
    rw (commit, commit_failure, good, lost_failure r db n spent le) refl,
  )
]
refused source (of_success r) db n spent le = elim (Result-cases (validate_success_commit r)) [
  | inl (e, bad) ↦ (e, rw (commit, commit_success, bad) refl)
  | inr (_, good) ↦ (
    sentinel task_lease_lost,
    rw (commit, commit_success, good, lost_success source r db n spent le) refl,
  )
]
