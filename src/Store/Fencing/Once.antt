-- ===== src/Store/Fencing/Once.antt =====
-- An attempt is committed at most once.
use xr_trading.Base.{
  ◌≤◌, ◌<◌, ◌≡◌, refl, sym, ◌⊎◌, inl, inr, Bool, true, false, Option, some, List, [], ◌∷◌, All,
  arith, Bool-cases, Option-cases, ==_iff,
}
use mathlib.Core.Path.{subst}
use xr_trading.Domain.Errors.{Result, bind-ok, ok, err}
use xr_trading.Domain.Time.{Instant}
use xr_trading.Domain.Task.{Uuid, running, same_status, IngestionTask, TaskClaim}
use xr_trading.Ingestion.Contracts.{FailureCommit, SuccessCommit}
use xr_trading.Store.FailureRequest.{validate_failure_commit}
use xr_trading.Store.Database.{Database, select_one, update_where}
use xr_trading.Store.Queue.{has_id}
use xr_trading.Store.Commits.{
  Source, holds_lease, is_fenced, lock_and_validate_failure_claim, lock_and_validate_task_claim,
  failed_task, update_fenced, commit_failure, succeeded, commit_success, validate_success_commit,
  transact,
}
use xr_trading.Store.Bars.{write_bars}
use xr_trading.Store.Issues.{open_issues}
use xr_trading.Store.Rows.{All-map, All-updated, IsKeyed}
use xr_trading.Store.Lifecycle.{Call, fails, succeeds, after}
use xr_trading.Store.Lifecycle.Calls.{after_all, after-IsKeyed}
use xr_trading.Store.Fencing.{
  Commit, of_failure, of_success, claim_of, commit, IsRefused, IsSpent, IsSpent-after_all,
  select_one_hit, refused,
}

-- What a commit that succeeds found and wrote.
pub record IsCommitted (source : Uuid → Option Source) (c : Commit) (db : Database)
    (row : IngestionTask) : Type 0 where
  pub found : select_one (has_id (claim_of c).task.id) db.tasks ≡ some row
  pub finished_at : Instant
  pub held : holds_lease (claim_of c) finished_at row ≡ true
  pub set : IngestionTask → IngestionTask
  pub written :
      (commit source c db).1.tasks ≡ update_where (is_fenced (claim_of c) finished_at) set db.tasks
  pub same_id : (set row).id ≡ row.id
  pub same_attempt : (set row).attempt_count ≡ row.attempt_count
  pub over : same_status (set row).status running ≡ false

held_failure :
    (r : FailureCommit) (db : Database)
    → lock_and_validate_failure_claim r db ≡ ok tt
    → (row : IngestionTask) × (select_one (has_id r.claim.task.id) db.tasks ≡ some row)
      × (holds_lease r.claim r.finished_at row ≡ true)
unfolding lock_and_validate_failure_claim
held_failure r db h = elim (Option-cases (select_one (has_id r.claim.task.id) db.tasks)) [
  | inl missing ↦ ground (arith, missing)
  | inr (row, found) ↦ (row, found, ground (arith, found))
]

held_success :
    (source : Uuid → Option Source) (r : SuccessCommit) (db : Database)
    → lock_and_validate_task_claim source r db ≡ ok tt
    → (row : IngestionTask) × (select_one (has_id r.claim.task.id) db.tasks ≡ some row)
      × (holds_lease r.claim r.finished_at row ≡ true)
unfolding lock_and_validate_task_claim
held_success source r db h = elim (Option-cases (select_one (has_id r.claim.task.id) db.tasks)) [
  | inl missing ↦ ground (arith, missing)
  | inr (row, found) ↦ elim (Option-cases (source row.subscription_id)) [
    | inl unknown ↦ ground (arith, found, unknown)
    | inr (s, known) ↦ elim (Bool-cases (holds_lease r.claim r.finished_at row)) [
      | inl held ↦ (row, found, held)
      | inr lost ↦ ground (arith, found, known, lost)
    ]
  ]
]

transact-ok :
    (db : Database) (m : Result Database)
    → (transact db m).0 ≡ ok tt
    → (db' : Database) × (m ≡ ok db') × ((transact db m).1 ≡ db')
transact-ok db (ok db') e = (db', refl, refl)
transact-ok db (err _) e = ground arith

update_fenced-tasks :
    (claim : TaskClaim) (t : Instant) (set : IngestionTask → IngestionTask) (db : Database)
    {db' : Database}
    → update_fenced claim t set db ≡ ok db'
    → db'.tasks ≡ update_where (is_fenced claim t) set db.tasks
unfolding update_fenced
update_fenced-tasks claim t set db e = ground arith

ends :
    (r : FailureCommit) → validate_failure_commit r ≡ ok tt → same_status r.status running ≡ false
unfolding validate_failure_commit
ends r h = ground arith

-- A commit that returns nil found its task stored and running, under the claim's attempt, owner and lease
-- and before the lease's end, and what it writes to that row ends the attempt: the row is no longer running.
pub committed :
    (source : Uuid → Option Source) (c : Commit) (db : Database)
    → (commit source c db).0 ≡ ok tt
    → (row : IngestionTask) × IsCommitted source c db row
unfolding commit claim_of commit_failure commit_success
committed source (of_failure r) db h =
    let (db', made, now) = transact-ok db _ h in
    let (_, valid, after_valid) = bind-ok (validate_failure_commit r) _ made in
    let (_, locked, updated) = bind-ok (lock_and_validate_failure_claim r db) _ after_valid in
    let (row, found, held) = held_failure r db locked in
    (
      row,
      record {
        found = found;
        finished_at = r.finished_at;
        held = held;
        set = failed_task r;
        written = rw now (update_fenced-tasks r.claim r.finished_at (failed_task r) _ updated);
        same_id = refl;
        same_attempt = refl;
        over = ends r valid;
      },
    )
committed source (of_success r) db h =
    let (db', made, now) = transact-ok db _ h in
    let (_, valid, after_valid) = bind-ok (validate_success_commit r) _ made in
    let (_, locked, after_lock) =
      bind-ok (lock_and_validate_task_claim source r db) _ after_valid in
    let (_, _, after_bars) = bind-ok (write_bars r.bars db.bars) _ after_lock in
    let (_, _, updated) = bind-ok (open_issues r.issues db.issues) _ after_bars in
    let (row, found, held) = held_success source r db locked in
    (
      row,
      record {
        found = found;
        finished_at = r.finished_at;
        held = held;
        set = succeeded r.finished_at;
        written =
            rw now (update_fenced-tasks r.claim r.finished_at (succeeded r.finished_at) _ updated);
        same_id = refl;
        same_attempt = refl;
        over = refl;
      },
    )

pub found_IsOnly :
    (id : Uuid) (ts : List IngestionTask) {row : IngestionTask}
    → IsKeyed ts
    → select_one (has_id id) ts ≡ some row
    → All (λ u. u.id ≡ id → u ≡ row) ts
unfolding select_one
found_IsOnly id [] k e = tt
found_IsOnly id (t ∷ ts) {row} k e = elim (Bool-cases (has_id id t)) [
  | inl hit ↦
      let first : t ≡ row = ground (arith, hit) in
      (λ _. first, All-map ts (λ u out same. absurd (out (ground (arith, same, hit)))) k.0)
  | inr miss ↦ (
    λ same. ground (arith, same, miss),
    found_IsOnly id ts {row = row} k.1 (ground (arith, miss)),
  )
]

-- A held row meets the WHERE clause of the final UPDATE.
held_IsFenced :
    (claim : TaskClaim) (t : Instant) (row : IngestionTask)
    → row.id ≡ claim.task.id
    → holds_lease claim t row ≡ true
    → (is_fenced claim t row ≡ true) × (row.attempt_count ≡ claim.task.attempt_count)
unfolding holds_lease is_fenced
held_IsFenced claim t row same h = ground arith

fenced_id :
    (claim : TaskClaim) (t : Instant) (row : IngestionTask)
    → is_fenced claim t row ≡ true
    → row.id ≡ claim.task.id
unfolding is_fenced
fenced_id claim t row h = ground arith

clash : {b : Bool} → b ≡ false → b ≡ true → ⊥
clash e h = cc

commit-IsKeyed :
    (source : Uuid → Option Source) (c : Commit) (db : Database)
    → IsKeyed db.tasks
    → IsKeyed (commit source c db).1.tasks
unfolding commit after
commit-IsKeyed source (of_failure r) db keyed = after-IsKeyed source (fails r) db keyed
commit-IsKeyed source (of_success r) db keyed = after-IsKeyed source (succeeds r) db keyed

-- A commit that returns nil leaves its attempt over.
IsSpent-by_commit :
    (source : Uuid → Option Source) (c : Commit) (db : Database)
    → IsKeyed db.tasks
    → (commit source c db).0 ≡ ok tt
    → All
        (IsSpent (claim_of c).task.id (claim_of c).task.attempt_count)
        (commit source c db).1.tasks
IsSpent-by_commit source c db keyed h =
    let (row, w) = committed source c db h in
    let id = (claim_of c).task.id in
    let n = (claim_of c).task.attempt_count in
    let same : row.id ≡ id = (==_iff row.id id).0 (select_one_hit (has_id id) db.tasks w.found) in
    let (fenced, count) = held_IsFenced (claim_of c) w.finished_at row same w.held in
    rw w.written (
      All-updated (λ u. u.id ≡ id → u ≡ row) (IsSpent id n) (is_fenced (claim_of c) w.finished_at)
        w.set db.tasks
        (λ u hit only _.
          subst
            (λ v.
              (n < (w.set v).attempt_count)
              ⊎ ((n ≤ (w.set v).attempt_count) × (same_status (w.set v).status running ≡ false)))
            (sym (only (fenced_id (claim_of c) w.finished_at u hit)))
            (inr (omega (arith, w.same_attempt, count), w.over)))
        (λ u miss only e. absurd (
          clash (subst (λ v. is_fenced (claim_of c) w.finished_at v ≡ false) (only e) miss) fenced))
        (found_IsOnly id db.tasks keyed w.found))

-- Once a commit of an attempt has returned nil, whatever claims, cancellations by CancelTask, recoveries and commits
-- follow, every further commit of that task under the same or an earlier attempt returns an error and writes
-- nothing, when the IDs of the tasks differ.
pub commit-IsRefused_after :
    (source : Uuid → Option Source) (first second : Commit) (calls : List Call) (db : Database)
    → IsKeyed db.tasks
    → (commit source first db).0 ≡ ok tt
    → (claim_of second).task.id ≡ (claim_of first).task.id
    → (claim_of second).task.attempt_count ≤ (claim_of first).task.attempt_count
    → IsRefused source second (after_all source calls (commit source first db).1)
commit-IsRefused_after source first second calls db keyed h same le =
    let n = (claim_of first).task.attempt_count in
    let later = after_all source calls (commit source first db).1 in
    refused source second later n
      (rw same (
        IsSpent-after_all source calls (commit source first db).1 (claim_of first).task.id n
          (commit-IsKeyed source first db keyed) (IsSpent-by_commit source first db keyed h)))
      le
