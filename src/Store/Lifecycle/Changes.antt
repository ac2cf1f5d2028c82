-- ===== src/Store/Lifecycle/Changes.antt =====
-- What each call of the queue does to the tasks, row by row.
use xr_trading.Base.{
  ℕ, ◌≡◌, refl, sym, ◌⊎◌, inl, inr, String, Bool, true, not, ◌&&◌, Option, List, [], ◌∷◌, ltz, pos,
  ◌||◌, arith, Bool-cases, Option-cases, ==_iff, ◌==◌,
}
use mathlib.Core.Path.{subst}
use text.Mathlib.Text.{◌==◌ as str_eq}
use xr_trading.Domain.Errors.{ok}
use xr_trading.Domain.Time.{stored_time, Instant, Duration, add, zero_time}
use xr_trading.Domain.Task.{Uuid, IngestionTask, TaskClaim}
use xr_trading.Ingestion.Contracts.{FailureCommit, SuccessCommit}
use xr_trading.Store.FailureRequest.{validate_failure_commit}
use xr_trading.Store.Database.{Database, select_one, update_where}
use xr_trading.Store.Queue.{
  is_claimable, claimed, has_id, oldest, claim_next_task, is_cancelable, cancelled, has_status,
  cancel_task, is_expired, recovered, record_all_failures, recover_expired_tasks,
}
use xr_trading.Store.Commits.{
  Source, is_fenced, failed_task, update_fenced, commit_failure, succeeded, commit_success,
}
use xr_trading.Store.Rows.{
  Rows, Rows-refl, Rows-update_where, IsKeyed, oldest_fits, oldest-IsOnly, always,
}
use xr_trading.Store.Lifecycle.{
  kept, started, ended, stopped, Call, claims, cancels, recovers, fails, succeeds, after, IsChange,
}

kept-IsChange : (t : IngestionTask) → IsChange t t
kept-IsChange t = record { moves = kept refl; sound = λ s. s }

claimed-IsChange :
    (now lease_until : Instant) (worker_id : String) (t : IngestionTask)
    → is_claimable now t ≡ true
    → IsChange t (claimed worker_id now lease_until t)
unfolding is_claimable
claimed-IsChange now lease_until worker_id t h = record {
  moves = started (ground arith) refl refl refl;
  sound = λ s. ground arith;
}

cancelled-IsChange :
    (by reason : String) (now : Instant) (t : IngestionTask)
    → is_cancelable t.status ≡ true
    → IsChange t (cancelled by reason now t)
cancelled-IsChange by reason now t h = record {
  moves = stopped (ground arith) refl refl refl;
  sound = λ s. ground arith;
}

recovered-IsChange :
    (skip : Uuid → Bool) (now : Instant) (t : IngestionTask)
    → is_expired skip now t ≡ true
    → IsChange t (recovered now t)
unfolding is_expired
recovered-IsChange skip now t h = record {
  moves = ended (ground arith) (ground arith) refl refl;
  sound = λ s. ground arith;
}

succeeded-IsChange :
    (claim : TaskClaim) (t : Instant) (row : IngestionTask)
    → is_fenced claim t row ≡ true
    → IsChange row (succeeded t row)
unfolding is_fenced
succeeded-IsChange claim t row h = record {
  moves = ended (ground arith) (inl refl) refl refl;
  sound = λ s. ground arith;
}

failed-IsChange :
    (r : FailureCommit) (row : IngestionTask)
    → validate_failure_commit r ≡ ok tt
    → is_fenced r.claim r.finished_at row ≡ true
    → IsChange row (failed_task r row)
unfolding is_fenced validate_failure_commit
failed-IsChange r row v h = record {
  moves = ended (ground arith) (ground arith) refl refl;
  sound = λ s. ground arith;
}

abbrev pub Changes : List IngestionTask → List IngestionTask → Type 0
Changes = Rows IsChange

no_change : (ts : List IngestionTask) → Changes ts ts
no_change = Rows-refl IsChange kept-IsChange

update-Changes :
    (p : IngestionTask → Bool) (f : IngestionTask → IngestionTask) (ts : List IngestionTask)
    → ((t : IngestionTask) → p t ≡ true → IsChange t (f t))
    → Changes ts (update_where p f ts)
update-Changes p f ts change =
    Rows-update_where IsChange kept-IsChange (λ _. Unit {0}) p f ts (λ t h _. change t h)
      (always ts)

claim-Changes :
    (skip : Uuid → Bool) (worker_id : String) (now : Instant) (lease : Duration) (db : Database)
    → IsKeyed db.tasks
    → Changes db.tasks (claim_next_task skip worker_id now lease db).1.tasks
unfolding claim_next_task
claim-Changes skip worker_id now lease db keyed =
    let p : IngestionTask → Bool = λ t. is_claimable (stored_time now) t && not (skip t.id) in
    let lease_until = stored_time (add now lease) in
    elim (Bool-cases (str_eq worker_id "" || now == zero_time || not (ltz (pos 0) lease))) [
      | inl bad ↦ rw bad (no_change db.tasks)
      | inr good ↦ elim (Option-cases (oldest p db.tasks)) [
        | inl missing ↦ rw (good, missing) (no_change db.tasks)
        | inr (t, found) ↦
            rw (good, found)
              (Rows-update_where IsChange kept-IsChange (λ u. u.id ≡ t.id → u ≡ t) (has_id t.id)
                (claimed worker_id (stored_time now) lease_until) db.tasks
                (λ u hit same.
                  subst (λ w. IsChange w (claimed worker_id (stored_time now) lease_until w))
                    (sym (same ((==_iff u.id t.id).0 hit)))
                    (claimed-IsChange (stored_time now) lease_until worker_id t
                      (ground (arith, oldest_fits p db.tasks found))))
                (oldest-IsOnly p db.tasks keyed found))
      ]
    ]

cancel_cases :
    (task_id : Uuid) (by reason : String) (now : Instant) (db : Database)
    → ((cancel_task task_id by reason now db).1 ≡ db)
      ⊎ ((row : IngestionTask) × (is_cancelable row.status ≡ true)
          × ((cancel_task task_id by reason now db).1.tasks
              ≡ update_where (has_status task_id row.status) (cancelled by reason now) db.tasks))
unfolding cancel_task
cancel_cases task_id by reason now db = elim (Option-cases (select_one (has_id task_id) db.tasks)) [
  | inl missing ↦ inl (ground (arith, missing))
  | inr (row, found) ↦ elim (Bool-cases (is_cancelable row.status)) [
    | inl fits ↦
        let split : ((cancel_task task_id by reason now db).1 ≡ db)
            ⊎ ((cancel_task task_id by reason now db).1.tasks
                ≡ update_where (has_status task_id row.status) (cancelled by reason now) db.tasks) =
          ground (arith, found, fits) in
        elim split [ inl same ↦ inl same | inr made ↦ inr (row, fits, made) ]
    | inr misfit ↦ inl (ground (arith, found, misfit))
  ]
]

cancel-Changes :
    (task_id : Uuid) (by reason : String) (now : Instant) (db : Database)
    → Changes db.tasks (cancel_task task_id by reason now db).1.tasks
cancel-Changes task_id by reason now db = elim (cancel_cases task_id by reason now db) [
  | inl same ↦ rw same (no_change db.tasks)
  | inr (row, open_row, made) ↦ rw made (
      update-Changes (has_status task_id row.status) (cancelled by reason now) db.tasks
        (λ t hit. cancelled-IsChange by reason now t (ground arith)))
]

record_all_failures-tasks :
    (now : Instant) (counts : List (Uuid × ℕ)) (db : Database)
    → (record_all_failures now counts db).tasks ≡ db.tasks
unfolding record_all_failures
record_all_failures-tasks now [] db = refl
record_all_failures-tasks now ((id, n) ∷ counts) db = record_all_failures-tasks now counts _

recover-Changes :
    (skip : Uuid → Bool) (now : Instant) (db : Database)
    → Changes db.tasks (recover_expired_tasks skip now db).1.tasks
unfolding recover_expired_tasks
recover-Changes skip now db = elim (Bool-cases (now == zero_time)) [
  | inl bad ↦ rw bad (no_change db.tasks)
  | inr good ↦
      rw (good, record_all_failures-tasks)
        (update-Changes (is_expired skip now) (recovered now) db.tasks
          (recovered-IsChange skip now))
]

failure_cases :
    (r : FailureCommit) (db : Database)
    → ((commit_failure r db).1 ≡ db)
      ⊎ ((validate_failure_commit r ≡ ok tt)
          × ((commit_failure r db).1.tasks
              ≡ update_where (is_fenced r.claim r.finished_at) (failed_task r) db.tasks))
unfolding commit_failure update_fenced
failure_cases r db = ground arith

success_cases :
    (source : Uuid → Option Source) (r : SuccessCommit) (db : Database)
    → ((commit_success source r db).1 ≡ db)
      ⊎ ((commit_success source r db).1.tasks
          ≡ update_where (is_fenced r.claim r.finished_at) (succeeded r.finished_at) db.tasks)
unfolding commit_success update_fenced
success_cases source r db = ground arith

pub changes :
    (source : Uuid → Option Source) (call : Call) (db : Database)
    → IsKeyed db.tasks
    → Changes db.tasks (after source call db).tasks
unfolding after
changes source (claims skip worker_id now lease) db keyed =
    claim-Changes skip worker_id now lease db keyed
changes source (cancels task_id by reason now) db keyed = cancel-Changes task_id by reason now db
changes source (recovers skip now) db keyed = recover-Changes skip now db
changes source (fails r) db keyed = elim (failure_cases r db) [
  | inl same ↦ rw same (no_change db.tasks)
  | inr (valid, made) ↦ rw made (
      update-Changes (is_fenced r.claim r.finished_at) (failed_task r) db.tasks
        (λ t. failed-IsChange r t valid))
]
changes source (succeeds r) db keyed = elim (success_cases source r db) [
  | inl same ↦ rw same (no_change db.tasks)
  | inr made ↦ rw made (
      update-Changes (is_fenced r.claim r.finished_at) (succeeded r.finished_at) db.tasks
        (succeeded-IsChange r.claim r.finished_at))
]
