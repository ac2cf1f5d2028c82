-- ===== src/Store/Fencing/Takeover.antt =====
-- A claim takes the task over from the workers of earlier attempts.
use xr_trading.Base.{◌+◌, ◌<◌, ◌≡◌, refl, inl, Bool, Option, some, List, All, arith, String}
use xr_trading.Domain.Errors.{ok}
use xr_trading.Domain.Time.{stored_time, Instant, Duration, add}
use xr_trading.Domain.Task.{Uuid, IngestionTask, TaskClaim}
use xr_trading.Store.Database.{Database}
use xr_trading.Store.Queue.{claimed, has_id, claim_next_task}
use xr_trading.Store.Commits.{Source}
use xr_trading.Store.Rows.{All-updated, IsKeyed}
use xr_trading.Store.Lifecycle.{Call, claims, after}
use xr_trading.Store.Lifecycle.Calls.{after_all, after-IsKeyed}
use xr_trading.Store.Claims.{IsNext, claim_next_task-IsNext}
use xr_trading.Store.Fencing.{Commit, claim_of, IsRefused, IsSpent, IsSpent-after_all, refused}
use xr_trading.Store.Fencing.Once.{found_IsOnly}

IsSpent-by_claim :
    (skip : Uuid → Bool) (worker_id : String) (now : Instant) (lease : Duration) (db db' : Database)
    (c : TaskClaim) (t : IngestionTask)
    → IsKeyed db.tasks
    → IsNext skip worker_id now lease db db' c t
    → (c.task.id ≡ t.id)
      × (c.task.attempt_count ≡ t.attempt_count + 1)
      × All (IsSpent t.id t.attempt_count) db'.tasks
IsSpent-by_claim skip worker_id now lease db db' c t keyed w = (
  rw w.taken refl,
  rw w.taken refl,
  rw w.written (
      All-updated (λ u. u.id ≡ t.id → u ≡ t) (IsSpent t.id t.attempt_count) (has_id t.id)
        (claimed worker_id (stored_time now) (stored_time (add now lease))) db.tasks
        (λ u hit only e. inl (rw (only e) (omega arith))) (λ u miss only e. ground (arith, miss, e))
        (found_IsOnly t.id db.tasks keyed w.stored)),
)

-- Once a claim has returned a task, whatever claims, cancellations by CancelTask, recoveries and commits
-- follow, a commit of that task under an earlier
-- attempt returns an error and writes nothing, when the IDs of the tasks differ: a worker whose lease
-- was taken over cannot overwrite its successor.
pub claim-refuses_earlier :
    (source : Uuid → Option Source) (skip : Uuid → Bool) (worker_id : String) (now : Instant)
    (lease : Duration) (db : Database) (c : TaskClaim) (calls : List Call) (stale : Commit)
    → IsKeyed db.tasks
    → (claim_next_task skip worker_id now lease db).0 ≡ ok (some c)
    → (claim_of stale).task.id ≡ c.task.id
    → (claim_of stale).task.attempt_count < c.task.attempt_count
    → IsRefused source stale
        (after_all source calls (claim_next_task skip worker_id now lease db).1)
unfolding after
claim-refuses_earlier source skip worker_id now lease db c calls stale keyed h same before =
    let db' = (claim_next_task skip worker_id now lease db).1 in
    let (t, next) = claim_next_task-IsNext skip worker_id now lease db c keyed h in
    let (id, count, spent) = IsSpent-by_claim skip worker_id now lease db db' c t keyed next in
    let id' : (claim_of stale).task.id ≡ t.id = ground (arith, same, id) in
    refused source stale (after_all source calls db') t.attempt_count
      (rw id' (
        IsSpent-after_all source calls db' t.id t.attempt_count
          (after-IsKeyed source (claims skip worker_id now lease) db keyed) spent))
      (omega (arith, before, count))
