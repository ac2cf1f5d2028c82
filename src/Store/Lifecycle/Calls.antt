-- ===== src/Store/Lifecycle/Calls.antt =====
-- What any sequence of claims, cancellations, recoveries and commits keeps.
use xr_trading.Base.{◌≤◌, ◌≡◌, ◌≢◌, refl, true, Option, List, [], ◌∷◌, All, arith}
use xr_trading.Domain.Task.{Uuid, IngestionTask}
use xr_trading.Store.Database.{Database}
use xr_trading.Store.Commits.{Source}
use xr_trading.Store.Rows.{Rows, nil, cons, Rows-refl, Rows-map, Rows-trans, All-Rows, IsKeyed}
use xr_trading.Store.Lifecycle.{
  Moves, kept, started, ended, stopped, Call, after, is_terminal, IsSound,
}
use xr_trading.Store.Lifecycle.Changes.{changes}

-- A task at two times: it is the same task, no attempt is forgotten, and it no longer changes after
-- its end.
pub record Follows (t u : IngestionTask) : Type 0 where
  pub same_id : u.id ≡ t.id
  pub attempts : t.attempt_count ≤ u.attempt_count
  pub final : is_terminal t.status ≡ true → u ≡ t

Follows-of_Moves : {t u : IngestionTask} → Moves t u → Follows t u
Follows-of_Moves (kept e) = record {
  same_id = rw e refl;
  attempts = rw e (omega arith);
  final = λ _. e;
}
Follows-of_Moves (started from to count id) = record {
  same_id = id;
  attempts = ground arith;
  final = λ over. ground (arith, over);
}
Follows-of_Moves (ended from to count id) = record {
  same_id = id;
  attempts = ground arith;
  final = λ over. ground (arith, over);
}
Follows-of_Moves (stopped from to count id) = record {
  same_id = id;
  attempts = ground arith;
  final = λ over. ground (arith, over);
}

Follows-refl : (t : IngestionTask) → Follows t t
Follows-refl t = record { same_id = refl; attempts = omega arith; final = λ _. refl }

Follows-trans : {t u v : IngestionTask} → Follows t u → Follows u v → Follows t v
Follows-trans {t} {u} {v} f g = record {
  same_id = ground (arith, f.same_id, g.same_id);
  attempts = omega (arith, f.attempts, g.attempts);
  final = λ over.
      let e = f.final over in
      let over' : is_terminal u.status ≡ true = rw e over in let e' = g.final over' in rw e' e;
}

absent_after :
    (i : Uuid) {ts us : List IngestionTask}
    → Rows Follows ts us
    → All (λ w. w.id ≢ i) ts
    → All (λ w. w.id ≢ i) us
absent_after i = All-Rows {P = λ w. w.id ≢ i} (λ _ _ f out e. out (ground (arith, f.same_id, e)))

IsKeyed-after : {ts us : List IngestionTask} → Rows Follows ts us → IsKeyed ts → IsKeyed us
IsKeyed-after nil k = tt
IsKeyed-after (cons {x} {y} f fs) k =
    (rw f.same_id (absent_after x.id fs k.0), IsKeyed-after fs k.1)

-- The table of tasks is well formed: the IDs differ, and each task's columns match its status.
pub record IsQueue (db : Database) : Type 0 where
  pub keyed : IsKeyed db.tasks
  pub sound : All IsSound db.tasks

Follows-after :
    (source : Uuid → Option Source) (call : Call) (db : Database)
    → IsKeyed db.tasks
    → Rows Follows db.tasks (after source call db).tasks
Follows-after source call db keyed =
    Rows-map (λ _ _ change. Follows-of_Moves change.moves) (changes source call db keyed)

pub after-IsKeyed :
    (source : Uuid → Option Source) (call : Call) (db : Database)
    → IsKeyed db.tasks
    → IsKeyed (after source call db).tasks
after-IsKeyed source call db keyed = IsKeyed-after (Follows-after source call db keyed) keyed

-- When the IDs of the tasks differ, every claim, cancellation, recovery and commit, whatever its
-- result, keeps each task or moves it along one arrow of the status diagram: a pending task or one that
-- waits for a retry starts with one attempt more, a running task ends or goes back, and a task that is not
-- over is canceled; rows are neither added nor lost.
pub after-Moves :
    (source : Uuid → Option Source) (call : Call) (db : Database)
    → IsKeyed db.tasks
    → Rows Moves db.tasks (after source call db).tasks
after-Moves source call db keyed =
    Rows-map (λ _ _ change. change.moves) (changes source call db keyed)

-- ClaimNextTask, CancelTask, RecoverExpiredTasks, CommitFailure and CommitSuccess, whatever they return, keep the table
-- of tasks well formed: the IDs differ, a task has an owner and a lease
-- exactly while it runs, a next attempt exactly while it waits for a retry, and an end exactly when it is over.
pub after-IsQueue :
    (source : Uuid → Option Source) (call : Call) (db : Database)
    → IsQueue db
    → IsQueue (after source call db)
after-IsQueue source call db q = record {
  keyed = IsKeyed-after (Follows-after source call db q.keyed) q.keyed;
  sound = All-Rows (λ _ _ change. change.sound) (changes source call db q.keyed) q.sound;
}

-- A sequence of these calls, by any number of workers in any order.
unfoldable pub after_all : (Uuid → Option Source) → List Call → Database → Database
after_all source [] db = db
after_all source (call ∷ calls) db = after_all source calls (after source call db)

-- When the IDs of the tasks differ, after any sequence of claims, cancellations by CancelTask, recoveries and commits
-- each row is still the same task, no attempt is
-- forgotten, and a task that was over is unchanged.
pub after_all-Follows :
    (source : Uuid → Option Source) (calls : List Call) (db : Database)
    → IsKeyed db.tasks
    → Rows Follows db.tasks (after_all source calls db).tasks
unfolding after_all
after_all-Follows source [] db keyed = Rows-refl Follows Follows-refl db.tasks
after_all-Follows source (call ∷ calls) db keyed =
    let first = Follows-after source call db keyed in
    Rows-trans (λ _ _ _. Follows-trans) first
      (after_all-Follows source calls (after source call db) (IsKeyed-after first keyed))
