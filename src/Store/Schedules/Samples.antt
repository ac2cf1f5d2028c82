-- ===== src/Store/Schedules/Samples.antt =====
-- A window scheduled by two scans.
use xr_trading.Base.{◌+◌, ◌*◌, ◌≡◌, refl, true, false, some, []}
use xr_trading.Domain.Errors.{ok}
use xr_trading.Domain.Time.{hour}
use xr_trading.Scheduler.Batches.{batch_for, validate_batch}
use xr_trading.Scheduler.Batches.Samples.{texts, target, window, run_id, task_id}
use xr_trading.Store.Schedules.{ScheduleTables, create_scheduled_batch}
use xr_trading.Store.Schedules.Idempotent.{create_scheduled_batch-once}

abbrev empty : ScheduleTables
empty = record { runs = []; tasks = [] }

abbrev written : ScheduleTables
written =
    (create_scheduled_batch texts (λ _. some true)
      (batch_for texts 5 target window (3 * hour) run_id task_id) empty).1

first :
    create_scheduled_batch texts
      (λ _. some true)
      (batch_for texts 5 target window (3 * hour) run_id task_id)
      empty
    ≡ (ok true, written)
unfolding create_scheduled_batch batch_for
first = refl

accepts_second :
    validate_batch texts (batch_for texts 5 target window (4 * hour) (run_id + 2) (task_id + 2))
    ≡ ok tt
unfolding validate_batch batch_for
accepts_second = refl

create_scheduled_batch-once_example :
    create_scheduled_batch texts
      (λ _. some true)
      (batch_for texts 5 target window (4 * hour) (run_id + 2) (task_id + 2))
      written
    ≡ (ok false, written)
unfolding xr_trading.Store.Database.select_where
create_scheduled_batch-once_example =
    create_scheduled_batch-once texts (λ _. some true) target window 5 5 (3 * hour) (4 * hour)
      run_id task_id (run_id + 2) (task_id + 2) empty written refl refl refl refl first
      accepts_second
