-- ===== src/Store/Backfills/Samples.antt =====
-- Two requests for the same range.
use xr_trading.Base.{◌+◌, ◌*◌, ◌≡◌, refl, true, some, [], arith}
use xr_trading.Domain.Errors.{ok, err, sentinel, backfill_already_running}
use xr_trading.Domain.Time.{hour}
use xr_trading.Domain.Interval.{hour1}
use xr_trading.Scheduler.Batches.Samples.{texts, run_id, task_id}
use xr_trading.Ingestion.Backfill.{
  BackfillRequest, parse_backfill_input, backfill_run, backfill_task,
}
use xr_trading.Store.Schedules.{ScheduleTables}
use xr_trading.Store.Backfills.{validate_backfill_run_and_task, create_backfill_run_with_task}
use xr_trading.Store.Backfills.Accepted.{backfill-accepted}
use xr_trading.Store.Backfills.Exclusive.{Outcome, create_backfill_run_with_task-Outcome}

abbrev request : BackfillRequest
request = record {
  input = record {
    provider_code = "okx";
    instrument_code = "instrument.btc";
    interval = hour1;
    start_time = 2 * hour;
    end_time = 5 * hour;
    reason = "gap after an outage";
    requested_by = "operator";
    actor_type = "user";
    request_id = "request.1";
  };
  created_at = 9 * hour;
}

abbrev later : BackfillRequest
later = record {
  input = record {
    provider_code = "okx";
    instrument_code = "instrument.btc";
    interval = hour1;
    start_time = 2 * hour;
    end_time = 5 * hour;
    reason = "gap";
    requested_by = "scanner";
    actor_type = "service";
    request_id = "request.2";
  };
  created_at = 10 * hour;
}

is_parsed : parse_backfill_input request.input (9 * hour) ≡ ok request
unfolding parse_backfill_input xr_trading.Domain.Text.is_padded xr_trading.Domain.Text.rune_count
is_parsed = refl

abbrev empty : ScheduleTables
empty = record { runs = []; tasks = [] }

abbrev written : ScheduleTables
written =
    (create_backfill_run_with_task texts (λ _. some true) (backfill_run texts run_id request)
      (backfill_task 3 8 run_id task_id request) empty).1

first :
    create_backfill_run_with_task texts
      (λ _. some true)
      (backfill_run texts run_id request)
      (backfill_task 3 8 run_id task_id request)
      empty
    ≡ (ok tt, written)
unfolding create_backfill_run_with_task backfill_run backfill_task xr_trading.Domain.Text.is_padded
    xr_trading.Domain.Text.rune_count
first = refl

accepts_second :
    validate_backfill_run_and_task texts
      (backfill_run texts (run_id + 2) later)
      (backfill_task 3 8 (run_id + 2) (task_id + 2) later)
    ≡ ok tt
unfolding validate_backfill_run_and_task backfill_run backfill_task xr_trading.Domain.Text.is_padded
    xr_trading.Domain.Text.rune_count
accepts_second = refl

create_backfill_run_with_task-Outcome_example :
    Outcome
      (backfill_run texts (run_id + 2) later)
      (backfill_task 3 8 (run_id + 2) (task_id + 2) later)
      written
      (create_backfill_run_with_task texts
        (λ _. some true)
        (backfill_run texts (run_id + 2) later)
        (backfill_task 3 8 (run_id + 2) (task_id + 2) later)
        written)
create_backfill_run_with_task-Outcome_example =
    create_backfill_run_with_task-Outcome texts (λ _. some true)
      (backfill_run texts (run_id + 2) later) (backfill_task 3 8 (run_id + 2) (task_id + 2) later)
      written accepts_second refl

refuses_second :
    create_backfill_run_with_task texts
      (λ _. some true)
      (backfill_run texts (run_id + 2) later)
      (backfill_task 3 8 (run_id + 2) (task_id + 2) later)
      written
    ≡ (err (sentinel backfill_already_running), written)
unfolding create_backfill_run_with_task backfill_run backfill_task xr_trading.Domain.Text.is_padded
    xr_trading.Domain.Text.rune_count
refuses_second = refl

backfill-accepted_example :
    validate_backfill_run_and_task texts
      (backfill_run texts run_id request)
      (backfill_task 3 8 run_id task_id request)
    ≡ ok tt
backfill-accepted_example =
    backfill-accepted texts 3 8 run_id task_id request request.input (9 * hour) is_parsed
      (omega arith) (omega arith) refl refl refl
