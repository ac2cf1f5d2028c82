-- ===== src/Ingestion/Backfill.antt =====
-- BackfillService.Create of ingestion/backfill.go. The texts of an ID and of a time, the store, the clock and the
-- source of IDs are parameters.
use xr_trading.Base.{
  ℕ, String, Bool, false, not, ◌&&◌, ◌||◌, none, some, List, [], ◌∷◌, ◌++◌, ltb, leb, ◌==◌,
}
use xr_trading.Domain.Text.{same_text, codes, is_bounded_text}
use xr_trading.Domain.Errors.{Result, ok, refuse_if, ◌>>=◌ as ◌then◌, invalid_data}
use xr_trading.Domain.Time.{Instant, is_zero}
use xr_trading.Domain.Interval.{BarInterval, same_interval, parse_bar_interval}
use xr_trading.Domain.Task.{Uuid, pending, object, IngestionTask}
use xr_trading.Domain.MarketData.{new_time_range}
use xr_trading.Domain.Catalog.{is_code}
use xr_trading.Ingestion.Action.{Action, ◌>>=◌, ◌>>◌, pure}
use xr_trading.Ingestion.Contracts.{RunStatus}
use xr_trading.Ingestion.Execution.{ExecutionContext, validate_execution}
use xr_trading.Ingestion.Quality.{is_refused}
use xr_trading.Scheduler.Batches.{IngestionRun, Texts, is_scheduled_id, interval_text}

pub record BackfillInput : Type 0 where
  pub provider_code : String
  pub instrument_code : String
  pub interval : BarInterval
  pub start_time : Instant
  pub end_time : Instant
  pub reason : String
  pub requested_by : String
  pub actor_type : String
  pub request_id : String

-- A parsed request is the input with the time of its creation: the parsers change no value.
pub record BackfillRequest : Type 0 where
  pub input : BackfillInput
  pub created_at : Instant

pub record BackfillResult : Type 0 where
  pub run_id : Uuid
  pub task_id : Uuid
  pub status : RunStatus
  pub created_at : Instant

-- unicode.IsControl
abbrev pub is_control : ℕ → Bool
is_control c = ltb c 0x20 || leb 0x7f c && leb c 0x9f

abbrev pub has_control : List ℕ → Bool
has_control [] = false
has_control (c ∷ cs) = is_control c || has_control cs

-- validBackfillText
unfoldable pub is_backfill_text : String → ℕ → Bool
unfolding is_bounded_text
is_backfill_text value maximum = is_bounded_text maximum value && not (has_control (codes value))

-- The test of parseBackfillInput, and its end that lies in the future.
unfoldable pub is_malformed : BackfillInput → Instant → Bool
unfolding is_code parse_bar_interval new_time_range is_backfill_text
is_malformed i now =
    not (is_code i.provider_code)
    || not (is_code i.instrument_code)
    || is_refused (parse_bar_interval i.interval)
    || is_refused (new_time_range (some i.start_time) (some i.end_time))
    || is_zero now
    || not (is_backfill_text i.reason 512)
    || not (is_backfill_text i.requested_by 128)
    || not (is_backfill_text i.request_id 128)
    || not (same_text i.actor_type "user") && not (same_text i.actor_type "service")

unfoldable pub parse_backfill_input : BackfillInput → Instant → Result BackfillRequest
unfolding is_malformed
parse_backfill_input i now =
    refuse_if (is_malformed i now || ltb now i.end_time) invalid_data then λ _.
    ok (record { input = i; created_at = now })

-- What newBackfillTarget's identities must agree on.
abbrev is_other_target : ExecutionContext → BackfillRequest → Bool
is_other_target target request =
    not (same_text target.provider.code request.input.provider_code)
    || not (same_text target.instrument.code request.input.instrument_code)
    || not (same_interval target.subscription.interval request.input.interval)
    || not (target.subscription.provider_instrument_id == target.provider_instrument.id)

unfoldable pub validate_backfill_target :
    (String → Bool) → ExecutionContext → BackfillRequest → Result (Unit {0})
unfolding validate_execution
validate_backfill_target is_timezone target request =
    validate_execution is_timezone target then λ _.
    refuse_if (is_other_target target request) invalid_data

module _ (texts : Texts) where
  open texts use {id_text, json_time}

  abbrev pub backfill_key : Uuid → List ℕ
  backfill_key run_id = codes "backfill.manual." ++ codes (id_text run_id)

  -- The run that Create fills in; its context is backfillContextJSON.
  unfoldable pub backfill_run : Uuid → BackfillRequest → IngestionRun
  backfill_run run_id request = record {
    id = run_id;
    run_key = backfill_key run_id;
    run_type = "backfill";
    trigger_type = "manual";
    status = RunStatus.pending;
    scheduled_at = none;
    started_at = none;
    finished_at = none;
    requested_by = some request.input.requested_by;
    task_count = 1;
    success_count = 0;
    failed_count = 0;
    run_context = object (
        ("actor_type", request.input.actor_type)
        ∷ ("instrument_code", request.input.instrument_code)
        ∷ ("interval", interval_text request.input.interval)
        ∷ ("provider", request.input.provider_code)
        ∷ ("range_end", json_time request.input.end_time)
        ∷ ("range_start", json_time request.input.start_time)
        ∷ ("reason", request.input.reason)
        ∷ ("request_id", request.input.request_id)
        ∷ []);
    error_summary = object [];
    created_at = request.created_at;
  }

-- The task that Create fills in.
unfoldable pub backfill_task : ℕ → Uuid → Uuid → Uuid → BackfillRequest → IngestionTask
backfill_task maximum_attempts subscription_id run_id task_id request = record {
  id = task_id;
  run_id = run_id;
  subscription_id = subscription_id;
  retry_of_task_id = none;
  range_start = request.input.start_time;
  range_end = request.input.end_time;
  status = pending;
  attempt_count = 0;
  max_attempts = maximum_attempts;
  next_attempt_at = none;
  locked_by = none;
  locked_until = none;
  started_at = none;
  finished_at = none;
  provider_request_id = none;
  error_code = none;
  error_message = none;
  error_details = object [];
  canceled_by = none;
  cancel_reason = none;
  created_at = request.created_at;
  updated_at = request.created_at;
}

-- What the service calls.
pub record BackfillStore : Type 1 where
  pub State : Type 0
  pub texts : Texts
  pub is_timezone : String → Bool
  pub maximum_attempts : ℕ
  pub now : Action State Instant
  pub new_id : Action State Uuid
  pub resolve_backfill_target :
      String → String → BarInterval → Instant → Action State ExecutionContext
  pub create_backfill_run_with_task : IngestionRun → IngestionTask → Action State (Unit {0})

module _ (store : BackfillStore) where
  open store use {
    State, texts, is_timezone, maximum_attempts, now, new_id, resolve_backfill_target,
    create_backfill_run_with_task,
  }

  -- BackfillService.Create
  unfoldable pub create_backfill : BackfillInput → Action State BackfillResult
  unfolding parse_backfill_input validate_backfill_target backfill_run backfill_task
  create_backfill input = do
    created_at ← now
    request ← pure (parse_backfill_input input created_at)
    target ←
        resolve_backfill_target input.provider_code input.instrument_code input.interval created_at
    pure (validate_backfill_target is_timezone target request)
    run_id ← new_id
    pure (refuse_if (not (is_scheduled_id run_id)) invalid_data)
    task_id ← new_id
    pure (refuse_if (not (is_scheduled_id task_id) || task_id == run_id) invalid_data)
    create_backfill_run_with_task (backfill_run texts run_id request)
        (backfill_task maximum_attempts target.subscription.id run_id task_id request)
    pure (
        ok (record {
          run_id = run_id;
          task_id = task_id;
          status = RunStatus.pending;
          created_at = created_at;
        }))
