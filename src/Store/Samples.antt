-- ===== src/Store/Samples.antt =====
-- A small database, and each theorem of the store at it.
use xr_trading.Base.{
  ℕ, ◌+◌, ◌*◌, ◌<◌, ◌≡◌, ◌≢◌, refl, Bool, true, false, Option, none, some, List, [], ◌∷◌, All,
  arith, pos,
}
use xr_trading.Domain.Errors.{Error, ok, provider, rate_limited}
use xr_trading.Domain.Time.{Instant, zero_time, minute, hour}
use xr_trading.Domain.Interval.{hour1}
use xr_trading.Domain.Task.{
  Uuid, pending, failed, object, absent, IngestionTask, IngestionCheckpoint, TaskClaim,
}
use xr_trading.Domain.MarketData.{MarketBar, valid}
use xr_trading.Ingestion.Contracts.{Config, FailureCommit}
use xr_trading.Ingestion.Retry.{default_retry_backoffs, failure_commit, validate_executable_claim}
use xr_trading.Ingestion.Retry.Backoff.{IsRetryConfig}
use xr_trading.Ingestion.Contracts.{RunStatus, RunSummary}
use xr_trading.Ingestion.Run.{refresh}
use xr_trading.Ingestion.Run.Summary.{IsSummary}
use xr_trading.Store.Runs.{RunTables, is_run, is_of_run, snapshot_of, run_store}
use xr_trading.Store.Runs.Settles.{Caches, refresh-IsSummary}
use xr_trading.Store.Database.{select_one}
use xr_trading.Store.FailureRequest.{validate_failure_commit}
use xr_trading.Store.FailureRequest.Accepts.{failure_commit_accepted}
use xr_trading.Store.Database.{Database, count_where}
use xr_trading.Store.Queue.{claimed, claim_next_task, is_expired, recover_expired_tasks}
use xr_trading.Store.Checkpoints.{upsert_successful_checkpoint}
use xr_trading.Store.Checkpoints.Progress.{
  IsAdvanced, checkpoint_of, upsert_successful_checkpoint-IsAdvanced,
}
use xr_trading.Store.Bars.{write_bars}
use xr_trading.Store.Bars.Versions.{IsVersioned, write_bars-IsVersioned}
use xr_trading.Store.Commits.{Source}
use xr_trading.Store.Rows.{Rows, IsKeyed}
use xr_trading.Store.Claims.{IsNext, claim_next_task-IsNext}
use xr_trading.Store.Accepted.{IsRow, claim_next_task-accepted}
use xr_trading.Ingestion.Worker.{validate_claim}
use xr_trading.Store.Recovery.{IsLapsed, Recovers, total_failures, recover_expired_tasks_complete}
use xr_trading.Store.Lifecycle.{Moves, Call, claims, cancels, recovers, after, IsSound}
use xr_trading.Store.Lifecycle.Calls.{
  Follows, IsQueue, after_all, after-Moves, after-IsQueue, after_all-Follows,
}
use xr_trading.Store.Fencing.{Commit, of_failure, claim_of, commit, IsRefused}
use xr_trading.Store.Fencing.Once.{commit-IsRefused_after}
use xr_trading.Store.Fencing.Takeover.{claim-refuses_earlier}

abbrev task : Uuid → Instant → IngestionTask
task id created_at = record {
  id = id;
  run_id = 7;
  subscription_id = 8;
  retry_of_task_id = none;
  range_start = 0;
  range_end = hour;
  status = pending;
  attempt_count = 0;
  max_attempts = 3;
  next_attempt_at = none;
  locked_by = none;
  locked_until = none;
  started_at = none;
  finished_at = none;
  provider_request_id = none;
  error_code = none;
  error_message = none;
  error_details = object [];
  canceled_by = none;
  cancel_reason = none;
  created_at = created_at;
  updated_at = created_at;
}

-- Two tasks wait; the second one is older.
abbrev waiting : Database
waiting = record { tasks = task 1 20 ∷ task 2 10 ∷ []; checkpoints = []; bars = []; issues = [] }

abbrev unlocked : Uuid → Bool
unlocked _ = false

abbrev taken : TaskClaim
taken = record { task = claimed "worker" 100000 160000 (task 2 10) }

abbrev started : Database
started = record waiting { tasks = task 1 20 ∷ taken.task ∷ [] }

abbrev no_source : Uuid → Option Source
no_source _ = none

abbrev failure : FailureCommit
failure = record {
  claim = taken;
  status = failed;
  next_attempt_at = none;
  error_code = "internal_error";
  error_message = "ingestion task failed";
  error_details = object [];
  finished_at = 120000;
}

abbrev later_calls : List Call
later_calls = claims unlocked "other" 130000 (pos 60000) ∷ recovers unlocked 500000 ∷ []

keyed : IsKeyed waiting.tasks
keyed = ((λ e. ground (arith, e), tt), (tt, tt))

IsKeyed-started : IsKeyed started.tasks
IsKeyed-started = ((λ e. ground (arith, e), tt), (tt, tt))

sound : (id : Uuid) (created_at : Instant) → IsSound (task id created_at)
sound id created_at = record { owned = refl; leased = refl; scheduled = refl; ended = refl }

commits_failure : (commit no_source (of_failure failure) started).0 ≡ ok tt
unfolding commit xr_trading.Store.Commits.commit_failure validate_failure_commit
    xr_trading.Domain.Text.is_bounded_text xr_trading.Domain.Text.is_padded
    xr_trading.Domain.Text.rune_count xr_trading.Store.Commits.lock_and_validate_failure_claim
    xr_trading.Store.Commits.holds_lease xr_trading.Store.Commits.update_fenced count_where
    xr_trading.Store.Commits.is_fenced
commits_failure = refl

claims_second : (claim_next_task unlocked "worker" 100000 (pos 60000) waiting).0 ≡ ok (some taken)
unfolding claim_next_task xr_trading.Store.Queue.oldest xr_trading.Store.Queue.is_claimable
claims_second = refl

commit-IsRefused_after_example :
    IsRefused no_source
      (of_failure failure)
      (after_all no_source later_calls (commit no_source (of_failure failure) started).1)
commit-IsRefused_after_example =
    commit-IsRefused_after no_source (of_failure failure) (of_failure failure) later_calls started
      IsKeyed-started commits_failure refl (omega arith)

abbrev stale : Commit
stale =
    of_failure
      (record failure { claim = record { task = record taken.task { attempt_count = 0 } } })

claim-refuses_earlier_example : IsRefused no_source stale (
    after_all no_source later_calls
      (claim_next_task unlocked "worker" 100000 (pos 60000) waiting).1)
unfolding claim_of
claim-refuses_earlier_example =
    claim-refuses_earlier no_source unlocked "worker" 100000 (pos 60000) waiting taken later_calls
      stale keyed claims_second refl (omega arith)

after-Moves_example :
    Rows Moves waiting.tasks
      (after no_source (claims unlocked "worker" 100000 (pos 60000)) waiting).tasks
after-Moves_example =
    after-Moves no_source (claims unlocked "worker" 100000 (pos 60000)) waiting keyed

queue : IsQueue waiting
queue = record { keyed = keyed; sound = (sound 1 20, (sound 2 10, tt)) }

after-IsQueue_example : IsQueue (after no_source (cancels 1 "operator" "" 50) waiting)
after-IsQueue_example = after-IsQueue no_source (cancels 1 "operator" "" 50) waiting queue

after_all-Follows_example :
    Rows Follows started.tasks (after_all no_source later_calls started).tasks
after_all-Follows_example = after_all-Follows no_source later_calls started IsKeyed-started

claim_next_task-IsNext_example :
    (t : IngestionTask) × IsNext unlocked "worker" 100000
      (pos 60000)
      waiting
      (claim_next_task unlocked "worker" 100000 (pos 60000) waiting).1
      taken
      t
claim_next_task-IsNext_example =
    claim_next_task-IsNext unlocked "worker" 100000 (pos 60000) waiting taken keyed claims_second

rows : All IsRow waiting.tasks
rows = (
  record { named = omega arith; tried = omega arith },
  (record { named = omega arith; tried = omega arith }, tt),
)

claim_next_task-accepted_example : validate_claim taken "worker" 100000 ≡ ok tt
claim_next_task-accepted_example =
    claim_next_task-accepted unlocked "worker" 100000 (pos 60000) waiting taken rows refl
      claims_second

present : (t : Instant) → t < zero_time → t ≢ zero_time
present t h = λ e. omega (arith, h, e)

recover_expired_tasks_complete_example :
    let db' = (recover_expired_tasks unlocked 500000 started).1 in
    (n : ℕ) × ((recover_expired_tasks unlocked 500000 started).0 ≡ ok n)
    × Recovers unlocked 500000 started.tasks db'.tasks n
    × All (λ t. ¬ IsLapsed unlocked 500000 t) db'.tasks
    × (total_failures db'.checkpoints ≡ total_failures started.checkpoints + n)
recover_expired_tasks_complete_example =
    recover_expired_tasks_complete unlocked 500000 started (present 500000 (omega arith))

abbrev checkpoint : IngestionCheckpoint
checkpoint = record {
  subscription_id = 8;
  last_success_open_time = some hour;
  last_closed_open_time = some hour;
  last_attempt_at = some 120000;
  last_success_at = some 120000;
  consecutive_failures = 2;
  updated_at = 120000;
}

upsert_successful_checkpoint-IsAdvanced_example :
    let cs' = upsert_successful_checkpoint checkpoint (checkpoint ∷ []) in
    ((c : IngestionCheckpoint) × (checkpoint_of 8 cs' ≡ some c)
      × IsAdvanced checkpoint (checkpoint_of 8 (checkpoint ∷ [])) c)
    × ((id : Uuid) → id ≢ 8 → checkpoint_of id cs' ≡ checkpoint_of id (checkpoint ∷ []))
upsert_successful_checkpoint-IsAdvanced_example =
    upsert_successful_checkpoint-IsAdvanced checkpoint (checkpoint ∷ [])

abbrev bar : MarketBar
bar = record {
  instrument_id = 3;
  provider_instrument_id = 4;
  interval = hour1;
  open_time = hour;
  revision = pos 0;
  close_time = 2 * hour;
  open_price = pos 10;
  high_price = pos 12;
  low_price = pos 9;
  close_price = pos 11;
  base_volume = none;
  quote_volume = none;
  trade_count = none;
  is_closed = true;
  is_current = false;
  quality_status = valid;
  provider_updated_at = none;
  collected_at = 3 * hour;
  raw_hash = "a";
  metadata = absent;
}

abbrev stored_bar : MarketBar
stored_bar = record bar { revision = pos 1; is_current = true; metadata = object [] }

nothing_stored : IsVersioned []
unfolding count_where
nothing_stored b = omega arith

writes_bar : write_bars (bar ∷ []) [] ≡ ok (stored_bar ∷ [])
unfolding write_bars xr_trading.Domain.MarketData.new_bar xr_trading.Domain.MarketData.validate_bar
    xr_trading.Domain.Text.rune_count xr_trading.Store.Bars.load_current_market_bar
writes_bar = refl

write_bars-IsVersioned_example : IsVersioned (stored_bar ∷ [])
write_bars-IsVersioned_example =
    write_bars-IsVersioned (bar ∷ []) [] {rows' = stored_bar ∷ []} nothing_stored writes_bar

abbrev config : Config
config = record {
  bars_per_page = pos 500;
  maximum_pages = pos 10;
  retry_backoffs = default_retry_backoffs;
  maximum_retry_delay = pos hour;
}

retry_config : IsRetryConfig config
unfolding xr_trading.Ingestion.Retry.is_ascending
retry_config = record { maximum_positive = refl; nonempty = omega arith; ascending = refl }

abbrev limited : Error
limited = provider (record {
  provider_code = "okx";
  code = rate_limited;
  message = "too many requests";
  retry_after = some (pos minute);
  cause = none;
})

executable : validate_executable_claim taken 120000 ≡ ok tt
unfolding validate_executable_claim
executable = refl

failure_commit_accepted_example :
    (k : FailureCommit) × (failure_commit config taken limited 120000 ≡ some k)
    × (validate_failure_commit k ≡ ok tt)
failure_commit_accepted_example =
    failure_commit_accepted config taken limited 120000 retry_config executable
      (present 120000 (omega arith))

abbrev tables : RunTables
tables = record {
  runs =
      record {
        id = 7;
        status = RunStatus.pending;
        task_count = 0;
        success_count = 0;
        failed_count = 0;
        started_at = none;
        finished_at = none;
      }
      ∷ [];
  tasks = started.tasks;
}

finds_run :
    select_one (is_run 7) tables.runs
    ≡ some (record {
      id = 7;
      status = RunStatus.pending;
      task_count = 0;
      success_count = 0;
      failed_count = 0;
      started_at = none;
      finished_at = none;
    })
unfolding select_one
finds_run = refl

has_one_run : count_where (is_run 7) tables.runs ≡ 1
unfolding count_where
has_one_run = refl

has_tasks : 0 < count_where (is_of_run 7) tables.tasks
unfolding count_where
has_tasks = omega arith

refresh-IsSummary_example :
    (summary : RunSummary) × (db' : RunTables) × (refresh run_store 7 tables ≡ (ok summary, db'))
    × Rows (Caches 7 summary) tables.runs db'.runs
    × (db'.tasks ≡ tables.tasks)
    × IsSummary (snapshot_of 7 tables.tasks) summary
refresh-IsSummary_example =
    refresh-IsSummary 7 tables {row = _} (λ e. omega (arith, e)) finds_run has_one_run has_tasks
