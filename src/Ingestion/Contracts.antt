-- ===== src/Ingestion/Contracts.antt =====
-- ingestion/contracts.go, and the configuration of ingestion/service.go.
use xr_trading.Base.{ℕ, ◌+◌, String, Option, List, ℤ}
use xr_trading.Domain.Time.{Instant, Duration}
use xr_trading.Domain.Task.{Uuid, TaskStatus, Json, TaskClaim, IngestionCheckpoint}
use xr_trading.Domain.MarketData.{MarketBar, DataQualityIssue}

-- ingestion.Config
pub record Config : Type 0 where
  pub bars_per_page : ℤ
  pub maximum_pages : ℤ
  pub retry_backoffs : List Duration
  pub maximum_retry_delay : Duration

pub record FailureCommit : Type 0 where
  pub claim : TaskClaim
  pub status : TaskStatus
  pub next_attempt_at : Option Instant
  pub error_code : String
  pub error_message : String
  pub error_details : Json
  pub finished_at : Instant

-- The counts are SQL counts, so naturals.
pub record RunTaskSnapshot : Type 0 where
  pub run_id : Uuid
  pub pending_count : ℕ
  pub running_count : ℕ
  pub retry_wait_count : ℕ
  pub success_count : ℕ
  pub failed_count : ℕ
  pub canceled_count : ℕ
  pub earliest_started_at : Option Instant
  pub latest_finished_at : Option Instant

-- RunTaskSnapshot.TaskCount
unfoldable pub task_count : RunTaskSnapshot → ℕ
task_count s =
    s.pending_count + s.running_count + s.retry_wait_count + s.success_count + s.failed_count
    + s.canceled_count

-- The status of a run.
pub data RunStatus : Type 0 where
  pending running success failed canceled partial : RunStatus

pub record RunSummary : Type 0 where
  pub run_id : Uuid
  pub status : RunStatus
  pub task_count : ℕ
  pub pending_count : ℕ
  pub running_count : ℕ
  pub retry_wait_count : ℕ
  pub success_count : ℕ
  pub failed_count : ℕ
  pub canceled_count : ℕ
  pub earliest_started_at : Option Instant
  pub latest_finished_at : Option Instant

pub record SuccessCommit : Type 0 where
  pub claim : TaskClaim
  pub bars : List MarketBar
  pub issues : List DataQualityIssue
  pub checkpoint : IngestionCheckpoint
  pub finished_at : Instant
