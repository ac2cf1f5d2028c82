-- ===== src/Store/Checkpoints.antt =====
-- The upserts of ingestion_checkpoints in repository/postgres/ingestion.go.
pub mod Progress
use xr_trading.Base.{
  ℕ, ◌+◌, Bool, true, false, Option, none, some, List, [], ◌∷◌, ltb, ◌==◌, is_some, if◌then◌else◌,
}
use xr_trading.Domain.Time.{Instant}
use xr_trading.Domain.Task.{Uuid, IngestionCheckpoint}

-- INSERT ... ON CONFLICT (subscription_id) DO UPDATE: the row that conflicts is updated by `merge`.
unfoldable pub upsert :
    (IngestionCheckpoint → IngestionCheckpoint)
    → IngestionCheckpoint
    → List IngestionCheckpoint
    → List IngestionCheckpoint
upsert merge new [] = new ∷ []
upsert merge new (c ∷ cs) =
    if c.subscription_id == new.subscription_id then merge c ∷ cs else c ∷ upsert merge new cs

-- GREATEST, where a missing time gives way to the other one.
unfoldable pub latest : Option Instant → Option Instant → Option Instant
latest stored none = stored
latest none (some new) = some new
latest (some stored) (some new) = some (if ltb stored new then new else stored)

-- upsertSuccessfulCheckpoint
unfoldable pub upsert_successful_checkpoint :
    IngestionCheckpoint → List IngestionCheckpoint → List IngestionCheckpoint
unfolding upsert latest
upsert_successful_checkpoint new =
    upsert
      (λ stored. record stored {
        last_success_open_time = latest stored.last_success_open_time new.last_success_open_time;
        last_closed_open_time = latest stored.last_closed_open_time new.last_closed_open_time;
        last_attempt_at = new.last_attempt_at;
        last_success_at = new.last_success_at;
        consecutive_failures = 0;
        updated_at = new.updated_at;
      })
      (record new { consecutive_failures = 0 })

-- The row that a subscription without a checkpoint gets after so many failures.
abbrev first_failures : Uuid → Instant → ℕ → IngestionCheckpoint
first_failures subscription_id attempted_at failures = record {
  subscription_id = subscription_id;
  last_success_open_time = none;
  last_closed_open_time = none;
  last_attempt_at = some attempted_at;
  last_success_at = none;
  consecutive_failures = failures;
  updated_at = attempted_at;
}

-- The checkpoint statement of RecoverExpiredTasks, for one subscription with so many failures.
unfoldable pub record_failures :
    Uuid → Instant → ℕ → List IngestionCheckpoint → List IngestionCheckpoint
unfolding upsert
record_failures subscription_id attempted_at failures =
    upsert
      (λ stored. record stored {
        last_attempt_at = some attempted_at;
        consecutive_failures = stored.consecutive_failures + failures;
        updated_at = attempted_at;
      })
      (first_failures subscription_id attempted_at failures)

-- upsertFailedCheckpoint
unfoldable pub upsert_failed_checkpoint :
    Uuid → Instant → List IngestionCheckpoint → List IngestionCheckpoint
unfolding record_failures
upsert_failed_checkpoint subscription_id attempted_at =
    record_failures subscription_id attempted_at 1
