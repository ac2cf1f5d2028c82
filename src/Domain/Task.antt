-- ===== src/Domain/Task.antt =====
-- domain/ingestion.go and the schema of ingestion_tasks.
use xr_trading.Domain.Text.{same_text}
use xr_trading.Base.{
  ◌≡◌, arith, ℕ, String, Bool, true, false, not, ltb, Option, List, ◌==◌, ◌/◌, ◌%◌, ◌^◌, ◌≡◌, arith,
}
use xr_trading.Domain.Time.{Instant}

-- A UUID as its 128-bit number; the zero ID is the nil UUID.
abbrev pub Uuid : Type 0
Uuid = ℕ

abbrev pub is_nil : Uuid → Bool
is_nil id = id == 0

pub same_id : {a b : Uuid} → (a == b) ≡ true → a ≡ b
same_id {a} {b} h = ground (arith, h)

-- The high half of the seventh byte.
abbrev pub version : Uuid → ℕ
version id = id / 2 ^ 76 % 16

-- The values that the schema's CHECK admits in the status column.
pub data TaskStatus : Type 0 where
  pending running retry_wait success failed canceled : TaskStatus

abbrev rank : TaskStatus → ℕ
rank pending = 0
rank running = 1
rank retry_wait = 2
rank success = 3
rank failed = 4
rank canceled = 5

abbrev pub same_status : TaskStatus → TaskStatus → Bool
same_status a b = rank a == rank b

pub same_status-same : (a b : TaskStatus) → same_status a b ≡ true → a ≡ b
same_status-same a b h = ground (arith, h)

-- A json.RawMessage: an object of string fields, an object with one field that holds any JSON, some
-- other value, no JSON, or no bytes at all.
pub data Json : Type 0 where
  object : List (String × String) → Json
  nested : String → Json → Json
  other_value malformed absent : Json

-- json.Valid and a decoding into a non-nil map
abbrev pub is_json_object : Json → Bool
is_json_object (object _) = true
is_json_object (nested _ _) = true
is_json_object other_value = false
is_json_object malformed = false
is_json_object absent = false

-- normalizedJSON of domain/catalog_entities.go
unfoldable pub normalized_json : Json → Json
normalized_json absent = object List.[]
normalized_json (object fields) = object fields
normalized_json (nested field value) = nested field value
normalized_json other_value = other_value
normalized_json malformed = malformed

-- domain.IngestionTask; the counts are naturals, as the schema's CHECK demands.
pub record IngestionTask : Type 0 where
  pub id : Uuid
  pub run_id : Uuid
  pub subscription_id : Uuid
  pub retry_of_task_id : Option Uuid
  pub range_start : Instant
  pub range_end : Instant
  pub status : TaskStatus
  pub attempt_count : ℕ
  pub max_attempts : ℕ
  pub next_attempt_at : Option Instant
  pub locked_by : Option String
  pub locked_until : Option Instant
  pub started_at : Option Instant
  pub finished_at : Option Instant
  pub provider_request_id : Option String
  pub error_code : Option String
  pub error_message : Option String
  pub error_details : Json
  pub canceled_by : Option String
  pub cancel_reason : Option String
  pub created_at : Instant
  pub updated_at : Instant

-- domain.IngestionCheckpoint
pub record IngestionCheckpoint : Type 0 where
  pub subscription_id : Uuid
  pub last_success_open_time : Option Instant
  pub last_closed_open_time : Option Instant
  pub last_attempt_at : Option Instant
  pub last_success_at : Option Instant
  pub consecutive_failures : ℕ
  pub updated_at : Instant

-- domain.TaskClaim
pub record TaskClaim : Type 0 where
  pub task : IngestionTask

-- `p != nil && *p != ""`
abbrev pub has_owner : Option String → Bool
has_owner Option.none = false
has_owner (Option.some owner) = not (same_text owner "")

-- `p != nil && p.After(now)`
abbrev pub is_leased : Option Instant → Instant → Bool
is_leased Option.none now = false
is_leased (Option.some until) now = ltb now until
