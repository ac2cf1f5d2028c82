-- ===== src/Store/FailureRequest.antt =====
-- validateFailureCommit of repository/postgres/ingestion.go.
pub mod Accepts
use xr_trading.Base.{
  Bool, true, false, not, ◌&&◌, ◌||◌, Option, none, some, ltb, ◌==◌, is_none, is_some,
}
use xr_trading.Domain.Text.{is_bounded_text}
use xr_trading.Domain.Errors.{Result, ok, err, refuse_if, ◌>>=◌, ◌>>◌, invalid_data}
use xr_trading.Domain.Time.{Instant, is_zero}
use xr_trading.Domain.Task.{
  TaskStatus, running, retry_wait, failed, same_status, is_nil, has_owner, is_leased,
  is_json_object,
}
use xr_trading.Ingestion.Contracts.{FailureCommit}

-- `(status == "retry_wait") != (next != nil)`
abbrev is_unpaired : Bool → Bool → Bool
is_unpaired true present = not present
is_unpaired false present = present

-- `next != nil && !next.After(finished)`
abbrev is_early : Option Instant → Instant → Bool
is_early none finished_at = false
is_early (some next) finished_at = not (ltb finished_at next)

unfoldable pub validate_failure_commit : FailureCommit → Result (Unit {0})
validate_failure_commit r = do
  let task = r.claim.task
  refuse_if
      (is_nil task.id
        || is_nil task.subscription_id
        || not (same_status task.status running)
        || task.attempt_count == 0
        || task.max_attempts == 0
        || not (has_owner task.locked_by)
        || is_none task.locked_until
        || is_zero r.finished_at
        || not (is_leased task.locked_until r.finished_at))
      invalid_data
  refuse_if (not (same_status r.status retry_wait) && not (same_status r.status failed))
      invalid_data
  refuse_if
      (is_unpaired (same_status r.status retry_wait) (is_some r.next_attempt_at)
        || is_early r.next_attempt_at r.finished_at)
      invalid_data
  refuse_if (not (is_bounded_text 64 r.error_code) || not (is_bounded_text 512 r.error_message))
      invalid_data
  refuse_if (not (is_json_object r.error_details)) invalid_data
