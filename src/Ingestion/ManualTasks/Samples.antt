-- ===== src/Ingestion/ManualTasks/Samples.antt =====
-- A retry against a store that counts the retries it has created.
use xr_trading.Base.{ℕ, ◌+◌, ◌*◌, ◌^◌, ◌≡◌, refl}
use xr_trading.Domain.Errors.{ok, err, sentinel, not_found}
use xr_trading.Ingestion.Contracts.{RunStatus}
use xr_trading.Ingestion.Action.{continue}
use xr_trading.Ingestion.ManualTasks.{ManualTaskStore, TaskOperationAudit, ManualRetryResult, retry}
use xr_trading.Ingestion.ManualTasks.Created.{IsCreated, retry-IsCreated}

-- The number of the IDs and of the retries so far.
abbrev store : ManualTaskStore
store = record {
  State = ℕ × ℕ;
  texts = record {
    id_text = λ _. "01890000-0000-7000-8000-000000000005";
    key_time = λ _. "20260702T150000.000000000Z";
    json_time = λ _. "2026-07-02T15:00:00Z";
  };
  maximum_attempts = 5;
  now = λ s. (ok 1000, s);
  new_id = λ s. (ok (7 * 2 ^ 76 + s.0), (s.0 + 1, s.1));
  create_manual_retry = λ _ s. (ok tt, (s.0, s.1 + 1));
  cancel_task_with_audit = λ _ _ _ s. (err (sentinel not_found), s);
  refresh = λ _ s. (err (sentinel not_found), s);
}

abbrev audit : TaskOperationAudit
audit = record {
  requested_by = "operator";
  actor_type = "user";
  request_id = "request.1";
  reason = "provider is back";
}

abbrev result : ManualRetryResult
result = record {
  run_id = 7 * 2 ^ 76 + 1;
  task_id = 7 * 2 ^ 76 + 2;
  status = RunStatus.pending;
  created_at = 1000;
}

retried : retry store 5 audit (1, 0) ≡ (ok result, (3, 1))
unfolding retry continue xr_trading.Domain.Text.is_padded xr_trading.Domain.Text.rune_count
retried = refl

retry-IsCreated_example : IsCreated store 5 audit result (3, 1)
unfolding retry xr_trading.Ingestion.Action.continue xr_trading.Domain.Text.is_padded
    xr_trading.Domain.Text.rune_count
retry-IsCreated_example = retry-IsCreated store 5 audit (1, 0) result refl
