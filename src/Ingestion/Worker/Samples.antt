-- ===== src/Ingestion/Worker/Samples.antt =====
-- A worker that executes one task and is then shut down.
use xr_trading.Base.{
  ℕ, ◌≡◌, refl, Option, none, some, true, List, [], ◌∷◌, All, pos, is_none, arith,
}
use xr_trading.Domain.Errors.{Error, Sentinel, context_canceled, ok}
use xr_trading.Domain.Task.{TaskClaim, running, same_status}
use xr_trading.Ingestion.Samples.{claim}
use xr_trading.Ingestion.Worker.{
  WorkerPorts, stopped, is_canceled, claim_loop, validate_claim, validate_worker_config,
}
use xr_trading.Ingestion.Worker.Loop.{IsWatched, claim_loop-keeps}

-- The context is canceled once a task has been executed.
abbrev canceled_after : List TaskClaim → Option Sentinel
canceled_after [] = none
canceled_after (_ ∷ _) = some context_canceled

abbrev ports : WorkerPorts
ports = record {
  State = List TaskClaim;
  config = record {
    worker_id = "worker";
    concurrency = pos 1;
    lease_duration = pos 60;
    poll_interval = pos 5;
    claim_error_backoff = pos 10;
  };
  context_error = canceled_after;
  now = λ log. (100, log);
  claim_next_task = λ id t d log. (ok (some claim), log);
  execute_task = λ c log. ([], c ∷ log);
  wait = λ d log. (ok tt, log);
  report = λ es log. log;
}

accepts_worker : validate_worker_config ports.config ≡ ok tt
unfolding validate_worker_config
accepts_worker = refl

works : claim_loop ports 5 [] ≡ (stopped none, claim ∷ [])
unfolding claim_loop
works = refl

-- Every task that was executed was running.
abbrev IsRunning : TaskClaim → Type 0
IsRunning c = same_status c.task.status running ≡ true

runs : (c : TaskClaim) (t : ℕ) → validate_claim c "worker" t ≡ ok tt → IsRunning c
unfolding validate_claim
runs c t h = ground (arith, h)

watched : IsWatched ports (All IsRunning)
watched = record {
  by_now = λ s p. p;
  by_claim = λ t s p. p;
  by_wait = λ d s p. p;
  by_report = λ es s p. p;
  by_execute = λ c asked s given valid leased live p. (runs c (ports.now asked).0 valid, p);
}

claim_loop-keeps_example :
    All IsRunning (claim_loop ports 5 []).1
    × ((e : Option Error)
        → (claim_loop ports 5 []).0 ≡ stopped e
        → is_canceled ports (claim_loop ports 5 []).1 ≡ is_none e)
claim_loop-keeps_example = claim_loop-keeps ports (All IsRunning) watched 5 [] tt
