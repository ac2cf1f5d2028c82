-- ===== src/Ingestion/Worker.antt =====
-- The claim loop of ingestion/worker/worker.go, of one slot. The ports are a WorkerPorts: each call may change
-- what the others see, so the calls of the other slots and processes lie between them.
pub mod Loop
mod Samples
use xr_trading.Base.{
  ℕ, zero, suc, String, Bool, true, false, not, ◌||◌, Option, none, some, List, [], ◌∷◌, ltb, ◌==◌,
  ℤ, pos, ltz, is_some,
}
use xr_trading.Domain.Text.{same_text, codes, bytes, is_padded, same_codes}
use xr_trading.Domain.Errors.{
  Error, Sentinel, Result, ok, err, refuse_if, ◌>>=◌, ◌>>◌, invalid_data, internal,
}
use xr_trading.Domain.Time.{Instant, Duration}
use xr_trading.Domain.Task.{is_nil, running, same_status, is_leased, TaskClaim}
use xr_trading.Ingestion.Action.{Action}

pub record WorkerConfig : Type 0 where
  pub worker_id : String
  pub concurrency : ℤ
  pub lease_duration : Duration
  pub poll_interval : Duration
  pub claim_error_backoff : Duration

-- validateConfig of the worker
unfoldable pub validate_worker_config : WorkerConfig → Result (Unit {0})
unfolding is_padded bytes
validate_worker_config c = do
  refuse_if
      (is_padded c.worker_id || same_text c.worker_id "" || ltb 128 (bytes (codes c.worker_id)))
      internal
  refuse_if (not (ltz (pos 0) c.concurrency)) internal
  refuse_if
      (not (ltz (pos 0) c.lease_duration)
        || not (ltz (pos 0) c.poll_interval)
        || not (ltz (pos 0) c.claim_error_backoff))
      internal

-- `task.LockedBy == nil || *task.LockedBy != workerID`
abbrev pub is_other_owner : Option String → String → Bool
is_other_owner none worker_id = true
is_other_owner (some owner) worker_id = not (same_codes (codes owner) (codes worker_id))

-- validateClaim
unfoldable pub validate_claim : TaskClaim → String → Instant → Result (Unit {0})
unfolding same_codes
validate_claim claim worker_id claimed_at =
    refuse_if
      (is_nil claim.task.id
        || not (same_status claim.task.status running)
        || claim.task.attempt_count == 0
        || claim.task.max_attempts == 0
        || is_other_owner claim.task.locked_by worker_id
        || not (is_leased claim.task.locked_until claimed_at))
      invalid_data

-- The claimer, the executor, the clock, the reporter and the context; the executor returns the errors that it
-- joins, of which none is nil.
pub record WorkerPorts : Type 1 where
  pub State : Type 0
  pub config : WorkerConfig
  pub context_error : State → Option Sentinel
  pub now : State → Instant × State
  pub claim_next_task : String → Instant → Duration → Action State (Option TaskClaim)
  pub execute_task : TaskClaim → State → List Error × State
  pub wait : Duration → Action State (Unit {0})
  pub report : List Error → State → State

-- How a round ends: with another one, or with the loop's error, if any.
pub data Next : Type 0 where
  again : Next
  stopped : Option Error → Next

module _ (ports : WorkerPorts) where
  open ports use {State, config, context_error, now, claim_next_task, execute_task, wait, report}

  abbrev pub is_canceled : State → Bool
  is_canceled s = is_some (context_error s)

  -- Worker.wait, and what the loop makes of its error.
  unfoldable pub pause : Duration → State → Next × State
  pause duration s =
      let (waited, s') = wait duration s in
      elim waited [
        | ok _ ↦ (again, s')
        | err e ↦ elim (is_canceled s') [ true ↦ (again, s') | false ↦ (stopped (some e), s') ]
      ]

  -- Behind the execution of a task.
  unfoldable pub after_execution : List Error × State → Next × State
  after_execution ([], s) = (again, s)
  after_execution (e ∷ es, s) = elim (is_canceled s) [
    | true ↦ (stopped none, s)
    | false ↦ (again, report (e ∷ es) s)
  ]

  unfoldable pub handle_claim : Instant → Result (Option TaskClaim) → State → Next × State
  unfolding pause after_execution validate_claim
  handle_claim claimed_at (err e) s = elim (is_canceled s) [
    | true ↦ (stopped none, s)
    | false ↦ pause config.claim_error_backoff (report (e ∷ []) s)
  ]
  handle_claim claimed_at (ok none) s = pause config.poll_interval s
  handle_claim claimed_at (ok (some claim)) s =
      elim (validate_claim claim config.worker_id claimed_at) [
        | err e ↦ pause config.claim_error_backoff (report (e ∷ []) s)
        | ok _ ↦ elim (is_canceled s) [
          | true ↦ (stopped none, s)
          | false ↦ after_execution (execute_task claim s)
        ]
      ]

  -- One round of `for { ... }`.
  unfoldable pub claim_round : State → Next × State
  unfolding handle_claim
  claim_round s = elim (is_canceled s) [
    | true ↦ (stopped none, s)
    | false ↦
        let (claimed_at, s1) = now s in
        let (claim, s2) = claim_next_task config.worker_id claimed_at config.lease_duration s1 in
        handle_claim claimed_at claim s2
  ]

  -- What a round leads to: its end, or the rounds behind it.
  unfoldable pub proceed : (State → Next × State) → Next × State → Next × State
  proceed rest (again, s) = rest s
  proceed rest (stopped e, s) = (stopped e, s)

  -- So many rounds of the loop, which runs until the context is canceled; `again` is a loop that goes on.
  unfoldable pub claim_loop : ℕ → State → Next × State
  unfolding claim_round proceed
  claim_loop zero s = (again, s)
  claim_loop (suc n) s = proceed (claim_loop n) (claim_round s)

-- What Run returns for the errors of its slots, in the order in which they end.
unfoldable pub run_error : List (Option Error) → Option Error
run_error [] = none
run_error (some e ∷ es) = some e
run_error (none ∷ es) = run_error es
