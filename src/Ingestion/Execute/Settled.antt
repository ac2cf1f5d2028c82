-- ===== src/Ingestion/Execute/Settled.antt =====
-- ExecuteTask returns, and nil only behind an accepted commit and a saved summary.
use xr_trading.Base.{◌≡◌, refl, Bool-cases, inl, inr, List, [], ◌∷◌, arith}
use xr_trading.Domain.Errors.{Error, Result, Result-cases, ok, err}
use xr_trading.Domain.Task.{TaskClaim}
use xr_trading.Ingestion.Contracts.{RunSummary}
use xr_trading.Ingestion.Retry.{validate_executable_claim}
use xr_trading.Ingestion.Run.{refresh}
use xr_trading.Ingestion.Run.Refresh.{IsSaved}
use xr_trading.Ingestion.Execute.{
  Service, returned, run_store, execute_claim, is_abandoned, settle_failure, fail_claim,
  settle_success, conclude, execute_task,
}
use xr_trading.Ingestion.Retry.Backoff.{IsRetryConfig}
use xr_trading.Ingestion.Retry.Outcome.{failure_commit-Outcome}
use xr_trading.Ingestion.Execute.Committed.{IsCommitted}

module _ (service : Service) (claim : TaskClaim) where
  open service use {State, config, now, commit_failure}

  -- The commit, and the summary of the run that was saved behind it.
  pub record IsSettled (final : State) : Type 0 where
    pub commit : IsCommitted service claim
    pub summary : RunSummary
    pub saved : IsSaved (run_store service) claim.task.run_id summary final

  settle_failure-returns :
      (e : Error) (r : Result (Unit {0}) × State)
      → (errors : List Error) × ((settle_failure service claim e r).0 ≡ returned errors)
  unfolding settle_failure
  settle_failure-returns e (err f, s) = (e ∷ f ∷ [], refl)
  settle_failure-returns e (ok _, s) =
      elim (Result-cases (refresh (run_store service) claim.task.run_id s).0) [
        | inl (f, bad) ↦ (e ∷ f ∷ [], ground (arith, bad))
        | inr (_, good) ↦ (e ∷ [], ground (arith, good))
      ]

  fail_claim-returns :
      (e : Error) (s : State)
      → IsRetryConfig config
      → (errors : List Error) × ((fail_claim service claim e s).0 ≡ returned errors)
  unfolding fail_claim
  fail_claim-returns e s v = elim (Result-cases (validate_executable_claim claim (now s).0)) [
    | inl (lost, bad) ↦ (e ∷ lost ∷ [], ground (arith, bad))
    | inr (_, good) ↦
        let (commit, made, _, _) = failure_commit-Outcome config v claim e (now s).0 in
        let (errors, done) = settle_failure-returns e (commit_failure commit (now s).1) in
        (errors, rw (fail_claim, good, made) done)
  ]

  conclude-returns :
      (r : Result (Unit {0}) × State)
      → IsRetryConfig config
      → (errors : List Error) × ((conclude service claim r).0 ≡ returned errors)
  unfolding conclude settle_success
  conclude-returns (ok _, s) v =
      elim (Result-cases (refresh (run_store service) claim.task.run_id s).0) [
        | inl (f, bad) ↦ (f ∷ [], ground (arith, bad))
        | inr (_, good) ↦ ([], ground (arith, good))
      ]
  conclude-returns (err e, s) v = elim (Bool-cases (is_abandoned service e s)) [
    | inl left ↦ (e ∷ [], ground (arith, left))
    | inr stays ↦
        let (errors, done) = fail_claim-returns e s v in (errors, rw (conclude, stays) done)
  ]

  -- With a configuration that NewService accepts, ExecuteTask never panics: whatever its dependencies answer,
  -- it returns the errors that it joins, or nil.
  pub execute_task-returns :
      (s : State)
      → IsRetryConfig config
      → (errors : List Error) × ((execute_task service claim s).0 ≡ returned errors)
  unfolding execute_task
  execute_task-returns s v = elim (Result-cases (validate_executable_claim claim (now s).0)) [
    | inl (e, bad) ↦ (e ∷ [], ground (arith, bad))
    | inr (_, good) ↦
        let (errors, done) = conclude-returns (execute_claim service claim (now s).1) v in
        (errors, rw (execute_task, good) done)
  ]
