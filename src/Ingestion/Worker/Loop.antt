-- ===== src/Ingestion/Worker/Loop.antt =====
-- When the claim loop stops, and what it executes.
use xr_trading.Base.{
  refl, String, Option-cases, ℕ, zero, suc, true, false, ◌≡◌, sym, inl, inr, Bool-cases, Option,
  none, some, List, [], ◌∷◌, is_none, arith,
}
use xr_trading.Domain.Errors.{Error, Result, Result-cases, ok, err}
use xr_trading.Domain.Time.{Instant, Duration}
use xr_trading.Domain.Task.{TaskClaim}
use xr_trading.Ingestion.Execute.Committed.{IsLeased}
use xr_trading.Ingestion.Worker.{
  WorkerPorts, Next, again, stopped, is_canceled, pause, after_execution, handle_claim, claim_round,
  proceed, claim_loop, validate_claim,
}

valid-IsLeased :
    (claim : TaskClaim) (worker_id : String) (t : Instant)
    → validate_claim claim worker_id t ≡ ok tt
    → IsLeased claim t
unfolding validate_claim
valid-IsLeased claim worker_id t h = elim (Option-cases claim.task.locked_until) [
  | inl missing ↦ ground (arith, h, missing)
  | inr (until, given) ↦ record {
    until = until;
    lease = given;
    running_task = ground (arith, h, given);
    in_force = ground (arith, h, given);
  }
]

module _ (ports : WorkerPorts) where
  open ports use {State, config, now, claim_next_task, execute_task, wait, report}

  -- What each call of the loop keeps; a task is executed for a valid claim of this worker, right after the queue
  -- has handed it out at a time of the clock before its lease ends, while the context is not canceled.
  pub record IsWatched (P : State → Type 0) : Type 0 where
    pub by_now : (s : State) → P s → P (now s).1
    pub by_claim :
        (t : Instant) (s : State)
        → P s
        → P (claim_next_task config.worker_id t config.lease_duration s).1
    pub by_wait : (d : Duration) (s : State) → P s → P (wait d s).1
    pub by_report : (es : List Error) (s : State) → P s → P (report es s)
    pub by_execute :
        (claim : TaskClaim) (asked s : State)
        → claim_next_task config.worker_id (now asked).0 config.lease_duration (now asked).1
          ≡ (ok (some claim), s)
        → validate_claim claim config.worker_id (now asked).0 ≡ ok tt
        → IsLeased claim (now asked).0
        → is_canceled ports s ≡ false
        → P s
        → P (execute_task claim s).1

  -- How a round or a loop that has stopped left the context.
  Stops : Next × State → Type 0
  Stops r = (e : Option Error) → r.0 ≡ stopped e → is_canceled ports r.1 ≡ is_none e

  module _ (P : State → Type 0) (watched : IsWatched P) where
    Sound : Next × State → Type 0
    Sound r = P r.1 × Stops r

    goes_on : (s : State) → P s → Sound (again, s)
    unfolding Sound Stops
    goes_on s p = (p, λ e same. ground (arith, same))

    ends : (s : State) → is_canceled ports s ≡ true → P s → Sound (stopped none, s)
    unfolding Sound Stops
    ends s canceled p =
        (p, λ e same. let is : none ≡ e = ground (arith, same) in rw (sym is) canceled)

    fails :
        (s : State) (e : Error) → is_canceled ports s ≡ false → P s → Sound (stopped (some e), s)
    unfolding Sound Stops
    fails s e live p = (p, λ f same. let is : some e ≡ f = ground (arith, same) in rw (sym is) live)

    pause-Sound : (d : Duration) (s : State) → P s → Sound (pause ports d s)
    unfolding pause
    pause-Sound d s p =
        let p1 = watched.by_wait d s p in
        elim (Result-cases (wait d s).0) [
          | inr (_, good) ↦ rw (pause, good) (goes_on (wait d s).1 p1)
          | inl (e, bad) ↦ elim (Bool-cases (is_canceled ports (wait d s).1)) [
            | inl canceled ↦ rw (pause, bad, canceled) (goes_on (wait d s).1 p1)
            | inr live ↦ rw (pause, bad, live) (fails (wait d s).1 e live p1)
          ]
        ]

    after_execution-Sound : (r : List Error × State) → P r.1 → Sound (after_execution ports r)
    unfolding after_execution
    after_execution-Sound ([], s) p = goes_on s p
    after_execution-Sound (e ∷ es, s) p = elim (Bool-cases (is_canceled ports s)) [
      | inl canceled ↦ rw (after_execution, canceled) (ends s canceled p)
      | inr live ↦
          rw (after_execution, live) (goes_on (report (e ∷ es) s) (watched.by_report (e ∷ es) s p))
    ]

    handle_claim-Sound :
        (asked : State) (answer : Result (Option TaskClaim)) (s : State)
        → claim_next_task config.worker_id (now asked).0 config.lease_duration (now asked).1
          ≡ (answer, s)
        → P s
        → Sound (handle_claim ports (now asked).0 answer s)
    unfolding handle_claim
    handle_claim-Sound asked (err e) s given p = elim (Bool-cases (is_canceled ports s)) [
      | inl canceled ↦ rw (handle_claim, canceled) (ends s canceled p)
      | inr live ↦
          rw (handle_claim, live)
            (pause-Sound config.claim_error_backoff (report (e ∷ []) s)
              (watched.by_report (e ∷ []) s p))
    ]
    handle_claim-Sound asked (ok none) s given p = pause-Sound config.poll_interval s p
    handle_claim-Sound asked (ok (some claim)) s given p =
        elim (Result-cases (validate_claim claim config.worker_id (now asked).0)) [
          | inl (e, bad) ↦
              rw (handle_claim, bad)
                (pause-Sound config.claim_error_backoff (report (e ∷ []) s)
                  (watched.by_report (e ∷ []) s p))
          | inr (_, good) ↦ elim (Bool-cases (is_canceled ports s)) [
            | inl canceled ↦ rw (handle_claim, good, canceled) (ends s canceled p)
            | inr live ↦
                rw (handle_claim, good, live)
                  (after_execution-Sound (execute_task claim s) (
                    watched.by_execute claim asked s given good
                      (valid-IsLeased claim config.worker_id (now asked).0 good) live p))
          ]
        ]

    claim_round-Sound : (s : State) → P s → Sound (claim_round ports s)
    unfolding claim_round
    claim_round-Sound s p = elim (Bool-cases (is_canceled ports s)) [
      | inl canceled ↦ rw (claim_round, canceled) (ends s canceled p)
      | inr live ↦
          let t = (now s).0 in
          let p1 = watched.by_now s p in
          let answer = claim_next_task config.worker_id t config.lease_duration (now s).1 in
          rw (claim_round, live)
            (handle_claim-Sound s answer.0 answer.1 refl (watched.by_claim t (now s).1 p1))
    ]

    proceed-Sound :
        (rest : State → Next × State) (r : Next × State)
        → Sound r
        → ((s : State) → P s → Sound (rest s))
        → Sound (proceed ports rest r)
    unfolding proceed Sound
    proceed-Sound rest (again, s) sound later = later s sound.0
    proceed-Sound rest (stopped e, s) sound later = sound

    claim_loop-Sound : (n : ℕ) (s : State) → P s → Sound (claim_loop ports n s)
    unfolding claim_loop
    claim_loop-Sound zero s p = goes_on s p
    claim_loop-Sound (suc n) s p =
        proceed-Sound (claim_loop ports n) (claim_round ports s) (claim_round-Sound s p)
          (claim_loop-Sound n)

    -- After any number of rounds, whatever the calls keep that the claim loop makes of its ports under the
    -- conditions of IsWatched, the loop has kept: it executes only claims that the queue has just handed out, that
    -- are running tasks of this worker with a lease beyond the time that the clock gave before the claim, and
    -- none after the context was canceled. If the loop has
    -- stopped, then without an error exactly when the context is canceled.
    pub claim_loop-keeps :
        (n : ℕ) (s : State)
        → P s
        → P (claim_loop ports n s).1
          × ((e : Option Error)
              → (claim_loop ports n s).0 ≡ stopped e
              → is_canceled ports (claim_loop ports n s).1 ≡ is_none e)
    unfolding Sound Stops
    claim_loop-keeps n s p = claim_loop-Sound n s p
