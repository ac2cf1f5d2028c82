-- ===== src/Scheduler/Incremental/Counts.antt =====
-- The counts of a scan.
use xr_trading.Base.{
  ℕ, zero, suc, ◌+◌, ◌≡◌, refl, Bool, true, false, Option, none, some, List, [], ◌∷◌, ◌≤◌, arith,
}
use xr_trading.Domain.Errors.{Result, ok, err}
use xr_trading.Domain.Time.{Instant, Duration}
use xr_trading.Domain.Task.{Uuid}
use xr_trading.Ingestion.Action.{Action, continue, ◌>>=◌, pure}
use xr_trading.Scheduler.Window.{
  CollectionWindow, WindowTrigger, DelayPolicy, delay_of, close, revision, unsupported,
}
use xr_trading.Scheduler.Targets.{SchedulingTarget}
use xr_trading.Scheduler.Batches.{new_batch}
use xr_trading.Scheduler.Incremental.{
  IncrementalStore, schedule_enabled, follow_page, IncrementalResult, no_result, Scan, lift, tally,
  scanned, found_due, persisted, each, windows_for, schedule_window, schedule_trigger,
  schedule_target, page_loop, run_once,
}

-- Every due window counted so far led to a run, a new one or one that existed; or all but the last one did.
abbrev pub IsBalanced : IncrementalResult → Type 0
IsBalanced r = r.due_windows ≡ r.created_runs + r.existing_runs

abbrev pub IsNear : IncrementalResult → Type 0
IsNear r =
    (r.created_runs + r.existing_runs ≤ r.due_windows)
    × (r.due_windows ≤ r.created_runs + r.existing_runs + 1)

module _ (store : IncrementalStore) where
  -- From balanced counts the action leads to near ones, and to balanced ones where it returns no error.
  Accounts {ℓ} : {A : Type ℓ} → Action (Scan store) A → Type ℓ
  Accounts {A} action =
      (p : Scan store)
      → IsBalanced p.0
      → IsNear (action p).1.0 × ((value : A) → (action p).0 ≡ ok value → IsBalanced (action p).1.0)

  near : (r : IncrementalResult) → IsBalanced r → IsNear r
  near r same = (omega (arith, same), omega (arith, same))

  continue-Accounts {κ ℓ} :
      {B : Type κ} {A : Type ℓ} (r : Result A × Scan store) (next : A → Action (Scan store) B)
      → IsNear r.1.0
      → ((value : A) → r.0 ≡ ok value → IsBalanced r.1.0)
      → ((value : A) → Accounts (next value))
      → IsNear (continue r next).1.0
        × ((value : B) → (continue r next).0 ≡ ok value → IsBalanced (continue r next).1.0)
  unfolding continue Accounts
  continue-Accounts (ok value, p) next close_by balanced rest = rest value p (balanced value refl)
  continue-Accounts (err e, p) next close_by balanced rest =
      (close_by, λ value same. ground (arith, same))

  bind-Accounts {κ ℓ} :
      {B : Type κ} {A : Type ℓ} (first : Action (Scan store) A) (next : A → Action (Scan store) B)
      → Accounts first
      → ((value : A) → Accounts (next value))
      → Accounts (first >>= next)
  unfolding Accounts
  bind-Accounts first next starts rest p same =
      let (close_by, balanced) = starts p same in
      continue-Accounts (first p) next close_by balanced rest

  pure-Accounts {ℓ} : {A : Type ℓ} (value : Result A) → Accounts (pure value)
  unfolding Accounts
  pure-Accounts value p same = (near p.0 same, λ _ _. same)

  lift-Accounts {ℓ} : {A : Type ℓ} (action : Action store.State A) → Accounts (lift store action)
  unfolding Accounts
  lift-Accounts action p same = (near p.0 same, λ _ _. same)

  each-Accounts {ℓ} :
      {A : Type ℓ} (act : A → Action (Scan store) (Unit {0})) (xs : List A)
      → ((x : A) → Accounts (act x))
      → Accounts (each act xs)
  unfolding each
  each-Accounts act [] steps = pure-Accounts (ok tt)
  each-Accounts act (x ∷ xs) steps =
      bind-Accounts (act x) (λ _. each act xs) (steps x) λ _. each-Accounts act xs steps

  -- With one window more than there are runs, as inside the innermost loop.
  abbrev IsAhead : IncrementalResult → Type 0
  IsAhead r = r.due_windows ≡ r.created_runs + r.existing_runs + 1

  -- The rest of the loop's body brings the counts back into balance, or fails.
  Repairs {ℓ} : {A : Type ℓ} → Action (Scan store) A → Type ℓ
  Repairs {A} action =
      (p : Scan store)
      → IsAhead p.0
      → IsNear (action p).1.0 × ((value : A) → (action p).0 ≡ ok value → IsBalanced (action p).1.0)

  continue-Repairs {κ ℓ} :
      {B : Type κ} {A : Type ℓ} (r : Result A × Scan store) (next : A → Action (Scan store) B)
      → IsAhead r.1.0
      → ((value : A) → Repairs (next value))
      → IsNear (continue r next).1.0
        × ((value : B) → (continue r next).0 ≡ ok value → IsBalanced (continue r next).1.0)
  unfolding continue Repairs
  continue-Repairs (ok value, p) next one_more rest = rest value p one_more
  continue-Repairs (err e, p) next one_more rest =
      ((omega (arith, one_more), omega (arith, one_more)), λ value same. ground (arith, same))

  persisted-Repairs : (created : Bool) → Repairs (tally store (persisted store created))
  unfolding Repairs
  persisted-Repairs true p one_more =
      ((omega (arith, one_more), omega (arith, one_more)), λ _ _. omega (arith, one_more))
  persisted-Repairs false p one_more =
      ((omega (arith, one_more), omega (arith, one_more)), λ _ _. omega (arith, one_more))

  schedule_window-Accounts :
      (target : SchedulingTarget) (t : Instant) (w : CollectionWindow)
      → Accounts (schedule_window store target t w)
  unfolding schedule_window Accounts Repairs continue
  schedule_window-Accounts target t w p same =
      let counted : Scan store = (found_due store p.0, p.1) in
      continue-Repairs
        (lift store (new_batch store.texts store.new_id store.maximum_attempts target w t) counted)
        _ (omega (arith, same))
        λ batch q one_more.
          continue-Repairs (lift store (store.create_scheduled_batch batch) q) _ one_more
            λ created. persisted-Repairs created

  windows_for-Accounts :
      (target : SchedulingTarget) (trigger : WindowTrigger) (delay : Duration) (t : Instant)
      → Accounts (windows_for store target trigger delay t)
  unfolding windows_for
  windows_for-Accounts target close delay t = lift-Accounts _
  windows_for-Accounts target revision delay t =
      bind-Accounts (pure _) _ (pure-Accounts _) λ latest. pure-Accounts _
  windows_for-Accounts target unsupported delay t = pure-Accounts _

  -- What scheduleTrigger does once it has the delay.
  enabled-Accounts :
      (target : SchedulingTarget) (t : Instant) (trigger : WindowTrigger) (delay : Duration)
      (enabled : Bool)
      → Accounts (schedule_enabled store target t trigger delay enabled)
  unfolding schedule_enabled
  enabled-Accounts target t trigger delay false = pure-Accounts (ok tt)
  enabled-Accounts target t trigger delay true =
      bind-Accounts (windows_for store target trigger delay t) _
        (windows_for-Accounts target trigger delay t)
        λ windows.
          each-Accounts (schedule_window store target t) windows (schedule_window-Accounts target t)

  schedule_trigger-Accounts :
      (target : SchedulingTarget) (policy : DelayPolicy) (t : Instant) (trigger : WindowTrigger)
      → Accounts (schedule_trigger store target policy t trigger)
  unfolding schedule_trigger
  schedule_trigger-Accounts target policy t trigger =
      bind-Accounts (pure (delay_of policy trigger)) _ (pure-Accounts _)
        λ answer. enabled-Accounts target t trigger answer.0 answer.1

  tally-Accounts :
      (change : IncrementalResult → IncrementalResult)
      → ((r : IncrementalResult) → IsBalanced r → IsBalanced (change r))
      → Accounts (tally store change)
  unfolding Accounts
  tally-Accounts change keeps p same = (near (change p.0) (keeps p.0 same), λ _ _. keeps p.0 same)

  schedule_target-Accounts :
      (t : Instant) (target : SchedulingTarget) → Accounts (schedule_target store t target)
  unfolding schedule_target
  schedule_target-Accounts t target =
      bind-Accounts (tally store (scanned store)) _ (tally-Accounts (scanned store) λ r same. same)
        λ _. bind-Accounts (pure _) _ (pure-Accounts _) λ _.
          bind-Accounts (pure _) _ (pure-Accounts _) λ policy.
            each-Accounts (schedule_trigger store target policy t) (close ∷ revision ∷ [])
              (schedule_trigger-Accounts target policy t)

  page_loop-Accounts :
      (n : ℕ) (after : Option Uuid) (t : Instant) → Accounts (page_loop store n after t)
  unfolding page_loop
  page_loop-Accounts zero after t = pure-Accounts (ok false)
  page_loop-Accounts (suc n) after t =
      bind-Accounts (lift store (store.list_scheduling_targets after store.page_size t)) _
        (lift-Accounts _)
        λ page. bind-Accounts (pure _) _ (pure-Accounts _) λ _.
          bind-Accounts (each (schedule_target store t) page.items) _
            (each-Accounts (schedule_target store t) page.items (schedule_target-Accounts t))
            λ _.
              elim page.next_after_id
                as (λ next.
                  Accounts (follow_page store (page_loop store n) after t page.items next)) [
                    | none ↦ pure-Accounts (ok true)
                    | some next ↦
                        bind-Accounts (pure _) _ (pure-Accounts _)
                          λ _. page_loop-Accounts n (some next) t
                  ]

  run_once-Accounts : (pages : ℕ) → Accounts (run_once store pages)
  unfolding run_once
  run_once-Accounts pages = bind-Accounts (lift store store.now) _ (lift-Accounts store.now) λ t.
      bind-Accounts (pure _) _ (pure-Accounts _) λ _.
        bind-Accounts (lift store (store.recover_expired_tasks t)) _
          (lift-Accounts (store.recover_expired_tasks t))
          λ recovered.
            bind-Accounts (tally store (λ r. record r { recovered_tasks = recovered })) _
              (tally-Accounts (λ r. record r { recovered_tasks = recovered }) λ r same. same)
              λ _. page_loop-Accounts pages none t

  -- A scan of any number of pages, over any store, accounts for every window that it found due: where it returns
  -- no error, the due windows are as many as the created and the existing runs together; where it stops with
  -- an error, at most the last window is missing among them.
  pub run_once-IsNear :
      (pages : ℕ) (s : store.State)
      → let (answer, (counts, _)) = run_once store pages (no_result, s) in
        IsNear counts × ((ended : Bool) → answer ≡ ok ended → IsBalanced counts)
  unfolding Accounts
  run_once-IsNear pages s = run_once-Accounts pages (no_result, s) refl
