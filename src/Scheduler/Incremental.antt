-- ===== src/Scheduler/Incremental.antt =====
-- IncrementalScheduler of scheduler/incremental.go, with catchUpWindows of scheduler/catchup.go: one scan over
-- the targets that the store lists. The counts of the result are kept in the state, so that they survive an error.
pub mod Counts
mod Samples
use xr_trading.Base.{
  ℕ, zero, suc, ◌+◌, Bool, true, false, not, ◌&&◌, ◌||◌, Option, none, some, List, [], ◌∷◌, ltb,
  ◌==◌, ℤ, pos, negsuc, ltz, is_some, if◌then◌else◌,
}
use xr_trading.Domain.Errors.{Result, ok, err, sentinel, refuse_if, invalid_data, internal}
use xr_trading.Domain.Time.{Instant, Duration, add, is_zero}
use xr_trading.Domain.Task.{Uuid, IngestionCheckpoint}
use xr_trading.Ingestion.Action.{Action, ◌>>=◌, ◌>>◌, pure}
use xr_trading.MarketTime.Date.{MarketDate}
use xr_trading.MarketTime.Calendar.{TradingCalendar}
use xr_trading.Scheduler.Window.{
  CollectionWindow, WindowTrigger, close, revision, unsupported, DelayPolicy, new_delay_policy,
  delay_of,
}
use xr_trading.Scheduler.CatchUp.{close_window, missing_window_groups, all_windows_present}
use xr_trading.Scheduler.Sessions.{ScheduledUsBar}
use xr_trading.Scheduler.Targets.{SchedulingTarget, validate_target, latest_window}
use xr_trading.Scheduler.Batches.{Texts, ScheduledBatch, new_batch}
use xr_trading.Scheduler.UsCatchUp.{expected_close_windows, bar_for_open, validate_checkpoint}

pub record IncrementalConfig : Type 0 where
  pub page_size : ℤ
  pub maximum_attempts : ℤ
  pub maximum_catch_up_bars : ℤ
  pub maximum_catch_up_runs : ℤ

abbrev or_else : ℤ → ℤ → ℤ
or_else (pos zero) default = default
or_else n default = n

abbrev is_outside : ℤ → ℤ → Bool
is_outside n maximum = ltz n (pos 1) || ltz maximum n

-- The settings that NewIncrementalScheduler keeps; its dependencies are parameters of the model.
unfoldable pub scheduler_config : IncrementalConfig → Result IncrementalConfig
scheduler_config c =
    let filled : IncrementalConfig = record {
      page_size = or_else c.page_size (pos 50);
      maximum_attempts = or_else c.maximum_attempts (pos 5);
      maximum_catch_up_bars = or_else c.maximum_catch_up_bars (pos 500);
      maximum_catch_up_runs = or_else c.maximum_catch_up_runs (pos 20);
    } in
    if is_outside filled.page_size (pos 100)
      || ltz filled.maximum_attempts (pos 1)
      || is_outside filled.maximum_catch_up_bars (pos 10000)
      || is_outside filled.maximum_catch_up_runs (pos 100)
    then err (sentinel internal)
    else ok filled

pub record IncrementalResult : Type 0 where
  pub scanned_subscriptions : ℕ
  pub due_windows : ℕ
  pub created_runs : ℕ
  pub existing_runs : ℕ
  pub recovered_tasks : ℕ

abbrev pub no_result : IncrementalResult
no_result = record {
  scanned_subscriptions = 0;
  due_windows = 0;
  created_runs = 0;
  existing_runs = 0;
  recovered_tasks = 0;
}

pub record SchedulingTargetPage : Type 0 where
  pub items : List SchedulingTarget
  pub next_after_id : Option Uuid

-- IncrementalStore with the clock and the source of IDs, and the limits, which are positive.
pub record IncrementalStore : Type 1 where
  pub State : Type 0
  pub calendar : TradingCalendar
  pub utc_date : Instant → MarketDate
  pub texts : Texts
  pub page_size : ℕ
  pub maximum_attempts : ℕ
  pub maximum_catch_up_bars : ℕ
  pub maximum_catch_up_runs : ℕ
  pub now : Action State Instant
  pub new_id : Action State Uuid
  pub list_scheduling_targets : Option Uuid → ℕ → Instant → Action State SchedulingTargetPage
  pub load_scheduling_checkpoint : Uuid → Action State (Option IngestionCheckpoint)
  pub list_closed_bar_open_times :
      SchedulingTarget → Instant → Instant → Action State (List Instant)
  pub create_scheduled_batch : ScheduledBatch → Action State Bool
  pub recover_expired_tasks : Instant → Action State ℕ

-- The end of the last of some windows.
abbrev last_end : CollectionWindow → List CollectionWindow → Instant
last_end w [] = w.range_end
last_end w (v ∷ vs) = last_end v vs

-- `for ... { if err := ...; err != nil { return err } }`
unfoldable pub each {ℓ} :
    {S : Type 0} {A : Type ℓ} → (A → Action S (Unit {0})) → List A → Action S (Unit {0})
each act [] = pure (ok tt)
each act (x ∷ xs) = act x >> each act xs

-- The ID of the last target is not the next cursor.
abbrev misses_last : List SchedulingTarget → Uuid → Bool
misses_last [] next = false
misses_last (t ∷ []) next = not (t.subscription.id == next)
misses_last (_ ∷ u ∷ ts) next = misses_last (u ∷ ts) next

abbrev is_cursor : Option Uuid → Uuid → Bool
is_cursor none next = false
is_cursor (some id) next = id == next

abbrev has_none : List SchedulingTarget → Bool
has_none [] = true
has_none (_ ∷ _) = false

module _ (store : IncrementalStore) where
  open store use {
    State, calendar, utc_date, texts, page_size, maximum_attempts, maximum_catch_up_bars,
    maximum_catch_up_runs, now, new_id, list_scheduling_targets, load_scheduling_checkpoint,
    list_closed_bar_open_times, create_scheduled_batch, recover_expired_tasks,
  }

  -- Whether every window of the prefix is stored; an empty prefix is none.
  unfoldable pub is_stored : SchedulingTarget → List CollectionWindow → Action State Bool
  unfolding all_windows_present
  is_stored target [] = pure (ok false)
  is_stored target (w ∷ ws) = do
    existing ← list_closed_bar_open_times target w.range_start (last_end w ws)
    pure (ok (all_windows_present (w ∷ ws) existing))

  -- The boundary that a checkpoint's last bar gives.
  unfoldable pub checkpoint_boundary :
      SchedulingTarget → CollectionWindow → Duration → Option Instant → Action State Instant
  unfolding is_stored expected_close_windows bar_for_open
  checkpoint_boundary target latest delay none = pure (ok target.subscription.updated_at)
  checkpoint_boundary target latest delay (some open_at) = do
    bar ← pure (bar_for_open calendar utc_date target open_at)
    prefix ← pure (
        expected_close_windows calendar target target.subscription.updated_at
          (close_window latest.interval delay bar.opens_at bar.closes_at) delay)
    verified ← is_stored target prefix
    pure (ok (if verified then bar.closes_at else target.subscription.updated_at))

  unfoldable pub boundary_from :
      SchedulingTarget
      → CollectionWindow
      → Duration
      → Option IngestionCheckpoint
      → Action State Instant
  unfolding checkpoint_boundary validate_checkpoint
  boundary_from target latest delay none = pure (ok target.subscription.updated_at)
  boundary_from target latest delay (some c) = do
    pure (validate_checkpoint target.subscription.id c)
    checkpoint_boundary target latest delay c.last_closed_open_time

  -- The groups of the candidates that are not stored.
  unfoldable pub missing_of :
      SchedulingTarget → List CollectionWindow → Action State (List CollectionWindow)
  unfolding missing_window_groups
  missing_of target [] = pure (ok [])
  missing_of target (w ∷ ws) = do
    existing ← list_closed_bar_open_times target w.range_start (last_end w ws)
    pure (ok (missing_window_groups (w ∷ ws) existing maximum_catch_up_bars maximum_catch_up_runs))

  -- From the latest window on, if it ends after the subscription's last update.
  unfoldable pub catch_up_to :
      SchedulingTarget → Duration → Option CollectionWindow → Action State (List CollectionWindow)
  unfolding boundary_from missing_of expected_close_windows
  catch_up_to target delay none = pure (ok [])
  catch_up_to target delay (some latest) =
      elim (ltb target.subscription.updated_at latest.range_end) [
        | false ↦ pure (ok [])
        | true ↦ load_scheduling_checkpoint target.subscription.id >>= λ checkpoint.
            boundary_from target latest delay checkpoint >>= λ boundary.
            pure (expected_close_windows calendar target boundary latest delay) >>= λ candidates.
            missing_of target candidates
      ]

  -- catchUpWindows
  unfoldable pub catch_up_windows :
      SchedulingTarget → Duration → Instant → Action State (List CollectionWindow)
  unfolding catch_up_to latest_window
  catch_up_windows target delay observed_at = do
    latest ← pure (latest_window calendar target close delay observed_at)
    catch_up_to target delay latest

  -- The state of a scan: the counts so far, and the state of the store.
  abbrev pub Scan : Type 0
  Scan = IncrementalResult × State

  abbrev pub lift {ℓ} : {A : Type ℓ} → Action State A → Action Scan A
  lift action (counts, s) = let (answer, s') = action s in (answer, (counts, s'))

  abbrev pub tally : (IncrementalResult → IncrementalResult) → Action Scan (Unit {0})
  tally change (counts, s) = (ok tt, (change counts, s))

  abbrev pub scanned : IncrementalResult → IncrementalResult
  scanned r = record r { scanned_subscriptions = r.scanned_subscriptions + 1 }

  abbrev pub found_due : IncrementalResult → IncrementalResult
  found_due r = record r { due_windows = r.due_windows + 1 }

  abbrev pub persisted : Bool → IncrementalResult → IncrementalResult
  persisted true r = record r { created_runs = r.created_runs + 1 }
  persisted false r = record r { existing_runs = r.existing_runs + 1 }

  -- The innermost loop's body.
  unfoldable pub schedule_window :
      SchedulingTarget → Instant → CollectionWindow → Action Scan (Unit {0})
  unfolding new_batch
  schedule_window target observed_at window = do
    tally found_due
    batch ← lift (new_batch texts new_id maximum_attempts target window observed_at)
    created ← lift (create_scheduled_batch batch)
    tally (persisted created)

  -- The latest window of a revision, if it ends after the subscription's last update.
  abbrev updated_window : SchedulingTarget → Option CollectionWindow → List CollectionWindow
  updated_window target none = []
  updated_window target (some w) =
      if ltb target.subscription.updated_at w.range_end then w ∷ [] else []

  unfoldable pub windows_for :
      SchedulingTarget → WindowTrigger → Duration → Instant → Action Scan (List CollectionWindow)
  unfolding catch_up_windows latest_window
  windows_for target close delay observed_at = lift (catch_up_windows target delay observed_at)
  windows_for target revision delay observed_at = do
    latest ← pure (latest_window calendar target revision delay observed_at)
    pure (ok (updated_window target latest))
  windows_for target unsupported delay observed_at = pure (ok [])

  -- A trigger with its delay, if it is enabled.
  unfoldable pub schedule_enabled :
      SchedulingTarget → Instant → WindowTrigger → Duration → Bool → Action Scan (Unit {0})
  unfolding schedule_window windows_for each
  schedule_enabled target observed_at trigger delay false = pure (ok tt)
  schedule_enabled target observed_at trigger delay true = do
    windows ← windows_for target trigger delay observed_at
    each (schedule_window target observed_at) windows

  unfoldable pub schedule_trigger :
      SchedulingTarget → DelayPolicy → Instant → WindowTrigger → Action Scan (Unit {0})
  unfolding schedule_enabled delay_of
  schedule_trigger target policy observed_at trigger = do
    answer ← pure (delay_of policy trigger)
    schedule_enabled target observed_at trigger answer.0 answer.1

  unfoldable pub schedule_target : Instant → SchedulingTarget → Action Scan (Unit {0})
  unfolding schedule_trigger validate_target new_delay_policy
  schedule_target observed_at target = do
    tally scanned
    pure (validate_target target)
    policy ← pure (
        new_delay_policy target.subscription.close_delay_seconds
          target.subscription.revision_delay_seconds)
    each (schedule_trigger target policy observed_at) (close ∷ revision ∷ [])

  -- Behind a page: the end, or the next page from its cursor on.
  unfoldable pub follow_page :
      (Option Uuid → Instant → Action Scan Bool)
      → Option Uuid
      → Instant
      → List SchedulingTarget
      → Option Uuid
      → Action Scan Bool
  follow_page loop after observed_at items none = pure (ok true)
  follow_page loop after observed_at items (some next) = do
    pure (refuse_if (is_cursor after next || misses_last items next) invalid_data)
    loop (some next) observed_at

  -- The loop over the pages, with a number of rounds: `false` is a scan that has not ended by then.
  unfoldable pub page_loop : ℕ → Option Uuid → Instant → Action Scan Bool
  unfolding schedule_target follow_page
  page_loop zero after observed_at = pure (ok false)
  page_loop (suc n) after observed_at = do
    page ← lift (list_scheduling_targets after page_size observed_at)
    pure (refuse_if (has_none page.items && is_some page.next_after_id) invalid_data)
    each (schedule_target observed_at) page.items
    follow_page (page_loop n) after observed_at page.items page.next_after_id

  -- IncrementalScheduler.RunOnce, of so many pages.
  unfoldable pub run_once : ℕ → Action Scan Bool
  unfolding page_loop
  run_once pages = do
    observed_at ← lift now
    pure (refuse_if (is_zero observed_at) invalid_data)
    recovered ← lift (recover_expired_tasks observed_at)
    tally (λ r. record r { recovered_tasks = recovered })
    page_loop pages none observed_at
