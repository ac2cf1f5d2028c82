-- ===== src/Store/Backfills/Exclusive.antt =====
-- One range has at most one active backfill.
use xr_trading.Base.{
  Bool, true, false, ◌≡◌, refl, ap, ◌⊎◌, inl, inr, Option, none, some, is_some, Option-cases,
  Bool-cases, List, [], ◌∷◌, ◌++◌, ◌==◌, All, arith,
}
use mathlib.Core.Path.{subst}
use xr_trading.Domain.Text.{same_text}
use xr_trading.Domain.Errors.{Result, ok, err, sentinel, conflict, backfill_already_running}
use xr_trading.Domain.Task.{
  Uuid, pending, running, retry_wait, same_status, same_status-same, IngestionTask,
}
use xr_trading.Scheduler.Batches.{IngestionRun, Texts}
use xr_trading.Store.Database.{select_one}
use xr_trading.Store.Schedules.{ScheduleTables, has_key}
use xr_trading.Store.Backfills.{
  is_backfill, is_active, validate_backfill_run_and_task, is_equivalent_backfill, insert_backfill,
  write_backfill, create_backfill_run_with_task,
}

-- An element of a list, with those on either side.
pub record IsIn {ℓ} {A : Type ℓ} (x : A) (xs : List A) : Type ℓ where
  pub before : List A
  pub after : List A
  pub place : before ++ x ∷ after ≡ xs

first_in {ℓ} : {A : Type ℓ} (x : A) (xs : List A) → IsIn x (x ∷ xs)
first_in x xs = record { before = []; after = xs; place = refl }

later_in {ℓ} : {A : Type ℓ} {x : A} {xs : List A} (y : A) → IsIn x xs → IsIn x (y ∷ xs)
later_in y i = record { before = y ∷ i.before; after = i.after; place = ap (λ l. y ∷ l) i.place }

selected {ℓ} :
    {A : Type ℓ} (p : A → Bool) (xs : List A) {x : A}
    → select_one p xs ≡ some x
    → IsIn x xs × (p x ≡ true)
unfolding select_one
selected p [] h = ground (arith, h)
selected p (y ∷ ys) {x} h = elim (Bool-cases (p y)) [
  | inl hit ↦
      let same : y ≡ x = ground (arith, h, hit) in
      (subst (λ z. IsIn z (y ∷ ys)) same (first_in y ys), subst (λ z. p z ≡ true) same hit)
  | inr miss ↦
      let (i, fits) = selected p ys {x = x} (ground (arith, h, miss)) in (later_in y i, fits)
]

unselected {ℓ} :
    {A : Type ℓ} (p : A → Bool) (xs : List A) → select_one p xs ≡ none → All (λ x. p x ≡ false) xs
unfolding select_one
unselected p [] h = tt
unselected p (y ∷ ys) h = elim (Bool-cases (p y)) [
  | inl hit ↦ ground (arith, h, hit)
  | inr miss ↦ (miss, unselected p ys (ground (arith, h, miss)))
]

find_in {ℓ} :
    {A : Type ℓ} (p : A → Bool) (front back : List A) (x : A)
    → p x ≡ true
    → is_some (select_one p (front ++ x ∷ back)) ≡ true
unfolding select_one
find_in p [] back x fits = ground (arith, fits)
find_in p (y ∷ ys) back x fits = ground (arith, find_in p ys back x fits)

-- A task that is pending, running or waiting for a retry, for the subscription and the range of the other one, in
-- a run of the type 'backfill'.
pub record IsActiveBackfill (runs : List IngestionRun) (wanted t : IngestionTask) : Type 0 where
  pub subscription : t.subscription_id ≡ wanted.subscription_id
  pub range : (t.range_start ≡ wanted.range_start) × (t.range_end ≡ wanted.range_end)
  pub run : IngestionRun
  pub stored : IsIn run runs
  pub own : run.id ≡ t.run_id
  pub backfill : same_text run.run_type "backfill" ≡ true
  pub active : (t.status ≡ pending) ⊎ (t.status ≡ running) ⊎ (t.status ≡ retry_wait)

active-cases :
    (t : IngestionTask)
    → is_active t ≡ true
    → (t.status ≡ pending) ⊎ (t.status ≡ running) ⊎ (t.status ≡ retry_wait)
active-cases t h = elim (Bool-cases (same_status t.status pending)) [
  | inl a ↦ inl (same_status-same t.status pending a)
  | inr x ↦ elim (Bool-cases (same_status t.status running)) [
    | inl b ↦ inr (inl (same_status-same t.status running b))
    | inr y ↦
        let c : same_status t.status retry_wait ≡ true = ground (arith, h, x, y) in
        inr (inr (same_status-same t.status retry_wait c))
  ]
]

cases-active :
    (t : IngestionTask)
    → (t.status ≡ pending) ⊎ (t.status ≡ running) ⊎ (t.status ≡ retry_wait)
    → is_active t ≡ true
cases-active t (inl a) = ground (arith, a)
cases-active t (inr (inl b)) = ground (arith, b)
cases-active t (inr (inr c)) = ground (arith, c)

equivalent-IsActiveBackfill :
    (runs : List IngestionRun) (wanted t : IngestionTask)
    → is_equivalent_backfill runs wanted t ≡ true
    → IsActiveBackfill runs wanted t
unfolding is_equivalent_backfill
equivalent-IsActiveBackfill runs wanted t h =
    elim (Option-cases (select_one (is_backfill t.run_id) runs)) [
      | inl missing ↦ ground (arith, h, missing)
      | inr (r, found) ↦
          let (i, fits) = selected (is_backfill t.run_id) runs found in
          record {
            subscription = ground (arith, h);
            range = (ground (arith, h), ground (arith, h));
            run = r;
            stored = i;
            own = ground (arith, fits);
            backfill = ground (arith, fits);
            active = active-cases t (ground (arith, h));
          }
    ]

IsActiveBackfill-equivalent :
    (runs : List IngestionRun) (wanted t : IngestionTask)
    → is_equivalent_backfill runs wanted t ≡ false
    → ¬ IsActiveBackfill runs wanted t
unfolding is_equivalent_backfill
IsActiveBackfill-equivalent runs wanted t h a =
    let fits : is_backfill t.run_id a.run ≡ true = ground (arith, a.own, a.backfill) in
    let found =
      subst (λ l. is_some (select_one (is_backfill t.run_id) l) ≡ true) a.stored.place
        (find_in (is_backfill t.run_id) a.stored.before a.stored.after a.run fits) in
    ground (arith, h, found, a.subscription, a.range.0, a.range.1, cases-active t a.active)

absent :
    (runs : List IngestionRun) (wanted : IngestionTask) (ts : List IngestionTask)
    → All (λ t. is_equivalent_backfill runs wanted t ≡ false) ts
    → All (λ t. ¬ IsActiveBackfill runs wanted t) ts
absent runs wanted [] h = tt
absent runs wanted (t ∷ ts) h =
    (IsActiveBackfill-equivalent runs wanted t h.0, absent runs wanted ts h.1)

-- A run with the key or the ID, or a task with the ID, is stored.
pub data IsDuplicate (r : IngestionRun) (t : IngestionTask) (db : ScheduleTables) : Type 0 where
  same_run_key :
      (s : IngestionRun) → IsIn s db.runs → has_key r.run_key s ≡ true → IsDuplicate r t db
  same_run_id : (s : IngestionRun) → IsIn s db.runs → s.id ≡ r.id → IsDuplicate r t db
  same_task_id : (u : IngestionTask) → IsIn u db.tasks → u.id ≡ t.id → IsDuplicate r t db

inserts :
    (r : IngestionRun) (t : IngestionTask) (db : ScheduleTables)
    → ((insert_backfill r t db ≡ err (sentinel conflict)) × IsDuplicate r t db)
      ⊎ (insert_backfill r t db ≡ ok (record { runs = r ∷ db.runs; tasks = t ∷ db.tasks }))
unfolding insert_backfill
inserts r t db = elim (Option-cases (select_one (has_key r.run_key) db.runs)) [
  | inr (s, taken) ↦
      let (i, fits) = selected (has_key r.run_key) db.runs taken in
      inl (rw (insert_backfill, taken) refl, same_run_key s i fits)
  | inl free ↦ elim (Option-cases (select_one (λ s. s.id == r.id) db.runs)) [
    | inr (s, taken) ↦
        let (i, fits) = selected (λ s. s.id == r.id) db.runs taken in
        inl (rw (insert_backfill, free, taken) refl, same_run_id s i (ground (arith, fits)))
    | inl new ↦ elim (Option-cases (select_one (λ u. u.id == t.id) db.tasks)) [
      | inr (u, taken) ↦
          let (i, fits) = selected (λ u. u.id == t.id) db.tasks taken in
          inl (rw (insert_backfill, free, new, taken) refl, same_task_id u i (ground (arith, fits)))
      | inl first ↦ inr (rw (insert_backfill, free, new, first) refl)
    ]
  ]
]

-- What CreateBackfillRunWithTask returns for a valid run and task, and the tables that it leaves.
pub data Outcome (r : IngestionRun) (t : IngestionTask) (db : ScheduleTables)
    : Result (Unit {0}) × ScheduleTables → Type 0 where
  already_running :
      (u : IngestionTask)
      → IsIn u db.tasks
      → IsActiveBackfill db.runs t u
      → Outcome r t db (err (sentinel backfill_already_running), db)
  duplicate :
      All (λ u. ¬ IsActiveBackfill db.runs t u) db.tasks
      → IsDuplicate r t db
      → Outcome r t db (err (sentinel conflict), db)
  created :
      All (λ u. ¬ IsActiveBackfill db.runs t u) db.tasks
      → Outcome r t db (ok tt, record { runs = r ∷ db.runs; tasks = t ∷ db.tasks })

writes :
    (r : IngestionRun) (t : IngestionTask) (db : ScheduleTables)
    → Outcome r t db (write_backfill r t db)
unfolding write_backfill
writes r t db = elim (Option-cases (select_one (is_equivalent_backfill db.runs t) db.tasks)) [
  | inr (u, found) ↦
      let (i, fits) = selected (is_equivalent_backfill db.runs t) db.tasks found in
      rw (write_backfill, found)
        (already_running u i (equivalent-IsActiveBackfill db.runs t u fits))
  | inl none_active ↦
      let alone =
        absent db.runs t db.tasks
          (unselected (is_equivalent_backfill db.runs t) db.tasks none_active) in
      elim (inserts r t db) [
        | inl (bad, twice) ↦ rw (write_backfill, none_active, bad) (duplicate alone twice)
        | inr good ↦ rw (write_backfill, none_active, good) (created alone)
      ]
]

-- For a valid run and task of a subscription that is enabled, CreateBackfillRunWithTask returns
-- ErrBackfillAlreadyRunning and writes nothing if a backfill of the same subscription and range is stored that is
-- pending, running or waiting for a retry. Otherwise it adds the run and the task; it fails with a conflict, without
-- a write, only when the key or an ID exists.
pub create_backfill_run_with_task-Outcome :
    (texts : Texts) (enabled : Uuid → Option Bool) (r : IngestionRun) (t : IngestionTask)
    (db : ScheduleTables)
    → validate_backfill_run_and_task texts r t ≡ ok tt
    → enabled t.subscription_id ≡ some true
    → Outcome r t db (create_backfill_run_with_task texts enabled r t db)
unfolding create_backfill_run_with_task
create_backfill_run_with_task-Outcome texts enabled r t db valid on =
    rw (create_backfill_run_with_task, valid, on) (writes r t db)
