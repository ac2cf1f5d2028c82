-- ===== src/Store/Schedules/Idempotent.antt =====
-- A window that has been scheduled is not scheduled again.
use xr_trading.Base.{
  ◌%◌, ℕ, Bool, true, false, ◌≡◌, refl, sym, ◌∙◌, inl, inr, Option, Option-cases, Bool-cases, [],
  ◌∷◌, ◌==◌, arith,
}
use xr_trading.Domain.Text.{same_codes-same}
use xr_trading.Domain.Errors.{Result-cases, ok, bind-ok, ◌>>◌}
use xr_trading.Domain.Time.{Instant, stored_time}
use xr_trading.Domain.Task.{Uuid}
use xr_trading.Scheduler.Window.{CollectionWindow}
use xr_trading.Scheduler.Targets.{SchedulingTarget}
use xr_trading.Scheduler.Batches.{
  Texts, IngestionRun, ScheduledBatch, stable_run_key, validate_batch, batch_for,
}
use xr_trading.Scheduler.Batches.Accepted.{run_type_for-same}
use xr_trading.Store.Database.{select_one, select_where}
use xr_trading.Store.Schedules.{
  stored_run, stored_task, ScheduleTables, has_key, has_run_id, is_task_of, enabled_row,
  is_equivalent, reuse, insert_batch, write_batch, create_scheduled_batch,
}

-- A key that exists never leads to a new run.
reuse-false :
    (r : IngestionRun) (b : ScheduledBatch) (db : ScheduleTables) → reuse r b db ≡ ok true → ⊥
unfolding reuse
reuse-false r b db h =
    let (equivalent, _, made) =
      bind-ok (is_equivalent r (select_where (is_task_of r.id) db.tasks) b) _ h in
    elim (Bool-cases equivalent) [
      | inl same ↦ ground (arith, made, same)
      | inr other ↦ ground (arith, made, other)
    ]

-- A batch that was inserted stands at the head of both tables.
insert_batch-made :
    (b : ScheduledBatch) (db : ScheduleTables) {made : ScheduleTables}
    → insert_batch b db ≡ ok made
    → record { runs = stored_run b.run ∷ db.runs; tasks = stored_task b.task ∷ db.tasks } ≡ made
unfolding insert_batch
insert_batch-made b db h = elim (Option-cases (select_one (has_run_id b.run.id) db.runs)) [
  | inr (r, taken) ↦ ground (arith, h, taken)
  | inl free ↦ elim (Option-cases (select_one (λ t. t.id == b.task.id) db.tasks)) [
    | inr (t, taken) ↦ ground (arith, h, free, taken)
    | inl new ↦ ground (arith, h, free, new)
  ]
]

inserted :
    (b : ScheduledBatch) (db db' : ScheduleTables)
    → write_batch b db ≡ (ok true, db')
    → record { runs = stored_run b.run ∷ db.runs; tasks = stored_task b.task ∷ db.tasks } ≡ db'
unfolding write_batch
inserted b db db' h = elim (Option-cases (select_one (has_key b.run.run_key) db.runs)) [
  | inr (r, taken) ↦
      let no : reuse r b db ≡ ok true = ground (arith, h, taken) in elim (reuse-false r b db no) [ ]
  | inl free ↦ elim (Result-cases (insert_batch b db)) [
    | inl (e, bad) ↦ ground (arith, h, free, bad)
    | inr (made, good) ↦
        let same : made ≡ db' = ground (arith, h, free, good) in insert_batch-made b db good ∙ same
  ]
]

created :
    (texts : Texts) (enabled : Uuid → Option Bool) (b : ScheduledBatch) (db db' : ScheduleTables)
    → create_scheduled_batch texts enabled b db ≡ (ok true, db')
    → (enabled_row (enabled b.task.subscription_id) ≡ ok tt)
      × (record { runs = stored_run b.run ∷ db.runs; tasks = stored_task b.task ∷ db.tasks } ≡ db')
unfolding create_scheduled_batch
created texts enabled b db db' h =
    elim (Result-cases (validate_batch texts b >> enabled_row (enabled b.task.subscription_id))) [
      | inl (e, bad) ↦ ground (arith, h, bad)
      | inr (_, good) ↦
          let (_, _, on) = bind-ok (validate_batch texts b) _ good in
          (on, inserted b db db' (ground (arith, h, good)))
    ]

-- A time of whole microseconds.
abbrev pub IsWhole : Instant → Type 0
IsWhole t = t % 1000 ≡ 0

stored-whole : (t : Instant) → IsWhole t → (stored_time t == t) ≡ true
stored-whole t h = let same : stored_time t ≡ t = omega (arith, h) in ground (arith, same)

equals_itself : (n : ℕ) → (n == n) ≡ true
equals_itself n = ground arith

module _ (texts : Texts) (enabled : Uuid → Option Bool) (target : SchedulingTarget)
    (w : CollectionWindow) where
  -- Behind the insert of a window's batch, another batch of the window finds it.
  rewrite_batch :
      (n m : ℕ) (t u : Instant) (run_id task_id run_id' task_id' : Uuid) (db : ScheduleTables)
      → select_where (is_task_of run_id) db.tasks ≡ []
      → IsWhole w.eligible_at
      → IsWhole w.range_start
      → IsWhole w.range_end
      → let b = batch_for texts n target w t run_id task_id in
        let db' : ScheduleTables = record {
          runs = stored_run b.run ∷ db.runs;
          tasks = stored_task b.task ∷ db.tasks;
        } in
        write_batch (batch_for texts m target w u run_id' task_id') db' ≡ (ok false, db')
  unfolding write_batch reuse is_equivalent batch_for select_one select_where
  rewrite_batch n m t u run_id task_id run_id' task_id' db alone due start end =
      rw
        (
          write_batch,
          reuse,
          is_equivalent,
          select_one,
          select_where,
          same_codes-same
              (stable_run_key texts w.trigger target.subscription.id w.range_start w.range_end),
          equals_itself run_id,
          alone,
          run_type_for-same w.trigger,
          stored-whole w.eligible_at due,
          equals_itself target.subscription.id,
          stored-whole w.range_start start,
          stored-whole w.range_end end,
        )
        refl

  -- Once CreateScheduledBatch has created the run and the task of a window whose times are whole microseconds, a call
  -- right after it for that window, with other IDs, at another time and by whichever process, that passes Validate
  -- returns created=false and writes nothing, as long as its subscription is as it was. No task may have named
  -- the run before it existed.
  pub create_scheduled_batch-once :
      (n m : ℕ) (t u : Instant) (run_id task_id run_id' task_id' : Uuid) (db db' : ScheduleTables)
      → select_where (is_task_of run_id) db.tasks ≡ []
      → IsWhole w.eligible_at
      → IsWhole w.range_start
      → IsWhole w.range_end
      → create_scheduled_batch texts enabled (batch_for texts n target w t run_id task_id) db
        ≡ (ok true, db')
      → validate_batch texts (batch_for texts m target w u run_id' task_id') ≡ ok tt
      → create_scheduled_batch texts enabled (batch_for texts m target w u run_id' task_id') db'
        ≡ (ok false, db')
  unfolding create_scheduled_batch batch_for
  create_scheduled_batch-once n m t u run_id task_id run_id' task_id' db db' alone due start end
        first valid =
      let (on, same) =
        created texts enabled (batch_for texts n target w t run_id task_id) db db' first in
      rw (create_scheduled_batch, valid, on)
        (rw (sym same)
          (rewrite_batch n m t u run_id task_id run_id' task_id' db alone due start end))
