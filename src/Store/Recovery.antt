-- ===== src/Store/Recovery.antt =====
-- RecoverExpiredTasks leaves no expired lease behind and books each one as a failure.
use xr_trading.Base.{
  ◌<◌, ◌≤◌, ◌⊎◌, inl, inr, none, some, true, Bool-cases, Option-cases, ℕ, ◌+◌, ◌≡◌, ◌≢◌, refl, Bool,
  false, List, [], ◌∷◌, All, arith, ◌==◌, length,
}
use xr_trading.Domain.Errors.{ok}
use xr_trading.Domain.Time.{Instant, zero_time}
use xr_trading.Domain.Task.{Uuid, running, pending, failed, IngestionTask, IngestionCheckpoint}
use xr_trading.Store.Database.{Database, update_where, count_where, select_where}
use xr_trading.Store.Checkpoints.{upsert, record_failures}
use xr_trading.Store.Queue.{
  is_expired, recovered, bump, failure_counts, record_all_failures, recover_expired_tasks,
}
use xr_trading.Store.Rows.{All-updated, always}

-- All failures that the checkpoints count since the last successes.
unfoldable pub total_failures : List IngestionCheckpoint → ℕ
total_failures [] = 0
total_failures (c ∷ cs) = c.consecutive_failures + total_failures cs

sum : List (Uuid × ℕ) → ℕ
sum [] = 0
sum ((id, n) ∷ counts) = n + sum counts

total-record_failures :
    (id : Uuid) (now : Instant) (n : ℕ) (cs : List IngestionCheckpoint)
    → total_failures (record_failures id now n cs) ≡ total_failures cs + n
unfolding total_failures record_failures upsert
total-record_failures id now n [] = omega arith
total-record_failures id now n (c ∷ cs) = ground (arith, total-record_failures id now n cs)

total-record_all :
    (now : Instant) (counts : List (Uuid × ℕ)) (db : Database)
    → total_failures (record_all_failures now counts db).checkpoints
      ≡ total_failures db.checkpoints + sum counts
unfolding record_all_failures sum
total-record_all now [] db = omega arith
total-record_all now ((id, n) ∷ counts) db =
    let rest =
      total-record_all now counts
        (record db { checkpoints = record_failures id now n db.checkpoints }) in
    omega (arith, rest, total-record_failures id now n db.checkpoints)

sum-bump : (id : Uuid) (counts : List (Uuid × ℕ)) → sum (bump id counts) ≡ sum counts + 1
unfolding sum bump
sum-bump id [] = refl
sum-bump id ((other, n) ∷ counts) = ground (arith, sum-bump id counts)

sum-failure_counts : (ts : List IngestionTask) → sum (failure_counts ts) ≡ length ts
unfolding sum failure_counts
sum-failure_counts [] = refl
sum-failure_counts (t ∷ ts) =
    omega (arith, sum-bump t.subscription_id (failure_counts ts), sum-failure_counts ts)

length-select_where {ℓ} :
    {A : Type ℓ} (p : A → Bool) (xs : List A) → length (select_where p xs) ≡ count_where p xs
unfolding select_where count_where
length-select_where p [] = refl
length-select_where p (x ∷ xs) = ground (arith, length-select_where p xs)

record_all-tasks :
    (now : Instant) (counts : List (Uuid × ℕ)) (db : Database)
    → (record_all_failures now counts db).tasks ≡ db.tasks
unfolding record_all_failures
record_all-tasks now [] db = refl
record_all-tasks now ((id, n) ∷ counts) db = record_all-tasks now counts _

recovered_over :
    (skip : Uuid → Bool) (now : Instant) (t : IngestionTask)
    → is_expired skip now (recovered now t) ≡ false
unfolding is_expired
recovered_over skip now t = ground arith

-- A running task with a lease that ended before the time, which no other transaction has locked.
pub record IsLapsed (skip : Uuid → Bool) (now : Instant) (t : IngestionTask) : Type 0 where
  pub running_task : t.status ≡ running
  pub until : Instant
  pub lease : t.locked_until ≡ some until
  pub past : until < now
  pub free : skip t.id ≡ false

expired-IsLapsed :
    (skip : Uuid → Bool) (now : Instant) (t : IngestionTask)
    → is_expired skip now t ≡ true
    → IsLapsed skip now t
unfolding is_expired
expired-IsLapsed skip now t h = elim (Option-cases t.locked_until) [
  | inl missing ↦ ground (arith, h, missing)
  | inr (until, given) ↦ record {
    running_task = ground (arith, h, given);
    until = until;
    lease = given;
    past = ground (arith, h, given);
    free = ground (arith, h, given);
  }
]

IsLapsed-expired :
    (skip : Uuid → Bool) (now : Instant) (t : IngestionTask)
    → is_expired skip now t ≡ false
    → ¬ IsLapsed skip now t
unfolding is_expired
IsLapsed-expired skip now t h l = ground (arith, h, l.running_task, l.lease, l.past, l.free)

-- So many rows of a table are lapsed, and each of them has been booked as a failure of its attempt: it goes back to
-- the queue, or fails when its attempts are used up. Every other row is as it was.
pub data Recovers (skip : Uuid → Bool) (now : Instant)
    : List IngestionTask → List IngestionTask → ℕ → Type 0 where
  none_left : Recovers skip now [] [] 0
  lapsed :
      {t u : IngestionTask} {ts us : List IngestionTask} {n : ℕ}
      → IsLapsed skip now t
      → u.id ≡ t.id
      → ((t.attempt_count < t.max_attempts) × (u.status ≡ pending))
        ⊎ ((t.max_attempts ≤ t.attempt_count) × (u.status ≡ failed))
      → u.attempt_count ≡ t.attempt_count
      → (u.locked_by ≡ none) × (u.locked_until ≡ none) × (u.next_attempt_at ≡ none)
      → Recovers skip now ts us n
      → Recovers skip now (t ∷ ts) (u ∷ us) (1 + n)
  other :
      {t : IngestionTask} {ts us : List IngestionTask} {n : ℕ}
      → ¬ IsLapsed skip now t
      → Recovers skip now ts us n
      → Recovers skip now (t ∷ ts) (t ∷ us) (0 + n)

recovered_status :
    (now : Instant) (t : IngestionTask)
    → ((t.attempt_count < t.max_attempts) × ((recovered now t).status ≡ pending))
      ⊎ ((t.max_attempts ≤ t.attempt_count) × ((recovered now t).status ≡ failed))
recovered_status now t = ground arith

recovers :
    (skip : Uuid → Bool) (now : Instant) (ts : List IngestionTask)
    → Recovers skip now ts
        (update_where (is_expired skip now) (recovered now) ts)
        (count_where (is_expired skip now) ts)
unfolding update_where count_where
recovers skip now [] = none_left
recovers skip now (t ∷ ts) = elim (Bool-cases (is_expired skip now t)) [
  | inl over ↦
      rw (update_where, count_where, over)
        (lapsed (expired-IsLapsed skip now t over) refl (recovered_status now t) refl
          (refl, refl, refl) (recovers skip now ts))
  | inr live ↦
      rw (update_where, count_where, live)
        (other (IsLapsed-expired skip now t live) (recovers skip now ts))
]

-- At a present time, a recovery returns the number of running tasks whose lease ended before that time and that
-- no other transaction has locked. Each of them goes back to the queue, or fails when its attempts are used up,
-- and its lease is gone; every other task is as it was, no such task is left, and the failures
-- that the checkpoints count have grown by exactly that number.
pub recover_expired_tasks_complete :
    (skip : Uuid → Bool) (now : Instant) (db : Database)
    → now ≢ zero_time
    → let db' = (recover_expired_tasks skip now db).1 in
      (n : ℕ) × ((recover_expired_tasks skip now db).0 ≡ ok n)
      × Recovers skip now db.tasks db'.tasks n
      × All (λ t. ¬ IsLapsed skip now t) db'.tasks
      × (total_failures db'.checkpoints ≡ total_failures db.checkpoints + n)
unfolding recover_expired_tasks
recover_expired_tasks_complete skip now db present =
    let p = is_expired skip now in
    let counts = failure_counts (select_where p db.tasks) in
    let late : (now == zero_time) ≡ false = ground arith in
    let moved : Database = record db { tasks = update_where p (recovered now) db.tasks } in
    (
      count_where p db.tasks,
      rw late refl,
      rw (late, record_all-tasks now counts moved) (recovers skip now db.tasks),
      rw (late, record_all-tasks now counts moved)
          (All-updated (λ _. Unit {0}) (λ t. ¬ IsLapsed skip now t) p (recovered now) db.tasks
            (λ t _ _. IsLapsed-expired skip now (recovered now t) (recovered_over skip now t))
            (λ t miss _. IsLapsed-expired skip now t miss) (always db.tasks)),
      rw late (
          omega (
            arith,
            total-record_all now counts moved,
            sum-failure_counts (select_where p db.tasks),
            length-select_where p db.tasks,
          )),
    )
