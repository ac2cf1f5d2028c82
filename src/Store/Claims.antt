-- ===== src/Store/Claims.antt =====
-- ClaimNextTask takes the oldest task that is due.
use xr_trading.Base.{
  ◌≤◌, ◌≡◌, inl, inr, Bool, true, false, not, ◌&&◌, ◌||◌, none, some, All, arith, Bool-cases,
  Option-cases, ◌==◌, String, ltz, pos,
}
use text.Mathlib.Text.{◌==◌ as str_eq}
use xr_trading.Domain.Errors.{ok}
use xr_trading.Domain.Time.{Instant, Duration, add, zero_time, stored_time}
use xr_trading.Domain.Task.{
  Uuid, IngestionTask, TaskClaim, pending, retry_wait, same_status, same_status-same,
}
use xr_trading.Store.Database.{Database, select_one, update_where}
use xr_trading.Store.Queue.{is_claimable, claimed, has_id, oldest, claim_next_task}
use xr_trading.Store.Rows.{IsKeyed, oldest_fits, oldest-none, oldest-le, oldest-select_one, All-map}

-- A task that the query of the claim may take.
abbrev pub is_candidate : (Uuid → Bool) → Instant → IngestionTask → Bool
is_candidate skip now t = is_claimable now t && not (skip t.id)

-- A row that a claim may take: it is pending, or it waits for a retry whose time has come, and no other
-- transaction has locked it.
pub data IsWaiting (skip : Uuid → Bool) (now : Instant) (t : IngestionTask) : Type 0 where
  is_pending : t.status ≡ pending → skip t.id ≡ false → IsWaiting skip now t
  is_due :
      (at : Instant)
      → t.status ≡ retry_wait
      → t.next_attempt_at ≡ some at
      → at ≤ now
      → skip t.id ≡ false
      → IsWaiting skip now t

candidate-IsWaiting :
    (skip : Uuid → Bool) (now : Instant) (t : IngestionTask)
    → is_candidate skip now t ≡ true
    → IsWaiting skip now t
unfolding is_claimable
candidate-IsWaiting skip now t h = elim (Bool-cases (same_status t.status pending)) [
  | inl fresh ↦ is_pending (same_status-same t.status pending fresh) (ground (arith, h))
  | inr other ↦ elim (Option-cases t.next_attempt_at) [
    | inl missing ↦ ground (arith, h, other, missing)
    | inr (at, planned) ↦
        let held : same_status t.status retry_wait ≡ true = ground (arith, h, other) in
        is_due at (same_status-same t.status retry_wait held) planned
          (ground (arith, h, other, planned)) (ground (arith, h))
  ]
]

IsWaiting-candidate :
    (skip : Uuid → Bool) (now : Instant) (t : IngestionTask)
    → IsWaiting skip now t
    → is_candidate skip now t ≡ true
unfolding is_claimable
IsWaiting-candidate skip now t (is_pending fresh free) = ground (arith, fresh, free)
IsWaiting-candidate skip now t (is_due at held planned le free) =
    ground (arith, held, planned, le, free)

-- The claim `c` takes the stored task `t`, the oldest candidate, and changes nothing else.
pub record IsNext (skip : Uuid → Bool) (worker_id : String) (now : Instant) (lease : Duration)
    (db db' : Database) (c : TaskClaim) (t : IngestionTask) : Type 0 where
  pub stored : select_one (has_id t.id) db.tasks ≡ some t
  pub waiting : IsWaiting skip (stored_time now) t
  pub first : All (λ u. IsWaiting skip (stored_time now) u → t.created_at ≤ u.created_at) db.tasks
  pub taken : c.task ≡ claimed worker_id (stored_time now) (stored_time (add now lease)) t
  pub written : db' ≡ record db {
    tasks =
        update_where
          (has_id t.id)
          (claimed worker_id (stored_time now) (stored_time (add now lease)))
          db.tasks;
  }

-- When the IDs of the tasks differ, a claim that returns a task took the oldest one that is pending,
-- or waits for a retry whose time has come, and that no other transaction had locked; it returns that row as it
-- stores it, and changes no other row and no other table.
pub claim_next_task-IsNext :
    (skip : Uuid → Bool) (worker_id : String) (now : Instant) (lease : Duration) (db : Database)
    (c : TaskClaim)
    → IsKeyed db.tasks
    → (claim_next_task skip worker_id now lease db).0 ≡ ok (some c)
    → (t : IngestionTask) × IsNext skip worker_id now lease db
        (claim_next_task skip worker_id now lease db).1
        c
        t
unfolding claim_next_task
claim_next_task-IsNext skip worker_id now lease db c keyed h =
    elim (Bool-cases (str_eq worker_id "" || now == zero_time || not (ltz (pos 0) lease))) [
      | inl bad ↦ ground (arith, bad)
      | inr good ↦ elim (Option-cases (oldest (is_candidate skip (stored_time now)) db.tasks)) [
        | inl missing ↦ ground (arith, good, missing)
        | inr (t, found) ↦ (
          t,
          record {
            stored = oldest-select_one (is_candidate skip (stored_time now)) db.tasks keyed found;
            waiting =
                candidate-IsWaiting skip (stored_time now) t
                  (oldest_fits (is_candidate skip (stored_time now)) db.tasks found);
            first =
                All-map db.tasks (λ u le w. le (IsWaiting-candidate skip (stored_time now) u w))
                  (oldest-le (is_candidate skip (stored_time now)) db.tasks found);
            taken = ground (arith, good, found);
            written = ground (arith, good, found);
          },
        )
      ]
    ]

-- A claim that returns no task and no error found no row that is pending, or waits for a retry that is due,
-- and is not locked by another transaction; it changes nothing.
pub claim_next_task-none :
    (skip : Uuid → Bool) (worker_id : String) (now : Instant) (lease : Duration) (db : Database)
    → (claim_next_task skip worker_id now lease db).0 ≡ ok none
    → All (λ u. is_candidate skip (stored_time now) u ≡ false) db.tasks
      × ((claim_next_task skip worker_id now lease db).1 ≡ db)
unfolding claim_next_task
claim_next_task-none skip worker_id now lease db h =
    elim (Bool-cases (str_eq worker_id "" || now == zero_time || not (ltz (pos 0) lease))) [
      | inl bad ↦ ground (arith, bad)
      | inr good ↦ elim (Option-cases (oldest (is_candidate skip (stored_time now)) db.tasks)) [
        | inl missing ↦ (
          oldest-none (is_candidate skip (stored_time now)) db.tasks missing,
          ground (arith, good, missing),
        )
        | inr (t, found) ↦ ground (arith, good, found)
      ]
    ]
