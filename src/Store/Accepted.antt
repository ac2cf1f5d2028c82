-- ===== src/Store/Accepted.antt =====
-- The worker accepts what the queue hands out.
use xr_trading.Base.{
  ◌≤◌, ltz, ltb, false, true, negsuc, leb, Bool, ℕ, ◌+◌, ◌≡◌, sym, inl, inr, String, Bool-cases,
  Option-cases, ◌&&◌, ◌||◌, some, All, ◌<◌, ◌==◌, arith, List, [], ◌∷◌, pos,
}
use text.Mathlib.Text.{◌==◌ as str_eq}
use xr_trading.Domain.Text.{codes, same_codes-same}
use xr_trading.Domain.Errors.{ok}
use xr_trading.Domain.Time.{Instant, Duration, zero_time, stored_time}
use xr_trading.Domain.Task.{Uuid, IngestionTask, TaskClaim}
use xr_trading.Ingestion.Worker.{validate_claim}
use xr_trading.Store.Database.{Database}
use xr_trading.Store.Queue.{claimed, oldest, claim_next_task}
use xr_trading.Store.Claims.{is_candidate}

-- What the schema demands of a row: an ID, and at least one attempt.
pub record IsRow (t : IngestionTask) : Type 0 where
  pub named : 0 < t.id
  pub tried : 0 < t.max_attempts

oldest-IsRow :
    (p : IngestionTask → Bool) (ts : List IngestionTask) {t : IngestionTask}
    → All IsRow ts
    → oldest p ts ≡ some t
    → IsRow t
unfolding oldest
oldest-IsRow p [] rows h = ground (arith, h)
oldest-IsRow p (u ∷ us) {t} rows h = elim (Option-cases (oldest p us)) [
  | inl missing ↦ elim (Bool-cases (p u)) [
    | inl fits ↦ let same : u ≡ t = ground (arith, h, missing, fits) in rw (sym same) rows.0
    | inr out ↦ ground (arith, h, missing, out)
  ]
  | inr (v, found) ↦
      let v_row : IsRow v = oldest-IsRow p us {t = v} rows.1 found in
      elim (Bool-cases (p u && leb u.created_at v.created_at)) [
        | inl fits ↦ let same : u ≡ t = ground (arith, h, found, fits) in rw (sym same) rows.0
        | inr out ↦ let same : v ≡ t = ground (arith, h, found, out) in rw (sym same) v_row
      ]
]

claimed-accepted :
    (worker_id : String) (now : Instant) (n : ℕ) (t : IngestionTask)
    → IsRow t
    → 1000 ≤ n
    → validate_claim
        (record { task = claimed worker_id (stored_time now) (stored_time (now + n)) t })
        worker_id
        now
      ≡ ok tt
unfolding validate_claim
claimed-accepted worker_id now n t row long =
    let later : now < stored_time (now + n) = omega (arith, long) in
    rw (same_codes-same (codes worker_id)) (ground (arith, row.named, row.tried, later))

-- A claim that ClaimNextTask returns for a worker, with a lease of a microsecond or more, passes the validateClaim of
-- that worker at the time of the claim, when every row has an ID and at least one attempt, as the schema demands:
-- although the database cuts the end of the lease to microseconds, the loop does not refuse what its own queue hands out.
pub claim_next_task-accepted :
    (skip : Uuid → Bool) (worker_id : String) (now : Instant) (lease : Duration) (db : Database)
    (c : TaskClaim)
    → All IsRow db.tasks
    → ltz lease (pos 1000) ≡ false
    → (claim_next_task skip worker_id now lease db).0 ≡ ok (some c)
    → validate_claim c worker_id now ≡ ok tt
unfolding claim_next_task
claim_next_task-accepted skip worker_id now (negsuc n) db c rows long h = ground (arith, h)
claim_next_task-accepted skip worker_id now (pos n) db c rows long h =
    let enough : 1000 ≤ n = ground (arith, long) in
    let positive : ltb 0 n ≡ true = ground (arith, enough) in
    elim (Bool-cases (str_eq worker_id "" || now == zero_time)) [
      | inl bad ↦ ground (arith, bad, h)
      | inr good ↦ elim (Option-cases (oldest (is_candidate skip (stored_time now)) db.tasks)) [
        | inl missing ↦ ground (arith, good, missing, positive, h)
        | inr (t, found) ↦
            let same : record {
              task = claimed worker_id (stored_time now) (stored_time (now + n)) t;
            }
                ≡ c =
              ground (arith, good, found, positive, h) in
            rw (sym same) (
              claimed-accepted worker_id now n t
                (oldest-IsRow (is_candidate skip (stored_time now)) db.tasks {t = t} rows found)
                enough)
      ]
    ]
