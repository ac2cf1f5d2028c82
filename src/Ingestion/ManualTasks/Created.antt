-- ===== src/Ingestion/ManualTasks/Created.antt =====
-- A retry that succeeds has created what it returns.
use xr_trading.Base.{
  refl, arith, ℕ, String, ◌≢◌, ◌≤◌, ◌<◌, ◌⊎◌, inl, inr, All, List, [], ◌∷◌, leb, Bool-cases, true,
  false, not, ◌≡◌, sym, ap, ◌∙◌, ◌==◌, ◌||◌, not-false, or_false,
}
use xr_trading.Domain.Text.{same_text, is_padded, rune_count, codes, is_bounded_text}
use xr_trading.Ingestion.Backfill.{is_backfill_text, has_control, is_control}
use xr_trading.Domain.Errors.{ok, refuse_if-ok, same_value}
use xr_trading.Domain.Time.{is_zero, zero_time}
use xr_trading.Domain.Task.{Uuid, is_nil, object}
use xr_trading.Ingestion.Action.{continue-ok}
use xr_trading.Ingestion.Contracts.{RunStatus}
use xr_trading.Scheduler.Batches.{Texts, is_scheduled_id}
use xr_trading.Ingestion.ManualTasks.{
  ManualTaskStore, TaskOperationAudit, ManualRetryCreation, ManualRetryResult, is_audit,
  manual_retry_creation, retry,
}

-- A text that is present and not padded with spaces, has no control character, and is not too long.
pub record IsPlain (maximum : ℕ) (text : String) : Type 0 where
  pub present : same_text text "" ≡ false
  pub tight : is_padded text ≡ false
  pub short : rune_count text ≤ maximum
  pub printed : All (λ c. (0x20 ≤ c) × ((c < 0x7f) ⊎ (0x9f < c))) (codes text)

-- An audit that names its requester, the request and the reason, and an actor of a known type.
pub record IsAudit (a : TaskOperationAudit) : Type 0 where
  pub requester : IsPlain 128 a.requested_by
  pub request : IsPlain 128 a.request_id
  pub reason : IsPlain 512 a.reason
  pub actor : (same_text a.actor_type "user" ≡ true) ⊎ (same_text a.actor_type "service" ≡ true)

printed_codes :
    (cs : List ℕ) → has_control cs ≡ false → All (λ c. (0x20 ≤ c) × ((c < 0x7f) ⊎ (0x9f < c))) cs
printed_codes [] h = tt
printed_codes (c ∷ cs) h =
    let (this, rest) = or_false {a = is_control c} {b = has_control cs} h in
    (
      (
        ground (arith, this),
        elim (Bool-cases (leb 0x7f c)) [
          | inl high ↦ inr (ground (arith, this, high))
          | inr low ↦ inl (ground (arith, low))
        ],
      ),
      printed_codes cs rest,
    )

text-IsPlain :
    (text : String) (maximum : ℕ) → is_backfill_text text maximum ≡ true → IsPlain maximum text
unfolding is_backfill_text is_bounded_text
text-IsPlain text maximum h = record {
  present = ground (arith, h);
  tight = ground (arith, h);
  short = ground (arith, h);
  printed = printed_codes (codes text) (ground (arith, h));
}

is_audit-IsAudit : (a : TaskOperationAudit) → is_audit a ≡ true → IsAudit a
unfolding is_audit
is_audit-IsAudit a h = record {
  requester = text-IsPlain a.requested_by 128 (ground (arith, h));
  request = text-IsPlain a.request_id 128 (ground (arith, h));
  reason = text-IsPlain a.reason 512 (ground (arith, h));
  actor = elim (Bool-cases (same_text a.actor_type "user")) [
    | inl user ↦ inl user
    | inr other ↦ inr (ground (arith, h, other))
  ];
}

-- A creation that asks for the run and the task of a result, as the successor of the task that failed.
pub record IsAsked (texts : Texts) (maximum : ℕ) (original : Uuid) (audit : TaskOperationAudit)
    (r : ManualRetryResult) (c : ManualRetryCreation) : Type 0 where
  pub successor_of : c.original_task_id ≡ original
  pub ids : (c.run_id ≡ r.run_id) × (c.task_id ≡ r.task_id)
  pub attempts : c.maximum_attempts ≡ maximum
  pub attributed : c.audit ≡ audit
  pub created_at : c.created_at ≡ r.created_at
  pub context :
      c.run_context
      ≡ object (
          ("actor_type", audit.actor_type)
          ∷ ("reason", audit.reason)
          ∷ ("request_id", audit.request_id)
          ∷ ("retry_of_task_id", texts.id_text original)
          ∷ [])

-- The IDs of a retry are two new ones of version 7, its request was accountable, and the last call on the store
-- has created them.
pub record IsCreated (store : ManualTaskStore) (original : Uuid) (audit : TaskOperationAudit)
    (r : ManualRetryResult) (s' : store.State) : Type 0 where
  pub accountable : IsAudit audit
  pub dated : r.created_at ≢ zero_time
  pub pending_run : r.status ≡ RunStatus.pending
  pub run_scheduled : is_scheduled_id r.run_id ≡ true
  pub task_scheduled : is_scheduled_id r.task_id ≡ true
  pub distinct : r.task_id ≢ r.run_id
  pub new_run : r.run_id ≢ original
  pub new_task : r.task_id ≢ original
  pub asked : ManualRetryCreation
  pub matches : IsAsked store.texts store.maximum_attempts original audit r asked
  pub before : store.State
  pub created : store.create_manual_retry asked before ≡ (ok tt, s')

module _ (store : ManualTaskStore) where
  open store use {State}

  carried :
      (original : Uuid) (audit : TaskOperationAudit) {r r' : ManualRetryResult} {x y : State}
      → r ≡ r'
      → x ≡ y
      → IsCreated store original audit r x
      → IsCreated store original audit r' y
  carried original audit same_result same_state c = rw (sym same_result, sym same_state) c

  -- If Retry succeeds, its audit has a requester, a request and a reason that are plain texts of bounded length and
  -- an actor of a known type; the IDs that it returns are of version 7, differ from each other and from the task that
  -- failed; and its last call on the store has created the run and the task with these IDs, at the time
  -- that it returns, for that task, that audit and the configured number of attempts.
  pub retry-IsCreated :
      (original : Uuid) (audit : TaskOperationAudit) (s : State) (r : ManualRetryResult)
      → (retry store original audit s).0 ≡ ok r
      → IsCreated store original audit r (retry store original audit s).1
  unfolding retry manual_retry_creation
  retry-IsCreated original audit s r h =
      let (_, checked, h1, e1) = continue-ok _ _ h in
      let (t, timed, h2, e2) = continue-ok _ _ h1 in
      let (_, dated, h3, e3) = continue-ok _ _ h2 in
      let (run_id, made, h4, e4) = continue-ok _ _ h3 in
      let (_, scheduled, h5, e5) = continue-ok _ _ h4 in
      let (task_id, made', h6, e6) = continue-ok _ _ h5 in
      let (_, scheduled', h7, e7) = continue-ok _ _ h6 in
      let (_, created, h8, e8) = continue-ok _ _ h7 in
      let after_now = (store.now s).1 in
      let after_run = (store.new_id after_now).1 in
      let after_task = (store.new_id after_run).1 in
      let asked =
        manual_retry_creation store.texts store.maximum_attempts original run_id task_id audit t in
      let answer : ManualRetryResult = record {
        run_id = run_id;
        task_id = task_id;
        status = RunStatus.pending;
        created_at = t;
      } in
      let reached : retry store original audit s
          ≡ (ok answer, (store.create_manual_retry asked after_task).1) =
        e1 ∙ (e2 ∙ (e3 ∙ (e4 ∙ (e5 ∙ (e6 ∙ (e7 ∙ e8)))))) in
      let same : answer ≡ r = same_value h8 in
      let (_, complete) =
        or_false (refuse_if-ok (is_nil original || not (is_audit audit)) _ checked) in
      let (run_new, other_run) =
        or_false (refuse_if-ok (not (is_scheduled_id run_id) || run_id == original) _ scheduled) in
      let (task_new, other_task) = or_false (
        refuse_if-ok (not (is_scheduled_id task_id) || task_id == run_id || task_id == original) _
          scheduled') in
      let (fresh, distinct) = or_false task_new in
      carried original audit same (sym (ap (λ x. x.1) reached)) (record {
        accountable = is_audit-IsAudit audit (not-false complete);
        dated = ground (arith, refuse_if-ok (is_zero t) _ dated);
        pending_run = refl;
        run_scheduled = not-false run_new;
        task_scheduled = not-false fresh;
        distinct = ground (arith, distinct);
        new_run = ground (arith, other_run);
        new_task = ground (arith, other_task);
        asked = asked;
        matches = record {
          successor_of = refl;
          ids = (refl, refl);
          attempts = refl;
          attributed = refl;
          created_at = refl;
          context = refl;
        };
        before = after_task;
        created = ap (λ v. (v, (store.create_manual_retry asked after_task).1)) created;
      })
