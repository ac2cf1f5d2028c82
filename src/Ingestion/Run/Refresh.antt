-- ===== src/Ingestion/Run/Refresh.antt =====
-- Refresh saves a summary of a state that it loaded, within three attempts.
use xr_trading.Base.{ℕ, zero, suc, ◌≡◌, refl, not, arith, Bool-cases, inl, inr, ◌==◌, sym}
use xr_trading.Domain.Errors.{
  Result, Result-cases, ok, errors_is, conflict, bind-ok, refuse_if, invalid_data,
}
use xr_trading.Domain.Task.{Uuid, is_nil}
use xr_trading.Ingestion.Contracts.{RunTaskSnapshot, RunSummary}
use xr_trading.Ingestion.Run.{
  RunStore, maximum_run_refresh_attempts, summarize_run, observe, refresh_loop, refresh,
}

module _ (store : RunStore) (run_id : Uuid) where
  open store use {State, load_run_task_snapshot, save_run_summary}

  -- The summary was derived from a snapshot of this run and saved as the last change of the store.
  pub record IsSaved (summary : RunSummary) (final : State) : Type 0 where
    pub before : State
    pub snapshot : RunTaskSnapshot
    pub loaded : (load_run_task_snapshot run_id before).0 ≡ ok snapshot
    pub same_run : snapshot.run_id ≡ run_id
    pub summarized : summarize_run snapshot ≡ ok summary
    pub saved : (save_run_summary summary (load_run_task_snapshot run_id before).1).0 ≡ ok tt
    pub last : (save_run_summary summary (load_run_task_snapshot run_id before).1).1 ≡ final

  pub observed :
      (loaded : Result RunTaskSnapshot) {summary : RunSummary}
      → observe store run_id loaded ≡ ok summary
      → (snapshot : RunTaskSnapshot) × (loaded ≡ ok snapshot)
        × (snapshot.run_id ≡ run_id)
        × (summarize_run snapshot ≡ ok summary)
  unfolding observe
  observed loaded h =
      let (snapshot, found, checked) = bind-ok loaded _ h in
      let (_, same, made) =
        bind-ok (refuse_if (not (snapshot.run_id == run_id)) invalid_data) _ checked in
      (snapshot, found, ground (arith, same), made)

  refresh_loop-IsSaved :
      (n : ℕ) (s : State) (summary : RunSummary)
      → (refresh_loop store n run_id s).0 ≡ ok summary
      → IsSaved summary (refresh_loop store n run_id s).1
  unfolding refresh_loop
  refresh_loop-IsSaved zero s summary h = ground arith
  refresh_loop-IsSaved (suc n) s summary h =
      let loaded = (load_run_task_snapshot run_id s).0 in
      let s1 = (load_run_task_snapshot run_id s).1 in
      elim (Result-cases (observe store run_id loaded)) [
        | inl (e, bad) ↦ ground (arith, bad)
        | inr (made, good) ↦ elim (Result-cases (save_run_summary made s1).0) [
          | inl (e, unsaved) ↦ elim (Bool-cases (errors_is e conflict)) [
            | inl stale ↦
                rw (refresh_loop, good, unsaved, stale)
                  (refresh_loop-IsSaved n (save_run_summary made s1).1 summary
                    (ground (arith, good, unsaved, stale)))
            | inr other ↦ ground (arith, good, unsaved, other)
          ]
          | inr (_, written) ↦
              let same : made ≡ summary = ground (arith, good, written) in
              let (snapshot, found, own, derived) = observed loaded good in
              record {
                before = s;
                snapshot = snapshot;
                loaded = found;
                same_run = own;
                summarized = rw (sym same) derived;
                saved = rw (sym same) written;
                last = rw (refresh_loop, good, written, sym same) refl;
              }
        ]
      ]

  -- When Refresh returns a summary, it was computed from a snapshot that the store returned for
  -- this run, and the store accepted it as its last change; a summary is never returned unsaved.
  pub refresh-IsSaved :
      (s : State) (summary : RunSummary)
      → (refresh store run_id s).0 ≡ ok summary
      → IsSaved summary (refresh store run_id s).1
  unfolding refresh
  refresh-IsSaved s summary h = elim (Bool-cases (is_nil run_id)) [
    | inl bad ↦ ground (arith, bad)
    | inr good ↦
        rw (refresh, good)
          (refresh_loop-IsSaved maximum_run_refresh_attempts s summary (ground (arith, good)))
  ]
