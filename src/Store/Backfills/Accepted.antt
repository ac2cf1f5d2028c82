-- ===== src/Store/Backfills/Accepted.antt =====
-- What BackfillService.Create hands to its store passes the store's validation.
use xr_trading.Base.{
  ℕ, true, false, not, ◌≡◌, sym, ◌==◌, ◌<◌, ◌≤◌, arith, some, or_false, ltb, ◌||◌,
}
use xr_trading.Domain.Text.{same_codes-same, is_bounded_text}
use xr_trading.Domain.Errors.{ok, refuse_if-ok, refuse_if, invalid_data, bind-ok, same_value}
use xr_trading.Domain.Time.{Instant, is_zero}
use xr_trading.Domain.MarketData.{new_time_range}
use xr_trading.Domain.Task.{Uuid}
use xr_trading.Ingestion.Quality.{is_refused}
use xr_trading.Ingestion.Backfill.{
  BackfillInput, BackfillRequest, is_backfill_text, is_malformed, parse_backfill_input,
  backfill_key, backfill_run, backfill_task,
}
use xr_trading.Scheduler.Batches.{Texts, is_scheduled_id}
use xr_trading.Store.Backfills.{
  is_bad_backfill_run, is_bad_backfill_task, validate_backfill_run_and_task,
}

-- What the parser has checked of a request.
record IsParsed (r : BackfillRequest) : Type 0 where
  dated : is_zero r.created_at ≡ false
  ordered : r.input.start_time < r.input.end_time
  past : r.input.end_time ≤ r.created_at
  signed : is_bounded_text 128 r.input.requested_by ≡ true

ordered_range : (a b : Instant) → is_refused (new_time_range (some a) (some b)) ≡ false → a < b
unfolding new_time_range
ordered_range a b h = ground (arith, h)

signed_text :
    (i : BackfillInput)
    → not (is_backfill_text i.requested_by 128) ≡ false
    → is_bounded_text 128 i.requested_by ≡ true
unfolding is_backfill_text
signed_text i h = ground (arith, h)

checked-IsParsed :
    (i : BackfillInput) (now : Instant)
    → is_malformed i now ≡ false
    → ltb now i.end_time ≡ false
    → IsParsed (record { input = i; created_at = now })
unfolding is_malformed
checked-IsParsed i now fine past =
    let (f1, _) = or_false fine in
    let (f2, _) = or_false f1 in
    let (f3, signed) = or_false f2 in
    let (f4, _) = or_false f3 in
    let (f5, dated) = or_false f4 in
    let (_, range) = or_false f5 in
    record {
      dated = dated;
      ordered = ordered_range i.start_time i.end_time range;
      past = ground (arith, past);
      signed = signed_text i signed;
    }

parse_backfill_input-IsParsed :
    (i : BackfillInput) (now : Instant) (r : BackfillRequest)
    → parse_backfill_input i now ≡ ok r
    → IsParsed r
unfolding parse_backfill_input
parse_backfill_input-IsParsed i now r h =
    let (_, checked, made) =
      bind-ok (refuse_if (is_malformed i now || ltb now i.end_time) invalid_data) _ h in
    let parsed : BackfillRequest = record { input = i; created_at = now } in
    let same : parsed ≡ r = same_value made in
    let (fine, past) =
      or_false (refuse_if-ok (is_malformed i now || ltb now i.end_time) _ checked) in
    rw (sym same) (checked-IsParsed i now fine past)

module _ (texts : Texts) (maximum_attempts : ℕ) (subscription_id run_id task_id : Uuid)
    (r : BackfillRequest) where
  run-IsGood : IsParsed r → is_bad_backfill_run texts (backfill_run texts run_id r) ≡ false
  unfolding backfill_run
  run-IsGood parsed =
      rw (same_codes-same (backfill_key texts run_id), parsed.signed) (ground (arith, parsed.dated))

  task-IsGood :
      IsParsed r
      → 0 < maximum_attempts
      → is_bad_backfill_task texts
          (backfill_run texts run_id r)
          (backfill_task maximum_attempts subscription_id run_id task_id r)
        ≡ false
  unfolding backfill_run backfill_task
  task-IsGood parsed tried = ground (arith, parsed.ordered, parsed.past, tried)

  -- The run and the task that Create makes of a request that it has parsed pass the validation of
  -- CreateBackfillRunWithTask, for a subscription with an ID, at least one attempt, and two different IDs of
  -- version 7, which Create demands of its source.
  pub backfill-accepted :
      (input : BackfillInput) (now : Instant)
      → parse_backfill_input input now ≡ ok r
      → 0 < subscription_id
      → 0 < maximum_attempts
      → is_scheduled_id run_id ≡ true
      → is_scheduled_id task_id ≡ true
      → (task_id == run_id) ≡ false
      → validate_backfill_run_and_task texts
          (backfill_run texts run_id r)
          (backfill_task maximum_attempts subscription_id run_id task_id r)
        ≡ ok tt
  unfolding validate_backfill_run_and_task backfill_run backfill_task
  backfill-accepted input now parsed named tried run task distinct =
      let checked = parse_backfill_input-IsParsed input now r parsed in
      rw
        (
          validate_backfill_run_and_task,
          run,
          task,
          distinct,
          run-IsGood checked,
          task-IsGood checked tried,
        )
        (ground (arith, named))
