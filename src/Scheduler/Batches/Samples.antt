-- ===== src/Scheduler/Batches/Samples.antt =====
-- A due window of one subscription as a batch.
use xr_trading.Base.{
  ◌⊎◌, inl, inr, ◌==◌, if◌then◌else◌, ◌<◌, List, length, ℕ, ◌+◌, ◌*◌, ◌^◌, ◌≡◌, refl, sym, ◌∙◌,
  none, true, [], ◌∷◌, pos, arith,
}
use xr_trading.Domain.Text.{codes}
use xr_trading.Domain.Errors.{ok}
use xr_trading.Domain.Time.{Instant, hour}
use xr_trading.Domain.Interval.{hour1}
use xr_trading.Domain.Task.{Uuid, object}
use xr_trading.Domain.Classification.{crypto, spot}
use xr_trading.Scheduler.Window.{CollectionWindow, close}
use xr_trading.Scheduler.Targets.{SchedulingTarget, validate_target}
use xr_trading.Scheduler.Batches.{Texts, validate_batch, batch_for}
use xr_trading.Scheduler.Batches.Keys.{cons_cancel, IsTexts, stable_run_key-same}
use xr_trading.Scheduler.Batches.Accepted.{IsDue, batch_for-accepted}

abbrev pub texts : Texts
texts = record {
  id_text = λ _. "01890000-0000-7000-8000-000000000008";
  key_time = λ _. "20260702T150000.000000000Z";
  json_time = λ _. "2026-07-02T15:00:00Z";
}

abbrev pub target : SchedulingTarget
target = record {
  subscription = record {
    id = 8;
    provider_instrument_id = 4;
    interval = hour1;
    enabled = true;
    priority = pos 0;
    close_delay_seconds = pos 60;
    revision_delay_seconds = none;
    metadata = object [];
    created_at = 10;
    updated_at = 10;
  };
  provider_code = "okx";
  provider_market = "spot";
  instrument_code = "instrument.btc";
  asset_type = crypto;
  instrument_type = spot;
  capabilities = record { quote = true; historical = true; intervals = hour1 ∷ [] };
}

accepts_target : validate_target target ≡ ok tt
unfolding validate_target xr_trading.Domain.Text.is_padded
accepts_target = refl

abbrev pub window : CollectionWindow
window = record {
  interval = hour1;
  trigger = close;
  range_start = hour;
  range_end = 2 * hour;
  eligible_at = 2 * hour + 60000000000;
}

-- IDs of version 7.
abbrev pub run_id : Uuid
run_id = 7 * 2 ^ 76 + 1

abbrev pub task_id : Uuid
task_id = 7 * 2 ^ 76 + 2

due : IsDue window (3 * hour)
due = record {
  supported = refl;
  ordered = omega arith;
  ended = omega arith;
  eligible = omega arith;
}

batch_for-accepted_example :
    validate_batch texts (batch_for texts 5 target window (3 * hour) run_id task_id) ≡ ok tt
batch_for-accepted_example =
    batch_for-accepted texts target window (3 * hour) 5 run_id task_id due (omega arith)
      (omega arith) (omega arith) refl refl refl

-- Texts of two IDs and of two times.
abbrev two_texts : Texts
two_texts = record {
  id_text = λ id.
      if id == 8
      then "01890000-0000-7000-8000-000000000008"
      else "11890000-0000-7000-8000-000000000009";
  key_time = λ t. if t == hour then "20260702T150000.000000000Z" else "19991231T150000.000000000Z";
  json_time = λ _. "2026-07-02T15:00:00Z";
}

abbrev Known : Uuid → Type 0
Known id = (id ≡ 8) ⊎ (id ≡ 9)

abbrev Stored : Instant → Type 0
Stored t = (t ≡ hour) ⊎ (t ≡ 2 * hour)

first_differs : {c d : ℕ} {cs ds : List ℕ} → c < d → c ∷ cs ≡ d ∷ ds → ⊥
first_differs lt h = let same : _ ≡ _ = (cons_cancel h).0 in omega (arith, lt, same)

Known-length : (id : Uuid) → Known id → length (codes (two_texts.id_text id)) ≡ 36
Known-length id (inl a) = rw a refl
Known-length id (inr b) = rw b refl

Stored-length : (t : Instant) → Stored t → length (codes (two_texts.key_time t)) ≡ 26
Stored-length t (inl a) = rw a refl
Stored-length t (inr b) = rw b refl

Known-same :
    (a b : Uuid)
    → Known a
    → Known b
    → codes (two_texts.id_text a) ≡ codes (two_texts.id_text b)
    → a ≡ b
Known-same a b (inl p) (inl q) h = p ∙ sym q
Known-same a b (inr p) (inr q) h = p ∙ sym q
Known-same a b (inl p) (inr q) h = elim (first_differs (omega arith) (rw (p, q) at h)) [ ]
Known-same a b (inr p) (inl q) h = elim (first_differs (omega arith) (sym (rw (p, q) at h))) [ ]

Stored-same :
    (a b : Instant)
    → Stored a
    → Stored b
    → codes (two_texts.key_time a) ≡ codes (two_texts.key_time b)
    → a ≡ b
Stored-same a b (inl p) (inl q) h = p ∙ sym q
Stored-same a b (inr p) (inr q) h = p ∙ sym q
Stored-same a b (inl p) (inr q) h = elim (first_differs (omega arith) (sym (rw (p, q) at h))) [ ]
Stored-same a b (inr p) (inl q) h = elim (first_differs (omega arith) (rw (p, q) at h)) [ ]

told_apart : IsTexts two_texts Known Stored
told_apart = record {
  id_length = Known-length;
  time_length = Stored-length;
  same_id = Known-same;
  same_time = Stored-same;
}

stable_run_key-same_example :
    (close ≡ close) × ◌≡◌ {A = ℕ} 9 9 × (hour ≡ hour) × (2 * hour ≡ 2 * hour)
stable_run_key-same_example =
    stable_run_key-same two_texts Known Stored told_apart close close 9 9 hour hour (2 * hour)
      (2 * hour) refl refl (inr refl) (inr refl) (inl refl) (inl refl) (inr refl) (inr refl) refl
