-- ===== src/Store/Checkpoints/Progress.antt =====
-- What the success checkpoint of a subscription becomes.
use xr_trading.Base.{
  ◌≤◌, ◌≡◌, ◌≢◌, refl, Bool, Option, none, some, List, [], ◌∷◌, arith, Option-cases, ◌==◌, inl, inr,
}
use xr_trading.Domain.Time.{Instant}
use xr_trading.Domain.Task.{Uuid, IngestionCheckpoint}
use xr_trading.Store.Database.{select_one}
use xr_trading.Store.Checkpoints.{upsert, latest, upsert_successful_checkpoint}

-- A time that is present is not later than the other one, which is then present too.
pub data IsUpTo : Option Instant → Option Instant → Type 0 where
  missing : {t : Option Instant} → IsUpTo none t
  present : {s t : Instant} → s ≤ t → IsUpTo (some s) (some t)

IsUpTo-refl : (t : Option Instant) → IsUpTo t t
IsUpTo-refl none = missing
IsUpTo-refl (some t) = present (omega arith)

stored-latest : (stored new : Option Instant) → IsUpTo stored (latest stored new)
unfolding latest
stored-latest stored none = IsUpTo-refl stored
stored-latest none (some new) = missing
stored-latest (some stored) (some new) = present (ground arith)

new-latest : (stored new : Option Instant) → IsUpTo new (latest stored new)
unfolding latest
new-latest stored none = missing
new-latest none (some new) = present (omega arith)
new-latest (some stored) (some new) = present (ground arith)

abbrev pub has_subscription : Uuid → IngestionCheckpoint → Bool
has_subscription id c = c.subscription_id == id

abbrev pub checkpoint_of : Uuid → List IngestionCheckpoint → Option IngestionCheckpoint
checkpoint_of id = select_one (has_subscription id)

module _ (merge : IngestionCheckpoint → IngestionCheckpoint) (new : IngestionCheckpoint)
    (keeps : (c : IngestionCheckpoint) → (merge c).subscription_id ≡ c.subscription_id) where
  upsert_other :
      (id : Uuid) (cs : List IngestionCheckpoint)
      → id ≢ new.subscription_id
      → checkpoint_of id (upsert merge new cs) ≡ checkpoint_of id cs
  unfolding select_one upsert
  upsert_other id [] other = ground arith
  upsert_other id (c ∷ cs) other = ground (arith, keeps c, upsert_other id cs other)

  upsert_missing :
      (cs : List IngestionCheckpoint)
      → checkpoint_of new.subscription_id cs ≡ none
      → checkpoint_of new.subscription_id (upsert merge new cs) ≡ some new
  unfolding select_one upsert
  upsert_missing [] h = ground arith
  upsert_missing (c ∷ cs) h = ground (arith, upsert_missing cs)

  upsert_found :
      (cs : List IngestionCheckpoint) {c : IngestionCheckpoint}
      → checkpoint_of new.subscription_id cs ≡ some c
      → checkpoint_of new.subscription_id (upsert merge new cs) ≡ some (merge c)
  unfolding select_one upsert
  upsert_found [] h = ground arith
  upsert_found (d ∷ cs) {c} h = ground (arith, keeps d, upsert_found cs {c = c})

same_found :
    {o : Option IngestionCheckpoint} {s t : IngestionCheckpoint} → o ≡ some t → o ≡ some s → s ≡ t
same_found e f = ground arith

-- What a successful commit leaves as the checkpoint of its subscription: neither time goes back, and
-- the failures start again at zero.
pub record IsAdvanced (new : IngestionCheckpoint) (stored : Option IngestionCheckpoint)
    (c : IngestionCheckpoint) : Type 0 where
  pub success_new : IsUpTo new.last_success_open_time c.last_success_open_time
  pub closed_new : IsUpTo new.last_closed_open_time c.last_closed_open_time
  pub success_stored :
      (s : IngestionCheckpoint)
      → stored ≡ some s
      → IsUpTo s.last_success_open_time c.last_success_open_time
  pub closed_stored :
      (s : IngestionCheckpoint)
      → stored ≡ some s
      → IsUpTo s.last_closed_open_time c.last_closed_open_time
  pub reset : c.consecutive_failures ≡ 0
  pub attempted : c.last_attempt_at ≡ new.last_attempt_at

-- After the checkpoint of a success is written, its subscription has a checkpoint whose two
-- open times are not before those that were stored nor before the new ones, even when the commits arrive out of
-- order, with no failure counted; the checkpoint of every other subscription is as it was.
pub upsert_successful_checkpoint-IsAdvanced :
    (new : IngestionCheckpoint) (cs : List IngestionCheckpoint)
    → let cs' = upsert_successful_checkpoint new cs in
      ((c : IngestionCheckpoint) × (checkpoint_of new.subscription_id cs' ≡ some c)
        × IsAdvanced new (checkpoint_of new.subscription_id cs) c)
      × ((id : Uuid) → id ≢ new.subscription_id → checkpoint_of id cs' ≡ checkpoint_of id cs)
unfolding upsert_successful_checkpoint
upsert_successful_checkpoint-IsAdvanced new cs = (
  elim (Option-cases (checkpoint_of new.subscription_id cs)) [
    | inl none_yet ↦ (
      _,
      upsert_missing _ _ (λ _. refl) cs none_yet,
      record {
        success_new = IsUpTo-refl _;
        closed_new = IsUpTo-refl _;
        success_stored = λ s e. ground (arith, none_yet, e);
        closed_stored = λ s e. ground (arith, none_yet, e);
        reset = refl;
        attempted = refl;
      },
    )
    | inr (old, found) ↦ (
      _,
      upsert_found _ _ (λ _. refl) cs found,
      record {
        success_new = new-latest _ _;
        closed_new = new-latest _ _;
        success_stored =
            λ s e. rw (same_found found e) (stored-latest old.last_success_open_time _);
        closed_stored = λ s e. rw (same_found found e) (stored-latest old.last_closed_open_time _);
        reset = refl;
        attempted = refl;
      },
    )
  ],
  λ id other. upsert_other _ _ (λ _. refl) id cs other,
)
