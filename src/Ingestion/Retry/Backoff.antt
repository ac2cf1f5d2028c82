-- ===== src/Ingestion/Retry/Backoff.antt =====
-- The delays that a checked configuration gives.
use xr_trading.Base.{
  ℕ, zero, suc, ◌-◌, ◌≤◌, ◌<◌, ◌≡◌, refl, true, false, some, List, [], ◌∷◌, arith, leb, ℤ, pos,
  negsuc, ltz, minz, length, get_elem?, if◌then◌else◌,
}
use xr_trading.Domain.Errors.{ok}
use xr_trading.Domain.Time.{Duration}
use xr_trading.Ingestion.Contracts.{Config}
use xr_trading.Ingestion.Retry.{is_ascending, validate_retry_config, service_config, retry_backoff}

-- The configurations that NewService accepts.
pub record IsRetryConfig (c : Config) : Type 0 where
  pub maximum_positive : ltz (pos 0) c.maximum_retry_delay ≡ true
  pub nonempty : 0 < length c.retry_backoffs
  pub ascending : is_ascending (pos 0) c.retry_backoffs ≡ true

validated-IsRetryConfig : (c : Config) → validate_retry_config c ≡ ok tt → IsRetryConfig c
unfolding validate_retry_config
validated-IsRetryConfig c h = ground arith

validated_of_ok : (given c : Config) → service_config given ≡ ok c → validate_retry_config c ≡ ok tt
unfolding service_config
validated_of_ok given c h = ground arith

-- The settings that NewService keeps, its defaults included, have a positive maximum delay and a list of
-- backoffs that is not empty and whose entries are positive and never fall.
pub service_config-IsRetryConfig :
    (given c : Config) → service_config given ≡ ok c → IsRetryConfig c
service_config-IsRetryConfig given c h = validated-IsRetryConfig c (validated_of_ok given c h)

ltz_irrefl : (a : ℤ) → ltz a a ≡ false
ltz_irrefl (pos a) = ground arith
ltz_irrefl (negsuc a) = ground arith

ltz_trans : (a b c : ℤ) → ltz b a ≡ false → ltz c b ≡ false → ltz c a ≡ false
ltz_trans (pos a) (pos b) (pos c) h k = ground arith
ltz_trans (pos a) (pos b) (negsuc c) h k = ground arith
ltz_trans (pos a) (negsuc b) (pos c) h k = ground arith
ltz_trans (pos a) (negsuc b) (negsuc c) h k = ground arith
ltz_trans (negsuc a) (pos b) (pos c) h k = ground arith
ltz_trans (negsuc a) (pos b) (negsuc c) h k = ground arith
ltz_trans (negsuc a) (negsuc b) (pos c) h k = ground arith
ltz_trans (negsuc a) (negsuc b) (negsuc c) h k = ground arith

-- There is an entry at each index below the length.
in_range : (ds : List Duration) (i : ℕ) → i < length ds → (d : Duration) × (get_elem? ds i ≡ some d)
in_range [] i lt = elim lt [ ]
in_range (d ∷ ds) zero lt = (d, refl)
in_range (d ∷ ds) (suc i) lt = in_range ds i (omega arith)

-- An entry of a checked list is positive and not below what stands before the list.
entry :
    (previous : Duration) (ds : List Duration) (i : ℕ) {d : Duration}
    → is_ascending previous ds ≡ true
    → get_elem? ds i ≡ some d
    → (ltz (pos 0) d ≡ true) × (ltz d previous ≡ false)
unfolding is_ascending
entry previous [] i h found = ground arith
entry previous (x ∷ ds) zero h found = ground arith
entry previous (x ∷ ds) (suc i) {d} h found =
    let (positive, above) = entry x ds i (ground arith) found in
    (positive, ltz_trans previous x d (ground arith) above)

-- Entries do not fall along a checked list.
entries_ascend :
    (previous : Duration) (ds : List Duration) (i j : ℕ) {d e : Duration}
    → is_ascending previous ds ≡ true
    → i ≤ j
    → get_elem? ds i ≡ some d
    → get_elem? ds j ≡ some e
    → ltz e d ≡ false
unfolding is_ascending
entries_ascend previous [] i j h le hi hj = ground arith
entries_ascend previous (x ∷ ds) zero zero h le hi hj = ground (arith, ltz_irrefl x)
entries_ascend previous (x ∷ ds) zero (suc j) {d} {e} h le hi hj =
    ground (arith, entry x ds j {d = e} (ground arith) hj)
entries_ascend previous (x ∷ ds) (suc i) zero h le hi hj = elim le [ ]
entries_ascend previous (x ∷ ds) (suc i) (suc j) h le hi hj =
    entries_ascend x ds i j (ground arith) (omega arith) hi hj

abbrev pub IsPositive : Duration → Type 0
IsPositive d = ltz (pos 0) d ≡ true

minz-IsPositive : (a b : ℤ) → IsPositive a → IsPositive b → IsPositive (minz a b)
minz-IsPositive a b h k = ground arith

minz_mono : (a b m : ℤ) → ltz b a ≡ false → ltz (minz b m) (minz a m) ≡ false
minz_mono (pos a) (pos b) (pos m) h = ground arith
minz_mono (pos a) (pos b) (negsuc m) h = ground arith
minz_mono a b m h = ground arith

minz-le : (a b : ℤ) → ltz b (minz a b) ≡ false
minz-le (pos a) (pos b) = ground arith
minz-le a b = ground arith

-- The index that Service.retryBackoff ends with.
abbrev clamped : List Duration → ℕ → ℕ
clamped ds n = if leb (length ds) (n - 1) then length ds - 1 else n - 1

module _ (c : Config) (v : IsRetryConfig c) where
  -- With a configuration that NewService accepts, the index of retryBackoff is in range at every attempt
  -- count, and the delay is positive and at most the configured maximum.
  pub retry_backoff_found :
      (n : ℕ)
      → (d : Duration) × (retry_backoff c n ≡ some d)
        × IsPositive d
        × (ltz c.maximum_retry_delay d ≡ false)
  unfolding retry_backoff
  retry_backoff_found n =
      let at = clamped c.retry_backoffs n in
      let (d, found) = in_range c.retry_backoffs at (ground (arith, v.nonempty)) in
      let (positive, _) = entry (pos 0) c.retry_backoffs at v.ascending found in
      (
        minz d c.maximum_retry_delay,
        ground (arith, found),
        minz-IsPositive d c.maximum_retry_delay positive v.maximum_positive,
        minz-le d c.maximum_retry_delay,
      )

  -- With a configuration that NewService accepts, a later attempt never waits less than an earlier one.
  pub retry_backoff_mono :
      (m n : ℕ) {d e : Duration}
      → m ≤ n
      → retry_backoff c m ≡ some d
      → retry_backoff c n ≡ some e
      → ltz e d ≡ false
  unfolding retry_backoff
  retry_backoff_mono m n {d} {e} h hd he =
      let i = clamped c.retry_backoffs m in
      let j = clamped c.retry_backoffs n in
      let (x, at_i) = in_range c.retry_backoffs i (ground (arith, v.nonempty)) in
      let (y, at_j) = in_range c.retry_backoffs j (ground (arith, v.nonempty)) in
      let ascend =
        entries_ascend (pos 0) c.retry_backoffs i j v.ascending (ground (arith, v.nonempty)) at_i
          at_j in
      ground (arith, at_i, at_j, minz_mono x y c.maximum_retry_delay ascend)
