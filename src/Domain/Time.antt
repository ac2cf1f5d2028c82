-- ===== src/Domain/Time.antt =====
-- Instants and durations: the part of Go's time package that the service uses, and
-- domain/instant.go. An instant is a number of nanoseconds since a moment 106752 days before Go's
-- zero time, so that an instant minus any Duration (an int64 of nanoseconds) is again a number.
-- Time zones show only where a calendar asks for them; instants are compared as instants.
pub mod Truncate
use xr_trading.Base.{arith, ◌≡◌, ℕ, suc, ◌+◌, ◌-◌, ◌%◌, Bool, ◌==◌, ℤ, pos, negsuc, if◌then◌else◌}
use xr_trading.Domain.Errors.{Result, ok, err, sentinel, invalid_data}

abbrev pub Instant : Type 0
Instant = ℕ

abbrev pub Duration : Type 0
Duration = ℤ

abbrev pub second : ℕ
second = 1000000000

abbrev pub minute : ℕ
minute = 60000000000

abbrev pub hour : ℕ
hour = 3600000000000

abbrev pub day : ℕ
day = 86400000000000

abbrev pub zero_time : Instant
zero_time = 9223372800000000000

-- Time.IsZero
abbrev pub is_zero : Instant → Bool
is_zero t = t == zero_time

-- A timestamptz column holds microseconds: the nanoseconds below are cut off on the way into the database.
abbrev pub stored_time : Instant → Instant
stored_time t = t - t % 1000

-- Time.Add
abbrev pub add : Instant → Duration → Instant
add t (pos n) = t + n
add t (negsuc n) = t - suc n

-- Time.Truncate: Go counts from its zero time, which lies a whole number of days after ours.
unfoldable pub truncate : Instant → ℕ → Instant
truncate t d = t - t % d

-- domain.NewUTCInstant
unfoldable pub new_utc_instant : Instant → Result Instant
new_utc_instant value = if is_zero value then err (sentinel invalid_data) else ok value

pub new_utc_instant-same :
    (value : Instant) {made : Instant} → new_utc_instant value ≡ ok made → made ≡ value
unfolding new_utc_instant
new_utc_instant-same value h = ground (arith, h)
