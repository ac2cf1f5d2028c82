-- ===== src/Domain/Time/Truncate.antt =====
-- What truncation to a duration gives.
use native.Mathlib.Nat.{mod-lt, div-add-mod}
use xr_trading.Base.{ℕ, ◌+◌, ◌%◌, ◌≤◌, ◌<◌, ◌≡◌, arith}
use xr_trading.Domain.Time.{truncate}

pub truncate-le : (t d : ℕ) → truncate t d ≤ t
unfolding truncate
truncate-le t d = omega arith

pub lt-truncate : (t d : ℕ) → 0 < d → t < truncate t d + d
unfolding truncate
lt-truncate t d h = omega (arith, mod-lt t h)

pub truncate-mod : (t d : ℕ) → truncate t d % d ≡ 0
unfolding truncate
truncate-mod t d = grind arith

pub truncate_multiple : (t d : ℕ) → t % d ≡ 0 → truncate t d ≡ t
unfolding truncate
truncate_multiple t d h = omega (arith, h)

pub le-truncate : (t d : ℕ) → 0 < truncate t d → d ≤ truncate t d
unfolding truncate
le-truncate t d h = grind (arith, div-add-mod t d)
