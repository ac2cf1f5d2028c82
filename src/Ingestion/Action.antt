-- ===== src/Ingestion/Action.antt =====
-- Calls in sequence: each may change the state that the next one sees, and the first that fails ends
-- the sequence with its error.
use xr_trading.Base.{◌≡◌, refl, arith}
use xr_trading.Domain.Errors.{Result, ok, err}

abbrev pub Action {ℓ} : Type 0 → Type ℓ → Type ℓ
Action State Value = State → Result Value × State

module _ {State : Type 0} where
  unfoldable pub continue {κ ℓ} :
      {B : Type κ} {A : Type ℓ} → Result A × State → (A → Action State B) → Result B × State
  continue (err e, s) next = (err e, s)
  continue (ok value, s) next = next value s

  infixl 5 ◌>>=◌
  abbrev pub ◌>>=◌ {κ ℓ} :
      {B : Type κ} {A : Type ℓ} → Action State A → (A → Action State B) → Action State B
  (first >>= next) s = continue (first s) next

  infixl 5 ◌>>◌
  abbrev pub ◌>>◌ {κ} : {B : Type κ} → Action State (Unit {0}) → Action State B → Action State B
  first >> second = first >>= λ _. second

  -- A computation that touches no state.
  abbrev pub pure {ℓ} : {A : Type ℓ} → Result A → Action State A
  pure value s = (value, s)

  -- A sequence that returns a value ran its first action, and ends as the rest does.
  pub continue-ok {κ ℓ} :
      {B : Type κ} {A : Type ℓ} (first : Result A × State) (next : A → Action State B) {result : B}
      → (continue first next).0 ≡ ok result
      → (value : A) × (first.0 ≡ ok value)
        × ((next value first.1).0 ≡ ok result)
        × (continue first next ≡ next value first.1)
  unfolding continue
  continue-ok (ok value, s) next h = (value, refl, h, refl)
  continue-ok (err e, s) next h = ground (arith, h)

  -- A sequence keeps a predicate when its first action has, and the rest does for what the first returned.
  pub continue-keeps {κ ℓ} :
      {B : Type κ} {A : Type ℓ} (P : State → Type 0) (first : Result A × State)
      (next : A → Action State B)
      → P first.1
      → ((value : A) → first.0 ≡ ok value → P (next value first.1).1)
      → P (continue first next).1
  unfolding continue
  continue-keeps P (ok value, s) next kept rest = rest value refl
  continue-keeps P (err e, s) next kept rest = kept
