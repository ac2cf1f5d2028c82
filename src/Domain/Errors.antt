-- ===== src/Domain/Errors.antt =====
-- The errors that code tells apart: the sentinels of domain/errors.go and of the packages above it,
-- and the classified provider failure of ingestion/ports/provider_error.go. Wrapping by `%w` keeps
-- what `errors.Is` and `errors.As` see, so it leaves no trace here; the text that it adds is left out.
use xr_trading.Base.{
  ℕ, String, Bool, Option, none, some, ℤ, ◌==◌, ◌≡◌, refl, ap, ◌⊎◌, inl, inr, arith,
}

pub data Sentinel : Type 0 where
  not_found conflict reference_violation invalid_data : Sentinel
  retryable database_unavailable invalid_state : Sentinel
  task_lease_lost adapter_not_registered provider_limit_exceeded : Sentinel
  calendar_out_of_range context_canceled deadline_exceeded internal : Sentinel
  backfill_already_running : Sentinel

abbrev rank : Sentinel → ℕ
rank not_found = 0
rank conflict = 1
rank reference_violation = 2
rank invalid_data = 3
rank retryable = 4
rank database_unavailable = 5
rank invalid_state = 6
rank task_lease_lost = 7
rank adapter_not_registered = 8
rank provider_limit_exceeded = 9
rank calendar_out_of_range = 10
rank context_canceled = 11
rank deadline_exceeded = 12
rank internal = 13
rank backfill_already_running = 14

abbrev pub same_sentinel : Sentinel → Sentinel → Bool
same_sentinel a b = rank a == rank b

pub data ProviderErrorCode : Type 0 where
  rate_limited network temporary_unavailable unauthorized : ProviderErrorCode
  invalid_instrument unsupported_interval bad_request : ProviderErrorCode
  invalid_response unknown unsupported : ProviderErrorCode

-- `cause` is the sentinel that the wrapped technical cause leads to, if any.
pub record ProviderError : Type 0 where
  pub provider_code : String
  pub code : ProviderErrorCode
  pub message : String
  pub retry_after : Option ℤ
  pub cause : Option Sentinel

pub data Error : Type 0 where
  sentinel : Sentinel → Error
  provider : ProviderError → Error

-- What a Go function returns as a value and an error, of which one is nil.
pub data Result {ℓ} (Value : Type ℓ) : Type ℓ where
  err : Error → Result Value
  ok : Value → Result Value

-- `if err != nil { return err }` between two calls
infixl 5 ◌>>=◌
abbrev pub ◌>>=◌ {κ ℓ} : {B : Type κ} {A : Type ℓ} → Result A → (A → Result B) → Result B
err failure >>= next = err failure
ok value >>= next = next value

-- The same behind a call that returns only an error.
infixl 5 ◌>>◌
abbrev pub ◌>>◌ {κ} : {B : Type κ} → Result (Unit {0}) → Result B → Result B
first >> second = first >>= λ _. second

-- `if bad { return ..., e }`
abbrev pub refuse_if : Bool → Sentinel → Result (Unit {0})
refuse_if Bool.true e = err (sentinel e)
refuse_if Bool.false e = ok tt

abbrev is_cause : Sentinel → Option Sentinel → Bool
is_cause s none = Bool.false
is_cause s (some t) = same_sentinel t s

-- errors.Is
unfoldable pub errors_is : Error → Sentinel → Bool
errors_is (sentinel t) s = same_sentinel t s
errors_is (provider p) s = is_cause s p.cause

pub Result-cases {ℓ} :
    {A : Type ℓ} (r : Result A) → ((e : Error) × (r ≡ err e)) ⊎ ((x : A) × (r ≡ ok x))
Result-cases (ok x) = inr (x, refl)
Result-cases (err e) = inl (e, refl)

-- A chain that returns a value ran each of its steps.
pub bind-ok {κ ℓ} :
    {B : Type κ} {A : Type ℓ} (first : Result A) (next : A → Result B) {result : B}
    → (first >>= next) ≡ ok result
    → (value : A) × (first ≡ ok value) × (next value ≡ ok result)
bind-ok (err _) next returned = ground arith
bind-ok (ok value) next returned = (value, refl, returned)

-- A guard that lets the code go on found its condition false.
pub refuse_if-ok :
    (bad : Bool) (e : Sentinel) {v : Unit} → refuse_if bad e ≡ ok v → bad ≡ Bool.false
refuse_if-ok Bool.false e h = refl
refuse_if-ok Bool.true e h = ground arith

value_or {ℓ} : {A : Type ℓ} → A → Result A → A
value_or a (ok b) = b
value_or a (err _) = a

pub same_value {ℓ} : {A : Type ℓ} {a b : A} → ok a ≡ ok b → a ≡ b
unfolding value_or
same_value {a} h = ap (value_or a) h
