-- ===== src/Store/Rows.antt =====
-- Lemmas on the statements of Store/Database, and on rows with distinct keys.
use xr_trading.Base.{
  ◌≤◌, ◌≡◌, ◌≢◌, refl, sym, ◌⊎◌, inl, inr, Bool, true, false, none, some, List, [], ◌∷◌, All, arith,
  Bool-cases, Option-cases, leb, ◌&&◌,
}
use mathlib.Core.Path.{subst}
use xr_trading.Domain.Task.{IngestionTask}
use xr_trading.Store.Database.{select_one, update_where}
use xr_trading.Store.Queue.{oldest, has_id}

module _ {ℓ κ} {A : Type ℓ} (P : A → Type κ) where
  pub All-update_where :
      (p : A → Bool) (f : A → A) (xs : List A)
      → ((x : A) → p x ≡ true → P x → P (f x))
      → All P xs
      → All P (update_where p f xs)
  unfolding update_where
  All-update_where p f [] keep h = tt
  All-update_where p f (x ∷ xs) keep h = elim (Bool-cases (p x)) [
    | inl hit ↦ rw hit (keep x hit h.0, All-update_where p f xs keep h.1)
    | inr miss ↦ rw miss (h.0, All-update_where p f xs keep h.1)
  ]

  pub All-select_one :
      (p : A → Bool) (xs : List A) {x : A} → All P xs → select_one p xs ≡ some x → P x
  unfolding select_one
  All-select_one p [] h e = ground arith
  All-select_one p (y ∷ xs) {x} h e = ground (arith, h.0, All-select_one p xs {x = x} h.1)

pub All-map {ℓ κ ι} :
    {A : Type ℓ} {P : A → Type κ} {Q : A → Type ι} (xs : List A)
    → ((x : A) → P x → Q x)
    → All P xs
    → All Q xs
All-map [] f h = tt
All-map (x ∷ xs) f h = (f x h.0, All-map xs f h.1)

-- Two tables whose rows correspond one by one.
pub data Rows {ℓ κ} {A : Type ℓ} (R : A → A → Type κ) : List A → List A → Type (ℓ ⊔ κ) where
  nil : Rows R [] []
  cons : {x y : A} {xs ys : List A} → R x y → Rows R xs ys → Rows R (x ∷ xs) (y ∷ ys)

module _ {ℓ κ} {A : Type ℓ} (R : A → A → Type κ) (same : (x : A) → R x x) where
  pub Rows-refl : (xs : List A) → Rows R xs xs
  Rows-refl [] = nil
  Rows-refl (x ∷ xs) = cons (same x) (Rows-refl xs)

  pub Rows-update_where {ι} :
      (P : A → Type ι) (p : A → Bool) (f : A → A) (xs : List A)
      → ((x : A) → p x ≡ true → P x → R x (f x))
      → All P xs
      → Rows R xs (update_where p f xs)
  unfolding update_where
  Rows-update_where P p f [] keep h = nil
  Rows-update_where P p f (x ∷ xs) keep h = elim (Bool-cases (p x)) [
    | inl hit ↦ rw hit (cons (keep x hit h.0) (Rows-update_where P p f xs keep h.1))
    | inr miss ↦ rw miss (cons (same x) (Rows-update_where P p f xs keep h.1))
  ]

-- The primary key: no two rows have one ID.
abbrev pub IsKeyed : List IngestionTask → Type 0
IsKeyed [] = Unit
IsKeyed (t ∷ ts) = All (λ u. u.id ≢ t.id) ts × IsKeyed ts

-- Rows with the ID of `t` are `t` itself.
abbrev pub IsOnly : IngestionTask → List IngestionTask → Type 0
IsOnly t = All λ u. u.id ≡ t.id → u ≡ t

IsOnly-of_absent :
    (t : IngestionTask) (ts : List IngestionTask) → All (λ u. u.id ≢ t.id) ts → IsOnly t ts
IsOnly-of_absent t [] h = tt
IsOnly-of_absent t (u ∷ ts) h = (λ e. absurd (h.0 e), IsOnly-of_absent t ts h.1)

module _ (p : IngestionTask → Bool) where
  -- `oldest` finds a row that fits, and rows that fit are not older.
  pub oldest_fits :
      (ts : List IngestionTask) {t : IngestionTask} → oldest p ts ≡ some t → p t ≡ true
  unfolding oldest
  oldest_fits [] h = ground arith
  oldest_fits (u ∷ ts) h = elim (Option-cases (oldest p ts)) [
    | inl missing ↦ ground (arith, missing)
    | inr (v, found) ↦ ground (arith, found, oldest_fits ts found)
  ]

  pub oldest-none : (ts : List IngestionTask) → oldest p ts ≡ none → All (λ u. p u ≡ false) ts
  unfolding oldest
  oldest-none [] h = tt
  oldest-none (u ∷ ts) h = elim (Option-cases (oldest p ts)) [
    | inl missing ↦ (ground (arith, missing), oldest-none ts missing)
    | inr (v, found) ↦ ground (arith, found)
  ]

  -- The row that a longer table gives: its first row, or the one of the rest.
  oldest-cons :
      (u : IngestionTask) (ts : List IngestionTask) {t : IngestionTask}
      → oldest p (u ∷ ts) ≡ some t
      → ((t ≡ u) × (oldest p ts ≡ none))
        ⊎ ((v : IngestionTask) × (oldest p ts ≡ some v) × (t ≡ u) × (u.created_at ≤ v.created_at))
        ⊎ ((oldest p ts ≡ some t) × (p u ≡ true → t.created_at ≤ u.created_at))
  unfolding oldest
  oldest-cons u ts {t} h = elim (Option-cases (oldest p ts)) [
    | inl missing ↦ inl (ground (arith, missing), missing)
    | inr (v, found) ↦ elim (Bool-cases (p u && leb u.created_at v.created_at)) [
      | inl first ↦ inr (inl (v, found, ground (arith, found, first), ground (arith, first)))
      | inr later ↦
          let chosen : t ≡ v = ground (arith, found, later) in
          inr (inr (rw chosen found, rw chosen (λ fits. ground (arith, later, fits))))
    ]
  ]

  pub oldest-le :
      (ts : List IngestionTask) {t : IngestionTask}
      → oldest p ts ≡ some t
      → All (λ u. p u ≡ true → t.created_at ≤ u.created_at) ts
  oldest-le [] h = tt
  oldest-le (u ∷ ts) {t} h = elim (oldest-cons u ts h) [
    | inl (first, missing) ↦ (
      λ _. rw first (omega arith),
      All-map ts (λ w out fits. ground (arith, out, fits)) (oldest-none ts missing),
    )
    | inr (inl (v, found, first, le)) ↦ (
      λ _. rw first (omega arith),
      All-map ts (λ w above fits. rw first (omega (arith, above fits)))
          (oldest-le ts {t = v} found),
    )
    | inr (inr (found, le)) ↦ (le, oldest-le ts {t = t} found)
  ]

  oldest_nil : {t : IngestionTask} → oldest p [] ≡ some t → ⊥
  unfolding oldest
  oldest_nil h = cc

  All-oldest {κ} :
      (P : IngestionTask → Type κ) (ts : List IngestionTask) {t : IngestionTask}
      → All P ts
      → oldest p ts ≡ some t
      → P t
  All-oldest P [] h e = absurd (oldest_nil e)
  All-oldest P (u ∷ ts) {t} h e = elim (oldest-cons u ts e) [
    | inl (first, _) ↦ rw first h.0
    | inr (inl (v, _, first, _)) ↦ rw first h.0
    | inr (inr (found, _)) ↦ All-oldest P ts {t = t} h.1 found
  ]

  pub oldest-IsOnly :
      (ts : List IngestionTask) {t : IngestionTask}
      → IsKeyed ts
      → oldest p ts ≡ some t
      → IsOnly t ts
  oldest-IsOnly [] k h = tt
  oldest-IsOnly (u ∷ ts) {t} k h = elim (oldest-cons u ts h) [
    | inl (first, _) ↦
        subst (λ w. IsOnly w (u ∷ ts)) (sym first) (λ _. refl, IsOnly-of_absent u ts k.0)
    | inr (inl (v, _, first, _)) ↦
        subst (λ w. IsOnly w (u ∷ ts)) (sym first) (λ _. refl, IsOnly-of_absent u ts k.0)
    | inr (inr (found, _)) ↦ (
      λ e. absurd (All-oldest (λ w. w.id ≢ u.id) ts {t = t} k.0 found (sym e)),
      oldest-IsOnly ts {t = t} k.1 found,
    )
  ]

  pub oldest-select_one :
      (ts : List IngestionTask) {t : IngestionTask}
      → IsKeyed ts
      → oldest p ts ≡ some t
      → select_one (has_id t.id) ts ≡ some t
  unfolding select_one
  oldest-select_one [] k h = absurd (oldest_nil h)
  oldest-select_one (u ∷ ts) {t} k h = elim (oldest-cons u ts h) [
    | inl (first, _) ↦ ground (arith, first)
    | inr (inl (v, _, first, _)) ↦ ground (arith, first)
    | inr (inr (found, _)) ↦
        let other : t.id ≢ u.id = All-oldest (λ w. w.id ≢ u.id) ts {t = t} k.0 found in
        ground (arith, other, oldest-select_one ts {t = t} k.1 found)
  ]

pub Rows-map {ℓ κ ι} :
    {A : Type ℓ} {R : A → A → Type κ} {S : A → A → Type ι} {xs ys : List A}
    → ((x y : A) → R x y → S x y)
    → Rows R xs ys
    → Rows S xs ys
Rows-map f nil = nil
Rows-map f (cons {x} {y} r rs) = cons (f x y r) (Rows-map f rs)

pub Rows-trans {ℓ κ} :
    {A : Type ℓ} {R : A → A → Type κ} {xs ys zs : List A}
    → ((x y z : A) → R x y → R y z → R x z)
    → Rows R xs ys
    → Rows R ys zs
    → Rows R xs zs
Rows-trans f nil nil = nil
Rows-trans f (cons {x} {y} r rs) (cons {y = z} q qs) = cons (f x y z r q) (Rows-trans f rs qs)

pub All-Rows {ℓ κ ι} :
    {A : Type ℓ} {P : A → Type ι} {R : A → A → Type κ} {xs ys : List A}
    → ((x y : A) → R x y → P x → P y)
    → Rows R xs ys
    → All P xs
    → All P ys
All-Rows f nil h = tt
All-Rows f (cons {x} {y} r rs) h = (f x y r h.0, All-Rows f rs h.1)

pub All-updated {ℓ κ ι} :
    {A : Type ℓ} (P : A → Type κ) (Q : A → Type ι) (p : A → Bool) (f : A → A) (xs : List A)
    → ((x : A) → p x ≡ true → P x → Q (f x))
    → ((x : A) → p x ≡ false → P x → Q x)
    → All P xs
    → All Q (update_where p f xs)
unfolding update_where
All-updated P Q p f [] hit miss h = tt
All-updated P Q p f (x ∷ xs) hit miss h = elim (Bool-cases (p x)) [
  | inl fits ↦ rw fits (hit x fits h.0, All-updated P Q p f xs hit miss h.1)
  | inr misfits ↦ rw misfits (miss x misfits h.0, All-updated P Q p f xs hit miss h.1)
]

pub always {ℓ} : {A : Type ℓ} (xs : List A) → All (λ _. Unit {0}) xs
always [] = tt
always (x ∷ xs) = (tt, always xs)
