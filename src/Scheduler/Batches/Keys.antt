-- ===== src/Scheduler/Batches/Keys.antt =====
-- A run key identifies its window.
use xr_trading.Base.{ℕ, suc, ◌≡◌, refl, sym, true, ◌∙◌, List, [], ◌∷◌, ◌++◌, length, arith}
use xr_trading.Domain.Text.{codes}
use xr_trading.Domain.Time.{Instant}
use xr_trading.Domain.Task.{Uuid}
use xr_trading.Scheduler.Window.{WindowTrigger, close, revision, unsupported, is_supported}
use xr_trading.Scheduler.Batches.{Texts, join_dots, stable_run_key}

-- Texts of one length, behind which further characters follow, are cut off alike.
pub cons_cancel : {c d : ℕ} {cs ds : List ℕ} → c ∷ cs ≡ d ∷ ds → (c ≡ d) × (cs ≡ ds)
cons_cancel h = (cc h, cc h)

missing : {n : ℕ} → 0 ≡ suc n → ⊥
missing h = omega (arith, h)

append_cancel :
    (xs ys : List ℕ) {us vs : List ℕ}
    → length xs ≡ length ys
    → xs ++ us ≡ ys ++ vs
    → (xs ≡ ys) × (us ≡ vs)
append_cancel [] [] same h = (refl, h)
append_cancel [] (y ∷ ys) same h = elim (missing same) [ ]
append_cancel (x ∷ xs) [] same h = elim (missing (sym same)) [ ]
append_cancel (x ∷ xs) (y ∷ ys) same h =
    let (head, tail) = cons_cancel h in
    let (front, rest) = append_cancel xs ys (omega (arith, same)) tail in (cc (head, front), rest)

differs : ◌≡◌ {A = ℕ} 105 114 → ⊥
differs h = omega (arith, h)

differs_back : ◌≡◌ {A = ℕ} 114 105 → ⊥
differs_back h = omega (arith, h)

-- What the run key relies on: the text of an ID has 36 characters, that of a time of the years 0 to 9999 has
-- 26, and different IDs and different times of this kind have different texts.
pub record IsTexts (texts : Texts) (known : Uuid → Type 0) (stored : Instant → Type 0)
    : Type 0 where
  pub id_length : (id : Uuid) → known id → length (codes (texts.id_text id)) ≡ 36
  pub time_length : (t : Instant) → stored t → length (codes (texts.key_time t)) ≡ 26
  pub same_id :
      (a b : Uuid) → known a → known b → codes (texts.id_text a) ≡ codes (texts.id_text b) → a ≡ b
  pub same_time :
      (s t : Instant)
      → stored s
      → stored t
      → codes (texts.key_time s) ≡ codes (texts.key_time t)
      → s ≡ t

module _ (texts : Texts) (known : Uuid → Type 0) (stored : Instant → Type 0)
    (given : IsTexts texts known stored) where
  -- The part of a key that tells the subscription and the range.
  abbrev tail_key : Uuid → Instant → Instant → List ℕ
  tail_key id start end =
      codes (texts.id_text id)
      ++ (46 ∷ (codes (texts.key_time start) ++ (46 ∷ codes (texts.key_time end))))

  tail_key-same :
      (a b : Uuid) (s t e f : Instant)
      → known a
      → known b
      → stored s
      → stored t
      → stored e
      → stored f
      → tail_key a s e ≡ tail_key b t f
      → (a ≡ b) × (s ≡ t) × (e ≡ f)
  tail_key-same a b s t e f a_in b_in s_in t_in e_in f_in h =
      let (id, v1) =
        append_cancel (codes (texts.id_text a)) (codes (texts.id_text b))
          (given.id_length a a_in ∙ sym (given.id_length b b_in)) h in
      let (start, v2) =
        append_cancel (codes (texts.key_time s)) (codes (texts.key_time t))
          (given.time_length s s_in ∙ sym (given.time_length t t_in)) (cons_cancel v1).1 in
      (
        given.same_id a b a_in b_in id,
        given.same_time s t s_in t_in start,
        given.same_time e f e_in f_in (cons_cancel v2).1,
      )

  -- Two scheduled windows with the same run key are the same work: the trigger, the subscription and the range
  -- agree, for IDs and times as in IsTexts. So the unique index on run_key never takes one window for another.
  pub stable_run_key-same :
      (x y : WindowTrigger) (a b : Uuid) (s t e f : Instant)
      → is_supported x ≡ true
      → is_supported y ≡ true
      → known a
      → known b
      → stored s
      → stored t
      → stored e
      → stored f
      → stable_run_key texts x a s e ≡ stable_run_key texts y b t f
      → (x ≡ y) × (a ≡ b) × (s ≡ t) × (e ≡ f)
  unfolding stable_run_key join_dots
  stable_run_key-same close close a b s t e f x_in y_in a_in b_in s_in t_in e_in f_in h =
      let rest =
        (append_cancel (codes "incremental.scheduler.close.") (codes "incremental.scheduler.close.")
          {us = tail_key a s e} {vs = tail_key b t f} refl h).1 in
      let (id, start, end) = tail_key-same a b s t e f a_in b_in s_in t_in e_in f_in rest in
      (refl, id, start, end)
  stable_run_key-same revision revision a b s t e f x_in y_in a_in b_in s_in t_in e_in f_in h =
      let rest =
        (append_cancel (codes "revision.scheduler.revision.") (codes "revision.scheduler.revision.")
          {us = tail_key a s e} {vs = tail_key b t f} refl h).1 in
      let (id, start, end) = tail_key-same a b s t e f a_in b_in s_in t_in e_in f_in rest in
      (refl, id, start, end)
  stable_run_key-same close revision a b s t e f x_in y_in a_in b_in s_in t_in e_in f_in h =
      elim (differs (cons_cancel h).0) [ ]
  stable_run_key-same revision close a b s t e f x_in y_in a_in b_in s_in t_in e_in f_in h =
      elim (differs_back (cons_cancel h).0) [ ]
  stable_run_key-same unsupported y a b s t e f x_in y_in a_in b_in s_in t_in e_in f_in h =
      ground (arith, x_in)
  stable_run_key-same close unsupported a b s t e f x_in y_in a_in b_in s_in t_in e_in f_in h =
      ground (arith, y_in)
  stable_run_key-same revision unsupported a b s t e f x_in y_in a_in b_in s_in t_in e_in f_in h =
      ground (arith, y_in)
