-- ===== src/Scheduler/CatchUp/Groups.antt =====
-- What missingWindowGroups and allWindowsPresent guarantee.
use xr_trading.Base.{
  ℕ, zero, suc, ◌-◌, ◌≤◌, ◌<◌, ◌≡◌, ◌↔◌, refl, ap, ◌∙◌, true, List, [], ◌∷◌, ◌++◌, map, length, All,
  arith, Bool-cases, inl, inr,
}
use mathlib.Core.List.{append_assoc}
use mathlib.Core.Path.{subst}
use xr_trading.Domain.Time.{Instant}
use xr_trading.Scheduler.Window.{CollectionWindow}
use xr_trading.Scheduler.CatchUp.{is_present, missing_window_groups, all_windows_present}
use xr_trading.Scheduler.CatchUp.Runs.{
  Run, missing, span_run, bars, cut, runs, group_loop-runs, cut-missing, cut-split, length-cut,
}

runs-missing :
    (fuel : ℕ) (existing : List Instant) (m g : ℕ) (cs : List CollectionWindow)
    → length cs ≤ fuel
    → (rest : List CollectionWindow) × (bars (runs fuel existing m g cs) ++ rest
        ≡ missing existing cs)
      × (length (runs fuel existing m g cs) < g → rest ≡ [])
unfolding runs
runs-missing fuel existing m zero cs h = (missing existing cs, refl, λ lt. elim lt [ ])
runs-missing zero existing m (suc g) [] h = ([], refl, λ _. refl)
runs-missing zero existing m (suc g) (c ∷ cs) h = elim h [ ]
runs-missing (suc fuel) existing m (suc g) [] h = ([], refl, λ _. refl)
runs-missing (suc fuel) existing m (suc g) (c ∷ cs) h =
    elim (Bool-cases (is_present existing c.range_start)) [
      | inl stored ↦
          let tail = runs-missing fuel existing m (suc g) cs (omega arith) in rw (stored, runs) tail
      | inr absent ↦
          let rest = (cut existing (m - 1) cs).1 in
          let tail =
            runs-missing fuel existing m g rest (omega (arith, length-cut existing (m - 1) cs)) in
          rw (absent, runs)
            (
              tail.0,
              ap (λ l. c ∷ l)
                  (append_assoc (cut existing (m - 1) cs).0 _ _
                    ∙ ap (λ l. (cut existing (m - 1) cs).0 ++ l) tail.1
                    ∙ cut-missing existing (m - 1) cs),
              λ lt. tail.2 (omega arith),
            )
    ]

length-runs :
    (fuel : ℕ) (existing : List Instant) (m g : ℕ) (cs : List CollectionWindow)
    → length (runs fuel existing m g cs) ≤ g
unfolding runs
length-runs fuel existing m zero cs = omega arith
length-runs zero existing m (suc g) cs = omega arith
length-runs (suc fuel) existing m (suc g) [] = omega arith
length-runs (suc fuel) existing m (suc g) (c ∷ cs) = ground (
  arith,
  length-runs fuel existing m (suc g) cs,
  length-runs fuel existing m g (cut existing (m - 1) cs).1,
)

-- A run of at most so many bars.
abbrev pub IsSmall : ℕ → Run → Type 0
IsSmall m r = suc (length r.1) ≤ m

runs-IsSmall :
    (fuel : ℕ) (existing : List Instant) (m g : ℕ) (cs : List CollectionWindow)
    → 1 ≤ m
    → All (IsSmall m) (runs fuel existing m g cs)
unfolding runs
runs-IsSmall fuel existing m zero cs h = tt
runs-IsSmall zero existing m (suc g) cs h = tt
runs-IsSmall (suc fuel) existing m (suc g) [] h = tt
runs-IsSmall (suc fuel) existing m (suc g) (c ∷ cs) h = ground (
  arith,
  length-cut existing (m - 1) cs,
  runs-IsSmall fuel existing m (suc g) cs,
  runs-IsSmall fuel existing m g (cut existing (m - 1) cs).1,
)

-- The bars of the run stand next to one another in the list.
abbrev pub IsSegment : List CollectionWindow → Run → Type 0
IsSegment cs r = (before after : List CollectionWindow) × (before ++ (r.0 ∷ (r.1 ++ after)) ≡ cs)

IsSegment-behind :
    (cs : List CollectionWindow) (c : CollectionWindow) (rs : List Run)
    → All (IsSegment cs) rs
    → All (IsSegment (c ∷ cs)) rs
IsSegment-behind cs c [] seg = tt
IsSegment-behind cs c (r ∷ rs) ((before, after, same), more) =
    ((c ∷ before, after, ap (λ l. c ∷ l) same), IsSegment-behind cs c rs more)

IsSegment-after :
    (front cs : List CollectionWindow) (rs : List Run)
    → All (IsSegment cs) rs
    → All (IsSegment (front ++ cs)) rs
IsSegment-after [] cs rs seg = seg
IsSegment-after (c ∷ front) cs rs seg =
    IsSegment-behind (front ++ cs) c rs (IsSegment-after front cs rs seg)

runs-IsSegment :
    (fuel : ℕ) (existing : List Instant) (m g : ℕ) (cs : List CollectionWindow)
    → All (IsSegment cs) (runs fuel existing m g cs)
unfolding runs
runs-IsSegment fuel existing m zero cs = tt
runs-IsSegment zero existing m (suc g) cs = tt
runs-IsSegment (suc fuel) existing m (suc g) [] = tt
runs-IsSegment (suc fuel) existing m (suc g) (c ∷ cs) =
    elim (Bool-cases (is_present existing c.range_start)) [
      | inl stored ↦
          rw (stored, runs)
            (IsSegment-behind cs c (runs fuel existing m (suc g) cs)
              (runs-IsSegment fuel existing m (suc g) cs))
      | inr absent ↦
          let more = (cut existing (m - 1) cs).0 in
          let rest = (cut existing (m - 1) cs).1 in
          let later = runs fuel existing m g rest in
          let behind : All (IsSegment (more ++ rest)) later =
            IsSegment-after more rest later (runs-IsSegment fuel existing m g rest) in
          let moved : All (IsSegment cs) later =
            subst (λ l. All (IsSegment l) later) (cut-split existing (m - 1) cs) behind in
          rw (absent, runs)
            (
              ([], rest, ap (λ l. c ∷ l) (cut-split existing (m - 1) cs)),
              IsSegment-behind cs c later moved,
            )
    ]

-- The groups are the spans of runs of missing candidates, each of at most `m` bars that follow one another, in order.
-- There are at most `g`, and if there are fewer, no missing candidate is left out.
pub record IsGrouping (candidates : List CollectionWindow) (existing : List Instant) (m g : ℕ)
    (groups : List CollectionWindow) : Type 0 where
  pub chosen : List Run
  pub grouped : groups ≡ map span_run chosen
  pub left_out : List CollectionWindow
  pub complete : bars chosen ++ left_out ≡ missing existing candidates
  pub exhaustive : length chosen < g → left_out ≡ []
  pub few : length chosen ≤ g
  pub small : All (IsSmall m) chosen
  pub consecutive : All (IsSegment candidates) chosen

-- With a positive limit on the bars of a group, the groups of missingWindowGroups are the spans of
-- runs of candidates that are not stored, in order; the bars of a run follow one another in the list of all
-- candidates, and there are at most the limit's of them. There are
-- at most as many groups as the limit on groups says, and where there are fewer, no missing candidate is
-- left out.
pub missing_window_groups-IsGrouping :
    (candidates : List CollectionWindow) (existing : List Instant) (m g : ℕ)
    → 1 ≤ m
    → IsGrouping candidates existing m g (missing_window_groups candidates existing m g)
unfolding missing_window_groups
missing_window_groups-IsGrouping candidates existing m g h =
    let found = runs-missing (length candidates) existing m g candidates (omega arith) in
    record {
      chosen = runs (length candidates) existing m g candidates;
      grouped = group_loop-runs (length candidates) existing m g candidates;
      left_out = found.0;
      complete = found.1;
      exhaustive = found.2;
      few = length-runs (length candidates) existing m g candidates;
      small = runs-IsSmall (length candidates) existing m g candidates h;
      consecutive = runs-IsSegment (length candidates) existing m g candidates;
    }

-- allWindowsPresent answers true exactly when no candidate is missing.
pub all_windows_present-missing :
    (candidates : List CollectionWindow) (existing : List Instant)
    → (all_windows_present candidates existing ≡ true) ↔ (missing existing candidates ≡ [])
unfolding all_windows_present
all_windows_present-missing [] existing = (λ _. refl, λ _. refl)
all_windows_present-missing (c ∷ cs) existing =
    let (to, from) = all_windows_present-missing cs existing in (ground arith, ground arith)
