-- ===== src/Scheduler/CatchUp/Runs.antt =====
-- The reference for missingWindowGroups: the missing candidates, cut into runs. A run is a first
-- candidate and those joined to it.
use xr_trading.Base.{
  ℕ, zero, suc, ◌+◌, ◌-◌, ◌≤◌, ◌≡◌, refl, true, false, List, [], ◌∷◌, ◌++◌, map, length, arith,
  if◌then◌else◌,
}
use xr_trading.Domain.Time.{Instant}
use xr_trading.Scheduler.Window.{CollectionWindow}
use xr_trading.Scheduler.CatchUp.{is_present, extend_group, group_loop}

abbrev pub Run : Type 0
Run = CollectionWindow × List CollectionWindow

-- The candidates whose bar is not stored.
abbrev pub missing : List Instant → List CollectionWindow → List CollectionWindow
missing existing [] = []
missing existing (c ∷ cs) =
    if is_present existing c.range_start then missing existing cs else c ∷ missing existing cs

-- The task range of a run: from the start of its first bar to the end of its last.
abbrev pub span : CollectionWindow → List CollectionWindow → CollectionWindow
span first [] = first
span first (c ∷ cs) =
    span (record first { range_end = c.range_end; eligible_at = c.eligible_at }) cs

abbrev pub span_run : Run → CollectionWindow
span_run (first, more) = span first more

-- The bars of all runs, in order.
abbrev pub bars : List Run → List CollectionWindow
bars [] = []
bars ((first, more) ∷ runs) = first ∷ (more ++ bars runs)

-- The first missing candidates, at most so many and all next to one another; and the rest.
unfoldable pub cut :
    List Instant → ℕ → List CollectionWindow → List CollectionWindow × List CollectionWindow
cut existing room [] = ([], [])
cut existing zero (c ∷ cs) = ([], c ∷ cs)
cut existing (suc room) (c ∷ cs) =
    let (more, rest) = cut existing room cs in
    if is_present existing c.range_start then ([], c ∷ cs) else (c ∷ more, rest)

unfoldable pub runs : ℕ → List Instant → ℕ → ℕ → List CollectionWindow → List Run
runs fuel existing maximum_bars zero candidates = []
runs zero existing maximum_bars (suc groups) candidates = []
runs (suc fuel) existing maximum_bars (suc groups) [] = []
runs (suc fuel) existing maximum_bars (suc groups) (c ∷ cs) =
    elim (is_present existing c.range_start) [
      | true ↦ runs fuel existing maximum_bars (suc groups) cs
      | false ↦
          let (more, rest) = cut existing (maximum_bars - 1) cs in
          (c, more) ∷ runs fuel existing maximum_bars groups rest
    ]

extend_group-cut :
    (existing : List Instant) (room : ℕ) (group : CollectionWindow) (cs : List CollectionWindow)
    → extend_group existing room group cs
      ≡ (span group (cut existing room cs).0, (cut existing room cs).1)
unfolding extend_group cut
extend_group-cut existing room group [] = refl
extend_group-cut existing zero group (c ∷ cs) = refl
extend_group-cut existing (suc room) group (c ∷ cs) = ground (
  arith,
  extend_group-cut existing room
      (record group { range_end = c.range_end; eligible_at = c.eligible_at }) cs,
)

pub group_loop-runs :
    (fuel : ℕ) (existing : List Instant) (m g : ℕ) (cs : List CollectionWindow)
    → group_loop fuel existing m g cs ≡ map span_run (runs fuel existing m g cs)
unfolding group_loop runs
group_loop-runs fuel existing m zero cs = refl
group_loop-runs zero existing m (suc g) cs = refl
group_loop-runs (suc fuel) existing m (suc g) [] = refl
group_loop-runs (suc fuel) existing m (suc g) (c ∷ cs) = ground (
  arith,
  extend_group-cut existing (m - 1) c cs,
  group_loop-runs fuel existing m (suc g) cs,
  group_loop-runs fuel existing m g (cut existing (m - 1) cs).1,
)

pub cut-missing :
    (existing : List Instant) (room : ℕ) (cs : List CollectionWindow)
    → (cut existing room cs).0 ++ missing existing (cut existing room cs).1 ≡ missing existing cs
unfolding cut
cut-missing existing room [] = refl
cut-missing existing zero (c ∷ cs) = refl
cut-missing existing (suc room) (c ∷ cs) = ground (arith, cut-missing existing room cs)

pub length-cut :
    (existing : List Instant) (room : ℕ) (cs : List CollectionWindow)
    → (length (cut existing room cs).0 ≤ room)
      × (length (cut existing room cs).0 + length (cut existing room cs).1 ≡ length cs)
unfolding cut
length-cut existing room [] = omega arith
length-cut existing zero (c ∷ cs) = omega arith
length-cut existing (suc room) (c ∷ cs) = ground (arith, length-cut existing room cs)

pub cut-split :
    (existing : List Instant) (room : ℕ) (cs : List CollectionWindow)
    → (cut existing room cs).0 ++ (cut existing room cs).1 ≡ cs
unfolding cut
cut-split existing room [] = refl
cut-split existing zero (c ∷ cs) = refl
cut-split existing (suc room) (c ∷ cs) = ground (arith, cut-split existing room cs)
