-- ===== src/Capture/Counts.antt =====
-- The counts of `MutationCapture` are those of the launches.
use pkgundo.Prelude.{
  Bool, Bool-cases, ℕ, ◌+◌, ◌-◌, ◌<◌, [], ◌∷◌, Option, Option-cases, none, some, if◌then◌else◌,
  if-post, ◌==◌, ==_iff, All, ◌≡◌, ◌≢◌, arith, inl, inr,
}
use pkgundo.Maps.{lookup, put, without, lookup-put, lookup-without}
use pkgundo.Capture.{same_dev, Counts, references, bump, release_by, release}

-- What the counts stand for: how many launches each file system has.
abbrev pub Spec : Type 0
Spec = ℕ → ℕ

abbrev pub spec_start : ℕ → Spec → Spec
spec_start dev n d = if same_dev dev d then n d + 1 else n d

abbrev pub spec_stop : ℕ → Spec → Spec
spec_stop dev n d = if same_dev dev d then n d - 1 else n d

abbrev pub spec_of : Counts → Spec
spec_of c d = references d c

pub bump_lem : (c : Counts) (dev d : ℕ) → references d (bump c dev).1 ≡ spec_start dev (spec_of c) d
unfolding bump
bump_lem c dev d = ground (arith, lookup-put same_dev ==_iff dev d (references dev c + 1) c)

pub release_lem :
    (c : Counts) (dev d : ℕ) → references d (release c dev).1 ≡ spec_stop dev (spec_of c) d
unfolding release
release_lem c dev d = elim (Option-cases (lookup same_dev dev c)) [
  | inl nothing ↦ ground arith
  | inr (n, found) ↦ elim (Bool-cases (n - 1 == 0)) [
    | inl last ↦ ground (arith, lookup-without same_dev ==_iff dev d c)
    | inr more ↦ ground (arith, lookup-put same_dev ==_iff dev d (n - 1) c)
  ]
]

-- No file system is listed without a launch.
abbrev pub IsPositive : Counts → Type 0
IsPositive c = All (λ (e : ℕ × ℕ). 0 < e.1) c

without-IsPositive : (dev : ℕ) (c : Counts) → IsPositive c → IsPositive (without same_dev dev c)
unfolding without
without-IsPositive dev [] positive = tt
without-IsPositive dev ((d, n) ∷ c) (here, positive) =
    if-post IsPositive (same_dev d dev) (λ same. without-IsPositive dev c positive)
      (λ other. (here, without-IsPositive dev c positive))

pub bump-IsPositive : (c : Counts) (dev : ℕ) → IsPositive c → IsPositive (bump c dev).1
unfolding bump put
bump-IsPositive c dev positive = (omega arith, without-IsPositive dev c positive)

release_by-IsPositive :
    (c : Counts) (dev : ℕ) (count : Option ℕ) → IsPositive c → IsPositive (release_by c dev count).1
unfolding release_by put
release_by-IsPositive c dev none positive = positive
release_by-IsPositive c dev (some n) positive =
    if-post (λ (r : Bool × Counts). IsPositive r.1) (n - 1 == 0)
      (λ last. without-IsPositive dev c positive)
      (λ more. (ground arith, without-IsPositive dev c positive))

pub release-IsPositive : (c : Counts) (dev : ℕ) → IsPositive c → IsPositive (release c dev).1
unfolding release
release-IsPositive c dev = release_by-IsPositive c dev (lookup same_dev dev c)

pub bump-ne-nil : (c : Counts) (dev : ℕ) → (bump c dev).1 ≢ []
unfolding bump put
bump-ne-nil c dev h = cc
