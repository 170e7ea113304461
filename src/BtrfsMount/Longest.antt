-- ===== src/BtrfsMount/Longest.antt =====
-- The mount that is found covers the path, and no mount that covers it is longer.
use pkgundo.Prelude.{
  Text, lines, true, ℕ, List, [], ◌∷◌, Option, Option-cases, none, some, ◌≡◌, inl, inr, arith, ◌≤◌,
  All,
}
use pkgundo.Paths.{components, path_starts_with}
use pkgundo.BtrfsMount.{
  MountEntry, byte_len, best_len, better, best_mount, parse_mount_line, find_mount_source,
}

abbrev pub Covers : Text → MountEntry → Type 0
Covers path e = path_starts_with (components path) (components e.mount_point) ≡ true

-- A mount that covers the path and that this line describes is not longer than `n` bytes.
abbrev pub IsWithin : Text → ℕ → Text → Type 0
IsWithin path n line =
    (e : MountEntry) → parse_mount_line line ≡ some e → Covers path e → byte_len e.mount_point ≤ n

better_grows :
    (path : Text) (line : Option MountEntry) (best : Option MountEntry)
    → best_len best ≤ best_len (better path line best)
better_grows path none best = omega arith
better_grows path (some e) best = ground arith

best_mount_grows :
    (path : Text) (ls : List Text) (best : Option MountEntry)
    → best_len best ≤ best_len (best_mount path ls best)
unfolding best_mount
best_mount_grows path [] best = omega arith
best_mount_grows path (line ∷ ls) best = omega (
  arith,
  better_grows path (parse_mount_line line) best,
  best_mount_grows path ls (better path (parse_mount_line line) best),
)

better_within :
    (path : Text) (line : Option MountEntry) (best : Option MountEntry) (e : MountEntry)
    → line ≡ some e
    → Covers path e
    → byte_len e.mount_point ≤ best_len (better path line best)
better_within path none best e parsed covers = absurd (cc parsed)
better_within path (some f) best e same covers = ground arith

best_mount-IsWithin :
    (path : Text) (ls : List Text) (best : Option MountEntry) (n : ℕ)
    → best_len (best_mount path ls best) ≤ n
    → All (IsWithin path n) ls
unfolding best_mount
best_mount-IsWithin path [] best n most = tt
best_mount-IsWithin path (line ∷ ls) best n most = (
  λ e parsed covers. omega (
    arith,
    better_within path (parse_mount_line line) best e parsed covers,
    best_mount_grows path ls (better path (parse_mount_line line) best),
  ),
  best_mount-IsWithin path ls (better path (parse_mount_line line) best) n most,
)

abbrev IsCovering : Text → Option MountEntry → Type 0
IsCovering path best = (e : MountEntry) → best ≡ some e → Covers path e

better-IsCovering :
    (path : Text) (line : Option MountEntry) (best : Option MountEntry)
    → IsCovering path best
    → IsCovering path (better path line best)
better-IsCovering path none best covering f h = covering f h
better-IsCovering path (some e) best covering f h = ground (arith, covering f)

best_mount-IsCovering :
    (path : Text) (ls : List Text) (best : Option MountEntry)
    → IsCovering path best
    → IsCovering path (best_mount path ls best)
unfolding best_mount
best_mount-IsCovering path [] best covering = covering
best_mount-IsCovering path (line ∷ ls) best covering =
    best_mount-IsCovering path ls (better path (parse_mount_line line) best)
      (better-IsCovering path (parse_mount_line line) best covering)

-- The source that is found for a path is that of a mount that covers the path, and no line of the
-- table describes a mount that covers the path and whose mount point is longer.
pub find_mount_source_longest :
    (mountinfo path source fstype : Text)
    → find_mount_source mountinfo path ≡ some (source, fstype)
    → (e : MountEntry) × ((Covers path e × ((e.source ≡ source) × (e.fstype ≡ fstype)))
        × All (IsWithin path (byte_len e.mount_point)) (lines mountinfo))
unfolding find_mount_source
find_mount_source_longest mountinfo path source fstype h =
    elim (Option-cases (best_mount path (lines mountinfo) none)) [
      | inl nothing ↦ absurd (ground arith)
      | inr (e, found) ↦ (
        e,
        (
          (
            best_mount-IsCovering path (lines mountinfo) none (λ f same. absurd (cc same)) e found,
            ground arith,
          ),
          best_mount-IsWithin path (lines mountinfo) none (byte_len e.mount_point) (ground arith),
        ),
      )
    ]
