-- ===== src/Review/Groups.antt =====
-- What `group_mutations` puts in its groups.
use pkgundo.Prelude.{
  Text, lit, text_eq, Bool, true, false, not, ◌&&◌, ◌||◌, Option, filter, ℕ, ◌+◌, List, [], ◌∷◌,
  ◌++◌, map, none, some, ◌≡◌, refl, arith, length, length-append, All, Option-cases, inl, inr,
  Bool-cases, ◌∙◌,
}
use pkgundo.Paths.{PathBuf, path_eq, path_lt}
use pkgundo.Paths.Laws.{path_eq_iff}
use pkgundo.Journal.{MutationRecord}
use pkgundo.Review.{
  MutationGroup, group_key_for_path, push_path, push_under, always_skipped, review_key, bucket,
  to_group, group_mutations,
}

-- How many files the groups hold.
pub file_total : List MutationGroup → ℕ
file_total [] = 0
file_total (g ∷ gs) = length g.paths + file_total gs

held : List (PathBuf × List Text) → ℕ
held [] = 0
held ((k, paths) ∷ buckets) = length paths + held buckets

held-push_path :
    (key : PathBuf) (path : Text) (buckets : List (PathBuf × List Text))
    → held (push_path key path buckets) ≡ held buckets + 1
unfolding held push_path
held-push_path key path [] = omega arith
held-push_path key path ((k, paths) ∷ buckets) =
    ground (arith, held-push_path key path buckets, length-append {0} paths (path ∷ []))

module _ (lower : Text → Text) where
  is_keyed : Option PathBuf → Bool
  is_keyed none = false
  is_keyed (some _) = true

  -- The mutation is no rename away from its path, and its path has a group key.
  is_reviewable : MutationRecord → Bool
  is_reviewable m =
      not (text_eq m.operation (lit "rename_from") || text_eq m.operation (lit "rename"))
      && is_keyed (group_key_for_path lower m.path)

  -- How many of the mutations are reviewable.
  pub reviewable : List MutationRecord → ℕ
  reviewable ms = length (filter is_reviewable ms)

  review_key-none : (m : MutationRecord) → review_key lower m ≡ none → is_reviewable m ≡ false
  unfolding review_key always_skipped is_reviewable is_keyed
  review_key-none m h = elim (Option-cases (group_key_for_path lower m.path)) [
    | inl nothing ↦ ground (arith, nothing, h)
    | inr (k, found) ↦ ground (arith, found, h)
  ]

  review_key-some :
      (m : MutationRecord) (k : PathBuf) → review_key lower m ≡ some k → is_reviewable m ≡ true
  unfolding review_key always_skipped is_reviewable is_keyed
  review_key-some m k h = elim (Option-cases (group_key_for_path lower m.path)) [
    | inl nothing ↦ absurd (ground (arith, nothing, h))
    | inr (j, found) ↦ ground (arith, found, h)
  ]

  held-bucket :
      (ms : List MutationRecord) (buckets : List (PathBuf × List Text))
      → held (bucket lower ms buckets) ≡ held buckets + reviewable ms
  unfolding bucket reviewable push_under
  held-bucket [] buckets = omega arith
  held-bucket (m ∷ ms) buckets = elim (Option-cases (review_key lower m)) [
    | inl none_found ↦ ground (arith, review_key-none m none_found, held-bucket ms buckets)
    | inr (k, found) ↦ ground (
      arith,
      review_key-some m k found,
      held-push_path k m.path buckets,
      held-bucket ms (push_path k m.path buckets),
    )
  ]

  file_total-map :
      (buckets : List (PathBuf × List Text))
      → file_total (map (to_group lower) buckets) ≡ held buckets
  unfolding file_total held to_group
  file_total-map [] = refl
  file_total-map ((k, paths) ∷ buckets) = omega (arith, file_total-map buckets)

  -- The groups hold one file for each mutation whose path has a group key and whose operation is
  -- neither "rename_from" nor "rename".
  pub file_total-group_mutations :
      (ms : List MutationRecord) → file_total (group_mutations lower ms) ≡ reviewable ms
  unfolding group_mutations held
  file_total-group_mutations ms =
      file_total-map (bucket lower ms []) ∙ omega (arith, held-bucket ms [])

  -- Every path of the bucket has the bucket's key.
  abbrev Fits : PathBuf × List Text → Type 0
  Fits b = All (λ p. group_key_for_path lower p ≡ some b.0) b.1

  All-snoc :
      (k : PathBuf) (paths : List Text) (path : Text)
      → All (λ p. group_key_for_path lower p ≡ some k) paths
      → group_key_for_path lower path ≡ some k
      → All (λ p. group_key_for_path lower p ≡ some k) (paths ++ path ∷ [])
  All-snoc k [] path _ h = (h, tt)
  All-snoc k (p ∷ paths) path (hp, hs) h = (hp, All-snoc k paths path hs h)

  push_path-Fits :
      (key : PathBuf) (path : Text) (buckets : List (PathBuf × List Text))
      → group_key_for_path lower path ≡ some key
      → All Fits buckets
      → All Fits (push_path key path buckets)
  unfolding push_path
  push_path-Fits key path [] h _ = ((h, tt), tt)
  push_path-Fits key path ((k, paths) ∷ buckets) h (fits, rest) =
      elim (Bool-cases (path_eq key k)) [
        | inl same ↦
            rw same (All-snoc k paths path fits (rw (← (path_eq_iff key k).0 same) h), rest)
        | inr differ ↦ elim (Bool-cases (path_lt key k)) [
          | inl before ↦ rw (differ, before) ((h, tt), (fits, rest))
          | inr after ↦ rw (differ, after) (fits, push_path-Fits key path buckets h rest)
        ]
      ]

  review_key_of_path :
      (m : MutationRecord) (k : PathBuf)
      → review_key lower m ≡ some k
      → group_key_for_path lower m.path ≡ some k
  unfolding review_key
  review_key_of_path m k h = ground arith

  bucket-Fits :
      (ms : List MutationRecord) (buckets : List (PathBuf × List Text))
      → All Fits buckets
      → All Fits (bucket lower ms buckets)
  unfolding bucket push_under
  bucket-Fits [] buckets h = h
  bucket-Fits (m ∷ ms) buckets h = elim (Option-cases (review_key lower m)) [
    | inl none_found ↦ rw none_found (bucket-Fits ms buckets h)
    | inr (k, found) ↦ rw found (
        bucket-Fits ms (push_path k m.path buckets)
          (push_path-Fits k m.path buckets (review_key_of_path m k found) h))
  ]

  abbrev pub IsOfGroup : MutationGroup → Type 0
  IsOfGroup g = All (λ p. group_key_for_path lower p ≡ some g.key) g.paths

  map-IsOfGroup :
      (buckets : List (PathBuf × List Text))
      → All Fits buckets
      → All IsOfGroup (map (to_group lower) buckets)
  unfolding to_group
  map-IsOfGroup [] _ = tt
  map-IsOfGroup (b ∷ buckets) (fits, rest) = (fits, map-IsOfGroup buckets rest)

  -- Every path in a group has the group's key, so the group filter decides the same of them all.
  pub group_mutations-IsOfGroup :
      (ms : List MutationRecord) → All IsOfGroup (group_mutations lower ms)
  unfolding group_mutations
  group_mutations-IsOfGroup ms = map-IsOfGroup (bucket lower ms []) (bucket-Fits ms [] tt)
