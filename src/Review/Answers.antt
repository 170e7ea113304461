-- ===== src/Review/Answers.antt =====
-- What the review loop selects.
use pkgundo.Prelude.{
  Text, Bool, true, false, ◌||◌, List, [], ◌∷◌, Result, ok, ◌≡◌, refl, arith, ◌⊎◌, inl, inr, All,
  any, ◌&&◌, ◌∙◌,
}
use pkgundo.Paths.{PathBuf, path_eq}
use pkgundo.Paths.Laws.{path_eq_refl}
use pkgundo.Review.{
  SuggestedAction, keep, remove, MutationGroup, Answer, Reply, ended, broken, answered, ask_group,
  insert_default, insert_if, groups_after, insert_defaults, Mode, asking, removing, keeping,
  review_from, review_groups,
}

Reply-cases :
    (r : Reply)
    → (r ≡ ended)
      ⊎ (((e : Text) × (r ≡ broken e))
          ⊎ ((a : Answer) × (rest : List (Result Text)) × (r ≡ answered a rest)))
Reply-cases ended = inl refl
Reply-cases (broken e) = inr (inl (e, refl))
Reply-cases (answered a rest) = inr (inr (a, rest, refl))

-- One of the groups has this key.
has_group : List MutationGroup → PathBuf → Bool
has_group [] k = false
has_group (g ∷ gs) k = path_eq g.key k || has_group gs k

module _ (all : List MutationGroup) where
  abbrev IsKnown : PathBuf → Type 0
  IsKnown k = has_group all k ≡ true

  -- The groups are among all groups.
  abbrev Among : List MutationGroup → Type 0
  Among gs = All (λ g. IsKnown g.key) gs

  insert_default-IsKnown :
      (g : MutationGroup) (selected : List PathBuf)
      → IsKnown g.key
      → All IsKnown selected
      → All IsKnown (insert_default g selected)
  unfolding insert_default insert_if
  insert_default-IsKnown g selected h hs = ground arith

  insert_defaults-IsKnown :
      (gs : List MutationGroup) (selected : List PathBuf)
      → Among gs
      → All IsKnown selected
      → All IsKnown (insert_defaults gs selected)
  unfolding insert_defaults
  insert_defaults-IsKnown [] selected _ hs = hs
  insert_defaults-IsKnown (g ∷ gs) selected (h, rest) hs =
      insert_defaults-IsKnown gs (insert_default g selected) rest
        (insert_default-IsKnown g selected h hs)

  groups_after-Among :
      (key : PathBuf) (gs : List MutationGroup) → Among gs → Among (groups_after key gs)
  unfolding groups_after
  groups_after-Among key [] _ = tt
  groups_after-Among key (g ∷ gs) (h, rest) = ground (arith, groups_after-Among key gs rest)

  module _ (lower : Text → Text) (among : Among all) where
    review_from-IsKnown :
        (mode : Mode) (gs : List MutationGroup) (selected : List PathBuf)
        (input : List (Result Text)) (result : List PathBuf)
        → Among gs
        → All IsKnown selected
        → review_from lower all mode gs selected input ≡ ok result
        → All IsKnown result
    unfolding review_from
    review_from-IsKnown mode [] selected input result _ hs h = ground arith
    review_from-IsKnown removing (g ∷ gs) selected input result (k, rest) hs h =
        review_from-IsKnown removing gs (g.key ∷ selected) input result rest (k, hs) h
    review_from-IsKnown keeping (g ∷ gs) selected input result (k, rest) hs h =
        review_from-IsKnown keeping gs selected input result rest hs h
    review_from-IsKnown asking (g ∷ gs) selected input result (k, rest) hs h =
        elim (Reply-cases (ask_group lower input)) [
          | inl at_end ↦ ground (
            arith,
            insert_defaults-IsKnown (groups_after g.key all) (insert_default g selected)
                (groups_after-Among g.key all among) (insert_default-IsKnown g selected k hs),
          )
          | inr (inl (e, refused)) ↦ ground arith
          | inr (inr (a, more, replied)) ↦ ground (
            arith,
            review_from-IsKnown asking gs (insert_default g selected) more result rest
                (insert_default-IsKnown g selected k hs),
            review_from-IsKnown asking gs (g.key ∷ selected) more result rest (k, hs),
            review_from-IsKnown asking gs selected more result rest hs,
            review_from-IsKnown removing gs (g.key ∷ selected) more result rest (k, hs),
            review_from-IsKnown keeping gs selected more result rest hs,
          )
        ]

has_group-cons :
    (g : MutationGroup) (gs : List MutationGroup) (k : PathBuf)
    → has_group gs k ≡ true
    → has_group (g ∷ gs) k ≡ true
unfolding has_group
has_group-cons g gs k h = ground arith

All-weaken :
    (gs all : List MutationGroup) (g : MutationGroup)
    → All (λ h. has_group all h.key ≡ true) gs
    → All (λ h. has_group (g ∷ all) h.key ≡ true) gs
All-weaken [] all g _ = tt
All-weaken (h ∷ gs) all g (known, rest) =
    (has_group-cons g all h.key known, All-weaken gs all g rest)

has_group_self : (gs : List MutationGroup) → All (λ g. has_group gs g.key ≡ true) gs
unfolding has_group
has_group_self [] = tt
has_group_self (g ∷ gs) = (rw (path_eq_refl g.key) refl, All-weaken gs gs g (has_group_self gs))

-- Whatever is answered, only keys of the groups are selected.
review_groups-IsKnown :
    (lower : Text → Text) (groups : List MutationGroup) (input : List (Result Text))
    (selected : List PathBuf)
    → review_groups lower groups input ≡ ok selected
    → All (IsKnown groups) selected
unfolding review_groups
review_groups-IsKnown lower groups input selected h =
    review_from-IsKnown groups lower (has_group_self groups) asking groups [] input selected
      (has_group_self groups) tt h

is_removal : SuggestedAction → Bool
is_removal remove = true
is_removal keep = false

-- A group with this key is suggested for removal.
suggests_removal : List MutationGroup → PathBuf → Bool
suggests_removal [] k = false
suggests_removal (g ∷ gs) k = (is_removal g.suggested && path_eq g.key k) || suggests_removal gs k

any-insert_defaults :
    (gs : List MutationGroup) (selected : List PathBuf) (k : PathBuf)
    → any (λ j. path_eq j k) (insert_defaults gs selected)
      ≡ (suggests_removal gs k || any (λ j. path_eq j k) selected)
unfolding insert_defaults suggests_removal insert_default insert_if is_removal
any-insert_defaults [] selected k = refl
any-insert_defaults (g ∷ gs) selected k =
    ground (arith, any-insert_defaults gs (insert_default g selected) k)

-- Where the input ends at once, the review succeeds and selects a key exactly when one of its
-- groups is suggested for removal.
review_groups_ended :
    (lower : Text → Text) (groups : List MutationGroup)
    → (selected : List PathBuf) × (review_groups lower groups [] ≡ ok selected)
      × ((k : PathBuf) → any (λ j. path_eq j k) selected ≡ suggests_removal groups k)
unfolding review_groups review_from ask_group groups_after suggests_removal insert_defaults
review_groups_ended lower [] = ([], refl, λ k. refl)
review_groups_ended lower (g ∷ gs) = (
  insert_defaults (g ∷ gs) [],
  rw (path_eq_refl g.key) refl,
  λ k. any-insert_defaults (g ∷ gs) [] k ∙ ground arith,
)
