-- ===== src/Review/Choices.antt =====
-- The answers of a review, and what one of them selects.
pub mod Selected
use pkgundo.Prelude.{
  Text, lit, text_eq, trim, trim_start_matches, is_whitespace, Bool, true, false, ◌||◌, ◌&&◌, List,
  [], ◌∷◌, ◌++◌, map, Result, ok, any, All, ◌≡◌, refl, arith, ◌∙◌, sym, ap, subst,
}
use pkgundo.Paths.{PathBuf, path_eq}
use pkgundo.Paths.Laws.{path_eq_refl}
use pkgundo.Review.{
  SuggestedAction, keep, remove, MutationGroup, use_default, remove_it, keep_it,
  remove_all_remaining, keep_all_remaining, parse_answer, ask_group, insert_default, insert_if,
  groups_after, insert_defaults, asking, removing, keeping, review_from, review_groups,
}

-- What is answered for one group, and how the answers end: with the input, or with an answer for all
-- groups that remain.
pub data Choice : Type 0 where
  by_default removed kept : Choice

pub data Ending : Type 0 where
  no_more all_removed all_kept : Ending

pub line_of : Choice → Result Text
line_of by_default = ok (lit "\n")
line_of removed = ok (lit "r\n")
line_of kept = ok (lit "k\n")

pub last_lines : Ending → List (Result Text)
last_lines no_more = []
last_lines all_removed = ok (lit "a\n") ∷ []
last_lines all_kept = ok (lit "s\n") ∷ []

-- `str::to_lowercase` leaves the letters of the answers, and the empty text, as they are.
pub record IsLowercase (lower : Text → Text) : Type 0 where
  pub lower_empty : lower [] ≡ []
  pub lower_r : lower (lit "r") ≡ lit "r"
  pub lower_k : lower (lit "k") ≡ lit "k"
  pub lower_a : lower (lit "a") ≡ lit "a"
  pub lower_s : lower (lit "s") ≡ lit "s"

is_removal : SuggestedAction → Bool
is_removal remove = true
is_removal keep = false

-- The choice is to remove this group.
abbrev removes : MutationGroup × Choice → Bool
removes (g, by_default) = is_removal g.suggested
removes (g, removed) = true
removes (g, kept) = false

-- A group with this key is chosen for removal.
pub chosen : List (MutationGroup × Choice) → PathBuf → Bool
chosen cs k = any (λ c. removes c && path_eq c.0.key k) cs

-- A group with this key is removed by the ending.
pub chosen_after : Ending → List MutationGroup → PathBuf → Bool
chosen_after no_more gs k = any (λ g. is_removal g.suggested && path_eq g.key k) gs
chosen_after all_removed gs k = any (λ g. path_eq g.key k) gs
chosen_after all_kept gs k = false

abbrev is_selected : PathBuf → List PathBuf → Bool
is_selected k = any (λ j. path_eq j k)

-- Groups of the first list have other keys than those of the second.
abbrev pub AreOthers : List (MutationGroup × Choice) → List MutationGroup → Type 0
AreOthers cs gs = All (λ g. any (λ c. path_eq c.0.key g.key) cs ≡ false) gs

-- After the first group with a key come those that follow it.
groups_after-append :
    (cs : List (MutationGroup × Choice)) (g : MutationGroup) (gs : List MutationGroup)
    → any (λ c. path_eq c.0.key g.key) cs ≡ false
    → groups_after g.key (map (λ c. c.0) cs ++ g ∷ gs) ≡ gs
unfolding groups_after
groups_after-append [] g gs h = rw (path_eq_refl g.key) refl
groups_after-append (c ∷ cs) g gs h = ground (arith, groups_after-append cs g gs)

insert_default-selected :
    (g : MutationGroup) (selected : List PathBuf) (k : PathBuf)
    → is_selected k (insert_default g selected)
      ≡ ((is_removal g.suggested && path_eq g.key k) || is_selected k selected)
unfolding insert_default insert_if is_removal
insert_default-selected g selected k = ground arith

-- What a part of the review selects, besides what is selected before it.
Selects : List PathBuf → (PathBuf → Bool) → Result (List PathBuf) → Type 0
Selects selected test r =
    (result : List PathBuf) × ((r ≡ ok result)
      × ((k : PathBuf) → is_selected k result ≡ (test k || is_selected k selected)))

or_assoc : (a b c : Bool) → (a || (b || c)) ≡ ((b || a) || c)
or_assoc a b c = ground arith

insert_defaults-selected :
    (gs : List MutationGroup) (selected : List PathBuf) (k : PathBuf)
    → is_selected k (insert_defaults gs selected)
      ≡ (chosen_after no_more gs k || is_selected k selected)
unfolding insert_defaults chosen_after
insert_defaults-selected [] selected k = refl
insert_defaults-selected (g ∷ gs) selected k = ground (
  arith,
  insert_defaults-selected gs (insert_default g selected) k,
  insert_default-selected g selected k,
)

or_false : (b : Bool) → (b || false) ≡ b
or_false true = refl
or_false false = refl

default_first :
    (g : MutationGroup) (gs : List MutationGroup) (selected : List PathBuf) (k : PathBuf)
    → is_selected k (insert_defaults gs (insert_default g selected))
      ≡ (chosen_after no_more (g ∷ gs) k || is_selected k selected)
unfolding chosen_after
default_first g gs selected k = ground (
  arith,
  insert_defaults-selected gs (insert_default g selected) k,
  insert_default-selected g selected k,
)

module _ (lower : Text → Text) (small : IsLowercase lower) where
  parse_default : parse_answer lower (lit "\n") ≡ use_default
  unfolding parse_answer trim trim_start_matches is_whitespace lit text_eq
  parse_default = rw small.lower_empty refl

  parse_r : parse_answer lower (lit "r\n") ≡ remove_it
  unfolding parse_answer trim trim_start_matches is_whitespace lit text_eq
  parse_r = rw small.lower_r refl

  parse_k : parse_answer lower (lit "k\n") ≡ keep_it
  unfolding parse_answer trim trim_start_matches is_whitespace lit text_eq
  parse_k = rw small.lower_k refl

  parse_a : parse_answer lower (lit "a\n") ≡ remove_all_remaining
  unfolding parse_answer trim trim_start_matches is_whitespace lit text_eq
  parse_a = rw small.lower_a refl

  parse_s : parse_answer lower (lit "s\n") ≡ keep_all_remaining
  unfolding parse_answer trim trim_start_matches is_whitespace lit text_eq
  parse_s = rw small.lower_s refl

  module _ (all : List MutationGroup) where
    nothing_left :
        (selected : List PathBuf) (input : List (Result Text))
        → review_from lower all asking [] selected input ≡ ok selected
    unfolding review_from
    nothing_left selected input = refl

    removing_all :
        (gs : List MutationGroup) (selected : List PathBuf) (input : List (Result Text))
        → Selects selected
            (chosen_after all_removed gs)
            (review_from lower all removing gs selected input)
    unfolding Selects review_from chosen_after
    removing_all [] selected input = (selected, (refl, λ k. refl))
    removing_all (g ∷ gs) selected input =
        let (result, (e, same)) = removing_all gs (g.key ∷ selected) input in
        (
          result,
          (
            e,
            λ k.
                same k
                ∙ or_assoc (chosen_after all_removed gs k) (path_eq g.key k)
                    (is_selected k selected),
          ),
        )

    keeping_all :
        (gs : List MutationGroup) (selected : List PathBuf) (input : List (Result Text))
        → review_from lower all keeping gs selected input ≡ ok selected
    unfolding review_from
    keeping_all [] selected input = refl
    keeping_all (g ∷ gs) selected input = keeping_all gs selected input

    module _ (g : MutationGroup) (gs : List MutationGroup) (selected : List PathBuf) where
      ended-eq :
          review_from lower all asking (g ∷ gs) selected []
          ≡ ok (insert_defaults (groups_after g.key all) (insert_default g selected))
      unfolding review_from ask_group
      ended-eq = refl

      module _ (input : List (Result Text)) where
        default-eq :
            review_from lower all asking (g ∷ gs) selected (line_of by_default ∷ input)
            ≡ review_from lower all asking gs (insert_default g selected) input
        unfolding review_from ask_group line_of
        default-eq = ground (arith, parse_default)

        removed-eq :
            review_from lower all asking (g ∷ gs) selected (line_of removed ∷ input)
            ≡ review_from lower all asking gs (g.key ∷ selected) input
        unfolding review_from ask_group line_of
        removed-eq = ground (arith, parse_r)

        kept-eq :
            review_from lower all asking (g ∷ gs) selected (line_of kept ∷ input)
            ≡ review_from lower all asking gs selected input
        unfolding review_from ask_group line_of
        kept-eq = ground (arith, parse_k)

        all_removed-eq :
            review_from lower all asking (g ∷ gs) selected (ok (lit "a\n") ∷ input)
            ≡ review_from lower all removing gs (g.key ∷ selected) input
        unfolding review_from ask_group
        all_removed-eq = ground (arith, parse_a)

        all_kept-eq :
            review_from lower all asking (g ∷ gs) selected (ok (lit "s\n") ∷ input)
            ≡ review_from lower all keeping gs selected input
        unfolding review_from ask_group
        all_kept-eq = ground (arith, parse_s)
