-- ===== src/Review.antt =====
-- `src/rollback/review.rs` and `home_root_of` of `src/rollback/mod.rs`: the groups that a tracked
-- app's mutations are reviewed in, and the loop that asks about each. The prompts that it prints
-- are not modelled. `str::to_lowercase` is the argument `lower`, as its Unicode tables are not here.
pub mod Keys
pub mod Groups
pub mod Answers
pub mod Choices
mod Tests
use pkgundo.Prelude.{
  Text, lit, text_eq, Bool, true, false, ◌||◌, ℕ, List, [], ◌∷◌, ◌++◌, map, Option, none, some,
  take, length, trim, trim_start_matches, ◌==◌, ltb, if◌then◌else◌, Result, ok, err,
}
use pkgundo.Paths.{
  Component, root_dir, cur_dir, parent_dir, normal, PathBuf, component_eq, path_eq, path_lt,
  components, as_os_str, strip_path_prefix,
}
use pkgundo.Journal.{MutationRecord}

pub data GroupTag : Type 0 where
  cache log state tmp plain_data : GroupTag

pub data SuggestedAction : Type 0 where
  keep remove : SuggestedAction

pub suggested_action_for_tag : GroupTag → SuggestedAction
suggested_action_for_tag plain_data = keep
suggested_action_for_tag cache = remove
suggested_action_for_tag log = remove
suggested_action_for_tag state = remove
suggested_action_for_tag tmp = remove

pub record MutationGroup : Type 0 where
  pub key : PathBuf
  pub tag : GroupTag
  pub suggested : SuggestedAction
  pub paths : List Text

pub always_skipped : Text → Bool
always_skipped operation = text_eq operation (lit "rename_from") || text_eq operation (lit "rename")

-- The home below `/home`, named by the next component.
below_home : PathBuf → Option PathBuf
below_home [] = none
below_home (d ∷ _) = some (root_dir ∷ normal (lit "home") ∷ d ∷ [])

unfoldable pub home_root_of : PathBuf → Option PathBuf
unfolding below_home as_os_str
home_root_of [] = none
home_root_of (_ ∷ []) = none
home_root_of (_ ∷ first ∷ p) =
    if text_eq (as_os_str first) (lit "root")
    then some (root_dir ∷ normal (lit "root") ∷ [])
    else if text_eq (as_os_str first) (lit "home")
    then below_home p
    else none

-- The first component whose name says what the path holds.
word_tag : Text → Option GroupTag
word_tag s =
    if text_eq s (lit "cache")
    then some cache
    else if text_eq s (lit "log") || text_eq s (lit "logs")
    then some log
    else if text_eq s (lit "state")
    then some state
    else if text_eq s (lit "tmp") || text_eq s (lit "temp")
    then some tmp
    else none

abbrev is_dot : ℕ → Bool
is_dot c = c == 0x2e

module _ (lower : Text → Text) where
  -- How many components of the home-relative path the key keeps.
  pub depth_of : PathBuf → ℕ
  depth_of [] = 2
  depth_of (_ ∷ []) = 2
  depth_of (c ∷ d ∷ _) =
      if text_eq (lower (as_os_str c)) (lit ".local")
      then (let second = lower (as_os_str d) in
          if text_eq second (lit "share") || text_eq second (lit "state") then 3 else 2)
      else 2

  -- The key of what stands below a home, if anything does.
  pub capped_key : PathBuf → PathBuf → Option PathBuf
  capped_key home [] = none
  capped_key home (c ∷ rel) = some (home ++ take (depth_of (c ∷ rel)) (c ∷ rel))

  relative_key : PathBuf → PathBuf → Option PathBuf
  relative_key path home = elim (strip_path_prefix home path) [
    | none ↦ none
    | some rel ↦ capped_key home rel
  ]

  unfoldable pub group_key : PathBuf → Option PathBuf
  unfolding home_root_of relative_key capped_key depth_of strip_path_prefix
  group_key path = elim (home_root_of path) [ none ↦ none | some home ↦ relative_key path home ]

  unfoldable pub group_key_for_path : Text → Option PathBuf
  unfolding components
  group_key_for_path path = group_key (components path)

  tag_of_components : PathBuf → GroupTag
  unfolding word_tag
  tag_of_components [] = plain_data
  tag_of_components (c ∷ p) =
      let rest = tag_of_components p in
      elim (word_tag (trim_start_matches is_dot (lower (as_os_str c)))) [
        | some tag ↦ tag
        | none ↦ rest
      ]

  pub tag_for_home_relative : PathBuf → PathBuf → GroupTag
  unfolding tag_of_components
  tag_for_home_relative home path = elim (strip_path_prefix home path) [
    | some rel ↦ tag_of_components rel
    | none ↦ tag_of_components path
  ]

-- `BTreeMap::entry(key).or_default().push(path)`, on the entries in the order of their keys.
pub push_path : PathBuf → Text → List (PathBuf × List Text) → List (PathBuf × List Text)
push_path key path [] = (key, path ∷ []) ∷ []
push_path key path ((k, paths) ∷ buckets) =
    let more = push_path key path buckets in
    if path_eq key k
    then (k, paths ++ path ∷ []) ∷ buckets
    else if path_lt key k
    then (key, path ∷ []) ∷ (k, paths) ∷ buckets
    else (k, paths) ∷ more

push_under : Option PathBuf → Text → List (PathBuf × List Text) → List (PathBuf × List Text)
push_under none path buckets = buckets
push_under (some key) path buckets = push_path key path buckets

-- The home that a key lies in.
home_or : PathBuf → Option PathBuf → PathBuf
home_or key none = key
home_or key (some home) = home

module _ (lower : Text → Text) where
  -- The key that a mutation is grouped by, unless it is skipped whatever is chosen.
  pub review_key : MutationRecord → Option PathBuf
  review_key m = if always_skipped m.operation then none else group_key_for_path lower m.path

  pub bucket : List MutationRecord → List (PathBuf × List Text) → List (PathBuf × List Text)
  bucket [] buckets = buckets
  bucket (m ∷ ms) buckets = bucket ms (push_under (review_key m) m.path buckets)

  pub to_group : PathBuf × List Text → MutationGroup
  to_group (key, paths) =
      let tag = tag_for_home_relative lower (home_or key (home_root_of key)) key in
      record { key = key; tag = tag; suggested = suggested_action_for_tag tag; paths = paths }

  pub group_mutations : List MutationRecord → List MutationGroup
  group_mutations ms = map to_group (bucket ms [])

pub data Answer : Type 0 where
  use_default remove_it keep_it remove_all_remaining keep_all_remaining list_files invalid : Answer

-- `lower` is `str::to_lowercase`.
pub parse_answer : (Text → Text) → Text → Answer
parse_answer lower line =
    let s = lower (trim line) in
    if text_eq s []
    then use_default
    else if text_eq s (lit "r")
    then remove_it
    else if text_eq s (lit "k")
    then keep_it
    else if text_eq s (lit "a")
    then remove_all_remaining
    else if text_eq s (lit "s")
    then keep_all_remaining
    else if text_eq s (lit "l")
    then list_files
    else invalid

-- The answer to the prompts of one group, with the lines that are left; `ended` is the end of the
-- input.
pub data Reply : Type 0 where
  ended : Reply
  broken : Text → Reply
  answered : Answer → List (Result Text) → Reply

-- The inner loop: a request for the files, and what is not understood, is followed by another
-- prompt.
pub ask_group : (Text → Text) → List (Result Text) → Reply
ask_group lower [] = ended
ask_group lower (err e ∷ input) = broken e
ask_group lower (ok line ∷ input) =
    let again = ask_group lower input in
    elim (parse_answer lower line) [ list_files ↦ again | invalid ↦ again | a ↦ answered a input ]

insert_if : SuggestedAction → PathBuf → List PathBuf → List PathBuf
insert_if remove key selected = key ∷ selected
insert_if keep key selected = selected

-- `if group.suggested == SuggestedAction::Remove { selected.insert(group.key) }`
pub insert_default : MutationGroup → List PathBuf → List PathBuf
insert_default g selected = insert_if g.suggested g.key selected

-- `groups.iter().skip_while(|g| g.key != key).skip(1)`
pub groups_after : PathBuf → List MutationGroup → List MutationGroup
groups_after key [] = []
groups_after key (g ∷ gs) = let rest = groups_after key gs in if path_eq g.key key then gs else rest

pub insert_defaults : List MutationGroup → List PathBuf → List PathBuf
insert_defaults [] selected = selected
insert_defaults (g ∷ gs) selected = insert_defaults gs (insert_default g selected)

-- How the rest of the groups is treated.
pub data Mode : Type 0 where
  asking removing keeping : Mode

module _ (lower : Text → Text) (all : List MutationGroup) where
  -- The loop over the groups. The two flags of the source, of which at most one is set, are `Mode`.
  pub review_from :
      Mode → List MutationGroup → List PathBuf → List (Result Text) → Result (List PathBuf)
  review_from mode [] selected input = ok selected
  review_from removing (g ∷ gs) selected input = review_from removing gs (g.key ∷ selected) input
  review_from keeping (g ∷ gs) selected input = review_from keeping gs selected input
  review_from asking (g ∷ gs) selected input = elim (ask_group lower input) [
    | ended ↦ ok (insert_defaults (groups_after g.key all) (insert_default g selected))
    | broken e ↦ err e
    | answered a rest ↦ elim a [
      | use_default ↦ review_from asking gs (insert_default g selected) rest
      | remove_it ↦ review_from asking gs (g.key ∷ selected) rest
      | keep_it ↦ review_from asking gs selected rest
      | remove_all_remaining ↦ review_from removing gs (g.key ∷ selected) rest
      | keep_all_remaining ↦ review_from keeping gs selected rest
      | list_files ↦ review_from asking gs selected rest
      | invalid ↦ review_from asking gs selected rest
    ]
  ]

-- `review_groups`, on the results of `read_line`, of which none is left at the end of the input.
pub review_groups : (Text → Text) → List MutationGroup → List (Result Text) → Result (List PathBuf)
review_groups lower groups input = review_from lower groups asking groups [] input
