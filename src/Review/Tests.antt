-- ===== src/Review/Tests.antt =====
-- Mutations below a home directory, as they are grouped and reviewed.
use pkgundo.Prelude.{
  Text, lit, text_eq, trim, trim_start_matches, List, [], ◌∷◌, ◌++◌, none, some, Result, ok, ◌≡◌,
  refl, All, map, any, ◌||◌,
}
use pkgundo.Review.Choices.{
  Choice, by_default, removed, all_removed, line_of, last_lines, IsLowercase, AreOthers, chosen,
  chosen_after,
}
use pkgundo.Review.Choices.Selected.{review_groups_selects}
use pkgundo.Paths.{path_eq, PathBuf, root_dir, normal}
use pkgundo.Journal.{MutationRecord}
use pkgundo.Review.{
  cache, keep, remove, MutationGroup, group_key, home_root_of, group_mutations, parse_answer,
  ask_group, insert_default, insert_if, review_from, review_groups, plain_data,
}
use pkgundo.Review.Groups.{
  file_total, reviewable, file_total-group_mutations, IsOfGroup, group_mutations-IsOfGroup,
}

abbrev same_case : Text → Text
same_case s = s

abbrev home : PathBuf
home = root_dir ∷ normal (lit "home") ∷ normal (lit "u") ∷ []

abbrev zed_file : PathBuf
zed_file =
    home
    ++ normal (lit ".local") ∷ normal (lit "share") ∷ normal (lit "zed") ∷ normal (lit "x") ∷ []

abbrev zed : PathBuf
zed = home ++ normal (lit ".local") ∷ normal (lit "share") ∷ normal (lit "zed") ∷ []

zed_key : group_key same_case zed_file ≡ some zed
unfolding group_key home_root_of text_eq lit
zed_key = refl

abbrev created : Text → MutationRecord
created path = record {
  id = none;
  txid = 1;
  pid = none;
  operation = lit "create";
  path = path;
  timestamp = lit "2024-01-01T00:00:00+00:00";
  file_category = lit "Unknown";
  pre_hash = none;
  post_hash = none;
}

abbrev renamed : Text → MutationRecord
renamed path = record (created path) { operation = lit "rename_from" }

abbrev some_mutations : List MutationRecord
some_mutations =
    created (lit "/home/u/.cache/zed/x")
    ∷ created (lit "/home/u/.cache/zed/y")
    ∷ renamed (lit "/home/u/.cache/zed/z")
    ∷ created (lit "/etc/x")
    ∷ []

group_mutations-IsOfGroup_example :
    All (IsOfGroup same_case) (group_mutations same_case some_mutations)
group_mutations-IsOfGroup_example = group_mutations-IsOfGroup same_case some_mutations

file_total-group_mutations_example :
    file_total (group_mutations same_case some_mutations) ≡ reviewable same_case some_mutations
file_total-group_mutations_example = file_total-group_mutations same_case some_mutations

abbrev two_groups : List MutationGroup
two_groups =
    record { key = zed; tag = plain_data; suggested = keep; paths = [] }
    ∷ record {
      key = home ++ normal (lit ".cache") ∷ [];
      tag = cache;
      suggested = remove;
      paths = [];
    }
    ∷ []

-- The first group is removed although it is not suggested, the second is left to the suggestion.
abbrev answers : List (Result Text)
answers = ok (lit "r\n") ∷ ok (lit "\n") ∷ []

selected_both :
    review_groups same_case two_groups answers
    ≡ ok ((home ++ normal (lit ".cache") ∷ []) ∷ zed ∷ [])
unfolding review_groups review_from ask_group parse_answer insert_default insert_if trim
    trim_start_matches text_eq lit
selected_both = refl

abbrev third : MutationGroup
third = record {
  key = home ++ normal (lit ".ssh") ∷ [];
  tag = plain_data;
  suggested = keep;
  paths = [];
}

-- The first group is removed, the second is left to the suggestion, and the third is removed with all
-- that remain.
abbrev choices : List (MutationGroup × Choice)
choices =
    (record { key = zed; tag = plain_data; suggested = keep; paths = [] }, removed)
    ∷ (
      record {
        key = home ++ normal (lit ".cache") ∷ [];
        tag = cache;
        suggested = remove;
        paths = [];
      },
      by_default,
    )
    ∷ []

same_case-IsLowercase : IsLowercase same_case
same_case-IsLowercase = record {
  lower_empty = refl;
  lower_r = refl;
  lower_k = refl;
  lower_a = refl;
  lower_s = refl;
}

third-AreOthers : AreOthers choices (third ∷ [])
unfolding lit text_eq path_eq
third-AreOthers = (refl, tt)

review_groups_selects_example :
    (selected : List PathBuf) × ((review_groups same_case
          (map (λ c. c.0) choices ++ third ∷ [])
          (map (λ c. line_of c.1) choices ++ last_lines all_removed)
        ≡ ok selected)
      × (any (λ j. path_eq j third.key) selected
          ≡ (chosen choices third.key || chosen_after all_removed (third ∷ []) third.key)))
review_groups_selects_example =
    review_groups_selects same_case choices (third ∷ []) all_removed third.key same_case-IsLowercase
      third-AreOthers
