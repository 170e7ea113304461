-- ===== src/Hooks/Tests.antt =====
-- Snapshots and outputs of package managers.
use pkgundo.Prelude.{
  Text, List, lit, text_eq, true, not, ◌&&◌, [], ◌∷◌, ◌++◌, map, filter, some, none, ◌≡◌, refl,
}
use pkgundo.System.Memory.{memory}
use pkgundo.Exec.{World}
use pkgundo.Db.{TrackedAppRow}
use pkgundo.TrackedApps.Tests.{plain_json, a_world}
use pkgundo.TrackedApps.Lookup.{tracks, is_tracked}
use pkgundo.Hooks.Removed.{Reports, find_tracked_removed-filter}
use pkgundo.Leftovers.{ascii_lower}
use pkgundo.Hooks.{
  find_tracked_removed, parse_showmanual_output, has_name, package_names, diff_package_snapshots,
  parse_repoquery_reason, parse_install_reason_explicit,
}
use pkgundo.Hooks.Diff.{IsSorted, diff_package_snapshots-IsDifference}

abbrev before : Text
before = lit "vim\n" ++ lit "curl \n" ++ lit "nano\n"

abbrev after : Text
after = lit "vim\n" ++ lit "zsh\n\n" ++ lit "git\n" ++ lit "nano\n"

diff_package_snapshots_test :
    diff_package_snapshots before after ≡ (lit "git" ∷ lit "zsh" ∷ [], lit "curl" ∷ [])
unfolding diff_package_snapshots lit
diff_package_snapshots_test = refl

diff_package_snapshots-IsDifference_example :
    (has_name (lit "git") (diff_package_snapshots before after).0 ≡ (
      has_name (lit "git") (package_names after)
      && not (has_name (lit "git") (package_names before))))
    × ((has_name (lit "git") (diff_package_snapshots before after).1 ≡ (
          has_name (lit "git") (package_names before)
          && not (has_name (lit "git") (package_names after))))
        × (IsSorted (diff_package_snapshots before after).0
            × IsSorted (diff_package_snapshots before after).1))
diff_package_snapshots-IsDifference_example =
    diff_package_snapshots-IsDifference before after (lit "git")

repoquery_test : parse_repoquery_reason (lit "zsh-doc group\nzsh User\n") (lit "zsh") ≡ true
unfolding parse_repoquery_reason lit ascii_lower
repoquery_test = refl

install_reason_test :
    parse_install_reason_explicit
      (map ascii_lower)
      (lit "Name : zsh\nInstall Reason : Explicitly installed\n")
    ≡ true
unfolding parse_install_reason_explicit lit ascii_lower
install_reason_test = refl

showmanual_test : parse_showmanual_output (lit " zsh\n\ngit") ≡ lit "zsh" ∷ lit "git" ∷ []
unfolding parse_showmanual_output lit
showmanual_test = refl

abbrev vim_row : TrackedAppRow
vim_row = record {
  name = lit "editor";
  kind = lit "package";
  package_name = some (lit "vim");
  resolved_paths = [];
  status = lit "tracking";
  txid = 1;
  created_at = lit "2024-01-01T00:00:00+00:00";
  untracked_at = none;
}

abbrev vim_world : World memory
vim_world = record a_world {
  db = record a_world.db { tracked_apps = record { last = 1; rows = (1, vim_row) ∷ [] } };
}

abbrev removed_names : List Text
removed_names = lit "zsh" ∷ lit "vim" ∷ []

vim_is_tracked : filter (is_tracked vim_world.db) removed_names ≡ lit "vim" ∷ []
unfolding is_tracked tracks lit text_eq
vim_is_tracked = refl

find_tracked_removed-filter_example :
    Reports {os = memory}
      (filter (is_tracked vim_world.db) removed_names)
      (find_tracked_removed plain_json memory removed_names)
      vim_world
find_tracked_removed-filter_example =
    find_tracked_removed-filter plain_json memory vim_world (λ q. refl) removed_names
