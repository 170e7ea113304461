-- ===== src/Hooks.antt =====
-- `src/commands/hook.rs`, `src/commands/apt_hook.rs` and `src/commands/dnf_hook.rs`: what the hooks of
-- package managers read, and the lookup of what was removed. A `BTreeSet` is a list in its order,
-- which on UTF-8 is that of the code points. `lower` is `str::to_lowercase`.
pub mod Names
pub mod Diff
pub mod Removed
mod Tests
use pkgundo.Prelude.{
  Text, lit, text_eq, starts_with, contains, is_whitespace, trim_start_matches, trim, lines,
  split_once, Bool, true, false, not, ℕ, List, [], ◌∷◌, ◌++◌, any, filter, map, length, Option,
  none, some, if◌then◌else◌, ltb, ◌==◌,
}
use pkgundo.System.{Os}
use pkgundo.Exec.{M, pure, ◌>>=◌}
use pkgundo.Journal.{get_mutations}
use pkgundo.TrackedApps.{Json, TrackedApp, load_tracked_app_by_package}
use pkgundo.Leftovers.{ascii_lower}

-- `lines().map(|l| l.trim()).filter(|l| !l.is_empty())`
unfoldable pub package_names : Text → List Text
unfolding lines trim text_eq
package_names s = filter (λ l. not (text_eq l [])) (map trim (lines s))

unfoldable pub text_ltb : Text → Text → Bool
text_ltb s [] = false
text_ltb [] (_ ∷ _) = true
text_ltb (a ∷ s) (b ∷ t) =
    let rest = text_ltb s t in if ltb a b then true else if a == b then rest else false

-- `BTreeSet::insert`
unfoldable pub insert_name : Text → List Text → List Text
unfolding text_eq text_ltb
insert_name n [] = n ∷ []
insert_name n (m ∷ ms) =
    let rest = insert_name n ms in
    if text_eq n m then m ∷ ms else if text_ltb n m then n ∷ m ∷ ms else m ∷ rest

-- `collect` into a `BTreeSet`
unfoldable pub name_set : List Text → List Text
unfolding insert_name
name_set [] = []
name_set (n ∷ ns) = insert_name n (name_set ns)

unfoldable pub has_name : Text → List Text → Bool
has_name n ns = any (text_eq n) ns

-- `set.difference(other)`
unfoldable pub difference : List Text → List Text → List Text
unfolding has_name
difference ns others = filter (λ n. not (has_name n others)) ns

-- What is only in the second snapshot, and what is only in the first.
unfoldable pub diff_package_snapshots : Text → Text → List Text × List Text
unfolding difference name_set package_names
diff_package_snapshots before after =
    let old = name_set (package_names before) in
    let new = name_set (package_names after) in (difference new old, difference old new)

-- The set is only asked whether it has a name.
unfoldable pub parse_showmanual_output : Text → List Text
unfolding package_names
parse_showmanual_output output = package_names output

eq_ignore_ascii_case : Text → Text → Bool
unfolding text_eq
eq_ignore_ascii_case s t = text_eq (map ascii_lower s) (map ascii_lower t)

repoquery_line : Text → Text → Option Bool
unfolding split_once trim text_eq eq_ignore_ascii_case
repoquery_line pkg line = elim (split_once 0x20 (trim line)) [
  | none ↦ none
  | some (name, reason) ↦
      if text_eq name pkg then some (eq_ignore_ascii_case (trim reason) (lit "user")) else none
]

repoquery_lines : Text → List Text → Bool
unfolding repoquery_line
repoquery_lines pkg [] = false
repoquery_lines pkg (line ∷ ls) =
    let rest = repoquery_lines pkg ls in
    elim (repoquery_line pkg line) [ none ↦ rest | some answer ↦ answer ]

unfoldable pub parse_repoquery_reason : Text → Text → Bool
unfolding repoquery_lines lines
parse_repoquery_reason output pkg = repoquery_lines pkg (lines output)

module _ (lower : Text → Text) where
  install_reason : List Text → Bool
  unfolding starts_with trim_start_matches is_whitespace contains
  install_reason [] = false
  install_reason (l ∷ ls) =
      let rest = install_reason ls in
      if starts_with (trim_start_matches is_whitespace l) (lit "Install Reason")
      then contains (lower l) (lit "explicitly")
      else rest

  unfoldable pub parse_install_reason_explicit : Text → Bool
  unfolding install_reason lines
  parse_install_reason_explicit output = install_reason (lines output)

-- A package that was removed, the app that is tracked by it, and the count of its mutations.
pub record Hit : Type 0 where
  pub removed : Text
  pub name : Text
  pub count : ℕ

module _ (json : Json) (os : Os) where
  unfoldable pub removed_hits : Text → Option TrackedApp → M os (List Hit)
  removed_hits pkg none = pure []
  removed_hits pkg (some app) = do
    mutations ← get_mutations os app.txid
    pure (record { removed = pkg; name = app.name; count = length mutations } ∷ [])

  unfoldable pub find_tracked_removed : List Text → M os (List Hit)
  unfolding removed_hits
  find_tracked_removed [] = pure []
  find_tracked_removed (pkg ∷ pkgs) = do
    app ← load_tracked_app_by_package json os pkg
    hits ← removed_hits pkg app
    more ← find_tracked_removed pkgs
    pure (hits ++ more)
