-- ===== src/TrackedApps/Resolve.antt =====
-- `resolve_app_targets` of `src/tracked_apps/mod.rs`, and what it calls.
use pkgundo.Prelude.{
  Text, lit, lines, trim, split_once, starts_with, ends_with, Bool, false, not, ◌&&◌, ◌||◌, List,
  [], ◌∷◌, ◌++◌, map, any, filter, Option, none, some, Result, ok, err, if◌then◌else◌,
}
use pkgundo.Kernel.{has_bit}
use pkgundo.System.{Os, FileMeta}
use pkgundo.Exec.{M, pure, fail, ◌>>=◌, ask, call, attempt, choose}

pub data ResolvedTarget : Type 0 where
  of_package : Text → List Text → ResolvedTarget
  of_binary : Text → ResolvedTarget

abbrev bin_dirs : List Text
bin_dirs =
    lit "/usr/bin/"
    ∷ lit "/usr/sbin/"
    ∷ lit "/usr/local/bin/"
    ∷ lit "/bin/"
    ∷ lit "/sbin/"
    ∷ lit "/usr/lib/"
    ∷ lit "/usr/games/"
    ∷ []

-- `mode & 0o111 != 0`
is_executable : Result FileMeta → Bool
unfolding has_bit
is_executable (err e) = false
is_executable (ok m) = has_bit m.mode 0o1 || has_bit m.mode 0o10 || has_bit m.mode 0o100

-- The paths of the lines `<package> <path>`.
unfoldable listed_paths : List Text → List Text
unfolding split_once trim
listed_paths [] = []
listed_paths (line ∷ ls) = elim (split_once 0x20 line) [
  | none ↦ listed_paths ls
  | some (name, path) ↦ trim path ∷ listed_paths ls
]

module _ (os : Os) where
  unfoldable pub is_executable_candidate : os.State → Text → Bool
  unfolding is_executable ends_with starts_with lit
  is_executable_candidate s path =
      if ends_with path (lit "/") || not (any (λ dir. starts_with path dir) bin_dirs)
      then false
      else os.is_file s path && is_executable (os.metadata s path)

  unfoldable pub executable_binaries_from_listing : Text → os.State → List Text
  unfolding listed_paths lines
  executable_binaries_from_listing listing s =
      filter (is_executable_candidate s) (listed_paths (lines listing))

  unfoldable pub executable_binaries_from_dpkg_listing : Text → os.State → List Text
  unfolding lines trim
  executable_binaries_from_dpkg_listing listing s =
      filter (is_executable_candidate s) (map trim (lines listing))

  -- Whether a program was run and succeeded, and what it printed.
  succeeds : Result (Bool × Text) → Bool
  succeeds (ok (success, out)) = success
  succeeds (err e) = false

  output_of : Result (Bool × Text) → Option Text
  output_of (ok (success, out)) = if success then some out else none
  output_of (err e) = none

  which : Text → M os Bool
  unfolding succeeds
  which bin = do
    answer ← attempt (call (os.output (lit "which") (bin ∷ [])))
    pure (succeeds answer)

  parse_output : (Text → os.State → List Text) → Option Text → M os (List Text)
  parse_output parse none = pure []
  parse_output parse (some listing) = ask (parse listing)

  -- The binaries that a package manager lists for the app, if it is there and knows it.
  listed_by : Text → Text → (Text → os.State → List Text) → Text → M os (List Text)
  unfolding which output_of parse_output
  listed_by bin flag parse app = do
    there ← which bin
    choose there
        (do
          answer ← attempt (call (os.output bin (flag ∷ app ∷ [])))
          parse_output parse (output_of answer))
        (pure [])

  package_or : Text → M os ResolvedTarget → List Text → M os ResolvedTarget
  package_or app next [] = next
  package_or app next (b ∷ binaries) = pure (of_package app (b ∷ binaries))

  or_app : Text → Option Text → Text
  unfolding trim
  or_app app none = app
  or_app app (some out) = trim out

  literal_path : Text → M os Text
  unfolding or_app output_of
  literal_path app = choose (starts_with app (lit "/")) (pure app) (do
    answer ← attempt (call (os.output (lit "which") (app ∷ [])))
    pure (or_app app (output_of answer)))

  unknown_app : Text → Text
  unfolding lit
  unknown_app app =
      lit "'"
      ++ app
      ++ lit "' is not a known pacman/dpkg/rpm package and no binary was found at or named '"
      ++ app
      ++ lit "'"

  resolve_binary : Text → M os ResolvedTarget
  unfolding literal_path unknown_app
  resolve_binary app = do
    path ← literal_path app
    there ← ask (λ s. os.exists s path)
    choose there (pure (of_binary path)) (fail (unknown_app app))

  unfoldable pub resolve_app_targets : Text → M os ResolvedTarget
  unfolding listed_by package_or resolve_binary
  resolve_app_targets app = do
    by_pacman ← listed_by (lit "pacman") (lit "-Ql") executable_binaries_from_listing app
    package_or app
        (do
          by_dpkg ← listed_by (lit "dpkg") (lit "-L") executable_binaries_from_dpkg_listing app
          package_or app
              (do
                by_rpm ← listed_by (lit "rpm") (lit "-ql") executable_binaries_from_dpkg_listing app
                package_or app (resolve_binary app) by_rpm)
              by_dpkg)
        by_pacman
