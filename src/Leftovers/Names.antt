-- ===== src/Leftovers/Names.antt =====
-- `parse_pkg_archive_name` and `parse_deb_archive_name` of `src/scan_leftovers/mod.rs`.
pub mod RoundTrip
use pkgundo.Prelude.{
  Text, lit, strip_suffix, split_on, join_with, Bool, ℕ, List, [], ◌∷◌, ◌++◌, Option, none, some,
  if◌then◌else◌, ◌==◌, ltb, length, drop, reverse, head?,
}

-- The name without the first of these ends that it has.
without_suffix : List Text → Text → Option Text
unfolding strip_suffix
without_suffix [] fname = none
without_suffix (suffix ∷ suffixes) fname = elim (strip_suffix fname suffix) [
  | none ↦ without_suffix suffixes fname
  | some name ↦ some name
]

abbrev archive_suffixes : List Text
archive_suffixes =
    lit ".pkg.tar.zst"
    ∷ lit ".pkg.tar.xz"
    ∷ lit ".pkg.tar.gz"
    ∷ lit ".pkg.tar.lz4"
    ∷ lit ".pkg.tar"
    ∷ []

abbrev is_dash : ℕ → Bool
is_dash c = c == 0x2d

-- All parts but the last three, which are the version, the release and the architecture.
name_of_parts : List Text → Option Text
unfolding join_with lit
name_of_parts parts =
    if ltb (length parts) 4
    then none
    else some (join_with (lit "-") (reverse (drop 3 (reverse parts))))

unfoldable pub parse_pkg_archive_name : Text → Option Text
unfolding without_suffix name_of_parts split_on lit
parse_pkg_archive_name fname = elim (without_suffix archive_suffixes fname) [
  | none ↦ none
  | some no_ext ↦ name_of_parts (split_on is_dash no_ext)
]

unfoldable pub parse_deb_archive_name : Text → Option Text
unfolding strip_suffix split_on lit
parse_deb_archive_name fname = elim (strip_suffix fname (lit ".deb")) [
  | none ↦ none
  | some no_ext ↦ head? (split_on (λ c. c == 0x5f) no_ext)
]
