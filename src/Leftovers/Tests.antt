-- ===== src/Leftovers/Tests.antt =====
-- A home on the system in memory, and the archive of a package.
use pkgundo.Prelude.{lit, text_eq, [], ◌∷◌, ◌++◌, none, some, ◌≡◌, refl, All}
use pkgundo.System.Memory.{memory, Files}
use pkgundo.Paths.{components}
use pkgundo.Leftovers.{scan_with_home}
use pkgundo.Leftovers.Metadata.{PackageMetadataSource}
use pkgundo.Leftovers.Names.{parse_pkg_archive_name}
use pkgundo.Leftovers.Names.RoundTrip.{archive_name, parse_pkg_archive_name-archive_name}
use pkgundo.Leftovers.Safety.{IsEntry, IsDotted, places, scan_with_home-IsEntry}

abbrev no_source : PackageMetadataSource
no_source = record {
  query_info = λ app. none;
  query_files = λ app. none;
  cached_archive = λ app. none;
  archive_pkginfo = λ archive. none;
  archive_file_list = λ archive. none;
  read_file = λ path. none;
  read_file_in_archive = λ archive path. none;
}

abbrev files : Files
files = (lit "/home/ann/.vimrc", []) ∷ (lit "/home/ann/.config/vim", []) ∷ []

scan_with_home-IsEntry_example :
    All
      (λ c.
        IsEntry memory files (places (components (lit "/home/ann"))) c
        × IsDotted (λ s. s) (components (lit "/home/ann")) c)
      (scan_with_home (λ s. s) memory (lit "vim") (components (lit "/home/ann")) no_source files)
scan_with_home-IsEntry_example =
    scan_with_home-IsEntry (λ s. s) memory (lit "vim") (components (lit "/home/ann")) no_source
      files

parse_pkg_archive_name-archive_name_example :
    parse_pkg_archive_name
      (archive_name (lit "gtk-3") (lit "1.0") (lit "2") (lit "x86_64") ++ lit ".pkg.tar.xz")
    ≡ some (lit "gtk-3")
unfolding lit text_eq
parse_pkg_archive_name-archive_name_example =
    parse_pkg_archive_name-archive_name (lit "gtk-3") (lit "1.0") (lit "2") (lit "x86_64")
      (lit ".pkg.tar.xz") refl refl refl refl
