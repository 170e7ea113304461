-- ===== src/Fingerprint/Tests.antt =====
-- Files and links that are captured and compared.
use pkgundo.Prelude.{Text, lit, text_eq, true, false, [], ◌∷◌, none, some, ◌≡◌, refl}
use pkgundo.System.{Os}
use pkgundo.System.Memory.{memory, Files, find, is_found, meta_of}
use pkgundo.Exec.{World}
use pkgundo.Transaction.Tests.{one_db}
use pkgundo.Fingerprint.{
  new, FileFingerprint, capture_fingerprint, fingerprint_by, symlink_fingerprint,
  compare_with_current,
}
use pkgundo.Fingerprint.Compare.{compare_with_current-link}

abbrev a_file : Text
a_file = lit "/etc/x"

abbrev before : World memory
before = record { db = one_db; state = (a_file, 1 ∷ []) ∷ [] }

abbrev after : Files
after = (a_file, 2 ∷ []) ∷ []

abbrev a_print : FileFingerprint
a_print = record {
  txid = 1;
  path = a_file;
  phase = lit "pre";
  sha256 = some (1 ∷ []);
  size = some 1;
  uid = some 0;
  gid = some 0;
  mode = some 0o644;
  mtime = some 0;
  captured_at = lit "2024-01-01T00:00:00+00:00";
  is_symlink = false;
  symlink_target = none;
}

-- The same system, where every file counts as a link.
abbrev links : Os
links = record memory { is_symlink = λ s p. true }

abbrev link_before : World links
link_before = record { db = one_db; state = (a_file, 1 ∷ []) ∷ [] }

abbrev link_print : FileFingerprint
link_print = record a_print { sha256 = none; is_symlink = true }

compare_with_current-link_example : compare_with_current links after link_print ≡ new
unfolding capture_fingerprint fingerprint_by symlink_fingerprint find is_found meta_of text_eq lit
compare_with_current-link_example =
    compare_with_current-link links 1 a_file (lit "pre") link_before link_print after refl refl refl
