-- ===== src/BlobStore/Tests.antt =====
-- A file that is restored from its blob.
use pkgundo.Prelude.{Text, lit, text_eq, [], ◌∷◌, ok, ◌≡◌, refl, split_on, starts_with}
use pkgundo.System.{Bytes}
use pkgundo.System.Memory.{memory, memory-IsLawful, find}
use pkgundo.Exec.{World}
use pkgundo.Db.{BlobRow}
use pkgundo.Db.Tables.{select}
use pkgundo.Transaction.Tests.{one_db}
use pkgundo.Paths.{components, body, parent, init, to_text}
use pkgundo.BlobStore.{
  find_blob, first_blob, is_blob_of, content_of, restore_from_blob, get_blob_content, write_back,
  create_parent, restore_metadata, apply_metadata,
}
use pkgundo.BlobStore.Restore.{HasPreBlob, restore_from_blob-read}

abbrev a_file : Text
a_file = lit "/etc/x"

abbrev a_blob : BlobRow
a_blob = record {
  txid = 1;
  path = a_file;
  phase = lit "pre";
  content = 5 ∷ [];
  sha256 = 5 ∷ [];
  size = 1;
  uid = 0;
  gid = 0;
  mode = 0o644;
  captured_at = lit "2024-01-01T00:00:00+00:00";
}

abbrev blob_world : World memory
blob_world = record {
  db = record one_db { file_blobs = record { last = 1; rows = (1, a_blob) ∷ [] } };
  state = [];
}

restore_from_blob-read_example :
    (c : Bytes) × (HasPreBlob memory memory-IsLawful 1 a_file c blob_world.db
      × (find a_file (restore_from_blob memory 1 a_file blob_world).1.state ≡ ok c))
unfolding find_blob first_blob is_blob_of content_of restore_from_blob get_blob_content write_back
    create_parent restore_metadata apply_metadata components body parent init to_text text_eq lit
    split_on starts_with select
restore_from_blob-read_example =
    restore_from_blob-read memory memory-IsLawful 1 a_file blob_world refl
