-- ===== src/Rollback/Files/Tests.antt =====
-- Files of a home directory that are processed.
use pkgundo.Prelude.{lit, text_eq, true, false, [], ◌∷◌, none, some, ok, ◌≡◌, refl, arith, inr}
use pkgundo.System.Memory.{memory, memory-IsLawful, find, is_found}
use pkgundo.Db.Tables.{select}
use pkgundo.Classifier.{classify_path}
use pkgundo.Classifier.Protection.{InHome}
use pkgundo.Fingerprint.{get_fingerprint_for_path, find_fingerprint}
use pkgundo.Archive.Kept.{IsKept}
use pkgundo.Archive.Tests.{
  plain_codec, a_path, a_root, a_world, a_path_found, a_place_differs, a_path_differs,
  a_path_archived,
}
use pkgundo.Rollback.{RollbackEngine, new_engine, conservative, clean, skipped, archived}
use pkgundo.Rollback.Files.{
  root_of, process_mutation, handle_created_file, handle_created_present, created_by, diff_from,
  created_unmodified, archive_when, remove_now, remove_entry, remove_file_checked,
  remove_dir_anyway, handle_modified_file, modified_from, modified_without_baseline,
  modified_present, archive_and_remove,
}
use pkgundo.Rollback.Files.Backup.{place, handle_created_file-IsKept, handle_modified_file-IsKept}
use pkgundo.Rollback.Files.Safety.{process_mutation-InHome}

abbrev home_engine : RollbackEngine
home_engine = record {
  txid = 1;
  mode = conservative;
  dry_run = false;
  archive_root = some a_root;
  home_cleanup = true;
  selected_groups = none;
}

unrecorded : get_fingerprint_for_path memory 1 a_path (lit "pre") a_world ≡ (ok none, a_world)
unfolding get_fingerprint_for_path find_fingerprint select
unrecorded = refl

created_returns :
    (handle_created_file memory plain_codec home_engine a_path a_world).0 ≡ ok (archived a_path)
unfolding handle_created_file handle_created_present created_by diff_from created_unmodified
    archive_when remove_now remove_entry remove_file_checked remove_dir_anyway find is_found text_eq
    lit root_of
created_returns = ground (arith, unrecorded, a_path_archived)

modified_returns :
    (handle_modified_file memory plain_codec home_engine a_path a_world).0 ≡ ok (archived a_path)
unfolding handle_modified_file modified_from modified_without_baseline modified_present
    archive_and_remove remove_file_checked find is_found text_eq lit root_of
modified_returns = ground (arith, unrecorded, a_path_archived)

handle_created_file-IsKept_example :
    (archived a_path ≡ archived a_path)
    × IsKept memory plain_codec memory-IsLawful 1 a_path
        (place home_engine a_path)
        (1 ∷ 2 ∷ [])
        (handle_created_file memory plain_codec home_engine a_path a_world).1
unfolding find is_found text_eq lit place root_of
handle_created_file-IsKept_example =
    handle_created_file-IsKept memory plain_codec memory-IsLawful home_engine a_path (1 ∷ 2 ∷ [])
      a_world (archived a_path) a_place_differs a_path_differs refl refl unrecorded refl refl refl
      a_path_found created_returns

handle_modified_file-IsKept_example :
    (archived a_path ≡ archived a_path)
    × IsKept memory plain_codec memory-IsLawful 1 a_path
        (place home_engine a_path)
        (1 ∷ 2 ∷ [])
        (handle_modified_file memory plain_codec home_engine a_path a_world).1
unfolding find is_found text_eq lit place root_of
handle_modified_file-IsKept_example =
    handle_modified_file-IsKept memory plain_codec memory-IsLawful home_engine a_path (1 ∷ 2 ∷ [])
      a_world (archived a_path) a_place_differs a_path_differs refl refl unrecorded refl refl refl
      a_path_found modified_returns

home_path : InHome a_path
unfolding lit
home_path = inr (inr (lit ".cache/x", refl))

process_mutation-InHome_example :
    process_mutation memory plain_codec
      (new_engine 1 clean false)
      a_path
      (lit "delete")
      (classify_path false a_path)
      a_world
    ≡ (ok (skipped a_path), a_world)
unfolding new_engine
process_mutation-InHome_example =
    process_mutation-InHome memory plain_codec (new_engine 1 clean false) false a_path
      (lit "delete") a_world refl home_path
