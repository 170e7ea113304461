-- ===== src/Rollback/Files/Safety.antt =====
-- What a rollback leaves alone: everything in a dry run, and home directories by default.
use pkgundo.Prelude.{Text, Bool, true, false, ℕ, ok, ◌≡◌, refl, arith}
use pkgundo.System.{Os}
use pkgundo.Exec.{World}
use pkgundo.Classifier.{FileCategory, classify_path}
use pkgundo.Classifier.Protection.{InHome, action-eq-never_touch_iff}
use pkgundo.Fingerprint.{
  FingerprintDiff, unchanged, modified, missing, new, get_fingerprint_for_path,
}
use pkgundo.Archive.{Codec}
use pkgundo.Rollback.{skipped, RollbackEngine}
use pkgundo.Rollback.Files.{
  created_unmodified, created_modified, created_by, handle_created_present, handle_created_file,
  modified_present, modified_without_baseline, restore_anyway, archive_then_restore,
  modified_modified, modified_by, modified_from, handle_modified_file, deleted_from,
  deleted_without_blob, deleted_by, handle_deleted_file, handle_operation, process_by,
  process_mutation,
}

module _ (os : Os) (codec : Codec) (e : RollbackEngine) where
  -- Without `home_cleanup`, a mutation of a path at or below a home directory is skipped, whatever
  -- the mode, the operation and the state of the system, and changes nothing.
  pub process_mutation-InHome :
      (on_disk_symlink : Bool) (path operation : Text) (w : World os)
      → e.home_cleanup ≡ false
      → InHome path
      → process_mutation os codec e path operation (classify_path on_disk_symlink path) w
        ≡ (ok (skipped path), w)
  unfolding process_mutation process_by
  process_mutation-InHome link path operation w off home =
      rw ((action-eq-never_touch_iff link path).1 home, off) refl

module _ (os : Os) (codec : Codec) (e : RollbackEngine) (dry : e.dry_run ≡ true) where
  get_fingerprint-same :
      (txid : ℕ) (path phase : Text) (w : World os)
      → (get_fingerprint_for_path os txid path phase w).1 ≡ w
  unfolding get_fingerprint_for_path
  get_fingerprint-same txid path phase w = ground arith

  created_by-same :
      (diff : FingerprintDiff) (path : Text) (w : World os)
      → (created_by os codec e diff path w).1 ≡ w
  unfolding created_by created_unmodified created_modified
  created_by-same diff path w = ground arith

  handle_created_file-same :
      (path : Text) (w : World os) → (handle_created_file os codec e path w).1 ≡ w
  unfolding handle_created_file handle_created_present get_fingerprint_for_path
  handle_created_file-same path w = ground (
    arith,
    created_by-same new path w,
    created_by-same unchanged path w,
    created_by-same modified path w,
    created_by-same missing path w,
  )

  handle_modified_file-same :
      (path : Text) (w : World os) → (handle_modified_file os codec e path w).1 ≡ w
  unfolding handle_modified_file modified_from modified_by modified_modified modified_present
      modified_without_baseline restore_anyway archive_then_restore get_fingerprint_for_path
  handle_modified_file-same path w = ground arith

  handle_deleted_file-same :
      (path : Text) (w : World os) → (handle_deleted_file os codec e path w).1 ≡ w
  unfolding handle_deleted_file deleted_by deleted_without_blob deleted_from
      get_fingerprint_for_path
  handle_deleted_file-same path w = ground arith

  -- In a dry run, processing a mutation changes neither the system nor the database, whatever the
  -- operation, the category of the file and the other settings.
  pub process_mutation-dry :
      (path operation : Text) (category : FileCategory) (w : World os)
      → (process_mutation os codec e path operation category w).1 ≡ w
  unfolding process_mutation process_by handle_operation
  process_mutation-dry path operation category w = ground (
    arith,
    handle_created_file-same path w,
    handle_modified_file-same path w,
    handle_deleted_file-same path w,
  )
