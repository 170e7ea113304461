-- ===== src/Rollback/Files.antt =====
-- The handlers of `src/rollback/mod.rs` for a single mutation.
pub mod Safety
pub mod Backup
mod Tests
use pkgundo.Prelude.{
  Text, lit, text_eq, Bool, true, false, ◌||◌, ◌&&◌, not, ℕ, List, [], ◌∷◌, ◌++◌, Option, none,
  some, Result, ok, err, if◌then◌else◌,
}
use pkgundo.System.{Os}
use pkgundo.Exec.{M, with_context, attempt, ◌>>=◌, ◌>>◌, ask, call, pure, choose}
use pkgundo.Classifier.{
  FileCategory, RollbackAction, remove_safe, archive_and_restore, remove_cache, skip, ask_user,
  never_touch, rollback_action_for_category,
}
use pkgundo.Fingerprint.{
  FingerprintDiff, unchanged, modified, missing, new, FileFingerprint, get_fingerprint_for_path,
  compare_with_current,
}
use pkgundo.BlobStore.{restore_from_blob}
use pkgundo.Archive.{Codec, archive_file, default_root}
use pkgundo.Rollback.{
  RollbackMode, conservative, clean, nuclear, FileRollbackResult, removed, archived, restored,
  skipped, RollbackEngine,
}

-- `ArchiveManager::new` or `with_root`
pub root_of : RollbackEngine → Text
root_of e = elim e.archive_root [ none ↦ default_root | some root ↦ root ]

module _ (os : Os) (codec : Codec) (e : RollbackEngine) where
  -- `path.is_symlink() || path.is_file()`
  abbrev pub is_link_or_file : os.State → Text → Bool
  is_link_or_file s path = os.is_symlink s path || os.is_file s path

  abbrev pub is_gone : os.State → Text → Bool
  is_gone s path = not (os.exists s path) && not (os.is_symlink s path)

  -- The difference from the "pre" fingerprint.
  diff_from : Option FileFingerprint → os.State → FingerprintDiff
  diff_from none s = new
  diff_from (some pre) s = compare_with_current os s pre

  -- `fs::remove_file(path).context(…)?`
  remove_file_checked : Text → M os (Unit {0})
  remove_file_checked path =
      with_context (lit "Failed to remove " ++ path) (call (os.remove_file path))

  -- `let _ = fs::remove_file(path)` and `let _ = fs::remove_dir(path)`
  remove_file_anyway : Text → M os (Unit {0})
  remove_file_anyway path = do attempt (call (os.remove_file path)); pure tt

  remove_dir_anyway : Text → M os (Unit {0})
  remove_dir_anyway path = do attempt (call (os.remove_dir path)); pure tt

  -- Files and links are removed, directories if they are empty.
  remove_entry : Text → Bool → Bool → M os (Unit {0})
  remove_entry path true dir = remove_file_checked path
  remove_entry path false true = remove_dir_anyway path
  remove_entry path false false = pure tt

  remove_now : Text → M os (Unit {0})
  remove_now path = do
    file ← ask (λ s. is_link_or_file s path)
    dir ← ask (λ s. os.is_dir s path)
    remove_entry path file dir

  archive_when : Bool → Text → M os (Unit {0})
  archive_when true path = archive_file os codec (root_of e) e.txid path false
  archive_when false path = pure tt

  -- A file that is as it was installed: it goes, to the archive first under `home_cleanup`.
  created_unmodified : Bool → Bool → Text → M os FileRollbackResult
  created_unmodified true to_archive path =
      pure (if to_archive then archived path else removed path)
  created_unmodified false to_archive path = do
    archive_when to_archive path
    remove_now path
    pure (if to_archive then archived path else removed path)

  remove_if_file : Text → M os (Unit {0})
  remove_if_file path = do
    file ← ask (λ s. os.is_file s path || os.is_symlink s path)
    choose file (remove_file_anyway path) (pure tt)

  -- A file that was changed after it was installed.
  created_modified : RollbackMode → Bool → Text → M os FileRollbackResult
  created_modified conservative true path = pure (archived path)
  created_modified conservative false path = do
    archive_file os codec (root_of e) e.txid path true
    remove_if_file path
    pure (archived path)
  created_modified _ true path = pure (removed path)
  created_modified _ false path = do remove_if_file path; pure (removed path)

  created_by : FingerprintDiff → Text → M os FileRollbackResult
  created_by missing path = pure (skipped path)
  created_by modified path = created_modified e.mode e.dry_run path
  created_by _ path = do
    file ← ask (λ s. is_link_or_file s path)
    created_unmodified e.dry_run (e.home_cleanup && file) path

  handle_created_present : Text → M os FileRollbackResult
  handle_created_present path = do
    pre ← get_fingerprint_for_path os e.txid path (lit "pre")
    diff ← ask (diff_from pre)
    created_by diff path

  pub handle_created_file : Text → M os FileRollbackResult
  handle_created_file path = do
    gone ← ask (λ s. is_gone s path)
    choose gone (pure (skipped path)) (handle_created_present path)

  -- Under `home_cleanup`, a changed file of which nothing was recorded goes to the archive.
  archive_and_remove : Bool → Bool → Text → M os (Unit {0})
  archive_and_remove true dir path = do
    archive_file os codec (root_of e) e.txid path false
    remove_file_checked path
  archive_and_remove false true path = remove_dir_anyway path
  archive_and_remove false false path = pure tt

  modified_present : Bool → Text → M os FileRollbackResult
  modified_present true path = pure (archived path)
  modified_present false path = do
    file ← ask (λ s. is_link_or_file s path)
    dir ← ask (λ s. os.is_dir s path)
    archive_and_remove file dir path
    pure (archived path)

  modified_without_baseline : Bool → Text → M os FileRollbackResult
  modified_without_baseline false path = pure (skipped path)
  modified_without_baseline true path = do
    gone ← ask (λ s. is_gone s path)
    choose gone (pure (skipped path)) (modified_present e.dry_run path)

  -- `restore_from_blob`, where an error or the lack of a blob changes nothing of the answer
  restore_anyway : Bool → Text → M os (Unit {0})
  restore_anyway true path = pure tt
  restore_anyway false path = do attempt (restore_from_blob os e.txid path); pure tt

  archive_then_restore : Bool → Text → M os (Unit {0})
  archive_then_restore true path = pure tt
  archive_then_restore false path = do
    archive_file os codec (root_of e) e.txid path true
    restore_anyway false path

  modified_modified : RollbackMode → Text → M os FileRollbackResult
  modified_modified nuclear path = do restore_anyway e.dry_run path; pure (restored path)
  modified_modified _ path = do archive_then_restore e.dry_run path; pure (archived path)

  modified_by : FingerprintDiff → Text → M os FileRollbackResult
  modified_by unchanged path = do restore_anyway e.dry_run path; pure (restored path)
  modified_by modified path = modified_modified e.mode path
  modified_by missing path = pure (skipped path)
  modified_by new path = pure (skipped path)

  modified_from : Option FileFingerprint → Text → M os FileRollbackResult
  modified_from none path = modified_without_baseline e.home_cleanup path
  modified_from (some pre) path = do
    diff ← ask (λ s. compare_with_current os s pre)
    modified_by diff path

  pub handle_modified_file : Text → M os FileRollbackResult
  handle_modified_file path = do
    pre ← get_fingerprint_for_path os e.txid path (lit "pre")
    modified_from pre path

  -- Without a blob, a file that was recorded is reported as restored.
  deleted_from : Option FileFingerprint → Text → M os FileRollbackResult
  deleted_from none path = pure (skipped path)
  deleted_from (some pre) path = pure (restored path)

  deleted_without_blob : Text → M os FileRollbackResult
  deleted_without_blob path = do
    pre ← get_fingerprint_for_path os e.txid path (lit "pre")
    deleted_from pre path

  deleted_after : Result Bool → Text → M os FileRollbackResult
  deleted_after (ok true) path = pure (restored path)
  deleted_after _ path = deleted_without_blob path

  deleted_by : Bool → Text → M os FileRollbackResult
  deleted_by true path = deleted_without_blob path
  deleted_by false path = do
    result ← attempt (restore_from_blob os e.txid path)
    deleted_after result path

  pub handle_deleted_file : Text → M os FileRollbackResult
  handle_deleted_file path = deleted_by e.dry_run path

  -- The `match operation`.
  handle_operation : Text → Text → M os FileRollbackResult
  handle_operation path operation =
      choose (text_eq operation (lit "create") || text_eq operation (lit "rename_to"))
        (handle_created_file path)
        (choose (text_eq operation (lit "modify")) (handle_modified_file path) (
          choose (text_eq operation (lit "delete")) (handle_deleted_file path)
            (pure (skipped path))))

  -- The action decides whether the file may be touched at all.
  process_by : RollbackAction → Bool → Text → Text → M os FileRollbackResult
  process_by never_touch false path operation = pure (skipped path)
  process_by skip home path operation = pure (skipped path)
  process_by _ home path operation = handle_operation path operation

  pub process_mutation : Text → Text → FileCategory → M os FileRollbackResult
  process_mutation path operation category =
      process_by (rollback_action_for_category category) e.home_cleanup path operation
