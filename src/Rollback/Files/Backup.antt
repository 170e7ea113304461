-- ===== src/Rollback/Files/Backup.antt =====
-- Under `home_cleanup` nothing is removed of which there is no copy.
use pkgundo.Prelude.{Text, lit, Bool, true, false, none, ok, ◌≡◌, arith}
use pkgundo.System.{Os, Bytes}
use pkgundo.System.Lawful.{IsLawful}
use pkgundo.Exec.{World, ◌>>◌, pure}
use pkgundo.Exec.Keeps.{bind-post}
use pkgundo.Fingerprint.{get_fingerprint_for_path}
use pkgundo.Archive.{Codec, archive_file, archive_path_for, meta_path_for}
use pkgundo.Archive.Kept.{IsKept, archive_file-IsKept}
use pkgundo.Rollback.{FileRollbackResult, archived, RollbackEngine}
use pkgundo.Rollback.Files.{
  root_of, remove_file_checked, remove_now, remove_entry, remove_dir_anyway, archive_when,
  created_unmodified, created_by, diff_from, handle_created_present, handle_created_file,
  archive_and_remove, modified_present, modified_without_baseline, modified_from,
  handle_modified_file,
}

-- Where the engine archives a path.
unfoldable pub place : RollbackEngine → Text → Text
place e path = archive_path_for (root_of e) e.txid path

module _ (os : Os) (codec : Codec) {Apart : Text → Text → Type 0} (lawful : IsLawful os Apart) where
  module _ (e : RollbackEngine) (path : Text) (c : Bytes) where
    abbrev Kept : World os → Type 0
    Kept = IsKept os codec lawful e.txid path (place e path) c

    remove_file_checked-Kept :
        (w : World os)
        → Apart path (place e path)
        → Kept w
        → Kept (remove_file_checked os codec e path w).1
    unfolding remove_file_checked
    remove_file_checked-Kept w apart kept =
        (lawful.read-remove_file path (place e path) c w.state apart kept.0, kept.1)

    remove_now-Kept :
        (w : World os) → Apart path (place e path) → Kept w → Kept (remove_now os codec e path w).1
    unfolding remove_now remove_entry remove_file_checked remove_dir_anyway
    remove_now-Kept w apart kept = (
      ground (
        arith,
        kept.0,
        lawful.read-remove_file path (place e path) c w.state apart kept.0,
        lawful.read-remove_dir path (place e path) c w.state kept.0,
      ),
      ground (arith, kept.1),
    )

    -- A regular file with content `c`, at a path that the archive does not use.
    record IsPlain (w : World os) : Type 0 where
      exists_here : os.exists w.state path ≡ true
      not_a_link : os.is_symlink w.state path ≡ false
      is_file_here : os.is_file w.state path ≡ true
      content : os.read w.state path ≡ ok c

    archive_before :
        (w : World os) (u : Unit {0}) (modified : Bool)
        → Apart (meta_path_for (place e path)) (place e path)
        → Apart path (place e path)
        → IsPlain w
        → (archive_file os codec (root_of e) e.txid path modified w).0 ≡ ok u
        → Kept (archive_file os codec (root_of e) e.txid path modified w).1
    unfolding place
    archive_before w u modified apart other plain =
        archive_file-IsKept os codec lawful (root_of e) e.txid path modified c w u apart other
          plain.exists_here plain.not_a_link plain.content

    archive_and_remove-Kept :
        (w : World os) (dir : Bool) (u : Unit {0})
        → Apart (meta_path_for (place e path)) (place e path)
        → Apart path (place e path)
        → IsPlain w
        → (archive_and_remove os codec e true dir path w).0 ≡ ok u
        → Kept (archive_and_remove os codec e true dir path w).1
    unfolding archive_and_remove
    archive_and_remove-Kept w dir u meta apart plain =
        bind-post Kept (archive_file os codec (root_of e) e.txid path false)
          (λ _. remove_file_checked os codec e path) w
          (λ a done b _.
            remove_file_checked-Kept (archive_file os codec (root_of e) e.txid path false w).1 apart
              (archive_before w a false meta apart plain done))
          u

    created_unmodified-Kept :
        (w : World os) (r : FileRollbackResult)
        → Apart (meta_path_for (place e path)) (place e path)
        → Apart path (place e path)
        → IsPlain w
        → (created_unmodified os codec e false true path w).0 ≡ ok r
        → (r ≡ archived path) × Kept (created_unmodified os codec e false true path w).1
    unfolding created_unmodified archive_when
    created_unmodified-Kept w r meta apart plain h = (
      ground arith,
      bind-post Kept (archive_file os codec (root_of e) e.txid path false)
          (λ _. remove_now os codec e path >> pure (archived path)) w
          (λ a done.
            bind-post Kept (remove_now os codec e path) (λ _. pure (archived path))
              (archive_file os codec (root_of e) e.txid path false w).1
              (λ _ _ _ _.
                remove_now-Kept (archive_file os codec (root_of e) e.txid path false w).1 apart
                  (archive_before w a false meta apart plain done)))
          r h,
    )

    module _ (w : World os) (r : FileRollbackResult)
        (meta : Apart (meta_path_for (place e path)) (place e path))
        (apart : Apart path (place e path)) (home : e.home_cleanup ≡ true) (wet : e.dry_run ≡ false)
        (unknown : get_fingerprint_for_path os e.txid path (lit "pre") w ≡ (ok none, w))
        (there : os.exists w.state path ≡ true) (plain : os.is_symlink w.state path ≡ false)
        (regular : os.is_file w.state path ≡ true) (held : os.read w.state path ≡ ok c) where
      abbrev is_plain : IsPlain w
      is_plain = record {
        exists_here = there;
        not_a_link = plain;
        is_file_here = regular;
        content = held;
      }

      created-eq :
          handle_created_file os codec e path w ≡ created_unmodified os codec e false true path w
      unfolding handle_created_file handle_created_present created_by diff_from
      created-eq = ground arith

      modified-eq :
          handle_modified_file os codec e path w
          ≡ (archive_and_remove os codec e true (os.is_dir w.state path) path
                >> pure (archived path))
              w
      unfolding handle_modified_file modified_from modified_without_baseline modified_present
      modified-eq = ground arith

      -- Outside a dry run and under `home_cleanup`, for a regular file that exists and of which no "pre"
      -- fingerprint is recorded: if `handle_created_file` succeeds, it answers "archived", and then the content
      -- that the file had is readable at its place in the archive and the database lists it there.
      -- That place is assumed to be another file than the path and than its metadata file.
      pub handle_created_file-IsKept :
          (handle_created_file os codec e path w).0 ≡ ok r
          → (r ≡ archived path)
            × IsKept os codec lawful e.txid path
                (place e path)
                c
                (handle_created_file os codec e path w).1
      handle_created_file-IsKept = rw created-eq (created_unmodified-Kept w r meta apart is_plain)

      -- Outside a dry run and under `home_cleanup`, for a regular file that exists and of which no "pre"
      -- fingerprint is recorded: if `handle_modified_file` succeeds, it answers "archived", and then the content
      -- that the file had is readable at its place in the archive and the database lists it there.
      -- That place is assumed to be another file than the path and than its metadata file.
      pub handle_modified_file-IsKept :
          (handle_modified_file os codec e path w).0 ≡ ok r
          → (r ≡ archived path)
            × IsKept os codec lawful e.txid path
                (place e path)
                c
                (handle_modified_file os codec e path w).1
      handle_modified_file-IsKept = rw modified-eq (λ h. (
        ground arith,
        bind-post Kept (archive_and_remove os codec e true (os.is_dir w.state path) path)
            (λ _. pure (archived path)) w
            (λ a done b _.
              archive_and_remove-Kept w (os.is_dir w.state path) a meta apart is_plain done)
            r h,
      ))
