-- ===== src/Archive/Kept.antt =====
-- What is archived can be read in the archive.
use pkgundo.Prelude.{
  any-snoc, Text, text_eq, text_eq_refl, Bool, true, false, ◌&&◌, not, ℕ, Option, none, some,
  Result-cases, ok, ◌==◌, ==_iff, ◌≡◌, refl, arith, ◌∙◌, any, inl, inr, filter, suc,
}
use pkgundo.System.{Os, Bytes}
use pkgundo.System.Lawful.{IsLawful}
use pkgundo.Db.{Db, ArchiveRow, same_archive}
use pkgundo.Db.Tables.{insert_or_replace}
use pkgundo.Exec.{World, ◌>>=◌}
use pkgundo.Exec.Keeps.{bind-post}
use pkgundo.Paths.{PathBuf, parent, components, to_text}
use pkgundo.Archive.{
  Codec, ArchiveMetadata, archive_row, insert_archive_row, create_parent, save_content, metadata_of,
  record_archive, write_metadata, describe, save, archive_to, archive_present, archive_file,
  archive_path_for, meta_path_for,
}

is_entry : ℕ → Text → Text → ArchiveRow → Bool
is_entry txid path dest r =
    r.txid == txid && (text_eq r.original_path path && text_eq r.archive_path dest)

-- The database says that the path is archived at `dest`.
pub has_archive : ℕ → Text → Text → Db → Bool
has_archive txid path dest db = any (λ (_, r). is_entry txid path dest r) db.archives.rows

has_archive-insert :
    (txid : ℕ) (path dest : Text) (modified : Bool) (stamp : Text) (db : Db) (u : Unit {0})
    → (insert_archive_row (archive_row txid path dest modified stamp) db).0 ≡ ok u
    → has_archive txid path dest
        (insert_archive_row (archive_row txid path dest modified stamp) db).1
      ≡ true
unfolding has_archive insert_archive_row insert_or_replace archive_row is_entry
has_archive-insert txid path dest modified stamp db u h = ground (
  arith,
  h,
  any-snoc (λ (_, r). is_entry txid path dest r)
      (filter (λ (_, r). not (same_archive (archive_row txid path dest modified stamp) r))
        db.archives.rows)
      (suc db.archives.last, archive_row txid path dest modified stamp)
      (ground (arith, (==_iff txid txid).1 refl, text_eq_refl path, text_eq_refl dest)),
)

module _ (os : Os) (codec : Codec) {Apart : Text → Text → Type 0} (lawful : IsLawful os Apart) where
  -- The content is readable at `dest`, and the database says so.
  abbrev pub IsKept : ℕ → Text → Text → Bytes → World os → Type 0
  IsKept txid path dest c w =
      (os.read w.state dest ≡ ok c) × (has_archive txid path dest w.db ≡ true)

  module _ (txid : ℕ) (path dest : Text) (modified : Bool) (c : Bytes) where
    record_archive-IsKept :
        (w : World os) (u : Unit {0})
        → os.read w.state dest ≡ ok c
        → (record_archive os codec txid path dest modified w).0 ≡ ok u
        → IsKept txid path dest c (record_archive os codec txid path dest modified w).1
    unfolding record_archive
    record_archive-IsKept w u held h = ground (
      arith,
      lawful.read-now dest w.state,
      has_archive-insert txid path dest modified (os.now w.state).0 w.db u,
    )

    write_metadata-read :
        (meta : Text → ArchiveMetadata) (w : World os)
        → Apart (meta_path_for dest) dest
        → os.read w.state dest ≡ ok c
        → os.read (write_metadata os codec dest meta w).1.state dest ≡ ok c
    unfolding write_metadata
    write_metadata-read meta w apart held =
        lawful.read-write (meta_path_for dest) dest _ c (os.now w.state).1 apart
          (lawful.read-now dest w.state ∙ held)

    describe-IsKept :
        (target : Option Text) (w : World os) (u : Unit {0})
        → Apart (meta_path_for dest) dest
        → os.read w.state dest ≡ ok c
        → (describe os codec txid path dest modified target w).0 ≡ ok u
        → IsKept txid path dest c (describe os codec txid path dest modified target w).1
    unfolding describe
    describe-IsKept target w u apart held =
        bind-post (IsKept txid path dest c)
          (write_metadata os codec dest (metadata_of os codec w.state txid path modified target))
          (λ _. record_archive os codec txid path dest modified) w
          (λ _ _ b. record_archive-IsKept _ b (
            write_metadata-read (metadata_of os codec w.state txid path modified target) w apart
              held))
          u

    -- A copy that succeeds, and what describes it.
    save_content-read :
        (w : World os) (target : Option Text)
        → Apart path dest
        → os.read w.state path ≡ ok c
        → (save_content os codec false path dest w).0 ≡ ok target
        → os.read (save_content os codec false path dest w).1.state dest ≡ ok c
    unfolding save_content
    save_content-read w target other there = elim (Result-cases (os.copy path dest w.state).0) [
      | inl (u, done) ↦ ground (arith, lawful.read-copy path dest w.state c u other done there)
      | inr (e, failed) ↦ ground arith
    ]

    save-eq :
        (w : World os)
        → os.is_symlink w.state path ≡ false
        → save os codec txid path dest modified w
          ≡ (save_content os codec false path dest >>= λ target.
                describe os codec txid path dest modified target)
              w
    unfolding save
    save-eq w plain = ground arith

    save-IsKept :
        (w : World os) (u : Unit {0})
        → Apart (meta_path_for dest) dest
        → Apart path dest
        → os.is_symlink w.state path ≡ false
        → os.read w.state path ≡ ok c
        → (save os codec txid path dest modified w).0 ≡ ok u
        → IsKept txid path dest c (save os codec txid path dest modified w).1
    save-IsKept w u apart other plain there = rw (save-eq w plain) (
        bind-post (IsKept txid path dest c) (save_content os codec false path dest)
          (λ target. describe os codec txid path dest modified target) w
          (λ target done b.
            describe-IsKept target (save_content os codec false path dest w).1 b apart
              (save_content-read w target other there done))
          u)

    create_parent-keeps :
        (dir : Option PathBuf) (w : World os)
        → os.is_symlink w.state path ≡ false
        → os.read w.state path ≡ ok c
        → (os.is_symlink (create_parent os codec dir w).1.state path ≡ false)
          × (os.read (create_parent os codec dir w).1.state path ≡ ok c)
    unfolding create_parent
    create_parent-keeps none w plain there = (plain, there)
    create_parent-keeps (some dir) w plain there = (
      ground (arith, lawful.is_symlink-create_dir_all (to_text dir) path w.state c),
      ground (arith, lawful.read-create_dir_all (to_text dir) path w.state c),
    )

    archive_to-IsKept :
        (w : World os) (u : Unit {0})
        → Apart (meta_path_for dest) dest
        → Apart path dest
        → os.is_symlink w.state path ≡ false
        → os.read w.state path ≡ ok c
        → (archive_to os codec txid path dest modified w).0 ≡ ok u
        → IsKept txid path dest c (archive_to os codec txid path dest modified w).1
    unfolding archive_to
    archive_to-IsKept w u apart other plain there =
        bind-post (IsKept txid path dest c) (create_parent os codec (parent (components dest)))
          (λ _. save os codec txid path dest modified) w
          (λ _ done b.
            let keeps = create_parent-keeps (parent (components dest)) w plain there in
            save-IsKept (create_parent os codec (parent (components dest)) w).1 b apart other
              keeps.0 keeps.1)
          u

  archive_present-IsKept :
      (root : Text) (txid : ℕ) (path : Text) (modified : Bool) (c : Bytes) (w : World os)
      (u : Unit {0})
      → Apart (meta_path_for (archive_path_for root txid path)) (archive_path_for root txid path)
      → Apart path (archive_path_for root txid path)
      → os.is_symlink w.state path ≡ false
      → os.read w.state path ≡ ok c
      → (archive_present os codec root txid path modified w).0 ≡ ok u
      → IsKept txid path
          (archive_path_for root txid path)
          c
          (archive_present os codec root txid path modified w).1
  unfolding archive_present
  archive_present-IsKept root txid path modified c w u =
      archive_to-IsKept txid path (archive_path_for root txid path) modified c w u

  archive_file-eq :
      (root : Text) (txid : ℕ) (path : Text) (modified : Bool) (w : World os)
      → os.exists w.state path ≡ true
      → archive_file os codec root txid path modified w
        ≡ archive_present os codec root txid path modified w
  unfolding archive_file
  archive_file-eq root txid path modified w there = ground arith

  -- If `archive_file` succeeds for a regular file that exists, then the content of that file is
  -- readable at its place in the archive, and the database lists it there. That place is
  -- assumed to be another file than the path and than its metadata file.
  pub archive_file-IsKept :
      (root : Text) (txid : ℕ) (path : Text) (modified : Bool) (c : Bytes) (w : World os)
      (u : Unit {0})
      → Apart (meta_path_for (archive_path_for root txid path)) (archive_path_for root txid path)
      → Apart path (archive_path_for root txid path)
      → os.exists w.state path ≡ true
      → os.is_symlink w.state path ≡ false
      → os.read w.state path ≡ ok c
      → (archive_file os codec root txid path modified w).0 ≡ ok u
      → IsKept txid path
          (archive_path_for root txid path)
          c
          (archive_file os codec root txid path modified w).1
  archive_file-IsKept root txid path modified c w u apart other there plain held =
      rw (archive_file-eq root txid path modified w there)
        (archive_present-IsKept root txid path modified c w u apart other plain held)
