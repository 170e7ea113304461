-- ===== src/Archive.antt =====
-- `src/archive/mod.rs`: files are copied to an archive before they are removed, and recovered from
-- it. `serde_json`, which writes and reads the metadata beside each copy, is the argument `codec`.
pub mod Kept
pub mod Recovery
pub mod Tests
use pkgundo.Prelude.{
  Text, lit, text_eq, Bool, true, false, ◌||◌, ◌&&◌, not, ℕ, List, [], ◌∷◌, ◌++◌, map, Option, none,
  some, ◌==◌, Result, ok, err, to_option, context, if◌then◌else◌, decimal, trim_start_matches, ◌≡◌,
}
use Prim.Native.Nat.{bit_and}
use pkgundo.Paths.{
  Component, root_dir, cur_dir, parent_dir, normal, PathBuf, components, to_text, parent, join,
}
use pkgundo.System.{Os, Bytes, FileMeta, Statement, insert_archive, select_archives}
use pkgundo.Db.{Db, refers, ArchiveRow, same_archive}
use pkgundo.Db.Tables.{insert_or_replace, select}
use pkgundo.Exec.{
  M, query, execute, with_context, attempt, ◌>>=◌, ◌>>◌, now, ask, inspect, call, pure, choose,
}
use pkgundo.Fingerprint.{compute_sha256}
use pkgundo.BlobStore.{has_nul}

pub record ArchiveMetadata : Type 0 where
  pub txid : ℕ
  pub original_path : Text
  pub archived_at : Text
  pub sha256_at_archive : Option Text
  pub modified_after_install : Bool
  pub uid : Option ℕ
  pub gid : Option ℕ
  pub mode : Option ℕ
  pub symlink_target : Option Text

-- `serde_json::to_string_pretty` and `from_str` for the metadata.
pub record Codec : Type 0 where
  pub encode : ArchiveMetadata → Bytes
  pub decode : Bytes → Option ArchiveMetadata

abbrev pub default_root : Text
unfolding lit
default_root = lit "/var/lib/pkgundo/archives"

unfoldable pub archive_path_for : Text → ℕ → Text → Text
archive_path_for root txid path =
    join (join root (decimal txid)) (trim_start_matches (λ c. c == 0x2f) path)

-- `dest.with_file_name(name + ".pkgundo-meta.json")`, where no name counts as the empty one.
unfoldable pub with_suffix : PathBuf → PathBuf
with_suffix [] = normal (lit ".pkgundo-meta.json") ∷ []
with_suffix (normal s ∷ []) = normal (s ++ lit ".pkgundo-meta.json") ∷ []
with_suffix (root_dir ∷ []) = root_dir ∷ normal (lit ".pkgundo-meta.json") ∷ []
with_suffix (cur_dir ∷ []) = cur_dir ∷ normal (lit ".pkgundo-meta.json") ∷ []
with_suffix (parent_dir ∷ []) = parent_dir ∷ normal (lit ".pkgundo-meta.json") ∷ []
with_suffix (c ∷ d ∷ p) = c ∷ with_suffix (d ∷ p)

pub meta_path_for : Text → Text
meta_path_for dest = to_text (with_suffix (components dest))

archive_row : ℕ → Text → Text → Bool → Text → ArchiveRow
archive_row txid path dest modified archived_at = record {
  txid = txid;
  original_path = path;
  archive_path = dest;
  modified_after_install = modified;
  archived_at = archived_at;
}

insert_archive_row : ArchiveRow → Db → Result (Unit {0}) × Db
insert_archive_row r db =
    refers r.txid db (ok tt, record db { archives = insert_or_replace same_archive r db.archives })

field_of : (FileMeta → ℕ) → Option FileMeta → Option ℕ
field_of f none = none
field_of f (some meta) = some (f meta)

-- `SELECT original_path, archive_path`
archive_entry : ℕ × ArchiveRow → Text × Text
archive_entry (_, r) = (r.original_path, r.archive_path)

pub archive_entries : ℕ → Db → List (Text × Text)
archive_entries txid db = map archive_entry (select (λ _ r. r.txid == txid) db.archives)

module _ (os : Os) (codec : Codec) where
  -- `if let Some(parent) = path.parent() { fs::create_dir_all(parent) }`
  create_parent : Option PathBuf → M os (Unit {0})
  create_parent none = pure tt
  create_parent (some dir) =
      with_context (lit "Failed to create archive dir: " ++ to_text dir)
        (call (os.create_dir_all (to_text dir)))

  -- A link's target is kept in the metadata; a file's content is copied.
  save_content : Bool → Text → Text → M os (Option Text)
  save_content true path dest = do target ← inspect (λ s. os.read_link s path); pure (some target)
  save_content false path dest = do
    with_context (lit "Failed to copy " ++ path ++ lit " to archive " ++ dest)
        (call (os.copy path dest))
    pure none

  metadata_of : os.State → ℕ → Text → Bool → Option Text → Text → ArchiveMetadata
  metadata_of s txid path modified target archived_at =
      let meta = to_option (os.symlink_metadata s path) in
      record {
        txid = txid;
        original_path = path;
        archived_at = archived_at;
        sha256_at_archive = to_option (compute_sha256 os s path);
        modified_after_install = modified;
        uid = field_of (λ m. m.uid) meta;
        gid = field_of (λ m. m.gid) meta;
        mode = field_of (λ m. m.mode) meta;
        symlink_target = target;
      }

  record_archive : ℕ → Text → Text → Bool → M os (Unit {0})
  record_archive txid path dest modified = do
    recorded_at ← now
    execute insert_archive (insert_archive_row (archive_row txid path dest modified recorded_at))

  write_metadata : Text → (Text → ArchiveMetadata) → M os (Unit {0})
  write_metadata dest meta = do
    archived_at ← now
    with_context (lit "Failed to write archive metadata")
        (call (os.write (meta_path_for dest) (codec.encode (meta archived_at))))

  describe : ℕ → Text → Text → Bool → Option Text → M os (Unit {0})
  describe txid path dest modified target = do
    meta ← ask (λ s. metadata_of s txid path modified target)
    write_metadata dest meta
    record_archive txid path dest modified

  save : ℕ → Text → Text → Bool → M os (Unit {0})
  save txid path dest modified = do
    link ← ask (λ s. os.is_symlink s path)
    target ← save_content link path dest
    describe txid path dest modified target

  archive_to : ℕ → Text → Text → Bool → M os (Unit {0})
  archive_to txid path dest modified = do
    create_parent (parent (components dest))
    save txid path dest modified

  archive_present : Text → ℕ → Text → Bool → M os (Unit {0})
  archive_present root txid path modified =
      archive_to txid path (archive_path_for root txid path) modified

  pub archive_file : Text → ℕ → Text → Bool → M os (Unit {0})
  archive_file root txid path modified = do
    there ← ask (λ s. os.exists s path)
    link ← ask (λ s. os.is_symlink s path)
    choose (not there && not link) (pure tt) (archive_present root txid path modified)

  decode_result : Result Bytes → Option ArchiveMetadata
  decode_result (ok content) = codec.decode content
  decode_result (err e) = none

  pub read_metadata : os.State → Text → Option ArchiveMetadata
  read_metadata s archived = decode_result (os.read s (meta_path_for archived))

  -- `lchown` or `chown` with the recorded owner, if both numbers are known and the path has no NUL;
  -- failures are logged.
  chown_recorded : Bool → Text → Option ℕ → Option ℕ → M os (Unit {0})
  chown_recorded true path (some uid) (some gid) =
      choose (has_nul path) (pure tt) (attempt (call (os.lchown path uid gid)) >> pure tt)
  chown_recorded false path (some uid) (some gid) =
      choose (has_nul path) (pure tt) (attempt (call (os.chown path uid gid)) >> pure tt)
  chown_recorded link path _ _ = pure tt

  chmod_recorded : Text → Option ℕ → M os (Unit {0})
  chmod_recorded path none = pure tt
  chmod_recorded path (some mode) = do
    attempt (call (os.set_permissions path (bit_and mode 0o7777)))
    pure tt

  -- Links keep their mode: `chmod` would change what they point to.
  restore_from : Option ArchiveMetadata → Bool → Text → M os (Unit {0})
  restore_from none link path = pure tt
  restore_from (some meta) true path = chown_recorded true path meta.uid meta.gid
  restore_from (some meta) false path = do
    chmod_recorded path meta.mode
    chown_recorded false path meta.uid meta.gid

  restore_ownership : Text → Text → M os (Unit {0})
  restore_ownership archived path = do
    meta ← ask (λ s. read_metadata s archived)
    link ← ask (λ s. os.is_symlink s path)
    restore_from meta link path

  -- `let _ = fs::create_dir_all(parent)`
  make_parent : Option PathBuf → M os (Unit {0})
  make_parent none = pure tt
  make_parent (some dir) = do attempt (call (os.create_dir_all (to_text dir))); pure tt

  -- What was restored is reported if the system made it, and then gets its owner back.
  report_if : Result (Unit {0}) → Text → Text → M os (Option Text)
  report_if (ok _) archived path = do restore_ownership archived path; pure (some path)
  report_if (err e) archived path = pure none

  recover_symlink : Text → Text → Text → M os (Option Text)
  recover_symlink target archived path = do
    make_parent (parent (components path))
    attempt (call (os.remove_file path))
    made ← attempt (call (os.symlink target path))
    report_if made archived path

  recover_copy : Bool → Text → Text → M os (Option Text)
  recover_copy false archived path = pure none
  recover_copy true archived path = do
    make_parent (parent (components path))
    made ← attempt (call (os.copy archived path))
    report_if made archived path

  pub link_target : Option ArchiveMetadata → Option Text
  link_target none = none
  link_target (some meta) = meta.symlink_target

  recover_by : Option Text → Text → Text → M os (Option Text)
  recover_by (some target) archived path = recover_symlink target archived path
  recover_by none archived path = do
    there ← ask (λ s. os.exists s archived)
    recover_copy there archived path

  -- One round of the loop of `recover_archive`: the path, if it was recovered.
  pub recover_entry : Text → Text → M os (Option Text)
  recover_entry path archived = do
    meta ← ask (λ s. read_metadata s archived)
    recover_by (link_target meta) archived path

  append_found : List Text → Option Text → List Text
  append_found recovered none = recovered
  append_found recovered (some path) = recovered ++ path ∷ []

  recover_entries : List (Text × Text) → List Text → M os (List Text)
  recover_entries [] recovered = pure recovered
  recover_entries ((path, archived) ∷ entries) recovered = do
    found ← recover_entry path archived
    recover_entries entries (append_found recovered found)

  pub recover_archive : ℕ → M os (List Text)
  recover_archive txid = do
    entries ← query select_archives (archive_entries txid)
    recover_entries entries []
