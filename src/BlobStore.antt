-- ===== src/BlobStore.antt =====
-- `src/blob_store/mod.rs`: copies of small files, taken before a command runs.
pub mod Restore
mod Tests
use pkgundo.Prelude.{
  Text, lit, text_eq, Bool, true, false, ◌||◌, ◌&&◌, not, ℕ, List, [], ◌∷◌, Option, none, some,
  ◌==◌, Result, ok, err, if◌then◌else◌, ltb, any, ◌+◌,
}
use pkgundo.Paths.{PathBuf, components, to_text, parent}
use pkgundo.System.{Os, Bytes, FileMeta, insert_blob, select_blob}
use pkgundo.Db.{Db, refers, BlobRow, same_blob}
use pkgundo.Db.Tables.{insert_or_ignore, select}
use pkgundo.Exec.{
  M, query, execute, with_context, attempt, ◌>>=◌, ◌>>◌, now, ask, inspect, call, pure, choose,
}
use pkgundo.Fingerprint.{compute_sha256, capture_fingerprint, store_fingerprint}

abbrev pub max_blob_size : ℕ
max_blob_size = 1048576

blob_row : ℕ → Text → Text → Bytes → Text → FileMeta → Text → BlobRow
blob_row txid path phase content sha256 meta captured_at = record {
  txid = txid;
  path = path;
  phase = phase;
  content = content;
  sha256 = sha256;
  size = meta.size;
  uid = meta.uid;
  gid = meta.gid;
  mode = meta.mode;
  captured_at = captured_at;
}

insert_blob_row : BlobRow → Db → Result (Unit {0}) × Db
insert_blob_row r db =
    refers r.txid db (ok tt, record db { file_blobs = insert_or_ignore same_blob r db.file_blobs })

-- `CString::new` refuses such a path.
unfoldable pub has_nul : Text → Bool
has_nul path = any (λ c. c == 0) path

-- `CString::new(path).unwrap_or_default()`: a path with a NUL becomes the empty one.
unfoldable pub c_string : Text → Text
unfolding has_nul
c_string path = if has_nul path then [] else path

is_blob_of : ℕ → Text → Text → BlobRow → Bool
is_blob_of txid path phase r = r.txid == txid && (text_eq r.path path && text_eq r.phase phase)

first_blob : List (ℕ × BlobRow) → Option BlobRow
first_blob [] = none
first_blob ((_, r) ∷ _) = some r

pub find_blob : ℕ → Text → Text → Db → Option BlobRow
find_blob txid path phase db =
    first_blob (select (λ _ r. is_blob_of txid path phase r) db.file_blobs)

pub content_of : Option BlobRow → Option Bytes
content_of none = none
content_of (some r) = some r.content

is_ok_true : Result Bool → Bool
is_ok_true (ok b) = b
is_ok_true (err e) = false

module _ (os : Os) where
  store_small_file : ℕ → Text → Text → FileMeta → M os Bool
  store_small_file txid path phase meta = do
    content ← with_context (lit "BlobStore: failed to read") (inspect (λ s. os.read s path))
    sha256 ← inspect (λ s. compute_sha256 os s path)
    captured_at ← now
    with_context (lit "BlobStore: failed to insert blob") (
        execute insert_blob
          (insert_blob_row (blob_row txid path phase content sha256 meta captured_at)))
    pure true

  store_unless : Bool → ℕ → Text → Text → M os Bool
  store_unless true txid path phase = pure false
  store_unless false txid path phase = do
    meta ← inspect (λ s. os.metadata s path)
    choose (ltb max_blob_size meta.size) (pure false) (store_small_file txid path phase meta)

  pub store_file_blob : ℕ → Text → Text → M os Bool
  store_file_blob txid path phase = do
    there ← ask (λ s. os.exists s path)
    link ← ask (λ s. os.is_symlink s path)
    dir ← ask (λ s. os.is_dir s path)
    store_unless (not there || (link || dir)) txid path phase

  pub get_blob_content : ℕ → Text → Text → M os (Option Bytes)
  get_blob_content txid path phase =
      query select_blob (λ db. content_of (find_blob txid path phase db))

  -- The results of both calls are ignored.
  apply_metadata : Text → Option BlobRow → M os (Unit {0})
  apply_metadata path none = pure tt
  apply_metadata path (some r) = do
    attempt (call (os.set_permissions path r.mode))
    attempt (call (os.chown (c_string path) r.uid r.gid))
    pure tt

  restore_metadata : ℕ → Text → M os (Unit {0})
  restore_metadata txid path = do
    row ← query select_blob (find_blob txid path (lit "pre"))
    apply_metadata path row

  create_parent : Option PathBuf → M os (Unit {0})
  create_parent none = pure tt
  create_parent (some dir) = call (os.create_dir_all (to_text dir))

  write_back : ℕ → Text → Option Bytes → M os Bool
  write_back txid path none = pure false
  write_back txid path (some content) = do
    create_parent (parent (components path))
    with_context (lit "BlobStore: failed to restore") (call (os.write path content))
    restore_metadata txid path
    pure true

  pub restore_from_blob : ℕ → Text → M os Bool
  restore_from_blob txid path = do
    content ← get_blob_content txid path (lit "pre")
    write_back txid path content

  -- One file of the walk of `pre_scan_configs`: whether a blob was stored. A "pre" fingerprint is
  -- recorded whether it was or not, and errors are logged.
  scan_file : ℕ → Text → M os Bool
  scan_file txid path = do
    stored ← attempt (store_file_blob txid path (lit "pre"))
    attempt (do fp ← capture_fingerprint os txid path (lit "pre"); store_fingerprint os fp)
    pure (is_ok_true stored)

  -- What is no regular file is passed over.
  pre_scan_file : ℕ → Text → M os Bool
  pre_scan_file txid path = do
    file ← ask (λ s. os.is_file s path)
    choose file (scan_file txid path) (pure false)

  pub pre_scan_files : ℕ → List Text → ℕ → M os ℕ
  pre_scan_files txid [] count = pure count
  pre_scan_files txid (path ∷ paths) count = do
    stored ← pre_scan_file txid path
    pre_scan_files txid paths (if stored then count + 1 else count)

  -- The scan of one root; `walk` lists what `walkdir` finds below it.
  pre_scan_root : (os.State → Text → List Text) → ℕ → Text → ℕ → M os ℕ
  pre_scan_root walk txid root count = do
    there ← ask (λ s. os.exists s root)
    paths ← ask (λ s. walk s root)
    pre_scan_files txid (if there then paths else []) count

  pub pre_scan_configs : (os.State → Text → List Text) → ℕ → M os ℕ
  pre_scan_configs walk txid = do
    count ← pre_scan_root walk txid (lit "/etc") 0
    pre_scan_root walk txid (lit "/usr/lib/systemd/system") count
