-- ===== src/Fingerprint.antt =====
-- `src/fingerprint/mod.rs`: what is recorded of a file, and the comparison with the disk.
pub mod Compare
mod Tests
use pkgundo.Prelude.{
  Text, lit, text_eq, Bool, true, false, ◌||◌, ◌&&◌, not, ℕ, List, [], ◌∷◌, Option, none, some,
  ◌==◌, Result, ok, err, to_option, if◌then◌else◌,
}
use pkgundo.System.{Os, Bytes, FileMeta, insert_fingerprint, select_fingerprint}
use pkgundo.Db.{Db, refers, FingerprintRow, same_fingerprint}
use pkgundo.Db.Tables.{insert, select}
use pkgundo.Exec.{M, query, execute, with_context, ◌>>=◌, now, ask, inspect, pure}

pub data FingerprintDiff : Type 0 where
  unchanged modified missing new : FingerprintDiff

-- `FileFingerprint`, less the database key. Its fields are those of the row.
abbrev pub FileFingerprint : Type 0
FileFingerprint = FingerprintRow

-- `compute_sha256`
pub hash_result : (Bytes → Text) → Result Bytes → Result Text
hash_result sha256 (ok content) = ok (sha256 content)
hash_result sha256 (err e) = err (lit "Failed to read file for hashing")

option_eq : Option ℕ → Option ℕ → Bool
option_eq none none = true
option_eq (some a) (some b) = a == b
option_eq _ _ = false

-- Links and directories are compared by their modification time.
compare_mtime : Option ℕ → Result FileMeta → FingerprintDiff
compare_mtime recorded (ok meta) =
    if option_eq (some meta.mtime) recorded then unchanged else modified
compare_mtime recorded (err e) = modified

compare_hash : Text → Result Text → FingerprintDiff
compare_hash recorded (ok current) = if text_eq current recorded then unchanged else modified
compare_hash recorded (err e) = missing

module _ (os : Os) where
  unfoldable pub compute_sha256 : os.State → Text → Result Text
  unfolding hash_result
  compute_sha256 s path = hash_result os.sha256 (os.read s path)

  symlink_fingerprint : os.State → ℕ → Text → Text → Text → FileMeta → FileFingerprint
  symlink_fingerprint s txid path phase captured_at meta = record {
    txid = txid;
    path = path;
    phase = phase;
    sha256 = none;
    size = some meta.size;
    uid = some meta.uid;
    gid = some meta.gid;
    mode = some meta.mode;
    mtime = some meta.mtime;
    captured_at = captured_at;
    is_symlink = true;
    symlink_target = to_option (os.read_link s path);
  }

  absent_fingerprint : ℕ → Text → Text → Text → FileFingerprint
  absent_fingerprint txid path phase captured_at = record {
    txid = txid;
    path = path;
    phase = phase;
    sha256 = none;
    size = none;
    uid = none;
    gid = none;
    mode = none;
    mtime = none;
    captured_at = captured_at;
    is_symlink = false;
    symlink_target = none;
  }

  file_fingerprint : os.State → ℕ → Text → Text → Text → FileMeta → FileFingerprint
  file_fingerprint s txid path phase captured_at meta = record {
    txid = txid;
    path = path;
    phase = phase;
    sha256 = to_option (compute_sha256 s path);
    size = some meta.size;
    uid = some meta.uid;
    gid = some meta.gid;
    mode = some meta.mode;
    mtime = some meta.mtime;
    captured_at = captured_at;
    is_symlink = false;
    symlink_target = none;
  }

  fingerprint_by : Bool → Bool → ℕ → Text → Text → Text → M os FileFingerprint
  fingerprint_by true there txid path phase captured_at = do
    meta ← inspect (λ s. os.symlink_metadata s path)
    ask (λ s. symlink_fingerprint s txid path phase captured_at meta)
  fingerprint_by false true txid path phase captured_at = do
    meta ← inspect (λ s. os.metadata s path)
    ask (λ s. file_fingerprint s txid path phase captured_at meta)
  fingerprint_by false false txid path phase captured_at =
      pure (absent_fingerprint txid path phase captured_at)

  pub capture_fingerprint : ℕ → Text → Text → M os FileFingerprint
  capture_fingerprint txid path phase = do
    captured_at ← now
    link ← ask (λ s. os.is_symlink s path)
    there ← ask (λ s. os.exists s path)
    fingerprint_by link there txid path phase captured_at

  insert_fingerprint_row : FileFingerprint → Db → Result ℕ × Db
  insert_fingerprint_row fp db = refers fp.txid db (
      let (key, t) = insert same_fingerprint fp db.fingerprints in
      (key, record db { fingerprints = t }))

  unfoldable pub store_fingerprint : FileFingerprint → M os ℕ
  unfolding insert_fingerprint_row
  store_fingerprint fp =
      with_context (lit "Failed to store fingerprint")
        (execute insert_fingerprint (insert_fingerprint_row fp))

  is_fingerprint_of : ℕ → Text → Text → FingerprintRow → Bool
  is_fingerprint_of txid path phase r =
      r.txid == txid && (text_eq r.path path && text_eq r.phase phase)

  first_row : List (ℕ × FingerprintRow) → Option FileFingerprint
  first_row [] = none
  first_row ((_, r) ∷ _) = some r

  unfoldable pub find_fingerprint : ℕ → Text → Text → Db → Option FileFingerprint
  unfolding first_row is_fingerprint_of
  find_fingerprint txid path phase db =
      first_row (select (λ _ r. is_fingerprint_of txid path phase r) db.fingerprints)

  unfoldable pub get_fingerprint_for_path : ℕ → Text → Text → M os (Option FileFingerprint)
  get_fingerprint_for_path txid path phase =
      query select_fingerprint (find_fingerprint txid path phase)

  compare_present : os.State → FileFingerprint → Option Text → FingerprintDiff
  compare_present s baseline none = new
  compare_present s baseline (some recorded) =
      if os.is_symlink s baseline.path || os.is_dir s baseline.path
      then compare_mtime baseline.mtime (os.symlink_metadata s baseline.path)
      else compare_hash recorded (compute_sha256 s baseline.path)

  pub compare_with_current : os.State → FileFingerprint → FingerprintDiff
  compare_with_current s baseline =
      if not (os.exists s baseline.path) && not (os.is_symlink s baseline.path)
      then missing
      else compare_present s baseline baseline.sha256
