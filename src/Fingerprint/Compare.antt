-- ===== src/Fingerprint/Compare.antt =====
-- What the comparison with a captured fingerprint finds.
use pkgundo.Prelude.{Text, text_eq, true, false, ◌||◌, ℕ, none, some, ok, ◌≡◌, arith, if◌then◌else◌}
use pkgundo.System.{Os, Bytes}
use pkgundo.Exec.{World}
use pkgundo.Fingerprint.{
  unchanged, modified, new, FileFingerprint, hash_result, compute_sha256, compare_hash,
  symlink_fingerprint, file_fingerprint, fingerprint_by, capture_fingerprint, compare_present,
  compare_with_current,
}

module _ (os : Os) (txid : ℕ) (path phase : Text) (w : World os) (fp : FileFingerprint) where
  captured_file :
      (c : Bytes)
      → os.is_symlink (os.now w.state).1 path ≡ false
      → os.exists (os.now w.state).1 path ≡ true
      → os.read (os.now w.state).1 path ≡ ok c
      → (capture_fingerprint os txid path phase w).0 ≡ ok fp
      → (fp.path ≡ path) × (fp.sha256 ≡ some (os.sha256 c))
  unfolding capture_fingerprint fingerprint_by file_fingerprint hash_result compute_sha256
  captured_file c plain there held h = (ground arith, ground arith)

  captured_link :
      os.is_symlink (os.now w.state).1 path ≡ true
      → (capture_fingerprint os txid path phase w).0 ≡ ok fp
      → (fp.path ≡ path) × (fp.sha256 ≡ none)
  unfolding capture_fingerprint fingerprint_by symlink_fingerprint
  captured_link link h = (ground arith, ground arith)

  -- A file that was captured, and is a file that can be read also later, is unchanged exactly if
  -- the hashes of the two contents agree, and modified otherwise.
  pub compare_with_current-capture_fingerprint :
      (c d : Bytes) (s : os.State)
      → os.is_symlink (os.now w.state).1 path ≡ false
      → os.exists (os.now w.state).1 path ≡ true
      → os.read (os.now w.state).1 path ≡ ok c
      → (capture_fingerprint os txid path phase w).0 ≡ ok fp
      → os.exists s path ≡ true
      → os.is_symlink s path ≡ false
      → os.is_dir s path ≡ false
      → os.read s path ≡ ok d
      → compare_with_current os s fp
        ≡ (if text_eq (os.sha256 d) (os.sha256 c) then unchanged else modified)
  unfolding compare_with_current compare_present compare_hash hash_result compute_sha256
  compare_with_current-capture_fingerprint c d s plain there held h there' plain' file' held' =
      let captured = captured_file c plain there held h in ground (arith, captured)

  -- A link that was captured counts as new for as long as anything is at its path.
  pub compare_with_current-link :
      (s : os.State)
      → os.is_symlink (os.now w.state).1 path ≡ true
      → (capture_fingerprint os txid path phase w).0 ≡ ok fp
      → (os.exists s path || os.is_symlink s path) ≡ true
      → compare_with_current os s fp ≡ new
  unfolding compare_with_current compare_present
  compare_with_current-link s link h there =
      let captured = captured_link link h in ground (arith, captured)
