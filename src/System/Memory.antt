-- ===== src/System/Memory.antt =====
-- A system in memory, with files only, a clock that stands still and programs that succeed: what
-- the theorems assume of the operating system can hold.
use pkgundo.Prelude.{
  Text, lit, text_eq, text_eq_refl, text_eq_iff, starts_with, Bool, true, false, List, [], ◌∷◌,
  ◌++◌, map, filter, length, none, Result, ok, err, if◌then◌else◌, ◌≡◌, refl, arith, Bool-cases,
  inl, inr,
}
use pkgundo.System.{Os, Bytes, FileMeta}
use pkgundo.System.Lawful.{IsLawful}

abbrev pub Files : Type 0
Files = List (Text × Bytes)

unfoldable pub find : Text → Files → Result Bytes
find p [] = err (lit "No such file or directory")
find p ((q, c) ∷ files) = if text_eq p q then ok c else find p files

pub erase : Text → Files → Files
erase p [] = []
erase p ((q, c) ∷ files) = if text_eq p q then erase p files else (q, c) ∷ erase p files

unfoldable pub is_found : Result Bytes → Bool
is_found (ok _) = true
is_found (err _) = false

unfoldable pub copied : Text → Result Bytes → Files → Result (Unit {0}) × Files
copied to (ok c) files = (ok tt, (to, c) ∷ files)
copied to (err e) files = (err e, files)

unfoldable pub meta_of : Result Bytes → Result FileMeta
meta_of (ok c) = ok (record { size = length c; uid = 0; gid = 0; mode = 0o644; mtime = 0 })
meta_of (err e) = err e

abbrev pub memory : Os
memory = record {
  State = Files;
  exists = λ s p. is_found (find p s);
  is_symlink = λ s p. false;
  is_file = λ s p. is_found (find p s);
  is_dir = λ s p. false;
  read = λ s p. find p s;
  read_link = λ s p. err (lit "Invalid argument");
  metadata = λ s p. meta_of (find p s);
  symlink_metadata = λ s p. meta_of (find p s);
  read_dir = λ s p. ok (map (λ f. f.0) (filter (λ f. starts_with f.0 (p ++ lit "/")) s));
  remove_file = λ p s. (ok tt, erase p s);
  remove_dir = λ p s. (ok tt, s);
  create_dir_all = λ p s. (ok tt, s);
  write = λ p c s. (ok tt, (p, c) ∷ s);
  copy = λ from to s. copied to (find from s) s;
  symlink = λ target p s. (err (lit "Operation not permitted"), s);
  set_permissions = λ p mode s. (ok tt, s);
  chown = λ p uid gid s. (ok tt, s);
  lchown = λ p uid gid s. (ok tt, s);
  command = λ bin args s. (ok true, s);
  output = λ bin args s. (ok (false, []), s);
  now = λ s. (lit "2024-01-01T00:00:00+00:00", s);
  sha256 = λ c. c;
  sql_fault = λ s statement. none;
}

-- Different texts name different files.
abbrev pub Differ : Text → Text → Type 0
Differ p q = text_eq p q ≡ false

find-erase :
    (p q : Text) (c : Bytes) (s : Files) → Differ p q → find q s ≡ ok c → find q (erase p s) ≡ ok c
unfolding find erase
find-erase p q c [] differ h = h
find-erase p q c ((r, d) ∷ s) differ h = elim (Bool-cases (text_eq p r)) [
  | inl same ↦ ground (
    arith,
    (text_eq_iff p r).0 same,
    text_eq_iff q r,
    text_eq_iff p q,
    text_eq_refl p,
    find-erase p q c s differ,
  )
  | inr other ↦ ground (arith, find-erase p q c s differ)
]

copied-read :
    (from to : Text) (s : Files) (c : Bytes)
    → find from s ≡ ok c
    → find to (copied to (find from s) s).1 ≡ ok c
unfolding find copied
copied-read from to s c h = rw (h, text_eq_refl to) refl

find-head : (p : Text) (c : Bytes) (s : Files) → find p ((p, c) ∷ s) ≡ ok c
unfolding find
find-head p c s = rw (text_eq_refl p) refl

find-write :
    (p q : Text) (content c : Bytes) (s : Files)
    → Differ p q
    → find q s ≡ ok c
    → find q ((p, content) ∷ s) ≡ ok c
unfolding find
find-write p q content c s differ h = ground (arith, text_eq_iff q p, text_eq_refl p)

pub memory-IsLawful : IsLawful memory Differ
memory-IsLawful = record {
  read-copy = λ from to s c u _ _ h. copied-read from to s c h;
  read-create_dir_all = λ dir p s c h. h;
  is_symlink-create_dir_all = λ dir p s c h. refl;
  read-now = λ p s. refl;
  read-write_same = λ p c s u _. find-head p c s;
  read-write = find-write;
  read-remove_file = find-erase;
  read-remove_dir = λ p q c s h. h;
  read-set_permissions = λ p q mode c s h. h;
  read-chown = λ p q uid gid c s h. h;
  read-lchown = λ p q uid gid c s h. h;
}
