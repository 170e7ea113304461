-- ===== src/System/Lawful.antt =====
-- The documented behaviour of the operating system that the theorems on archives and blobs rely on.
-- That two paths are `Apart`, so that they name different files, is for the caller to say.
use pkgundo.Prelude.{ℕ, Text, ok, ◌≡◌}
use pkgundo.System.{Os, Bytes}

pub record IsLawful (os : Os) (Apart : Text → Text → Type 0) : Type 0 where
  -- A successful copy to another file holds what its source held.
  pub read-copy :
      (from to : Text) (s : os.State) (c : Bytes) (u : Unit {0})
      → Apart from to
      → (os.copy from to s).0 ≡ ok u
      → os.read s from ≡ ok c
      → os.read (os.copy from to s).1 to ≡ ok c
  -- Making directories leaves files that can be read, and reading the clock all files and links, as
  -- they are.
  pub read-create_dir_all :
      (dir p : Text) (s : os.State) (c : Bytes)
      → os.read s p ≡ ok c
      → os.read (os.create_dir_all dir s).1 p ≡ ok c
  pub is_symlink-create_dir_all :
      (dir p : Text) (s : os.State) (c : Bytes)
      → os.read s p ≡ ok c
      → os.is_symlink (os.create_dir_all dir s).1 p ≡ os.is_symlink s p
  pub read-now : (p : Text) (s : os.State) → os.read (os.now s).1 p ≡ os.read s p
  -- A file that was written holds what was written.
  pub read-write_same :
      (p : Text) (c : Bytes) (s : os.State) (u : Unit {0})
      → (os.write p c s).0 ≡ ok u
      → os.read (os.write p c s).1 p ≡ ok c
  -- Writing or removing a file leaves other files as they are.
  pub read-write :
      (p q : Text) (content c : Bytes) (s : os.State)
      → Apart p q
      → os.read s q ≡ ok c
      → os.read (os.write p content s).1 q ≡ ok c
  pub read-remove_file :
      (p q : Text) (c : Bytes) (s : os.State)
      → Apart p q
      → os.read s q ≡ ok c
      → os.read (os.remove_file p s).1 q ≡ ok c
  pub read-remove_dir :
      (p q : Text) (c : Bytes) (s : os.State)
      → os.read s q ≡ ok c
      → os.read (os.remove_dir p s).1 q ≡ ok c
  -- Owner and mode are no part of the content.
  pub read-set_permissions :
      (p q : Text) (mode : ℕ) (c : Bytes) (s : os.State)
      → os.read s q ≡ ok c
      → os.read (os.set_permissions p mode s).1 q ≡ ok c
  pub read-chown :
      (p q : Text) (uid gid : ℕ) (c : Bytes) (s : os.State)
      → os.read s q ≡ ok c
      → os.read (os.chown p uid gid s).1 q ≡ ok c
  pub read-lchown :
      (p q : Text) (uid gid : ℕ) (c : Bytes) (s : os.State)
      → os.read s q ≡ ok c
      → os.read (os.lchown p uid gid s).1 q ≡ ok c
