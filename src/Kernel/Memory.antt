-- ===== src/Kernel/Memory.antt =====
-- A kernel in memory: files and directories that do not change, a buffer that is read once, one
-- device, and calls that succeed. What the theorems assume of the kernel can hold.
use pkgundo.Prelude.{
  Text, lit, text_eq, false, List, [], ◌∷◌, none, some, Result, ok, err, if◌then◌else◌,
}
use pkgundo.System.{Bytes}
use pkgundo.Kernel.{Kernel}

pub record Machine : Type 0 where
  pub files : List (Text × Text)
  pub dirs : List (Text × List Text)
  pub buffer : Bytes

unfoldable pub find {ℓ} : {A : Type ℓ} → Text → List (Text × A) → Result A
unfolding text_eq lit
find p [] = err (lit "No such file or directory")
find p ((q, a) ∷ rest) = if text_eq p q then ok a else find p rest

abbrev pub machine : Kernel
machine = record {
  State = Machine;
  statfs = λ s p. none;
  read_to_string = λ s p. find p s.files;
  read_dir = λ s p. find p s.dirs;
  read_link = λ s p. ok (lit "/home/ann");
  canonicalize = λ s p. ok p;
  dev = λ s p. ok 1;
  create_dir_all = λ p s. (ok tt, s);
  mount = λ source target type flags options s. (ok tt, s);
  umount = λ p s. (ok tt, s);
  fanotify_init = λ flags s. (ok 3, s);
  fanotify_mark = λ fd flags mask p s. (ok tt, s);
  read = λ fd n s. (ok s.buffer, record s { buffer = [] });
  open_file = λ p s. (some 5, s);
  close_file = λ fd s. s;
  open_by_handle_at = λ fd handle s. (some 7, s);
  clock = λ s. (0, s);
  now = λ s. (lit "2024-01-01T00:00:00+00:00", s);
  is_symlink = λ s p. false;
  getpwuid = λ s uid. some (lit "/home/ann");
  last_os_error = λ s. lit "Success";
  is_alphanumeric = λ c. false;
  from_utf8 = λ b. some b;
}

abbrev pub idle_machine : Machine
idle_machine = record { files = []; dirs = []; buffer = [] }
