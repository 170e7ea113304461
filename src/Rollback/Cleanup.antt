-- ===== src/Rollback/Cleanup.antt =====
-- `cleanup_empty_ancestor_dirs` of `src/rollback/mod.rs`.
pub mod Fuel
pub mod Safety
use pkgundo.Prelude.{
  Text, Bool, true, false, ◌||◌, not, ℕ, zero, suc, List, [], ◌∷◌, Option, none, some, Result, ok,
  err, if◌then◌else◌, length,
}
use pkgundo.System.{Os}
use pkgundo.Exec.{M, attempt, ◌>>=◌, ◌>>◌, inspect, call, pure}
use pkgundo.Paths.{PathBuf, path_eq, path_lt, path_starts_with, components, to_text, parent}
use pkgundo.Review.{home_root_of}

-- `BTreeSet::insert`
pub insert_path : PathBuf → List PathBuf → List PathBuf
insert_path p [] = p ∷ []
insert_path p (q ∷ qs) =
    let more = insert_path p qs in
    if path_eq p q then q ∷ qs else if path_lt p q then p ∷ q ∷ qs else q ∷ more

insert_parent : Option PathBuf → List PathBuf → List PathBuf
insert_parent none dirs = dirs
insert_parent (some dir) dirs = insert_path dir dirs

-- The directories of the paths, in order and each once.
pub candidates : List Text → List PathBuf → List PathBuf
candidates [] dirs = dirs
candidates (p ∷ ps) dirs = candidates ps (insert_parent (parent (components p)) dirs)

-- Whether the walk stops at this directory without a look at it.
pub is_outside : PathBuf → PathBuf → Bool
is_outside dir boundary = path_eq dir boundary || not (path_starts_with dir boundary)

succeeded : Result (Unit {0}) → Bool
succeeded (ok _) = true
succeeded (err e) = false

module _ (os : Os) where
  -- The directory is removed if it can be read and is empty: whether it was.
  remove_if_empty : PathBuf → Result (List Text) → M os Bool
  remove_if_empty dir (ok []) = do
    gone ← attempt (call (os.remove_dir (to_text dir)))
    pure (succeeded gone)
  remove_if_empty dir _ = pure false

  -- The rest of a round, where `rest` is the loop from another directory.
  go_up : (PathBuf → M os (Unit {0})) → Option PathBuf → M os (Unit {0})
  go_up rest none = pure tt
  go_up rest (some up) = rest up

  continue_if : (PathBuf → M os (Unit {0})) → PathBuf → Bool → M os (Unit {0})
  continue_if rest dir false = pure tt
  continue_if rest dir true = go_up rest (parent dir)

  round : (PathBuf → M os (Unit {0})) → PathBuf → Bool → M os (Unit {0})
  round rest dir true = pure tt
  round rest dir false = do
    entries ← attempt (inspect (λ s. os.read_dir s (to_text dir)))
    removed ← remove_if_empty dir entries
    continue_if rest dir removed

  -- The loop, on fuel: each round goes up by one component.
  pub remove_up : ℕ → PathBuf → PathBuf → M os (Unit {0})
  remove_up zero dir boundary = pure tt
  remove_up (suc fuel) dir boundary =
      round (λ up. remove_up fuel up boundary) dir (is_outside dir boundary)

  -- A directory has no more ancestors than components.
  pub remove_empty_dirs_up_to : PathBuf → PathBuf → M os (Unit {0})
  remove_empty_dirs_up_to dir boundary = remove_up (suc (length dir)) dir boundary

  clean_from : PathBuf → Option PathBuf → M os (Unit {0})
  clean_from start none = pure tt
  clean_from start (some home) = remove_empty_dirs_up_to start home

  clean_all : List PathBuf → M os (Unit {0})
  clean_all [] = pure tt
  clean_all (start ∷ dirs) = do clean_from start (home_root_of start); clean_all dirs

  pub cleanup_empty_ancestor_dirs : List Text → M os (Unit {0})
  cleanup_empty_ancestor_dirs paths = clean_all (candidates paths [])
