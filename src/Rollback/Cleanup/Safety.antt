-- ===== src/Rollback/Cleanup/Safety.antt =====
-- Which directories the clean-up removes.
use pkgundo.Prelude.{
  Text, Bool, true, false, ℕ, zero, suc, List, [], ◌∷◌, Option, none, some, ok, ◌≡◌, refl, arith,
  Option-cases, Result-cases, inl, inr, length,
}
use pkgundo.System.{Os}
use pkgundo.Exec.{World, M}
use pkgundo.Exec.Keeps.{bind-keeps}
use pkgundo.Paths.{PathBuf, path_eq, path_starts_with, to_text, parent}
use pkgundo.Review.{home_root_of}
use pkgundo.Rollback.Cleanup.{
  is_outside, remove_if_empty, round, continue_if, go_up, remove_up, remove_empty_dirs_up_to,
  clean_from, clean_all, candidates, cleanup_empty_ancestor_dirs,
}

module _ (os : Os) (P : os.State → Type 0) where
  -- `P` survives the removal of a directory strictly below the boundary that is empty.
  abbrev Survives : PathBuf → Type 0
  Survives boundary =
      (dir : PathBuf) (s : os.State)
      → path_starts_with dir boundary ≡ true
      → path_eq dir boundary ≡ false
      → os.read_dir s (to_text dir) ≡ ok []
      → P s
      → P (os.remove_dir (to_text dir) s).1

  remove_if_empty-keeps :
      (boundary dir : PathBuf) (w : World os)
      → Survives boundary
      → is_outside dir boundary ≡ false
      → P w.state
      → P (remove_if_empty os dir (os.read_dir w.state (to_text dir)) w).1.state
  unfolding remove_if_empty is_outside
  remove_if_empty-keeps boundary dir w survives inside p =
      elim (Result-cases (os.read_dir w.state (to_text dir))) [
        | inl ([], empty) ↦ rw empty (survives dir w.state (ground arith) (ground arith) empty p)
        | inl (_ ∷ _, full) ↦ rw full p
        | inr (e, unread) ↦ rw unread p
      ]

  continue_if-keeps :
      (f : PathBuf → M os (Unit {0})) (dir : PathBuf) (b : Bool) (w : World os)
      → ((up : PathBuf) (w : World os) → P w.state → P (f up w).1.state)
      → P w.state
      → P (continue_if os f dir b w).1.state
  unfolding continue_if go_up
  continue_if-keeps f dir false w next p = p
  continue_if-keeps f dir true w next p = elim (Option-cases (parent dir)) [
    | inl top ↦ rw top p
    | inr (up, found) ↦ rw found (next up w p)
  ]

  round-keeps :
      (f : PathBuf → M os (Unit {0})) (boundary dir : PathBuf) (b : Bool) (w : World os)
      → is_outside dir boundary ≡ b
      → Survives boundary
      → ((up : PathBuf) (w : World os) → P w.state → P (f up w).1.state)
      → P w.state
      → P (round os f dir b w).1.state
  unfolding round
  round-keeps f boundary dir true w outside survives next p = p
  round-keeps f boundary dir false w inside survives next p =
      bind-keeps (λ w. P w.state) (remove_if_empty os dir (os.read_dir w.state (to_text dir)))
        (continue_if os f dir) w (remove_if_empty-keeps boundary dir w survives inside p)
        (λ b w'. continue_if-keeps f dir b w' next)

  remove_up-keeps :
      (fuel : ℕ) (dir boundary : PathBuf) (w : World os)
      → Survives boundary
      → P w.state
      → P (remove_up os fuel dir boundary w).1.state
  unfolding remove_up
  remove_up-keeps zero dir boundary w survives p = p
  remove_up-keeps (suc fuel) dir boundary w survives p =
      round-keeps (λ up. remove_up os fuel up boundary) boundary dir (is_outside dir boundary) w
        refl survives (λ up w'. remove_up-keeps fuel up boundary w' survives) p

  clean_from-keeps :
      (start : PathBuf) (home : Option PathBuf) (w : World os)
      → ((boundary : PathBuf) → home ≡ some boundary → Survives boundary)
      → P w.state
      → P (clean_from os start home w).1.state
  unfolding clean_from remove_empty_dirs_up_to
  clean_from-keeps start none w survives p = p
  clean_from-keeps start (some home) w survives p =
      remove_up-keeps (suc (length start)) start home w (survives home refl) p

  clean_all-keeps :
      (dirs : List PathBuf) (w : World os)
      → ((start boundary : PathBuf) → home_root_of start ≡ some boundary → Survives boundary)
      → P w.state
      → P (clean_all os dirs w).1.state
  unfolding clean_all
  clean_all-keeps [] w survives p = p
  clean_all-keeps (start ∷ dirs) w survives p =
      bind-keeps (λ w. P w.state) (clean_from os start (home_root_of start))
        (λ _. clean_all os dirs) w
        (clean_from-keeps start (home_root_of start) w (survives start) p)
        (λ _ w'. clean_all-keeps dirs w' survives)

  -- The clean-up of empty directories removes only directories that it has just found to be empty
  -- and that are strictly below a home directory: what survives each such removal survives the
  -- clean-up, whatever the paths.
  pub cleanup_empty_ancestor_dirs-keeps :
      (paths : List Text) (w : World os)
      → ((start home dir : PathBuf) (s : os.State)
          → home_root_of start ≡ some home
          → path_starts_with dir home ≡ true
          → path_eq dir home ≡ false
          → os.read_dir s (to_text dir) ≡ ok []
          → P s
          → P (os.remove_dir (to_text dir) s).1)
      → P w.state
      → P (cleanup_empty_ancestor_dirs os paths w).1.state
  unfolding cleanup_empty_ancestor_dirs
  cleanup_empty_ancestor_dirs-keeps paths w survives =
      clean_all-keeps (candidates paths []) w
        (λ start home found dir s. survives start home dir s found)
