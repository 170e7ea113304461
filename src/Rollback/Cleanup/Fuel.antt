-- ===== src/Rollback/Cleanup/Fuel.antt =====
-- The clean-up of directories cannot fail, and its fuel is enough.
use pkgundo.Prelude.{
  Text, Bool, true, false, ℕ, zero, suc, leb, List, [], ◌∷◌, Option, none, some, Result, ok, err,
  ◌≡◌, refl, arith, length, Option-cases, ap, inl, inr,
}
use pkgundo.System.{Os}
use pkgundo.Exec.{World, M, call}
use pkgundo.Paths.{PathBuf, Component, root_dir, normal, cur_dir, parent_dir, init, parent, to_text}
use pkgundo.Review.{home_root_of}
use pkgundo.Rollback.Cleanup.{
  is_outside, remove_if_empty, round, continue_if, go_up, remove_up, remove_empty_dirs_up_to,
  clean_from, clean_all, candidates, cleanup_empty_ancestor_dirs,
}

length-init : (c : Component) (p : PathBuf) → length (init (c ∷ p)) ≡ length p
unfolding init
length-init c [] = refl
length-init c (d ∷ p) = ap suc (length-init d p)

-- The parent of a path has one component less.
length-parent : (p up : PathBuf) → parent p ≡ some up → length p ≡ suc (length up)
unfolding parent
length-parent [] up h = absurd (cc h)
length-parent (root_dir ∷ []) up h = absurd (cc h)
length-parent (root_dir ∷ d ∷ p) up h = ground (arith, length-init root_dir (d ∷ p))
length-parent (cur_dir ∷ p) up h = ground (arith, length-init cur_dir p)
length-parent (parent_dir ∷ p) up h = ground (arith, length-init parent_dir p)
length-parent (normal s ∷ p) up h = ground (arith, length-init (normal s) p)

module _ (os : Os) where
  remove_if_empty-ok :
      (dir : PathBuf) (entries : Result (List Text)) (w : World os)
      → (b : Bool) × ((remove_if_empty os dir entries w).0 ≡ ok b)
  unfolding remove_if_empty
  remove_if_empty-ok dir (ok []) w = (_, refl)
  remove_if_empty-ok dir (ok (_ ∷ _)) w = (_, refl)
  remove_if_empty-ok dir (err _) w = (_, refl)

  -- Only what the loop does at the parent matters.
  round-cong :
      (f g : PathBuf → M os (Unit {0})) (dir : PathBuf) (b : Bool) (w : World os)
      → ((up : PathBuf) (w : World os) → parent dir ≡ some up → f up w ≡ g up w)
      → round os f dir b w ≡ round os g dir b w
  unfolding round continue_if go_up remove_if_empty
  round-cong f g dir true w same = refl
  round-cong f g dir false w same = elim (Option-cases (parent dir)) [
    | inl top ↦ ground arith
    | inr (up, found) ↦ ground (arith, same up w, same up (call (os.remove_dir (to_text dir)) w).1)
  ]

  round-ok :
      (f : PathBuf → M os (Unit {0})) (dir : PathBuf) (b : Bool) (w : World os)
      → ((up : PathBuf) (w : World os) → (f up w).0 ≡ ok tt)
      → (round os f dir b w).0 ≡ ok tt
  unfolding round continue_if go_up remove_if_empty
  round-ok f dir true w fine = refl
  round-ok f dir false w fine = elim (Option-cases (parent dir)) [
    | inl top ↦ ground arith
    | inr (up, found) ↦ ground (arith, fine up w, fine up (call (os.remove_dir (to_text dir)) w).1)
  ]

  -- One unit of fuel for each component of the directory, and one more, is enough for the loop to
  -- stop by itself: with more fuel it does the same.
  remove_up_enough :
      (n fuel : ℕ) (dir boundary : PathBuf) (w : World os)
      → leb (suc (length dir)) n ≡ true
      → leb (suc (length dir)) fuel ≡ true
      → remove_up os n dir boundary w ≡ remove_up os fuel dir boundary w
  unfolding remove_up
  remove_up_enough zero fuel dir boundary w h k = absurd (ground arith)
  remove_up_enough (suc n) zero dir boundary w h k = absurd (ground arith)
  remove_up_enough (suc n) (suc fuel) dir boundary w h k =
      round-cong (λ up. remove_up os n up boundary) (λ up. remove_up os fuel up boundary) dir
        (is_outside dir boundary) w
        (λ up w' found.
          let shorter = length-parent dir up found in
          remove_up_enough n fuel up boundary w' (ground arith) (ground arith))

  remove_up-ok :
      (fuel : ℕ) (dir boundary : PathBuf) (w : World os)
      → (remove_up os fuel dir boundary w).0 ≡ ok tt
  unfolding remove_up
  remove_up-ok zero dir boundary w = refl
  remove_up-ok (suc fuel) dir boundary w =
      round-ok (λ up. remove_up os fuel up boundary) dir (is_outside dir boundary) w
        (λ up w'. remove_up-ok fuel up boundary w')

  clean_from-ok :
      (start : PathBuf) (home : Option PathBuf) (w : World os)
      → (clean_from os start home w).0 ≡ ok tt
  unfolding clean_from remove_empty_dirs_up_to
  clean_from-ok start none w = refl
  clean_from-ok start (some home) w = remove_up-ok (suc (length start)) start home w

  clean_all-ok : (dirs : List PathBuf) (w : World os) → (clean_all os dirs w).0 ≡ ok tt
  unfolding clean_all
  clean_all-ok [] w = refl
  clean_all-ok (start ∷ dirs) w = ground (
    arith,
    clean_from-ok start (home_root_of start) w,
    clean_all-ok dirs (clean_from os start (home_root_of start) w).1,
  )

  -- The clean-up returns whatever the system answers.
  pub cleanup_empty_ancestor_dirs-ok :
      (paths : List Text) (w : World os) → (cleanup_empty_ancestor_dirs os paths w).0 ≡ ok tt
  unfolding cleanup_empty_ancestor_dirs
  cleanup_empty_ancestor_dirs-ok paths w = clean_all-ok (candidates paths []) w

  -- With any fuel above the number of the directory's components, the loop does what it does with
  -- the fuel that it is given.
  pub remove_up-eq-remove_empty_dirs_up_to :
      (fuel : ℕ) (dir boundary : PathBuf) (w : World os)
      → leb (suc (length dir)) fuel ≡ true
      → remove_up os fuel dir boundary w ≡ remove_empty_dirs_up_to os dir boundary w
  unfolding remove_empty_dirs_up_to
  remove_up-eq-remove_empty_dirs_up_to fuel dir boundary w h =
      remove_up_enough fuel (suc (length dir)) dir boundary w h (ground arith)
