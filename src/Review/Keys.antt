-- ===== src/Review/Keys.antt =====
-- The keys of review groups: part of the path, at most three components below a home.
use pkgundo.Prelude.{
  Text, lit, text_eq, ℕ, zero, suc, ◌≤◌, List, [], ◌∷◌, ◌++◌, Option, none, some, ◌≡◌, refl, arith,
  take, drop, length, Option-cases, Bool-cases, inl, inr, ◌⊎◌, ap, sym, ◌∙◌,
}
use pkgundo.Paths.{Component, root_dir, normal, PathBuf, as_os_str, strip_path_prefix}
use pkgundo.Paths.Laws.{strip_path_prefix-append, append-strip_path_prefix}
use pkgundo.Review.{home_root_of, below_home, depth_of, capped_key, relative_key, group_key}

take-append-drop {ℓ} : {A : Type ℓ} (n : ℕ) (xs : List A) → take n xs ++ drop n xs ≡ xs
take-append-drop zero xs = refl
take-append-drop (suc n) [] = refl
take-append-drop (suc n) (x ∷ xs) = ap (λ t. x ∷ t) (take-append-drop n xs)

module _ (lower : Text → Text) where
  depth_bounds : (p : PathBuf) → (2 ≤ depth_of lower p) × (depth_of lower p ≤ 3)
  unfolding depth_of
  depth_bounds [] = omega arith
  depth_bounds (_ ∷ []) = omega arith
  depth_bounds (c ∷ d ∷ p) = ground arith

  -- A key is the home of the path, followed by the first components below it.
  pub record Caps (path key : PathBuf) : Type 0 where
    pub home : PathBuf
    pub below : PathBuf
    pub rest : PathBuf
    pub is_home : home_root_of path ≡ some home
    pub splits : path ≡ home ++ (below ++ rest)
    pub keeps : key ≡ home ++ below
    pub fixed : capped_key lower home below ≡ some key
    pub non_empty : 1 ≤ length below
    pub capped : length below ≤ 3

  length-take_le : (n : ℕ) (p : PathBuf) → length (take n p) ≤ n
  length-take_le zero p = omega arith
  length-take_le (suc n) [] = omega arith
  length-take_le (suc n) (c ∷ p) = omega (arith, length-take_le n p)

  length-take_pos : (n : ℕ) (c : Component) (p : PathBuf) → 1 ≤ n → 1 ≤ length (take n (c ∷ p))
  length-take_pos zero c p h = absurd (omega arith)
  length-take_pos (suc n) c p h = omega arith

  depth_of-take :
      (n : ℕ) (c : Component) (p : PathBuf)
      → 2 ≤ n
      → depth_of lower (take n (c ∷ p)) ≡ depth_of lower (c ∷ p)
  unfolding depth_of
  depth_of-take zero c p h = absurd (omega arith)
  depth_of-take (suc zero) c p h = absurd (omega arith)
  depth_of-take (suc (suc n)) c [] h = refl
  depth_of-take (suc (suc n)) c (d ∷ p) h = refl

  take-take : (n : ℕ) (p : PathBuf) → take n (take n p) ≡ take n p
  take-take zero p = refl
  take-take (suc n) [] = refl
  take-take (suc n) (c ∷ p) = ap (λ t. c ∷ t) (take-take n p)

  capped_key_fixed :
      (home : PathBuf) (n : ℕ) (c : Component) (p : PathBuf)
      → depth_of lower (c ∷ p) ≡ n
      → 2 ≤ n
      → capped_key lower home (take n (c ∷ p)) ≡ some (home ++ take n (c ∷ p))
  unfolding capped_key
  capped_key_fixed home zero c p e h = absurd (omega arith)
  capped_key_fixed home (suc n) c p e h =
      ap (λ t. some (home ++ t))
        (ap (λ k. take k (c ∷ take n p)) (depth_of-take (suc n) c p h ∙ e)
          ∙ take-take (suc n) (c ∷ p))

  relative_key-Caps :
      (path home key : PathBuf) (rel : Option PathBuf)
      → home_root_of path ≡ some home
      → strip_path_prefix home path ≡ rel
      → relative_key lower path home ≡ some key
      → Caps path key
  unfolding relative_key capped_key
  relative_key-Caps path home key none is_home stripped h = ground arith
  relative_key-Caps path home key (some []) is_home stripped h = ground arith
  relative_key-Caps path home key (some (c ∷ rel)) is_home stripped h = record {
    home = home;
    below = take (depth_of lower (c ∷ rel)) (c ∷ rel);
    rest = drop (depth_of lower (c ∷ rel)) (c ∷ rel);
    is_home = is_home;
    splits =
        strip_path_prefix-append home path (c ∷ rel) stripped
        ∙ ap (λ t. home ++ t) (sym (take-append-drop (depth_of lower (c ∷ rel)) (c ∷ rel)));
    keeps = ground arith;
    fixed =
        capped_key_fixed home (depth_of lower (c ∷ rel)) c rel refl
          (omega (arith, depth_bounds (c ∷ rel)))
        ∙ ground arith;
    non_empty =
        length-take_pos (depth_of lower (c ∷ rel)) c rel (omega (arith, depth_bounds (c ∷ rel)));
    capped =
        omega (arith, length-take_le (depth_of lower (c ∷ rel)) (c ∷ rel), depth_bounds (c ∷ rel));
  }

  -- The key of a path, if it has one, is its home directory with the first one to three components
  -- below it: everything in the group is at or below the key.
  pub group_key-Caps : (path key : PathBuf) → group_key lower path ≡ some key → Caps path key
  unfolding group_key
  group_key-Caps path key h = elim (Option-cases (home_root_of path)) [
    | inl none_found ↦ ground arith
    | inr (home, found) ↦
        relative_key-Caps path home key (strip_path_prefix home path) found refl (ground arith)
  ]

home_forms :
    (path home : PathBuf)
    → home_root_of path ≡ some home
    → (home ≡ root_dir ∷ normal (lit "root") ∷ [])
      ⊎ ((d : Component) × (home ≡ root_dir ∷ normal (lit "home") ∷ d ∷ []))
unfolding home_root_of below_home
home_forms [] home h = absurd (cc h)
home_forms (_ ∷ []) home h = absurd (cc h)
home_forms (_ ∷ first ∷ []) home h = inl (ground arith)
home_forms (_ ∷ first ∷ d ∷ p) home h = elim (Bool-cases (text_eq (as_os_str first) (lit "root"))) [
  | inl is_root ↦ inl (ground arith)
  | inr other ↦ inr (d, ground arith)
]

root_is_home :
    (rest : PathBuf)
    → home_root_of (root_dir ∷ normal (lit "root") ∷ rest)
      ≡ some (root_dir ∷ normal (lit "root") ∷ [])
unfolding home_root_of text_eq lit
root_is_home rest = refl

home_is_home :
    (d : Component) (rest : PathBuf)
    → home_root_of (root_dir ∷ normal (lit "home") ∷ d ∷ rest)
      ≡ some (root_dir ∷ normal (lit "home") ∷ d ∷ [])
unfolding home_root_of text_eq lit
home_is_home d rest = refl

home_root_of-append :
    (path home rest : PathBuf)
    → home_root_of path ≡ some home
    → home_root_of (home ++ rest) ≡ some home
home_root_of-append path home rest h = elim (home_forms path home h) [
  | inl e ↦ rw e (root_is_home rest)
  | inr (d, e) ↦ rw e (home_is_home d rest)
]

module _ (lower : Text → Text) where
  -- A key is its own key: what is grouped by it and the key itself fall in one group.
  pub group_key_idempotent :
      (path key : PathBuf) → group_key lower path ≡ some key → group_key lower key ≡ some key
  unfolding group_key relative_key
  group_key_idempotent path key h =
      let c = group_key-Caps lower path key h in
      rw c.keeps (
        ground (
          arith,
          home_root_of-append path c.home c.below c.is_home,
          append-strip_path_prefix c.home c.below,
          c.fixed,
          c.keeps,
        ))
