-- ===== src/Paths/Laws.antt =====
-- Equality and prefixes of paths.
use pkgundo.Prelude.{◌≡◌, refl, ◌↔◌, true, some, [], ◌∷◌, ◌++◌, arith, text_eq_iff}
use pkgundo.Paths.{Component, normal, PathBuf, component_eq, path_eq, strip_path_prefix}

pub component_eq_iff : (c d : Component) → (component_eq c d ≡ true) ↔ (c ≡ d)
unfolding component_eq
component_eq_iff (normal s) (normal t) = ground (arith, text_eq_iff s t)
component_eq_iff c d = ground arith

pub path_eq_iff : (p q : PathBuf) → (path_eq p q ≡ true) ↔ (p ≡ q)
unfolding path_eq
path_eq_iff [] [] = (λ _. refl, λ _. refl)
path_eq_iff [] (_ ∷ _) = (λ h. cc, λ h. cc)
path_eq_iff (_ ∷ _) [] = (λ h. cc, λ h. cc)
path_eq_iff (c ∷ p) (d ∷ q) = ground (arith, component_eq_iff c d, path_eq_iff p q)

pub path_eq_refl : (p : PathBuf) → path_eq p p ≡ true
path_eq_refl p = (path_eq_iff p p).1 refl

-- What `strip_prefix` leaves is the rest of the path.
pub strip_path_prefix-append :
    (home p rest : PathBuf) → strip_path_prefix home p ≡ some rest → p ≡ home ++ rest
unfolding strip_path_prefix
strip_path_prefix-append [] p rest h = cc
strip_path_prefix-append (_ ∷ _) [] rest h = cc
strip_path_prefix-append (d ∷ home) (c ∷ p) rest h =
    ground (arith, component_eq_iff d c, strip_path_prefix-append home p rest)

pub append-strip_path_prefix :
    (home rest : PathBuf) → strip_path_prefix home (home ++ rest) ≡ some rest
unfolding strip_path_prefix
append-strip_path_prefix [] rest = refl
append-strip_path_prefix (d ∷ home) rest =
    ground (arith, component_eq_iff d d, append-strip_path_prefix home rest)
