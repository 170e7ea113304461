-- ===== src/Hooks/Names.antt =====
-- The names of a difference.
use pkgundo.Prelude.{
  Text, text_eq, text_eq_iff, text_eq_refl, true, false, not, ◌&&◌, ◌||◌, List, [], ◌∷◌, Bool-cases,
  inl, inr, ap, ◌≡◌, refl, arith,
}
use pkgundo.Hooks.{has_name, insert_name, name_set, difference}

-- What is equal to a name has what the name has.
has_name-same : (n m : Text) (ns : List Text) → text_eq n m ≡ true → has_name n ns ≡ has_name m ns
has_name-same n m ns h = ap (λ t. has_name t ns) ((text_eq_iff n m).0 h)

has_name-insert_name :
    (n m : Text) (ms : List Text) → has_name n (insert_name m ms) ≡ (text_eq n m || has_name n ms)
unfolding has_name insert_name
has_name-insert_name n m [] = refl
has_name-insert_name n m (l ∷ ms) = elim (Bool-cases (text_eq m l)) [
  | inl same ↦ rw ((text_eq_iff m l).0 same, text_eq_refl l) ground arith
  | inr other ↦ ground (arith, has_name-insert_name n m ms)
]

has_name-name_set : (n : Text) (ns : List Text) → has_name n (name_set ns) ≡ has_name n ns
unfolding has_name name_set
has_name-name_set n [] = refl
has_name-name_set n (m ∷ ns) =
    rw (has_name-insert_name n m (name_set ns), has_name-name_set n ns) refl

module _ (n m : Text) (ns others : List Text) where
  kept_same :
      text_eq n m ≡ true
      → has_name n (difference ns others) ≡ (has_name n ns && not (has_name n others))
      → has_name n (difference (m ∷ ns) others) ≡ (has_name n (m ∷ ns) && not (has_name n others))
  unfolding has_name difference
  kept_same same rest = ground (arith, has_name-same n m others same)

  kept_other :
      text_eq n m ≡ false
      → has_name n (difference ns others) ≡ (has_name n ns && not (has_name n others))
      → has_name n (difference (m ∷ ns) others) ≡ (has_name n (m ∷ ns) && not (has_name n others))
  unfolding has_name difference
  kept_other other rest = ground arith

has_name-difference :
    (n : Text) (ns others : List Text)
    → has_name n (difference ns others) ≡ (has_name n ns && not (has_name n others))
unfolding has_name difference
has_name-difference n [] others = refl
has_name-difference n (m ∷ ns) others = elim (Bool-cases (text_eq n m)) [
  | inl same ↦ kept_same n m ns others same (has_name-difference n ns others)
  | inr other ↦ kept_other n m ns others other (has_name-difference n ns others)
]

pub has_name-sets :
    (n : Text) (ns others : List Text)
    → has_name n (difference (name_set ns) (name_set others))
      ≡ (has_name n ns && not (has_name n others))
has_name-sets n ns others =
    rw
      (
        has_name-difference n (name_set ns) (name_set others),
        has_name-name_set n ns,
        has_name-name_set n others,
      )
      refl
