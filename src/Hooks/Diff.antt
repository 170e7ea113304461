-- ===== src/Hooks/Diff.antt =====
-- The difference of two snapshots.
use pkgundo.Prelude.{
  Text, text_eq, Bool, true, false, not, ◌&&◌, List, [], ◌∷◌, filter, All, All-imp, if-post, ◌≡◌,
  refl, arith,
}
use pkgundo.Hooks.{
  has_name, insert_name, name_set, difference, package_names, diff_package_snapshots, text_ltb,
}
use pkgundo.Hooks.Names.{has_name-sets}

-- The names are in their order, and none is there twice.
pub IsSorted : List Text → Type 0
IsSorted [] = Unit
IsSorted (n ∷ ns) = All (λ m. text_ltb n m ≡ true) ns × IsSorted ns

text_ltb_trans : (s t u : Text) → text_ltb s t ≡ true → text_ltb t u ≡ true → text_ltb s u ≡ true
unfolding text_ltb
text_ltb_trans s [] u h i = absurd (cc h)
text_ltb_trans s (b ∷ t) [] h i = absurd (cc i)
text_ltb_trans [] (b ∷ t) (c ∷ u) h i = refl
text_ltb_trans (a ∷ s) (b ∷ t) (c ∷ u) h i = ground (arith, text_ltb_trans s t u)

text_ltb_total : (s t : Text) → text_eq s t ≡ false → text_ltb s t ≡ false → text_ltb t s ≡ true
unfolding text_ltb text_eq
text_ltb_total [] [] h i = absurd (cc h)
text_ltb_total [] (b ∷ t) h i = absurd (cc i)
text_ltb_total (a ∷ s) [] h i = refl
text_ltb_total (a ∷ s) (b ∷ t) h i = ground (arith, text_ltb_total s t)

insert_name-All :
    (P : Text → Type 0) (n : Text) (ms : List Text) → P n → All P ms → All P (insert_name n ms)
unfolding insert_name
insert_name-All P n [] here all = (here, tt)
insert_name-All P n (m ∷ ms) here (first, all) =
    if-post (All P) (text_eq n m) (λ same. (first, all))
      (λ other.
        if-post (All P) (text_ltb n m) (λ less. (here, (first, all)))
          (λ more. (first, insert_name-All P n ms here all)))

insert_name-IsSorted : (n : Text) (ms : List Text) → IsSorted ms → IsSorted (insert_name n ms)
unfolding insert_name IsSorted
insert_name-IsSorted n [] sorted = (tt, tt)
insert_name-IsSorted n (m ∷ ms) (below, sorted) =
    if-post IsSorted (text_eq n m) (λ same. (below, sorted))
      (λ other.
        if-post IsSorted (text_ltb n m)
          (λ less. (
            (
              less,
              All-imp (λ k. text_ltb m k ≡ true) (λ k. text_ltb n k ≡ true) ms
                  (λ k after. text_ltb_trans n m k less after) below,
            ),
            (below, sorted),
          ))
          (λ more. (
            insert_name-All (λ k. text_ltb m k ≡ true) n ms (text_ltb_total n m other more) below,
            insert_name-IsSorted n ms sorted,
          )))

name_set-IsSorted : (ns : List Text) → IsSorted (name_set ns)
unfolding name_set IsSorted
name_set-IsSorted [] = tt
name_set-IsSorted (n ∷ ns) = insert_name-IsSorted n (name_set ns) (name_set-IsSorted ns)

filter-All : (P : Text → Type 0) (p : Text → Bool) (ns : List Text) → All P ns → All P (filter p ns)
filter-All P p [] all = tt
filter-All P p (n ∷ ns) (here, all) =
    if-post (All P) (p n) (λ kept. (here, filter-All P p ns all)) (λ dropped. filter-All P p ns all)

difference-IsSorted : (ns others : List Text) → IsSorted ns → IsSorted (difference ns others)
unfolding difference IsSorted
difference-IsSorted [] others sorted = tt
difference-IsSorted (n ∷ ns) others (below, sorted) =
    if-post IsSorted (not (has_name n others))
      (λ kept. (
        filter-All (λ m. text_ltb n m ≡ true) (λ m. not (has_name m others)) ns below,
        difference-IsSorted ns others sorted,
      ))
      (λ dropped. difference-IsSorted ns others sorted)

-- The packages that two snapshots report as installed are those that the second names and the first
-- does not, the removed ones those that the first names and the second does not; both lists are in
-- order and without repetition.
pub diff_package_snapshots-IsDifference :
    (before after name : Text)
    → (has_name name (diff_package_snapshots before after).0
        ≡ (has_name name (package_names after) && not (has_name name (package_names before))))
      × ((has_name name (diff_package_snapshots before after).1
            ≡ (has_name name (package_names before) && not (has_name name (package_names after))))
          × (IsSorted (diff_package_snapshots before after).0
              × IsSorted (diff_package_snapshots before after).1))
unfolding diff_package_snapshots
diff_package_snapshots-IsDifference before after name =
    let old = package_names before in
    let new = package_names after in
    (
      has_name-sets name new old,
      (
        has_name-sets name old new,
        (
          difference-IsSorted (name_set new) (name_set old) (name_set-IsSorted new),
          difference-IsSorted (name_set old) (name_set new) (name_set-IsSorted old),
        ),
      ),
    )
