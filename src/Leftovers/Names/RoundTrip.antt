-- ===== src/Leftovers/Names/RoundTrip.antt =====
-- The name of a cached package is read back from the name of its archive.
use pkgundo.Prelude.{
  Text, lit, strip_prefix, strip_suffix, split_on, join_with, Bool, Bool-cases, true, false, none,
  ◌||◌, text_eq, text_eq_iff, subst, ℕ, List, [], ◌∷◌, ◌++◌, some, ltb, length, reverse, any, ◌≡◌,
  refl, sym, ap, ◌∙◌, arith, inl, inr, length-append, ==_iff,
}
use mathlib.Core.List.{reverse-append, reverse-reverse}
use pkgundo.Leftovers.Names.{
  without_suffix, archive_suffixes, is_dash, name_of_parts, parse_pkg_archive_name,
}

strip_prefix-append : (t r : Text) → strip_prefix (t ++ r) t ≡ some r
unfolding strip_prefix
strip_prefix-append [] r = refl
strip_prefix-append (a ∷ t) r = ground (arith, strip_prefix-append t r, (==_iff a a).1 refl)

-- There is at least one piece.
split_on-eq-cons : (s : Text) → (p : Text) × ((ps : List Text) × (split_on is_dash s ≡ p ∷ ps))
unfolding split_on
split_on-eq-cons [] = ([], ([], refl))
split_on-eq-cons (c ∷ s) =
    let (p, (ps, e)) = split_on-eq-cons s in
    elim (Bool-cases (is_dash c)) [
      | inl dash ↦ ([], (split_on is_dash s, rw dash refl))
      | inr other ↦ (c ∷ p, (ps, rw (other, e) refl))
    ]

split_on-append :
    (s t : Text) → split_on is_dash (s ++ 0x2d ∷ t) ≡ split_on is_dash s ++ split_on is_dash t
unfolding split_on
split_on-append [] t = refl
split_on-append (c ∷ s) t =
    let (p, (ps, e)) = split_on-eq-cons s in
    elim (Bool-cases (is_dash c)) [
      | inl dash ↦ rw (dash, split_on-append s t) refl
      | inr other ↦ rw (other, split_on-append s t, e) refl
    ]

split_on_whole : (t : Text) → any is_dash t ≡ false → split_on is_dash t ≡ t ∷ []
unfolding split_on
split_on_whole [] h = refl
split_on_whole (c ∷ t) h = ground (arith, split_on_whole t)

join_with-cons :
    (c : ℕ) (p : Text) (ps : List Text)
    → join_with (lit "-") ((c ∷ p) ∷ ps) ≡ c ∷ join_with (lit "-") (p ∷ ps)
unfolding join_with
join_with-cons c p [] = refl
join_with-cons c p (q ∷ ps) = refl

join_with-split_on : (s : Text) → join_with (lit "-") (split_on is_dash s) ≡ s
unfolding join_with split_on lit
join_with-split_on [] = refl
join_with-split_on (c ∷ s) =
    let (p, (ps, e)) = split_on-eq-cons s in
    elim (Bool-cases (is_dash c)) [
      | inl dash ↦ rw dash (
          rw e (
            ap (λ t. 0x2d ∷ t) (ap (join_with (lit "-")) (sym e) ∙ join_with-split_on s)
            ∙ ap (λ d. d ∷ s) (sym ((==_iff c 0x2d).0 dash))))
      | inr other ↦ rw other (
          rw e (
            join_with-cons c p ps
            ∙ ap (λ t. c ∷ t) (ap (join_with (lit "-")) (sym e) ∙ join_with-split_on s)))
    ]

-- The text of the parts that a package's archive is named by.
abbrev pub archive_name : Text → Text → Text → Text → Text
archive_name name version release arch = name ++ 0x2d ∷ (version ++ 0x2d ∷ (release ++ 0x2d ∷ arch))

strip_suffix-append : (s suffix : Text) → strip_suffix (s ++ suffix) suffix ≡ some s
unfolding strip_suffix
strip_suffix-append s suffix =
    let found : strip_prefix (reverse (s ++ suffix)) (reverse suffix) ≡ some (reverse s) =
      ap (λ t. strip_prefix t (reverse suffix)) (reverse-append s suffix)
      ∙ strip_prefix-append (reverse suffix) (reverse s) in
    ground (arith, found, reverse-reverse s)

-- What is left of four parts or more without the last three.
name_of_parts-append :
    (p : Text) (ps : List Text) (version release arch : Text)
    → name_of_parts ((p ∷ ps) ++ version ∷ release ∷ arch ∷ [])
      ≡ some (join_with (lit "-") (p ∷ ps))
unfolding name_of_parts
name_of_parts-append p ps version release arch =
    let last = version ∷ release ∷ arch ∷ [] in
    let long : ltb (length ((p ∷ ps) ++ last)) 4 ≡ false =
      ground (arith, length-append (p ∷ ps) last) in
    rw (long, reverse-append (p ∷ ps) last, reverse-reverse (p ∷ ps)) refl

split_on-archive_name :
    (name version release arch : Text)
    → any is_dash version ≡ false
    → any is_dash release ≡ false
    → any is_dash arch ≡ false
    → split_on is_dash (archive_name name version release arch)
      ≡ split_on is_dash name ++ version ∷ release ∷ arch ∷ []
split_on-archive_name name version release arch v r a =
    split_on-append name (version ++ 0x2d ∷ (release ++ 0x2d ∷ arch))
    ∙ ap (λ ps. split_on is_dash name ++ ps)
        (split_on-append version (release ++ 0x2d ∷ arch)
          ∙ rw
              (
                split_on_whole version v,
                split_on-append release arch,
                split_on_whole release r,
                split_on_whole arch a,
              )
              refl)

-- The ends of archives that pacman writes.
abbrev pub is_archive_end : Text → Bool
is_archive_end end =
    text_eq end (lit ".pkg.tar.zst")
    || text_eq end (lit ".pkg.tar.xz")
    || text_eq end (lit ".pkg.tar.gz")
    || text_eq end (lit ".pkg.tar.lz4")
    || text_eq end (lit ".pkg.tar")

module _ (s end : Text) where
  without_suffix-hit : (more : List Text) → without_suffix (end ∷ more) (s ++ end) ≡ some s
  unfolding without_suffix
  without_suffix-hit more = ground (arith, strip_suffix-append s end)

  -- An end that the name does not have, as its last characters show, is passed over.
  without_suffix-skip :
      (suffix : Text) (more : List Text)
      → strip_prefix (reverse end ++ reverse s) (reverse suffix) ≡ none
      → without_suffix more (s ++ end) ≡ some s
      → without_suffix (suffix ∷ more) (s ++ end) ≡ some s
  unfolding without_suffix strip_suffix
  without_suffix-skip suffix more other rest =
      let passed : strip_prefix (reverse (s ++ end)) (reverse suffix) ≡ none =
        ap (λ t. strip_prefix t (reverse suffix)) (reverse-append s end) ∙ other in
      ground (arith, passed, rest)

-- Only the end that a name has is taken off.
without_suffix-end :
    (s end : Text) → is_archive_end end ≡ true → without_suffix archive_suffixes (s ++ end) ≡ some s
unfolding lit strip_prefix
without_suffix-end s end known =
    let zst = lit ".pkg.tar.zst" in
    let xz = lit ".pkg.tar.xz" in
    let gz = lit ".pkg.tar.gz" in
    let lz4 = lit ".pkg.tar.lz4" in
    let tar = lit ".pkg.tar" in
    let Reads : Text → Type 0 = λ e. without_suffix archive_suffixes (s ++ e) ≡ some s in
    let is : (e : Text) → text_eq end e ≡ true → end ≡ e = λ e same. (text_eq_iff end e).0 same in
    elim (Bool-cases (text_eq end zst)) [
      | inl same ↦ subst Reads (sym (is zst same)) (without_suffix-hit s zst _)
      | inr no_zst ↦ elim (Bool-cases (text_eq end xz)) [
        | inl same ↦
            subst Reads (sym (is xz same))
              (without_suffix-skip s xz zst _ refl (without_suffix-hit s xz _))
        | inr no_xz ↦ elim (Bool-cases (text_eq end gz)) [
          | inl same ↦ subst Reads (sym (is gz same)) (
              without_suffix-skip s gz zst _ refl
                (without_suffix-skip s gz xz _ refl (without_suffix-hit s gz _)))
          | inr no_gz ↦ elim (Bool-cases (text_eq end lz4)) [
            | inl same ↦ subst Reads (sym (is lz4 same)) (
                without_suffix-skip s lz4 zst _ refl (
                  without_suffix-skip s lz4 xz _ refl
                    (without_suffix-skip s lz4 gz _ refl (without_suffix-hit s lz4 _))))
            | inr no_lz4 ↦ subst Reads (sym (is tar (ground arith))) (
                without_suffix-skip s tar zst _ refl (
                  without_suffix-skip s tar xz _ refl (
                    without_suffix-skip s tar gz _ refl
                      (without_suffix-skip s tar lz4 _ refl (without_suffix-hit s tar _)))))
          ]
        ]
      ]
    ]

-- A package's name, which may have dashes, is read back from the name of its archive, whose version,
-- release and architecture have none, and which ends in .pkg.tar or in .pkg.tar with one of .zst, .xz,
-- .gz and .lz4.
pub parse_pkg_archive_name-archive_name :
    (name version release arch end : Text)
    → any is_dash version ≡ false
    → any is_dash release ≡ false
    → any is_dash arch ≡ false
    → is_archive_end end ≡ true
    → parse_pkg_archive_name (archive_name name version release arch ++ end) ≡ some name
unfolding parse_pkg_archive_name
parse_pkg_archive_name-archive_name name version release arch end v r a known =
    let (p, (ps, e)) = split_on-eq-cons name in
    let full = archive_name name version release arch in
    let parts = version ∷ release ∷ arch ∷ [] in
    let stripped = without_suffix-end full end known in
    let named : name_of_parts (split_on is_dash full) ≡ some name =
      ap name_of_parts
        (split_on-archive_name name version release arch v r a ∙ ap (λ qs. qs ++ parts) e)
      ∙ (name_of_parts-append p ps version release arch
          ∙ ap some (ap (join_with (lit "-")) (sym e) ∙ join_with-split_on name)) in
    ground (arith, stripped, named)
