-- ===== src/Leftovers/Safety.antt =====
-- What a scan may report.
use pkgundo.Prelude.{
  Text, lit, text_eq_iff, Mem, ◌≢◌, Bool, true, false, not, ◌||◌, List, [], ◌∷◌, ◌++◌, map, any,
  filter, Option, none, some, Result, ok, err, if-post, All, All-append, All-imp, filter-All,
  All-mem, any-snoc, subst, ◌≡◌, refl, arith,
}
use pkgundo.System.{Os}
use pkgundo.Paths.{PathBuf, normal, components, to_text, parent, path_eq, file_name}
use pkgundo.Paths.Laws.{path_eq_refl}
use pkgundo.Leftovers.Metadata.{Signals, PackageMetadataSource, derive_signals}
use pkgundo.Leftovers.{
  ascii_lower, Confidence, LeftoverCandidate, xdg_dirs, is_never_touch, classify, candidate_of,
  scan_name, scan_names, scan_entries, scan_dir_children, scan_xdg, scan_with_home, is_kept,
  is_home_top, has_dot,
}

-- The XDG directories of the home, and the home.
abbrev pub places : PathBuf → List PathBuf
places home = map (λ xdg. home ++ components xdg) xdg_dirs ++ home ∷ []

-- The name, whatever the case of its ASCII letters, is none of these.
abbrev pub IsTouchable : Text → Type 0
IsTouchable name =
    (map ascii_lower name ≢ lit ".ssh")
    × ((map ascii_lower name ≢ lit ".gnupg") × (map ascii_lower name ≢ lit ".password-store"))

is_never_touch-IsTouchable : (name : Text) → is_never_touch name ≡ false → IsTouchable name
unfolding is_never_touch ascii_lower lit
is_never_touch-IsTouchable name free =
    let lowered = map ascii_lower name in
    (
      λ same. ground (arith, text_eq_iff (lit ".ssh") lowered, same),
      (
        λ same. ground (arith, text_eq_iff (lit ".gnupg") lowered, same),
        λ same. ground (arith, text_eq_iff (lit ".password-store") lowered, same),
      ),
    )

-- The system lists the candidate's name in one of these directories, and the name may be touched.
abbrev pub IsEntry : (os : Os) → os.State → List PathBuf → LeftoverCandidate → Type 0
IsEntry os s dirs c =
    (dir : PathBuf) × (name : Text) × (names : List Text) × ((c.path ≡ dir ++ normal name ∷ [])
      × ((any (path_eq dir) dirs ≡ true)
          × (((os.read_dir s (to_text dir) ≡ ok names) × Mem name names) × IsTouchable name)))

module _ (lower : Text → Text) (os : Os) (s : os.State) (dirs : List PathBuf) (dir : PathBuf)
    (known : any (path_eq dir) dirs ≡ true) (signals : Signals) (in_xdg : Bool) where
  abbrev Entries : List LeftoverCandidate → Type 0
  Entries = All (IsEntry os s dirs)

  module _ (names : List Text) (listed : os.read_dir s (to_text dir) ≡ ok names) where
    candidate_of-IsEntry :
        (name : Text) (confidence : Option Confidence)
        → Mem name names
        → is_never_touch name ≡ false
        → Entries (candidate_of lower dir name confidence)
    unfolding candidate_of
    candidate_of-IsEntry name none member free = tt
    candidate_of-IsEntry name (some confidence) member free = (
      (dir, name, names, (refl, (known, ((listed, member), is_never_touch-IsTouchable name free)))),
      tt,
    )

    scan_name-IsEntry :
        (name : Text) → Mem name names → Entries (scan_name lower dir signals in_xdg name)
    unfolding scan_name
    scan_name-IsEntry name member =
        if-post Entries (is_never_touch name) (λ never. tt)
          (λ free. candidate_of-IsEntry name (classify lower name signals in_xdg) member free)

    scan_names-IsEntry :
        (some_names : List Text)
        → All (λ name. Mem name names) some_names
        → Entries (scan_names lower dir signals in_xdg some_names)
    unfolding scan_names
    scan_names-IsEntry [] members = tt
    scan_names-IsEntry (name ∷ more) (member, members) =
        All-append (IsEntry os s dirs) (scan_name lower dir signals in_xdg name)
          (scan_names lower dir signals in_xdg more) (scan_name-IsEntry name member)
          (scan_names-IsEntry more members)

  scan_entries-IsEntry :
      (entries : Result (List Text))
      → os.read_dir s (to_text dir) ≡ entries
      → Entries (scan_entries lower dir signals in_xdg entries)
  unfolding scan_entries
  scan_entries-IsEntry (err e) listed = tt
  scan_entries-IsEntry (ok names) listed = scan_names-IsEntry names listed names (All-mem names)

  scan_dir_children-IsEntry : Entries (scan_dir_children lower os dir signals in_xdg s)
  unfolding scan_dir_children
  scan_dir_children-IsEntry = scan_entries-IsEntry (os.read_dir s (to_text dir)) refl

module _ (lower : Text → Text) (os : Os) (dirs : List PathBuf) (home : PathBuf) (signals : Signals)
    (s : os.State) where
  scan_xdg-IsEntry :
      (xdgs : List Text)
      → All (λ xdg. any (path_eq (home ++ components xdg)) dirs ≡ true) xdgs
      → All (IsEntry os s dirs) (scan_xdg lower os home signals xdgs s)
  unfolding scan_xdg
  scan_xdg-IsEntry [] known = tt
  scan_xdg-IsEntry (xdg ∷ xdgs) (here, known) =
      All-append (IsEntry os s dirs)
        (scan_dir_children lower os (home ++ components xdg) signals true s)
        (scan_xdg lower os home signals xdgs s)
        (scan_dir_children-IsEntry lower os s dirs (home ++ components xdg) here signals true)
        (scan_xdg-IsEntry xdgs known)

places-All :
    (f : Text → PathBuf) (xdgs : List Text) (more : List PathBuf)
    → All (λ xdg. any (path_eq (f xdg)) (map f xdgs ++ more) ≡ true) xdgs
places-All f [] more = tt
places-All f (x ∷ xdgs) more = (
  ground (arith, path_eq_refl (f x)),
  All-imp (λ xdg. any (path_eq (f xdg)) (map f xdgs ++ more) ≡ true)
      (λ xdg. any (path_eq (f xdg)) (f x ∷ (map f xdgs ++ more)) ≡ true) xdgs
      (λ xdg h. ground (arith, h)) (places-All f xdgs more),
)

module _ (lower : Text → Text) where
  -- An entry of the home itself begins with a dot.
  abbrev pub IsDotted : PathBuf → LeftoverCandidate → Type 0
  IsDotted home c = parent c.path ≡ some home → has_dot lower (file_name c.path) ≡ true

  is_kept-IsDotted :
      (home : PathBuf) (c : LeftoverCandidate) → is_kept lower home c ≡ true → IsDotted home c
  unfolding is_kept is_home_top
  is_kept-IsDotted home c kept top = ground (
    arith,
    path_eq_refl home,
    subst (λ p. (not (is_home_top lower home p) || has_dot lower (file_name c.path)) ≡ true) top
        kept,
  )

-- A candidate of a scan is an entry that the system lists in the home or in one of its XDG directories,
-- and its name is not .ssh, .gnupg or .password-store in any case of the letters; an entry of the home
-- itself begins with a dot.
pub scan_with_home-IsEntry :
    (lower : Text → Text) (os : Os) (app : Text) (home : PathBuf) (source : PackageMetadataSource)
    (s : os.State)
    → All
        (λ c. IsEntry os s (places home) c × IsDotted lower home c)
        (scan_with_home lower os app home source s)
unfolding scan_with_home
scan_with_home-IsEntry lower os app home source s =
    let signals = derive_signals lower os app source s in
    let found = scan_xdg lower os home signals xdg_dirs s in
    let top = scan_dir_children lower os home signals false s in
    All-imp (λ c. IsEntry os s (places home) c × (is_kept lower home c ≡ true))
      (λ c. IsEntry os s (places home) c × IsDotted lower home c)
      (filter (is_kept lower home) (found ++ top))
      (λ c (entry, kept). (entry, is_kept-IsDotted lower home c kept))
      (filter-All (IsEntry os s (places home)) (is_kept lower home) (found ++ top) (
        All-append (IsEntry os s (places home)) found top
          (scan_xdg-IsEntry lower os (places home) home signals s xdg_dirs
            (places-All (λ xdg. home ++ components xdg) xdg_dirs (home ∷ [])))
          (scan_dir_children-IsEntry lower os s (places home) home
            (any-snoc (path_eq home) (map (λ xdg. home ++ components xdg) xdg_dirs) home
              (path_eq_refl home))
            signals false)))
