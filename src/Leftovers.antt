-- ===== src/Leftovers.antt =====
-- `src/scan_leftovers/mod.rs`: directories in a home that an app is likely to have left behind.
-- `lower` is `str::to_lowercase`. A set is the list of what was inserted.
pub mod Metadata
pub mod Names
pub mod Safety
mod Tests
use pkgundo.Prelude.{
  Text, lit, text_eq, starts_with, contains, trim_start_matches, Bool, true, false, not, ◌&&◌, ◌||◌,
  ℕ, ◌+◌, List, [], ◌∷◌, ◌++◌, any, filter, map, Option, none, some, Result, ok, err, if◌then◌else◌,
  ◌==◌, leb,
}
use pkgundo.System.{Os}
use pkgundo.Paths.{PathBuf, Component, normal, components, to_text, parent, path_eq, file_name}
use pkgundo.Leftovers.Metadata.{Signals, PackageMetadataSource, derive_signals}

abbrev never_touch : List Text
never_touch = lit ".ssh" ∷ lit ".gnupg" ∷ lit ".password-store" ∷ []

abbrev pub xdg_dirs : List Text
xdg_dirs = lit ".config" ∷ lit ".local/share" ∷ lit ".cache" ∷ lit ".local/state" ∷ []

pub data Confidence : Type 0 where
  guess likely exact : Confidence

label : Confidence → Text
unfolding lit
label exact = lit "exact"
label likely = lit "likely"
label guess = lit "guess"

pub record LeftoverCandidate : Type 0 where
  pub path : PathBuf
  pub confidence : Confidence
  pub reason : Text

-- `char::to_ascii_lowercase`
unfoldable pub ascii_lower : ℕ → ℕ
ascii_lower c = if leb 0x41 c && leb c 0x5a then c + 0x20 else c

unfoldable pub is_never_touch : Text → Bool
unfolding ascii_lower text_eq lit
is_never_touch name = any (λ n. text_eq (map ascii_lower n) (map ascii_lower name)) never_touch

-- `s.trim_start_matches('.')`
trim_dots : Text → Text
unfolding trim_start_matches
trim_dots s = trim_start_matches (λ c. c == 0x2e) s

has_text : Text → List Text → Bool
has_text s set = any (λ t. text_eq t s) set

is_part : Text → Text → Bool
unfolding text_eq contains
is_part name t = not (text_eq t []) && (contains name t || contains t name)

module _ (lower : Text → Text) where
  unfoldable pub classify : Text → Signals → Bool → Option Confidence
  unfolding trim_dots has_text is_part text_eq contains
  classify name signals in_xdg =
      let stripped = lower (trim_dots name) in
      let lname = lower name in
      if has_text stripped signals.structural || has_text lname signals.structural
      then some exact
      else if any (is_part lname) signals.likely
      then some likely
      else if in_xdg && (not (text_eq signals.raw []) && contains lname signals.raw)
      then some guess
      else none

  candidate_of : PathBuf → Text → Option Confidence → List LeftoverCandidate
  unfolding label lit
  candidate_of dir name none = []
  candidate_of dir name (some confidence) =
      record {
        path = dir ++ normal name ∷ [];
        confidence = confidence;
        reason = lit "[" ++ label confidence ++ lit "] matched under " ++ to_text dir;
      }
      ∷ []

  scan_name : PathBuf → Signals → Bool → Text → List LeftoverCandidate
  unfolding candidate_of
  scan_name dir signals in_xdg name =
      if is_never_touch name then [] else candidate_of dir name (classify name signals in_xdg)

  scan_names : PathBuf → Signals → Bool → List Text → List LeftoverCandidate
  unfolding scan_name
  scan_names dir signals in_xdg [] = []
  scan_names dir signals in_xdg (name ∷ names) =
      scan_name dir signals in_xdg name ++ scan_names dir signals in_xdg names

  scan_entries : PathBuf → Signals → Bool → Result (List Text) → List LeftoverCandidate
  unfolding scan_names
  scan_entries dir signals in_xdg (err e) = []
  scan_entries dir signals in_xdg (ok names) = scan_names dir signals in_xdg names

  is_home_top : PathBuf → Option PathBuf → Bool
  unfolding path_eq
  is_home_top home none = false
  is_home_top home (some dir) = path_eq dir home

  pub has_dot : Option Text → Bool
  unfolding starts_with lit
  has_dot none = false
  has_dot (some name) = starts_with name (lit ".")

  -- An entry of the home itself is kept if its name begins with a dot.
  unfoldable pub is_kept : PathBuf → LeftoverCandidate → Bool
  unfolding is_home_top has_dot
  is_kept home c = not (is_home_top home (parent c.path)) || has_dot (file_name c.path)

  module _ (os : Os) where
    unfoldable pub scan_dir_children : PathBuf → Signals → Bool → os.State → List LeftoverCandidate
    unfolding scan_entries
    scan_dir_children dir signals in_xdg s =
        scan_entries dir signals in_xdg (os.read_dir s (to_text dir))

    scan_xdg : PathBuf → Signals → List Text → os.State → List LeftoverCandidate
    scan_xdg home signals [] s = []
    scan_xdg home signals (xdg ∷ xdgs) s =
        scan_dir_children (home ++ components xdg) signals true s ++ scan_xdg home signals xdgs s

    unfoldable pub scan_with_home :
        Text → PathBuf → PackageMetadataSource → os.State → List LeftoverCandidate
    unfolding scan_xdg
    scan_with_home app home source s =
        let signals = derive_signals lower os app source s in
        filter (is_kept home)
          (scan_xdg home signals xdg_dirs s ++ scan_dir_children home signals false s)
