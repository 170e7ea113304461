-- ===== src/Paths.antt =====
-- `std::path` as the program uses it. A `PathBuf` is its list of components, by which Rust compares
-- paths; `components` reads them off a text and `to_text` writes them out again.
pub mod Laws
use pkgundo.Prelude.{
  Text, lit, text_eq, Bool, true, false, ◌&&◌, ℕ, List, [], ◌∷◌, ◌++◌, Option, none, some, ◌==◌,
  ltb, split_on, if◌then◌else◌, starts_with, ends_with, trim_start_matches,
}

pub data Component : Type 0 where
  root_dir cur_dir parent_dir : Component
  normal : Text → Component

abbrev pub PathBuf : Type 0
PathBuf = List Component

unfoldable pub component_eq : Component → Component → Bool
unfolding text_eq
component_eq root_dir root_dir = true
component_eq cur_dir cur_dir = true
component_eq parent_dir parent_dir = true
component_eq (normal s) (normal t) = text_eq s t
component_eq _ _ = false

unfoldable pub path_eq : PathBuf → PathBuf → Bool
unfolding component_eq
path_eq [] [] = true
path_eq [] (_ ∷ _) = false
path_eq (_ ∷ _) [] = false
path_eq (c ∷ p) (d ∷ q) = component_eq c d && path_eq p q

abbrev rank : Component → ℕ
rank root_dir = 0
rank cur_dir = 1
rank parent_dir = 2
rank (normal _) = 3

text_lt : Text → Text → Bool
text_lt _ [] = false
text_lt [] (_ ∷ _) = true
text_lt (a ∷ s) (b ∷ t) =
    let rest = text_lt s t in if ltb a b then true else if a == b then rest else false

-- The order of `Component` and of `Path`, by components.
component_lt : Component → Component → Bool
unfolding text_lt
component_lt (normal s) (normal t) = text_lt s t
component_lt c d = ltb (rank c) (rank d)

unfoldable pub path_lt : PathBuf → PathBuf → Bool
unfolding component_lt component_eq
path_lt _ [] = false
path_lt [] (_ ∷ _) = true
path_lt (c ∷ p) (d ∷ q) =
    let rest = path_lt p q in if component_eq c d then rest else component_lt c d

-- `Path::starts_with`
unfoldable pub path_starts_with : PathBuf → PathBuf → Bool
unfolding component_eq
path_starts_with p [] = true
path_starts_with [] (_ ∷ _) = false
path_starts_with (c ∷ p) (d ∷ base) = component_eq c d && path_starts_with p base

abbrev is_slash : ℕ → Bool
is_slash c = c == 0x2f

-- The components of the pieces between slashes: empty pieces and `.` count for nothing.
unfoldable pub body : List Text → PathBuf
unfolding text_eq lit
body [] = []
body (piece ∷ pieces) =
    let rest = body pieces in
    if text_eq piece []
    then rest
    else if text_eq piece (lit ".")
    then rest
    else if text_eq piece (lit "..")
    then parent_dir ∷ rest
    else normal piece ∷ rest

-- A relative path may begin with `.`, which is kept.
relative : List Text → PathBuf
unfolding text_eq lit body
relative [] = []
relative (piece ∷ pieces) =
    if text_eq piece (lit ".") then cur_dir ∷ body pieces else body (piece ∷ pieces)

-- `Path::components`
unfoldable pub components : Text → PathBuf
unfolding relative split_on
components [] = []
components (c ∷ s) =
    if is_slash c
    then root_dir ∷ body (split_on is_slash s)
    else relative (split_on is_slash (c ∷ s))

-- `Component::as_os_str`
unfoldable pub as_os_str : Component → Text
unfolding lit
as_os_str root_dir = lit "/"
as_os_str cur_dir = lit "."
as_os_str parent_dir = lit ".."
as_os_str (normal s) = s

join_names : PathBuf → Text
unfolding as_os_str
join_names [] = []
join_names (c ∷ []) = as_os_str c
join_names (c ∷ d ∷ p) = as_os_str c ++ lit "/" ++ join_names (d ∷ p)

unfoldable pub to_text : PathBuf → Text
unfolding join_names lit
to_text (root_dir ∷ p) = lit "/" ++ join_names p
to_text p = join_names p

-- `Path::strip_prefix`
unfoldable pub strip_path_prefix : PathBuf → PathBuf → Option PathBuf
unfolding component_eq
strip_path_prefix [] p = some p
strip_path_prefix (_ ∷ _) [] = none
strip_path_prefix (d ∷ home) (c ∷ p) =
    let rest = strip_path_prefix home p in if component_eq d c then rest else none

-- `Path::file_name`: the last component, if it is a name.
unfoldable pub file_name : PathBuf → Option Text
file_name [] = none
file_name (normal s ∷ []) = some s
file_name (root_dir ∷ []) = none
file_name (cur_dir ∷ []) = none
file_name (parent_dir ∷ []) = none
file_name (_ ∷ d ∷ p) = file_name (d ∷ p)

-- All components but the last.
unfoldable pub init : PathBuf → PathBuf
init [] = []
init (c ∷ []) = []
init (c ∷ d ∷ p) = c ∷ init (d ∷ p)

-- `Path::parent`
unfoldable pub parent : PathBuf → Option PathBuf
unfolding init
parent [] = none
parent (root_dir ∷ []) = none
parent (c ∷ p) = some (init (c ∷ p))

-- `Path::join` of a text that may be absolute.
unfoldable pub join : Text → Text → Text
unfolding starts_with ends_with lit
join base rest =
    if starts_with rest (lit "/")
    then rest
    else if text_eq base []
    then rest
    else if ends_with base (lit "/")
    then base ++ rest
    else base ++ lit "/" ++ rest
