-- ===== src/Prelude/Texts.antt =====
-- Rust's `str` as the list of its code points, with the tests that the program uses.
use Prim.Native.Nat.{ℕ, zero, suc, ◌+◌, ◌-◌, ◌*◌, ◌/◌, ◌%◌, ◌<◌}
use Prim.Native.Char.{code}
use Prim.Native.String.{String}
use mathlib.Core.Path.{◌≡◌, refl, ap₂}
use mathlib.Core.Logic.{◌↔◌, inl, inr}
use mathlib.Core.Bool.{Bool, true, false, ◌&&◌, ◌||◌}
use mathlib.Core.Option.{Option, none, some}
use mathlib.Core.List.{List, [], ◌∷◌, ◌++◌, reverse}
use native.Mathlib.Omega.{arith}
use pkgundo.Prelude.Tests.{◌==◌, leb, ltb, if◌then◌else◌, ==_iff, Option-cases}

abbrev pub Text : Type 0
Text = List ℕ

-- A literal of the source. It is shut, so that proofs see it as a name.
unfoldable pub lit : String → Text
lit String.[] = []
lit (String.◌∷◌ c s) = code c ∷ lit s

unfoldable pub text_eq : Text → Text → Bool
text_eq [] [] = true
text_eq [] (_ ∷ _) = false
text_eq (_ ∷ _) [] = false
text_eq (a ∷ s) (b ∷ t) = a == b && text_eq s t

-- `s.starts_with(prefix)`
unfoldable pub starts_with : Text → Text → Bool
starts_with s [] = true
starts_with [] (_ ∷ _) = false
starts_with (a ∷ s) (b ∷ t) = a == b && starts_with s t

-- `s.contains(part)`
unfoldable pub contains : Text → Text → Bool
unfolding starts_with
contains [] part = starts_with [] part
contains (a ∷ s) part = starts_with (a ∷ s) part || contains s part

-- `s.ends_with(suffix)`
unfoldable pub ends_with : Text → Text → Bool
unfolding text_eq
ends_with [] suffix = text_eq [] suffix
ends_with (a ∷ s) suffix = text_eq (a ∷ s) suffix || ends_with s suffix

-- `s.strip_prefix(prefix)`
unfoldable pub strip_prefix : Text → Text → Option Text
strip_prefix s [] = some s
strip_prefix [] (_ ∷ _) = none
strip_prefix (a ∷ s) (b ∷ t) = let rest = strip_prefix s t in if a == b then rest else none

-- The White_Space characters of Unicode, which `trim` and `split_whitespace` go by.
unfoldable pub is_whitespace : ℕ → Bool
is_whitespace c =
    (leb 0x9 c && leb c 0xd)
    || c == 0x20
    || c == 0x85
    || c == 0xa0
    || c == 0x1680
    || (leb 0x2000 c && leb c 0x200a)
    || c == 0x2028
    || c == 0x2029
    || c == 0x202f
    || c == 0x205f
    || c == 0x3000

-- `s.trim_start_matches(test)`, for a test of one character.
unfoldable pub trim_start_matches : (ℕ → Bool) → Text → Text
trim_start_matches test [] = []
trim_start_matches test (c ∷ s) =
    let rest = trim_start_matches test s in if test c then rest else c ∷ s

-- `s.trim()`
unfoldable pub trim : Text → Text
unfolding trim_start_matches is_whitespace
trim s = reverse (trim_start_matches is_whitespace (reverse (trim_start_matches is_whitespace s)))

decimal_from : ℕ → ℕ → Text → Text
decimal_from zero n acc = acc
decimal_from (suc fuel) n acc =
    let more = decimal_from fuel (n / 10) ((48 + n % 10) ∷ acc) in
    if ltb n 10 then (48 + n) ∷ acc else more

-- `n.to_string()`; a number has at most as many digits as it counts, and one.
unfoldable pub decimal : ℕ → Text
unfolding decimal_from
decimal n = decimal_from (suc n) n []

-- The pieces between the characters that pass the test; one more than there are such characters.
unfoldable pub split_on : (ℕ → Bool) → Text → List Text
split_on test [] = [] ∷ []
split_on test (c ∷ s) =
    let rest = split_on test s in
    if test c then [] ∷ rest else elim rest [ [] ↦ (c ∷ []) ∷ [] | p ∷ ps ↦ (c ∷ p) ∷ ps ]

-- The pieces that are not empty.
unfoldable pub non_empty : List Text → List Text
non_empty [] = []
non_empty ([] ∷ ps) = non_empty ps
non_empty ((c ∷ p) ∷ ps) = (c ∷ p) ∷ non_empty ps

-- `s.split_whitespace()`
unfoldable pub split_whitespace : Text → List Text
unfolding split_on non_empty is_whitespace
split_whitespace s = non_empty (split_on is_whitespace s)

-- A line without the carriage return at its end.
chomp : Text → Text
chomp [] = []
chomp (c ∷ []) = if c == 0xd then [] else c ∷ []
chomp (c ∷ d ∷ s) = c ∷ chomp (d ∷ s)

-- The pieces between line feeds; the last counts if it is not empty.
lines_of : List Text → List Text
unfolding chomp
lines_of [] = []
lines_of ([] ∷ []) = []
lines_of (p ∷ []) = p ∷ []
lines_of (p ∷ q ∷ ps) = chomp p ∷ lines_of (q ∷ ps)

-- `s.lines()`
unfoldable pub lines : Text → List Text
unfolding split_on lines_of
lines s = lines_of (split_on (λ c. c == 0xa) s)

-- `s.strip_suffix(suffix)`
unfoldable pub strip_suffix : Text → Text → Option Text
unfolding strip_prefix
strip_suffix s suffix = elim (strip_prefix (reverse s) (reverse suffix)) [
  | none ↦ none
  | some rest ↦ some (reverse rest)
]

-- `s.split_once(c)`
unfoldable pub split_once : ℕ → Text → Option (Text × Text)
split_once c [] = none
split_once c (a ∷ s) =
    let rest = split_once c s in
    if a == c then some ([], s) else elim rest [ none ↦ none | some (x, y) ↦ some (a ∷ x, y) ]

-- `pieces.join(between)`
unfoldable pub join_with : Text → List Text → Text
join_with between [] = []
join_with between (p ∷ []) = p
join_with between (p ∷ q ∷ ps) = p ++ (between ++ join_with between (q ∷ ps))

digits_from : ℕ → Text → Option ℕ
digits_from acc [] = some acc
digits_from acc (c ∷ s) = if leb 48 c && leb c 57 then digits_from (acc * 10 + (c - 48)) s else none

-- `s.parse::<i32>()`, for a text without a sign: what `/proc` holds is a number that has none.
unfoldable pub parse_i32 : Text → Option ℕ
unfolding digits_from
parse_i32 [] = none
parse_i32 (c ∷ s) = elim (digits_from 0 (c ∷ s)) [
  | none ↦ none
  | some n ↦ if ltb n 2147483648 then some n else none
]

-- `s.parse::<u32>()`, for a text without a sign
unfoldable pub parse_u32 : Text → Option ℕ
unfolding digits_from
parse_u32 [] = none
parse_u32 (c ∷ s) = elim (digits_from 0 (c ∷ s)) [
  | none ↦ none
  | some n ↦ if ltb n 4294967296 then some n else none
]

pub text_eq_iff : (s t : Text) → (text_eq s t ≡ true) ↔ (s ≡ t)
unfolding text_eq
text_eq_iff [] [] = (λ _. refl, λ _. refl)
text_eq_iff [] (_ ∷ _) = (λ h. cc, λ h. cc)
text_eq_iff (_ ∷ _) [] = (λ h. cc, λ h. cc)
text_eq_iff (a ∷ s) (b ∷ t) = ground (arith, text_eq_iff s t)

pub text_eq_refl : (s : Text) → text_eq s s ≡ true
text_eq_refl s = (text_eq_iff s s).1 refl

-- A prefix can be split off.
pub starts_with_split : (s t : Text) → starts_with s t ≡ true → (r : Text) × (s ≡ t ++ r)
unfolding starts_with
starts_with_split s [] h = (s, refl)
starts_with_split [] (_ ∷ _) h = cc
starts_with_split (a ∷ s) (b ∷ t) h =
    let (r, e) = starts_with_split s t (ground arith) in
    (r, ap₂ (λ x y. x ∷ y) ((==_iff a b).0 (ground arith)) e)

pub starts_with-append : (t r : Text) → starts_with (t ++ r) t ≡ true
unfolding starts_with
starts_with-append [] r = refl
starts_with-append (a ∷ t) r = ground (arith, starts_with-append t r)

-- The number of an `i32` is below 2³¹.
pub parse_i32_bound : (s : Text) (n : ℕ) → parse_i32 s ≡ some n → n < 2147483648
unfolding parse_i32
parse_i32_bound [] n h = absurd (cc h)
parse_i32_bound (c ∷ s) n h = elim (Option-cases (digits_from 0 (c ∷ s))) [
  | inl nothing ↦ absurd (ground arith)
  | inr (m, read) ↦ ground arith
]
