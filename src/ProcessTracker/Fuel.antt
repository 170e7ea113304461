-- ===== src/ProcessTracker/Fuel.antt =====
-- The walk ends of itself: it passes a process once, and there are as many numbers as `pid_limit`.
use pkgundo.Prelude.{
  Bool-cases, true, false, ◌||◌, ℕ, zero, suc, ◌+◌, ◌<◌, ◌≤◌, List, [], ◌∷◌, Option, Option-cases,
  none, some, if◌then◌else◌, ◌==◌, leb, Text, lit, decimal, lines, starts_with, split_whitespace,
  get_elem?, Result, ok, err, ◌++◌, parse_i32_bound, ==_iff, ◌≡◌, ◌↔◌, refl, sym, ◌∙◌, subst, arith,
  inl, inr,
}
use pkgundo.Kernel.{Kernel}
use pkgundo.ProcessTracker.{
  ProcessTracker, second_number, ppid_in, ppid_of, is_in, next, walk, get_ppid, is_descendant,
  pid_limit,
}
use pkgundo.ProcessTracker.Chains.{Steps, walk_sound, walk_complete, walk_up}

-- How many numbers below the limit the walk has not passed.
left : ℕ → List ℕ → ℕ
left zero visited = 0
left (suc n) visited = (if is_in n visited then 0 else 1) + left n visited

left_le : (limit : ℕ) (visited : List ℕ) → left limit visited ≤ limit
unfolding left
left_le zero visited = omega arith
left_le (suc n) visited = ground (arith, left_le n visited)

left_above :
    (limit pid : ℕ) (visited : List ℕ)
    → limit ≤ pid
    → left limit (pid ∷ visited) ≡ left limit visited
unfolding left
left_above zero pid visited above = refl
left_above (suc n) pid visited above =
    ground (arith, left_above n pid visited (omega (arith, above)))

left_passed :
    (limit pid : ℕ) (visited : List ℕ)
    → pid < limit
    → is_in pid visited ≡ false
    → suc (left limit (pid ∷ visited)) ≡ left limit visited
unfolding left
left_passed zero pid visited below fresh = absurd (omega arith)
left_passed (suc n) pid visited below fresh = elim (Bool-cases (n == pid)) [
  | inl same ↦
      let equal : n ≡ pid = (==_iff n pid).0 same in
      ground (
        arith,
        left_above n pid visited (omega (arith, equal)),
        subst (λ p. is_in p visited ≡ false) (sym equal) fresh,
      )
  | inr other ↦ ground (arith, left_passed n pid visited (ground arith) fresh)
]

module _ (parent_of : ℕ → Option ℕ) (root limit : ℕ) where
  -- The parent of a process has a number below the limit.
  abbrev IsLimited : Type 0
  IsLimited = (pid ppid : ℕ) → parent_of pid ≡ some ppid → ppid < limit

  -- With more fuel than there are numbers left to pass, the walk says the same.
  walk_fuel :
      (f g : ℕ) (visited : List ℕ) (pid : ℕ)
      → IsLimited
      → pid < limit
      → left limit visited < f
      → left limit visited < g
      → walk parent_of root f visited pid ≡ walk parent_of root g visited pid
  unfolding walk next
  walk_fuel zero g visited pid limited below enough also = absurd (omega arith)
  walk_fuel (suc f) zero visited pid limited below enough also = absurd (omega arith)
  walk_fuel (suc f) (suc g) visited pid limited below enough also =
      elim (Bool-cases (pid == root)) [
        | inl here ↦ rw here refl
        | inr other ↦ elim (Bool-cases (is_in pid visited || leb pid 1)) [
          | inl stop ↦ rw (other, stop) refl
          | inr fresh ↦ elim (Option-cases (parent_of pid)) [
            | inl nothing ↦ rw (other, fresh, nothing) refl
            | inr (ppid, e) ↦
                let passed = left_passed limit pid visited below (ground arith) in
                walk_up parent_of root f visited pid ppid other fresh e
                ∙ (walk_fuel f g (pid ∷ visited) ppid limited (limited pid ppid e)
                      (omega (arith, passed)) (omega (arith, passed))
                    ∙ sym (walk_up parent_of root g visited pid ppid other fresh e))
          ]
        ]
      ]

  walk_iff :
      (pid : ℕ)
      → IsLimited
      → pid < limit
      → (walk parent_of root (suc limit) [] pid ≡ true) ↔ ((n : ℕ) × Steps parent_of root n pid)
  walk_iff pid limited below = (
    walk_sound parent_of root (suc limit) [] pid,
    λ (n, steps).
        walk_fuel (suc limit) (suc (limit + n)) [] pid limited below
          (omega (arith, left_le limit [])) (omega (arith, left_le limit []))
        ∙ walk_complete parent_of root n (suc (limit + n)) [] pid (omega arith) tt steps,
  )

second_number_bound : (word : Option Text) (n : ℕ) → second_number word ≡ some n → n < pid_limit
unfolding second_number
second_number_bound none n h = absurd (cc h)
second_number_bound (some word) n h = parse_i32_bound word n h

ppid_in_bound : (ls : List Text) (n : ℕ) → ppid_in ls ≡ some n → n < pid_limit
unfolding ppid_in
ppid_in_bound [] n h = absurd (cc h)
ppid_in_bound (line ∷ ls) n h = elim (Bool-cases (starts_with line (lit "PPid:"))) [
  | inl here ↦ second_number_bound (get_elem? 1 (split_whitespace line)) n (ground arith)
  | inr other ↦ ppid_in_bound ls n (ground arith)
]

ppid_of_bound : (status : Result Text) (n : ℕ) → ppid_of status ≡ some n → n < pid_limit
unfolding ppid_of
ppid_of_bound (err e) n h = absurd (cc h)
ppid_of_bound (ok status) n h = ppid_in_bound (lines status) n h

-- The check whether a process descends from the root always ends, and says yes if and only if the
-- parents in `/proc` lead from the process to the root, each process before the root having a
-- number above 1.
pub is_descendant_iff :
    (k : Kernel) (s : k.State) (tracker : ProcessTracker) (pid : ℕ)
    → pid < pid_limit
    → (is_descendant k s tracker pid ≡ true)
      ↔ ((n : ℕ) × Steps (get_ppid k s) tracker.root_pid n pid)
unfolding is_descendant get_ppid
is_descendant_iff k s tracker pid below =
    walk_iff (get_ppid k s) tracker.root_pid pid_limit pid
      (λ p ppid h.
        ppid_of_bound (k.read_to_string s (lit "/proc/" ++ decimal p ++ lit "/status")) ppid h)
      below
