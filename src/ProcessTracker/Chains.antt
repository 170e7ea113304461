-- ===== src/ProcessTracker/Chains.antt =====
-- `is_descendant` is whether the parents of a process lead to the root.
use pkgundo.Prelude.{
  Bool-cases, true, false, ◌||◌, ℕ, zero, suc, ◌<◌, List, [], ◌∷◌, Option, Option-cases, some, ◌==◌,
  leb, All, ==_iff, ◌≡◌, ◌≢◌, refl, sym, ◌∙◌, ap, subst, arith, inl, inr,
}
use pkgundo.ProcessTracker.{is_in, next, walk}

module _ (parent_of : ℕ → Option ℕ) (root : ℕ) where
  -- The `n`th parent of the process is the root and no earlier one is; the processes before it have
  -- a number above 1.
  abbrev pub Steps : ℕ → ℕ → Type 0
  Steps zero pid = pid ≡ root
  Steps (suc n) pid =
      ((pid ≢ root) × (1 < pid)) × ((ppid : ℕ) × ((parent_of pid ≡ some ppid) × Steps n ppid))

  Steps-unique : (n m pid : ℕ) → Steps n pid → Steps m pid → n ≡ m
  Steps-unique zero zero pid a b = refl
  Steps-unique zero (suc m) pid a ((other, _), _) = absurd (other a)
  Steps-unique (suc n) zero pid ((other, _), _) b = absurd (other b)
  Steps-unique (suc n) (suc m) pid (_, (p, (e, a))) (_, (q, (f, b))) =
      let same : q ≡ p = cc in ap suc (Steps-unique n m p a (subst (Steps m) same b))

  -- The walk goes on at the parent.
  pub walk_up :
      (fuel : ℕ) (visited : List ℕ) (pid ppid : ℕ)
      → (pid == root) ≡ false
      → (is_in pid visited || leb pid 1) ≡ false
      → parent_of pid ≡ some ppid
      → walk parent_of root (suc fuel) visited pid ≡ walk parent_of root fuel (pid ∷ visited) ppid
  unfolding walk next
  walk_up fuel visited pid ppid other fresh e = rw (other, fresh, e) refl

  pub walk_sound :
      (fuel : ℕ) (visited : List ℕ) (pid : ℕ)
      → walk parent_of root fuel visited pid ≡ true
      → (n : ℕ) × Steps n pid
  unfolding walk next
  walk_sound zero visited pid h = absurd (cc h)
  walk_sound (suc fuel) visited pid h = elim (Bool-cases (pid == root)) [
    | inl here ↦ (0, (==_iff pid root).0 here)
    | inr other ↦ elim (Bool-cases (is_in pid visited || leb pid 1)) [
      | inl stop ↦ absurd (ground arith)
      | inr fresh ↦ elim (Option-cases (parent_of pid)) [
        | inl nothing ↦ absurd (ground arith)
        | inr (ppid, e) ↦
            let (n, steps) =
              walk_sound fuel (pid ∷ visited) ppid
                (sym (walk_up fuel visited pid ppid other fresh e) ∙ h) in
            (suc n, ((λ same. ground arith, ground arith), (ppid, (e, steps))))
      ]
    ]
  ]

  -- The processes that the walk has passed are further from the root.
  abbrev pub ArePassed : ℕ → List ℕ → Type 0
  ArePassed n visited = All (λ v. (m : ℕ) × ((n < m) × Steps m v)) visited

  is_in-ArePassed :
      (n pid : ℕ) (visited : List ℕ) → ArePassed n visited → Steps n pid → is_in pid visited ≡ false
  is_in-ArePassed n pid [] passed steps = refl
  is_in-ArePassed n pid (v ∷ visited) ((m, (further, from)), passed) steps =
      elim (Bool-cases (pid == v)) [
        | inl same ↦
            let equal : n ≡ m =
              Steps-unique n m pid steps (subst (Steps m) (sym ((==_iff pid v).0 same)) from) in
            absurd (omega (arith, equal, further))
        | inr other ↦ rw other (is_in-ArePassed n pid visited passed steps)
      ]

  ArePassed-closer : (n : ℕ) (visited : List ℕ) → ArePassed (suc n) visited → ArePassed n visited
  ArePassed-closer n [] passed = tt
  ArePassed-closer n (v ∷ visited) ((m, (further, from)), passed) =
      ((m, (omega (arith, further), from)), ArePassed-closer n visited passed)

  pub walk_complete :
      (n fuel : ℕ) (visited : List ℕ) (pid : ℕ)
      → n < fuel
      → ArePassed n visited
      → Steps n pid
      → walk parent_of root fuel visited pid ≡ true
  unfolding walk next
  walk_complete n zero visited pid enough passed steps = absurd (omega arith)
  walk_complete zero (suc fuel) visited pid enough passed steps =
      rw ((==_iff pid root).1 steps) refl
  walk_complete (suc n) (suc fuel) visited pid enough passed ((other, above), (ppid, (e, steps))) =
      walk_up fuel visited pid ppid (ground (arith, ==_iff pid root, other))
        (ground
          (arith, is_in-ArePassed (suc n) pid visited passed ((other, above), (ppid, (e, steps)))))
        e
      ∙ walk_complete n fuel (pid ∷ visited) ppid (omega arith)
          (
            (suc n, (omega arith, ((other, above), (ppid, (e, steps))))),
            ArePassed-closer n visited passed,
          )
          steps
