-- ===== src/Maps.antt =====
-- `HashMap` as an association list that holds a key once. Its order is not that of the source, which
-- has none.
use pkgundo.Prelude.{Bool, true, List, [], ◌∷◌, Option, none, some, if◌then◌else◌, ◌≡◌, ◌↔◌, arith}

abbrev pub Map : Type 0 → Type 0 → Type 0
Map K V = List (K × V)

-- `same` is the equality of the keys.
module _ {K V : Type 0} (same : K → K → Bool) where
  -- `map.get(&k)`
  unfoldable pub lookup : K → Map K V → Option V
  lookup k [] = none
  lookup k ((j, v) ∷ m) = if same j k then some v else lookup k m

  -- `map.remove(&k)`
  unfoldable pub without : K → Map K V → Map K V
  without k [] = []
  without k ((j, v) ∷ m) = let rest = without k m in if same j k then rest else (j, v) ∷ rest

  -- `map.insert(k, v)`
  unfoldable pub put : K → V → Map K V → Map K V
  unfolding without
  put k v m = (k, v) ∷ without k m

  module _ (same_iff : (a b : K) → (same a b ≡ true) ↔ (a ≡ b)) where
    pub lookup-without :
        (k j : K) (m : Map K V) → lookup j (without k m) ≡ (if same k j then none else lookup j m)
    unfolding lookup without
    lookup-without k j [] = ground arith
    lookup-without k j ((i, v) ∷ m) =
        ground (arith, lookup-without k j m, same_iff i k, same_iff i j, same_iff k j)

    pub lookup-put :
        (k j : K) (v : V) (m : Map K V)
        → lookup j (put k v m) ≡ (if same k j then some v else lookup j m)
    unfolding lookup put
    lookup-put k j v m = ground (arith, lookup-without k j m)
