-- ===== src/Db/Tables.antt =====
-- A SQLite table with an `INTEGER PRIMARY KEY AUTOINCREMENT` column, as its rows in the order of
-- that key, and the statements that the program executes on it.
pub mod Lengths
use pkgundo.Prelude.{
  Text, lit, Result, ok, err, Bool, true, false, not, ℕ, suc, List, [], ◌∷◌, ◌++◌, map, any, filter,
  if◌then◌else◌, ltb, ◌==◌,
}

-- The rows with their keys, and the last key that was given.
pub record Table {ℓ} (R : Type ℓ) : Type ℓ where
  pub last : ℕ
  pub rows : List (ℕ × R)

abbrev pub no_rows {ℓ} : {R : Type ℓ} → Table R
no_rows = record { last = 0; rows = [] }

-- The order of SQLite's `BINARY` collation, on code points.
unfoldable pub text_le : Text → Text → Bool
text_le [] _ = true
text_le (_ ∷ _) [] = false
text_le (a ∷ s) (b ∷ t) =
    let rest = text_le s t in if ltb a b then true else if a == b then rest else false

module _ {ℓ} {R : Type ℓ} where
  unfoldable pub append : R → Table R → ℕ × Table R
  append r t = let key = suc t.last in (key, record { last = key; rows = t.rows ++ (key, r) ∷ [] })

  -- `INSERT` into a table whose `UNIQUE` constraint forbids two rows that are the `same`.
  unfoldable pub insert : (R → R → Bool) → R → Table R → Result ℕ × Table R
  unfolding append
  insert same r t =
      if any (λ (_, q). same r q) t.rows
      then (err (lit "UNIQUE constraint failed"), t)
      else (let (key, t') = append r t in (ok key, t'))

  -- `INSERT OR IGNORE`
  unfoldable pub insert_or_ignore : (R → R → Bool) → R → Table R → Table R
  unfolding append
  insert_or_ignore same r t = if any (λ (_, q). same r q) t.rows then t else (append r t).1

  -- `INSERT OR REPLACE`
  unfoldable pub insert_or_replace : (R → R → Bool) → R → Table R → Table R
  unfolding append
  insert_or_replace same r t =
      (append r (record t { rows = filter (λ (_, q). not (same r q)) t.rows })).1

  -- `SELECT … WHERE`
  unfoldable pub select : (ℕ → R → Bool) → Table R → List (ℕ × R)
  select p t = filter (λ (k, q). p k q) t.rows

  -- `UPDATE … WHERE`
  unfoldable pub update : (ℕ → R → Bool) → (R → R) → Table R → Table R
  update p f t = record t { rows = map (λ (k, q). (k, if p k q then f q else q)) t.rows }

  insert_by : (R → Text) → ℕ × R → List (ℕ × R) → List (ℕ × R)
  insert_by key (k, r) [] = (k, r) ∷ []
  insert_by key (k, r) ((j, q) ∷ rows) =
      let rest = insert_by key (k, r) rows in
      if text_le (key r) (key q) then (k, r) ∷ (j, q) ∷ rows else (j, q) ∷ rest

  -- `ORDER BY key ASC`; rows with equal keys stay in the order of the primary key.
  unfoldable pub order_by : (R → Text) → List (ℕ × R) → List (ℕ × R)
  unfolding insert_by
  order_by key [] = []
  order_by key (e ∷ rows) = insert_by key e (order_by key rows)

  insert_by_desc : (R → Text) → ℕ × R → List (ℕ × R) → List (ℕ × R)
  insert_by_desc key (k, r) [] = (k, r) ∷ []
  insert_by_desc key (k, r) ((j, q) ∷ rows) =
      let rest = insert_by_desc key (k, r) rows in
      if text_le (key q) (key r) then (k, r) ∷ (j, q) ∷ rows else (j, q) ∷ rest

  -- `ORDER BY key DESC`
  unfoldable pub order_by_desc : (R → Text) → List (ℕ × R) → List (ℕ × R)
  unfolding insert_by_desc
  order_by_desc key [] = []
  order_by_desc key (e ∷ rows) = insert_by_desc key e (order_by_desc key rows)
