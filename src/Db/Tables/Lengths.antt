-- ===== src/Db/Tables/Lengths.antt =====
-- An order of rows loses none.
use pkgundo.Prelude.{Text, ℕ, suc, List, [], ◌∷◌, length, Bool-cases, inl, inr, ◌≡◌, refl, ap, ◌∙◌}
use pkgundo.Db.Tables.{text_le, insert_by, order_by}

module _ {ℓ} {R : Type ℓ} (key : R → Text) where
  length-insert_by :
      (k : ℕ) (r : R) (rows : List (ℕ × R)) → length (insert_by key (k, r) rows) ≡ suc (length rows)
  unfolding insert_by
  length-insert_by k r [] = refl
  length-insert_by k r ((j, q) ∷ rows) = elim (Bool-cases (text_le (key r) (key q))) [
    | inl before ↦ rw before refl
    | inr after ↦ rw after (ap suc (length-insert_by k r rows))
  ]

  pub length-order_by : (rows : List (ℕ × R)) → length (order_by key rows) ≡ length rows
  unfolding order_by
  length-order_by [] = refl
  length-order_by ((k, r) ∷ rows) =
      length-insert_by k r (order_by key rows) ∙ ap suc (length-order_by rows)
