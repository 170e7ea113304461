-- ===== src/Journal/Dedup.antt =====
-- The journal holds an operation on a path once.
use pkgundo.Prelude.{
  text_eq_refl, ℕ, suc, ◌≡◌, ◌≢◌, refl, arith, any, any-snoc, Bool, true, Result-cases, ok, inl,
  inr, ==_iff,
}
use pkgundo.Db.{Db, MutationRow, same_mutation}
use pkgundo.Db.Tables.{insert}
use pkgundo.System.{Os}
use pkgundo.Exec.{World}
use pkgundo.Journal.{MutationRecord, to_row, insert_row, append_mutation, get_mutations}

module _ (os : Os) where
  -- Reading the journal changes nothing.
  pub get_mutations-same : (txid : ℕ) (w : World os) → (get_mutations os txid w).1 ≡ w
  unfolding get_mutations
  get_mutations-same txid w = ground arith

-- Records of the same transaction, operation and path.
abbrev pub IsRepeat : MutationRecord → MutationRecord → Type 0
IsRepeat m n = (m.txid ≡ n.txid) × ((m.operation ≡ n.operation) × (m.path ≡ n.path))

-- The journal has a row like this one.
unfoldable pub has_mutation : MutationRow → Db → Bool
has_mutation r db = any (λ (_, q). same_mutation r q) db.mutations.rows

has_mutation-insert :
    (m n : MutationRecord) (db : Db) (k : ℕ)
    → IsRepeat m n
    → (insert_row (to_row m) db).0 ≡ ok k
    → has_mutation (to_row n) (insert_row (to_row m) db).1 ≡ true
unfolding has_mutation insert same_mutation
has_mutation-insert m n db k repeat h = ground (
  arith,
  any-snoc (λ (_, q). same_mutation (to_row n) q) db.mutations.rows
      (suc db.mutations.last, to_row m)
      (ground (
        arith,
        repeat,
        (==_iff n.txid n.txid).1 refl,
        text_eq_refl n.operation,
        text_eq_refl n.path,
      )),
)

module _ (os : Os) where
  appended :
      (m n : MutationRecord) (w : World os) (k : ℕ)
      → IsRepeat m n
      → (append_mutation os m w).0 ≡ ok k
      → has_mutation (to_row n) (append_mutation os m w).1.db ≡ true
  unfolding append_mutation
  appended m n w k repeat h = elim (Result-cases (insert_row (to_row m) w.db).0) [
    | inl (j, done) ↦ ground (arith, has_mutation-insert m n w.db j repeat done)
    | inr (e, refused) ↦ ground arith
  ]

  append_refused :
      (n : MutationRecord) (w : World os) (j : ℕ)
      → has_mutation (to_row n) w.db ≡ true
      → ((append_mutation os n w).0 ≢ ok j) × ((append_mutation os n w).1 ≡ w)
  unfolding append_mutation has_mutation insert
  append_refused n w j h = (λ done. ground (arith, h), ground (arith, h))

  -- The journal holds an operation of a transaction on a path once: after one is appended, no
  -- record that repeats it is appended, and the attempt changes nothing.
  pub append_mutation_once :
      (m n : MutationRecord) (w : World os) (k j : ℕ)
      → IsRepeat m n
      → (append_mutation os m w).0 ≡ ok k
      → ((append_mutation os n (append_mutation os m w).1).0 ≢ ok j)
        × ((append_mutation os n (append_mutation os m w).1).1 ≡ (append_mutation os m w).1)
  append_mutation_once m n w k j repeat h =
      append_refused n (append_mutation os m w).1 j (appended m n w k repeat h)
