-- ===== src/Journal/Persist.antt =====
-- A mutation that is appended is in the journal, and stays there.
use pkgundo.Prelude.{
  Bool-cases, true, suc, [], ◌∷◌, any, any-snoc, any-append, ==_iff, text_eq_refl, ◌≡◌, refl, arith,
  inl, inr, none,
}
use pkgundo.System.{Os, insert_mutation}
use pkgundo.Exec.{World}
use pkgundo.Db.{Db, MutationRow, has_transaction, same_mutation}
use pkgundo.Db.Tables.{insert, append}
use pkgundo.Journal.{MutationRecord, to_row, append_mutation, insert_row}
use pkgundo.Journal.Dedup.{has_mutation}

same_mutation_refl : (r : MutationRow) → same_mutation r r ≡ true
unfolding same_mutation
same_mutation_refl r =
    ground (arith, (==_iff r.txid r.txid).1 refl, text_eq_refl r.operation, text_eq_refl r.path)

module _ (r q : MutationRow) (db : Db) where
  insert_row-keeps : has_mutation r db ≡ true → has_mutation r (insert_row q db).1 ≡ true
  unfolding has_mutation insert append
  insert_row-keeps h = elim (Bool-cases (has_transaction q.txid db)) [
    | inl known ↦ elim (Bool-cases (any (λ (_, p). same_mutation q p) db.mutations.rows)) [
      | inl old ↦ rw (known, old) h
      | inr fresh ↦
          rw (known, fresh)
            (any-append (λ (_, p). same_mutation r p) db.mutations.rows
              ((suc db.mutations.last, q) ∷ []) h)
    ]
    | inr unknown ↦ rw unknown h
  ]

insert_row-has :
    (q : MutationRow) (db : Db)
    → has_transaction q.txid db ≡ true
    → has_mutation q (insert_row q db).1 ≡ true
unfolding has_mutation insert append
insert_row-has q db known =
    elim (Bool-cases (any (λ (_, p). same_mutation q p) db.mutations.rows)) [
      | inl old ↦ rw (known, old) old
      | inr fresh ↦
          rw (known, fresh)
            (any-snoc (λ (_, p). same_mutation q p) db.mutations.rows (suc db.mutations.last, q)
              (same_mutation_refl q))
    ]

module _ (os : Os) (sound : (s : os.State) → os.sql_fault s insert_mutation ≡ none) where
  pub append_mutation-keeps :
      (r : MutationRow) (m : MutationRecord) (w : World os)
      → has_mutation r w.db ≡ true
      → has_mutation r (append_mutation os m w).1.db ≡ true
  unfolding append_mutation
  append_mutation-keeps r m w h = ground (arith, sound w.state, insert_row-keeps r (to_row m) w.db)

  pub append_mutation-has :
      (m : MutationRecord) (w : World os)
      → has_transaction m.txid w.db ≡ true
      → has_mutation (to_row m) (append_mutation os m w).1.db ≡ true
  unfolding append_mutation
  append_mutation-has m w known =
      ground (arith, sound w.state, insert_row-has (to_row m) w.db known)

module _ (os : Os) where
  -- The journal is a table of its own.
  pub tracked_apps-append_mutation :
      (m : MutationRecord) (w : World os)
      → (append_mutation os m w).1.db.tracked_apps ≡ w.db.tracked_apps
  unfolding append_mutation
  tracked_apps-append_mutation m w = ground arith

  pub transactions-append_mutation :
      (m : MutationRecord) (w : World os)
      → (append_mutation os m w).1.db.transactions ≡ w.db.transactions
  unfolding append_mutation
  transactions-append_mutation m w = ground arith
