-- ===== src/Journal/Tests.antt =====
-- A record that is appended twice.
use pkgundo.Prelude.{lit, ℕ, [], Option, none, some, ok, ◌≡◌, ◌≢◌, refl}
use pkgundo.System.Memory.{memory}
use pkgundo.Db.Tables.{insert}
use pkgundo.Transaction.Tests.{world_with}
use pkgundo.Journal.{MutationRecord, append_mutation}
use pkgundo.Journal.Dedup.{append_mutation_once}

abbrev created : Option ℕ → MutationRecord
created pid = record {
  id = none;
  txid = 1;
  pid = pid;
  operation = lit "create";
  path = lit "/usr/bin/x";
  timestamp = lit "2024-01-01T00:00:00+00:00";
  file_category = lit "Binary";
  pre_hash = none;
  post_hash = none;
}

append_mutation_once_example :
    ((append_mutation memory
        (created (some 42))
        (append_mutation memory (created none) (world_with [])).1).0
      ≢ ok 2)
    × ((append_mutation memory
          (created (some 42))
          (append_mutation memory (created none) (world_with [])).1).1
        ≡ (append_mutation memory (created none) (world_with [])).1)
unfolding append_mutation insert
append_mutation_once_example =
    append_mutation_once memory (created none) (created (some 42)) (world_with []) 1 2
      (refl, (refl, refl)) refl
