-- ===== src/BlobStore/Restore.antt =====
-- What is restored from a blob is what the blob holds.
use pkgundo.Prelude.{
  Text, lit, Mem, All, All-mem, filter, filter-All, List, [], ◌∷◌, ==_iff, text_eq_iff, Bool, true,
  ℕ, Option, Option-cases, none, some, Result-cases, ok, ◌≡◌, ◌≢◌, arith, inl, inr,
}
use pkgundo.System.{Os, Bytes, select_blob}
use pkgundo.System.Lawful.{IsLawful}
use pkgundo.Db.{Db, BlobRow}
use pkgundo.Db.Tables.{select}
use pkgundo.Exec.{World, M, ◌>>=◌, call, pure, with_context}
use pkgundo.Exec.Keeps.{bind-keeps, bind-post}
use pkgundo.Paths.{parent, components}
use pkgundo.BlobStore.{
  find_blob, first_blob, is_blob_of, content_of, get_blob_content, apply_metadata, restore_metadata,
  create_parent, write_back, restore_from_blob,
}

module _ (os : Os) {Apart : Text → Text → Type 0} (lawful : IsLawful os Apart) (txid : ℕ)
    (path : Text) where
  abbrev Holds : Bytes → World os → Type 0
  Holds c w = os.read w.state path ≡ ok c

  apply_metadata-Holds :
      (row : Option BlobRow) (c : Bytes) (w : World os)
      → Holds c w
      → Holds c (apply_metadata os path row w).1
  unfolding apply_metadata
  apply_metadata-Holds none c w h = h
  apply_metadata-Holds (some r) c w h =
      lawful.read-chown _ path r.uid r.gid c _
        (lawful.read-set_permissions path path r.mode c w.state h)

  restore_metadata-Holds :
      (c : Bytes) (w : World os) → Holds c w → Holds c (restore_metadata os txid path w).1
  unfolding restore_metadata
  restore_metadata-Holds c w h = elim (Option-cases (os.sql_fault w.state select_blob)) [
    | inl fine ↦ ground (arith, apply_metadata-Holds (find_blob txid path (lit "pre") w.db) c w h)
    | inr (e, refused) ↦ ground (arith, h)
  ]

  written : (c : Bytes) → M os (Unit {0})
  written c = with_context (lit "BlobStore: failed to restore") (call (os.write path c))

  written-Holds :
      (c : Bytes) (w : World os) (u : Unit {0}) → (written c w).0 ≡ ok u → Holds c (written c w).1
  unfolding written
  written-Holds c w u h = elim (Result-cases (os.write path c w.state).0) [
    | inl (v, done) ↦ lawful.read-write_same path c w.state v done
    | inr (e, failed) ↦ absurd (ground (arith))
  ]

  write_back-Holds :
      (c : Bytes) (w : World os) (b : Bool)
      → (write_back os txid path (some c) w).0 ≡ ok b
      → Holds c (write_back os txid path (some c) w).1
  unfolding write_back written
  write_back-Holds c w =
      bind-post (Holds c) (create_parent os (parent (components path)))
        (λ _. written c >>= λ _. restore_metadata os txid path >>= λ _. pure true) w
        (λ _ _.
          bind-post (Holds c) (written c) (λ _. restore_metadata os txid path >>= λ _. pure true)
            (create_parent os (parent (components path)) w).1
            (λ u done b _.
              bind-keeps (Holds c) (restore_metadata os txid path) (λ _. pure true)
                (written c (create_parent os (parent (components path)) w).1).1
                (restore_metadata-Holds c
                  (written c (create_parent os (parent (components path)) w).1).1
                  (written-Holds c (create_parent os (parent (components path)) w).1 u done))
                (λ _ w' h. h)))

  write_back-none : (w : World os) → (write_back os txid path none w).0 ≢ ok true
  unfolding write_back
  write_back-none w h = absurd (cc h)

  -- A row of the table that is a "pre" blob for the path in the transaction, with this content.
  abbrev pub HasPreBlob : Bytes → Db → Type 0
  HasPreBlob c db =
      (key : ℕ) × (r : BlobRow) × (Mem (key, r) db.file_blobs.rows
        × (((r.txid ≡ txid) × (r.path ≡ path)) × ((r.phase ≡ lit "pre") × (r.content ≡ c))))

  first_blob-All :
      (P : ℕ × BlobRow → Type 0) (rows : List (ℕ × BlobRow)) (c : Bytes)
      → All P rows
      → content_of (first_blob rows) ≡ some c
      → (key : ℕ) × (r : BlobRow) × (P (key, r) × (r.content ≡ c))
  unfolding content_of first_blob
  first_blob-All P [] c all h = absurd (cc h)
  first_blob-All P ((key, r) ∷ rows) c (here, all) h = (key, r, (here, ground arith))

  find_blob-HasPreBlob :
      (c : Bytes) (db : Db)
      → content_of (find_blob txid path (lit "pre") db) ≡ some c
      → HasPreBlob c db
  unfolding find_blob is_blob_of select
  find_blob-HasPreBlob c db h =
      let rows = db.file_blobs.rows in
      let p : ℕ × BlobRow → Bool = λ (_, r). is_blob_of txid path (lit "pre") r in
      let (key, r, ((member, fits), same)) =
        first_blob-All (λ e. Mem e rows × (p e ≡ true)) (filter p rows) c
          (filter-All (λ e. Mem e rows) p rows (All-mem rows)) h in
      (
        key,
        r,
        (
          member,
          (
            (ground (arith, ==_iff r.txid txid), ground (arith, text_eq_iff r.path path)),
            (ground (arith, text_eq_iff r.phase (lit "pre")), same),
          ),
        ),
      )

  -- If `restore_from_blob` reports success, then the database has a row with the transaction, the path
  -- and the phase "pre", and the path holds the content of that row.
  pub restore_from_blob-read :
      (w : World os)
      → (restore_from_blob os txid path w).0 ≡ ok true
      → (c : Bytes) × (HasPreBlob c w.db
          × (os.read (restore_from_blob os txid path w).1.state path ≡ ok c))
  unfolding restore_from_blob get_blob_content
  restore_from_blob-read w h =
      elim (Option-cases (content_of (find_blob txid path (lit "pre") w.db))) [
        | inl nothing ↦ absurd (ground (arith, write_back-none w))
        | inr (c, found) ↦
            (c, (find_blob-HasPreBlob c w.db found, ground (arith, write_back-Holds c w true)))
      ]
