-- ===== src/Exec.antt =====
-- Code that works on the system and the database and may fail with `?`: a state monad over both,
-- whose state is kept when an error is returned.
pub mod Keeps
use pkgundo.Prelude.{
  Text, Result, ok, err, context, Bool, ℕ, List, Option, none, some, if◌then◌else◌,
}
use pkgundo.System.{Os, Bytes, FileMeta, Statement}
use pkgundo.Db.{Db}

module _ (os : Os) where
  pub record World : Type 0 where
    pub db : Db
    pub state : os.State

  abbrev pub M : Type 0 → Type 0
  M A = World → Result A × World

module _ {os : Os} where
  abbrev pub pure : {A : Type 0} → A → M os A
  pure a w = (ok a, w)

  abbrev pub fail : {A : Type 0} → Text → M os A
  fail e w = (err e, w)

  infixl 5 ◌>>=◌ ◌>>◌
  abbrev pub ◌>>=◌ : {A B : Type 0} → M os A → (A → M os B) → M os B
  ◌>>=◌ m f w = let (r, w') = m w in elim r [ ok a ↦ f a w' | err e ↦ (err e, w') ]

  abbrev pub ◌>>◌ : {A B : Type 0} → M os A → M os B → M os B
  m >> k = m >>= λ _. k

  -- `if test { m } else { k }`
  abbrev pub choose : {A : Type 0} → Bool → M os A → M os A → M os A
  choose test m k w = if test then m w else k w

  -- `match m { Ok(a) => …, Err(e) => … }`: the error is handed on as a value.
  abbrev pub attempt : {A : Type 0} → M os A → M os (Result A)
  attempt m w = let (r, w') = m w in (ok r, w')

  abbrev pub with_context : {A : Type 0} → Text → M os A → M os A
  with_context message m w = let (r, w') = m w in (context message r, w')

  -- A question to the system that cannot fail, one that can, and a call that changes it.
  abbrev pub ask : {A : Type 0} → (os.State → A) → M os A
  ask f w = (ok (f w.state), w)

  abbrev pub inspect : {A : Type 0} → (os.State → Result A) → M os A
  inspect f w = (f w.state, w)

  abbrev pub call : {A : Type 0} → (os.State → Result A × os.State) → M os A
  call f w = let (r, s) = f w.state in (r, record w { state = s })

  -- `Utc::now().to_rfc3339()`
  abbrev pub now : M os Text
  now w = let (t, s) = os.now w.state in (ok t, record w { state = s })

  -- A statement that reads the tables, refused if at all when it is prepared, and one that
  -- changes them.
  abbrev pub query : {A : Type 0} → Statement → (Db → A) → M os A
  query statement f w = elim (os.sql_fault w.state statement) [
    | none ↦ (ok (f w.db), w)
    | some e ↦ (err e, w)
  ]

  abbrev pub execute : {A : Type 0} → Statement → (Db → Result A × Db) → M os A
  execute statement f w = elim (os.sql_fault w.state statement) [
    | none ↦ (let (r, db) = f w.db in (r, record w { db = db }))
    | some e ↦ (err e, w)
  ]
