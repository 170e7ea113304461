-- ===== src/Run.antt =====
-- Code that works on a state of its own and may fail with `?`: the state is kept when an error is
-- returned.
pub mod Rules
use pkgundo.Prelude.{Text, Result, ok, err, context, Bool, if◌then◌else◌}

abbrev pub Run : Type 0 → Type 0 → Type 0
Run S A = S → Result A × S

module _ {S : Type 0} where
  abbrev pub pure : {A : Type 0} → A → Run S A
  pure a s = (ok a, s)

  abbrev pub fail : {A : Type 0} → Text → Run S A
  fail e s = (err e, s)

  infixl 5 ◌>>=◌ ◌>>◌
  abbrev pub ◌>>=◌ : {A B : Type 0} → Run S A → (A → Run S B) → Run S B
  ◌>>=◌ m f s = let (r, s') = m s in elim r [ ok a ↦ f a s' | err e ↦ (err e, s') ]

  abbrev pub ◌>>◌ : {A B : Type 0} → Run S A → Run S B → Run S B
  m >> k = m >>= λ _. k

  -- `if test { m } else { k }`
  abbrev pub choose : {A : Type 0} → Bool → Run S A → Run S A → Run S A
  choose test m k s = if test then m s else k s

  -- `match m { Ok(a) => …, Err(e) => … }`: the error is handed on as a value.
  abbrev pub attempt : {A : Type 0} → Run S A → Run S (Result A)
  attempt m s = let (r, s') = m s in (ok r, s')

  abbrev pub with_context : {A : Type 0} → Text → Run S A → Run S A
  with_context message m s = let (r, s') = m s in (context message r, s')

  -- A look at the state that cannot fail, one that can, and a change of the state.
  abbrev pub ask : {A : Type 0} → (S → A) → Run S A
  ask f s = (ok (f s), s)

  abbrev pub inspect : {A : Type 0} → (S → Result A) → Run S A
  inspect f s = (f s, s)

  abbrev pub modify : (S → S) → Run S (Unit {0})
  modify f s = (ok tt, f s)
