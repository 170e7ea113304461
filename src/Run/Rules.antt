-- ===== src/Run/Rules.antt =====
-- A rule for what a sequence of two parts establishes.
use pkgundo.Prelude.{Text, Result, ok, err, ◌≡◌, subst, sym, ◌∙◌, arith}
use pkgundo.Run.{Run, ◌>>=◌}

module _ {S A B : Type 0} where
  abbrev continue : (A → Run S B) → Result A × S → Result B × S
  continue f (ok a, s) = f a s
  continue f (err e, s) = (err e, s)

  continue-via :
      (R : Result A × S → Type 0) (Q : Result B × S → Type 0) (f : A → Run S B) (r : Result A × S)
      → R r
      → ((a : A) (s : S) → R (ok a, s) → Q (f a s))
      → ((e : Text) (s : S) → R (err e, s) → Q (err e, s))
      → Q (continue f r)
  continue-via R Q f (ok a, s) first next broken = next a s first
  continue-via R Q f (err e, s) first next broken = broken e s first

  >>=-eq-continue : (m : Run S A) (f : A → Run S B) (s : S) → (m >>= f) s ≡ continue f (m s)
  >>=-eq-continue m f s = ground arith

  -- If the first part has `R`, and from there the second part has `Q` when there is a result to go
  -- on with and the error has `Q` when there is none, then both in sequence have `Q`.
  pub bind-via :
      (R : Result A × S → Type 0) (Q : Result B × S → Type 0) (m : Run S A) (f : A → Run S B)
      (s : S)
      → R (m s)
      → ((a : A) (s : S) → R (ok a, s) → Q (f a s))
      → ((e : Text) (s : S) → R (err e, s) → Q (err e, s))
      → Q ((m >>= f) s)
  bind-via R Q m f s first next broken =
      subst Q (sym (>>=-eq-continue m f s)) (continue-via R Q f (m s) first next broken)

  continue-ok :
      (f : A → Run S B) (r : Result A) (s : S) (a : A) → r ≡ ok a → continue f (r, s) ≡ f a s
  continue-ok f (ok b) s a h = cc
  continue-ok f (err e) s a h = absurd (cc h)

  -- A first part with a result hands it on.
  pub bind-ok :
      (m : Run S A) (f : A → Run S B) (s : S) (a : A) → (m s).0 ≡ ok a → (m >>= f) s ≡ f a (m s).1
  bind-ok m f s a h = >>=-eq-continue m f s ∙ continue-ok f (m s).0 (m s).1 a h
