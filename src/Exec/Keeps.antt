-- ===== src/Exec/Keeps.antt =====
-- Code that leaves the world as it was, and inversion of code that succeeds.
use pkgundo.Prelude.{Result, ok, err, ◌≡◌, refl, arith, ap, sym, ◌∙◌, subst}
use pkgundo.System.{Os}
use pkgundo.Exec.{World, M, ◌>>=◌}

module _ {os : Os} {A B : Type 0} where
  -- What `m >>= f` does with the result of `m`.
  abbrev continue : (A → M os B) → Result A → World os → Result B × World os
  continue f (ok a) w = f a w
  continue f (err e) w = (err e, w)

  continue-same :
      (f : A → M os B) (r : Result A) (w w' : World os)
      → w' ≡ w
      → ((a : A) → (f a w).1 ≡ w)
      → (continue f r w').1 ≡ w
  continue-same f (ok a) w w' e rest = rw e (rest a)
  continue-same f (err x) w w' e rest = e

  >>=-eq-continue :
      (m : M os A) (f : A → M os B) (w : World os) → (m >>= f) w ≡ continue f (m w).0 (m w).1
  >>=-eq-continue m f w = ground arith

  -- A step that changes nothing, followed by such steps, changes nothing.
  pub bind-same :
      (m : M os A) (f : A → M os B) (w : World os)
      → (m w).1 ≡ w
      → ((a : A) → (f a w).1 ≡ w)
      → ((m >>= f) w).1 ≡ w
  bind-same m f w same rest =
      rw (>>=-eq-continue m f w) (continue-same f (m w).0 w (m w).1 same rest)

  continue-post :
      (P : World os → Type 0) (f : A → M os B) (r : Result A) (w : World os)
      → ((a : A) → r ≡ ok a → (b : B) → (f a w).0 ≡ ok b → P (f a w).1)
      → (b : B) → (continue f r w).0 ≡ ok b
      → P (continue f r w).1
  continue-post P f (ok a) w next b h = next a refl b h
  continue-post P f (err e) w next b h = absurd (cc h)

  -- What the last part of `m >>= f` establishes when it succeeds, the whole does.
  pub bind-post :
      (P : World os → Type 0) (m : M os A) (f : A → M os B) (w : World os)
      → ((a : A) → (m w).0 ≡ ok a → (b : B) → (f a (m w).1).0 ≡ ok b → P (f a (m w).1).1)
      → (b : B) → ((m >>= f) w).0 ≡ ok b
      → P ((m >>= f) w).1
  bind-post P m f w next b h =
      subst (λ q. P q.1) (sym (>>=-eq-continue m f w))
        (continue-post P f (m w).0 (m w).1 next b (ap (λ q. q.0) (sym (>>=-eq-continue m f w)) ∙ h))

  continue-keeps :
      (P : World os → Type 0) (f : A → M os B) (r : Result A) (w : World os)
      → P w
      → ((a : A) (w : World os) → P w → P (f a w).1)
      → P (continue f r w).1
  continue-keeps P f (ok a) w p next = next a w p
  continue-keeps P f (err e) w p next = p

  -- What both parts of `m >>= f` keep, the whole keeps.
  pub bind-keeps :
      (P : World os → Type 0) (m : M os A) (f : A → M os B) (w : World os)
      → P (m w).1
      → ((a : A) (w : World os) → P w → P (f a w).1)
      → P ((m >>= f) w).1
  bind-keeps P m f w p next =
      subst (λ q. P q.1) (sym (>>=-eq-continue m f w)) (continue-keeps P f (m w).0 (m w).1 p next)

  continue-result :
      (Q : B → World os → Type 0) (f : A → M os B) (r : Result A) (w : World os)
      → ((a : A) → r ≡ ok a → (b : B) → (f a w).0 ≡ ok b → Q b (f a w).1)
      → (b : B) → (continue f r w).0 ≡ ok b
      → Q b (continue f r w).1
  continue-result Q f (ok a) w next b h = next a refl b h
  continue-result Q f (err e) w next b h = absurd (cc h)

  -- What the last part of `m >>= f` establishes of its result, the whole does.
  pub bind-result :
      (Q : B → World os → Type 0) (m : M os A) (f : A → M os B) (w : World os)
      → ((a : A) → (m w).0 ≡ ok a → (b : B) → (f a (m w).1).0 ≡ ok b → Q b (f a (m w).1).1)
      → (b : B) → ((m >>= f) w).0 ≡ ok b
      → Q b ((m >>= f) w).1
  bind-result Q m f w next b h =
      subst (λ q. Q b q.1) (sym (>>=-eq-continue m f w))
        (continue-result Q f (m w).0 (m w).1 next b
          (ap (λ q. q.0) (sym (>>=-eq-continue m f w)) ∙ h))
