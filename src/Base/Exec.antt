-- ===== src/Base/Exec.antt =====
-- Fallible code that acts on a world: what it did to the world before an error stays done.
use mathlib.Core.Path.{◌≡◌, refl, ap}
use freshen.Base.Outcome.{Result, ok, err}

abbrev pub Exec : Type 0 → Type 0 → Type 0
Exec W A = W → Result A × W

module _ {W A : Type 0} where
  abbrev pub pure : A → Exec W A
  pure a w = (ok a, w)

  abbrev pub lift : Result A → Exec W A
  lift r w = (r, w)

module _ {W A B : Type 0} where
  abbrev pub continue : Result A → (A → Exec W B) → Exec W B
  continue (ok a) f w = f a w
  continue (err e) f w = (err e, w)

  infixl 5 ◌>>=◌ ◌>>◌
  abbrev pub ◌>>=◌ : Exec W A → (A → Exec W B) → Exec W B
  ◌>>=◌ m f w = continue (m w).0 f (m w).1

  abbrev pub ◌>>◌ : Exec W A → Exec W B → Exec W B
  m >> k = m >>= λ _. k

  continue-inverse :
      (r : Result A) (f : A → Exec W B) (w : W) {b : B}
      → (continue r f w).0 ≡ ok b
      → (a : A) × (r ≡ ok a) × ((f a w).0 ≡ ok b)
  continue-inverse (ok a) f w h = (a, refl, h)
  continue-inverse (err e) f w h = cc

  -- Inversion of a bind that returned.
  pub bind-inverse :
      (m : Exec W A) (f : A → Exec W B) (w : W) {b : B}
      → ((m >>= f) w).0 ≡ ok b
      → (a : A) × ((m w).0 ≡ ok a) × ((f a (m w).1).0 ≡ ok b)
  bind-inverse m f w h = continue-inverse (m w).0 f (m w).1 h

  continue-known :
      (r : Result A) (f : A → Exec W B) (w : W) {b : B} {v : W}
      → continue r f w ≡ (ok b, v)
      → (a : A) × (r ≡ ok a) × (f a w ≡ (ok b, v))
  continue-known (ok a) f w h = (a, refl, h)
  continue-known (err e) f w {b} h = let k : err e ≡ ok b = ap (λ p. p.0) h in absurd (cc)

  -- The same, with the world in which the bind ended.
  pub bind-known :
      (m : Exec W A) (f : A → Exec W B) (w : W) {b : B} {v : W}
      → (m >>= f) w ≡ (ok b, v)
      → (a : A) × ((m w).0 ≡ ok a) × (f a (m w).1 ≡ (ok b, v))
  bind-known m f w h = continue-known (m w).0 f (m w).1 h
