-- ===== src/Base/Facts.antt =====
-- What fallible code has learnt on its way, beside a condition on its world that it keeps.
use mathlib.Core.Path.{◌≡◌, refl}
use freshen.Base.Outcome.{Result, ok, err}
use freshen.Base.Exec.{Exec, lift}
use freshen.Base.Triples.{Ends, Triple}

module _ {W : Type 0} (P : W → Type 0) (F : W → Type 0) (fails : (w : W) → P w → F w)
    (K : Type 0) where
  abbrev pub Knows : W → Type 0
  Knows w = P w × K

  -- The value of a result that let the code go on.
  pub lift-Knows :
      {A : Type 0} (r : Result A) → Triple Knows (lift r) (λ x w. P w × (K × (r ≡ ok x))) F
  lift-Knows (ok x) = record { ends = λ w h. (h.0, (h.1, refl)) }
  lift-Knows (err e) = record { ends = λ w h. fails w h.0 }

  -- A step that keeps the condition, and the fact that its value has.
  pub step-Knows :
      {A : Type 0} {m : Exec W A} (Q : A → Type 0)
      → Triple P m (λ x w. P w × Q x) F
      → Triple Knows m (λ x w. P w × (K × Q x)) F
  step-Knows {A} {m} Q t = record { ends = λ w h. carry (m w).0 (m w).1 h.1 (t.ends w h.0) }
    where
      carry :
          (r : Result A) (w : W)
          → K
          → Ends (λ x v. P v × Q x) F r w
          → Ends (λ x v. P v × (K × Q x)) F r w
      carry (ok x) w k h = (h.0, (k, h.1))
      carry (err e) w k h = h

-- What does not speak of the world stays true.
pub const-Triple :
    {W A : Type 0} (K : Type 0) (m : Exec W A) → Triple (λ _. K) m (λ _ _. K) (λ _. Unit {0})
const-Triple {W} {A} K m = record { ends = λ w k. hold (m w).0 (m w).1 k }
  where
    hold : (r : Result A) (w : W) → K → Ends (λ _ _. K) (λ _. Unit {0}) r w
    hold (ok x) w k = k
    hold (err e) w k = tt
