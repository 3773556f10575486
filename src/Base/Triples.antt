-- ===== src/Base/Triples.antt =====
-- What fallible code does to its world, as a triple: the state before, and the states after it
-- returned or failed.
use mathlib.Core.Path.{◌≡◌, refl, subst}
use mathlib.Core.Bool.{Bool, true, false}
use freshen.Base.Tests.{if◌then◌else◌}
use freshen.Base.Outcome.{Result, ok, err, ok-injective}
use freshen.Base.Exec.{Exec, continue, ◌>>=◌}

module _ {W A : Type 0} where
  abbrev pub Ends : (A → W → Type 0) → (W → Type 0) → Result A → W → Type 0
  Ends Post Fail (ok a) w = Post a w
  Ends Post Fail (err e) w = Fail w

  pub record Triple (Pre : W → Type 0) (m : Exec W A) (Post : A → W → Type 0) (Fail : W → Type 0)
      : Type 0 where
    pub ends : (w : W) → Pre w → Ends Post Fail (m w).0 (m w).1

  pub Ends-ok :
      (Post : A → W → Type 0) (Fail : W → Type 0) (r : Result A) (w : W) {a : A}
      → Ends Post Fail r w
      → r ≡ ok a
      → Post a w
  Ends-ok Post Fail (ok b) w {a} h e = subst (λ z. Post z w) (ok-injective e) h
  Ends-ok Post Fail (err f) w h e = cc

module _ {W A B : Type 0} where
  continue-Ends :
      (Mid : A → W → Type 0) (Post : B → W → Type 0) (Fail : W → Type 0) (f : A → Exec W B)
      → ((a : A) → Triple (Mid a) (f a) Post Fail)
      → (r : Result A) (w : W) → Ends Mid Fail r w
      → Ends Post Fail (continue r f w).0 (continue r f w).1
  continue-Ends Mid Post Fail f g (ok a) w h = (g a).ends w h
  continue-Ends Mid Post Fail f g (err e) w h = h

  pub >>=-Triple :
      {Pre : W → Type 0} {Mid : A → W → Type 0} {Post : B → W → Type 0} {Fail : W → Type 0}
      {m : Exec W A} {f : A → Exec W B}
      → Triple Pre m Mid Fail
      → ((a : A) → Triple (Mid a) (f a) Post Fail)
      → Triple Pre (m >>= f) Post Fail
  >>=-Triple {Mid} {Post} {Fail} {m} {f} h g = record {
    ends = λ w p. continue-Ends Mid Post Fail f g (m w).0 (m w).1 (h.ends w p);
  }

-- A weaker state after a result.
Ends-weaken :
    {W A : Type 0} (Post Post' : A → W → Type 0) (Fail Fail' : W → Type 0) (r : Result A) (w : W)
    → ((x : A) → Post x w → Post' x w)
    → (Fail w → Fail' w)
    → Ends Post Fail r w
    → Ends Post' Fail' r w
Ends-weaken Post Post' Fail Fail' (ok x) w h k i = h x i
Ends-weaken Post Post' Fail Fail' (err e) w h k i = k i

pub Triple-weaken :
    {W A : Type 0} {Pre Pre' : W → Type 0} {m : Exec W A} {Post Post' : A → W → Type 0}
    {Fail Fail' : W → Type 0}
    → Triple Pre m Post Fail
    → ((w : W) → Pre' w → Pre w)
    → ((x : A) (w : W) → Post x w → Post' x w)
    → ((w : W) → Fail w → Fail' w)
    → Triple Pre' m Post' Fail'
Triple-weaken {m} {Post} {Post'} {Fail} {Fail'} h pre post fail = record {
  ends = λ w p.
      Ends-weaken Post Post' Fail Fail' (m w).0 (m w).1 (λ x. post x (m w).1) (fail (m w).1)
        (h.ends w (pre w p));
}

Ends-both :
    {W A : Type 0} (B B' : A → W → Type 0) (C C' : W → Type 0) (r : Result A) (w : W)
    → Ends B C r w
    → Ends B' C' r w
    → Ends (λ x v. B x v × B' x v) (λ v. C v × C' v) r w
Ends-both B B' C C' (ok x) w h k = (h, k)
Ends-both B B' C C' (err e) w h k = (h, k)

pub Triple-both :
    {W A : Type 0} {P P' : W → Type 0} {m : Exec W A} {B B' : A → W → Type 0} {C C' : W → Type 0}
    → Triple P m B C
    → Triple P' m B' C'
    → Triple (λ w. P w × P' w) m (λ x w. B x w × B' x w) (λ w. C w × C' w)
Triple-both {m} {B} {B'} {C} {C'} h k = record {
  ends = λ w p. Ends-both B B' C C' (m w).0 (m w).1 (h.ends w p.0) (k.ends w p.1);
}

-- A result and the value that it has.
pub Ends-known :
    {W A : Type 0} (P : W → Type 0) (r : Result A) (w : W)
    → P w
    → Ends (λ x v. P v × (r ≡ ok x)) P r w
Ends-known P (ok x) w h = (h, refl)
Ends-known P (err e) w h = h

-- Whatever the result is, the same holds after it.
pub Ends-always : {W A : Type 0} (P : W → Type 0) (r : Result A) (w : W) → P w → Ends (λ _. P) P r w
Ends-always P (ok x) w h = h
Ends-always P (err e) w h = h

pub if-Triple :
    {W A : Type 0} {P : W → Type 0} {Q : A → W → Type 0} {F : W → Type 0} {m n : Exec W A}
    (b : Bool)
    → Triple P m Q F
    → Triple P n Q F
    → Triple P (if b then m else n) Q F
if-Triple true h k = h
if-Triple false h k = k
