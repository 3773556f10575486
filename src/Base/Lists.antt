-- ===== src/Base/Lists.antt =====
-- Lists measured and indexed by native numbers, and predicates on lists by recursion.
use Prim.Native.Nat.{ℕ, zero, suc, ◌+◌}
use mathlib.Core.Path.{◌≡◌, refl, ap, subst}
use mathlib.Core.Logic.{◌↔◌, ◌⊎◌, inl, inr}
use mathlib.Core.Bool.{Bool, true, false, ◌&&◌, ◌||◌}
use mathlib.Core.Option.{Option, none, some}
use mathlib.Core.List.{List, [], ◌∷◌, ◌++◌}
use native.Mathlib.Omega.{arith}
use freshen.Base.Tests.{if◌then◌else◌, Bool-cases}

module _ {ℓ} {A : Type ℓ} where
  abbrev pub length : List A → ℕ
  length [] = 0
  length (x ∷ xs) = suc (length xs)

  abbrev pub get_or : List A → ℕ → A → A
  get_or [] i d = d
  get_or (x ∷ xs) zero d = x
  get_or (x ∷ xs) (suc i) d = get_or xs i d

  abbrev pub is_empty : List A → Bool
  is_empty [] = true
  is_empty (x ∷ xs) = false

  unfoldable pub all : (A → Bool) → List A → Bool
  all p [] = true
  all p (x ∷ xs) = p x && all p xs

  unfoldable pub any : (A → Bool) → List A → Bool
  any p [] = false
  any p (x ∷ xs) = p x || any p xs

  unfoldable pub find : (A → Bool) → List A → Option A
  find p [] = none
  find p (x ∷ xs) = if p x then some x else find p xs

  pub length-append : (xs ys : List A) → length (xs ++ ys) ≡ length xs + length ys
  length-append [] ys = omega arith
  length-append (x ∷ xs) ys = omega (arith, length-append xs ys)

-- Predicates by recursion.
abbrev pub All {ℓ κ} : {A : Type ℓ} → (A → Type κ) → List A → Type κ
All P [] = Unit
All P (x ∷ xs) = P x × All P xs

module _ {A : Type 0} where
  abbrev pub Member : A → List A → Type 0
  Member a [] = ⊥
  Member a (x ∷ xs) = (x ≡ a) ⊎ Member a xs

  abbrev pub NoRepeat : List A → Type 0
  NoRepeat [] = Unit
  NoRepeat (x ∷ xs) = (¬ Member x xs) × NoRepeat xs

  pub find-eq-some :
      (p : A → Bool) (xs : List A) {a : A} → find p xs ≡ some a → Member a xs × (p a ≡ true)
  unfolding find
  find-eq-some p [] h = cc
  find-eq-some p (x ∷ xs) {a} h = ground (arith, find-eq-some p xs {a = a})

  pub All-Member {κ} : (P : A → Type κ) (xs : List A) {a : A} → All P xs → Member a xs → P a
  All-Member P [] h m = absurd m
  All-Member P (x ∷ xs) h (inl e) = subst P e h.0
  All-Member P (x ∷ xs) h (inr m) = All-Member P xs h.1 m

  pub All-of {κ} : (P : A → Type κ) (xs : List A) → ((a : A) → Member a xs → P a) → All P xs
  All-of P [] h = tt
  All-of P (x ∷ xs) h = (h x (inl refl), All-of P xs (λ a m. h a (inr m)))

  any-true : (p : A → Bool) (xs : List A) → any p xs ≡ true → (a : A) × Member a xs × (p a ≡ true)
  unfolding any
  any-true p [] h = cc
  any-true p (x ∷ xs) h = elim (Bool-cases (p x)) [
    | inl t ↦ (x, inl refl, t)
    | inr f ↦ let (a, m, t) = any-true p xs (ground arith) in (a, inr m, t)
  ]

  any-of_Member : (p : A → Bool) (xs : List A) (a : A) → Member a xs → p a ≡ true → any p xs ≡ true
  unfolding any
  any-of_Member p (x ∷ xs) a (inl e) h = let e' = ap p e in ground arith
  any-of_Member p (x ∷ xs) a (inr m) h = ground (arith, any-of_Member p xs a m h)
  any-of_Member p [] a m h = absurd m

  pub any_iff :
      (p : A → Bool) (xs : List A) → (any p xs ≡ true) ↔ ((a : A) × Member a xs × (p a ≡ true))
  any_iff p xs = (any-true p xs, λ h. any-of_Member p xs h.0 h.1 h.2)

  pub all_iff : (p : A → Bool) (xs : List A) → (all p xs ≡ true) ↔ All (λ a. p a ≡ true) xs
  unfolding all
  all_iff p [] = (λ h. tt, λ h. refl)
  all_iff p (x ∷ xs) = ground (arith, all_iff p xs)

-- What a loop that keeps a set of the elements seen so far finds: no element is seen twice.
module _ {A : Type 0} where
  abbrev pub Fresh : List A → List A → Type 0
  Fresh seen [] = Unit
  Fresh seen (x ∷ xs) = (¬ Member x seen) × Fresh (x ∷ seen) xs

  Absent : List A → List A → Type 0
  Absent seen = All (λ x. ¬ Member x seen)

  Absent-cons :
      (y : A) (seen xs : List A) → Absent (y ∷ seen) xs ↔ ((¬ Member y xs) × Absent seen xs)
  unfolding Absent
  Absent-cons y seen [] = (λ h. (λ m. m, tt), λ h. tt)
  Absent-cons y seen (x ∷ xs) = ground (arith, Absent-cons y seen xs)

  Absent-nil : (xs : List A) → Absent [] xs
  unfolding Absent
  Absent-nil [] = tt
  Absent-nil (x ∷ xs) = (λ m. m, Absent-nil xs)

  Fresh-iff : (seen xs : List A) → Fresh seen xs ↔ (NoRepeat xs × Absent seen xs)
  unfolding Absent
  Fresh-iff seen [] = (λ h. (tt, tt), λ h. tt)
  Fresh-iff seen (x ∷ xs) =
      let ih = Fresh-iff (x ∷ seen) xs in
      let split = Absent-cons x seen xs in
      (
        λ h. let (u, a) = ih.0 h.1 in let (n, a') = split.0 a in ((n, u), (h.0, a')),
        λ h. (h.1.0, ih.1 (h.0.1, split.1 (h.0.0, h.1.1))),
      )

  pub Fresh-NoRepeat : (xs : List A) → Fresh [] xs ↔ NoRepeat xs
  Fresh-NoRepeat xs = (λ h. ((Fresh-iff [] xs).0 h).0, λ h. (Fresh-iff [] xs).1 (h, Absent-nil xs))
