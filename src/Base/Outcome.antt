-- ===== src/Base/Outcome.antt =====
-- `Error` and `Result` of src/error.rs, with the `?` operator as `>>=`.
use mathlib.Core.Path.{◌≡◌, refl}
use mathlib.Core.Logic.{◌⊎◌, inl, inr}
use mathlib.Core.Bool.{Bool, true, false}
use mathlib.Core.Option.{Option, none, some}
use freshen.Base.Bytes.{Bytes}

-- The transparent variants carry errors of other crates; `denied` is an I/O error of kind
-- `PermissionDenied` or `WouldBlock`, `not_found` one of kind `NotFound`.
pub data IoKind : Type 0 where
  not_found denied other : IoKind

pub data Error : Type 0 where
  cancelled signature size_limit busy : Error
  invalid : Bytes → Error
  unsafe_path : Bytes → Error
  hash_mismatch : Bytes → Error
  helper : Bytes → Error
  recovery : Bytes → Error
  io : IoKind → Error
  json http zip : Error

pub data Result {ℓ} (A : Type ℓ) : Type ℓ where
  ok : A → Result A
  err : Error → Result A

module _ {ℓ κ} {A : Type ℓ} {B : Type κ} where
  infixl 5 ◌>>=◌
  abbrev pub ◌>>=◌ : Result A → (A → Result B) → Result B
  err e >>= next = err e
  ok x >>= next = next x

module _ {ℓ} {B : Type ℓ} where
  infixl 5 ◌>>◌
  abbrev pub ◌>>◌ : Result (Unit {0}) → Result B → Result B
  m >> k = m >>= λ _. k

-- `if bad { return Err(e) }`
abbrev pub reject_if : Bool → Error → Result (Unit {0})
reject_if true e = err e
reject_if false e = ok tt

-- `option.ok_or(e)?`
abbrev pub ok_or {ℓ} : {A : Type ℓ} → Option A → Error → Result A
ok_or none e = err e
ok_or (some a) e = ok a

-- Inversion of a successful `?`.
pub >>=-eq-ok {ℓ κ} :
    {A : Type ℓ} {B : Type κ} (r : Result A) (next : A → Result B) {y : B}
    → (r >>= next) ≡ ok y
    → (x : A) × (r ≡ ok x) × (next x ≡ ok y)
>>=-eq-ok (err e) next h = cc
>>=-eq-ok (ok x) next h = (x, refl, h)

pub ok-injective {ℓ} : {A : Type ℓ} {x y : A} → ok x ≡ ok y → x ≡ y
ok-injective h = cc

pub reject_if-eq-ok : (b : Bool) (e : Error) {u : Unit {0}} → reject_if b e ≡ ok u → b ≡ false
reject_if-eq-ok true e h = cc
reject_if-eq-ok false e h = refl

pub Result-cases {ℓ} :
    {A : Type ℓ} (r : Result A) → ((a : A) × (r ≡ ok a)) ⊎ ((e : Error) × (r ≡ err e))
Result-cases (ok a) = inl (a, refl)
Result-cases (err e) = inr (e, refl)

-- Inversion of a guard that let the code go on.
pub reject_if-bind {ℓ} :
    {B : Type ℓ} (b : Bool) (e : Error) (m : Result B) {x : B}
    → (reject_if b e >> m) ≡ ok x
    → (b ≡ false) × (m ≡ ok x)
reject_if-bind true e m h = cc
reject_if-bind false e m h = (refl, h)

pub ok_or-inverse {ℓ} :
    {A : Type ℓ} (o : Option A) (e : Error) {x : A} → ok_or o e ≡ ok x → o ≡ some x
ok_or-inverse none e h = cc
ok_or-inverse (some a) e h = cc
