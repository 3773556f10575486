-- ===== src/Base/Bytes/Prefix.antt =====
-- `strip_prefix` and `starts_with` by concatenation.
use mathlib.Core.Path.{◌≡◌, refl}
use mathlib.Core.Logic.{◌↔◌, inl, inr}
use mathlib.Core.Bool.{true}
use mathlib.Core.Option.{some}
use mathlib.Core.List.{[], ◌∷◌, ◌++◌}
use native.Mathlib.Omega.{arith}
use freshen.Base.Tests.{Option-cases}
use freshen.Base.Sets.{nat_eq, ==_refl}
use freshen.Base.Bytes.{Bytes, strip_prefix, starts_with}

pub strip_prefix-inverse : (s p : Bytes) {r : Bytes} → strip_prefix s p ≡ some r → s ≡ p ++ r
unfolding strip_prefix
strip_prefix-inverse s [] h = ground arith
strip_prefix-inverse [] (d ∷ p) h = cc
strip_prefix-inverse (c ∷ s) (d ∷ p) {r} h =
    ground (arith, nat_eq.beq_iff c d, strip_prefix-inverse s p {r = r})

pub strip_prefix-append : (p r : Bytes) → strip_prefix (p ++ r) p ≡ some r
unfolding strip_prefix
strip_prefix-append [] r = refl
strip_prefix-append (c ∷ p) r = rw (==_refl c) (strip_prefix-append p r)

starts_with-inverse : (s p : Bytes) → starts_with s p ≡ true → (r : Bytes) × (s ≡ p ++ r)
unfolding starts_with
starts_with-inverse s p h = elim (Option-cases (strip_prefix s p)) [
  | inl e ↦ ground arith
  | inr (r, e) ↦ (r, strip_prefix-inverse s p e)
]

starts_with-append : (p r : Bytes) → starts_with (p ++ r) p ≡ true
unfolding starts_with
starts_with-append p r = rw (strip_prefix-append p r, starts_with)

pub starts_with_iff : (s p : Bytes) → (starts_with s p ≡ true) ↔ ((r : Bytes) × (s ≡ p ++ r))
starts_with_iff s p = (starts_with-inverse s p, λ h. rw h.1 (starts_with-append p h.0))
