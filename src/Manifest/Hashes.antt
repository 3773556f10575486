-- ===== src/Manifest/Hashes.antt =====
-- `check_hash` accepts exactly the 64-digit hexadecimal texts.
use freshen.Base.{◌≤◌, ◌≡◌, refl, ◌↔◌, ◌⊎◌, ℕ, true, [], ◌∷◌, arith, length, all, All}
use freshen.Base.{nat_eq}
use freshen.Base.Bytes.{Bytes, is_ascii_hexdigit}
use freshen.Base.Outcome.{ok}
use freshen.Manifest.{check_hash}

abbrev pub IsHexDigit : ℕ → Type 0
IsHexDigit c = ((b'0' ≤ c) × (c ≤ b'9')) ⊎ ((b'a' ≤ c) × (c ≤ b'f')) ⊎ ((b'A' ≤ c) × (c ≤ b'F'))

pub record IsHash (s : Bytes) : Type 0 where
  pub digits : length s ≡ 64
  pub hexadecimal : All IsHexDigit s

pub all-hexdigit_iff : (s : Bytes) → (all is_ascii_hexdigit s ≡ true) ↔ All IsHexDigit s
unfolding all is_ascii_hexdigit
all-hexdigit_iff [] = (λ h. tt, λ h. refl)
all-hexdigit_iff (c ∷ s) = ground (arith, all-hexdigit_iff s)

pub check_hash_iff : (s : Bytes) → (check_hash s ≡ ok tt) ↔ IsHash s
unfolding check_hash
check_hash_iff s = ground (arith, all-hexdigit_iff s)
