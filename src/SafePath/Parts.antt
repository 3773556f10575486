-- ===== src/SafePath/Parts.antt =====
-- What `check_path` accepts as one part of a path, described without its tests.
use freshen.Base.{ℕ, ◌≤◌, ◌≡◌, refl, ◌≢◌, ◌↔◌, false}
use freshen.Base.{[], ◌∷◌, arith, length, is_empty, any, All, Member}
use freshen.Base.{contains_iff, ◌==◌, nat_eq, list_eq, list_beq_iff}
use freshen.Base.Bytes.{Bytes, text, to_ascii_lowercase, last_byte}
use freshen.SafePath.{is_bad_byte, is_bad_part, reserved, stem}
use freshen.SafePath.Devices.{IsDevice, is_device_iff}

abbrev pub IsSafeByte : ℕ → Type 0
IsSafeByte c = (32 ≤ c) × (¬ Member c reserved)

pub record IsSafePart (p : Bytes) : Type 0 where
  pub nonempty : p ≢ []
  pub not_here : p ≢ text "."
  pub not_parent : p ≢ text ".."
  pub short : length p ≤ 255
  pub no_final_dot : last_byte p ≢ b'.'
  pub no_final_space : last_byte p ≢ b' '
  pub not_internal : to_ascii_lowercase p ≢ to_ascii_lowercase (text ".freshen")
  pub bytes : All IsSafeByte p
  pub not_device : ¬ IsDevice (stem p)

is_bad_byte_iff : (c : ℕ) → (is_bad_byte c ≡ false) ↔ IsSafeByte c
unfolding is_bad_byte
is_bad_byte_iff c = ground (arith, contains_iff reserved c)

any-is_bad_byte_iff : (p : Bytes) → (any is_bad_byte p ≡ false) ↔ All IsSafeByte p
unfolding any
any-is_bad_byte_iff [] = (λ h. tt, λ h. refl)
any-is_bad_byte_iff (c ∷ p) = ground (arith, is_bad_byte_iff c, any-is_bad_byte_iff p)

beq-false_iff : (a b : Bytes) → ((a == b) ≡ false) ↔ (a ≢ b)
beq-false_iff a b = ground (arith, list_beq_iff a b)

is_empty-false_iff : (a : Bytes) → (is_empty a ≡ false) ↔ (a ≢ [])
is_empty-false_iff [] = (λ h. cc, λ h. absurd (h refl))
is_empty-false_iff (c ∷ a) = (λ h e. cc, λ h. refl)

pub is_bad_part_iff : (p : Bytes) → (is_bad_part p ≡ false) ↔ IsSafePart p
unfolding is_bad_part
is_bad_part_iff p = ground (
  arith,
  is_empty-false_iff p,
  beq-false_iff p (text "."),
  beq-false_iff p (text ".."),
  beq-false_iff (to_ascii_lowercase p) (to_ascii_lowercase (text ".freshen")),
  any-is_bad_byte_iff p,
  is_device_iff (stem p),
)
