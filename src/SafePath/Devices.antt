-- ===== src/SafePath/Devices.antt =====
-- The device names that `check_path` rejects, as a list with numbered names.
use freshen.Base.{ℕ, ◌≤◌, ◌≡◌, subst, ◌↔◌, ◌⊎◌, inl, inr, true, ◌||◌}
use freshen.Base.{
  List, [], ◌∷◌, ◌++◌, arith, length, get_or, contains, contains_iff, Member, Bool-cases,
}
use freshen.Base.{nat_eq, list_eq, list_beq}
use freshen.Base.Bytes.{Bytes, text, starts_with}
use freshen.SafePath.{is_device}

abbrev pub plain_names : List Bytes
plain_names = text "CON" ∷ text "PRN" ∷ text "AUX" ∷ text "NUL" ∷ []

abbrev pub numbered_names : ℕ → List Bytes
numbered_names d = (text "COM" ++ d ∷ []) ∷ (text "LPT" ++ d ∷ []) ∷ []

-- CON, PRN, AUX, NUL, COM1 to COM9 and LPT1 to LPT9.
abbrev pub IsDevice : Bytes → Type 0
IsDevice s =
    Member s plain_names ⊎ ((d : ℕ) × (b'1' ≤ d) × (d ≤ b'9') × Member s (numbered_names d))

is_device-of_numbered :
    (d : ℕ) (s : Bytes) → b'1' ≤ d → d ≤ b'9' → Member s (numbered_names d) → is_device s ≡ true
unfolding is_device text starts_with contains list_beq
is_device-of_numbered d s l u (inl e) = subst (λ s. is_device s ≡ true) e (ground arith)
is_device-of_numbered d s l u (inr (inl e)) = subst (λ s. is_device s ≡ true) e (ground arith)
is_device-of_numbered d s l u (inr (inr x)) = absurd x

is_device-of_plain : (s : Bytes) → Member s plain_names → is_device s ≡ true
unfolding is_device
is_device-of_plain s m = rw ((contains_iff plain_names s).1 m)

numbered-of_prefix :
    (s : Bytes)
    → length s ≡ 4
    → (starts_with s (text "COM") || starts_with s (text "LPT")) ≡ true
    → Member s (numbered_names (get_or s 3 0))
unfolding text starts_with
numbered-of_prefix (a ∷ b ∷ c ∷ d ∷ []) l p = ground arith
numbered-of_prefix _ l p = absurd (omega arith)

IsDevice-of_is_device : (s : Bytes) → is_device s ≡ true → IsDevice s
unfolding is_device
IsDevice-of_is_device s h = elim (Bool-cases (contains plain_names s)) [
  | inl t ↦ inl ((contains_iff plain_names s).0 t)
  | inr f ↦
      inr (
        get_or s 3 0,
        ground arith,
        ground arith,
        numbered-of_prefix s (ground arith) (ground arith),
      )
]

is_device-of_IsDevice : (s : Bytes) → IsDevice s → is_device s ≡ true
is_device-of_IsDevice s (inl m) = is_device-of_plain s m
is_device-of_IsDevice s (inr (d, l, u, m)) = is_device-of_numbered d s l u m

pub is_device_iff : (s : Bytes) → (is_device s ≡ true) ↔ IsDevice s
is_device_iff s = (IsDevice-of_is_device s, is_device-of_IsDevice s)
