-- ===== src/Base/Bytes.antt =====
-- Texts and byte strings as lists of bytes, with the functions of `str` that the program calls.
-- A Rust `String` is its UTF-8 bytes; the ASCII functions leave bytes above 127 alone.
pub mod Split
pub mod Trim
pub mod Utf8
pub mod Prefix
use Prim.Native.Nat.{ℕ, zero, suc, ◌+◌, ◌-◌, ◌≤◌, ◌<◌}
use Prim.Native.Char.{code}
use Prim.Native.String.{String}
use mathlib.Core.Path.{◌≡◌, refl, ap}
use mathlib.Core.Logic.{◌≢◌, ◌↔◌, ◌⊎◌, inl, inr}
use mathlib.Core.Bool.{Bool, true, false, not, ◌&&◌, ◌||◌}
use mathlib.Core.Option.{Option, none, some}
use mathlib.Core.List.{List, [], ◌∷◌, ◌++◌, map, reverse}
use native.Mathlib.Omega.{arith}
use freshen.Base.Tests.{ltb, leb, if◌then◌else◌, Bool-cases}
use freshen.Base.Lists.{length, all}
use freshen.Base.Sets.{Eq, ◌==◌, nat_eq, list_eq}

abbrev pub Bytes : Type 0
Bytes = List ℕ

-- The bytes of an ASCII literal. It is shut, so that messages stay short in proofs.
unfoldable pub text : String → Bytes
text String.[] = []
text (String.◌∷◌ c s) = code c ∷ text s

pub is_upper : ℕ → Bool
is_upper c = leb b'A' c && leb c b'Z'

pub is_lower : ℕ → Bool
is_lower c = leb b'a' c && leb c b'z'

unfoldable pub lower : ℕ → ℕ
unfolding is_upper
lower c = if is_upper c then c + 32 else c

unfoldable pub upper : ℕ → ℕ
unfolding is_lower
upper c = if is_lower c then c - 32 else c

unfoldable pub is_ascii_hexdigit : ℕ → Bool
is_ascii_hexdigit c =
    (leb b'0' c && leb c b'9') || (leb b'a' c && leb c b'f') || (leb b'A' c && leb c b'F')

unfoldable pub is_ascii_alphanumeric : ℕ → Bool
unfolding is_upper is_lower
is_ascii_alphanumeric c = (leb b'0' c && leb c b'9') || is_lower c || is_upper c

unfoldable pub is_ascii : Bytes → Bool
unfolding all
is_ascii = all (λ c. ltb c 128)

abbrev pub to_ascii_lowercase : Bytes → Bytes
to_ascii_lowercase = map lower

abbrev pub to_ascii_uppercase : Bytes → Bytes
to_ascii_uppercase = map upper

-- `a.eq_ignore_ascii_case(b)`
abbrev pub eq_ignore_ascii_case : Bytes → Bytes → Bool
eq_ignore_ascii_case a b = to_ascii_lowercase a == to_ascii_lowercase b

-- `s.strip_prefix(p)`
unfoldable pub strip_prefix : Bytes → Bytes → Option Bytes
strip_prefix s [] = some s
strip_prefix [] (d ∷ p) = none
strip_prefix (c ∷ s) (d ∷ p) = if c == d then strip_prefix s p else none

-- `s.starts_with(p)`
unfoldable pub starts_with : Bytes → Bytes → Bool
unfolding strip_prefix
starts_with s p = elim (strip_prefix s p) [ none ↦ false | some r ↦ true ]

-- `s.ends_with(p)`
unfoldable pub ends_with : Bytes → Bytes → Bool
unfolding starts_with
ends_with s p = starts_with (reverse s) (reverse p)

-- `s.bytes().next_back()`, 0 for an empty text.
abbrev pub last_byte : Bytes → ℕ
last_byte [] = 0
last_byte (c ∷ []) = c
last_byte (c ∷ d ∷ s) = last_byte (d ∷ s)

abbrev pub push_front : ℕ → List Bytes → List Bytes
push_front c [] = (c ∷ []) ∷ []
push_front c (p ∷ ps) = (c ∷ p) ∷ ps

-- `s.split(sep)`: the parts between separators, at least one.
unfoldable pub split : ℕ → Bytes → List Bytes
split sep [] = [] ∷ []
split sep (c ∷ s) = let rest = split sep s in if c == sep then [] ∷ rest else push_front c rest

-- `s.rsplit_once(sep)`: what stands before and behind the last separator.
unfoldable pub rsplit_once : ℕ → Bytes → Option (Bytes × Bytes)
rsplit_once sep [] = none
rsplit_once sep (c ∷ s) = elim (rsplit_once sep s) [
  | some (a, b) ↦ some (c ∷ a, b)
  | none ↦ if c == sep then some ([], s) else none
]

-- The parts joined by the separator.
abbrev pub join : ℕ → List Bytes → Bytes
join sep [] = []
join sep (p ∷ []) = p
join sep (p ∷ q ∷ ps) = p ++ (sep ∷ join sep (q ∷ ps))
