-- ===== src/Base/Bytes/Trim.antt =====
-- `str::trim`: whitespace is the Unicode property `White_Space`, in UTF-8.
use Prim.Native.Nat.{ℕ, zero, suc}
use mathlib.Core.Path.{◌≡◌, refl}
use mathlib.Core.Option.{Option, none, some}
use mathlib.Core.List.{List, [], ◌∷◌, ◌++◌, map, reverse, reverse-reverse}
use freshen.Base.Lists.{length}
use freshen.Base.Bytes.{Bytes, strip_prefix}

abbrev one_byte : List Bytes
one_byte = map (λ c. c ∷ []) (9 ∷ 10 ∷ 11 ∷ 12 ∷ 13 ∷ 32 ∷ [])

-- U+0085, U+00A0, U+1680, U+2000 to U+200A, U+2028, U+2029, U+202F, U+205F and U+3000
abbrev pub whitespace : List Bytes
whitespace =
    one_byte
    ++ ((0xc2 ∷ 0x85 ∷ [])
        ∷ (0xc2 ∷ 0xa0 ∷ [])
        ∷ (0xe1 ∷ 0x9a ∷ 0x80 ∷ [])
        ∷ (map (λ c. 0xe2 ∷ 0x80 ∷ c ∷ [])
              (0x80 ∷ 0x81 ∷ 0x82 ∷ 0x83 ∷ 0x84 ∷ 0x85 ∷ 0x86 ∷ 0x87 ∷ 0x88 ∷ 0x89 ∷ 0x8a ∷ 0xa8
                ∷ 0xa9 ∷ 0xaf ∷ [])
            ++ ((0xe2 ∷ 0x81 ∷ 0x9f ∷ []) ∷ (0xe3 ∷ 0x80 ∷ 0x80 ∷ []) ∷ [])))

unfoldable pub strip_any : List Bytes → Bytes → Option Bytes
unfolding strip_prefix
strip_any [] s = none
strip_any (p ∷ ps) s = elim (strip_prefix s p) [ some r ↦ some r | none ↦ strip_any ps s ]

-- Each round takes a byte at least, so the length of the text is enough fuel.
trim_front : List Bytes → ℕ → Bytes → Bytes
unfolding strip_any
trim_front patterns zero s = s
trim_front patterns (suc fuel) s = elim (strip_any patterns s) [
  | none ↦ s
  | some r ↦ trim_front patterns fuel r
]

unfoldable pub trim : Bytes → Bytes
unfolding strip_any trim_front strip_prefix
trim s =
    let t = trim_front whitespace (length s) s in
    reverse (trim_front (map reverse whitespace) (length t) (reverse t))

trim_front_stop :
    (patterns : List Bytes) (fuel : ℕ) (s : Bytes)
    → strip_any patterns s ≡ none
    → trim_front patterns fuel s ≡ s
unfolding trim_front
trim_front_stop patterns zero s h = refl
trim_front_stop patterns (suc fuel) s h = rw (trim_front, h) refl

-- A text with no white space at its ends stays.
pub trim_stop :
    (s : Bytes)
    → strip_any whitespace s ≡ none
    → strip_any (map reverse whitespace) (reverse s) ≡ none
    → trim s ≡ s
unfolding trim
trim_stop s h k =
    rw (trim_front_stop whitespace (length s) s h)
      (rw (trim_front_stop (map reverse whitespace) (length s) (reverse s) k) (reverse-reverse s))
