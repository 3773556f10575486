-- ===== src/Base/Bytes/Utf8.antt =====
-- `String::from_utf8`: which byte strings are UTF-8.
use Prim.Native.Nat.{ℕ}
use mathlib.Core.Bool.{Bool, true, false, ◌&&◌}
use mathlib.Core.Option.{Option, none, some}
use mathlib.Core.List.{List, [], ◌∷◌}
use freshen.Base.Tests.{ltb, leb, if◌then◌else◌}
use freshen.Base.Sets.{◌==◌, nat_eq}
use freshen.Base.Bytes.{Bytes}

pub within : ℕ → ℕ → ℕ → Bool
within lo hi c = leb lo c && leb c hi

abbrev Range : Type 0
Range = ℕ × ℕ

abbrev tail : Range
tail = (0x80, 0xbf)

-- The ranges of the bytes that must follow a leading byte.
following : ℕ → Option (List Range)
following c =
    if ltb c 0x80
    then some []
    else if within 0xc2 0xdf c
    then some (tail ∷ [])
    else if c == 0xe0
    then some ((0xa0, 0xbf) ∷ tail ∷ [])
    else if c == 0xed
    then some ((0x80, 0x9f) ∷ tail ∷ [])
    else if within 0xe1 0xef c
    then some (tail ∷ tail ∷ [])
    else if c == 0xf0
    then some ((0x90, 0xbf) ∷ tail ∷ tail ∷ [])
    else if within 0xf1 0xf3 c
    then some (tail ∷ tail ∷ tail ∷ [])
    else if c == 0xf4
    then some ((0x80, 0x8f) ∷ tail ∷ tail ∷ [])
    else none

utf8_from : List Range → Bytes → Bool
utf8_from [] [] = true
utf8_from (r ∷ rs) [] = false
utf8_from [] (c ∷ s) = elim (following c) [ none ↦ false | some rs ↦ utf8_from rs s ]
utf8_from ((lo, hi) ∷ rs) (c ∷ s) = within lo hi c && utf8_from rs s

unfoldable pub is_utf8 : Bytes → Bool
unfolding utf8_from following within
is_utf8 = utf8_from []
