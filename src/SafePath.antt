-- ===== src/SafePath.antt =====
-- `check_path` of src/manifest.rs: the grammar of package paths, one for all platforms.
pub mod Devices
pub mod Parts
pub mod Grammar
pub mod Confined
use freshen.Base.{ℕ, Bool, true, false, not, ◌&&◌, ◌||◌, List, [], ◌∷◌, length, get_or, is_empty}
use freshen.Base.{ltb, leb, any, contains, ◌==◌, nat_eq, list_eq, if◌then◌else◌}
use freshen.Base.Bytes.{Bytes, text, split, to_ascii_uppercase, eq_ignore_ascii_case, is_ascii}
use freshen.Base.Bytes.{last_byte, starts_with}
use freshen.Base.Outcome.{Result, ok, err, unsafe_path}

-- `\ : < > " | ? *`
abbrev pub reserved : Bytes
reserved = 92 ∷ 58 ∷ 60 ∷ 62 ∷ 34 ∷ 124 ∷ 63 ∷ 42 ∷ []

abbrev pub first_or_empty : List Bytes → Bytes
first_or_empty [] = []
first_or_empty (p ∷ ps) = p

-- The text before the first dot, in upper case.
unfoldable pub stem : Bytes → Bytes
stem part = to_ascii_uppercase (first_or_empty (split b'.' part))

-- The Windows device names.
unfoldable pub is_device : Bytes → Bool
is_device s =
    contains (text "CON" ∷ text "PRN" ∷ text "AUX" ∷ text "NUL" ∷ []) s
    || (length s == 4
        && (starts_with s (text "COM") || starts_with s (text "LPT"))
        && (leb b'1' (get_or s 3 0) && leb (get_or s 3 0) b'9'))

unfoldable pub is_bad_byte : ℕ → Bool
is_bad_byte c = ltb c 32 || contains reserved c

unfoldable pub is_bad_part : Bytes → Bool
is_bad_part part =
    is_empty part
    || part == text "."
    || part == text ".."
    || ltb 255 (length part)
    || (last_byte part == b'.' || last_byte part == b' ')
    || eq_ignore_ascii_case part (text ".freshen")
    || any is_bad_byte part
    || is_device (stem part)

-- The loop over the parts of `value`.
unfoldable pub check_parts : Bytes → List Bytes → Result (Unit {0})
check_parts value [] = ok tt
check_parts value (part ∷ parts) =
    if is_bad_part part then err (unsafe_path value) else check_parts value parts

unfoldable pub check_path : Bytes → Result (Unit {0})
unfolding check_parts
check_path value =
    if is_empty value || ltb 4096 (length value) || not (is_ascii value)
    then err (unsafe_path value)
    else check_parts value (split b'/' value)
