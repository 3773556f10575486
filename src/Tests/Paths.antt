-- ===== src/Tests/Paths.antt =====
-- Paths.
use freshen.Base.{◌≡◌, refl, sym, ◌∙◌, ◌↔◌, [], ◌∷◌, ◌++◌, any, all, contains, list_beq}
use freshen.Base.Bytes.{text, split, starts_with, upper, lower, is_ascii}
use freshen.Base.Outcome.{ok, err, unsafe_path}
use freshen.SafePath.{check_path, is_bad_part, is_device, is_bad_byte, stem}
use freshen.SafePath.Grammar.{IsSafePath, check_path_iff, check_path-error}
use freshen.SafePath.Confined.{components, descend, check_path-descends}
use mathlib.Core.List.{reverse}

accepted : check_path (text "sounds/die4.opus") ≡ ok tt
unfolding check_path is_bad_part stem is_bad_byte is_device any all contains list_beq split
    starts_with upper lower is_ascii text
accepted = refl

refused :
    (check_path (text "a/../b") ≡ err (unsafe_path (text "a/../b")))
    × (check_path (text "lib/com1.txt") ≡ err (unsafe_path (text "lib/com1.txt")))
    × (check_path (text "/etc") ≡ err (unsafe_path (text "/etc")))
    × (check_path (text "c:x") ≡ err (unsafe_path (text "c:x")))
unfolding accepted
refused = (refl, refl, refl, refl)

check_path_iff_example :
    (check_path (text "sounds/die4.opus") ≡ ok tt) ↔ IsSafePath (text "sounds/die4.opus")
check_path_iff_example = check_path_iff (text "sounds/die4.opus")

check_path-descends_example :
    (components (text "sounds/die4.opus") ≡ split b'/' (text "sounds/die4.opus"))
    × (descend (text "root" ∷ []) (components (text "sounds/die4.opus"))
        ≡ reverse (split b'/' (text "sounds/die4.opus")) ++ text "root" ∷ [])
check_path-descends_example =
    check_path-descends (text "sounds/die4.opus") (text "root" ∷ []) accepted

climbs : ¬ IsSafePath (text "a/../b")
climbs s = cc (sym refused.0 ∙ (check_path_iff (text "a/../b")).1 s)

check_path-error_example : check_path (text "a/../b") ≡ err (unsafe_path (text "a/../b"))
check_path-error_example = check_path-error (text "a/../b") climbs
