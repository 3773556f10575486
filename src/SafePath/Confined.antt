-- ===== src/SafePath/Confined.antt =====
-- An accepted path stays below the directory that it is joined to, on every platform.
use freshen.Base.{ℕ, ◌≡◌, refl, ap, inl, inr, false, ◌||◌}
use freshen.Base.{List, [], ◌∷◌, ◌++◌, arith, All, Bool-cases}
use mathlib.Core.List.{reverse, reverse-cons, append_assoc, tail}
use freshen.Base.{◌==◌, nat_eq, list_eq, list_beq_iff, if◌then◌else◌}
use freshen.Base.Bytes.{Bytes, text, split, push_front}
use freshen.Base.Outcome.{ok}
use freshen.SafePath.{check_path}
use freshen.SafePath.Parts.{IsSafePart, IsSafeByte}
use freshen.SafePath.Grammar.{check_path_parts}

-- The components of a path where both `/` and the backslash separate, as on Windows.
pub components : Bytes → List Bytes
components [] = [] ∷ []
components (c ∷ s) =
    let rest = components s in if c == b'/' || c == 92 then [] ∷ rest else push_front c rest

-- How an operating system follows a component from a directory, given as its names, deepest
-- first: an empty name and `.` stay, `..` goes up, any other name goes down.
pub follow : List Bytes → Bytes → List Bytes
follow at p = if p == [] || p == text "." then at else if p == text ".." then tail at else p ∷ at

pub descend : List Bytes → List Bytes → List Bytes
descend at [] = at
descend at (p ∷ ps) = descend (follow at p) ps

follow-safe : (at : List Bytes) (p : Bytes) → IsSafePart p → follow at p ≡ p ∷ at
unfolding follow
follow-safe at p s = ground (
  arith,
  list_beq_iff p [],
  list_beq_iff p (text "."),
  list_beq_iff p (text ".."),
  s.nonempty,
  s.not_here,
  s.not_parent,
)

descend-safe : (at ps : List Bytes) → All IsSafePart ps → descend at ps ≡ reverse ps ++ at
unfolding descend
descend-safe at [] a = refl
descend-safe at (p ∷ ps) a =
    rw (follow-safe at p a.0, descend-safe (p ∷ at) ps a.1) (simp (reverse-cons, append_assoc))

safe-push_front :
    (c : ℕ) (ps : List Bytes)
    → All (All IsSafeByte) (push_front c ps)
    → IsSafeByte c × All (All IsSafeByte) ps
safe-push_front c [] a = (a.0.0, tt)
safe-push_front c (p ∷ ps) a = (a.0.0, (a.0.1, a.1))

not-backslash : (c : ℕ) → IsSafeByte c → (c == 92) ≡ false
not-backslash c h = ground (arith, nat_eq.beq_iff c 92, λ (e : 92 ≡ c). h.1 (inl e))

components-safe : (v : Bytes) → All (All IsSafeByte) (split b'/' v) → components v ≡ split b'/' v
unfolding components split
components-safe [] a = refl
components-safe (c ∷ v) a = elim (Bool-cases (c == b'/')) [
  | inl t ↦ rw t (ap (λ r. [] ∷ r) (components-safe v (rw t at a).1))
  | inr f ↦
      let b = safe-push_front c (split b'/' v) (rw f at a) in
      rw (f, not-backslash c b.0, components-safe v b.1)
]

bytes-of_safe : (ps : List Bytes) → All IsSafePart ps → All (All IsSafeByte) ps
bytes-of_safe [] a = tt
bytes-of_safe (p ∷ ps) a = (a.0.bytes, bytes-of_safe ps a.1)

-- An accepted path has the same components whether or not the backslash separates, and following
-- them from any directory goes down through exactly those names: it never leaves the directory.
pub check_path-descends :
    (v : Bytes) (at : List Bytes)
    → check_path v ≡ ok tt
    → (components v ≡ split b'/' v) × (descend at (components v) ≡ reverse (split b'/' v) ++ at)
check_path-descends v at h =
    let (n, l, a, s) = check_path_parts v h in
    let e = components-safe v (bytes-of_safe (split b'/' v) s) in
    (e, rw e (descend-safe at (split b'/' v) s))
