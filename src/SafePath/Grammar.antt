-- ===== src/SafePath/Grammar.antt =====
-- `check_path` decides a grammar: safe parts joined by slashes, all ASCII and not too long.
use freshen.Base.{◌≤◌, ◌<◌, ◌≡◌, refl, sym, subst, ◌≢◌, ◌↔◌, ◌∙◌, ap, true}
use freshen.Base.{List, [], ◌∷◌, ◌++◌, arith, length, All}
use freshen.Base.Bytes.{Bytes, split, join, is_ascii}
use freshen.Base.Bytes.Split.{Free, split-ne-nil, split-Free, join-split, split-join}
use freshen.Base.Outcome.{ok, err, unsafe_path}
use freshen.SafePath.{check_parts, check_path}
use freshen.SafePath.Parts.{IsSafePart, is_bad_part_iff}

pub record IsSafePath (value : Bytes) : Type 0 where
  pub parts : List Bytes
  pub some_part : parts ≢ []
  pub joined : join b'/' parts ≡ value
  pub separated : All (Free b'/') parts
  pub safe : All IsSafePart parts
  pub short : length value ≤ 4096
  pub ascii : All (λ c. c < 128) value

pub check_parts_iff :
    (value : Bytes) (ps : List Bytes) → (check_parts value ps ≡ ok tt) ↔ All IsSafePart ps
unfolding check_parts
check_parts_iff value [] = (λ h. tt, λ h. refl)
check_parts_iff value (p ∷ ps) = ground (arith, is_bad_part_iff p, check_parts_iff value ps)

is_ascii_iff : (s : Bytes) → (is_ascii s ≡ true) ↔ All (λ c. c < 128) s
unfolding is_ascii
is_ascii_iff [] = (λ h. tt, λ h. refl)
is_ascii_iff (c ∷ s) = ground (arith, is_ascii_iff s)

join-ne-nil : (ps : List Bytes) → ps ≢ [] → All IsSafePart ps → join b'/' ps ≢ []
join-ne-nil [] h a = absurd (h refl)
join-ne-nil (p ∷ []) h a = a.0.nonempty
join-ne-nil ([] ∷ q ∷ ps) h a = λ e. cc
join-ne-nil ((c ∷ p) ∷ q ∷ ps) h a = λ e. cc

-- The checks on the whole path, and the loop over its parts.
pub check_path_parts :
    (v : Bytes)
    → check_path v ≡ ok tt
    → (v ≢ []) × (length v ≤ 4096) × All (λ c. c < 128) v × All IsSafePart (split b'/' v)
unfolding check_path
check_path_parts [] h = cc
check_path_parts (c ∷ v) h =
    ground (arith, is_ascii_iff (c ∷ v), check_parts_iff (c ∷ v) (split b'/' (c ∷ v)))

check_path-of_parts :
    (v : Bytes)
    → v ≢ []
    → length v ≤ 4096
    → All (λ c. c < 128) v
    → All IsSafePart (split b'/' v)
    → check_path v ≡ ok tt
unfolding check_path
check_path-of_parts [] n l a s = absurd (n refl)
check_path-of_parts (c ∷ v) n l a s =
    ground (arith, is_ascii_iff (c ∷ v), check_parts_iff (c ∷ v) (split b'/' (c ∷ v)))

IsSafePath-of_check_path : (v : Bytes) → check_path v ≡ ok tt → IsSafePath v
IsSafePath-of_check_path v h =
    let (n, l, a, s) = check_path_parts v h in
    record {
      parts = split b'/' v;
      some_part = split-ne-nil b'/' v;
      joined = join-split b'/' v;
      separated = split-Free b'/' v;
      safe = s;
      short = l;
      ascii = a;
    }

pub parts-eq-split : {v : Bytes} (s : IsSafePath v) → split b'/' v ≡ s.parts
parts-eq-split s = ap (split b'/') (sym s.joined) ∙ split-join b'/' s.parts s.some_part s.separated

check_path-of_IsSafePath : (v : Bytes) → IsSafePath v → check_path v ≡ ok tt
check_path-of_IsSafePath v s =
    check_path-of_parts v (λ e. join-ne-nil s.parts s.some_part s.safe (s.joined ∙ e)) s.short
      s.ascii (subst (All IsSafePart) (sym (parts-eq-split s)) s.safe)

-- `check_path` accepts a text exactly when it is made of one or more safe parts with a slash
-- between any two, no part has a slash in it, every byte is ASCII and there are at most 4096 of
-- them.
pub check_path_iff : (v : Bytes) → (check_path v ≡ ok tt) ↔ IsSafePath v
check_path_iff v = (IsSafePath-of_check_path v, check_path-of_IsSafePath v)

check_parts-error :
    (v : Bytes) (ps : List Bytes)
    → check_parts v ps ≢ ok tt
    → check_parts v ps ≡ err (unsafe_path v)
unfolding check_parts
check_parts-error v [] h = absurd (h refl)
check_parts-error v (p ∷ ps) h = ground (arith, check_parts-error v ps)

check_path-refuses : (v : Bytes) → check_path v ≢ ok tt → check_path v ≡ err (unsafe_path v)
unfolding check_path
check_path-refuses [] h = refl
check_path-refuses (c ∷ v) h = ground (arith, check_parts-error (c ∷ v) (split b'/' (c ∷ v)))

-- A text that is not a safe path is refused with an `UnsafePath` error that names the text itself.
pub check_path-error : (v : Bytes) → ¬ IsSafePath v → check_path v ≡ err (unsafe_path v)
check_path-error v h = check_path-refuses v (λ e. h ((check_path_iff v).0 e))

All-append_iff {κ} :
    (P : Bytes → Type κ) (xs ys : List Bytes) → All P (xs ++ ys) ↔ (All P xs × All P ys)
All-append_iff P [] ys = (λ h. (tt, h), λ h. h.1)
All-append_iff P (x ∷ xs) ys =
    let ih = All-append_iff P xs ys in
    (λ h. ((h.0, (ih.0 h.1).0), (ih.0 h.1).1), λ h. (h.0.0, ih.1 (h.0.1, h.1)))
