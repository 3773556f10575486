-- ===== src/Release/Merged.antt =====
-- What the command `merge` of src/bin/release.rs writes.
use freshen.Base.{
  ◌≡◌, refl, sym, ap, ◌∙◌, Bool, true, false, not, ◌||◌, List, [], ◌∷◌, ◌++◌, some, ◌==◌, list_eq,
  nat_eq,
}
use mathlib.Core.List.{append_assoc, append-nil}
use freshen.Base.Bytes.{Bytes}
use freshen.Base.Outcome.{ok, json, reject_if, ok_or, reject_if-eq-ok, ok_or-inverse}
use freshen.Base.Triples.{Triple, Triple-weaken, >>=-Triple, Ends-ok}
use freshen.Base.Facts.{lift-Knows, step-Knows}
use freshen.Crates.{Crates, Manifest, Package}
use freshen.Manifest.{validate}
use freshen.Manifest.Valid.{IsValidManifest, validate_iff}
use freshen.Release.{Tools, Desk, find_file}
use freshen.Release.Merge.{load_manifest, differs, extend, merge_rest, merge}
use freshen.Release.Files.{Kept, Any, Wrote, read_at-Triple, write_new-Triple}

all_same :
    (a b c d e : Bool)
    → (not a || not b || not c || not d || not e) ≡ false
    → (a ≡ true) × ((b ≡ true) × ((c ≡ true) × ((d ≡ true) × (e ≡ true))))
all_same true true true true true h = (refl, (refl, (refl, (refl, refl))))
all_same false b c d e h = absurd (cc)
all_same true false c d e h = absurd (cc)
all_same true true false d e h = absurd (cc)
all_same true true true false e h = absurd (cc)
all_same true true true true false h = absurd (cc)

module _ (C : Crates) (T : Tools C) where
  -- Two manifests of the same release.
  pub record IsSameRelease (a b : Manifest C) : Type 0 where
    pub product : a.product ≡ b.product
    pub version : a.version ≡ b.version
    pub channel : a.channel ≡ b.channel
    pub notes : a.notes ≡ b.notes
    pub schema : a.schema ≡ b.schema

  differs-IsSameRelease : (a b : Manifest C) → differs C T a b ≡ false → IsSameRelease a b
  unfolding differs
  differs-IsSameRelease a b h =
      let (p, (v, (c, (n, s)))) =
        all_same (a.product == b.product) (T.version_eq.beq a.version b.version)
          (a.channel == b.channel) (a.notes == b.notes) (a.schema == b.schema) h in
      record {
        product = (list_eq.beq_iff a.product b.product).0 p;
        version = (T.version_eq.beq_iff a.version b.version).0 v;
        channel = (list_eq.beq_iff a.channel b.channel).0 c;
        notes = (list_eq.beq_iff a.notes b.notes).0 n;
        schema = (nat_eq.beq_iff a.schema b.schema).0 s;
      }

  -- The manifest that stands in a file.
  abbrev pub Holds : Desk → Bytes → Manifest C → Type 0
  Holds d path m =
      (bytes : Bytes) × ((find_file path d.files ≡ some bytes) × (C.parse_manifest bytes ≡ some m))

  -- The inputs after the first one, in order, with what they hold.
  pub data Inputs (before : Desk) (first : Manifest C)
      : List Bytes → List (Manifest C) → Type 0 where
    none_left : Inputs before first [] []
    input :
        {path : Bytes} {m : Manifest C} {paths : List Bytes} {ms : List (Manifest C)}
        → Holds before path m
        → IsValidManifest m
        → IsSameRelease first m
        → Inputs before first paths ms
        → Inputs before first (path ∷ paths) (m ∷ ms)

  abbrev pub packages : List (Manifest C) → List (Package C)
  packages [] = []
  packages (m ∷ ms) = m.artifacts ++ packages ms

  -- The artifacts of an output do not matter to its inputs.
  extend-Inputs :
      {before : Desk} (output next : Manifest C) {paths : List Bytes} {ms : List (Manifest C)}
      → Inputs before (extend C T output next) paths ms
      → Inputs before output paths ms
  extend-Inputs output next none_left = none_left
  extend-Inputs output next (input h v s rest) =
      input h v
        (record {
          product = s.product;
          version = s.version;
          channel = s.channel;
          notes = s.notes;
          schema = s.schema;
        })
        (extend-Inputs output next rest)

  module _ (before : Desk) where
    load-Triple :
        (path : Bytes)
        → Triple
            (Kept before)
            (load_manifest C T path)
            (λ m d. Kept before d × Holds before path m)
            Any
    unfolding load_manifest
    load-Triple path = >>=-Triple (read_at-Triple before path) (λ bytes.
        Triple-weaken
          (lift-Knows (Kept before) Any (λ d h. tt) _ (ok_or (C.parse_manifest bytes) json))
          (λ d h. h) (λ m d (h, k). (h, (bytes, (k.0, ok_or-inverse _ json k.1)))) (λ d h. h))

    -- What the loop makes of an output.
    abbrev Joined : List Bytes → Manifest C → Manifest C → Type 0
    Joined paths output m =
        (ms : List (Manifest C)) × (Inputs before output paths ms
          × (m ≡ record output { artifacts = output.artifacts ++ packages ms }))

    joined :
        {path : Bytes} (rest : List Bytes) (output next m : Manifest C)
        → Holds before path next
        → validate next ≡ ok tt
        → differs C T output next ≡ false
        → Joined rest (extend C T output next) m
        → Joined (path ∷ rest) output m
    joined rest output next m h v n (ms, (i, e)) = (
      next ∷ ms,
      (
        input h ((validate_iff next).0 v) (differs-IsSameRelease output next n)
            (extend-Inputs output next i),
        e
            ∙ ap (λ z. record output { artifacts = z })
                (append_assoc output.artifacts next.artifacts (packages ms)),
      ),
    )

    merge_rest-Triple :
        (paths : List Bytes) (output : Manifest C)
        → Triple
            (Kept before)
            (merge_rest C T paths output)
            (λ m d. Kept before d × Joined paths output m)
            Any
    unfolding merge_rest
    merge_rest-Triple [] output = record {
      ends = λ d h. (
        h,
        (
          [],
          (
            none_left,
            ap (λ z. record output { artifacts = z }) (sym (append-nil output.artifacts)),
          ),
        ),
      );
    }
    merge_rest-Triple (path ∷ rest) output = >>=-Triple (load-Triple path) (λ next.
        >>=-Triple (lift-Knows (Kept before) Any (λ d h. tt) _ (validate next)) (λ _.
          >>=-Triple
            (lift-Knows (Kept before) Any (λ d h. tt) _ (reject_if (differs C T output next) _))
            (λ _.
              Triple-weaken
                (step-Knows (Kept before) Any (λ d h. tt) _ (Joined rest (extend C T output next))
                  (merge_rest-Triple rest (extend C T output next)))
                (λ d h. h)
                (λ m d (h, k). (
                  h,
                  joined rest output next m k.0.0.0 k.0.0.1
                      (reject_if-eq-ok (differs C T output next) _ k.0.1) k.1,
                ))
                (λ d h. h))))

  -- What `merge` has read and written: the first input, the others, and what it wrote.
  pub record Merged (path first : Bytes) (rest : List Bytes) (before after : Desk) : Type 0 where
    pub start : Manifest C
    pub others : List (Manifest C)
    pub output : Manifest C
    pub holds : Holds before first start
    pub inputs : Inputs before start rest others
    pub joined : output ≡ record start { artifacts = start.artifacts ++ packages others }
    pub valid : IsValidManifest output
    pub wrote : Wrote path (T.print_manifest output) before after

  merge-Triple :
      (path first : Bytes) (rest : List Bytes) (before : Desk)
      → Triple (Kept before) (merge C T path first rest) (λ _. Merged path first rest before) Any
  unfolding merge
  merge-Triple path first rest before = >>=-Triple (load-Triple before first) (λ start.
      >>=-Triple
        (step-Knows (Kept before) Any (λ d h. tt) _ (Joined before rest start)
          (merge_rest-Triple before rest start))
        (λ output. >>=-Triple (lift-Knows (Kept before) Any (λ d h. tt) _ (validate output)) (λ _.
          record {
            ends = λ d (h, k).
                (Triple-weaken (write_new-Triple path (T.print_manifest output) before) (λ e i. i)
                    (λ u e w. record {
                      start = start;
                      others = k.0.1.0;
                      output = output;
                      holds = k.0.0;
                      inputs = k.0.1.1.0;
                      joined = k.0.1.1.1;
                      valid = (validate_iff output).0 k.1;
                      wrote = w;
                    })
                    (λ e i. i)).ends
                  d h;
          })))

  -- When the command `merge` succeeds, every input holds a manifest, each after the first one is
  -- valid and agrees with the first in product, version, channel, notes and schema, and the output
  -- file, which is new, holds the printed manifest of the first input with the artifacts of all
  -- inputs in order, which is valid; no other file changes.
  pub merge-Merged :
      (path first : Bytes) (rest : List Bytes) (before : Desk) {u : Unit {0}}
      → (merge C T path first rest before).0 ≡ ok u
      → Merged path first rest before (merge C T path first rest before).1
  merge-Merged path first rest before h =
      Ends-ok (λ _. Merged path first rest before) Any (merge C T path first rest before).0
        (merge C T path first rest before).1
        ((merge-Triple path first rest before).ends before (refl, refl)) h
