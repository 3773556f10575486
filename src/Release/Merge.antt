-- ===== src/Release/Merge.antt =====
-- The command `merge` of src/bin/release.rs.
use freshen.Base.{Bool, not, ◌||◌, List, [], ◌∷◌, ◌++◌, ◌==◌, list_eq, nat_eq}
use freshen.Base.Bytes.{Bytes, text}
use freshen.Base.Outcome.{invalid, json, reject_if, ok_or}
use freshen.Base.Exec.{Exec, lift, pure, ◌>>=◌, ◌>>◌}
use freshen.Crates.{Crates, Manifest}
use freshen.Manifest.{validate}
use freshen.Release.{Tools, Desk, read_at, write_new}

module _ (C : Crates) (T : Tools C) where
  unfoldable pub load_manifest : Bytes → Exec Desk (Manifest C)
  unfolding read_at
  load_manifest path = do bytes ← read_at path; lift (ok_or (C.parse_manifest bytes) json)

  unfoldable pub differs : Manifest C → Manifest C → Bool
  differs a b =
      not (a.product == b.product)
      || not (T.version_eq.beq a.version b.version)
      || not (a.channel == b.channel)
      || not (a.notes == b.notes)
      || not (a.schema == b.schema)

  -- `output.artifacts.extend(other.artifacts)`
  abbrev pub extend : Manifest C → Manifest C → Manifest C
  extend a b = record a { artifacts = a.artifacts ++ b.artifacts }

  unfoldable pub merge_rest : List Bytes → Manifest C → Exec Desk (Manifest C)
  unfolding load_manifest differs
  merge_rest [] output = pure output
  merge_rest (path ∷ rest) output = do
    next ← load_manifest path
    lift (validate next)
    lift (
        reject_if (differs output next) (
          invalid (
            text
              "input manifests must describe the same product, version, channel, schema, and notes")))
    merge_rest rest (extend output next)

  -- `first` is the first input.
  unfoldable pub merge : Bytes → Bytes → List Bytes → Exec Desk (Unit {0})
  unfolding merge_rest write_new
  merge path first rest = do
    start ← load_manifest first
    output ← merge_rest rest start
    lift (validate output)
    write_new path (T.print_manifest output)
