-- ===== src/Release/Pack.antt =====
-- The command `pack` of src/bin/release.rs, and the choice of the command.
use freshen.Base.{
  ℕ, Bool, List, [], ◌∷◌, ◌++◌, Option, none, some, length, ◌==◌, list_eq, nat_eq, if◌then◌else◌,
}
use freshen.Base.Bytes.{Bytes, text, split}
use freshen.Base.Outcome.{Result, ok, err, io, not_found, other, invalid, ok_or}
use freshen.Base.Exec.{Exec, lift, pure, ◌>>=◌, ◌>>◌}
use freshen.Crates.{Crates, Manifest, Package}
use freshen.Manifest.{PackageKind, files, mac_bundle, PackageFile, validate}
use freshen.Storage.Tree.{Node, file, dir, link, special, look}
use freshen.Release.{Tools, Desk, Entry, step, create, write_all, read_at, write_new}
use freshen.Release.Collect.{collect_files, sort}
use freshen.Release.Merge.{merge}
use freshen.Release.Sign.{keygen, sign}

-- A regular file below the packed directory.
unfoldable pub file_at : Option Node → Result (Bytes × Bool)
file_at none = err (io not_found)
file_at (some (file c m)) = ok (c, m)
file_at (some (dir es)) = err (io other)
file_at (some link) = err (io other)
file_at (some special) = err (io other)

unfoldable pub kind_of : Bytes → Result PackageKind
kind_of kind =
    if kind == text "files"
    then ok files
    else (if kind == text "mac_bundle"
        then ok mac_bundle
        else err (invalid (text "unknown package kind")))

-- The loop that writes the entries.
unfoldable pub write_entries : Option Node → List PackageFile → Exec Desk (List Entry)
unfolding file_at
write_entries root [] = pure []
write_entries root (f ∷ rest) = do
  step
  found ← lift (file_at (look (split b'/' f.path) root))
  step
  entries ← write_entries root rest
  pure (record { path = f.path; executable = f.executable; content = found.0 } ∷ entries)

-- The arguments of the command.
pub record Order : Type 0 where
  pub directory : Bytes
  pub zip : Bytes
  pub url : Bytes
  pub target : Bytes
  pub kind : Bytes
  pub product : Bytes
  pub version : Bytes
  pub channel : Bytes
  pub manifest : Bytes

abbrev order : Bytes → Bytes → Bytes → Bytes → Bytes → Bytes → Bytes → Bytes → Bytes → Order
order directory zip url target kind product version channel manifest = record {
  directory = directory;
  zip = zip;
  url = url;
  target = target;
  kind = kind;
  product = product;
  version = version;
  channel = channel;
  manifest = manifest;
}

module _ (C : Crates) (T : Tools C) where
  -- The loop over the sorted paths.
  unfoldable pub describe : Option Node → List Bytes → Exec Desk (List PackageFile)
  unfolding file_at
  describe root [] = pure []
  describe root (path ∷ rest) = do
    step
    found ← lift (file_at (look (split b'/' path) root))
    step
    more ← describe root rest
    pure (
        record {
          path = path;
          sha256 = C.sha256 found.0;
          size = length found.0;
          executable = found.1;
        }
        ∷ more)

  -- The one artifact, with a hash and a size that stand in for those of the ZIP.
  abbrev pub artifact_of : Bytes → PackageKind → C.Url → List PackageFile → Bytes → ℕ → Package C
  artifact_of target kind url fs sha256 size = record {
    target = target;
    kind = kind;
    url = url;
    sha256 = sha256;
    size = size;
    files = fs;
  }

  abbrev pub manifest_of : Bytes → Bytes → C.Version → Package C → Manifest C
  manifest_of product channel version a = record {
    schema = 1;
    product = product;
    channel = channel;
    version = version;
    notes = [];
    artifacts = a ∷ [];
  }

  abbrev pub no_hash : Bytes
  no_hash = let z = text "0000000000000000" in z ++ (z ++ (z ++ z))

  unfoldable pub pack_from : Order → Option Node → Exec Desk (Unit {0})
  unfolding collect_files sort kind_of describe write_entries
  pack_from o root = do
    step
    paths ← lift (collect_files root)
    kind ← lift (kind_of o.kind)
    fs ← describe root (sort paths)
    version ← lift (ok_or (T.parse_version o.version) (invalid (text "version")))
    url ← lift (ok_or (T.try_url o.url) (invalid (text "url")))
    lift (
        validate
          (manifest_of o.product o.channel version (artifact_of o.target kind url fs no_hash 1)))
    create o.zip
    entries ← write_entries root fs
    write_all o.zip (T.write_zip entries)
    step
    bytes ← read_at o.zip
    step
    write_new o.manifest (
        T.print_manifest (
          manifest_of o.product o.channel version
            (artifact_of o.target kind url fs (C.sha256 bytes) (length bytes))))

  unfoldable pub pack : Order → Exec Desk (Unit {0})
  unfolding pack_from
  pack o d = pack_from o (d.folders o.directory) d

  abbrev usage : Bytes → Exec Desk (Unit {0})
  usage command =
      if command == text "--help"
      then pure tt
      else (if command == text "-h" then pure tt else lift (err (invalid (text "usage"))))

  -- `run`, by the number of arguments after the command. `recover` is the command of that name, on
  -- an installation of its own.
  unfoldable pub run_command :
      (Bytes → Exec Desk (Unit {0})) → Bytes → List Bytes → Exec Desk (Unit {0})
  unfolding pack merge keygen sign
  run_command recover command (a ∷ []) =
      if command == text "recover" then recover a else usage command
  run_command recover command (a ∷ b ∷ []) =
      if command == text "keygen"
      then keygen C T a b
      else (if command == text "merge" then merge C T a b [] else usage command)
  run_command recover command (a ∷ b ∷ c ∷ []) =
      if command == text "merge"
      then merge C T a b (c ∷ [])
      else (if command == text "sign" then sign C T a b c else usage command)
  run_command recover command (a ∷ b ∷ c ∷ d ∷ e ∷ f ∷ g ∷ h ∷ i ∷ []) =
      if command == text "pack"
      then pack (order a b c d e f g h i)
      else (if command == text "merge"
          then merge C T a b (c ∷ d ∷ e ∷ f ∷ g ∷ h ∷ i ∷ [])
          else usage command)
  run_command recover command (a ∷ b ∷ rest) =
      if command == text "merge" then merge C T a b rest else usage command
  run_command recover command [] = usage command

  unfoldable pub run_tool : (Bytes → Exec Desk (Unit {0})) → List Bytes → Exec Desk (Unit {0})
  unfolding run_command
  run_tool recover [] = pure tt
  run_tool recover (command ∷ args) = run_command recover command args
