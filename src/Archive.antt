-- ===== src/Archive.antt =====
-- src/archive.rs and `inventory` of src/manifest.rs: the extraction of a package.
pub mod Sound
use freshen.Base.{
  ℕ, zero, suc, ◌+◌, ◌*◌, ◌^◌, Bool, true, false, not, ◌&&◌, ◌||◌, List, [], ◌∷◌, ◌++◌, map, Option,
  none, some, length, any, find, contains, ltb, leb, if◌then◌else◌, ◌==◌, list_eq, nat_eq,
}
use Prim.Native.Nat.{◌/◌, ◌%◌}
use freshen.Base.Bytes.{
  Bytes, text, starts_with, to_ascii_lowercase, eq_ignore_ascii_case, last_byte,
}
use freshen.Base.Outcome.{
  Result, ok, err, Error, cancelled, size_limit, invalid, hash_mismatch, reject_if, ok_or, ◌>>=◌,
  ◌>>◌,
}
use freshen.SafePath.{check_path}
use freshen.Manifest.{PackageFile, Artifact}
use freshen.Crates.{Crates, Package}

-- What one round of the loop that unpacks a file meets: the cancellation flag, what is read (nothing
-- at the end), and whether the output takes it.
pub record Chunk : Type 0 where
  pub is_cancelled : Bool
  pub read : Result Bytes
  pub write : Result (Unit {0})

-- An entry of the archive (`zip`), with the flag before it, whether it is found, and whether its
-- output is created, and written through with its permissions.
pub record ZipEntry : Type 0 where
  pub is_cancelled : Bool
  pub found : Result (Unit {0})
  pub name : Bytes
  pub unix_mode : Option ℕ
  pub is_dir : Bool
  pub size : ℕ
  pub create : Result (Unit {0})
  pub chunks : List Chunk
  pub sync : Result (Unit {0})

-- A file of the destination.
pub record Unpacked : Type 0 where
  pub path : Bytes
  pub content : Bytes
  pub executable : Bool

pub record Progress : Type 0 where
  pub seen : List Bytes
  pub total : ℕ
  pub written : List Unpacked

-- The map from paths to files; a later file of a path replaces an earlier one.
unfoldable pub inventory : List PackageFile → List PackageFile
inventory [] = []
inventory (f ∷ fs) =
    let rest = inventory fs in if any (λ g. g.path == f.path) rest then rest else f ∷ rest

-- `name.trim_end_matches('/')`
unfoldable pub trim_end : Bytes → Bytes
trim_end [] = []
trim_end (c ∷ s) =
    let rest = trim_end s in
    if c == b'/' then (elim rest [ [] ↦ [] | d ∷ t ↦ c ∷ d ∷ t ]) else c ∷ rest

-- `mode & 0o170000`
abbrev pub file_type : Option ℕ → ℕ
file_type none = 0
file_type (some mode) = mode / 4096 % 16 * 4096

abbrev pub is_odd_type : ℕ → Bool
is_odd_type t = not (t == 0) && (not (t == 32768) && not (t == 16384))

-- The loop that unpacks one file.
unfoldable pub unpack : ℕ → List Chunk → Bytes → Result Bytes
unpack size [] content = ok content
unpack size (c ∷ cs) content = do
  reject_if c.is_cancelled cancelled
  bytes ← c.read
  elim bytes [
    | [] ↦ ok content
    | b ∷ bs ↦ do
      reject_if (ltb size (length content + length (b ∷ bs))) size_limit
      c.write
      unpack size cs (content ++ b ∷ bs)
  ]

module _ (C : Crates) where
  unfoldable pub extract_file : ℕ → PackageFile → ZipEntry → Bytes → Progress → Result Progress
  extract_file max_unpacked f e path p = do
    reject_if (contains p.seen (to_ascii_lowercase path) || not (e.size == f.size))
        (invalid (text "duplicate or incorrect size for " ++ path))
    reject_if (leb (2 ^ 64) (p.total + f.size)) size_limit
    reject_if (ltb max_unpacked (p.total + f.size)) size_limit
    e.create
    content ← unpack f.size e.chunks []
    reject_if
        (not (length content == f.size) || not (eq_ignore_ascii_case (C.sha256 content) f.sha256))
        (hash_mismatch path)
    e.sync
    ok (record {
      seen = to_ascii_lowercase path ∷ p.seen;
      total = p.total + f.size;
      written = record { path = path; content = content; executable = f.executable } ∷ p.written;
    })

  unfoldable pub extract_kind :
      List PackageFile → ℕ → ZipEntry → Bytes → Bool → Progress → Result Progress
  unfolding extract_file
  extract_kind expected max_unpacked e path true p = do
    reject_if (not (any (λ f. starts_with f.path (path ++ b'/' ∷ [])) expected))
        (invalid (text "unlisted directory " ++ path))
    ok p
  extract_kind expected max_unpacked e path false p = do
    f ← ok_or (find (λ f. f.path == path) expected) (invalid (text "unlisted file " ++ path))
    extract_file max_unpacked f e path p

  unfoldable pub extract_entry : List PackageFile → ℕ → ZipEntry → Progress → Result Progress
  unfolding extract_kind
  extract_entry expected max_unpacked e p = do
    reject_if e.is_cancelled cancelled
    e.found
    check_path (trim_end e.name)
    reject_if (is_odd_type (file_type e.unix_mode))
        (invalid (text "archives may contain only regular files and directories"))
    extract_kind expected max_unpacked e (trim_end e.name) e.is_dir p

  unfoldable pub extract_entries : List PackageFile → ℕ → List ZipEntry → Progress → Result Progress
  extract_entries expected max_unpacked [] p = ok p
  extract_entries expected max_unpacked (e ∷ es) p = do
    q ← extract_entry expected max_unpacked e p
    extract_entries expected max_unpacked es q

  unfoldable pub extract : List ZipEntry → Package C → ℕ → Result (List Unpacked)
  unfolding extract_entries
  extract entries artifact max_unpacked = do
    reject_if (ltb 200000 (length entries)) size_limit
    p ←
        extract_entries (inventory artifact.files) max_unpacked entries
          (record { seen = []; total = 0; written = [] })
    reject_if (not (length p.seen == length (inventory artifact.files)))
        (invalid (text "package is missing declared files"))
    ok p.written
