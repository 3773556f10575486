-- ===== src/Manifest.antt =====
-- src/manifest.rs: the release manifest and `validate`. The types of versions and of URLs come
-- from the crates `semver` and `url`, and are parameters.
pub mod Hashes
pub mod Ancestors
pub mod Files
pub mod Valid
use freshen.Base.{ℕ, zero, suc, ◌≡◌, Bool, true, false, not, ◌||◌, List, [], ◌∷◌, length, is_empty}
use freshen.Base.{Option, none, some, ltb, all, contains, ◌==◌, nat_eq, list_eq, if◌then◌else◌}
use freshen.Base.Bytes.{Bytes, text, rsplit_once, to_ascii_lowercase, is_ascii_hexdigit}
use freshen.Base.Outcome.{Result, ok, err, invalid, reject_if, ◌>>=◌, ◌>>◌}
use freshen.SafePath.{check_path}

pub data PackageKind : Type 0 where
  files mac_bundle : PackageKind

pub record PackageFile : Type 0 where
  pub path : Bytes
  pub sha256 : Bytes
  pub size : ℕ
  pub executable : Bool

pub record Artifact (Url : Type 0) : Type 0 where
  pub target : Bytes
  pub kind : PackageKind
  pub url : Url
  pub sha256 : Bytes
  pub size : ℕ
  pub files : List PackageFile

pub record ReleaseManifest (Version Url : Type 0) : Type 0 where
  pub schema : ℕ
  pub product : Bytes
  pub channel : Bytes
  pub version : Version
  pub notes : Bytes
  pub artifacts : List (Artifact Url)

unfoldable pub check_hash : Bytes → Result (Unit {0})
check_hash value =
    if not (length value == 64) || not (all is_ascii_hexdigit value)
    then err (invalid (text "SHA-256 must be 64 hexadecimal characters"))
    else ok tt

-- The loop over `artifact.files`. `paths` is the set of lower-case paths so far.
unfoldable pub check_files : List Bytes → List PackageFile → Result (List Bytes)
check_files paths [] = ok paths
check_files paths (file ∷ rest) = do
  check_path file.path
  check_hash file.sha256
  let key = to_ascii_lowercase file.path
  reject_if (contains paths key) (invalid (text "case-insensitive duplicate file path"))
  check_files (key ∷ paths) rest

-- `while let Some((prefix, _)) = parent.rsplit_once('/')`, on fuel. Each round shortens `parent`.
unfoldable pub has_file_ancestor : ℕ → List Bytes → Bytes → Bool
has_file_ancestor zero paths parent = false
has_file_ancestor (suc fuel) paths parent = elim (rsplit_once b'/' parent) [
  | none ↦ false
  | some (prefix, _) ↦
      let rest = has_file_ancestor fuel paths prefix in contains paths prefix || rest
]

-- The loop over the paths of an artifact. Each failing path gives the same error, so the order in
-- which the set is walked does not show.
unfoldable pub check_ancestors : List Bytes → List Bytes → Result (Unit {0})
check_ancestors paths [] = ok tt
check_ancestors paths (path ∷ rest) =
    if has_file_ancestor (length path) paths path
    then err (invalid (text "file is also an ancestor directory"))
    else check_ancestors paths rest

module _ {Url : Type 0} where
  -- The body of the loop over the artifacts, behind the test of the target.
  unfoldable pub check_artifact : Artifact Url → Result (Unit {0})
  check_artifact artifact = do
    check_hash artifact.sha256
    reject_if (artifact.size == 0 || is_empty artifact.files || ltb 100000 (length artifact.files))
        (invalid (text "empty or excessively large package inventory"))
    paths ← check_files [] artifact.files
    check_ancestors paths paths

  unfoldable pub check_artifacts : List Bytes → List (Artifact Url) → Result (Unit {0})
  check_artifacts targets [] = ok tt
  check_artifacts targets (artifact ∷ rest) = do
    reject_if (is_empty artifact.target || contains targets artifact.target)
        (invalid (text "empty or duplicate target"))
    check_artifact artifact
    check_artifacts (artifact.target ∷ targets) rest

module _ {Version Url : Type 0} where
  unfoldable pub validate : ReleaseManifest Version Url → Result (Unit {0})
  validate m = do
    reject_if (not (m.schema == 1) || is_empty m.product || is_empty m.channel)
        (invalid (text "schema, product, or channel"))
    check_artifacts [] m.artifacts
