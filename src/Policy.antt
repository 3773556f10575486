-- ===== src/Policy.antt =====
-- `InstallLayout` and `InstallPolicy` of src/install.rs: which packages the host lets in.
pub mod Portable
pub mod Bundle
use freshen.Base.{
  ℕ, ◌≡◌, Bool, true, false, not, ◌&&◌, ◌||◌, List, [], ◌∷◌, ◌++◌, map, length, is_empty,
}
use freshen.Base.{Option, none, some, leb, all, any, contains, ◌==◌, nat_eq, list_eq, if◌then◌else◌}
use freshen.Base.Bytes.{Bytes, text, strip_prefix, starts_with, ends_with, is_ascii_alphanumeric}
use freshen.Base.Outcome.{Result, ok, err, invalid, reject_if, ◌>>=◌, ◌>>◌}
use freshen.SafePath.{check_path}
use freshen.Manifest.{PackageKind, files, mac_bundle, PackageFile, Artifact}

pub data InstallLayout : Type 0 where
  -- owned_files, executable, expandable_directories
  portable : List Bytes → Bytes → List Bytes → InstallLayout
  -- bundle_name, executable, bundle_id, team_id
  bundle : Bytes → Bytes → Bytes → Bytes → InstallLayout

pub record InstallPolicy : Type 0 where
  pub root : Bytes
  pub layout : InstallLayout
  pub exit_timeout_secs : ℕ
  pub confirmation_timeout_secs : ℕ

unfoldable pub portable_expanding : Bytes → Bytes → List Bytes → List Bytes → InstallPolicy
portable_expanding root executable owned_files expandable_directories = record {
  root = root;
  layout = portable owned_files executable expandable_directories;
  exit_timeout_secs = 120;
  confirmation_timeout_secs = 120;
}

unfoldable pub portable_only : Bytes → Bytes → List Bytes → InstallPolicy
unfolding portable_expanding
portable_only root executable owned_files = portable_expanding root executable owned_files []

abbrev pub is_kind : PackageKind → PackageKind → Bool
is_kind files files = true
is_kind files mac_bundle = false
is_kind mac_bundle files = false
is_kind mac_bundle mac_bundle = true

-- A loop that checks each path of a list.
unfoldable pub check_paths : List Bytes → Result (Unit {0})
check_paths [] = ok tt
check_paths (path ∷ rest) = do check_path path; check_paths rest

-- The set of the elements of a list.
unfoldable pub set_of : List Bytes → List Bytes
set_of [] = []
set_of (x ∷ xs) = let rest = set_of xs in if contains rest x then rest else x ∷ rest

abbrev pub paths_of : List PackageFile → List Bytes
paths_of = map (λ f. f.path)

-- `path.strip_prefix(directory).is_some_and(|suffix| suffix.starts_with('/'))`
unfoldable pub is_beneath : Bytes → Bytes → Bool
is_beneath path directory = elim (strip_prefix path directory) [
  | none ↦ false
  | some suffix ↦ starts_with suffix (b'/' ∷ [])
]

-- `received.difference(&owned).any(..)`
unfoldable pub has_stray : List Bytes → List Bytes → List Bytes → Bool
has_stray owned directories [] = false
has_stray owned directories (path ∷ rest) =
    (not (contains owned path) && not (any (is_beneath path) directories))
    || has_stray owned directories rest

-- A time between 1 and 3600 seconds.
abbrev pub is_timeout : ℕ → Bool
is_timeout t = leb 1 t && leb t 3600

is_identity_byte : ℕ → Bool
is_identity_byte c = is_ascii_alphanumeric c || contains (text ".-") c

pub is_bad_identity : Bytes → Bool
is_bad_identity value = is_empty value || not (all is_identity_byte value)

abbrev pub is_inside : Bytes → PackageFile → Bool
is_inside prefix f = starts_with f.path prefix

module _ {Url : Type 0} where
  unfoldable pub validate_portable :
      List Bytes → Bytes → List Bytes → Artifact Url → Result (Unit {0})
  validate_portable owned_files executable expandable_directories artifact = do
    reject_if (not (is_kind artifact.kind files)) (invalid (text "expected a files package"))
    check_paths owned_files
    let owned = set_of owned_files
    let received = paths_of artifact.files
    check_paths expandable_directories
    reject_if
        (not (length owned == length owned_files)
          || not (all (contains received) owned)
          || has_stray owned expandable_directories received
          || not (contains owned executable))
        (invalid (
          text
            "package inventory must contain all locally owned files and the owned executable; additional files require a locally expandable directory"))

  -- `is_macos` is `cfg!(target_os = "macos")`.
  unfoldable pub validate_bundle :
      Bool → Bytes → Bytes → Bytes → Bytes → Artifact Url → Result (Unit {0})
  unfolding is_bad_identity is_identity_byte
  validate_bundle is_macos bundle_name executable bundle_id team_id artifact = do
    reject_if (not is_macos) (invalid (text "macOS bundle installation requires macOS"))
    check_path bundle_name
    check_path executable
    reject_if
        (contains bundle_name b'/'
          || not (ends_with bundle_name (text ".app"))
          || not (is_kind artifact.kind mac_bundle)
          || not (starts_with executable (bundle_name ++ text "/Contents/MacOS/"))
          || not (all (is_inside (bundle_name ++ b'/' ∷ [])) artifact.files)
          || not (any (λ f. f.path == executable) artifact.files))
        (invalid (text "invalid application bundle layout"))
    reject_if (is_bad_identity bundle_id || is_bad_identity team_id)
        (invalid (text "invalid signing identity"))

  unfoldable pub validate_layout : Bool → InstallLayout → Artifact Url → Result (Unit {0})
  unfolding validate_portable validate_bundle
  validate_layout is_macos (portable owned executable directories) artifact =
      validate_portable owned executable directories artifact
  validate_layout is_macos (bundle name executable bundle_id team_id) artifact =
      validate_bundle is_macos name executable bundle_id team_id artifact

  unfoldable pub validate : Bool → InstallPolicy → Artifact Url → Result (Unit {0})
  validate is_macos policy artifact = do
    reject_if
        (not (is_timeout policy.exit_timeout_secs)
          || not (is_timeout policy.confirmation_timeout_secs))
        (invalid (text "helper timeouts must be 1..=3600 seconds"))
    validate_layout is_macos policy.layout artifact

  layout_items : InstallLayout → Artifact Url → List Bytes
  layout_items (portable owned executable directories) artifact = paths_of artifact.files
  layout_items (bundle name executable bundle_id team_id) artifact = name ∷ []

  unfoldable pub items : InstallPolicy → Artifact Url → List Bytes
  unfolding layout_items
  items policy artifact = layout_items policy.layout artifact

layout_executable : InstallLayout → Bytes
layout_executable (portable owned executable directories) = executable
layout_executable (bundle name executable bundle_id team_id) = executable

unfoldable pub executable : InstallPolicy → Bytes
unfolding layout_executable
executable policy = layout_executable policy.layout
