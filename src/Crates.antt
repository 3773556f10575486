-- ===== src/Crates.antt =====
-- What the program takes from other crates: `semver`, `url`, `base64`, `ed25519_dalek`, `sha2` with
-- `hex`, and `serde_json`. They are parameters; the laws that a theorem needs are its hypotheses.
use freshen.Base.{◌≡◌, ◌⊎◌, Bool, true, List, Option, Eq}
use freshen.Base.Bytes.{Bytes}
use freshen.Source.{ManifestLocation, GitHubRelease}
use freshen.Manifest.{ReleaseManifest, Artifact}

pub record Crates : Type 1 where
  -- `semver::Version`, `a <= b`, and `version.pre.is_empty()`
  pub Version : Type 0
  pub version_le : Version → Version → Bool
  pub pre_is_empty : Version → Bool
  -- `url::Url`, compared by `==`
  pub Url : Type 0
  pub url_eq : Eq Url
  -- `STANDARD.decode`
  pub decode_base64 : Bytes → Option Bytes
  -- `Signature::from_slice`, `VerifyingKey::from_bytes`, `is_weak`, `verify_strict(..).is_ok()`
  pub Signature : Type 0
  pub signature_from_slice : Bytes → Option Signature
  pub VerifyingKey : Type 0
  pub key_from_bytes : Bytes → Option VerifyingKey
  pub is_weak : VerifyingKey → Bool
  pub verify_strict : VerifyingKey → Bytes → Signature → Bool
  -- `hex::encode` of the SHA-256 digest
  pub sha256 : Bytes → Bytes
  -- `serde_json::from_slice` at the type of a manifest
  pub parse_manifest : Bytes → Option (ReleaseManifest Version Url)
  -- the same at the types of an index and of GitHub's list of releases
  pub parse_locations : Bytes → Option (List (ManifestLocation Url))
  pub parse_releases : Bytes → Option (List (GitHubRelease Url))
  -- `Url::parse(..).unwrap()`, called on texts that are URLs by their form
  pub parse_url : Bytes → Url

abbrev pub Manifest : Crates → Type 0
Manifest C = ReleaseManifest C.Version C.Url

abbrev pub Package : Crates → Type 0
Package C = Artifact C.Url

-- The order of `semver::Version` is documented as total; equal in the order is equal.
pub record IsTotalOrder (C : Crates) : Type 0 where
  pub total : (a b : C.Version) → (C.version_le a b ≡ true) ⊎ (C.version_le b a ≡ true)
  pub trans :
      (a b c : C.Version)
      → C.version_le a b ≡ true
      → C.version_le b c ≡ true
      → C.version_le a c ≡ true
  pub antisym : (a b : C.Version) → C.version_le a b ≡ true → C.version_le b a ≡ true → a ≡ b
