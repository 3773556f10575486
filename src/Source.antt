-- ===== src/Source.antt =====
-- src/updater.rs: where manifests are found, and the metadata that GitHub lists.
use freshen.Base.{Bool, List}
use freshen.Base.Bytes.{Bytes}

pub record ManifestLocation (Url : Type 0) : Type 0 where
  pub document : Url
  pub signature : Url

pub data ReleaseSource (Url : Type 0) : Type 0 where
  manifests : List (ManifestLocation Url) → ReleaseSource Url
  index : Url → ReleaseSource Url
  manifest : Url → Url → ReleaseSource Url
  git_hub : Bytes → Bytes → ReleaseSource Url

pub record GitHubAsset (Url : Type 0) : Type 0 where
  pub name : Bytes
  pub browser_download_url : Url

pub record GitHubRelease (Url : Type 0) : Type 0 where
  pub draft : Bool
  pub prerelease : Bool
  pub assets : List (GitHubAsset Url)
