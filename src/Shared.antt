-- ===== src/Shared.antt =====
-- src/shared.rs: an installation that the host synchronizes between machines.
pub mod Ready
pub mod Inspect
use freshen.Base.{
  ℕ, ◌*◌, Bool, true, false, not, ◌&&◌, ◌||◌, List, [], ◌∷◌, Option, none, some, find, length, ltb,
  is_empty, if◌then◌else◌, ◌==◌, list_eq, nat_eq,
}
use freshen.Base.Bytes.{Bytes, text, eq_ignore_ascii_case}
use freshen.Base.Outcome.{
  Result, ok, err, Error, IoKind, io, not_found, denied, other, size_limit, json, reject_if, ok_or,
}
use freshen.Base.Exec.{Exec, lift, pure, ◌>>=◌, ◌>>◌}
use freshen.Manifest.{PackageFile}
use freshen.Crates.{Crates, Manifest, Package}
use freshen.Trust.{SignedManifest, TrustStore, verify}
use freshen.Updater.{stable}
use freshen.Storage.{Disk, installation, tree, call, safe_join}
use freshen.Storage.Tree.{Node, file, dir, link, special, Place, look}

pub data SharedStatus (Version : Type 0) : Type 0 where
  unchanged : SharedStatus Version
  waiting_for_files : Version → List Bytes → SharedStatus Version
  ready_to_restart : Version → SharedStatus Version

-- A file that another process may lock: whether it was read.
abbrev pub succeeds : Result (Unit {0}) → Bool
succeeds (ok u) = true
succeeds (err e) = false

unfoldable pub attempt : Exec Disk Bool
attempt d = let (r, d') = call d in (ok (succeeds r), d')

module _ (C : Crates) where
  unfoldable pub is_current : PackageFile → Option Node → Bool
  is_current f none = false
  is_current f (some (file c m)) = length c == f.size && eq_ignore_ascii_case (C.sha256 c) f.sha256
  is_current f (some (dir es)) = false
  is_current f (some link) = false
  is_current f (some special) = false

  unfoldable pub matches : PackageFile → Place → Exec Disk Bool
  matches f p = do
    was_read ← attempt
    λ d. (ok (was_read && is_current f (look p (tree installation d))), d)

  abbrev pub add_pending : Bool → Bytes → List Bytes → List Bytes
  add_pending b path rest = if b then rest else path ∷ rest

  -- The loop over the files.
  unfoldable pub pending_files : List PackageFile → Exec Disk (List Bytes)
  unfolding attempt
  pending_files [] = pure []
  pending_files (f ∷ fs) = do
    p ← safe_join installation f.path
    b ← matches f p
    rest ← pending_files fs
    pure (add_pending b f.path rest)

  abbrev pub status_of : C.Version → List Bytes → SharedStatus C.Version
  status_of v [] = ready_to_restart v
  status_of v (path ∷ rest) = waiting_for_files v (path ∷ rest)

  unfoldable pub is_irrelevant : Bytes → Bytes → C.Version → Manifest C → Bool
  is_irrelevant product channel current release =
      not (release.product == product)
      || not (release.channel == channel)
      || C.version_le release.version current
      || (channel == stable && not (C.pre_is_empty release.version))

  unfoldable pub inspect_artifact :
      C.Version → Option (Package C) → Exec Disk (SharedStatus C.Version)
  unfolding pending_files
  inspect_artifact v none = pure unchanged
  inspect_artifact v (some artifact) = do
    pending ← pending_files artifact.files
    pure (status_of v pending)

  unfoldable pub inspect_release :
      Bytes → Bytes → C.Version → Bytes → Manifest C → Exec Disk (SharedStatus C.Version)
  unfolding inspect_artifact is_irrelevant
  inspect_release product channel current target release =
      if is_irrelevant product channel current release
      then pure unchanged
      else inspect_artifact release.version (find (λ a. a.target == target) release.artifacts)

  -- `state` is what reading the published file gives, `parse` is `serde_json::from_slice`.
  unfoldable pub inspect :
      (Bytes → Option SignedManifest)
      → Result Bytes
      → TrustStore
      → Bytes
      → Bytes
      → C.Version
      → Bytes
      → Exec Disk (SharedStatus C.Version)
  unfolding inspect_release
  inspect parse (err (io not_found)) trust product channel current target = pure unchanged
  inspect parse (err e) trust product channel current target = lift (err e)
  inspect parse (ok bytes) trust product channel current target = do
    lift (reject_if (ltb (4 * (1024 * 1024)) (length bytes)) size_limit)
    signed ← lift (ok_or (parse bytes) json)
    release ← lift (verify C trust signed)
    inspect_release product channel current target release

  -- `publish`: the text that is written, by `atomic_write`.
  unfoldable pub publish :
      (SignedManifest → Bytes) → Result (Unit {0}) → SignedManifest → TrustStore → Exec Disk Bytes
  publish print write signed trust = do
    release ← lift (verify C trust signed)
    lift write
    pure (print signed)
