-- ===== src/Install/Stage.antt =====
-- `verify_stage` of src/install.rs.
use freshen.Base.{not, ◌||◌, List, [], ◌∷◌, Option, none, some, ◌==◌, list_eq, nat_eq, length}
use freshen.Base.Bytes.{text, split, eq_ignore_ascii_case}
use freshen.Base.Outcome.{Result, err, invalid, signature, hash_mismatch, io, not_found, reject_if}
use freshen.Base.Exec.{Exec, lift, pure, ◌>>=◌, ◌>>◌}
use freshen.Manifest.{PackageFile}
use freshen.Crates.{Crates}
use freshen.Policy.{InstallLayout, portable, bundle, paths_of}
use freshen.Storage.{Disk, staging, call, tree, safe_join}
use freshen.Storage.Tree.{Node, file, dir, link, special, look}
use freshen.Install.{Platform, Plan, verify_plan}
use freshen.Install.Folders.{transaction}
use freshen.Install.Listing.{list_files, same_set}

module _ (C : Crates) where
  -- A directory has no digest; its length, which the system chooses, is not that of the file.
  unfoldable pub check_node : PackageFile → Option Node → Result (Unit {0})
  check_node f none = err (io not_found)
  check_node f (some (file c m)) =
      reject_if (not (length c == f.size) || not (eq_ignore_ascii_case (C.sha256 c) f.sha256))
        (hash_mismatch f.path)
  check_node f (some (dir es)) = err (hash_mismatch f.path)
  check_node f (some link) = err (hash_mismatch f.path)
  check_node f (some special) = err (hash_mismatch f.path)

  -- The loop over `artifact.files`.
  unfoldable pub check_staged : List PackageFile → Exec Disk (Unit {0})
  check_staged [] = pure tt
  check_staged (f ∷ rest) = do
    p ← safe_join staging f.path
    call
    λ d. (check_node f (look p (tree staging d)), d)
    check_staged rest

module _ (S : Platform) where
  unfoldable pub check_code : InstallLayout → Exec Disk (Unit {0})
  check_code (portable owned executable directories) d = pure tt d
  check_code (bundle name executable bundle_id team_id) d =
      (do
        signed ← lift (S.codesign (look (split b'/' name) (tree staging d)) bundle_id team_id)
        lift (reject_if (not signed) signature)
        built ← lift (S.lipo (look (split b'/' executable) (tree staging d)))
        lift (reject_if (not built) (invalid (text "bundle architecture mismatch"))))
        d

module _ (C : Crates) (S : Platform) where
  unfoldable pub verify_stage : Plan → Exec Disk (Unit {0})
  unfolding check_staged transaction list_files same_set check_code verify_plan
  verify_stage plan = do
    v ← lift (verify_plan C S plan)
    transaction
    check_staged C v.1.files
    call
    actual ← (λ d. (list_files (tree staging d), d))
    lift (
        reject_if (not (same_set actual (paths_of v.1.files)))
          (invalid (text "staged file inventory changed")))
    check_code S plan.policy.layout
