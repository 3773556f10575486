-- ===== src/Install/Arm.antt =====
-- `PreparedUpdate::arm` of src/install.rs, up to the launch of the helper.
use freshen.Base.{Option, none, ℕ, List, [], some}
use freshen.Base.Bytes.{Bytes, text}
use freshen.Base.Outcome.{io, other, Result, ok, err, recovery, reject_if}
use freshen.Base.Exec.{Exec, lift, pure, ◌>>=◌, ◌>>◌}
use freshen.Crates.{Crates}
use freshen.Policy.{InstallPolicy, validate}
use freshen.Prepare.{PreparedUpdate}
use freshen.Storage.{Folder, Disk, empty_folder, in_folder, staging, call, copy_tree}
use freshen.Storage.Tree.{Node}
use freshen.Install.{Platform, Plan, Journal, prepared}
use freshen.Install.Folders.{lock, transaction, exists, save_journal}
use freshen.Install.Stage.{verify_stage}
use freshen.Install.Recovery.{remove_transaction}

module _ (C : Crates) (S : Platform) where
  unfoldable pub make_folder : Option Folder → Exec Disk (Unit {0})
  make_folder none d = (ok tt, record d { transaction = some empty_folder })
  make_folder (some t) d = (err (io other), d)

  -- `fs::create_dir(&txn)`, which fails where the directory is there.
  unfoldable pub make_transaction : Exec Disk (Unit {0})
  unfolding make_folder
  make_transaction = do call; λ d. make_folder d.transaction d

  -- `atomic_write` of the plan.
  unfoldable pub save_plan : Plan → Exec Disk (Unit {0})
  save_plan plan = do
    call
    λ d. (ok tt, in_folder (λ t. record t { plan = some (S.print_plan plan) }) d)
    call

  -- The plan, with the `token` that `getrandom` gave.
  abbrev pub plan_of : PreparedUpdate C → InstallPolicy → ℕ → List Bytes → Bytes → Plan
  plan_of p policy pid args token = record {
    policy = policy;
    signed = p.candidate.signed;
    trust = p.trust;
    target = p.candidate.artifact.target;
    parent_pid = pid;
    relaunch_args = args;
    token = token;
  }

  abbrev pub first_journal : Bytes → Journal
  first_journal version = record {
    status = record { state = prepared; version = version; detail = [] };
    touched = [];
    existing = [];
  }

  -- The closure in `arm`; `stage` is the tree of the temporary directory's stage.
  unfoldable pub fill : Node → Result Bytes → Bytes → (Bytes → Plan) → Exec Disk Plan
  unfolding save_plan
  fill stage token version make = do
    copy_tree stage staging []
    t ← lift token
    verify_stage C S (make t)
    save_journal S (first_journal version)
    save_plan (make t)
    pure (make t)

  -- A transaction that could not be filled is removed, if that is possible.
  unfoldable pub keep_or_remove : Result Plan → Exec Disk Plan
  keep_or_remove (ok plan) d = (ok plan, d)
  keep_or_remove (err e) d = (err e, (remove_transaction S d).1)

  unfoldable pub arm :
      PreparedUpdate C
      → InstallPolicy
      → Node
      → Result Bytes
      → Bytes
      → ℕ
      → List Bytes
      → Exec Disk Plan
  unfolding make_transaction fill keep_or_remove
  arm p policy stage token version pid args = do
    lift (validate S.is_macos policy p.candidate.artifact)
    root ← lift (S.canonicalize policy.root)
    lock
    transaction
    found ← exists S
    lift (
        reject_if found
          (recovery (text "resolve or discard the previous transaction before preparing another")))
    make_transaction
    λ d.
        let (r, d') =
          fill stage token version (plan_of p (record policy { root = root }) pid args) d in
        keep_or_remove r d'
