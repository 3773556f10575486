-- ===== src/Install/Folders.antt =====
-- The lock, the transaction's directory and its journal on the disk.
use freshen.Base.{
  ◌*◌, Bool, true, false, not, ◌&&◌, Option, none, some, ◌==◌, list_eq, nat_eq, ltb, length,
}
use freshen.Base.Bytes.{Bytes, text}
use freshen.Base.Outcome.{ok, busy, unsafe_path, size_limit, io, not_found, json, reject_if, ok_or}
use freshen.Base.Exec.{Exec, lift, pure, ◌>>=◌, ◌>>◌}
use freshen.Crates.{Crates}
use freshen.Storage.{Disk, Folder, call, in_folder}
use freshen.Install.{at_transaction, Platform, Journal, InstallStatus, Plan, verify_plan}

-- `transaction`: the path of the directory, unless a link stands on the way.
unfoldable pub transaction : Exec Disk (Unit {0})
transaction d =
    (do call; lift (reject_if d.is_redirected (unsafe_path (text ".freshen/transaction")))) d

-- `lock`, held until the end of the call.
unfoldable pub lock : Exec Disk (Unit {0})
unfolding transaction
lock d = (do transaction; call; lift (reject_if d.is_locked busy)) d

abbrev pub has_transaction : Option Folder → Bool
has_transaction none = false
has_transaction (some t) = true

-- The bytes of a file of the transaction.
unfoldable pub file_of : (Folder → Option Bytes) → Disk → Option Bytes
file_of f d = elim d.transaction [ none ↦ none | some t ↦ f t ]

unfoldable pub read_file : (Folder → Option Bytes) → Exec Disk Bytes
unfolding file_of
read_file f = do call; λ d. (ok_or (file_of f d) (io not_found), d)

module _ (S : Platform) where
  unfoldable pub write_journal : Journal → Exec Disk (Unit {0})
  write_journal j d = (ok tt, in_folder (λ t. record t { journal = some (S.print_journal j) }) d)

  -- `atomic_write` of the journal: a rename, and a last call that writes the directory through.
  unfoldable pub save_journal : Journal → Exec Disk (Unit {0})
  unfolding write_journal
  save_journal j = do call; write_journal j; call

  unfoldable pub load_journal : Exec Disk Journal
  unfolding read_file
  load_journal = do
    bytes ← read_file (λ t. t.journal)
    lift (reject_if (ltb (16 * (1024 * 1024)) (length bytes)) size_limit)
    lift (ok_or (S.parse_journal bytes) json)

  -- `txn.exists()`, which is false when the call fails.
  unfoldable pub exists : Exec Disk Bool
  exists d = (ok (S.sees at_transaction d && has_transaction d.transaction), d)

  unfoldable pub status_of : Bool → Exec Disk (Option InstallStatus)
  unfolding load_journal
  status_of false = pure none
  status_of true = do j ← load_journal; pure (some j.status)

  unfoldable pub installation_status : Exec Disk (Option InstallStatus)
  unfolding transaction exists status_of
  installation_status = do transaction; found ← exists; status_of found

  -- The path of the plan must be that of this root, and the root must be canonical.
  unfoldable pub check_root : Plan → Exec Disk (Unit {0})
  unfolding transaction
  check_root plan d =
      (do
        root ← lift (S.canonicalize plan.policy.root)
        lift (reject_if (not (root == plan.policy.root)) (unsafe_path (text "plan.json")))
        transaction
        lift (reject_if (not (root == d.path)) (unsafe_path (text "plan.json"))))
        d

module _ (C : Crates) (S : Platform) where
  unfoldable pub load_plan : Exec Disk Plan
  unfolding read_file check_root verify_plan
  load_plan = do
    bytes ← read_file (λ t. t.plan)
    lift (reject_if (ltb (4 * (1024 * 1024)) (length bytes)) size_limit)
    plan ← lift (ok_or (S.parse_plan bytes) json)
    check_root S plan
    v ← lift (verify_plan C S plan)
    pure plan
