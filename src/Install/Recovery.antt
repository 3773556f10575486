-- ===== src/Install/Recovery.antt =====
-- `installation_status`, `recover_installation`, `discard_finished_installation`, `finish` and
-- `rollback` of src/install.rs.
use freshen.Base.{Bool, true, false, not, ◌||◌, none}
use freshen.Base.Bytes.{Bytes, text}
use freshen.Base.Outcome.{ok, recovery, reject_if}
use freshen.Base.Exec.{Exec, lift, pure, ◌>>=◌, ◌>>◌}
use freshen.Crates.{Crates}
use freshen.Storage.{Disk, call}
use freshen.Install.{
  Platform, Plan, Journal, InstallStatus, InstallState, prepared, applying, awaiting_confirmation,
  committed, rolling_back, rolled_back, failed, with_state, with_detail,
}
use freshen.Install.Folders.{transaction, lock, exists, load_plan, load_journal, save_journal}
use freshen.Install.Apply.{rollback_inner}

-- `matches!(state, Committed | RolledBack)`
abbrev pub is_final : InstallState → Bool
is_final committed = true
is_final rolled_back = true
is_final prepared = false
is_final applying = false
is_final awaiting_confirmation = false
is_final rolling_back = false
is_final failed = false

abbrev pub is_unapplied : InstallState → Bool
is_unapplied prepared = true
is_unapplied _ = false

module _ (S : Platform) where
  unfoldable pub finish : InstallState → Bytes → Exec Disk (Unit {0})
  unfolding transaction load_journal save_journal
  finish state detail = do
    transaction
    j ← load_journal S
    save_journal S (with_detail detail (with_state state j))

  -- `remove_tree` of the transaction, which is a directory.
  unfoldable pub remove_transaction : Exec Disk (Unit {0})
  remove_transaction = do call; call; λ d. (ok tt, record d { transaction = none })

  unfoldable pub discard_existing : Bool → Exec Disk (Unit {0})
  unfolding load_journal remove_transaction
  discard_existing false = pure tt
  discard_existing true = do
    j ← load_journal S
    lift (
        reject_if (not (is_final j.status.state || is_unapplied j.status.state))
          (recovery (text "cannot discard an unfinished installation")))
    remove_transaction

  unfoldable pub discard_finished_installation : Bytes → Exec Disk (Unit {0})
  unfolding lock transaction exists discard_existing
  discard_finished_installation root = do
    lift (S.canonicalize root) >>= λ r. pure tt
    lock
    transaction
    found ← exists S
    discard_existing found

module _ (C : Crates) (S : Platform) where
  unfoldable pub rollback : Plan → Bytes → Exec Disk Journal
  unfolding transaction load_journal
  rollback plan detail = do
    transaction
    j ← load_journal S
    rollback_inner C S plan (with_detail detail j)

  -- A final state is left alone.
  unfoldable pub resume : Bool → Plan → Journal → Exec Disk InstallStatus
  resume true plan j = pure j.status
  resume false plan j = do j' ← rollback_inner C S plan j; pure j'.status

  unfoldable pub recover_installation : Bytes → Exec Disk InstallStatus
  unfolding lock transaction load_plan load_journal resume
  recover_installation root = do
    r ← lift (S.canonicalize root)
    lock
    transaction
    plan ← load_plan C S
    j ← load_journal S
    resume (is_final j.status.state) plan j
