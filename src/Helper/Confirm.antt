-- ===== src/Helper/Confirm.antt =====
-- `confirm_startup` of src/helper.rs.
use freshen.Base.{Bool, true, false, not, ◌∷◌, ◌++◌, Option, none, some, ◌==◌, list_eq, nat_eq}
use freshen.Base.Bytes.{Bytes, text, eq_ignore_ascii_case}
use freshen.Base.Outcome.{Result, err, invalid, hash_mismatch, io, not_found, other, reject_if}
use freshen.Base.Exec.{Exec, lift, pure, ◌>>=◌, ◌>>◌}
use freshen.Manifest.{PackageFile}
use freshen.Crates.{Crates}
use freshen.Policy as Policy
use freshen.Storage.{Disk, installation, call, tree, safe_join}
use freshen.Storage.Tree.{Node, file, dir, link, special, look}
use freshen.Install.{Platform, Plan, InstallStatus, InstallState, awaiting_confirmation}
use freshen.Install.Folders.{transaction, load_plan, installation_status}
use freshen.Helper.{confirmed, write_mark}
use freshen.Helper.Listed.{listed_program}

abbrev pub is_awaiting : InstallState → Bool
is_awaiting awaiting_confirmation = true
is_awaiting _ = false

abbrev pub awaits : Option InstallStatus → Bool
awaits none = false
awaits (some s) = is_awaiting s.state

module _ (C : Crates) where
  -- `hash_file` of what stands at the executable's path, and the comparison.
  unfoldable pub check_program : PackageFile → Option Node → Result (Unit {0})
  check_program f none = err (io not_found)
  check_program f (some (file c m)) =
      reject_if (not (eq_ignore_ascii_case (C.sha256 c) f.sha256)) (hash_mismatch f.path)
  check_program f (some (dir es)) = err (io other)
  check_program f (some link) = err (io other)
  check_program f (some special) = err (io other)

module _ (C : Crates) (S : Platform) where
  -- From the check of the token on.
  unfoldable pub acknowledge : Bytes → Bytes → Result Bytes → Plan → Exec Disk Bool
  unfolding check_program listed_program
  acknowledge token root current plan = do
    lift (reject_if (not (token == plan.token)) (invalid (text "confirmation token mismatch")))
    p ← safe_join installation (Policy.executable plan.policy)
    expected ← lift (S.canonicalize (root ++ b'/' ∷ Policy.executable plan.policy))
    path ← lift current
    actual ← lift (S.canonicalize path)
    lift (reject_if (not (actual == expected)) (invalid (text "unexpected confirming executable")))
    f ← lift (listed_program C plan)
    call
    λ d. (check_program C f (look p (tree installation d)), d)
    status ← installation_status S
    lift (
        reject_if (not (awaits status)) (invalid (text "transaction is not awaiting confirmation")))
    write_mark confirmed plan.token
    pure true

  -- The two variables of the environment, the root, and the path of the running program.
  unfoldable pub confirm_startup :
      Option Bytes → Option Bytes → Bytes → Result Bytes → Exec Disk Bool
  unfolding acknowledge
  confirm_startup none expected_root root current = pure false
  confirm_startup (some token) none root current = pure false
  confirm_startup (some token) (some expected_root) root current = do
    r ← lift (S.canonicalize root)
    e ← lift (S.canonicalize expected_root)
    lift (reject_if (not (r == e)) (invalid (text "confirmation root mismatch")))
    transaction
    plan ← load_plan C S
    acknowledge token r current plan
