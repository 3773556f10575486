-- ===== src/Helper/Execute.antt =====
-- `run_helper` and `execute` of src/helper.rs, and `main` of src/bin/helper.rs.
use freshen.Base.{
  ℕ, zero, suc, ◌*◌, Bool, true, false, not, List, [], ◌∷◌, ◌++◌, Option, none, some, ◌==◌, list_eq,
  nat_eq, if◌then◌else◌,
}
use freshen.Base.Bytes.{Bytes, text}
use freshen.Base.Outcome.{Result, ok, err, helper, recovery, reject_if}
use freshen.Base.Exec.{Exec, lift, pure, ◌>>=◌, ◌>>◌}
use freshen.Crates.{Crates}
use freshen.Policy as Policy
use freshen.Storage.{installation, call, in_time, safe_join}
use freshen.Storage.Tree.{Place}
use freshen.Install.{Platform, Plan, InstallStatus, InstallState, rolling_back, committed, failed}
use freshen.Install.Folders.{transaction, lock, load_plan, installation_status}
use freshen.Install.Stage.{verify_stage}
use freshen.Install.Apply.{apply}
use freshen.Install.Recovery.{finish, rollback}
use freshen.Helper.{
  Session, ExitStatus, ready, cancel, confirmed, helper_error, within, ignore, catch, observe,
  write_mark, has_mark, mark_is, open_parent, parent_exited, try_wait,
}

-- The loop that waits for the parent: whether the update is cancelled. `again` is the next round.
abbrev pub too_late : Exec Session Bool
too_late = lift (err (helper (text "application did not exit before the deadline")))

unfoldable pub after_exited : Exec Session Bool → Bool → Exec Session Bool
after_exited again true = pure false
after_exited again false = do early ← within in_time; if early then again else too_late

unfoldable pub after_cancel : Exec Session Bool → Bool → Exec Session Bool
unfolding after_exited parent_exited
after_cancel again true = pure true
after_cancel again false = do observe; gone ← parent_exited; after_exited again gone

unfoldable pub await_round : Exec Session Bool → Exec Session Bool
unfolding after_cancel
await_round again = do observe; left ← within (has_mark cancel); after_cancel again left

-- A round sleeps 100 ms, so that the deadline has passed after ten rounds a second.
unfoldable pub await_exit : ℕ → Exec Session Bool
unfolding await_round
await_exit zero = await_round too_late
await_exit (suc rounds) = let again = await_exit rounds in λ w. await_round again w

abbrev pub is_undoing : InstallState → Bool
is_undoing rolling_back = true
is_undoing _ = false

abbrev pub is_rolling_back : Option InstallStatus → Bool
is_rolling_back none = false
is_rolling_back (some s) = is_undoing s.state

module _ (C : Crates) (S : Platform) (plan : Plan) where
  abbrev detail : Bytes
  detail =
      text "startup confirmation timed out; new process remains running; stop it before recovery"

  unfoldable pub unconfirmed : Exec Session (Unit {0})
  unconfirmed = do within (finish S failed detail); lift (err (recovery detail))

  -- The loop that waits for the confirmation.
  unfoldable pub after_status :
      Exec Session (Unit {0}) → Option ExitStatus → Exec Session (Unit {0})
  unfolding unconfirmed
  after_status again none = do early ← within in_time; if early then again else unconfirmed
  after_status again (some status) = do
    j ← within (
        rollback C S plan
          (text "new application exited without confirming startup: " ++ status.shown))
    lift (err (helper (text "new application failed to confirm startup; rollback completed")))

  unfoldable pub after_confirmed : Exec Session (Unit {0}) → Bool → Exec Session (Unit {0})
  unfolding after_status try_wait
  after_confirmed again true =
      within (finish S committed (text "new application acknowledged startup"))
  after_confirmed again false = do observe; status ← try_wait; after_status again status

  unfoldable pub confirm_round : Exec Session (Unit {0}) → Exec Session (Unit {0})
  unfolding after_confirmed
  confirm_round again = do
    observe
    seen ← within (mark_is confirmed plan.token)
    after_confirmed again seen

  unfoldable pub await_confirmation : ℕ → Exec Session (Unit {0})
  unfolding confirm_round
  await_confirmation zero = confirm_round unconfirmed
  await_confirmation (suc rounds) =
      let again = await_confirmation rounds in λ w. confirm_round again w

  -- The new application is started with the token and the root in its environment.
  unfoldable pub start_application : Place → Exec Session (Unit {0})
  start_application program w = (
    ok tt,
    record w {
      child = none;
      started =
          record {
            program = program;
            arguments = plan.relaunch_args;
            token = plan.token;
            root = plan.policy.root;
          }
          ∷ w.started;
    },
  )

  unfoldable pub after_spawn : Place → Result (Unit {0}) → Exec Session (Unit {0})
  unfolding start_application await_confirmation
  after_spawn program (ok u) = do
    start_application program
    await_confirmation (10 * plan.policy.confirmation_timeout_secs)
  after_spawn program (err e) = do
    j ← within (rollback C S plan (text "relaunch failed: " ++ S.display e))
    lift (err e)

  -- `apply` attempts a rollback itself; if that failed too, the failure is written down.
  unfoldable pub after_apply : Result (Unit {0}) → Exec Session (Unit {0})
  unfolding after_spawn
  after_apply (ok u) = do
    program ← within (safe_join installation (Policy.executable plan.policy))
    catch (within call) (after_spawn program)
  after_apply (err e) = do
    status ← within (installation_status S)
    if is_rolling_back status then within (ignore (finish S failed (S.display e))) else pure tt
    lift (err e)

  unfoldable pub install : Bool → Exec Session (Unit {0})
  unfolding after_apply
  install true = pure tt
  install false = catch (within (apply C S plan)) after_apply

  unfoldable pub go_on : Bool → Exec Session (Unit {0})
  unfolding install
  go_on true = pure tt
  go_on false = do observe; left ← within (has_mark cancel); install left

  unfoldable pub execute : Exec Session (Unit {0})
  unfolding await_exit go_on
  execute = do
    within transaction
    within (verify_stage C S plan)
    pid ← lift (open_parent plan.parent_pid)
    within (write_mark ready plan.token)
    left ← await_exit (10 * plan.policy.exit_timeout_secs)
    go_on left

module _ (C : Crates) (S : Platform) where
  unfoldable pub report_failure : Result (Unit {0}) → Exec Session Bool
  report_failure (ok u) = pure true
  report_failure (err e) = do
    within transaction
    within (ignore (write_mark helper_error (S.display e)))
    lift (err e)

  -- The disk is that of the plan which the first argument names.
  unfoldable pub run_arguments : List Bytes → Exec Session Bool
  unfolding report_failure execute
  run_arguments (path ∷ token ∷ []) = do
    plan ← within (load_plan C S)
    lift (reject_if (not (token == plan.token)) (helper (text "stale helper launch token")))
    within lock
    catch (execute C S plan) report_failure
  run_arguments _ = lift (err (helper (text "expected --freshen-apply PLAN TOKEN")))

  unfoldable pub run_helper : List Bytes → Exec Session Bool
  unfolding run_arguments
  run_helper [] = pure false
  run_helper (flag ∷ rest) =
      if flag == text "--freshen-apply" then run_arguments rest else pure false

-- The exit code of the helper's program.
unfoldable pub exit_code : Result Bool → ℕ
exit_code (ok true) = 0
exit_code (ok false) = 2
exit_code (err e) = 1
