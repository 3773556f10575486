-- ===== src/Tests/Helpers.antt =====
-- The helper process beside the application, on the installation of Tests/Installs.
use freshen.Base.{◌≡◌, ◌⊎◌, refl, Bool, inl, inr, true, false, [], ◌∷◌, none, some, List}
use freshen.Base.Bytes.{Bytes, text}
use freshen.Base.Outcome.{Result, ok}
use freshen.Storage.{Disk, tree}
use freshen.Install.{awaiting_confirmation, rolled_back}
use freshen.Install.Restore.{AreRestored}
use freshen.Helper.{
  Session, Deed, ready, cancel, confirmed, delivered, no_such_process, idle, writes, parent_answers,
  child_ends, within, open_parent, write_mark, observe, has_mark, do_deed, catch, mark_is,
}
use freshen.Helper.Execute.{run_helper, execute}
use freshen.Helper.Keeping.{marked, is_there}
use freshen.Helper.Untouched.{Unchanged, run_helper-Unchanged}
use freshen.Helper.Declined.{run_helper-cancelled}
use freshen.Helper.Ending.{Start}
use freshen.Helper.Settled.{execute-commits, execute-restores}
use freshen.Helper.Confirming.{IsConfirmed}
use freshen.Helper.Finishing.{IsCommitted}
use freshen.Helper.Confirm.{confirm_startup}
use freshen.Helper.Inspected.{Same}
use freshen.Helper.Evidence.{Evidence, confirm_startup-Evidence, confirm_startup-Same}
use freshen.Helper.Launch.{launch}
use freshen.Helper.Launched.{IsReady, launch-IsReady}
use freshen.Storage.Frames.{marks}
use freshen.Tests.Fixtures.{crates, release, archive}
use freshen.Tests.Journals.{print_journal, parse-print}
use freshen.Tests.Installs.{
  disk, platform, plan, armed, plan_verifies, are_apart, hold_files, is_armed, folder,
}
use freshen.Policy as Policy
use freshen.Policy.{items}
use freshen.Storage.{
  installation, in_time, call, change, check_links, safe_join, copy_file, copy_tree, copy_from,
  retry, copy_retrying, copy_tree_with_retry, remove_tree, in_folder,
}
use freshen.Storage.Tree.{
  file, dir, end, entry, look, get, set, delete, make_dirs, put, cut, parent,
}
use freshen.Install.Folders.{
  transaction, lock, file_of, read_file, save_journal, load_journal, check_root, load_plan,
  installation_status, exists,
}
use freshen.Install.Listing.{text_le, insert_path, list_entries, list_node, list_files, same_set}
use freshen.Install.Stage.{check_node, check_staged, check_code, verify_stage}
use freshen.Install.Apply.{
  make_backup, back_up_found, back_up_item, move_in, move_aside, put_back_found, put_back, back_up,
  install_items, place_item, restore_at, restore_item, restore_items, settle, run_install,
  rollback_inner, apply_from, apply,
}
use freshen.Install.Recovery.{resume, finish, rollback, recover_installation}
use freshen.Install.Crashes.{reschedule}

-- The application runs, and the helper has just been started.
abbrev beside : List Deed → Session
beside deeds = record { disk = disk; parent = delivered; child = none; started = []; deeds = deeds }

abbrev arguments : List Bytes
arguments = text "--freshen-apply" ∷ text "root/.freshen/transaction/plan.json" ∷ plan.token ∷ []

run_helper-Unchanged_example :
    Unchanged
      (beside (idle ∷ writes ready [] ∷ []))
      (run_helper crates platform arguments (beside (idle ∷ writes ready [] ∷ []))).1
run_helper-Unchanged_example =
    run_helper-Unchanged crates platform arguments (beside (idle ∷ writes ready [] ∷ [])) refl
      (refl, (refl, tt))

-- The update is cancelled just before the application exits.
abbrev cancelled : Session
cancelled = beside (idle ∷ writes cancel (text "cancel") ∷ parent_answers no_such_process ∷ [])

there : is_there disk ≡ true
unfolding is_there marks
there = refl

run_helper-cancelled_example :
    Unchanged cancelled (run_helper crates platform arguments cancelled).1
run_helper-cancelled_example =
    run_helper-cancelled crates platform arguments cancelled refl there refl (inr (refl, inl refl))

-- The application exits in the second round.
abbrev leaving : Session
leaving = record (beside (idle ∷ idle ∷ idle ∷ parent_answers no_such_process ∷ [])) {
  disk = record disk { clock = true ∷ true ∷ [] };
}

-- The application exits at once, and the new one leaves the token.
abbrev confirming : Session
confirming =
    beside (idle ∷ parent_answers no_such_process ∷ idle ∷ writes confirmed plan.token ∷ [])

confirming_returns : (execute crates platform plan confirming).0 ≡ ok tt
unfolding plan_verifies look get tree apply reschedule recover_installation items call change
    check_links safe_join copy_file copy_tree copy_from retry copy_retrying copy_tree_with_retry
    remove_tree in_folder set delete make_dirs put cut parent transaction lock file_of read_file
    save_journal load_journal check_root load_plan text_le insert_path list_entries list_node
    list_files same_set check_node check_staged check_code verify_stage make_backup back_up_found
    back_up_item move_in move_aside put_back_found put_back exists back_up install_items place_item
    restore_at restore_item restore_items settle run_install rollback_inner apply_from resume
    in_time execute finish rollback installation_status marked marks Policy.executable within
    open_parent write_mark observe has_mark do_deed catch mark_is
confirming_returns = refl

execute-commits_example :
    Start crates platform parse-print plan
      (release 2)
      archive
      plan_verifies
      (text "app.exe" ∷ [])
      (text "app.exe")
      (text "sounds" ∷ [])
      refl
      disk
      are_apart
      hold_files
      armed
      is_armed
      (execute crates platform plan confirming).1.disk
    ⊎ (IsConfirmed plan (execute crates platform plan confirming).1.disk
        × IsCommitted platform (execute crates platform plan confirming).1.disk)
execute-commits_example =
    execute-commits crates platform parse-print plan (release 2) archive plan_verifies
      (text "app.exe" ∷ []) (text "app.exe") (text "sounds" ∷ []) refl disk are_apart hold_files
      armed is_armed confirming refl confirming_returns

-- The new application ends without a word.
abbrev failing : Session
failing = beside (
    idle
    ∷ parent_answers no_such_process
    ∷ idle
    ∷ idle
    ∷ child_ends (record { is_success = false; shown = text "exit status: 1" })
    ∷ [])

failing_unconfirmed : marked confirmed (execute crates platform plan failing).1.disk ≡ none
unfolding plan_verifies look get tree apply reschedule recover_installation items call change
    check_links safe_join copy_file copy_tree copy_from retry copy_retrying copy_tree_with_retry
    remove_tree in_folder set delete make_dirs put cut parent transaction lock file_of read_file
    save_journal load_journal check_root load_plan text_le insert_path list_entries list_node
    list_files same_set check_node check_staged check_code verify_stage make_backup back_up_found
    back_up_item move_in move_aside put_back_found put_back exists back_up install_items place_item
    restore_at restore_item restore_items settle run_install rollback_inner apply_from resume
    in_time execute finish rollback installation_status marked marks Policy.executable within
    open_parent write_mark observe has_mark do_deed catch mark_is
failing_unconfirmed = refl

failing_silent : ¬ IsConfirmed plan (execute crates platform plan failing).1.disk
failing_silent h = cc failing_unconfirmed

failing_recovers :
    (recover_installation crates platform
      (text "root")
      (reschedule [] [] (execute crates platform plan failing).1.disk)).0
    ≡ ok (record {
      state = rolled_back;
      version = text "2.0.0";
      detail = text "new application exited without confirming startup: exit status: 1";
    })
unfolding confirming_returns resume reschedule
failing_recovers = refl

execute-restores_example :
    AreRestored
      (tree installation disk)
      (items plan.policy archive)
      (recover_installation crates platform
        (text "root")
        (reschedule [] [] (execute crates platform plan failing).1.disk)).1
execute-restores_example =
    execute-restores crates platform parse-print plan (release 2) archive plan_verifies
      (text "app.exe" ∷ []) (text "app.exe") (text "sounds" ∷ []) refl disk are_apart hold_files
      armed is_armed failing refl (λ p d. refl) [] [] (text "root") failing_silent failing_recovers

-- The new application runs beside the journal that waits for it.
abbrev waiting : Disk
waiting = record disk {
  root = some (
      dir (
        entry (text "app.exe") (file (text "new") true) (
          entry (text "sounds") (dir (entry (text "die4.opus") (file (text "snd") false) end))
            end)));
  transaction = some (record folder {
    journal = some (
        print_journal (record armed {
          status = record { state = awaiting_confirmation; version = text "2.0.0"; detail = [] };
        }));
  });
}

abbrev confirmation : Result Bool × Disk
confirmation =
    confirm_startup crates platform (some plan.token) (some (text "root")) (text "root")
      (ok (text "root/app.exe")) waiting

confirmation_succeeds : confirmation.0 ≡ ok true
unfolding confirming_returns confirm_startup
confirmation_succeeds = refl

confirm_startup-Evidence_example :
    Evidence crates platform
      (some plan.token)
      (some (text "root"))
      (text "root")
      (ok (text "root/app.exe"))
      waiting
      confirmation.1
confirm_startup-Evidence_example =
    confirm_startup-Evidence crates platform (text "root") (ok (text "root/app.exe")) waiting
      (some plan.token) (some (text "root")) confirmation_succeeds

confirm_startup-Same_example : Same waiting confirmation.1
confirm_startup-Same_example =
    confirm_startup-Same crates platform (text "root") (ok (text "root/app.exe")) waiting
      (some plan.token) (some (text "root"))

-- The helper is ready in the first round.
abbrev launching : Session
launching = record (beside (writes ready plan.token ∷ [])) {
  disk = record disk { clock = true ∷ [] };
}

launch_returns : (launch plan (file (text "helper") true) launching).0 ≡ ok tt
unfolding confirming_returns launch
launch_returns = refl

launch-IsReady_example :
    IsReady plan launching.disk tt (launch plan (file (text "helper") true) launching).1
launch-IsReady_example = launch-IsReady plan (file (text "helper") true) launching launch_returns
