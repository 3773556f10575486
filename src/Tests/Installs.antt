-- ===== src/Tests/Installs.antt =====
-- The transaction of a portable installation, with a crash on the way.
use freshen.Base.{List, Option, sym, subst, ◌∙◌}
use freshen.Base.{
  ◌≡◌, ◌⊎◌, refl, inl, inr, true, false, [], ◌∷◌, none, some, list_beq, all, any, contains, find,
}
use freshen.Base.Bytes.{
  text, split, starts_with, strip_prefix, rsplit_once, upper, lower, is_ascii, is_ascii_hexdigit,
}
use freshen.Base.Bytes.Trim.{trim}
use freshen.Base.Outcome.{Error, err, ok, other, IoKind}
use freshen.SafePath.{check_path, is_bad_part, is_device, is_bad_byte, stem}
use freshen.Manifest.{check_hash, check_files, check_ancestors, check_artifact, check_artifacts}
use freshen.Manifest as M
use freshen.Trust.{accepts, verify, signing_domain, signing_message}
use freshen.Policy.{
  InstallPolicy, portable, check_paths, set_of, is_beneath, has_stray, validate_portable,
  validate_layout, validate, items,
}
use freshen.Storage.{Disk, Folder, installation, tree}
use freshen.Storage.Tree.{file, dir, end, entry, look, get, is_apart}
use freshen.Install.{
  at_transaction, Platform, Plan, Journal, prepared, applying, rolled_back, verify_plan,
}
use freshen.Storage.{
  in_time, call, change, check_links, safe_join, copy_file, copy_tree, copy_from, retry,
  copy_retrying, copy_tree_with_retry, remove_tree, in_folder,
}
use freshen.Storage.Tree.{set, delete, make_dirs, put, cut, parent}
use freshen.Install.Folders.{
  transaction, lock, file_of, read_file, save_journal, load_journal, check_root, load_plan,
}
use freshen.Install.Listing.{text_le, insert_path, list_entries, list_node, list_files, same_set}
use freshen.Install.Stage.{check_node, check_staged, check_code, verify_stage}
use freshen.Install.Apply.{
  make_backup, back_up_found, back_up_item, move_in, move_aside, put_back_found, put_back, back_up,
  install_items, place_item, restore_at, restore_item, restore_items, settle, run_install,
  rollback_inner, apply_from,
}
use freshen.Install.Recovery.{resume, discard_finished_installation}
use freshen.Storage.Frames.{saved}
use freshen.Install.Restore.{AreRestored, AreApart, HoldsFiles}
use freshen.Install.Crashes.{
  IsArmed, reschedule, applied, recovered, recover-restores, Leaves-Recoverable,
}
use freshen.Install.Crash.{Recoverable}
use freshen.Install.Apply.{apply}
use freshen.Install.Recovery.{recover_installation}
use freshen.Install.Discard.{discard-unfinished}
use freshen.Tests.Fixtures.{crates, store, signed, archive, release}
use freshen.Tests.Journals.{print_journal, parse_journal, parse-print}

abbrev pub policy : InstallPolicy
policy = record {
  root = text "root";
  layout = portable (text "app.exe" ∷ []) (text "app.exe") (text "sounds" ∷ []);
  exit_timeout_secs = 120;
  confirmation_timeout_secs = 120;
}

abbrev pub plan : Plan
plan = record {
  policy = policy;
  signed = signed 2;
  trust = store;
  target = text "test-target";
  parent_pid = 7;
  relaunch_args = [];
  token = archive.sha256;
}

-- The text of the one plan is empty.
abbrev pub platform : Platform
platform = record {
  sees = λ s d. true;
  print_plan = λ p. [];
  parse_plan = λ s. some plan;
  print_journal = print_journal;
  parse_journal = parse_journal;
  display = λ e. text "failed";
  canonicalize = λ s. ok s;
  codesign = λ n a b. ok true;
  lipo = λ n. ok true;
  is_macos = false;
}

abbrev pub armed : Journal
armed = record {
  status = record { state = prepared; version = text "2.0.0"; detail = [] };
  touched = [];
  existing = [];
}

abbrev pub folder : Folder
folder = record {
  plan = some [];
  journal = some (print_journal armed);
  stage = some (
      dir (
        entry (text "app.exe") (file (text "new") true) (
          entry (text "sounds") (dir (entry (text "die4.opus") (file (text "snd") false) end))
            end)));
  backup = none;
  previous_bundle = none;
  helper = none;
  ready = none;
  cancel = none;
  confirmed = none;
  helper_error = none;
}

abbrev pub disk : Disk
disk = record {
  root = some (dir (entry (text "app.exe") (file (text "old") true) end));
  transaction = some folder;
  is_redirected = false;
  is_locked = false;
  path = text "root";
  faults = [];
  clock = [];
}

unfoldable pub plan_verifies : verify_plan crates platform plan ≡ ok (release 2, archive)
unfolding verify_plan verify accepts signing_message signing_domain trim text any list_beq all
    contains find is_ascii is_ascii_hexdigit lower upper rsplit_once split starts_with strip_prefix
    M.validate check_artifacts check_artifact check_hash check_files check_ancestors
    M.has_file_ancestor check_path is_bad_byte is_bad_part is_device stem check_paths has_stray
    is_beneath set_of validate validate_layout validate_portable
plan_verifies = refl

place_app : items plan.policy archive ≡ text "app.exe" ∷ text "sounds/die4.opus" ∷ []
unfolding items text
place_app = refl

pub are_apart : AreApart (tree installation disk) (items plan.policy archive)
unfolding items text split list_beq is_apart tree
are_apart x y (inl a) (inl b) = inl (sym a ∙ b)
are_apart x y (inl a) (inr (inl b)) = inr (
    subst (λ z. is_apart (split b'/' z) (split b'/' y) ≡ true) a
      (subst (λ z. is_apart (split b'/' (text "app.exe")) (split b'/' z) ≡ true) b refl))
are_apart x y (inr (inl a)) (inl b) = inr (
    subst (λ z. is_apart (split b'/' z) (split b'/' y) ≡ true) a
      (subst (λ z. is_apart (split b'/' (text "sounds/die4.opus")) (split b'/' z) ≡ true) b refl))
are_apart x y (inr (inl a)) (inr (inl b)) = inl (sym a ∙ b)
are_apart x y (inl a) (inr (inr v)) = absurd v
are_apart x y (inr (inl a)) (inr (inr v)) = absurd v
are_apart x y (inr (inr v)) m = absurd v

pub hold_files : HoldsFiles (tree installation disk) (items plan.policy archive)
unfolding items text split list_beq look get tree
hold_files x (inl a) = inr (
  text "old",
  (
    true,
    subst (λ z. look (split b'/' z) (tree installation disk) ≡ some (file (text "old") true)) a
        refl,
  ),
)
hold_files x (inr (inl a)) =
    inl (subst (λ z. look (split b'/' z) (tree installation disk) ≡ none) a refl)
hold_files x (inr (inr v)) = absurd v

pub is_armed : IsArmed platform armed disk
unfolding saved
is_armed = record { on_disk = refl; untouched = refl; fresh = refl }

-- Thirty calls work, so that one item is replaced and the other one is noted, and the next four
-- fail, those of the roll back among them.
abbrev five : List (Option IoKind) → List (Option IoKind)
five l = none ∷ none ∷ none ∷ none ∷ none ∷ l

abbrev faults : List (Option IoKind)
faults =
    five (five (five (five (five (five (some other ∷ some other ∷ some other ∷ some other ∷ []))))))

abbrev crashed : Disk
crashed = (apply crates platform plan (reschedule faults [] disk)).1

-- The first recovery fails too.
abbrev crashed_again : Disk
crashed_again =
    (recover_installation crates platform (text "root")
      (reschedule (none ∷ none ∷ some other ∷ []) [] crashed)).1

crashed_new : look (text "app.exe" ∷ []) (tree installation crashed) ≡ some (file (text "new") true)
unfolding plan_verifies look get tree apply reschedule recover_installation items call change
    check_links safe_join copy_file copy_tree copy_from retry copy_retrying copy_tree_with_retry
    remove_tree in_folder set delete make_dirs put cut parent transaction lock file_of read_file
    save_journal load_journal check_root load_plan text_le insert_path list_entries list_node
    list_files same_set check_node check_staged check_code verify_stage make_backup back_up_found
    back_up_item move_in put_back_found put_back move_aside back_up install_items place_item
    restore_at restore_item restore_items settle run_install rollback_inner apply_from resume
    in_time
crashed_new = refl

recovery_returns :
    (recover_installation crates platform (text "root") crashed_again).0
    ≡ ok (record { state = rolled_back; version = text "2.0.0"; detail = [] })
unfolding plan_verifies look get tree apply reschedule recover_installation items call change
    check_links safe_join copy_file copy_tree copy_from retry copy_retrying copy_tree_with_retry
    remove_tree in_folder set delete make_dirs put cut parent transaction lock file_of read_file
    save_journal load_journal check_root load_plan text_le insert_path list_entries list_node
    list_files same_set check_node check_staged check_code verify_stage make_backup back_up_found
    back_up_item move_in put_back_found put_back move_aside back_up install_items place_item
    restore_at restore_item restore_items settle run_install rollback_inner apply_from resume
    in_time
recovery_returns = refl

recover-restores_example :
    AreRestored
      (tree installation disk)
      (items plan.policy archive)
      (recover_installation crates platform (text "root") crashed_again).1
recover-restores_example =
    recover-restores crates platform parse-print plan (release 2) archive plan_verifies
      (text "app.exe" ∷ []) (text "app.exe") (text "sounds" ∷ []) refl disk are_apart hold_files
      armed (λ p d. refl) is_armed (text "root")
      (recovered (none ∷ none ∷ some other ∷ []) [] (applied faults [])) recovery_returns

Leaves-Recoverable_example :
    Recoverable platform
      (Unit {0})
      (tree installation disk)
      (items plan.policy archive)
      crashed_again
Leaves-Recoverable_example =
    Leaves-Recoverable crates platform parse-print plan (release 2) archive plan_verifies
      (text "app.exe" ∷ []) (text "app.exe") (text "sounds" ∷ []) refl disk are_apart hold_files
      armed (λ p d. refl) is_armed (text "root")
      (recovered (none ∷ none ∷ some other ∷ []) [] (applied faults []))

-- The transaction after the crash, whose journal says that it is being applied.
abbrev unfinished : Journal
unfinished = record {
  status = record { state = applying; version = text "2.0.0"; detail = [] };
  touched = text "app.exe" ∷ [];
  existing = text "app.exe" ∷ [];
}

abbrev open_folder : Folder
open_folder = record folder { journal = some (print_journal unfinished) }

abbrev open_disk : Disk
open_disk = record disk { transaction = some open_folder }

discard-unfinished_example :
    (((e : Error) × ((discard_finished_installation platform (text "root") open_disk).0 ≡ err e))
      ⊎ (platform.sees at_transaction
            (discard_finished_installation platform (text "root") open_disk).1
          ≡ false))
    × ((discard_finished_installation platform (text "root") open_disk).1.transaction
        ≡ some open_folder)
discard-unfinished_example =
    discard-unfinished open_folder platform parse-print unfinished refl refl (text "root") open_disk
      refl
