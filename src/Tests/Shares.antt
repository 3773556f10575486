-- ===== src/Tests/Shares.antt =====
-- A synchronized installation that is complete.
use freshen.Base.{
  ◌≡◌, refl, true, false, [], none, some, All, find, ◌==◌, list_eq, nat_eq, contains, any, all,
  list_beq,
}
use freshen.Base.Bytes.{
  text, split, starts_with, upper, lower, is_ascii, is_ascii_hexdigit, rsplit_once,
}
use freshen.Base.Bytes.Trim.{trim}
use freshen.Base.Outcome.{ok, ok_or, json}
use freshen.SafePath.{check_path, is_bad_part, is_device, is_bad_byte, stem}
use freshen.Manifest.{
  validate, check_artifacts, check_artifact, check_files, check_ancestors, has_file_ancestor,
  check_hash,
}
use freshen.Trust.{SignedManifest, verify, accepts, signing_message, signing_domain}
use freshen.Crates.{Manifest, Package}
use freshen.Storage.{Disk, installation, tree, call, safe_join, check_links}
use freshen.Storage.Tree.{file, dir, end, entry, look, get}
use freshen.Shared.{ready_to_restart, is_current, matches, pending_files, is_irrelevant, inspect}
use freshen.Shared.Ready.{IsPresent}
use freshen.Shared.Inspect.{IsRelevant, inspect-ready}
use freshen.Tests.Fixtures.{crates, store, signed}

abbrev disk : Disk
disk = record {
  root = some (
      dir (
        entry (text "app.exe") (file (text "new") true) (
          entry (text "sounds") (dir (entry (text "die4.opus") (file (text "snd") false) end))
            end)));
  transaction = none;
  is_redirected = false;
  is_locked = false;
  path = text "root";
  faults = [];
  clock = [];
}

is_ready :
    (inspect crates
      (λ b. some (signed 2))
      (ok [])
      store
      (text "test-app")
      (text "stable")
      1
      (text "test-target")
      disk).0
    ≡ ok (ready_to_restart 2)
unfolding inspect is_irrelevant pending_files matches is_current look get tree call safe_join
    check_links find contains any all list_beq text split starts_with upper lower is_ascii
    is_ascii_hexdigit rsplit_once trim check_path is_bad_part is_device is_bad_byte stem validate
    check_artifacts check_artifact check_files check_ancestors has_file_ancestor check_hash verify
    accepts signing_message signing_domain
is_ready = refl

inspect-ready_example :
    (s : SignedManifest) × ((r : Manifest crates) × ((ok_or (some (signed 2)) json ≡ ok s)
        × ((verify crates store s ≡ ok r)
            × (IsRelevant crates (text "test-app") (text "stable") 1 r
                × ((a : Package crates) × ((find (λ a. a.target == text "test-target") r.artifacts
                        ≡ some a)
                      × ((2 ≡ r.version)
                          × All (IsPresent crates (tree installation disk)) a.files)))))))
inspect-ready_example =
    inspect-ready crates (λ b. some (signed 2)) [] store (text "test-app") (text "stable") 1
      (text "test-target") disk is_ready
