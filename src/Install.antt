-- ===== src/Install.antt =====
-- The journaled transaction of src/install.rs: its data, its plan and its journal.
pub mod Folders
pub mod Listing
pub mod Stage
pub mod Apply
pub mod Recovery
pub mod Restore
pub mod Rollback
pub mod Members
pub mod Crash
pub mod Undo
pub mod Backing
pub mod Backed
pub mod Forward
pub mod Checking
pub mod Applied
pub mod Recovered
pub mod Crashes
pub mod Discard
pub mod Arm
use freshen.Base.{
  ℕ, ◌+◌, ◌*◌, ◌≡◌, Bool, true, false, not, ◌&&◌, ◌||◌, List, [], ◌∷◌, length, all, find, ltb,
}
use freshen.Base.{Option, none, some, ◌==◌, nat_eq, list_eq, if◌then◌else◌}
use freshen.Base.Bytes.{Bytes, text, is_ascii_hexdigit}
use freshen.Base.Outcome.{
  Result, ok, err, Error, invalid, size_limit, unsafe_path, io, not_found, json, reject_if, ok_or,
  ◌>>=◌, ◌>>◌,
}
use freshen.Crates.{Crates, Manifest, Package}
use freshen.Trust.{SignedManifest, TrustStore, verify}
use freshen.Policy.{InstallPolicy, validate}
use freshen.Storage.Tree.{Node, Place}
use freshen.Storage.{Disk}

pub data InstallState : Type 0 where
  prepared applying awaiting_confirmation committed rolling_back rolled_back failed : InstallState

pub record InstallStatus : Type 0 where
  pub state : InstallState
  pub version : Bytes
  pub detail : Bytes

pub record Plan : Type 0 where
  pub policy : InstallPolicy
  pub signed : SignedManifest
  pub trust : TrustStore
  pub target : Bytes
  pub parent_pid : ℕ
  pub relaunch_args : List Bytes
  pub token : Bytes

pub record Journal : Type 0 where
  pub status : InstallStatus
  pub touched : List Bytes
  pub existing : List Bytes

-- What the program asks whether it is there: an item, its backup, also whether that is a directory, and
-- the transaction.
pub data Site : Type 0 where
  at_item at_backup at_backup_kind : Place → Site
  at_transaction : Site

-- What the transaction takes from elsewhere: `serde_json` at the types of a plan and of a journal,
-- the texts that `thiserror` makes of errors, `fs::canonicalize`, the commands
-- `codesign` and `lipo` of macOS, and whether the program is built for macOS. `sees` says whether the
-- system answers when `Path::exists` asks; a test that fails says that nothing is there. The disk tells
-- which calls are still to come, so that the tests may fail in any order.
pub record Platform : Type 0 where
  pub print_plan : Plan → Bytes
  pub parse_plan : Bytes → Option Plan
  pub print_journal : Journal → Bytes
  pub parse_journal : Bytes → Option Journal
  pub display : Error → Bytes
  pub canonicalize : Bytes → Result Bytes
  pub codesign : Option Node → Bytes → Bytes → Result Bool
  pub lipo : Option Node → Result Bool
  pub is_macos : Bool
  pub sees : Site → Disk → Bool

-- `Path::exists` of what stands at a site.
abbrev pub seen : Bool → Option Node → Option Node
seen true o = o
seen false o = none

-- What is printed is read back.
abbrev pub ReadsBack : Platform → Type 0
ReadsBack S = (j : Journal) → S.parse_journal (S.print_journal j) ≡ some j

abbrev pub with_state : InstallState → Journal → Journal
with_state s j = record j { status = record j.status { state = s } }

abbrev pub with_detail : Bytes → Journal → Journal
with_detail text j = record j { status = record j.status { detail = text } }

module _ (C : Crates) (S : Platform) where
  unfoldable pub verify_plan : Plan → Result (Manifest C × Package C)
  verify_plan plan = do
    reject_if
        (plan.parent_pid == 0
          || not (length plan.token == 64)
          || not (all is_ascii_hexdigit plan.token))
        (invalid (text "invalid helper identity"))
    release ← verify C plan.trust plan.signed
    artifact ←
        ok_or (find (λ a. a.target == plan.target) release.artifacts)
          (invalid (text "missing target"))
    validate S.is_macos plan.policy artifact
    ok (release, artifact)
