-- ===== src/Ffi/Arming.antt =====
-- ffi/src/install.rs: the policy of the host, arming, the handle of an armed update, and the status of
-- an installation. What the library does is a parameter here.
pub mod Once
use freshen.Base.{
  ℕ, ◌^◌, Bool, true, false, List, [], Option, none, some, ◌++◌, ltb, ◌==◌, nat_eq, if◌then◌else◌,
}
use freshen.Base.Bytes.{Bytes, text}
use freshen.Base.Exec.{Exec}
use freshen.Policy.{InstallPolicy, bundle, portable_expanding, portable_only}
use freshen.Install.{
  InstallState, prepared, applying, awaiting_confirmation, committed, rolling_back, rolled_back,
  failed, InstallStatus,
}
use freshen.Ffi.{
  Outcome, done, Caller, Call, Texts, give, refuse, map_failure, from, signed_decimal, run, ◌>>=◌,
  ◌>>◌,
}
use freshen.Ffi.Util.{cstr, cstr_list, handle, null, store, to_c_string}

-- `FreshenInstallPolicy`. Its size is that of a machine of 64 bits.
pub record PolicyArguments : Type 0 where
  pub struct_size : ℕ
  pub layout : ℕ
  pub root : Option Bytes
  pub executable : Option Bytes
  pub owned_files : Option (List (Option Bytes))
  pub owned_file_count : ℕ
  pub expandable_directories : Option (List (Option Bytes))
  pub expandable_directory_count : ℕ
  pub bundle_name : Option Bytes
  pub bundle_id : Option Bytes
  pub team_id : Option Bytes
  pub exit_timeout_secs : ℕ
  pub confirmation_timeout_secs : ℕ

abbrev pub size_of_policy : ℕ
size_of_policy = 104

-- Zero keeps the default.
abbrev pub or_default : ℕ → ℕ → ℕ
or_default n default = if n == 0 then default else n

abbrev pub with_timeouts : PolicyArguments → InstallPolicy → InstallPolicy
with_timeouts a p = record p {
  exit_timeout_secs = or_default a.exit_timeout_secs p.exit_timeout_secs;
  confirmation_timeout_secs = or_default a.confirmation_timeout_secs p.confirmation_timeout_secs;
}

module _ {T W : Type 0} where
  unfoldable pub portable_policy : PolicyArguments → Bytes → Bytes → Call T W InstallPolicy
  unfolding cstr_list
  portable_policy a root executable = do
    owned ← cstr_list a.owned_files a.owned_file_count (text "policy.owned_files")
    directories ←
        cstr_list a.expandable_directories a.expandable_directory_count
          (text "policy.expandable_directories")
    give (with_timeouts a (portable_expanding root executable owned directories))

  unfoldable pub mac_bundle_policy : PolicyArguments → Bytes → Bytes → Call T W InstallPolicy
  unfolding cstr
  mac_bundle_policy a root executable = do
    name ← cstr a.bundle_name (text "policy.bundle_name")
    id ← cstr a.bundle_id (text "policy.bundle_id")
    team ← cstr a.team_id (text "policy.team_id")
    give (
        with_timeouts a
          (record (portable_only root [] []) { layout = bundle name executable id team }))

  unfoldable pub layout_policy : PolicyArguments → Bytes → Bytes → Call T W InstallPolicy
  unfolding portable_policy mac_bundle_policy refuse signed_decimal
  layout_policy a root executable =
      if a.layout == 1
      then portable_policy a root executable
      else (if a.layout == 2
          then mac_bundle_policy a root executable
          else refuse (text "unknown policy layout " ++ signed_decimal a.layout))

  checked_size : PolicyArguments → Call T W (Unit {0})
  unfolding refuse
  checked_size a =
      if ltb a.struct_size size_of_policy
      then refuse (text "policy.struct_size is too small")
      else give tt

  unfoldable pub build_policy : Option PolicyArguments → Call T W InstallPolicy
  unfolding handle cstr layout_policy checked_size
  build_policy policy = do
    a ← handle policy (text "policy")
    checked_size a
    root ← cstr a.root (text "policy.root")
    executable ← cstr a.executable (text "policy.executable")
    layout_policy a root executable

-- A handle that a call takes the content of, `FreshenPrepared` or `FreshenHandoff`, beside the world.
-- It is none when the pointer is null.
pub record Holder (P W : Type 0) : Type 0 where
  pub held : Option (Option P)
  pub world : W

abbrev pub on_world : {P W A : Type 0} → Exec W A → Exec (Holder P W) A
on_world m h = ((m h.world).0, record h { world = (m h.world).1 })

module _ {T P W : Type 0} where
  take_found : Option (Option P) → Bytes → Bytes → Call T (Holder P W) P
  unfolding refuse
  take_found none name consumed s = null name s
  take_found (some none) name consumed s = refuse consumed s
  take_found (some (some p)) name consumed s =
      (done p, record s { world = record s.world { held = some none } })

  -- `handle_mut(..)?.0.take().ok_or_else(..)?`
  unfoldable pub take_held : Bytes → Bytes → Call T (Holder P W) P
  unfolding take_found
  take_held name consumed s = take_found s.world.held name consumed s

module _ {P H W : Type 0} (t : Texts) where
  -- `arm` is `PreparedUpdate::arm`.
  unfoldable pub freshen_arm :
      (P → InstallPolicy → Bytes → List Bytes → Exec W H)
      → Option PolicyArguments
      → Option Bytes
      → Option (List (Option Bytes))
      → ℕ
      → Caller (Option H) (Holder P W)
      → ℕ × Caller (Option H) (Holder P W)
  unfolding store take_held build_policy cstr cstr_list from run
  freshen_arm arm policy helper_executable relaunch_args relaunch_arg_count = run (do
    store none (text "out_handoff")
    update ← take_held (text "prepared") (text "prepared update was already consumed")
    built ← build_policy policy
    helper ← cstr helper_executable (text "helper_executable")
    args ← cstr_list relaunch_args relaunch_arg_count (text "relaunch_args")
    handoff ← from t (on_world (arm update built helper args))
    store (some handoff) (text "out_handoff"))

module _ {H W : Type 0} (t : Texts) where
  -- `cancel` is `Handoff::cancel`.
  unfoldable pub freshen_handoff_cancel :
      (H → Exec W (Unit {0})) → Caller (Unit {0}) (Holder H W) → ℕ × Caller (Unit {0}) (Holder H W)
  unfolding take_held from run
  freshen_handoff_cancel cancel = run (do
    armed ← take_held (text "handoff") (text "handoff was already cancelled")
    from t (on_world (cancel armed)))

unfoldable pub freshen_handoff_helper_pid : {H : Type 0} → (H → ℕ) → Option (Option H) → ℕ
freshen_handoff_helper_pid pid none = 0
freshen_handoff_helper_pid pid (some none) = 0
freshen_handoff_helper_pid pid (some (some h)) = pid h

unfoldable pub state_code : InstallState → ℕ
state_code prepared = 1
state_code applying = 2
state_code awaiting_confirmation = 3
state_code committed = 4
state_code rolling_back = 5
state_code rolled_back = 6
state_code failed = 7

-- What `report_status` writes; the version and the detail may be null.
pub record Report : Type 0 where
  pub state : ℕ
  pub version : Option Bytes
  pub detail : Option Bytes

unfoldable pub report_of : Option InstallStatus → Report
unfolding state_code to_c_string
report_of none = record { state = 0; version = none; detail = none }
report_of (some s) = record {
  state = state_code s.state;
  version = to_c_string s.version;
  detail = to_c_string s.detail;
}

module _ {W : Type 0} (t : Texts) where
  -- The place is behind `out_state`; what is behind the other two pointers is written with it.
  unfoldable pub freshen_installation_status :
      (Bytes → Exec W (Option InstallStatus)) → Option Bytes → Caller Report W → ℕ × Caller Report W
  unfolding cstr from report_of store run
  freshen_installation_status installation_status root = run (do
    path ← cstr root (text "root")
    status ← from t (installation_status path)
    store (report_of status) (text "out_state"))

  unfoldable pub freshen_recover_installation :
      (Bytes → Exec W InstallStatus) → Option Bytes → Caller Report W → ℕ × Caller Report W
  unfolding cstr from report_of store run
  freshen_recover_installation recover_installation root = run (do
    path ← cstr root (text "root")
    status ← from t (recover_installation path)
    store (report_of (some status)) (text "out_state"))

  unfoldable pub freshen_discard_finished_installation :
      (Bytes → Exec W (Unit {0})) → Option Bytes → Caller (Unit {0}) W → ℕ × Caller (Unit {0}) W
  unfolding cstr from run
  freshen_discard_finished_installation discard root =
      run (do path ← cstr root (text "root"); from t (discard path))

  unfoldable pub freshen_run_helper :
      (List Bytes → Exec W Bool)
      → ℕ
      → Option (List (Option Bytes))
      → Caller Bool W
      → ℕ × Caller Bool W
  unfolding store cstr_list from run
  freshen_run_helper run_helper argc argv = run (do
    store false (text "out_handled")
    arguments ← cstr_list argv argc (text "argv")
    handled ← from t (run_helper arguments)
    store handled (text "out_handled"))

  unfoldable pub freshen_confirm_startup :
      (Bytes → Exec W Bool) → Option Bytes → Caller Bool W → ℕ × Caller Bool W
  unfolding store cstr from run
  freshen_confirm_startup confirm_startup root = run (do
    store false (text "out_confirmed")
    path ← cstr root (text "root")
    confirmed ← from t (confirm_startup path)
    store confirmed (text "out_confirmed"))
