-- ===== src/Tests/Interfaces.antt =====
-- The C interface: concrete hosts and arguments, and the theorems at them.
use freshen.Base.{ℕ, suc, ◌≡◌, refl, [], ◌++◌, List, Option, none, some, arith, list_beq, contains}
use freshen.Base.Bytes.{Bytes, text}
use freshen.Base.Outcome.{ok, err, size_limit}
use freshen.Base.Exec.{Exec}
use freshen.Policy.{InstallPolicy}
use freshen.Transport.Http.{UrlParts}
use freshen.Ffi.{Caller, Texts}
use freshen.Ffi.Util.{take}
use freshen.Ffi.Behaves.{Ended}
use freshen.Ffi.Sink.{Sink, write}
use freshen.Ffi.Sink.Callback.{
  Program, returns, writes, sets_total, polls, host_call, callback_download, new_sink,
}
use freshen.Ffi.Sink.Ended.{Whole, callback_download-Whole}
use freshen.Ffi.Sink.Sticky.{here, host_call-first_error}
use freshen.Ffi.Arming.{PolicyArguments, Holder, freshen_arm}
use freshen.Ffi.Arming.Once.{HandedOut, Spent, freshen_arm-once}
use freshen.Ffi.Updating.{Config, Parsers, Handle}
use freshen.Ffi.Updating.Calls.{freshen_updater_new}
use freshen.Ffi.Updating.Trusted.{HandsOut, HandsNone, freshen_updater_new-IsTrusted}
use freshen.Tests.Fixtures.{crates}

abbrev texts : Texts
texts = record {
  io_text = λ k. text "input or output";
  json_text = text "json";
  http_text = text "http";
  zip_text = text "zip";
}

abbrev url : UrlParts
url = record { scheme = text "https"; username = []; password = none }

-- A host that writes six bytes in two calls and returns the status of the last one.
abbrev two_writes : Program
two_writes = polls (some tt) (λ b. sets_total (some tt) 6 (λ c.
    writes (some tt) (some (text "abc")) 3 (λ d. writes (some tt) (some (text "def")) 3 returns)))

abbrev caller : ℕ → Caller (Unit {0}) Sink
caller limit = record { message = none; slot = none; world = new_sink limit [] [] }

two_writes_test : (callback_download texts url (text "https") two_writes (caller 9)).0 ≡ ok 6
unfolding callback_download list_beq text write contains
two_writes_test = refl

callback_download-Whole_example :
    Whole 9 6 (callback_download texts url (text "https") two_writes (caller 9)).1.world
callback_download-Whole_example =
    callback_download-Whole texts 9 [] [] url (text "https") two_writes none two_writes_test

-- A host that goes on after a write that the sink refuses, and says that all is well.
abbrev deaf : Program
deaf = writes (some tt) (some (text "abcdef")) 6 (λ c. returns 0)

too_long : (write (take 6 (text "abcdef")) (caller 5).world).0 ≡ err size_limit
unfolding write text
too_long = refl

host_call-first_error_example : (host_call texts deaf (caller 5)).0 ≡ err size_limit
host_call-first_error_example =
    host_call-first_error texts deaf (caller 5) (text "abcdef") 6 (λ c. returns 0) (caller 5)
      size_limit here refl (omega arith) too_long

abbrev policy : PolicyArguments
policy = record {
  struct_size = 104;
  layout = 2;
  root = some (text "/opt");
  executable = some (text "app");
  owned_files = none;
  owned_file_count = 0;
  expandable_directories = none;
  expandable_directory_count = 0;
  bundle_name = some (text "App.app");
  bundle_id = some (text "org.app");
  team_id = some (text "TEAM");
  exit_timeout_secs = 0;
  confirmation_timeout_secs = 60;
}

-- The library counts how often it arms.
abbrev count_arming : ℕ → InstallPolicy → Bytes → List Bytes → Exec ℕ ℕ
count_arming update p helper args w = (ok update, suc w)

abbrev holder : Holder ℕ ℕ
holder = record { held = some (some 7); world = 0 }

abbrev arming : Caller (Option ℕ) (Holder ℕ ℕ)
arming = record { message = none; slot = some none; world = holder }

freshen_arm-once_example :
    Ended
      (HandedOut texts count_arming holder)
      (Spent texts count_arming holder)
      (freshen_arm texts count_arming (some policy) (some (text "helper")) none 0 arming).0
      (freshen_arm texts count_arming (some policy) (some (text "helper")) none 0 arming).1
freshen_arm-once_example =
    freshen_arm-once texts count_arming holder (some policy) (some (text "helper")) none 0 arming
      {old = none} {content = some 7} refl refl refl

abbrev parsers : Parsers crates texts
parsers = record {
  try_url = λ s. some 0;
  url_error = λ s. [];
  parse_version = λ s. some 1;
  version_error = λ s. [];
  new_http = λ n. ok tt;
}

abbrev config : Config
config = record {
  struct_size = 88;
  product = some (text "test-app");
  channel = some (text "stable");
  current_version = some (text "1.0.0");
  target = some (text "test-target");
  trusted_keys = some (let k = text "12345678" in k ++ (k ++ (k ++ k)));
  trusted_key_count = 1;
  max_download = 1000;
  max_unpacked = 1000;
  http_timeout_secs = 0;
  transport = none;
}

abbrev creating : Caller (Option (Handle crates texts)) (Unit {0})
creating = record { message = none; slot = some none; world = tt }

freshen_updater_new-IsTrusted_example :
    Ended
      (HandsOut crates texts parsers (some config) tt)
      (HandsNone crates texts parsers tt)
      (freshen_updater_new crates texts parsers (some config) creating).0
      (freshen_updater_new crates texts parsers (some config) creating).1
freshen_updater_new-IsTrusted_example =
    freshen_updater_new-IsTrusted crates texts parsers (some config) creating {old = none} refl
