-- ===== src/Ffi/Sink/Callback.antt =====
-- `FfiTransport::download` of ffi/src/transport.rs with a transport of the host.
use freshen.Base.{
  ℕ, Bool, not, ◌||◌, List, [], Option, none, some, is_empty, contains, ◌==◌, nat_eq, list_eq,
  if◌then◌else◌,
}
use freshen.Base.Bytes.{Bytes, text}
use freshen.Base.Outcome.{Result, ok, err, Error, cancelled, size_limit, invalid, IoKind, io, other}
use freshen.Transport.Http.{UrlParts, is_some}
use freshen.Ffi.{
  Caller, Outcome, done, panicked, Texts, freshen_err_panic, freshen_err_size_limit, guard_with,
}
use freshen.Ffi.Sink.{Sink, check_cancel}
use freshen.Ffi.Sink.Calls.{freshen_sink_write, freshen_sink_set_total, freshen_sink_is_cancelled}

-- What the host's callback does: it calls the functions of the sink, each with the pointer to the sink
-- or with null, goes on as their answers tell it, and returns a status or panics.
pub data Program : Type 0 where
  returns : ℕ → Program
  panics : Program
  writes : Option (Unit {0}) → Option Bytes → ℕ → (ℕ → Program) → Program
  sets_total : Option (Unit {0}) → ℕ → (ℕ → Program) → Program
  polls : Option (Unit {0}) → (Bool → Program) → Program

abbrev pub of_code : ℕ → ℕ → Result ℕ
of_code code written =
    if code == 0
    then ok written
    else (if code == 1
        then err cancelled
        else (if code == freshen_err_size_limit then err size_limit else err (io other)))

-- The error of the sink comes before the status of the host.
unfoldable pub conclude : Option Error → ℕ → ℕ → Result ℕ
conclude (some e) code written = err e
conclude none code written = of_code code written

module _ (t : Texts) where
  unfoldable pub play : Program → Caller (Unit {0}) Sink → Outcome ℕ × Caller (Unit {0}) Sink
  unfolding freshen_sink_write freshen_sink_set_total freshen_sink_is_cancelled
  play (returns code) s = (done code, s)
  play panics s = (panicked, s)
  play (writes sink data_bytes len next) s =
      let (code, after) = freshen_sink_write t sink data_bytes len s in play (next code) after
  play (sets_total sink total next) s =
      let (code, after) = freshen_sink_set_total t sink total s in play (next code) after
  play (polls sink next) s =
      let (set, after) = freshen_sink_is_cancelled sink s in play (next set) after

  unfoldable pub host_call : Program → Caller (Unit {0}) Sink → Result ℕ × Caller (Unit {0}) Sink
  unfolding play guard_with conclude
  host_call program s =
      let (code, after) = guard_with freshen_err_panic (play program s).0 (play program s).1 in
      (conclude after.world.error code after.world.written, after)

  unfoldable pub checked_call :
      Result (Unit {0})
      → UrlParts
      → Bytes
      → Program
      → Caller (Unit {0}) Sink
      → Result ℕ × Caller (Unit {0}) Sink
  unfolding host_call
  checked_call (err e) url url_text program s = (err e, s)
  checked_call (ok u) url url_text program s =
      if not (url.scheme == text "https") || not (is_empty url.username) || is_some url.password
      then (err (invalid (text "download URLs must use HTTPS without embedded credentials")), s)
      else (if contains url_text 0
          then (err (invalid (text "URL contains a NUL byte")), s)
          else host_call program s)

  -- The sink starts empty; the flag is loaded before anything else.
  unfoldable pub callback_download :
      UrlParts → Bytes → Program → Caller (Unit {0}) Sink → Result ℕ × Caller (Unit {0}) Sink
  unfolding checked_call check_cancel
  callback_download url url_text program s =
      checked_call (check_cancel s.world).0 url url_text program
        (record s { world = (check_cancel s.world).1 })

-- `FreshenSink::new`
abbrev pub new_sink : ℕ → List Bool → List (Option (ℕ × IoKind)) → Sink
new_sink limit loads faults = record {
  limit = limit;
  written = 0;
  total = none;
  error = none;
  output = [];
  events = [];
  loads = loads;
  writes = faults;
}
