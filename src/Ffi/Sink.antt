-- ===== src/Ffi/Sink.antt =====
-- ffi/src/transport.rs: the sink through which the host's transport hands over its bytes, and the
-- events that the host is told.
pub mod Calls
pub mod Callback
pub mod Kept
pub mod Bounded
pub mod Sticky
pub mod Ended
use freshen.Base.{
  ℕ, zero, suc, ◌+◌, ◌-◌, ◌^◌, Bool, true, false, not, ◌&&◌, List, [], ◌∷◌, ◌++◌, Option, none,
  some, length, ltb, leb, contains, ◌==◌, nat_eq, if◌then◌else◌,
}
use freshen.Base.Bytes.{Bytes, text}
use freshen.Base.Outcome.{Result, ok, err, Error, cancelled, size_limit, IoKind, io, reject_if}
use freshen.Base.Exec.{Exec, lift, ◌>>=◌, ◌>>◌}
use freshen.Transport.{Event, checking, verifying, ready, downloading, extracting}
use freshen.Ffi.Util.{take}

-- The arguments of the host's callback for events.
pub record Notice : Type 0 where
  pub kind : ℕ
  pub received : ℕ
  pub total : ℕ
  pub path : Option Bytes

abbrev pub total_unknown : ℕ
total_unknown = 2 ^ 64 - 1

abbrev pub unwrap_total : Option ℕ → ℕ
unwrap_total none = total_unknown
unwrap_total (some n) = n

abbrev plain : ℕ → Notice
plain kind = record { kind = kind; received = 0; total = total_unknown; path = none }

-- `EventBridge::emit`
unfoldable pub notice_of : Event → Notice
notice_of checking = plain 1
notice_of (downloading received total) = record {
  kind = 2;
  received = received;
  total = unwrap_total total;
  path = none;
}
notice_of verifying = plain 3
notice_of (extracting name) = record (plain 4) {
  path = if contains name 0 then none else some name;
}
notice_of ready = plain 5

-- The sink of one download, with what the output has taken, what the flag of the cancellation is at
-- its next loads, and which of the next writes to the output fail, after how many bytes.
pub record Sink : Type 0 where
  pub limit : ℕ
  pub written : ℕ
  pub total : Option ℕ
  pub error : Option Error
  pub output : Bytes
  pub events : List Event
  pub loads : List Bool
  pub writes : List (Option (ℕ × IoKind))

load_from : List Bool → Exec Sink (Unit {0})
load_from [] s = (ok tt, s)
load_from (flag ∷ rest) s = (reject_if flag cancelled, record s { loads = rest })

-- `Cancellation::check_cancel`
unfoldable pub check_cancel : Exec Sink (Unit {0})
unfolding load_from
check_cancel s = load_from s.loads s

taken : Bytes → ℕ → Sink → Sink
taken bytes received s = record s {
  output = s.output ++ bytes;
  written = received;
  events = s.events ++ downloading received s.total ∷ [];
}

write_from : List (Option (ℕ × IoKind)) → Bytes → ℕ → Exec Sink (Unit {0})
unfolding taken
write_from [] bytes received s = (ok tt, taken bytes received s)
write_from (none ∷ rest) bytes received s =
    (ok tt, record (taken bytes received s) { writes = rest })
write_from (some (n, kind) ∷ rest) bytes received s =
    (err (io kind), record s { output = s.output ++ take n bytes; writes = rest })

advance : Bytes → Exec Sink (Unit {0})
unfolding write_from
advance bytes s =
    if leb (2 ^ 64) (s.written + length bytes)
    then (err size_limit, s)
    else (if ltb s.limit (s.written + length bytes)
        then (err size_limit, s)
        else write_from s.writes bytes (s.written + length bytes) s)

-- `FreshenSink::write`
unfoldable pub write : Bytes → Exec Sink (Unit {0})
unfolding check_cancel advance
write bytes = do check_cancel; advance bytes

abbrev pub get_or_insert : Option Error → Error → Option Error
get_or_insert none e = some e
get_or_insert (some old) e = some old
