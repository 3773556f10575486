-- ===== src/Ffi/Sink/Calls.antt =====
-- The calls of the C interface on a sink, in ffi/src/transport.rs.
use freshen.Base.{ℕ, ◌-◌, ◌^◌, Bool, true, false, [], Option, none, some, ltb, if◌then◌else◌}
use freshen.Base.Bytes.{Bytes, text}
use freshen.Base.Outcome.{Result, ok, err, Error, size_limit}
use freshen.Ffi.{Caller, done, Call, Texts, give, refuse, fail, run, ◌>>=◌}
use freshen.Ffi.Util.{take, handle}
use freshen.Ffi.Sink.{Sink, check_cancel, write, get_or_insert}

module _ (t : Texts) where
  -- `FreshenSink::record`
  unfoldable pub record_error : Error → Call (Unit {0}) Sink (Unit {0})
  unfolding fail
  record_error e s =
      fail t e (record s { world = record s.world { error = get_or_insert s.world.error e } })

  unfoldable pub recorded : Result (Unit {0}) → Call (Unit {0}) Sink (Unit {0})
  unfolding record_error
  recorded (ok u) s = (done u, s)
  recorded (err e) s = record_error e s

  unfoldable pub write_slice : Bytes → Call (Unit {0}) Sink (Unit {0})
  unfolding recorded write
  write_slice bytes s =
      recorded (write bytes s.world).0 (record s { world = (write bytes s.world).1 })

  -- What `data` and `len` stand for.
  unfoldable pub slice : Option Bytes → ℕ → Call (Unit {0}) Sink Bytes
  unfolding refuse
  slice none len =
      if ltb 0 len then refuse (text "data must not be null when len is nonzero") else give []
  slice (some data_bytes) len =
      if ltb (2 ^ 63 - 1) len
      then refuse (text "len is larger than any buffer can be")
      else give (take len data_bytes)

  unfoldable pub freshen_sink_write :
      Option (Unit {0}) → Option Bytes → ℕ → Caller (Unit {0}) Sink → ℕ × Caller (Unit {0}) Sink
  unfolding handle slice write_slice run
  freshen_sink_write sink data_bytes len =
      run (handle sink (text "sink") >>= λ _. slice data_bytes len >>= write_slice)

  unfoldable pub with_total : ℕ → Call (Unit {0}) Sink (Unit {0})
  unfolding record_error
  with_total total s =
      if ltb s.world.limit total
      then record_error size_limit s
      else (done tt, record s { world = record s.world { total = some total } })

  unfoldable pub freshen_sink_set_total :
      Option (Unit {0}) → ℕ → Caller (Unit {0}) Sink → ℕ × Caller (Unit {0}) Sink
  unfolding handle with_total run
  freshen_sink_set_total sink total = run (handle sink (text "sink") >>= λ _. with_total total)

abbrev is_err : Result (Unit {0}) → Bool
is_err (ok u) = false
is_err (err e) = true

unfoldable pub freshen_sink_is_cancelled :
    Option (Unit {0}) → Caller (Unit {0}) Sink → Bool × Caller (Unit {0}) Sink
unfolding check_cancel
freshen_sink_is_cancelled none s = (true, s)
freshen_sink_is_cancelled (some sink) s =
    (is_err (check_cancel s.world).0, record s { world = (check_cancel s.world).1 })
