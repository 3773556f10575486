-- ===== src/Ffi/Sink/Kept.antt =====
-- A property of the sink that every call of it keeps, in ffi/src/transport.rs.
use freshen.Base.{ℕ, ◌-◌, ◌^◌, inl, inr, [], Option, none, some, ltb, Bool-cases}
use freshen.Base.Bytes.{Bytes}
use freshen.Base.Outcome.{Result, ok, err, Error, size_limit}
use freshen.Base.Triples.{Ends, Triple}
use freshen.Ffi.{
  set_message, Caller, Outcome, done, failed, panicked, Texts, refuse, fail, guard_with, code_of,
  run, ◌>>=◌,
}
use freshen.Ffi.Util.{take, handle}
use freshen.Ffi.Sink.{Sink, check_cancel, write, get_or_insert}
use freshen.Ffi.Sink.Calls.{
  record_error, recorded, write_slice, slice, freshen_sink_write, with_total,
  freshen_sink_set_total, freshen_sink_is_cancelled,
}
use freshen.Ffi.Sink.Callback.{Program, returns, panics, writes, sets_total, polls, play}

-- `Strong` holds between the calls, and the weaker `Weak` after an error until it is kept.
pub record IsKept (Strong Weak : Sink → Type 0) : Type 0 where
  pub weak : (s : Sink) → Strong s → Weak s
  pub write_keeps : (bytes : Bytes) → Triple Strong (write bytes) (λ _. Strong) Weak
  pub check_keeps : (s : Sink) → Strong s → Strong (check_cancel s).1
  pub error_keeps :
      (s : Sink) (e : Error) → Weak s → Strong (record s { error = get_or_insert s.error e })
  pub total_keeps : (s : Sink) (total : ℕ) → Strong s → Strong (record s { total = some total })

module _ {Strong Weak : Sink → Type 0} (kept : IsKept Strong Weak) where
  abbrev pub Good : Caller (Unit {0}) Sink → Type 0
  Good s = Strong s.world

  pub run-Good :
      (o : Outcome (Unit {0})) (s : Caller (Unit {0}) Sink)
      → Good s
      → Good (guard_with 102 (code_of o) s).1
  unfolding guard_with code_of set_message
  run-Good (done u) s h = h
  run-Good (failed c) s h = h
  run-Good panicked s h = h

  module _ (t : Texts) where
    record_error-Good :
        (e : Error) (s : Caller (Unit {0}) Sink) → Weak s.world → Good (record_error t e s).1
    unfolding record_error fail set_message
    record_error-Good e s h = kept.error_keeps s.world e h

    recorded-Good :
        (r : Result (Unit {0})) (s : Caller (Unit {0}) Sink)
        → Ends (λ _. Strong) Weak r s.world
        → Good (recorded t r s).1
    unfolding recorded
    recorded-Good (ok u) s h = h
    recorded-Good (err e) s h = record_error-Good e s h

    slice-Good :
        (data_bytes : Option Bytes) (len : ℕ) (s : Caller (Unit {0}) Sink)
        → Good s
        → Good ((slice t data_bytes len >>= write_slice t) s).1
    unfolding slice write_slice refuse set_message
    slice-Good none len s h = elim (Bool-cases (ltb 0 len)) [
      | inl a ↦ rw a h
      | inr a ↦ rw a (recorded-Good (write [] s.world).0 _ ((kept.write_keeps []).ends s.world h))
    ]
    slice-Good (some bs) len s h = elim (Bool-cases (ltb (2 ^ 63 - 1) len)) [
      | inl a ↦ rw a h
      | inr a ↦ rw a (
          recorded-Good (write (take len bs) s.world).0 _
            ((kept.write_keeps (take len bs)).ends s.world h))
    ]

    pub freshen_sink_write-Good :
        (sink : Option (Unit {0})) (data_bytes : Option Bytes) (len : ℕ)
        (s : Caller (Unit {0}) Sink)
        → Good s
        → Good (freshen_sink_write t sink data_bytes len s).1
    unfolding freshen_sink_write handle refuse run set_message guard_with code_of
    freshen_sink_write-Good none data_bytes len s h = h
    freshen_sink_write-Good (some u) data_bytes len s h =
        run-Good ((slice t data_bytes len >>= write_slice t) s).0 _ (slice-Good data_bytes len s h)

    with_total-Good :
        (total : ℕ) (s : Caller (Unit {0}) Sink) → Good s → Good (with_total t total s).1
    unfolding with_total
    with_total-Good total s h = elim (Bool-cases (ltb s.world.limit total)) [
      | inl a ↦ rw a (record_error-Good size_limit s (kept.weak s.world h))
      | inr a ↦ rw a (kept.total_keeps s.world total h)
    ]

    freshen_sink_set_total-Good :
        (sink : Option (Unit {0})) (total : ℕ) (s : Caller (Unit {0}) Sink)
        → Good s
        → Good (freshen_sink_set_total t sink total s).1
    unfolding freshen_sink_set_total handle refuse run set_message guard_with code_of
    freshen_sink_set_total-Good none total s h = h
    freshen_sink_set_total-Good (some u) total s h =
        run-Good (with_total t total s).0 _ (with_total-Good total s h)

    freshen_sink_is_cancelled-Good :
        (sink : Option (Unit {0})) (s : Caller (Unit {0}) Sink)
        → Good s
        → Good (freshen_sink_is_cancelled sink s).1
    unfolding freshen_sink_is_cancelled
    freshen_sink_is_cancelled-Good none s h = h
    freshen_sink_is_cancelled-Good (some u) s h = kept.check_keeps s.world h

    pub play-Good : (p : Program) (s : Caller (Unit {0}) Sink) → Good s → Good (play t p s).1
    unfolding play
    play-Good (returns code) s h = h
    play-Good panics s h = h
    play-Good (writes sink d len next) s h =
        play-Good (next (freshen_sink_write t sink d len s).0) _
          (freshen_sink_write-Good sink d len s h)
    play-Good (sets_total sink total next) s h =
        play-Good (next (freshen_sink_set_total t sink total s).0) _
          (freshen_sink_set_total-Good sink total s h)
    play-Good (polls sink next) s h =
        play-Good (next (freshen_sink_is_cancelled sink s).0) _
          (freshen_sink_is_cancelled-Good sink s h)
