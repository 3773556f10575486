-- ===== src/Ffi/Sink/Sticky.antt =====
-- The first error of the sink of ffi/src/transport.rs is the error of the download.
use freshen.Base.{
  ℕ, ◌+◌, ◌-◌, ◌^◌, ◌≤◌, ◌≡◌, refl, ap, ◌∙◌, inl, inr, Bool, false, List, [], ◌∷◌, Option, none,
  some, length, ltb, leb, arith, Bool-cases,
}
use freshen.Base.Bytes.{Bytes}
use freshen.Base.Outcome.{Result, ok, err, Error, IoKind}
use freshen.Base.Triples.{Ends, Triple, >>=-Triple}
use freshen.Ffi.{Caller, Outcome, done, failed, panicked, Texts, guard_with, set_message, run, fail}
use freshen.Ffi.Util.{take, handle}
use freshen.Ffi.Sink.{
  Sink, load_from, check_cancel, write_from, taken, advance, write, get_or_insert,
}
use freshen.Ffi.Sink.Calls.{
  record_error, recorded, write_slice, slice, freshen_sink_write, freshen_sink_set_total,
  freshen_sink_is_cancelled,
}
use freshen.Ffi.Sink.Callback.{Program, writes, sets_total, polls, play, conclude, host_call}
use freshen.Ffi.Sink.Kept.{IsKept, play-Good, run-Good}

-- The error that the sink keeps.
abbrev pub Keeps : Option Error → Sink → Type 0
Keeps o s = s.error ≡ o

module _ (o : Option Error) where
  load_from-Keeps : (flags : List Bool) (s : Sink) → Keeps o s → Keeps o (load_from flags s).1
  unfolding load_from
  load_from-Keeps [] s h = h
  load_from-Keeps (flag ∷ rest) s h = h

  write_from-Keeps :
      (ws : List (Option (ℕ × IoKind))) (bytes : Bytes) (n : ℕ) (s : Sink)
      → Keeps o s
      → Keeps o (write_from ws bytes n s).1
  unfolding write_from taken
  write_from-Keeps [] bytes n s h = h
  write_from-Keeps (none ∷ rest) bytes n s h = h
  write_from-Keeps (some f ∷ rest) bytes n s h = h

  advance-Keeps : (bytes : Bytes) (s : Sink) → Keeps o s → Keeps o (advance bytes s).1
  unfolding advance
  advance-Keeps bytes s h = elim (Bool-cases (leb (2 ^ 64) (s.written + length bytes))) [
    | inl a ↦ rw a h
    | inr a ↦ elim (Bool-cases (ltb s.limit (s.written + length bytes))) [
      | inl b ↦ rw (a, b) h
      | inr b ↦ rw (a, b) (write_from-Keeps s.writes bytes (s.written + length bytes) s h)
    ]
  ]

  either : (r : Result (Unit {0})) (s : Sink) → Keeps o s → Ends (λ _. Keeps o) (Keeps o) r s
  either (ok u) s h = h
  either (err e) s h = h

  write-Keeps : (bytes : Bytes) → Triple (Keeps o) (write bytes) (λ _. Keeps o) (Keeps o)
  unfolding write check_cancel
  write-Keeps bytes =
      >>=-Triple
        (record { ends = λ s h. either (load_from s.loads s).0 _ (load_from-Keeps s.loads s h) })
        (λ _. record { ends = λ s h. either (advance bytes s).0 _ (advance-Keeps bytes s h) })

Keeps-IsKept : (e : Error) → IsKept (Keeps (some e)) (Keeps (some e))
unfolding check_cancel
Keeps-IsKept e = record {
  weak = λ s h. h;
  write_keeps = write-Keeps (some e);
  check_keeps = λ s h. load_from-Keeps (some e) s.loads s h;
  error_keeps = λ s d h. ap (λ o. get_or_insert o d) h;
  total_keeps = λ s n h. h;
}

module _ (t : Texts) where
  -- What is left of the host's callback after some of its calls.
  pub data Reaches
      : Program → Caller (Unit {0}) Sink → Program → Caller (Unit {0}) Sink → Type 0 where
    here : {p : Program} {s : Caller (Unit {0}) Sink} → Reaches p s p s
    wrote :
        {sink : Option (Unit {0})} {d : Option Bytes} {len : ℕ} {next : ℕ → Program}
        {s : Caller (Unit {0}) Sink} {q : Program} {u : Caller (Unit {0}) Sink}
        → Reaches
            (next (freshen_sink_write t sink d len s).0)
            (freshen_sink_write t sink d len s).1
            q
            u
        → Reaches (writes sink d len next) s q u
    totalled :
        {sink : Option (Unit {0})} {total : ℕ} {next : ℕ → Program} {s : Caller (Unit {0}) Sink}
        {q : Program} {u : Caller (Unit {0}) Sink}
        → Reaches
            (next (freshen_sink_set_total t sink total s).0)
            (freshen_sink_set_total t sink total s).1
            q
            u
        → Reaches (sets_total sink total next) s q u
    polled :
        {sink : Option (Unit {0})} {next : Bool → Program} {s : Caller (Unit {0}) Sink}
        {q : Program} {u : Caller (Unit {0}) Sink}
        → Reaches
            (next (freshen_sink_is_cancelled sink s).0)
            (freshen_sink_is_cancelled sink s).1
            q
            u
        → Reaches (polls sink next) s q u

  Reaches-play :
      (p : Program) (s : Caller (Unit {0}) Sink) (q : Program) (u : Caller (Unit {0}) Sink)
      → Reaches p s q u
      → play t p s ≡ play t q u
  unfolding play
  Reaches-play p s q u here = refl
  Reaches-play (writes sink d len next) s q u (wrote r) = Reaches-play _ _ q u r
  Reaches-play (sets_total sink total next) s q u (totalled r) = Reaches-play _ _ q u r
  Reaches-play (polls sink next) s q u (polled r) = Reaches-play _ _ q u r

  recorded-Keeps :
      (r : Result (Unit {0})) (e : Error) (s : Caller (Unit {0}) Sink)
      → r ≡ err e
      → Keeps none s.world
      → Keeps (some e) (recorded t r s).1.world
  unfolding recorded record_error fail set_message
  recorded-Keeps (ok u) e s h k = cc
  recorded-Keeps (err d) e s h k = ap (λ o. get_or_insert o d) k ∙ cc h

  not_above : (n m : ℕ) → m ≤ n → ltb n m ≡ false
  not_above n m h = ground arith

  after-Ends :
      (o : Option Error) (r : Result (Unit {0})) (s : Sink)
      → Ends (λ _. Keeps o) (Keeps o) r s
      → Keeps o s
  after-Ends o (ok u) s h = h
  after-Ends o (err e) s h = h

  refused :
      (bytes : Bytes) (len : ℕ) (e : Error) (s : Caller (Unit {0}) Sink)
      → Keeps none s.world
      → len ≤ 2 ^ 63 - 1
      → (write (take len bytes) s.world).0 ≡ err e
      → Keeps (some e) (freshen_sink_write t (some tt) (some bytes) len s).1.world
  unfolding freshen_sink_write handle slice write_slice run
  refused bytes len e s h f k =
      let after = record s { world = (write (take len bytes) s.world).1 } in
      let r = (write (take len bytes) s.world).0 in
      let big = not_above (2 ^ 63 - 1) len f in
      rw big (
        run-Good (Keeps-IsKept e) (recorded t r after).0 (recorded t r after).1 (
          recorded-Keeps r e after k
            (after-Ends none r after.world ((write-Keeps none (take len bytes)).ends s.world h))))

  guarded-Keeps :
      (e : Error) (r : Outcome ℕ) (s : Caller (Unit {0}) Sink)
      → Keeps (some e) s.world
      → Keeps (some e) (guard_with 102 r s).1.world
  unfolding guard_with set_message
  guarded-Keeps e (done c) s h = h
  guarded-Keeps e (failed c) s h = h
  guarded-Keeps e panicked s h = h

  -- If the host's callback comes to a write of a slice to the sink, no error is kept so far, the
  -- length is not above isize::MAX, and the write is refused or fails, then the download ends with
  -- the error of that write, whatever the host does next and whatever status it returns.
  pub host_call-first_error :
      (p : Program) (start : Caller (Unit {0}) Sink) (bytes : Bytes) (len : ℕ) (next : ℕ → Program)
      (s : Caller (Unit {0}) Sink) (e : Error)
      → Reaches p start (writes (some tt) (some bytes) len next) s
      → s.world.error ≡ none
      → len ≤ 2 ^ 63 - 1
      → (write (take len bytes) s.world).0 ≡ err e
      → (host_call t p start).0 ≡ err e
  unfolding host_call conclude play
  host_call-first_error p start bytes len next s e r h f k =
      let after = freshen_sink_write t (some tt) (some bytes) len s in
      let played = play t (next after.0) after.1 in
      let ended = guard_with 102 played.0 played.1 in
      let kept =
        play-Good (Keeps-IsKept e) t (next after.0) after.1 (refused bytes len e s h f k) in
      rw (Reaches-play p start (writes (some tt) (some bytes) len next) s r) (
        ap (λ o. conclude o ended.0 ended.1.world.written) (guarded-Keeps e played.0 played.1 kept))
