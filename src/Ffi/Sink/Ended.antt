-- ===== src/Ffi/Sink/Ended.antt =====
-- How a download with a transport of the host ends, in ffi/src/transport.rs.
use freshen.Base.{
  ℕ, ◌≤◌, ◌≡◌, refl, subst, ◌∙◌, Bool, true, false, not, ◌||◌, List, Option, none, some, length,
  is_empty, contains, ◌==◌, nat_eq, list_eq, if◌then◌else◌,
}
use freshen.Base.Bytes.{Bytes, text}
use freshen.Base.Outcome.{
  Result, ok, err, Error, IoKind, cancelled, size_limit, io, other, ok-injective,
}
use freshen.Transport.Http.{UrlParts, is_some}
use freshen.Ffi.{Caller, Outcome, done, failed, panicked, Texts, guard_with, set_message}
use freshen.Ffi.Sink.{Sink, check_cancel}
use freshen.Ffi.Sink.Callback.{
  Program, play, of_code, conclude, host_call, checked_call, callback_download, new_sink,
}
use freshen.Ffi.Sink.Bounded.{Sound, Sound-IsKept, new_sink-Sound}
use freshen.Ffi.Sink.Kept.{play-Good}

-- A download that returned: the count that it returns, and what the output has.
abbrev pub Whole : ℕ → ℕ → Sink → Type 0
Whole limit n s = (n ≤ limit) × (length s.output ≡ n)

picked :
    (a b c : Bool) (written : ℕ) {n : ℕ}
    → (if a
        then ok written
        else (if b then err cancelled else (if c then err size_limit else err (io other))))
      ≡ ok n
    → written ≡ n
picked true b c written h = ok-injective h
picked false true c written h = cc
picked false false true written h = cc
picked false false false written h = cc

of_code-ok : (code written : ℕ) {n : ℕ} → of_code code written ≡ ok n → written ≡ n
of_code-ok code written h = picked (code == 0) (code == 1) (code == 5) written h

conclude-ok :
    (limit : ℕ) (code : ℕ) (s : Sink) (o : Option Error) {n : ℕ}
    → s.error ≡ o
    → Sound limit s
    → conclude o code s.written ≡ ok n
    → Whole limit n s
unfolding conclude
conclude-ok limit code s (some e) i h k = cc
conclude-ok limit code s none i h k =
    let w = of_code-ok code s.written k in
    (subst (λ m. m ≤ limit) w h.in_limit.within, h.counts i ∙ w)

guarded-Sound :
    (limit : ℕ) (o : Outcome ℕ) (s : Caller (Unit {0}) Sink)
    → Sound limit s.world
    → Sound limit (guard_with 102 o s).1.world
unfolding guard_with set_message
guarded-Sound limit (done c) s h = h
guarded-Sound limit (failed c) s h = h
guarded-Sound limit panicked s h = h

module _ (t : Texts) (limit : ℕ) where
  host_call-Whole :
      (p : Program) (s : Caller (Unit {0}) Sink) {n : ℕ}
      → Sound limit s.world
      → (host_call t p s).0 ≡ ok n
      → Whole limit n (host_call t p s).1.world
  unfolding host_call
  host_call-Whole p s h k =
      let g = guard_with 102 (play t p s).0 (play t p s).1 in
      conclude-ok limit g.0 g.1.world g.1.world.error refl
        (guarded-Sound limit (play t p s).0 (play t p s).1 (play-Good (Sound-IsKept limit) t p s h))
        k

  admitted :
      (a b : Bool) (e f : Error) (p : Program) (s : Caller (Unit {0}) Sink) {n : ℕ}
      → Sound limit s.world
      → (if a then (err e, s) else (if b then (err f, s) else host_call t p s)).0 ≡ ok n
      → Whole limit n
          (if a then (err e, s) else (if b then (err f, s) else host_call t p s)).1.world
  admitted true b e f p s h k = cc
  admitted false true e f p s h k = cc
  admitted false false e f p s h k = host_call-Whole p s h k

  checked_call-Whole :
      (r : Result (Unit {0})) (url : UrlParts) (url_text : Bytes) (p : Program)
      (s : Caller (Unit {0}) Sink) {n : ℕ}
      → Sound limit s.world
      → (checked_call t r url url_text p s).0 ≡ ok n
      → Whole limit n (checked_call t r url url_text p s).1.world
  unfolding checked_call
  checked_call-Whole (err e) url url_text p s h k = cc
  checked_call-Whole (ok u) url url_text p s h k =
      admitted
        (not (url.scheme == text "https") || not (is_empty url.username) || is_some url.password)
        (contains url_text 0) _ _ p s h k

  -- Whatever a transport of the host does with the sink, if the download returns a count, then the
  -- count is within the limit and the output has just that many bytes.
  pub callback_download-Whole :
      (loads : List Bool) (faults : List (Option (ℕ × IoKind))) (url : UrlParts) (url_text : Bytes)
      (p : Program) (message : Option Bytes) {n : ℕ}
      → (callback_download t url url_text p
          (record { message = message; slot = none; world = new_sink limit loads faults })).0
        ≡ ok n
      → Whole limit n
          (callback_download t url url_text p (record {
            message = message;
            slot = none;
            world = new_sink limit loads faults;
          })).1.world
  unfolding callback_download check_cancel
  callback_download-Whole loads faults url url_text p message k =
      let start = new_sink limit loads faults in
      checked_call-Whole (check_cancel start).0 url url_text p
        (record { message = message; slot = none; world = (check_cancel start).1 })
        ((Sound-IsKept limit).check_keeps start (new_sink-Sound limit loads faults)) k
