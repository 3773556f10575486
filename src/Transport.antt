-- ===== src/Transport.antt =====
-- src/transport.rs: events, cancellation, the `Transport` trait and `fetch`.
pub mod Http
use freshen.Base.{ℕ, Bool, Option, List, length, ltb, if◌then◌else◌}
use freshen.Base.Bytes.{Bytes}
use freshen.Base.Outcome.{Result, ok, err, cancelled, size_limit, reject_if}
use freshen.Base.Exec.{Exec, lift, continue}

pub data Event : Type 0 where
  checking verifying ready : Event
  downloading : ℕ → Option ℕ → Event
  extracting : Bytes → Event

-- One call of `download`: its result, what it wrote to the output (also before an error), and the
-- events that it reported.
pub record Download : Type 0 where
  pub result : Result ℕ
  pub written : Bytes
  pub events : List Event

-- The host of a call: its transport, its cancellation flag, which other threads may set between
-- any two loads, and the receiver of its events.
pub record Host (Url : Type 0) : Type 1 where
  pub World : Type 0
  pub load : World → Bool × World
  pub emit : Event → World → World
  pub download : Url → ℕ → World → Download × World

module _ {Url : Type 0} (H : Host Url) where
  -- `Cancellation::check`
  unfoldable pub check_cancelled : Exec H.World (Unit {0})
  check_cancelled w = let (set, w') = H.load w in (reject_if set cancelled, w')

  unfoldable pub report : Event → Exec H.World (Unit {0})
  report e w = (ok tt, H.emit e w)

  -- `fetch`, which drops the events and tests the length once more, as a transport may be custom.
  unfoldable pub fetch : Url → ℕ → Exec H.World Bytes
  fetch url limit w =
      let (d, w') = H.download url limit w in
      continue d.result
        (λ _. lift (if ltb limit (length d.written) then err size_limit else ok d.written)) w'
