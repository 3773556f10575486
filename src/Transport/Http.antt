-- ===== src/Transport/Http.antt =====
-- `HttpTransport::download` of src/transport.rs.
pub mod Limit
use freshen.Base.{
  ℕ, zero, suc, ◌+◌, ◌^◌, Bool, true, false, not, ◌||◌, List, [], ◌∷◌, ◌++◌, Option, none, some,
  length, is_empty, ltb, leb, if◌then◌else◌, ◌==◌, list_eq, nat_eq,
}
use freshen.Base.Bytes.{Bytes, text}
use freshen.Base.Outcome.{Result, ok, err, Error, cancelled, size_limit, invalid}
use freshen.Transport.{Event, downloading, Download}

-- The parts of a URL that the transport reads (`url::Url`).
pub record UrlParts : Type 0 where
  pub scheme : Bytes
  pub username : Bytes
  pub password : Option Bytes

-- What one round of the loop meets: the cancellation flag, what is read (nothing at the end), and
-- whether the output takes it.
pub record Round : Type 0 where
  pub is_cancelled : Bool
  pub read : Result Bytes
  pub write : Result (Unit {0})

-- A response (`reqwest`): its length where the server gives one, and the rounds of its body.
pub record Response : Type 0 where
  pub content_length : Option ℕ
  pub rounds : ℕ → Round

abbrev pub is_some : Option Bytes → Bool
is_some none = false
is_some (some s) = true

abbrev pub is_above : ℕ → Option ℕ → Bool
is_above limit none = false
is_above limit (some size) = ltb limit size

abbrev pub stop : Error → Bytes → List Event → Option Download
stop e written events = some (record { result = err e; written = written; events = events })

-- What a round does with the bytes that it read; `rest` are the later rounds.
unfoldable pub take_chunk :
    ℕ → ℕ → Bytes → Round → Bytes → List Event → Option Download → Option Download
take_chunk limit received chunk round written events rest =
    if leb (2 ^ 64) (received + length chunk)
    then stop size_limit written events
    else if ltb limit (received + length chunk)
    then stop size_limit written events
    else elim round.write [ err e ↦ stop e written events | ok u ↦ rest ]

-- The loop, on fuel; `none` is the want of fuel.
unfoldable pub receive : ℕ → ℕ → Response → ℕ → ℕ → Bytes → List Event → Option Download
receive zero limit r i received written events = none
receive (suc fuel) limit r i received written events =
    if (r.rounds i).is_cancelled then stop cancelled written events else elim (r.rounds i).read [
      | err e ↦ stop e written events
      | ok [] ↦ some (record { result = ok received; written = written; events = events })
      | ok (c ∷ cs) ↦ take_chunk limit received (c ∷ cs) (r.rounds i) written events (
          receive fuel limit r (suc i) (received + length (c ∷ cs)) (written ++ c ∷ cs)
            (events ++ downloading (received + length (c ∷ cs)) r.content_length ∷ []))
    ]

-- `send` is the request with its status check.
unfoldable pub download : ℕ → UrlParts → ℕ → Bool → Result Response → Option Download
unfolding receive
download fuel url limit is_cancelled send =
    if is_cancelled
    then stop cancelled [] []
    else if not (url.scheme == text "https") || not (is_empty url.username) || is_some url.password
    then stop (invalid (text "download URLs must use HTTPS without embedded credentials")) [] []
    else elim send [
      | err e ↦ stop e [] []
      | ok r ↦
          if is_above limit r.content_length
          then stop size_limit [] []
          else receive fuel limit r 0 0 [] []
    ]
