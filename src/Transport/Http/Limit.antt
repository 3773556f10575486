-- ===== src/Transport/Http/Limit.antt =====
-- The download ends, and never writes more than its limit.
use freshen.Base.{
  ℕ, zero, suc, ◌+◌, ◌^◌, ◌≤◌, ◌≡◌, refl, inl, inr, Bool, true, false, not, ◌||◌, List, [], ◌∷◌,
  ◌++◌, Option, some, length, length-append, is_empty, ltb, leb, if◌then◌else◌, ◌==◌, list_eq,
  nat_eq, Bool-cases, arith,
}
use freshen.Base.Bytes.{Bytes, text}
use freshen.Base.Outcome.{Result, ok, err, Error, cancelled, size_limit, invalid}
use freshen.Transport.{Event, downloading, Download}
use freshen.Transport.Http.{
  UrlParts, Round, Response, is_some, is_above, stop, take_chunk, receive, download,
}

-- A download that ended within the limit, whose count is that of the bytes written.
pub record IsBounded (limit : ℕ) (o : Option Download) : Type 0 where
  pub outcome : Download
  pub ended : o ≡ some outcome
  pub within : length outcome.written ≤ limit
  pub counted : (n : ℕ) → outcome.result ≡ ok n → n ≡ length outcome.written

stopped :
    (limit : ℕ) (e : Error) (written : Bytes) (events : List Event)
    → length written ≤ limit
    → IsBounded limit (stop e written events)
stopped limit e written events h = record {
  outcome = record { result = err e; written = written; events = events };
  ended = refl;
  within = h;
  counted = λ n k. cc;
}

write-Bounded :
    (limit : ℕ) (w : Result (Unit {0})) (written : Bytes) (events : List Event)
    (rest : Option Download)
    → length written ≤ limit
    → IsBounded limit rest
    → IsBounded limit (elim w [ err e ↦ stop e written events | ok u ↦ rest ])
write-Bounded limit (ok u) written events rest h k = k
write-Bounded limit (err e) written events rest h k = stopped limit e written events h

take_chunk-IsBounded :
    (limit received : ℕ) (chunk : Bytes) (round : Round) (written : Bytes) (events : List Event)
    (rest : Option Download)
    → length written ≤ limit
    → (received + length chunk ≤ limit → IsBounded limit rest)
    → IsBounded limit (take_chunk limit received chunk round written events rest)
unfolding take_chunk
take_chunk-IsBounded limit received chunk round written events rest h k =
    elim (Bool-cases (leb (2 ^ 64) (received + length chunk))) [
      | inl t ↦ rw t (stopped limit size_limit written events h)
      | inr f ↦ rw f (elim (Bool-cases (ltb limit (received + length chunk))) [
        | inl t ↦ rw t (stopped limit size_limit written events h)
        | inr g ↦ rw g (write-Bounded limit round.write written events rest h (k (ground arith)))
      ])
    ]

-- One round, where the later rounds are bounded.
read-IsBounded :
    (fuel limit : ℕ) (r : Response) (i received : ℕ) (written : Bytes) (events : List Event)
    → received ≡ length written
    → received ≤ limit
    → ((chunk : Bytes)
        → 1 ≤ length chunk
        → received + length chunk ≤ limit
        → IsBounded limit (
            receive fuel limit r
              (suc i)
              (received + length chunk)
              (written ++ chunk)
              (events ++ downloading (received + length chunk) r.content_length ∷ [])))
    → (o : Result Bytes)
    → IsBounded limit (elim o [
      | err x ↦ stop x written events
      | ok [] ↦ some (record { result = ok received; written = written; events = events })
      | ok (c ∷ cs) ↦ take_chunk limit received (c ∷ cs) (r.rounds i) written events (
          receive fuel limit r
            (suc i)
            (received + length (c ∷ cs))
            (written ++ c ∷ cs)
            (events ++ downloading (received + length (c ∷ cs)) r.content_length ∷ []))
    ])
read-IsBounded fuel limit r i received written events e h later (err x) =
    stopped limit x written events (omega arith)
read-IsBounded fuel limit r i received written events e h later (ok []) = record {
  outcome = record { result = ok received; written = written; events = events };
  ended = refl;
  within = omega arith;
  counted = λ n q. ground arith;
}
read-IsBounded fuel limit r i received written events e h later (ok (c ∷ cs)) =
    take_chunk-IsBounded limit received (c ∷ cs) (r.rounds i) written events
      (receive fuel limit r (suc i) (received + length (c ∷ cs)) (written ++ c ∷ cs)
        (events ++ downloading (received + length (c ∷ cs)) r.content_length ∷ []))
      (omega arith) (later (c ∷ cs) (omega arith))

receive-IsBounded :
    (fuel limit : ℕ) (r : Response) (i received : ℕ) (written : Bytes) (events : List Event)
    → received ≡ length written
    → received ≤ limit
    → limit + 2 ≤ fuel + received
    → IsBounded limit (receive fuel limit r i received written events)
unfolding receive
receive-IsBounded zero limit r i received written events e h k = absurd (omega arith)
receive-IsBounded (suc fuel) limit r i received written events e h k =
    elim (Bool-cases (r.rounds i).is_cancelled) [
      | inl t ↦ rw t (stopped limit cancelled written events (omega arith))
      | inr f ↦ rw f (
          read-IsBounded fuel limit r i received written events e h
            (λ chunk long q.
              receive-IsBounded fuel limit r (suc i) (received + length chunk) (written ++ chunk)
                (events ++ downloading (received + length chunk) r.content_length ∷ [])
                (omega (arith, length-append written chunk)) q (omega arith))
            (r.rounds i).read)
    ]

send-IsBounded :
    (limit : ℕ) (o : Result Response)
    → IsBounded limit (elim o [
      | err e ↦ stop e [] []
      | ok r ↦
          if is_above limit r.content_length
          then stop size_limit [] []
          else receive (limit + 2) limit r 0 0 [] []
    ])
send-IsBounded limit (err e) = stopped limit e [] [] (omega arith)
send-IsBounded limit (ok r) = elim (Bool-cases (is_above limit r.content_length)) [
  | inl t ↦ rw t (stopped limit size_limit [] [] (omega arith))
  | inr f ↦ rw f (receive-IsBounded (limit + 2) limit r 0 0 [] [] refl (omega arith) (omega arith))
]

-- With two rounds more than the limit as fuel a download over any response, an endless one too,
-- ends, has written no more bytes than the limit whatever its outcome, and when it returns a count
-- it is that of the bytes written.
pub download-IsBounded :
    (url : UrlParts) (limit : ℕ) (is_cancelled : Bool) (send : Result Response)
    → IsBounded limit (download (limit + 2) url limit is_cancelled send)
unfolding download
download-IsBounded url limit true send = stopped limit cancelled [] [] (omega arith)
download-IsBounded url limit false send =
    elim (Bool-cases
      (not (url.scheme == text "https") || not (is_empty url.username) || is_some url.password)) [
        | inl t ↦ rw t (
            stopped limit
              (invalid (text "download URLs must use HTTPS without embedded credentials")) [] []
              (omega arith))
        | inr f ↦ rw f (send-IsBounded limit send)
      ]
