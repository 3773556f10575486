-- ===== src/Ffi/Sink/Bounded.antt =====
-- What the sink of ffi/src/transport.rs keeps, whatever the host does.
use freshen.Base.{
  ℕ, ◌+◌, ◌^◌, ◌≤◌, ◌≡◌, refl, ap, ◌∙◌, inl, inr, Bool, true, false, List, [], ◌∷◌, ◌++◌, Option,
  none, some, length, ltb, leb, nat_eq, arith, Bool-cases,
}
use freshen.Base.Bytes.{Bytes}
use freshen.Base.Outcome.{Error, IoKind}
use freshen.Base.Triples.{Ends, Triple, >>=-Triple}
use freshen.Ffi.Sink.{
  Sink, load_from, check_cancel, taken, write_from, advance, write, get_or_insert,
}
use freshen.Ffi.Sink.Kept.{IsKept}
use freshen.Ffi.Sink.Callback.{new_sink}

length-++ : (s t : Bytes) → length (s ++ t) ≡ length s + length t
length-++ [] t = omega arith
length-++ (c ∷ s) t = let ih = length-++ s t in omega arith

module _ (limit : ℕ) where
  -- The count is within the limit.
  pub record InLimit (s : Sink) : Type 0 where
    pub same : s.limit ≡ limit
    pub within : s.written ≤ limit

  -- And while no error is kept, the output has as many bytes as are counted.
  pub record Sound (s : Sink) : Type 0 where
    pub in_limit : InLimit s
    pub counts : s.error ≡ none → length s.output ≡ s.written

  load_from-Sound :
      (flags : List Bool) (s : Sink)
      → Sound s
      → Ends (λ _. Sound) InLimit (load_from flags s).0 (load_from flags s).1
  unfolding load_from
  load_from-Sound [] s h = h
  load_from-Sound (true ∷ rest) s h = record { same = h.in_limit.same; within = h.in_limit.within }
  load_from-Sound (false ∷ rest) s h = record {
    in_limit = record { same = h.in_limit.same; within = h.in_limit.within };
    counts = h.counts;
  }

  write_from-Sound :
      (ws : List (Option (ℕ × IoKind))) (bytes : Bytes) (s : Sink)
      → Sound s
      → s.written + length bytes ≤ limit
      → Ends
          (λ _. Sound)
          InLimit
          (write_from ws bytes (s.written + length bytes) s).0
          (write_from ws bytes (s.written + length bytes) s).1
  unfolding write_from taken
  write_from-Sound [] bytes s h f = record {
    in_limit = record { same = h.in_limit.same; within = f };
    counts = λ e. length-++ s.output bytes ∙ ap (λ n. n + length bytes) (h.counts e);
  }
  write_from-Sound (none ∷ rest) bytes s h f = record {
    in_limit = record { same = h.in_limit.same; within = f };
    counts = λ e. length-++ s.output bytes ∙ ap (λ n. n + length bytes) (h.counts e);
  }
  write_from-Sound (some (n, kind) ∷ rest) bytes s h f = record {
    same = h.in_limit.same;
    within = h.in_limit.within;
  }

  advance-Sound :
      (bytes : Bytes) (s : Sink)
      → Sound s
      → Ends (λ _. Sound) InLimit (advance bytes s).0 (advance bytes s).1
  unfolding advance
  advance-Sound bytes s h = elim (Bool-cases (leb (2 ^ 64) (s.written + length bytes))) [
    | inl a ↦ rw a (h.in_limit)
    | inr a ↦ elim (Bool-cases (ltb s.limit (s.written + length bytes))) [
      | inl b ↦ rw (a, b) (h.in_limit)
      | inr b ↦
          let same = h.in_limit.same in
          rw (a, b) (write_from-Sound s.writes bytes s h (ground arith))
    ]
  ]

  write-Sound : (bytes : Bytes) → Triple Sound (write bytes) (λ _. Sound) InLimit
  unfolding write check_cancel
  write-Sound bytes =
      >>=-Triple (record { ends = λ s h. load_from-Sound s.loads s h })
        (λ _. record { ends = advance-Sound bytes })

  load_from-keeps : (flags : List Bool) (s : Sink) → Sound s → Sound (load_from flags s).1
  unfolding load_from
  load_from-keeps [] s h = h
  load_from-keeps (flag ∷ rest) s h = record {
    in_limit = record { same = h.in_limit.same; within = h.in_limit.within };
    counts = h.counts;
  }

  not_none : (o : Option Error) (e : Error) → get_or_insert o e ≡ none → ⊥
  not_none none e i = cc
  not_none (some d) e i = cc

  pub Sound-IsKept : IsKept Sound InLimit
  unfolding check_cancel
  Sound-IsKept = record {
    weak = λ s h. h.in_limit;
    write_keeps = write-Sound;
    check_keeps = λ s h. load_from-keeps s.loads s h;
    error_keeps = λ s e h. record {
      in_limit = record { same = h.same; within = h.within };
      counts = λ i. absurd (not_none s.error e i);
    };
    total_keeps = λ s total h. record {
      in_limit = record { same = h.in_limit.same; within = h.in_limit.within };
      counts = h.counts;
    };
  }

  pub new_sink-Sound :
      (loads : List Bool) (faults : List (Option (ℕ × IoKind)))
      → Sound (new_sink limit loads faults)
  new_sink-Sound loads faults = record {
    in_limit = record { same = refl; within = omega arith };
    counts = λ e. refl;
  }
