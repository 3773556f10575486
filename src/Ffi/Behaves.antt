-- ===== src/Ffi/Behaves.antt =====
-- What a body of the C interface does to the place behind its out-pointer and to the world, and that a
-- code of its own says that it failed and has a message.
use freshen.Base.{
  ℕ, ◌≡◌, ◌≢◌, ◌⊎◌, inl, inr, refl, Option, none, some, List, [], ◌∷◌, ◌++◌, ltb, ◌==◌, nat_eq,
  arith, ◌^◌, Bool-cases,
}
use freshen.Base.Bytes.{Bytes, text}
use freshen.Base.Bytes.Utf8.{is_utf8}
use freshen.Base.Outcome.{
  Result, ok, err, Error, cancelled, signature, invalid, unsafe_path, size_limit, hash_mismatch,
  busy, helper, recovery, io, json, http, zip,
}
use freshen.Base.Exec.{Exec}
use freshen.Ffi.{
  Caller, Outcome, done, failed, panicked, Call, Texts, give, refuse, fail, map_failure, from,
  code_for, code_of, guard_with, set_message, run, proceed, decimal, ◌>>=◌,
}
use freshen.Ffi.Util.{cstr, cstrs, cstr_list, list_items, take, handle, store, store_found}

code_for-nonzero : (e : Error) → code_for e ≢ 0
unfolding code_for
code_for-nonzero cancelled h = cc
code_for-nonzero signature h = cc
code_for-nonzero (invalid s) h = cc
code_for-nonzero (unsafe_path s) h = cc
code_for-nonzero size_limit h = cc
code_for-nonzero (hash_mismatch s) h = cc
code_for-nonzero busy h = cc
code_for-nonzero (helper s) h = cc
code_for-nonzero (recovery s) h = cc
code_for-nonzero (io k) h = cc
code_for-nonzero json h = cc
code_for-nonzero http h = cc
code_for-nonzero zip h = cc

-- A state of the place and of the world.
abbrev pub At : Type 0 → Type 0 → Type 1
At T W = Option T → W → Type 0

module _ {T W : Type 0} where
  -- A failure has a code and a message.
  pub record Failed (Fail : At T W) (code : ℕ) (s : Caller T W) : Type 0 where
    pub nonzero : code ≢ 0
    pub message : Bytes
    pub has_message : s.message ≡ some message
    pub left : Fail s.slot s.world

  module _ {A : Type 0} where
    abbrev pub Finishes : (A → At T W) → At T W → Outcome A → Caller T W → Type 0
    Finishes Post Fail (done a) s = Post a s.slot s.world
    Finishes Post Fail (failed c) s = Failed Fail c s
    Finishes Post Fail panicked s = ⊥

    pub record Behaves (Pre : At T W) (m : Call T W A) (Post : A → At T W) (Fail : At T W)
        : Type 0 where
      pub ends : (s : Caller T W) → Pre s.slot s.world → Finishes Post Fail (m s).0 (m s).1

    pub give-Behaves : {P : A → At T W} (a : A) {Fail : At T W} → Behaves (P a) (give a) P Fail
    give-Behaves a = record { ends = λ s h. h }

    pub refuse-Behaves :
        {P Fail : At T W} {Post : A → At T W} (m : Bytes)
        → ((o : Option T) (w : W) → P o w → Fail o w)
        → Behaves P (refuse m) Post Fail
    unfolding refuse set_message
    refuse-Behaves m f = record {
      ends = λ s h. record {
        nonzero = omega arith;
        message = _;
        has_message = refl;
        left = f s.slot s.world h;
      };
    }

    settled :
        (Post : A → At T W) (Fail : At T W) (t : Texts) (r : Result A) (s : Caller T W)
        → ((a : A) → r ≡ ok a → Post a s.slot s.world)
        → ((e : Error) → r ≡ err e → Fail s.slot s.world)
        → Finishes Post Fail (map_failure t r s).0 (map_failure t r s).1
    unfolding map_failure fail set_message
    settled Post Fail t (ok a) s f g = f a refl
    settled Post Fail t (err e) s f g = record {
      nonzero = code_for-nonzero e;
      message = _;
      has_message = refl;
      left = g e refl;
    }

    -- A call of the library.
    pub from-Behaves :
        {P Fail : At T W} {Post : A → At T W} (t : Texts) (m : Exec W A)
        → ((o : Option T) (w : W) (a : A) → P o w → (m w).0 ≡ ok a → Post a o (m w).1)
        → ((o : Option T) (w : W) (e : Error) → P o w → (m w).0 ≡ err e → Fail o (m w).1)
        → Behaves P (from t m) Post Fail
    unfolding from
    from-Behaves {Fail} {Post} t m f g = record {
      ends = λ s h.
          settled Post Fail t (m s.world).0 (record s { world = (m s.world).1 })
            (λ a e. f s.slot s.world a h e) (λ d e. g s.slot s.world d h e);
    }

    pub map_failure-Behaves :
        {P Fail : At T W} (t : Texts) (r : Result A)
        → ((o : Option T) (w : W) → P o w → Fail o w)
        → Behaves P (map_failure t r) (λ a o w. P o w × (r ≡ ok a)) Fail
    map_failure-Behaves {P} {Fail} t r f = record {
      ends = λ s h.
          settled (λ a o w. P o w × (r ≡ ok a)) Fail t r s (λ a e. (h, e))
            (λ d e. f s.slot s.world h);
    }

    weakened :
        (Post Post' : A → At T W) (Fail : At T W) (o : Outcome A) (s : Caller T W)
        → ((a : A) → Post a s.slot s.world → Post' a s.slot s.world)
        → Finishes Post Fail o s
        → Finishes Post' Fail o s
    weakened Post Post' Fail (done a) s f h = f a h
    weakened Post Post' Fail (failed c) s f h = h
    weakened Post Post' Fail panicked s f h = h

    pub Behaves-weaken :
        {P Fail : At T W} {Post Post' : A → At T W} {m : Call T W A}
        → Behaves P m Post Fail
        → ((a : A) (o : Option T) (w : W) → Post a o w → Post' a o w)
        → Behaves P m Post' Fail
    Behaves-weaken {Fail} {Post} {Post'} {m} b f = record {
      ends = λ s h.
          weakened Post Post' Fail (m s).0 (m s).1 (λ a. f a (m s).1.slot (m s).1.world)
            (b.ends s h);
    }

  module _ {A B : Type 0} where
    going :
        {Mid : A → At T W} {Post : B → At T W} {Fail : At T W} (f : A → Call T W B)
        → ((a : A) → Behaves (Mid a) (f a) Post Fail)
        → (o : Outcome A) (s : Caller T W) → Finishes Mid Fail o s
        → Finishes Post Fail (proceed f o s).0 (proceed f o s).1
    going f g (done a) s h = (g a).ends s h
    going f g (failed c) s h = h
    going f g panicked s h = h

    pub >>=-Behaves :
        {Pre Fail : At T W} {Mid : A → At T W} {Post : B → At T W} {m : Call T W A}
        {f : A → Call T W B}
        → Behaves Pre m Mid Fail
        → ((a : A) → Behaves (Mid a) (f a) Post Fail)
        → Behaves Pre (m >>= f) Post Fail
    >>=-Behaves {m} {f} h g = record { ends = λ s p. going f g (m s).0 (m s).1 (h.ends s p) }

  -- How a call ends for its caller.
  abbrev pub Ended : At T W → At T W → ℕ → Caller T W → Type 0
  Ended Post Fail code s = ((code ≡ 0) × Post s.slot s.world) ⊎ Failed Fail code s

  ran :
      (Post Fail : At T W) (o : Outcome (Unit {0})) (s : Caller T W)
      → Finishes (λ _. Post) Fail o s
      → Ended Post Fail (guard_with 102 (code_of o) s).0 (guard_with 102 (code_of o) s).1
  unfolding guard_with code_of
  ran Post Fail (done u) s h = inl (refl, h)
  ran Post Fail (failed c) s h = inr h
  ran Post Fail panicked s h = absurd h

  pub run-Ended :
      {Pre Post Fail : At T W} {m : Call T W (Unit {0})} (s : Caller T W)
      → Behaves Pre m (λ _. Post) Fail
      → Pre s.slot s.world
      → Ended Post Fail (run m s).0 (run m s).1
  unfolding run
  run-Ended {Post} {Fail} {m} s h p = ran Post Fail (m s).0 (m s).1 (h.ends s p)

  stored :
      (Q : W → Type 0) (Fail : At T W) {old : T} (o : Option T) (v : T) (name : Bytes)
      (s : Caller T W)
      → o ≡ some old
      → Q s.world
      → Finishes
          (λ u o w. (o ≡ some v) × Q w)
          Fail
          (store_found o v name s).0
          (store_found o v name s).1
  unfolding store_found
  stored Q Fail none v name s e h = cc
  stored Q Fail (some x) v name s e h = (refl, h)

  -- A place that is there takes the value.
  pub store-Behaves :
      {Q : W → Type 0} {Fail : At T W} {old : T} (v : T) (name : Bytes)
      → Behaves (λ o w. (o ≡ some old) × Q w) (store v name) (λ u o w. (o ≡ some v) × Q w) Fail
  unfolding store
  store-Behaves {Q} {Fail} v name = record { ends = λ s h. stored Q Fail s.slot v name s h.0 h.1 }

  module _ {P Fail : At T W} (keep : (o : Option T) (w : W) → P o w → Fail o w) where
    pub handle-Behaves :
        {A : Type 0} (p : Option A) (name : Bytes)
        → Behaves P (handle p name) (λ a o w. P o w × (p ≡ some a)) Fail
    unfolding handle
    handle-Behaves none name = refuse-Behaves (name ++ text " must not be null") keep
    handle-Behaves (some a) name = record { ends = λ s h. (h, refl) }

    pub cstr-Behaves :
        (p : Option Bytes) (name : Bytes)
        → Behaves P (cstr p name) (λ a o w. P o w × (p ≡ some a)) Fail
    unfolding cstr
    cstr-Behaves none name = refuse-Behaves (name ++ text " must not be null") keep
    cstr-Behaves (some s) name = elim (Bool-cases (is_utf8 s)) [
      | inl a ↦ rw a (record { ends = λ s h. (h, refl) })
      | inr a ↦ rw a (refuse-Behaves (name ++ text " must be valid UTF-8") keep)
    ]

    cstrs-Behaves :
        (ps : List (Option Bytes)) (name : Bytes) → Behaves P (cstrs ps name) (λ ss. P) Fail
    unfolding cstrs
    cstrs-Behaves [] name = give-Behaves {P = λ ss. P} []
    cstrs-Behaves (p ∷ ps) name = >>=-Behaves (cstr-Behaves p name) (λ s.
        >>=-Behaves (record { ends = λ c h. (cstrs-Behaves ps name).ends c h.0 })
          (λ ss. give-Behaves {P = λ ss. P} (s ∷ ss)))

    listed :
        (pointer : Option (List (Option Bytes))) (count : ℕ) (name : Bytes)
        → Behaves P (list_items pointer count name) (λ ss. P) Fail
    unfolding list_items
    listed none count name =
        refuse-Behaves (name ++ text " must not be null when its count is nonzero") keep
    listed (some ps) count name = cstrs-Behaves (take count ps) name

    -- A list keeps the state.
    pub cstr_list-Behaves :
        (pointer : Option (List (Option Bytes))) (count : ℕ) (name : Bytes)
        → Behaves P (cstr_list pointer count name) (λ ss. P) Fail
    unfolding cstr_list
    cstr_list-Behaves pointer count name = elim (Bool-cases (count == 0)) [
      | inl a ↦ rw a (give-Behaves {P = λ ss. P} [])
      | inr a ↦ elim (Bool-cases (ltb (2 ^ 20) count)) [
        | inl b ↦
            rw (a, b)
              (refuse-Behaves
                (name
                  ++ (text " claims "
                      ++ (decimal count ++ text " entries, more than the 1048576 allowed")))
                keep)
        | inr b ↦ rw (a, b) (listed pointer count name)
      ]
    ]
