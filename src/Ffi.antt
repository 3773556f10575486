-- ===== src/Ffi.antt =====
-- ffi/src/error.rs: the status codes of the C interface, the message of the thread and the guard.
pub mod Util
pub mod Sink
pub mod Behaves
pub mod Arming
pub mod Updating
use Prim.Native.Nat.{◌/◌, ◌%◌}
use freshen.Base.{
  ℕ, zero, suc, ◌+◌, ◌-◌, ◌^◌, Bool, not, List, [], ◌∷◌, ◌++◌, Option, none, some, ltb, leb, ◌==◌,
  nat_eq, if◌then◌else◌,
}
use freshen.Base.Bytes.{Bytes, text}
use freshen.Base.Outcome.{
  Result, ok, err, Error, cancelled, signature, invalid, unsafe_path, size_limit, hash_mismatch,
  busy, helper, recovery, IoKind, io, json, http, zip,
}
use freshen.Base.Exec.{Exec}

abbrev pub freshen_ok : ℕ
freshen_ok = 0

abbrev pub freshen_err_size_limit : ℕ
freshen_err_size_limit = 5

abbrev pub freshen_err_invalid_argument : ℕ
freshen_err_invalid_argument = 101

abbrev pub freshen_err_panic : ℕ
freshen_err_panic = 102

unfoldable pub code_for : Error → ℕ
code_for cancelled = 1
code_for signature = 2
code_for (invalid s) = 3
code_for (unsafe_path s) = 4
code_for size_limit = 5
code_for (hash_mismatch s) = 6
code_for busy = 7
code_for (helper s) = 8
code_for (recovery s) = 9
code_for (io k) = 10
code_for json = 11
code_for http = 12
code_for zip = 13

-- The texts of the errors of other crates.
pub record Texts : Type 0 where
  pub io_text : IoKind → Bytes
  pub json_text : Bytes
  pub http_text : Bytes
  pub zip_text : Bytes

-- `Display` of src/error.rs
unfoldable pub to_string : Texts → Error → Bytes
to_string t cancelled = text "operation cancelled"
to_string t signature = text "invalid publisher signature"
to_string t (invalid s) = text "invalid update: " ++ s
to_string t (unsafe_path s) = text "unsafe path: " ++ s
to_string t size_limit = text "download or extraction exceeds its configured limit"
to_string t (hash_mismatch s) = text "hash mismatch: " ++ s
to_string t busy = text "another update owns the installation lock"
to_string t (helper s) = text "helper failed: " ++ s
to_string t (recovery s) = text "installation requires recovery: " ++ s
to_string t (io k) = t.io_text k
to_string t json = t.json_text
to_string t http = t.http_text
to_string t zip = t.zip_text

-- `Display` of an integer of 64 bits, which has 20 digits at most.
digits : ℕ → ℕ → Bytes
digits zero n = []
digits (suc fuel) n =
    let rest = digits fuel (n / 10) in
    let digit = b'0' + n % 10 in if ltb n 10 then digit ∷ [] else rest ++ digit ∷ []

unfoldable pub decimal : ℕ → Bytes
unfolding digits
decimal n = digits 20 n

-- The same for an `i32`, which is given by its 32 bits.
unfoldable pub signed_decimal : ℕ → Bytes
unfolding decimal
signed_decimal n = if leb (2 ^ 31) n then b'-' ∷ decimal (2 ^ 32 - n) else decimal n

-- The thread that calls: the message of its last failure, the place behind the out-pointer of the
-- call, which is none when the pointer is null, and the rest of the world.
pub record Caller (T W : Type 0) : Type 0 where
  pub message : Option Bytes
  pub slot : Option T
  pub world : W

-- How a body ends: by `?` with a code whose message is recorded, or by a panic.
pub data Outcome (A : Type 0) : Type 0 where
  done : A → Outcome A
  failed : ℕ → Outcome A
  panicked : Outcome A

unfoldable pub without_nul : Bytes → Bytes
without_nul [] = []
without_nul (c ∷ s) = if c == 0 then without_nul s else c ∷ without_nul s

abbrev pub Call : Type 0 → Type 0 → Type 0 → Type 0
Call T W A = Caller T W → Outcome A × Caller T W

-- How `run` sees the end of its body.
unfoldable pub code_of : Outcome (Unit {0}) → Outcome ℕ
code_of (done u) = done freshen_ok
code_of (failed c) = done c
code_of panicked = panicked

module _ {T W : Type 0} where
  unfoldable pub set_message : Bytes → Caller T W → Caller T W
  unfolding without_nul
  set_message m s = record s { message = some (without_nul m) }

  module _ {A : Type 0} where
    abbrev pub give : A → Call T W A
    give a s = (done a, s)

    -- An invalid argument.
    unfoldable pub refuse : Bytes → Call T W A
    unfolding set_message
    refuse m s = (failed freshen_err_invalid_argument, set_message m s)

    unfoldable pub fail : Texts → Error → Call T W A
    unfolding set_message code_for to_string
    fail t e s = (failed (code_for e), set_message (to_string t e) s)

    -- `.map_err(|error| fail(&error))?`
    unfoldable pub map_failure : Texts → Result A → Call T W A
    unfolding fail
    map_failure t (ok a) s = (done a, s)
    map_failure t (err e) s = fail t e s

    unfoldable pub from : Texts → Exec W A → Call T W A
    unfolding map_failure
    from t m s = map_failure t (m s.world).0 (record s { world = (m s.world).1 })

    unfoldable pub guard_with : A → Outcome A → Caller T W → A × Caller T W
    unfolding set_message
    guard_with on_panic (done a) s = (a, s)
    guard_with on_panic (failed c) s = (on_panic, s)
    guard_with on_panic panicked s =
        (on_panic, set_message (text "internal panic caught at the freshen C boundary") s)

  module _ {A B : Type 0} where
    infixl 5 ◌>>=◌ ◌>>◌
    abbrev proceed : (A → Call T W B) → Outcome A → Call T W B
    proceed f (done a) s = f a s
    proceed f (failed c) s = (failed c, s)
    proceed f panicked s = (panicked, s)

    abbrev pub ◌>>=◌ : Call T W A → (A → Call T W B) → Call T W B
    ◌>>=◌ m f s = proceed f (m s).0 (m s).1

    abbrev pub ◌>>◌ : Call T W A → Call T W B → Call T W B
    m >> k = m >>= λ _. k

  unfoldable pub run : Call T W (Unit {0}) → Caller T W → ℕ × Caller T W
  unfolding guard_with code_of
  run body s = guard_with freshen_err_panic (code_of (body s).0) (body s).1

  -- The text behind the pointer.
  unfoldable pub last_error_message : Caller T W → Bytes
  last_error_message s = elim s.message [ none ↦ [] | some m ↦ m ]
