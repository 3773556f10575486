-- ===== src/Ffi/Updating/Trusted.antt =====
-- What an updater that `freshen_updater_new` of ffi/src/updater.rs hands out trusts.
use freshen.Base.{
  ℕ, ◌*◌, ◌≤◌, ◌≡◌, ◌≢◌, refl, inl, inr, List, Option, none, some, ltb, ◌==◌, nat_eq, arith, Bool,
  true, false, Bool-cases, ◌++◌, if◌then◌else◌,
}
use freshen.Base.Bytes.{Bytes, text}
use freshen.Base.Outcome.{ok}
use freshen.Crates.{Crates}
use freshen.Trust.{new}
use freshen.Ffi.{Caller, Texts, give, refuse, decimal}
use freshen.Ffi.Util.{take, store}
use freshen.Ffi.Behaves.{
  At, Behaves, Behaves-weaken, give-Behaves, refuse-Behaves, map_failure-Behaves, >>=-Behaves,
  Ended, run-Ended, handle-Behaves, cstr-Behaves, store-Behaves,
}
use freshen.Ffi.Updating.{
  Config, TransportArguments, FfiTransport, http, callback, Handle, Parsers, key_chunks, check_size,
  keys_at, trusted_keys, parsed_or, seconds_of, transport_at, transport_of, updater_of,
}
use freshen.Ffi.Updating.Calls.{freshen_updater_new}

-- The keys are the key_chunks of 32 bytes of the buffer, from one to 32 of them.
pub record AreKeys (pointer : Option Bytes) (count : ℕ) (keys : List Bytes) : Type 0 where
  pub buffer : Bytes
  pub has_buffer : pointer ≡ some buffer
  pub some_key : count ≢ 0
  pub few : count ≤ 32
  pub keys_are : keys ≡ key_chunks count (take (count * 32) buffer)

-- A download over HTTPS has a timeout of a day at most.
abbrev pub Timed : FfiTransport → Type 0
Timed (http seconds) = (seconds ≢ 0) × (seconds ≤ 86400)
Timed callback = Unit

seconds_of-Timed : (n : ℕ) → ltb 86400 n ≡ false → Timed (http (seconds_of n))
seconds_of-Timed n x = elim (Bool-cases (n == 0)) [
  | inl a ↦ rw a ((λ e. cc), omega arith)
  | inr a ↦ rw a ((λ e. ground arith), ground arith)
]

module _ {T W : Type 0} {P Fail : At T W} (keep : (o : Option T) (w : W) → P o w → Fail o w) where
  pub check_size-Behaves :
      (actual minimum : ℕ) (name : Bytes) → Behaves P (check_size actual minimum name) (λ u. P) Fail
  unfolding check_size
  check_size-Behaves actual minimum name = elim (Bool-cases (ltb actual minimum)) [
    | inl x ↦ rw x (refuse-Behaves (name ++ text ".struct_size is too small") keep)
    | inr x ↦ rw x (give-Behaves {P = λ u. P} tt)
  ]

  keys_at-Behaves :
      (pointer : Option Bytes) (count : ℕ)
      → Behaves P (keys_at pointer count) (λ ks o w. P o w × AreKeys pointer count ks) Fail
  unfolding keys_at
  keys_at-Behaves none count =
      refuse-Behaves (text "at least one trusted public key is required") keep
  keys_at-Behaves (some bytes) count = elim (Bool-cases (count == 0)) [
    | inl x ↦ rw x (refuse-Behaves (text "at least one trusted public key is required") keep)
    | inr x ↦ elim (Bool-cases (ltb 32 count)) [
      | inl y ↦
          rw (x, y)
            (refuse-Behaves
              (text "config.trusted_key_count is "
                ++ (decimal count ++ text "; at most 32 keys are supported"))
              keep)
      | inr y ↦
          rw (x, y)
            (record {
              ends = λ s h. (
                h,
                record {
                  buffer = bytes;
                  has_buffer = refl;
                  some_key = ground arith;
                  few = ground arith;
                  keys_are = refl;
                },
              );
            })
    ]
  ]

  module _ (C : Crates) (t : Texts) (R : Parsers C t) where
    transport_at-Behaves :
        (custom : Option TransportArguments) (seconds : ℕ)
        → Behaves P (transport_at C t R custom seconds) (λ f o w. P o w × Timed f) Fail
    unfolding transport_at
    transport_at-Behaves none seconds = elim (Bool-cases (ltb 86400 seconds)) [
      | inl x ↦ rw x (
          refuse-Behaves
            (text "config.http_timeout_secs is "
              ++ (decimal seconds ++ text "; the maximum is 86400"))
            keep)
      | inr x ↦ rw x (
          >>=-Behaves (map_failure-Behaves t (R.new_http (seconds_of seconds)) keep)
            (λ u. record { ends = λ s h. (h.0, seconds_of-Timed seconds x) }))
    ]
    transport_at-Behaves (some custom) seconds =
        >>=-Behaves (check_size-Behaves custom.struct_size 24 (text "transport"))
          (λ u. found custom.has_download)
      where
        found :
            (b : Bool)
            → Behaves P
                (if b then give callback else refuse (text "transport.download must not be null"))
                (λ f o w. P o w × Timed f)
                Fail
        found true = record { ends = λ s h. (h, tt) }
        found false = refuse-Behaves (text "transport.download must not be null") keep

    parsed_or-Behaves :
        {A : Type 0} (o : Option A) (message : Bytes)
        → Behaves P (parsed_or C t R o message) (λ a. P) Fail
    unfolding parsed_or
    parsed_or-Behaves none message = refuse-Behaves message keep
    parsed_or-Behaves (some a) message = give-Behaves {P = λ a. P} a

-- What is known of an updater that was made from its settings.
pub record IsTrusted (C : Crates) (t : Texts) (c : Config) (h : Handle C t) : Type 0 where
  pub keys : List Bytes
  pub are_keys : AreKeys c.trusted_keys c.trusted_key_count keys
  pub accepted : new C keys ≡ ok h.updater.trust
  pub timed : Timed h.transport
  pub same_limits :
      (h.updater.max_download ≡ c.max_download) × (h.updater.max_unpacked ≡ c.max_unpacked)

module _ (C : Crates) (t : Texts) (R : Parsers C t) {T W : Type 0} {P Fail : At T W}
    (keep : (o : Option T) (w : W) → P o w → Fail o w) where
  updater_of-Behaves :
      (c : Config) → Behaves P (updater_of C t R c) (λ h o w. P o w × IsTrusted C t c h) Fail
  unfolding updater_of trusted_keys transport_of
  updater_of-Behaves c =
      >>=-Behaves (check_size-Behaves keep c.struct_size 88 (text "config")) (λ u.
        >>=-Behaves (cstr-Behaves keep c.current_version (text "config.current_version"))
          (λ version.
            >>=-Behaves
              (parsed_or-Behaves (λ o w h. keep o w h.0) C t R (R.parse_version version)
                (text "config.current_version is not semver: " ++ R.version_error version))
              (λ current_version.
                >>=-Behaves
                  (keys_at-Behaves (λ o w h. keep o w h.0) c.trusted_keys c.trusted_key_count)
                  (λ keys.
                    >>=-Behaves (map_failure-Behaves t (new C keys) (λ o w h. keep o w h.0.0))
                      (λ trust.
                        >>=-Behaves
                          (transport_at-Behaves (λ o w h. keep o w h.0.0.0) C t R c.transport
                            c.http_timeout_secs)
                          (λ transport.
                            >>=-Behaves
                              (cstr-Behaves (λ o w h. keep o w h.0.0.0.0) c.product
                                (text "config.product"))
                              (λ product.
                                >>=-Behaves
                                  (cstr-Behaves (λ o w h. keep o w h.0.0.0.0.0) c.channel
                                    (text "config.channel"))
                                  (λ channel.
                                    >>=-Behaves
                                      (cstr-Behaves (λ o w h. keep o w h.0.0.0.0.0.0) c.target
                                        (text "config.target"))
                                      (λ target. record {
                                        ends = λ s h. (
                                          h.0.0.0.0.0.0.0,
                                          record {
                                            keys = keys;
                                            are_keys = h.0.0.0.0.0.1;
                                            accepted = h.0.0.0.0.1;
                                            timed = h.0.0.0.1;
                                            same_limits = (refl, refl);
                                          },
                                        );
                                      })))))))))

module _ (C : Crates) (t : Texts) (R : Parsers C t) {W : Type 0} where
  -- An updater made from the settings is handed out, and the world is as before.
  abbrev pub HandsOut : Option Config → W → At (Option (Handle C t)) W
  HandsOut config before o w =
      (w ≡ before)
      × ((c : Config) × ((config ≡ some c)
            × ((h : Handle C t) × ((o ≡ some (some h)) × IsTrusted C t c h))))

  abbrev pub HandsNone : W → At (Option (Handle C t)) W
  HandsNone before o w = (o ≡ some none) × (w ≡ before)

  -- Let the out-pointer not be null. When `freshen_updater_new` returns 0, the updater that it
  -- hands out trusts what `TrustStore::new` made of the chunks of 32 bytes of the key buffer, from
  -- one to 32 of them, has the limits of the settings, and a timeout of HTTPS between a second and
  -- a day where it uses HTTPS. Otherwise the code is not 0, a message is recorded and null is
  -- handed out.
  pub freshen_updater_new-IsTrusted :
      (config : Option Config) (s : Caller (Option (Handle C t)) W) {old : Option (Handle C t)}
      → s.slot ≡ some old
      → Ended
          (HandsOut config s.world)
          (HandsNone s.world)
          (freshen_updater_new C t R config s).0
          (freshen_updater_new C t R config s).1
  unfolding freshen_updater_new
  freshen_updater_new-IsTrusted config s {old} e =
      let before = s.world in
      run-Ended {Post = HandsOut config before} s
        (>>=-Behaves (store-Behaves {Q = λ w. w ≡ before} {old = old} none (text "out_updater"))
          (λ u. >>=-Behaves (handle-Behaves (λ o w h. h) config (text "config")) (λ c.
            >>=-Behaves (updater_of-Behaves C t R (λ o w h. h.0) c) (λ h.
              Behaves-weaken (settled_store c h)
                (λ u o w k. (k.1.0, (c, (k.1.1.0, (h, (k.0, k.1.1.1))))))))))
        (e, refl)
    where
      settled_store :
          (c : Config) (h : Handle C t)
          → Behaves
              (λ o w. (((o ≡ some none) × (w ≡ s.world)) × (config ≡ some c)) × IsTrusted C t c h)
              (store (some h) (text "out_updater"))
              (λ u o w.
                (o ≡ some (some h)) × ((w ≡ s.world) × ((config ≡ some c) × IsTrusted C t c h)))
              (HandsNone s.world)
      settled_store c h = record {
        ends = λ z k.
            (store-Behaves {Q = λ w. (w ≡ s.world) × ((config ≡ some c) × IsTrusted C t c h)}
                {old = none} (some h) (text "out_updater")).ends
              z (k.0.0.0, (k.0.0.1, (k.0.1, k.1)));
      }
