-- ===== src/Trust.antt =====
-- src/manifest.rs: `TrustStore`, `SignedManifest` and `signing_message`.
pub mod Authentic
pub mod Keys
use freshen.Base.{
  ℕ, suc, ◌+◌, ◌*◌, ◌≡◌, Bool, true, false, not, ◌||◌, List, [], ◌∷◌, ◌++◌, length, is_empty,
}
use freshen.Base.{Option, none, some, ltb, any, if◌then◌else◌}
use freshen.Base.Bytes.{Bytes, text}
use freshen.Base.Bytes.Trim.{trim}
use freshen.Base.Outcome.{
  Result, ok, err, invalid, signature, size_limit, json, reject_if, ok_or, ◌>>=◌, ◌>>◌,
}
use freshen.Manifest.{validate}
use freshen.Crates.{Crates, Manifest}

pub record SignedManifest : Type 0 where
  pub document : Bytes
  pub signature : Bytes

pub record TrustStore : Type 0 where
  pub keys : List Bytes

-- `b"freshen-manifest-v1\0"`
unfoldable pub signing_domain : Bytes
unfolding text
signing_domain = text "freshen-manifest-v1" ++ 0 ∷ []

unfoldable pub signing_message : Bytes → Bytes
signing_message document = signing_domain ++ document

module _ (C : Crates) where
  -- The loop over the keys in `TrustStore::new`.
  unfoldable pub check_keys : List Bytes → Result (Unit {0})
  check_keys [] = ok tt
  check_keys (bytes ∷ rest) = do
    key ← ok_or (C.key_from_bytes bytes) signature
    reject_if (C.is_weak key) signature
    check_keys rest

  unfoldable pub new : List Bytes → Result TrustStore
  new keys = do
    reject_if (is_empty keys || ltb 32 (length keys))
        (invalid (text "provide between 1 and 32 publisher keys"))
    check_keys keys
    ok (record { keys = keys })

  -- The closure in `verify`.
  unfoldable pub accepts : Bytes → C.Signature → Bytes → Bool
  accepts message s bytes = elim (C.key_from_bytes bytes) [
    | none ↦ false
    | some key ↦ C.verify_strict key message s
  ]

  unfoldable pub verify : TrustStore → SignedManifest → Result (Manifest C)
  verify trust signed = do
    reject_if (ltb (1024 * 1024) (length signed.document) || ltb 1024 (length signed.signature))
        size_limit
    decoded ← ok_or (C.decode_base64 (trim signed.signature)) signature
    s ← ok_or (C.signature_from_slice decoded) signature
    reject_if (not (any (accepts (signing_message signed.document) s) trust.keys)) signature
    manifest ← ok_or (C.parse_manifest signed.document) json
    validate manifest
    ok manifest
