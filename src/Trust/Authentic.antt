-- ===== src/Trust/Authentic.antt =====
-- What `verify` promises of the manifest that it returns.
use freshen.Base.{◌*◌, ◌≤◌, ◌≡◌, ◌↔◌, inl, inr, true, ◌||◌, ◌++◌, length}
use freshen.Base.{some, arith, ltb, any, any_iff, Member, Option-cases, if◌then◌else◌}
use freshen.Base.Bytes.{Bytes}
use freshen.Base.Bytes.Trim.{trim}
use freshen.Base.Outcome.{ok, err, signature, size_limit}
use freshen.Manifest.{validate}
use freshen.Manifest.Valid.{IsValidManifest, validate_iff}
use freshen.Crates.{Crates, Manifest}
use freshen.Trust.{SignedManifest, TrustStore, signing_domain, signing_message, accepts, verify}

module _ (C : Crates) where
  -- A key of the store signed the exact bytes of the document behind the domain prefix.
  pub record IsSigned (trust : TrustStore) (s : SignedManifest) : Type 0 where
    pub decoded : Bytes
    pub sig : C.Signature
    pub key : Bytes
    pub parsed : C.VerifyingKey
    pub is_decoded : C.decode_base64 (trim s.signature) ≡ some decoded
    pub is_signature : C.signature_from_slice decoded ≡ some sig
    pub is_trusted : Member key trust.keys
    pub is_key : C.key_from_bytes key ≡ some parsed
    pub verified : C.verify_strict parsed (signing_domain ++ s.document) sig ≡ true

  pub record IsAuthentic (trust : TrustStore) (s : SignedManifest) (m : Manifest C) : Type 0 where
    pub document_fits : length s.document ≤ 1024 * 1024
    pub signature_fits : length s.signature ≤ 1024
    pub signed : IsSigned trust s
    pub is_document : C.parse_manifest s.document ≡ some m
    pub valid : IsValidManifest m

  accepts-inverse :
      (message : Bytes) (s : C.Signature) (bytes : Bytes)
      → accepts C message s bytes ≡ true
      → (key : C.VerifyingKey) × (C.key_from_bytes bytes ≡ some key)
        × (C.verify_strict key message s ≡ true)
  unfolding accepts
  accepts-inverse message s bytes h = elim (Option-cases (C.key_from_bytes bytes)) [
    | inl e ↦ ground arith
    | inr (key, e) ↦ (key, e, ground arith)
  ]

  accepts_complete :
      (message : Bytes) (s : C.Signature) (bytes : Bytes) (key : C.VerifyingKey)
      → C.key_from_bytes bytes ≡ some key
      → C.verify_strict key message s ≡ true
      → accepts C message s bytes ≡ true
  unfolding accepts
  accepts_complete message s bytes key e v = ground arith

  verify-inverse :
      (trust : TrustStore) (s : SignedManifest) (m : Manifest C)
      → verify C trust s ≡ ok m
      → IsAuthentic trust s m
  unfolding verify signing_message
  verify-inverse trust s m h = elim (Option-cases (C.decode_base64 (trim s.signature))) [
    | inl e ↦ ground arith
    | inr (decoded, d) ↦ elim (Option-cases (C.signature_from_slice decoded)) [
      | inl e ↦ ground arith
      | inr (sig, g) ↦
          let found : any (accepts C (signing_domain ++ s.document) sig) trust.keys ≡ true =
            ground arith in
          let (key, at, accepted) = (any_iff _ trust.keys).0 found in
          let (parsed, is_key, verified) = accepts-inverse _ sig key accepted in
          let is_document : C.parse_manifest s.document ≡ some m = ground arith in
          let valid : validate m ≡ ok tt = ground arith in
          record {
            document_fits = ground arith;
            signature_fits = ground arith;
            signed = record {
              decoded = decoded;
              sig = sig;
              key = key;
              parsed = parsed;
              is_decoded = d;
              is_signature = g;
              is_trusted = at;
              is_key = is_key;
              verified = verified;
            };
            is_document = is_document;
            valid = (validate_iff m).0 valid;
          }
    ]
  ]

  any-of_signed :
      (trust : TrustStore) (s : SignedManifest) (g : IsSigned trust s)
      → any (accepts C (signing_message s.document) g.sig) trust.keys ≡ true
  unfolding signing_message
  any-of_signed trust s g =
      (any_iff _ trust.keys).1
        (g.key, g.is_trusted, accepts_complete _ g.sig g.key g.parsed g.is_key g.verified)

  verify_complete :
      (trust : TrustStore) (s : SignedManifest) (m : Manifest C)
      → IsAuthentic trust s m
      → verify C trust s ≡ ok m
  unfolding verify
  verify_complete trust s m a = ground (
    arith,
    a.document_fits,
    a.signature_fits,
    a.signed.is_decoded,
    a.signed.is_signature,
    any-of_signed trust s a.signed,
    a.is_document,
    (validate_iff m).1 a.valid,
  )

  -- `verify` returns a manifest exactly when document and signature are within their limits, a
  -- trusted key signed the domain prefix followed by the exact bytes of the document, the document
  -- parses to that manifest, and the manifest is valid.
  pub verify_iff :
      (trust : TrustStore) (s : SignedManifest) (m : Manifest C)
      → (verify C trust s ≡ ok m) ↔ IsAuthentic trust s m
  verify_iff trust s m = (verify-inverse trust s m, verify_complete trust s m)

  signed-of_accepted :
      (trust : TrustStore) (s : SignedManifest) (decoded : Bytes) (sig : C.Signature)
      → C.decode_base64 (trim s.signature) ≡ some decoded
      → C.signature_from_slice decoded ≡ some sig
      → any (accepts C (signing_message s.document) sig) trust.keys ≡ true
      → IsSigned trust s
  unfolding signing_message
  signed-of_accepted trust s decoded sig d g found =
      let (key, at, accepted) = (any_iff _ trust.keys).0 found in
      let (parsed, is_key, verified) = accepts-inverse _ sig key accepted in
      record {
        decoded = decoded;
        sig = sig;
        key = key;
        parsed = parsed;
        is_decoded = d;
        is_signature = g;
        is_trusted = at;
        is_key = is_key;
        verified = verified;
      }

  -- Without a signature by a trusted key `verify` gives `Error::Signature`, whatever the document
  -- holds, when both texts are within their limits, and `Error::SizeLimit` beyond a limit.
  pub verify-unsigned :
      (trust : TrustStore) (s : SignedManifest)
      → ¬ IsSigned trust s
      → verify C trust s ≡ (
          if ltb (1024 * 1024) (length s.document) || ltb 1024 (length s.signature)
          then err size_limit
          else err signature)
  unfolding verify
  verify-unsigned trust s n = elim (Option-cases (C.decode_base64 (trim s.signature))) [
    | inl e ↦ ground arith
    | inr (decoded, d) ↦ elim (Option-cases (C.signature_from_slice decoded)) [
      | inl e ↦ ground arith
      | inr (sig, g) ↦
          let refused = λ (a : any (accepts C (signing_message s.document) sig) trust.keys ≡ true).
            n (signed-of_accepted trust s decoded sig d g a) in
          ground (arith, refused)
    ]
  ]
