-- ===== src/Release/Signed.antt =====
-- The commands `keygen` and `sign` of src/bin/release.rs against `TrustStore::verify`: what is signed
-- is accepted.
use freshen.Base.{
  ◌≡◌, refl, sym, ap, subst, ◌∙◌, inl, inr, ℕ, ◌*◌, ◌≤◌, Bool, true, false, not, ◌||◌, [], ◌∷◌,
  none, some, length, ltb, ◌==◌, list_eq, nat_eq, arith, Bool-cases,
}
use freshen.Base.Bytes.{Bytes, text}
use freshen.Base.Bytes.Trim.{trim}
use freshen.Base.Bytes.Utf8.{is_utf8}
use freshen.Base.Outcome.{
  ok, Error, invalid, io, other, json, reject_if, ok_or, reject_if-eq-ok, ok_or-inverse,
}
use freshen.Base.Triples.{Ends, Triple, Triple-weaken, Triple-both, >>=-Triple, Ends-ok}
use freshen.Base.Facts.{lift-Knows, step-Knows, const-Triple}
use freshen.Crates.{Crates, Manifest}
use freshen.Manifest.{validate}
use freshen.Manifest.Valid.{validate_iff}
use freshen.Trust.{signing_message, verify}
use freshen.Trust.Authentic.{verify_iff}
use freshen.Release.{Tools, Desk, find_file, write_new}
use freshen.Release.Sign.{path_exists, keygen, sign}
use freshen.Release.Files.{Kept, Any, Wrote, read_at-Triple, write_new-Triple}

-- What the tool relies on: Base64 is read back and has no white space, a signature has 64 bytes, so that
-- its Base64 has 88, it is read back, and the public key of a seed verifies what the seed signs.
pub record Scheme (C : Crates) (T : Tools C) : Type 0 where
  pub decode : (s : Bytes) → C.decode_base64 (trim (T.encode_base64 s)) ≡ some s
  pub short : (seed message : Bytes) → length (T.encode_base64 (T.sign seed message)) ≤ 1024
  pub key : Bytes → C.VerifyingKey
  pub has_key :
      (seed : Bytes) → length seed ≡ 32 → C.key_from_bytes (T.public_key seed) ≡ some (key seed)
  pub signature : Bytes → Bytes → C.Signature
  pub has_signature :
      (seed message : Bytes)
      → C.signature_from_slice (T.sign seed message) ≡ some (signature seed message)
  pub verifies :
      (seed message : Bytes)
      → length seed ≡ 32
      → C.verify_strict (key seed) message (signature seed message) ≡ true

not-false : (b : Bool) → not b ≡ false → b ≡ true
not-false true h = refl
not-false false h = cc

same_length : (n m : ℕ) (e : Error) {u : Unit {0}} → reject_if (not (n == m)) e ≡ ok u → n ≡ m
same_length n m e h = (nat_eq.beq_iff n m).0 (not-false (n == m) (reject_if-eq-ok _ e h))

fits_in : (n m : ℕ) (e : Error) {u : Unit {0}} → reject_if (ltb m n) e ≡ ok u → n ≤ m
fits_in n m e h = let f = reject_if-eq-ok (ltb m n) e h in ground arith

other_way : (a b : Bytes) → (a == b) ≡ false → (b == a) ≡ false
other_way a b h = elim (Bool-cases (b == a)) [
  | inl e ↦ let t = (list_eq.beq_iff a b).1 (sym ((list_eq.beq_iff b a).0 e)) in absurd (cc)
  | inr e ↦ e
]

last_false : (a b c : Bool) → (a || b || c) ≡ false → c ≡ false
last_false a b c h = ground arith

module _ (C : Crates) (T : Tools C) where
  -- What `sign` has read, checked and written.
  pub record Signed (private manifest signature : Bytes) (before after : Desk) : Type 0 where
    pub encoded : Bytes
    pub seed : Bytes
    pub document : Bytes
    pub release : Manifest C
    pub has_private : find_file private before.files ≡ some encoded
    pub is_seed : C.decode_base64 (trim encoded) ≡ some seed
    pub seed_length : length seed ≡ 32
    pub has_document : find_file manifest before.files ≡ some document
    pub fits : length document ≤ 1024 * 1024
    pub is_release : C.parse_manifest document ≡ some release
    pub valid : validate release ≡ ok tt
    pub wrote :
        Wrote signature (T.encode_base64 (T.sign seed (signing_message document))) before after

  module _ (private manifest signature : Bytes) (before : Desk) where
    no_fail : (d : Desk) → Kept before d → Any d
    no_fail d h = tt

    sign-Triple :
        Triple
          (Kept before)
          (sign C T private manifest signature)
          (λ _. Signed private manifest signature before)
          Any
    unfolding sign
    sign-Triple = >>=-Triple (read_at-Triple before private) (λ encoded.
        >>=-Triple
          (lift-Knows (Kept before) Any no_fail _ (reject_if (not (is_utf8 encoded)) (io other)))
          (λ _.
            >>=-Triple
              (lift-Knows (Kept before) Any no_fail _
                (ok_or (C.decode_base64 (trim encoded)) (invalid (text "Invalid base64"))))
              (λ seed.
                >>=-Triple
                  (lift-Knows (Kept before) Any no_fail _ (
                    reject_if (not (length seed == 32))
                      (invalid (text "private key must contain 32 bytes"))))
                  (λ _.
                    >>=-Triple
                      (step-Knows (Kept before) Any no_fail _
                        (λ s. find_file manifest before.files ≡ some s)
                        (read_at-Triple before manifest))
                      (λ document.
                        >>=-Triple
                          (lift-Knows (Kept before) Any no_fail _ (
                            reject_if (ltb (1024 * 1024) (length document))
                              (invalid (text "manifest exceeds 1 MiB"))))
                          (λ _.
                            >>=-Triple
                              (lift-Knows (Kept before) Any no_fail _
                                (ok_or (C.parse_manifest document) json))
                              (λ release.
                                >>=-Triple
                                  (lift-Knows (Kept before) Any no_fail _ (validate release))
                                  (λ u. record {
                                    ends = λ d (h, k).
                                        (Triple-weaken
                                            (write_new-Triple signature
                                              (T.encode_base64
                                                (T.sign seed (signing_message document)))
                                              before)
                                            (λ e i. i)
                                            (λ v e w. record {
                                              encoded = encoded;
                                              seed = seed;
                                              document = document;
                                              release = release;
                                              has_private = k.0.0.0.0.0.0.0;
                                              is_seed = ok_or-inverse _ _ k.0.0.0.0.0.1;
                                              seed_length = same_length _ 32 _ k.0.0.0.0.1;
                                              has_document = k.0.0.0.1;
                                              fits = fits_in _ (1024 * 1024) _ k.0.0.1;
                                              is_release = ok_or-inverse _ _ k.0.1;
                                              valid = k.1;
                                              wrote = w;
                                            })
                                            (λ e i. i)).ends
                                          d h;
                                  }))))))))

  -- The key files that `keygen` makes.
  pub record Keys (private public seed : Bytes) (before after : Desk) : Type 0 where
    pub drawn : before.random ≡ ok seed
    pub fresh : find_file private before.files ≡ none
    pub fresh_public : find_file public before.files ≡ none
    pub has_private : find_file private after.files ≡ some (T.encode_base64 seed)
    pub has_public : find_file public after.files ≡ some (T.encode_base64 (T.public_key seed))
    pub others :
        (p : Bytes)
        → (private == p) ≡ false
        → (public == p) ≡ false
        → find_file p after.files ≡ find_file p before.files

  module _ (private public : Bytes) (before : Desk) where
    abbrev clashes : Desk → Bool
    clashes d =
        path_exists (T.sees private d.files) (find_file private d.files)
        || path_exists (T.sees public d.files) (find_file public d.files)
        || private == public

    both :
        (seed : Bytes) (mid after : Desk)
        → before.random ≡ ok seed
        → (private == public) ≡ false
        → Wrote private (T.encode_base64 seed) before mid
        → Wrote public (T.encode_base64 (T.public_key seed)) mid after
        → Keys private public seed before after
    both seed mid after r n w v = record {
      drawn = r;
      fresh = w.fresh;
      fresh_public = sym (w.others public n) ∙ v.fresh;
      has_private = v.others private (other_way private public n) ∙ w.written;
      has_public = v.written;
      others = λ p a b. v.others p b ∙ w.others p a;
    }

    keygen-Triple :
        Triple
          (λ d. d ≡ before)
          (keygen C T private public)
          (λ _ d. (seed : Bytes) × Keys private public seed before d)
          Any
    unfolding keygen
    keygen-Triple = record {
      ends = λ d e.
          subst
            (λ z.
              Ends (λ _ g. (seed : Bytes) × Keys private public seed before g) Any
                (keygen C T private public z).0 (keygen C T private public z).1)
            (sym e)
            ((>>=-Triple
                (lift-Knows (λ g. g ≡ before) Any (λ g h. tt) (Unit {0})
                  (reject_if (clashes before) (
                    invalid (text "key output paths must be distinct and must not already exist"))))
                (λ _.
                  >>=-Triple (lift-Knows (λ g. g ≡ before) Any (λ g h. tt) _ before.random) (λ seed.
                    >>=-Triple (first seed) (λ _. record {
                      ends = λ mid (w, k).
                          (Triple-weaken
                              (write_new-Triple public (T.encode_base64 (T.public_key seed)) mid)
                              (λ g i. i)
                              (λ u g v. (seed, both seed mid g k.1 (distinct _ k.0.1) w v))
                              (λ g i. i)).ends
                            mid (refl, refl);
                    })))).ends
              before (refl, tt));
    }
      where
        first :
            (seed : Bytes) {K : Type 0}
            → Triple
                (λ g. (g ≡ before) × K)
                (write_new private (T.encode_base64 seed))
                (λ _ g. Wrote private (T.encode_base64 seed) before g × K)
                Any
        first seed {K} =
            Triple-weaken
              (Triple-both (write_new-Triple private (T.encode_base64 seed) before)
                (const-Triple K (write_new private (T.encode_base64 seed))))
              (λ g h. ((ap (λ d. d.files) h.0, ap (λ d. d.folders) h.0), h.1)) (λ u g h. h)
              (λ g h. tt)

        distinct :
            (e : Error) {u : Unit {0}}
            → reject_if (clashes before) e ≡ ok u
            → (private == public) ≡ false
        distinct e h =
            last_false (path_exists (T.sees private before.files) (find_file private before.files))
              (path_exists (T.sees public before.files) (find_file public before.files))
              (private == public) (reject_if-eq-ok (clashes before) e h)

  -- What `sign` has signed, and that it is accepted with the public key of the seed.
  pub record Accepted (private manifest signature : Bytes) (before after : Desk) : Type 0 where
    pub encoded : Bytes
    pub seed : Bytes
    pub document : Bytes
    pub signed : Bytes
    pub release : Manifest C
    pub has_private : find_file private before.files ≡ some encoded
    pub is_seed : C.decode_base64 (trim encoded) ≡ some seed
    pub has_document : find_file manifest before.files ≡ some document
    pub is_new : find_file signature before.files ≡ none
    pub has_signature : find_file signature after.files ≡ some signed
    pub accepted :
        verify C
          (record { keys = T.public_key seed ∷ [] })
          (record { document = document; signature = signed })
        ≡ ok release

  -- Let Base64 be read back, let a signature be short and read back, and let the public key of a
  -- seed of 32 bytes verify what that seed signs. When the command `sign` succeeds, the signature
  -- file is new, and `verify` with the public key of the private key file accepts the document
  -- with the signature that stands in it, and gives the manifest of the document.
  pub sign-verify :
      (scheme : Scheme C T) (private manifest signature : Bytes) (before : Desk) {u : Unit {0}}
      → (sign C T private manifest signature before).0 ≡ ok u
      → Accepted private manifest signature before (sign C T private manifest signature before).1
  unfolding signing_message
  sign-verify scheme private manifest signature before h =
      let g =
        Ends-ok (λ _. Signed private manifest signature before) Any
          (sign C T private manifest signature before).0
          (sign C T private manifest signature before).1
          ((sign-Triple private manifest signature before).ends before (refl, refl)) h in
      let message = signing_message g.document in
      record {
        encoded = g.encoded;
        seed = g.seed;
        document = g.document;
        signed = T.encode_base64 (T.sign g.seed message);
        release = g.release;
        has_private = g.has_private;
        is_seed = g.is_seed;
        has_document = g.has_document;
        is_new = g.wrote.fresh;
        has_signature = g.wrote.written;
        accepted =
            (verify_iff C (record { keys = T.public_key g.seed ∷ [] })
                (record {
                  document = g.document;
                  signature = T.encode_base64 (T.sign g.seed message);
                })
                g.release).1
              (record {
                document_fits = g.fits;
                signature_fits = scheme.short g.seed message;
                signed = record {
                  decoded = T.sign g.seed message;
                  sig = scheme.signature g.seed message;
                  key = T.public_key g.seed;
                  parsed = scheme.key g.seed;
                  is_decoded = scheme.decode (T.sign g.seed message);
                  is_signature = scheme.has_signature g.seed message;
                  is_trusted = inl refl;
                  is_key = scheme.has_key g.seed g.seed_length;
                  verified = scheme.verifies g.seed message g.seed_length;
                };
                is_document = g.is_release;
                valid = (validate_iff g.release).0 g.valid;
              });
      }

  -- When the command `keygen` succeeds, the two files are new and hold the Base64 of the drawn
  -- seed and of its public key, and no other file changes.
  pub keygen-Keys :
      (private public : Bytes) (before : Desk) {u : Unit {0}}
      → (keygen C T private public before).0 ≡ ok u
      → (seed : Bytes) × Keys private public seed before (keygen C T private public before).1
  keygen-Keys private public before h =
      Ends-ok (λ _ d. (seed : Bytes) × Keys private public seed before d) Any
        (keygen C T private public before).0 (keygen C T private public before).1
        ((keygen-Triple private public before).ends before refl) h
