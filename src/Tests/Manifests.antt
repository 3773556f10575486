-- ===== src/Tests/Manifests.antt =====
-- Manifests and trust.
use freshen.Base.{
  ◌≡◌, refl, ◌↔◌, [], ◌∷◌, arith, any, all, length, contains, list_beq, ltb, true, ◌||◌,
  if◌then◌else◌, ◌*◌,
}
use freshen.Base.Bytes.{
  text, split, rsplit_once, starts_with, upper, lower, is_ascii, is_ascii_hexdigit,
}
use freshen.Base.Bytes.Trim.{trim}
use freshen.Base.Outcome.{ok, err, size_limit, signature}
use freshen.SafePath.{check_path, is_bad_part, is_device, is_bad_byte, stem}
use freshen.Manifest.{
  check_hash, check_files, has_file_ancestor, check_ancestors, check_artifact, check_artifacts,
  validate,
}
use freshen.Manifest.Ancestors.{HasAncestor, has_file_ancestor_iff}
use freshen.Manifest.Valid.{IsValidManifest, validate_iff}
use freshen.Trust.{SignedManifest, signing_domain, signing_message, accepts, new, verify}
use freshen.Trust.Authentic.{IsSigned, IsAuthentic, verify_iff, verify-unsigned}
use freshen.Trust.Keys.{StoreOf, new_iff}
use freshen.Tests.Fixtures.{crates, store, key, signed, release}

release_valid : validate (release 2) ≡ ok tt
unfolding validate check_artifacts check_artifact check_files check_ancestors has_file_ancestor
    check_hash is_ascii_hexdigit rsplit_once check_path is_bad_part stem is_bad_byte is_device any
    all contains list_beq split starts_with upper lower is_ascii text
release_valid = refl

unfoldable pub verified : verify crates store (signed 2) ≡ ok (release 2)
unfolding verify accepts signing_message signing_domain trim release_valid
verified = refl

validate_iff_example : (validate (release 2) ≡ ok tt) ↔ IsValidManifest (release 2)
validate_iff_example = validate_iff (release 2)

has_file_ancestor_iff_example :
    (has_file_ancestor (length (text "a/b")) (text "a" ∷ []) (text "a/b") ≡ true)
    ↔ HasAncestor (text "a" ∷ []) (text "a/b")
has_file_ancestor_iff_example = has_file_ancestor_iff (text "a" ∷ []) (text "a/b")

verify_iff_example :
    (verify crates store (signed 2) ≡ ok (release 2))
    ↔ IsAuthentic crates store (signed 2) (release 2)
verify_iff_example = verify_iff crates store (signed 2) (release 2)

abbrev forged : SignedManifest
forged = record { document = 2 ∷ []; signature = text "xx" }

forged_refused : verify crates store forged ≡ err signature
unfolding verify accepts signing_message signing_domain trim text any list_beq
forged_refused = refl

-- A signature by the key starts with the key.
forged_unsigned : ¬ IsSigned crates store forged
unfolding trim text list_beq signing_domain
forged_unsigned g = ground arith

verify-unsigned_example : verify crates store forged ≡ (
    if ltb (1024 * 1024) (length forged.document) || ltb 1024 (length forged.signature)
    then err size_limit
    else err signature)
verify-unsigned_example = verify-unsigned crates store forged forged_unsigned

new_iff_example : (new crates (key ∷ []) ≡ ok store) ↔ StoreOf crates (key ∷ []) store
new_iff_example = new_iff crates (key ∷ []) store
