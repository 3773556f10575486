-- ===== src/Tests/Policies.antt =====
-- Install policies.
use freshen.Base.{ℕ, ◌≡◌, refl, ◌↔◌, true, false, [], ◌∷◌, any, all, contains, list_beq}
use freshen.Base.Bytes.{
  text, split, starts_with, ends_with, strip_prefix, upper, lower, is_ascii, is_ascii_alphanumeric,
}
use freshen.Base.Outcome.{ok}
use freshen.SafePath.{check_path, is_bad_part, is_device, is_bad_byte, stem}
use freshen.Manifest.{Artifact, mac_bundle}
use freshen.Policy.{
  InstallPolicy, bundle, portable_expanding, check_paths, set_of, is_beneath, has_stray,
  validate_layout, validate, items,
}
use freshen.Policy.Portable.{InRange, IsPermitted, validate-portable_iff}
use freshen.Policy.Bundle.{IsBundle, validate-bundle}
use freshen.Tests.Fixtures.{archive, app, digest}

expanding : InstallPolicy
unfolding portable_expanding
expanding =
    portable_expanding (text "root") (text "app.exe") (text "app.exe" ∷ []) (text "sounds" ∷ [])

validate-portable_iff_example : (validate false expanding archive ≡ ok tt) ↔ (
    InRange expanding.exit_timeout_secs
    × InRange expanding.confirmation_timeout_secs
    × IsPermitted (text "app.exe" ∷ []) (text "app.exe") (text "sounds" ∷ []) archive)
unfolding expanding
validate-portable_iff_example = validate-portable_iff false expanding archive refl

expanding_accepts : validate false expanding archive ≡ ok tt
unfolding expanding validate validate_layout check_paths set_of is_beneath has_stray strip_prefix
    check_path is_bad_part stem is_bad_byte is_device any all contains list_beq split starts_with
    upper lower is_ascii text
expanding_accepts = refl

abbrev bundled : Artifact ℕ
bundled = record {
  target = text "mac";
  kind = mac_bundle;
  url = 7;
  sha256 = digest;
  size = 100;
  files = record app { path = text "A.app/Contents/MacOS/a" } ∷ [];
}

abbrev bundle_policy : InstallPolicy
bundle_policy = record {
  root = text "root";
  layout = bundle (text "A.app") (text "A.app/Contents/MacOS/a") (text "org.a") (text "T1");
  exit_timeout_secs = 120;
  confirmation_timeout_secs = 120;
}

bundle_accepts : validate true bundle_policy bundled ≡ ok tt
unfolding expanding_accepts ends_with is_ascii_alphanumeric
bundle_accepts = refl

validate-bundle_example :
    (true ≡ true)
    × IsBundle (text "A.app") (text "A.app/Contents/MacOS/a") bundled
    × (items bundle_policy bundled ≡ text "A.app" ∷ [])
validate-bundle_example = validate-bundle true bundle_policy bundled refl bundle_accepts
