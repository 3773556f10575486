-- ===== src/Policy/Bundle.antt =====
-- Which packages a bundle policy lets in: one directory, with everything in it.
use freshen.Base.{◌≡◌, refl, subst, ◌∙◌, ◌↔◌, Bool, true, false, not, ◌||◌, List, [], ◌∷◌, ◌++◌}
use freshen.Base.{
  arith, all, any, All, Member, contains, not-contains, ◌==◌, nat_eq, list_eq, list_beq_iff,
}
use freshen.Base.Bytes.{Bytes, text, starts_with, ends_with}
use freshen.Base.Bytes.Prefix.{starts_with_iff}
use freshen.Base.Outcome.{ok, reject_if-bind, >>=-eq-ok}
use freshen.SafePath.{check_path}
use freshen.SafePath.Grammar.{IsSafePath, check_path_iff}
use freshen.Manifest.{PackageKind, files, mac_bundle, PackageFile, Artifact}
use freshen.Policy.{
  InstallPolicy, bundle, is_kind, is_inside, paths_of, validate_bundle, validate_layout, validate,
  items,
}
use mathlib.Core.List.{append_assoc}
use freshen.Policy.Portable.{IsBeneath}

bundle-kind_iff : (k : PackageKind) → (is_kind k mac_bundle ≡ true) ↔ (k ≡ mac_bundle)
bundle-kind_iff files = (λ h. cc, λ h. cc)
bundle-kind_iff mac_bundle = (λ h. refl, λ h. refl)

all-inside :
    (name : Bytes) (fs : List PackageFile)
    → all (is_inside (name ++ b'/' ∷ [])) fs ≡ true
    → All (λ p. IsBeneath p name) (paths_of fs)
unfolding all
all-inside name [] h = tt
all-inside name (f ∷ fs) h =
    let (rest, e) = (starts_with_iff f.path (name ++ b'/' ∷ [])).0 (ground arith) in
    ((rest, e ∙ append_assoc name (b'/' ∷ []) rest), all-inside name fs (ground arith))

any-executable :
    (executable : Bytes) (fs : List PackageFile)
    → any (λ f. f.path == executable) fs ≡ true
    → Member executable (paths_of fs)
unfolding any
any-executable executable [] h = cc
any-executable executable (f ∷ fs) h =
    ground (arith, list_beq_iff f.path executable, any-executable executable fs)

module _ {Url : Type 0} where
  pub record IsBundle (name executable : Bytes) (a : Artifact Url) : Type 0 where
    pub name_safe : IsSafePath name
    pub executable_safe : IsSafePath executable
    pub one_part : ¬ Member b'/' name
    pub app : ends_with name (text ".app") ≡ true
    pub kind : a.kind ≡ mac_bundle
    pub inside : All (λ p. IsBeneath p name) (paths_of a.files)
    pub runs_listed : Member executable (paths_of a.files)
    pub in_macos : (rest : Bytes) × (executable ≡ (name ++ text "/Contents/MacOS/") ++ rest)

  -- The fourth test of a bundle.
  abbrev bad_layout : Bytes → Bytes → Artifact Url → Bool
  bad_layout name executable a =
      contains name b'/'
      || not (ends_with name (text ".app"))
      || not (is_kind a.kind mac_bundle)
      || not (starts_with executable (name ++ text "/Contents/MacOS/"))
      || not (all (is_inside (name ++ b'/' ∷ [])) a.files)
      || not (any (λ f. f.path == executable) a.files)

  bad_layout-false :
      (name executable : Bytes) (a : Artifact Url)
      → bad_layout name executable a ≡ false
      → (contains name b'/' ≡ false)
        × (ends_with name (text ".app") ≡ true)
        × (is_kind a.kind mac_bundle ≡ true)
        × (starts_with executable (name ++ text "/Contents/MacOS/") ≡ true)
        × (all (is_inside (name ++ b'/' ∷ [])) a.files ≡ true)
        × (any (λ f. f.path == executable) a.files ≡ true)
  bad_layout-false name executable a h = ground arith

  validate_bundle-inverse :
      (is_macos : Bool) (name executable bundle_id team_id : Bytes) (a : Artifact Url)
      → validate_bundle is_macos name executable bundle_id team_id a ≡ ok tt
      → (is_macos ≡ true) × IsBundle name executable a
  unfolding validate_bundle
  validate_bundle-inverse is_macos name executable bundle_id team_id a h =
      let (macos, h1) = reject_if-bind (not is_macos) _ _ h in
      let (u, name_ok, h2) = >>=-eq-ok (check_path name) _ h1 in
      let (v, executable_ok, h3) = >>=-eq-ok (check_path executable) _ h2 in
      let (tests, h4) = reject_if-bind (bad_layout name executable a) _ _ h3 in
      let (flat, suffix, kind_ok, prefix, all_in, listed) =
        bad_layout-false name executable a tests in
      (
        ground arith,
        record {
          name_safe = (check_path_iff name).0 name_ok;
          executable_safe = (check_path_iff executable).0 executable_ok;
          one_part = not-contains name b'/' flat;
          app = suffix;
          kind = (bundle-kind_iff a.kind).0 kind_ok;
          inside = all-inside name a.files all_in;
          runs_listed = any-executable executable a.files listed;
          in_macos = (starts_with_iff executable (name ++ text "/Contents/MacOS/")).0 prefix;
        },
      )

  -- A bundle policy lets a package in only on macOS, if it is a bundle package whose files all lie
  -- below the one directory that the policy names, with the executable of the policy among them,
  -- below `Contents/MacOS`; and the one item that is installed is that directory.
  pub validate-bundle :
      (is_macos : Bool) (policy : InstallPolicy) (a : Artifact Url)
      {name executable bundle_id team_id : Bytes}
      → policy.layout ≡ bundle name executable bundle_id team_id
      → validate is_macos policy a ≡ ok tt
      → (is_macos ≡ true) × IsBundle name executable a × (items policy a ≡ name ∷ [])
  unfolding validate items validate_layout
  validate-bundle is_macos policy a {name} {executable} {bundle_id} {team_id} e h =
      let layout_ok : validate_layout is_macos policy.layout a ≡ ok tt = ground arith in
      let (m, b) =
        validate_bundle-inverse is_macos name executable bundle_id team_id a
          (subst (λ l. validate_layout is_macos l a ≡ ok tt) e layout_ok) in
      (m, b, rw e)
