-- ===== src/Helper/Program.antt =====
-- The entry of the executable that `confirm_startup` of src/helper.rs finds in the signed manifest.
use freshen.Base.{◌≡◌, Member, find, find-eq-some, ◌==◌, list_eq, nat_eq}
use freshen.Base.Bytes.{text}
use freshen.Base.Outcome.{ok, invalid, ok_or, ok_or-inverse, >>=-eq-ok}
use freshen.Crates.{Crates, Manifest, Package}
use freshen.Manifest.{PackageFile}
use freshen.Trust.{verify}
use freshen.Policy as Policy
use freshen.Install.{Plan}
use freshen.Helper.Listed.{listed_program}

-- The file is listed at the path of the executable, by a package for the target of the plan, in the
-- manifest that the keys of the plan verify.
pub record IsListed (C : Crates) (plan : Plan) (f : PackageFile) : Type 0 where
  pub release : Manifest C
  pub artifact : Package C
  pub verified : verify C plan.trust plan.signed ≡ ok release
  pub is_artifact : Member artifact release.artifacts
  pub is_target : artifact.target ≡ plan.target
  pub is_file : Member f artifact.files
  pub is_executable : f.path ≡ Policy.executable plan.policy

pub listed_program-IsListed :
    (C : Crates) (plan : Plan) {f : PackageFile} → listed_program C plan ≡ ok f → IsListed C plan f
unfolding listed_program
listed_program-IsListed C plan {f} h =
    let (release, verified, h2) = >>=-eq-ok (verify C plan.trust plan.signed) _ h in
    let (artifact, found, h3) =
      >>=-eq-ok
        (ok_or (find (λ a. a.target == plan.target) release.artifacts)
          (invalid (text "missing artifact")))
        _ h2 in
    let (m, t) =
      find-eq-some (λ a. a.target == plan.target) release.artifacts (ok_or-inverse _ _ found) in
    let (n, e) =
      find-eq-some (λ g. g.path == Policy.executable plan.policy) artifact.files
        (ok_or-inverse _ _ h3) in
    record {
      release = release;
      artifact = artifact;
      verified = verified;
      is_artifact = m;
      is_target = (list_eq.beq_iff artifact.target plan.target).0 t;
      is_file = n;
      is_executable = (list_eq.beq_iff f.path (Policy.executable plan.policy)).0 e;
    }
