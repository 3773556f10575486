-- ===== src/Helper/Listed.antt =====
-- The executable in the signed manifest of a plan, as `confirm_startup` of src/helper.rs looks it up.
use freshen.Base.{find, ◌==◌, list_eq, nat_eq}
use freshen.Base.Bytes.{text}
use freshen.Base.Outcome.{Result, invalid, ok_or, ◌>>=◌}
use freshen.Manifest.{PackageFile}
use freshen.Crates.{Crates}
use freshen.Trust.{verify}
use freshen.Policy as Policy
use freshen.Install.{Plan}

unfoldable pub listed_program : (C : Crates) → Plan → Result PackageFile
listed_program C plan = do
  release ← verify C plan.trust plan.signed
  artifact ←
      ok_or (find (λ a. a.target == plan.target) release.artifacts)
        (invalid (text "missing artifact"))
  ok_or (find (λ f. f.path == Policy.executable plan.policy) artifact.files)
      (invalid (text "missing executable"))
