-- ===== src/Install/Checking.antt =====
-- The checks of the staged files in src/install.rs change nothing.
use freshen.Base.{not, List, [], ◌∷◌, list_eq, nat_eq}
use freshen.Base.Bytes.{text, split}
use freshen.Base.Outcome.{signature, invalid, unsafe_path, reject_if}
use freshen.Crates.{Crates}
use freshen.Manifest.{PackageFile}
use freshen.Policy.{InstallLayout, portable, bundle, paths_of}
use freshen.Storage.Tree.{Place, look}
use freshen.Storage.{Area, staging, tree}
use freshen.Storage.Frames.{Effect, >>=-Effect, pure-Effect, lift-Effect, call-Effect, Frame-refl}
use freshen.Storage.Effects.{safe_join-Effect}
use freshen.Storage.Contents.{Quiet, Quiet-of_Effect}
use freshen.Install.{Platform, Plan, verify_plan}
use freshen.Install.Folders.{transaction}
use freshen.Install.Listing.{same_set}
use freshen.Install.Stage.{check_staged, check_code, verify_stage}

check_staged-Effect :
    (C : Crates) (fs : List PackageFile) (a : Area) (p : Place) → Effect a p (check_staged C fs)
unfolding check_staged
check_staged-Effect C [] a p = pure-Effect
check_staged-Effect C (f ∷ rest) a p = >>=-Effect (safe_join-Effect staging f.path) (λ q.
    >>=-Effect call-Effect
      (λ _. >>=-Effect (record { frame = λ d. Frame-refl }) (λ _. check_staged-Effect C rest a p)))

check_code-Effect :
    (S : Platform) (layout : InstallLayout) (a : Area) (p : Place)
    → Effect a p (check_code S layout)
unfolding check_code
check_code-Effect S (portable owned executable directories) a p = pure-Effect
check_code-Effect S (bundle name executable bundle_id team_id) a p = record {
  frame = λ d.
      (>>=-Effect
          (lift-Effect {r = S.codesign (look (split b'/' name) (tree staging d)) bundle_id team_id})
          (λ known. >>=-Effect (lift-Effect {r = reject_if (not known) signature}) (λ _.
            >>=-Effect (lift-Effect {r = S.lipo (look (split b'/' executable) (tree staging d))})
              (λ built.
                lift-Effect
                  {r = reject_if (not built)
                    (invalid (text "bundle architecture mismatch"))})))).frame
        d;
}

pub transaction-Effect : {a : Area} {p : Place} → Effect a p transaction
unfolding transaction
transaction-Effect = record {
  frame = λ d.
      (>>=-Effect call-Effect (λ _.
          lift-Effect
            {r = reject_if d.is_redirected (unsafe_path (text ".freshen/transaction"))})).frame
        d;
}

pub verify_stage-Quiet : (C : Crates) (S : Platform) (plan : Plan) → Quiet (verify_stage C S plan)
unfolding verify_stage
verify_stage-Quiet C S plan = Quiet-of_Effect (λ a p.
    >>=-Effect (lift-Effect {r = verify_plan C S plan}) (λ v. >>=-Effect transaction-Effect (λ _.
      >>=-Effect (check_staged-Effect C v.1.files a p) (λ _. >>=-Effect call-Effect (λ _.
        >>=-Effect (record { frame = λ d. Frame-refl })
          (λ actual.
            >>=-Effect
              (lift-Effect
                {r = reject_if (not (same_set actual (paths_of v.1.files)))
                  (invalid (text "staged file inventory changed"))})
              (λ _. check_code-Effect S plan.policy.layout a p)))))))
