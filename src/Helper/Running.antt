-- ===== src/Helper/Running.antt =====
-- What `run_helper` of src/helper.rs keeps while it waits, it keeps to its end.
use freshen.Base.{◌≡◌, refl, ◌*◌, Bool, true, false, not, List, [], ◌∷◌, ◌==◌, list_eq, nat_eq}
use freshen.Base.Bytes.{Bytes, text}
use freshen.Base.Outcome.{Result, ok, err, helper, reject_if}
use freshen.Base.Triples.{Ends, Triple, Triple-weaken, >>=-Triple, if-Triple}
use freshen.Crates.{Crates}
use freshen.Storage.Contents.{Quiet, Quiet-of_Effect, lift-Triple}
use freshen.Install.{Platform, Plan}
use freshen.Install.Folders.{transaction, lock}
use freshen.Install.Checking.{transaction-Effect, verify_stage-Quiet}
use freshen.Install.Recovered.{lock-Effect, load_plan-Quiet}
use freshen.Helper.{Session, ready, helper_error, exited, open_parent}
use freshen.Helper.Execute.{go_on, execute, report_failure, run_arguments, run_helper}
use freshen.Helper.Waiting.{
  Lasts, within-Lasts, write_mark-Lasts, ignore-Lasts, await_exit-Triple, catch-Triple,
}

pub transaction-Quiet : Quiet transaction
transaction-Quiet = Quiet-of_Effect (λ a p. transaction-Effect)

lock-Quiet : Quiet lock
lock-Quiet = Quiet-of_Effect (λ a p. lock-Effect)

-- What `run_helper` keeps, if it keeps it after the parent has exited.
module _ (C : Crates) (S : Platform) {I : Session → Type 0} (l : Lasts I)
    (gone : (plan : Plan)
      → Triple (λ w. I w × (exited w.parent ≡ ok true)) (go_on C S plan false) (λ _. I) I) where
  pub execute-Lasts : (plan : Plan) → Triple I (execute C S plan) (λ _. I) I
  unfolding execute
  execute-Lasts plan = >>=-Triple (within-Lasts l transaction-Quiet) (λ _.
      >>=-Triple (within-Lasts l (verify_stage-Quiet C S plan)) (λ _.
        >>=-Triple (lift-Triple I (open_parent plan.parent_pid)) (λ pid.
          >>=-Triple (write_mark-Lasts l ready plan.token) (λ _.
            >>=-Triple (await_exit-Triple l (10 * plan.policy.exit_timeout_secs)) (go plan)))))
    where
      go :
          (plan : Plan) (left : Bool)
          → Triple
              (λ w. I w × (left ≡ false → exited w.parent ≡ ok true))
              (go_on C S plan left)
              (λ _. I)
              I
      go plan true = record { ends = λ w h. h.0 }
      go plan false = Triple-weaken (gone plan) (λ w h. (h.0, h.1 refl)) (λ u w h. h) (λ w h. h)

  report_failure-Lasts : (r : Result (Unit {0})) → Triple I (report_failure C S r) (λ _. I) I
  unfolding report_failure
  report_failure-Lasts (ok u) = record { ends = λ w h. h }
  report_failure-Lasts (err e) =
      >>=-Triple (within-Lasts l transaction-Quiet)
        (λ _. >>=-Triple (ignore-Lasts l helper_error (S.display e)) (λ _. lift-Triple I (err e)))

  run_arguments-Lasts : (args : List Bytes) → Triple I (run_arguments C S args) (λ _. I) I
  unfolding run_arguments
  run_arguments-Lasts (path ∷ token ∷ []) =
      >>=-Triple (within-Lasts l (load_plan-Quiet C S)) (λ plan.
        >>=-Triple
          (lift-Triple I
            (reject_if (not (token == plan.token)) (helper (text "stale helper launch token"))))
          (λ _.
            >>=-Triple (within-Lasts l lock-Quiet)
              (λ _. catch-Triple (execute-Lasts plan) (after plan))))
    where
      after :
          (plan : Plan) (r : Result (Unit {0}))
          → Triple (Ends (λ _. I) I r) (report_failure C S r) (λ _. I) I
      after plan (ok u) = report_failure-Lasts (ok u)
      after plan (err e) = report_failure-Lasts (err e)
  run_arguments-Lasts [] = record { ends = λ w h. h }
  run_arguments-Lasts (path ∷ []) = record { ends = λ w h. h }
  run_arguments-Lasts (path ∷ token ∷ x ∷ rest) = record { ends = λ w h. h }

  pub run_helper-Lasts : (args : List Bytes) → Triple I (run_helper C S args) (λ _. I) I
  unfolding run_helper
  run_helper-Lasts [] = record { ends = λ w h. h }
  run_helper-Lasts (flag ∷ rest) =
      if-Triple (flag == text "--freshen-apply") (run_arguments-Lasts rest)
        (record { ends = λ w h. h })
