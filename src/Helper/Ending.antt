-- ===== src/Helper/Ending.antt =====
-- The steps of `execute` in src/helper.rs from a transaction that is armed, up to its end.
use freshen.Base.{◌≡◌, refl, ◌⊎◌, inl, inr, ◌*◌, Bool, true, false, List}
use freshen.Base.Bytes.{Bytes}
use freshen.Base.Outcome.{Result, ok, err}
use freshen.Base.Triples.{Ends, Triple, Triple-weaken, >>=-Triple, if-Triple}
use freshen.Base.Exec.{Exec}
use freshen.Crates.{Crates, Manifest, Package}
use freshen.Policy.{portable, items}
use freshen.Policy as Policy
use freshen.Storage.Tree.{Place}
use freshen.Storage.{Disk, Area, installation, tree}
use freshen.Storage.Frames.{saved}
use freshen.Storage.Contents.{lift-Triple, call-Quiet, safe_join-Quiet}
use freshen.Install.{at_item, Platform, Plan, Journal, ReadsBack, verify_plan, failed}
use freshen.Install.Restore.{HoldsFiles, AreApart}
use freshen.Install.Backing.{Idle, Idle-same}
use freshen.Install.Crash.{Recoverable, Recoverable-same}
use freshen.Install.Crashes.{IsArmed}
use freshen.Install.Applied.{apply-Triple, Recoverable-of_Idle}
use freshen.Install.Checking.{verify_stage-Quiet}
use freshen.Helper.{Session, ready, cancel, exited, open_parent}
use freshen.Helper.Execute.{
  is_rolling_back, start_application, after_spawn, after_apply, install, go_on, execute,
}
use freshen.Helper.Waiting.{
  Lasts, within-Lasts, observe-Lasts, write_mark-Lasts, ignore-Triple, within-Triple, catch-Triple,
  await_exit-Triple, has_mark-Quiet,
}
use freshen.Helper.Running.{transaction-Quiet}
use freshen.Helper.Finishing.{installation_status-Quiet, finish-Lasting, rollback-Triple}
use freshen.Helper.Confirming.{
  Lasts-of_files, IsConfirmed, Done, Settled, await_confirmation-Triple,
}

module _ (C : Crates) (S : Platform) (reads : ReadsBack S) (plan : Plan) (release : Manifest C)
    (artifact : Package C) (verified : verify_plan C S plan ≡ ok (release, artifact))
    (owned : List Bytes) (executable : Bytes) (directories : List Bytes)
    (layout : plan.policy.layout ≡ portable owned executable directories) (before : Disk)
    (apart : AreApart (tree installation before) (items plan.policy artifact))
    (files : HoldsFiles (tree installation before) (items plan.policy artifact)) (j : Journal)
    (armed : IsArmed S j before) where
  -- Nothing is done yet.
  abbrev pub Start : Disk → Type 0
  Start =
      Idle (tree installation before) (items plan.policy artifact) apart files (S.print_journal j)

module _ (C : Crates) (S : Platform) (reads : ReadsBack S) (plan : Plan) (release : Manifest C)
    (artifact : Package C) (verified : verify_plan C S plan ≡ ok (release, artifact))
    (owned : List Bytes) (executable : Bytes) (directories : List Bytes)
    (layout : plan.policy.layout ≡ portable owned executable directories) (before : Disk)
    (apart : AreApart (tree installation before) (items plan.policy artifact))
    (files : HoldsFiles (tree installation before) (items plan.policy artifact)) (j : Journal)
    (armed : IsArmed S j before) (Sighted : Type 0)
    (sighted : Sighted → (p : Place) (d : Disk) → S.sees (at_item p) d ≡ true) where
  abbrev Unmoved : Disk → Type 0
  Unmoved =
      Idle (tree installation before) (items plan.policy artifact) apart files (S.print_journal j)

  abbrev Lasting : Disk → Type 0
  Lasting = Recoverable S Sighted (tree installation before) (items plan.policy artifact)

  abbrev pub Ending : Session → Type 0
  Ending =
      Settled C S reads Sighted (tree installation before) (items plan.policy artifact) apart plan

  abbrev Committing : Unit {0} → Session → Type 0
  Committing =
      Done C S reads Sighted (tree installation before) (items plan.policy artifact) apart plan

  lasting :
      (d e : Disk) → ((b : Area) → tree b e ≡ tree b d) → saved e ≡ saved d → Lasting d → Lasting e
  lasting = Recoverable-same S Sighted (tree installation before) (items plan.policy artifact)

  start_application-Triple :
      (program : Place)
      → Triple
          (λ w. Lasting w.disk)
          (start_application C S plan program)
          (λ _ w. Lasting w.disk)
          Ending
  unfolding start_application
  start_application-Triple program = record { ends = λ w h. h }

  after_spawn-Triple :
      (program : Place) (r : Result (Unit {0}))
      → Triple (λ w. Lasting w.disk) (after_spawn C S plan program r) Committing Ending
  unfolding after_spawn
  after_spawn-Triple program (ok u) = >>=-Triple (start_application-Triple program) (λ _.
      await_confirmation-Triple C S reads Sighted (tree installation before)
        (items plan.policy artifact) apart plan (10 * plan.policy.confirmation_timeout_secs))
  after_spawn-Triple program (err e) =
      >>=-Triple
        (Triple-weaken
          (within-Triple (
            rollback-Triple S reads Sighted (tree installation before) (items plan.policy artifact)
              C apart plan _))
          (λ w h. h) (λ k w h. h.0) (λ w h. inl h))
        (λ k. record { ends = λ w h. inl h })

  after_apply-Triple :
      (r : Result (Unit {0}))
      → Triple (λ w. Lasting w.disk) (after_apply C S plan r) Committing Ending
  unfolding after_apply
  after_apply-Triple (ok u) =
      >>=-Triple
        (Triple-weaken
          (within-Lasts (Lasts-of_files Lasting lasting)
            (safe_join-Quiet installation (Policy.executable plan.policy)))
          (λ w h. h) (λ p w h. h) (λ w h. inl h))
        (λ program.
          catch-Triple (within-Lasts (Lasts-of_files Lasting lasting) call-Quiet) (spawned program))
    where
      spawned :
          (program : Place) (r : Result (Unit {0}))
          → Triple
              (Ends (λ _ w. Lasting w.disk) (λ w. Lasting w.disk) r)
              (after_spawn C S plan program r)
              Committing
              Ending
      spawned program (ok u) = after_spawn-Triple program (ok u)
      spawned program (err e) = after_spawn-Triple program (err e)
  after_apply-Triple (err e) =
      >>=-Triple
        (Triple-weaken (within-Lasts (Lasts-of_files Lasting lasting) (installation_status-Quiet S))
          (λ w h. h) (λ p w h. h) (λ w h. inl h))
        (λ status.
          >>=-Triple
            (Triple-weaken
              (if-Triple (is_rolling_back status)
                (within-Triple (
                  ignore-Triple Lasting (
                    finish-Lasting S reads Sighted (tree installation before)
                      (items plan.policy artifact) failed _ refl)))
                (record { ends = λ w h. h }))
              (λ w h. h) (λ p w h. h) (λ w h. inl h))
            (λ _. record { ends = λ w h. inl h }))

  -- Nothing is done yet, or the update is committed.
  abbrev pub Finished : Unit {0} → Session → Type 0
  Finished u w = Unmoved w.disk ⊎ Committing u w

  ending_of_Unmoved : (w : Session) → Unmoved w.disk → Ending w
  ending_of_Unmoved w h = inl (
      Recoverable-of_Idle C S reads Sighted (tree installation before) plan release artifact
        verified apart files sighted j armed.untouched armed.fresh w.disk h)

  Unmoved-Lasts : Lasts (λ w. Unmoved w.disk)
  Unmoved-Lasts = Lasts-of_files Unmoved (
      Idle-same (tree installation before) (items plan.policy artifact) apart files
        (S.print_journal j))

  -- A step before anything is done.
  early :
      {A : Type 0} {m : Exec Session A}
      → Triple (λ w. Unmoved w.disk) m (λ _ w. Unmoved w.disk) (λ w. Unmoved w.disk)
      → Triple (λ w. Unmoved w.disk) m (λ _ w. Unmoved w.disk) Ending
  early t = Triple-weaken t (λ w h. h) (λ x w h. h) ending_of_Unmoved

  applied :
      (r : Result (Unit {0}))
      → Triple
          (Ends (λ _ w. Lasting w.disk) (λ w. Lasting w.disk) r)
          (after_apply C S plan r)
          Finished
          Ending
  applied (ok u) = Triple-weaken (after_apply-Triple (ok u)) (λ w h. h) (λ x w h. inr h) (λ w h. h)
  applied (err e) =
      Triple-weaken (after_apply-Triple (err e)) (λ w h. h) (λ x w h. inr h) (λ w h. h)

  install-Triple :
      (left : Bool) → Triple (λ w. Unmoved w.disk) (install C S plan left) Finished Ending
  unfolding install
  install-Triple true = record { ends = λ w h. inl h }
  install-Triple false =
      catch-Triple
        (within-Triple (
          apply-Triple C S reads Sighted (tree installation before) plan release artifact verified
            apart files sighted j armed.untouched armed.fresh owned executable directories layout))
        applied

  go_on-Triple :
      (left : Bool)
      → Triple
          (λ w. Unmoved w.disk × (left ≡ false → exited w.parent ≡ ok true))
          (go_on C S plan left)
          Finished
          Ending
  unfolding go_on
  go_on-Triple true = record { ends = λ w h. inl h.0 }
  go_on-Triple false =
      >>=-Triple
        (Triple-weaken (early (observe-Lasts Unmoved-Lasts)) (λ w h. h.0) (λ u w h. h) (λ w h. h))
        (λ _.
          >>=-Triple (early (within-Lasts Unmoved-Lasts (has_mark-Quiet cancel))) install-Triple)

  pub execute-Triple : Triple (λ w. Unmoved w.disk) (execute C S plan) Finished Ending
  unfolding execute
  execute-Triple = >>=-Triple (early (within-Lasts Unmoved-Lasts transaction-Quiet)) (λ _.
      >>=-Triple (early (within-Lasts Unmoved-Lasts (verify_stage-Quiet C S plan))) (λ _.
        >>=-Triple (early (lift-Triple (λ w. Unmoved w.disk) (open_parent plan.parent_pid))) (λ pid.
          >>=-Triple (early (write_mark-Lasts Unmoved-Lasts ready plan.token)) (λ _.
            >>=-Triple
              (Triple-weaken (await_exit-Triple Unmoved-Lasts (10 * plan.policy.exit_timeout_secs))
                (λ w h. h) (λ b w h. h) ending_of_Unmoved)
              go_on-Triple))))

  ending : (r : Result (Unit {0})) (w : Session) → Ends Finished Ending r w → Ending w
  ending (ok u) w h = elim h [ inl s ↦ ending_of_Unmoved w s | inr c ↦ inr c.0 ]
  ending (err e) w h = h

  -- Without the token the disk that the helper leaves can be recovered.
  pub otherwise-Lasting :
      (session : Session)
      → Unmoved session.disk
      → ¬ IsConfirmed plan (execute C S plan session).1.disk
      → Lasting (execute C S plan session).1.disk
  otherwise-Lasting session begun n =
      let w = (execute C S plan session).1 in
      elim (ending (execute C S plan session).0 w (execute-Triple.ends session begun)) [
        | inl l ↦ l
        | inr c ↦ absurd (n c)
      ]
