-- ===== src/Helper/Settled.antt =====
-- `execute` of src/helper.rs from a transaction that is armed: what is on the disk when it ends.
use freshen.Base.{◌≡◌, refl, ◌⊎◌, Bool, true, List, Option, sym, subst}
use freshen.Base.Bytes.{Bytes}
use freshen.Base.Outcome.{ok, IoKind}
use freshen.Base.Triples.{Ends-ok}
use freshen.Crates.{Crates, Manifest, Package}
use freshen.Policy.{portable, items}
use freshen.Storage.Tree.{Place}
use freshen.Storage.{Disk, installation, tree}
use freshen.Install.{at_item, Platform, Plan, Journal, InstallStatus, ReadsBack, verify_plan}
use freshen.Install.Recovery.{recover_installation}
use freshen.Install.Restore.{HoldsFiles, AreApart, AreRestored}
use freshen.Install.Crash.{Recoverable, Recoverable-same}
use freshen.Install.Crashes.{IsArmed, reschedule, tree-reschedule, saved-reschedule}
use freshen.Install.Recovered.{recover-Triple}
use freshen.Helper.{Session}
use freshen.Helper.Execute.{execute}
use freshen.Helper.Finishing.{IsCommitted}
use freshen.Helper.Confirming.{IsConfirmed}
use freshen.Helper.Ending.{Start, Ending, Finished, execute-Triple, otherwise-Lasting}

module _ (C : Crates) (S : Platform) (reads : ReadsBack S) (plan : Plan) (release : Manifest C)
    (artifact : Package C) (verified : verify_plan C S plan ≡ ok (release, artifact))
    (owned : List Bytes) (executable : Bytes) (directories : List Bytes)
    (layout : plan.policy.layout ≡ portable owned executable directories) (before : Disk)
    (apart : AreApart (tree installation before) (items plan.policy artifact))
    (files : HoldsFiles (tree installation before) (items plan.policy artifact)) (j : Journal)
    (armed : IsArmed S j before) (session : Session) (same : session.disk ≡ before) where
  begun :
      Start C S reads plan release artifact verified owned executable directories layout before
        apart files j armed session.disk
  begun =
      subst
        (Start C S reads plan release artifact verified owned executable directories layout before
          apart files j armed)
        (sym same) (armed.on_disk, λ x m. refl)

  -- Let a verified portable plan be armed with a fresh journal, let no item of it stand above
  -- another one, and let each item be a regular file or missing. Whatever calls of the system
  -- fail, when `execute` returns, either nothing was installed, the journal is the one it started
  -- with and every item is as before, or the new application has left the token of the plan and
  -- the journal on the disk is committed.
  pub execute-commits :
      {u : Unit {0}}
      → (execute C S plan session).0 ≡ ok u
      → Start C S reads plan release artifact verified owned executable directories layout before
          apart files j armed
          (execute C S plan session).1.disk
        ⊎ (IsConfirmed plan (execute C S plan session).1.disk
            × IsCommitted S (execute C S plan session).1.disk)
  execute-commits h =
      Ends-ok
        (Finished C S reads plan release artifact verified owned executable directories layout
          before apart files j armed ⊥ (λ v. absurd v))
        (Ending C S reads plan release artifact verified owned executable directories layout before
          apart files j armed ⊥ (λ v. absurd v))
        (execute C S plan session).0 (execute C S plan session).1
        ((execute-Triple C S reads plan release artifact verified owned executable directories
            layout before apart files j armed ⊥ (λ v. absurd v)).ends
          session begun)
        h

  -- Let a verified portable plan be armed as in the theorem on crashes. Let no test of the
  -- existence of an item fail. However the helper's `execute` ends, whatever other calls of the
  -- system fail and whatever the other processes do, unless the new application has left the token
  -- of the plan, a later `recover_installation` that returns leaves at every item exactly what was
  -- there before.
  pub execute-restores :
      ((p : Place) (d : Disk) → S.sees (at_item p) d ≡ true)
      → (fs : List (Option IoKind)) (bs : List Bool) (root : Bytes) {status : InstallStatus}
      → ¬ IsConfirmed plan (execute C S plan session).1.disk
      → (recover_installation C S root (reschedule fs bs (execute C S plan session).1.disk)).0
        ≡ ok status
      → AreRestored
          (tree installation before)
          (items plan.policy artifact)
          (recover_installation C S root (reschedule fs bs (execute C S plan session).1.disk)).1
  execute-restores sees fs bs root n h =
      let d = (execute C S plan session).1.disk in
      let names = items plan.policy artifact in
      let lasts =
        otherwise-Lasting C S reads plan release artifact verified owned executable directories
          layout before apart files j armed (Unit {0}) (λ u. sees) session begun n in
      let later =
        Recoverable-same S (Unit {0}) (tree installation before) names d (reschedule fs bs d)
          (λ b. tree-reschedule b fs bs d) (saved-reschedule fs bs d) lasts in
      (Ends-ok
          (λ s e.
            Recoverable S (Unit {0}) (tree installation before) names e
            × (Unit {0} → AreRestored (tree installation before) names e))
          (Recoverable S (Unit {0}) (tree installation before) names)
          (recover_installation C S root (reschedule fs bs d)).0
          (recover_installation C S root (reschedule fs bs d)).1
          ((recover-Triple C S reads (Unit {0}) (tree installation before) names apart root).ends
            (reschedule fs bs d) later)
          h).1
        tt
