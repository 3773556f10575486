-- ===== src/Install/Crashes.antt =====
-- A crash at any point of src/install.rs: `apply` and any number of recoveries, of which each may fail
-- at any call, and a recovery that returns.
use freshen.Base.{◌≡◌, refl, ap, ◌∙◌, Bool, true, List, [], Option, some}
use freshen.Base.Bytes.{Bytes}
use freshen.Base.Outcome.{Result, ok, err, IoKind}
use freshen.Base.Triples.{Ends, Ends-ok}
use freshen.Crates.{Crates, Manifest, Package}
use freshen.Policy.{portable, items}
use freshen.Storage.Tree.{Place, look}
use freshen.Storage.{Disk, Area, installation, staging, backups, tree}
use freshen.Storage.Frames.{saved}
use freshen.Install.{at_item, Platform, Plan, Journal, InstallStatus, ReadsBack, verify_plan}
use freshen.Install.Apply.{apply}
use freshen.Install.Recovery.{recover_installation}
use freshen.Install.Restore.{place, HoldsFiles, AreApart, AreRestored}
use freshen.Install.Crash.{Recoverable, Recoverable-same}
use freshen.Install.Applied.{apply-Triple}
use freshen.Install.Recovered.{recover-Triple}

-- What the next calls of the system and the next tests of a deadline find, as a new process meets it.
unfoldable pub reschedule : List (Option IoKind) → List Bool → Disk → Disk
reschedule fs bs d = record d { faults = fs; clock = bs }

pub tree-reschedule :
    (b : Area) (fs : List (Option IoKind)) (bs : List Bool) (d : Disk)
    → tree b (reschedule fs bs d) ≡ tree b d
unfolding reschedule tree
tree-reschedule installation fs bs d = refl
tree-reschedule staging fs bs d = refl
tree-reschedule backups fs bs d = refl

pub saved-reschedule :
    (fs : List (Option IoKind)) (bs : List Bool) (d : Disk) → saved (reschedule fs bs d) ≡ saved d
unfolding reschedule saved
saved-reschedule fs bs d = refl

module _ (C : Crates) (S : Platform) (plan : Plan) (root : Bytes) where
  -- The disks that a call of `apply` on a disk, and recoveries after it, may leave. Each call runs
  -- into faults of its own, and returns or fails.
  pub data Leaves (before : Disk) : Disk → Type 0 where
    applied :
        (fs : List (Option IoKind)) (bs : List Bool)
        → Leaves before (apply C S plan (reschedule fs bs before)).1
    recovered :
        {d : Disk} (fs : List (Option IoKind)) (bs : List Bool)
        → Leaves before d
        → Leaves before (recover_installation C S root (reschedule fs bs d)).1

-- The journal of a transaction that is armed, of which nothing is done yet.
pub record IsArmed (S : Platform) (j : Journal) (d : Disk) : Type 0 where
  pub on_disk : saved d ≡ some (S.print_journal j)
  pub untouched : j.touched ≡ []
  pub fresh : j.existing ≡ []

module _ (C : Crates) (S : Platform) (reads : ReadsBack S) (plan : Plan) (release : Manifest C)
    (artifact : Package C) (verified : verify_plan C S plan ≡ ok (release, artifact))
    (owned : List Bytes) (executable : Bytes) (directories : List Bytes)
    (layout : plan.policy.layout ≡ portable owned executable directories) (before : Disk)
    (apart : AreApart (tree installation before) (items plan.policy artifact))
    (files : HoldsFiles (tree installation before) (items plan.policy artifact)) (j : Journal)
    (sees : (p : Place) (d : Disk) → S.sees (at_item p) d ≡ true) (armed : IsArmed S j before)
    (root : Bytes) where
  either :
      {A : Type 0} (P Q : Disk → Type 0) (r : Result A) (d : Disk)
      → ((e : Disk) → Q e → P e)
      → Ends (λ _. Q) P r d
      → P d
  either P Q (ok x) d f h = f d h
  either P Q (err e) d f h = h

  -- Under the conditions of the theorem on crashes, every disk that `apply` and any number of
  -- recoveries may leave, wherever their other calls fail, has a journal that can be read back and
  -- that tells how to put back every item it has touched, the backup of each such item that was
  -- there is complete, every other item is as it was, and a journal that is final goes with a disk
  -- on which everything is restored.
  pub Leaves-Recoverable :
      {d : Disk}
      → Leaves C S plan root before d
      → Recoverable S (Unit {0}) (tree installation before) (items plan.policy artifact) d
  Leaves-Recoverable (applied fs bs) =
      let t =
        apply-Triple C S reads (Unit {0}) (tree installation before) plan release artifact verified
          apart files (λ u. sees) j armed.untouched armed.fresh owned executable directories
          layout in
      let d = reschedule fs bs before in
      either (Recoverable S (Unit {0}) (tree installation before) (items plan.policy artifact))
        (Recoverable S (Unit {0}) (tree installation before) (items plan.policy artifact))
        (apply C S plan d).0 (apply C S plan d).1 (λ e h. h)
        (t.ends d (
          saved-reschedule fs bs before ∙ armed.on_disk,
          λ x m. ap (look (place x)) (tree-reschedule installation fs bs before),
        ))
  Leaves-Recoverable (recovered {d} fs bs l) =
      let t =
        recover-Triple C S reads (Unit {0}) (tree installation before) (items plan.policy artifact)
          apart root in
      let e = reschedule fs bs d in
      either (Recoverable S (Unit {0}) (tree installation before) (items plan.policy artifact))
        (λ g.
          Recoverable S (Unit {0}) (tree installation before) (items plan.policy artifact) g
          × (Unit {0} → AreRestored (tree installation before) (items plan.policy artifact) g))
        (recover_installation C S root e).0 (recover_installation C S root e).1 (λ g h. h.0)
        (t.ends e (
          Recoverable-same S (Unit {0}) (tree installation before) (items plan.policy artifact) d e
            (λ b. tree-reschedule b fs bs d) (saved-reschedule fs bs d) (Leaves-Recoverable l)))

  -- Let a verified portable plan be armed with a fresh journal, let no item of it stand above
  -- another one, let each item be a regular file or missing on the disk before, and let no test of
  -- the existence of an item fail. After a call of `apply` that may fail or be cut off at any
  -- other call of the system, and any number of recoveries that may fail likewise, a call of
  -- `recover_installation` that returns leaves at every item exactly what was there before
  -- `apply`.
  pub recover-restores :
      {d : Disk} {status : InstallStatus}
      → Leaves C S plan root before d
      → (recover_installation C S root d).0 ≡ ok status
      → AreRestored
          (tree installation before)
          (items plan.policy artifact)
          (recover_installation C S root d).1
  recover-restores {d} l h =
      let t =
        recover-Triple C S reads (Unit {0}) (tree installation before) (items plan.policy artifact)
          apart root in
      (Ends-ok
          (λ s g.
            Recoverable S (Unit {0}) (tree installation before) (items plan.policy artifact) g
            × (Unit {0} → AreRestored (tree installation before) (items plan.policy artifact) g))
          (Recoverable S (Unit {0}) (tree installation before) (items plan.policy artifact))
          (recover_installation C S root d).0 (recover_installation C S root d).1
          (t.ends d (Leaves-Recoverable l)) h).1
        tt
