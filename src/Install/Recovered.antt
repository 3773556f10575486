-- ===== src/Install/Recovered.antt =====
-- `recover_installation` of src/install.rs after a crash at any point of `apply` or of a recovery.
use freshen.Base.{
  ◌≡◌, refl, sym, subst, ◌∙◌, ◌*◌, Bool, true, false, not, List, Option, some, Member, ltb, length,
  ◌==◌, list_eq, nat_eq,
}
use freshen.Base.Bytes.{Bytes, text}
use freshen.Base.Outcome.{unsafe_path, busy, size_limit, json, ok_or, reject_if}
use freshen.Base.Exec.{◌>>=◌}
use freshen.Base.Triples.{Ends, Triple, Triple-weaken, >>=-Triple}
use freshen.Crates.{Crates}
use freshen.Storage.Tree.{Node, Place}
use freshen.Storage.{Disk, Folder, Area, tree}
use freshen.Storage.Frames.{
  Effect, >>=-Effect, lift-Effect, pure-Effect, call-Effect, Frame-refl, saved,
}
use freshen.Storage.Contents.{Quiet, Quiet-of_Effect, Quiet-Triple, lift-Triple}
use freshen.Install.{Platform, Plan, Journal, InstallStatus, ReadsBack, verify_plan}
use freshen.Install.Folders.{read_file, check_root, load_plan, load_journal, lock}
use freshen.Install.Recovery.{is_final, resume, recover_installation}
use freshen.Install.Restore.{AreApart, AreRestored, IsSafe}
use freshen.Install.Backed.{load_journal-Triple}
use freshen.Install.Crash.{Recoverable, Recoverable-same, IsSafe-same, AreRestored-same}
use freshen.Install.Undo.{transaction-Triple, rollback_inner-Triple}
use freshen.Install.Checking.{transaction-Effect}

pub lock-Effect : {a : Area} {p : Place} → Effect a p lock
unfolding lock
lock-Effect = record {
  frame = λ d.
      (>>=-Effect transaction-Effect
          (λ _. >>=-Effect call-Effect (λ _. lift-Effect {r = reject_if d.is_locked busy}))).frame
        d;
}

pub read_file-Effect : (f : Folder → Option Bytes) {a : Area} {p : Place} → Effect a p (read_file f)
unfolding read_file
read_file-Effect f = >>=-Effect call-Effect (λ _. record { frame = λ d. Frame-refl })

check_root-Effect :
    (S : Platform) (plan : Plan) {a : Area} {p : Place} → Effect a p (check_root S plan)
unfolding check_root
check_root-Effect S plan = record {
  frame = λ d.
      (>>=-Effect (lift-Effect {r = S.canonicalize plan.policy.root}) (λ root.
          >>=-Effect
            (lift-Effect
              {r = reject_if (not (root == plan.policy.root)) (unsafe_path (text "plan.json"))})
            (λ _. >>=-Effect transaction-Effect (λ _.
              lift-Effect
                {r = reject_if (not (root == d.path)) (unsafe_path (text "plan.json"))})))).frame
        d;
}

pub load_plan-Quiet : (C : Crates) (S : Platform) → Quiet (load_plan C S)
unfolding load_plan
load_plan-Quiet C S = Quiet-of_Effect (λ a p. >>=-Effect (read_file-Effect (λ t. t.plan)) (λ bytes.
    >>=-Effect (lift-Effect {r = reject_if (ltb (4 * (1024 * 1024)) (length bytes)) size_limit})
      (λ _. >>=-Effect (lift-Effect {r = ok_or (S.parse_plan bytes) json}) (λ plan.
        >>=-Effect (check_root-Effect S plan) (λ _.
          >>=-Effect (lift-Effect {r = verify_plan C S plan}) (λ v. pure-Effect {x = plan}))))))

module _ (C : Crates) (S : Platform) (reads : ReadsBack S) (Sighted : Type 0) (old : Option Node)
    (names : List Bytes) (apart : AreApart old names) where
  -- The disk of one journal.
  abbrev Full : Journal → Disk → Type 0
  Full j d =
      (saved d ≡ some (S.print_journal j))
      × (Recoverable S Sighted old names d
          × (IsSafe Sighted old names j d
              × (is_final j.status.state ≡ true → Sighted → AreRestored old names d)))

  Full-same :
      (j : Journal) (d e : Disk)
      → ((b : Area) → tree b e ≡ tree b d)
      → saved e ≡ saved d
      → Full j d
      → Full j e
  Full-same j d e t s (h, (r, (i, f))) = (
    s ∙ h,
    (
      Recoverable-same S Sighted old names d e t s r,
      (
        IsSafe-same S Sighted old names j d e t i,
        λ k g. AreRestored-same S Sighted old names d e t (f k g),
      ),
    ),
  )

  abbrev Restored : InstallStatus → Disk → Type 0
  Restored status d = Recoverable S Sighted old names d × (Sighted → AreRestored old names d)

  module _ (j : Journal) (named : (x : Bytes) → Member x j.touched → Member x names) where
    resume-Triple :
        (b : Bool) (plan : Plan)
        → is_final j.status.state ≡ b
        → Triple (Full j) (resume C S b plan j) Restored (Recoverable S Sighted old names)
    unfolding resume
    resume-Triple true plan e = record { ends = λ d (h, (r, (i, f))). (r, f e) }
    resume-Triple false plan e =
        >>=-Triple
          (Triple-weaken (rollback_inner-Triple C S Sighted old names apart j named plan)
            (λ d (h, (r, (i, f))). (r, i)) (λ k d h. h) (λ d h. h))
          (λ k. record { ends = λ d h. h })

    read_and_resume-Triple :
        (plan : Plan)
        → Triple
            (Full j)
            (load_journal S >>= λ k. resume C S (is_final k.status.state) plan k)
            Restored
            (Recoverable S Sighted old names)
    read_and_resume-Triple plan =
        >>=-Triple
          (Triple-weaken (load_journal-Triple S reads (Full j) j (Full-same j) (λ d h. h.0))
            (λ d h. h) (λ k d h. h) (λ d h. h.1.0))
          (λ k. record {
            ends = λ d (h, e).
                subst
                  (λ l.
                    Ends Restored (Recoverable S Sighted old names)
                      (resume C S (is_final l.status.state) plan l d).0
                      (resume C S (is_final l.status.state) plan l d).1)
                  (sym e) ((resume-Triple (is_final j.status.state) plan refl).ends d h);
          })

  same :
      (d e : Disk)
      → ((b : Area) → tree b e ≡ tree b d)
      → saved e ≡ saved d
      → Recoverable S Sighted old names d
      → Recoverable S Sighted old names e
  same = Recoverable-same S Sighted old names

  -- A recovery that fails can be repeated, and one that returns has restored every item.
  pub recover-Triple :
      (root : Bytes)
      → Triple
          (Recoverable S Sighted old names)
          (recover_installation C S root)
          Restored
          (Recoverable S Sighted old names)
  unfolding recover_installation
  recover-Triple root =
      >>=-Triple (lift-Triple (Recoverable S Sighted old names) (S.canonicalize root)) (λ r.
        >>=-Triple
          (Quiet-Triple (Recoverable S Sighted old names) (Quiet-of_Effect (λ a p. lock-Effect))
            same)
          (λ _. >>=-Triple (transaction-Triple (Recoverable S Sighted old names) same) (λ _.
            >>=-Triple (Quiet-Triple (Recoverable S Sighted old names) (load_plan-Quiet C S) same)
              (λ plan. record {
                ends = λ d r.
                    (read_and_resume-Triple r.journal r.named plan).ends d
                      (r.on_disk, (r, (r.safe, r.settled)));
              }))))
