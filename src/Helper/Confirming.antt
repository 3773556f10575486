-- ===== src/Helper/Confirming.antt =====
-- The wait for the confirmation in `execute` of src/helper.rs: it ends with a committed journal after
-- the token was read, or with a disk that can be recovered.
use freshen.Base.{
  ◌≡◌, refl, ap, ◌∙◌, ◌⊎◌, inl, inr, ℕ, zero, suc, Bool, true, false, List, [], ◌∷◌, Option, none,
  some, ◌==◌, list_eq, nat_eq,
}
use freshen.Base.Bytes.{Bytes}
use freshen.Base.Outcome.{Result, ok, err, io, not_found, ok_or}
use freshen.Base.Exec.{Exec, pure, ◌>>=◌}
use freshen.Base.Triples.{Ends, Triple, Triple-weaken, Triple-both, >>=-Triple, if-Triple}
use freshen.Crates.{Crates}
use freshen.Storage.Tree.{Node}
use freshen.Storage.{Disk, Area, tree, in_folder}
use freshen.Storage.Frames.{saved, >>=-Effect, pure-Effect}
use freshen.Storage.Contents.{Quiet, Quiet-of_Effect, call-Quiet, in_time-Quiet}
use freshen.Install.{Platform, Plan, ReadsBack, committed, failed}
use freshen.Install.Folders.{file_of, read_file}
use freshen.Install.Recovery.{finish}
use freshen.Install.Restore.{AreApart}
use freshen.Install.Crash.{Recoverable, Recoverable-same}
use freshen.Install.Recovered.{read_file-Effect}
use freshen.Helper.{
  Session, ExitStatus, Mark, confirmed, Deed, idle, writes, parent_answers, child_ends, mark_of,
  set_mark, or_false, do_deed, do_next, observe, mark_is, try_wait,
}
use freshen.Helper.Execute.{
  unconfirmed, after_status, after_confirmed, confirm_round, await_confirmation,
}
use freshen.Helper.Waiting.{Still, Still-Triple, Lasts, within-Lasts, observe-Lasts, within-Triple}
use freshen.Helper.Keeping.{tree-set_mark, saved-set_mark, marked, marked-Still, file_of-marked}
use freshen.Helper.Finishing.{
  IsCommitted, finish-Keeps, marked-write_journal, finish-Lasting, rollback-Triple, commit-Triple,
}

-- A condition on the trees and the journal lasts.
module _ (P : Disk → Type 0)
    (same : (d e : Disk) → ((b : Area) → tree b e ≡ tree b d) → saved e ≡ saved d → P d → P e) where
  written : (m : Mark) (s : Bytes) (d : Disk) → P d → P (in_folder (set_mark m s) d)
  written m s d h =
      same d (in_folder (set_mark m s) d) (λ b. tree-set_mark b m s d) (saved-set_mark m s d) h

  next_kept : (ds : List Deed) (w : Session) → P w.disk → P (do_next ds w).disk
  unfolding do_next do_deed
  next_kept [] w h = h
  next_kept (idle ∷ rest) w h = h
  next_kept (writes m s ∷ rest) w h = written m s w.disk h
  next_kept (parent_answers s ∷ rest) w h = h
  next_kept (child_ends s ∷ rest) w h = h

  pub Lasts-of_files : Lasts (λ w. P w.disk)
  unfolding observe
  Lasts-of_files = record {
    still = λ w d s h. same w.disk d s.trees s.journal h;
    writes = λ w m s h. written m s w.disk h;
    acts = λ w h. next_kept w.deeds w h;
  }

module _ (P : Disk → Type 0) (closed : (d e : Disk) → Still d e → P d → P e) where
  pub mark_is-Triple :
      (m : Mark) (token : Bytes)
      → Triple P (mark_is m token) (λ seen d. P d × (seen ≡ true → marked m d ≡ some token)) P
  unfolding mark_is read_file
  mark_is-Triple m token = record {
    ends = λ d h.
        let inner = read_file (mark_of m) >>= λ s. pure (s == token) in
        carry (inner d).0 (inner d).1 (t.ends d h);
  }
    where
      read :
          (o : Option Bytes) (d : Disk)
          → P d
          → marked m d ≡ o
          → Ends (λ s e. P e × (marked m e ≡ some s)) P (ok_or o (io not_found)) d
      read none d h e = h
      read (some s) d h e = (h, e)

      t :
          Triple P
            (read_file (mark_of m) >>= λ s. pure (s == token))
            (λ b d. P d × (b ≡ true → marked m d ≡ some token))
            P
      t =
          >>=-Triple {Mid = λ s d. P d × (marked m d ≡ some s)}
            (>>=-Triple (Still-Triple P closed call-Quiet)
              (λ _. record { ends = λ d h. read (file_of (mark_of m) d) d h (file_of-marked m d) }))
            (λ s. record {
              ends = λ d (h, e). (h, λ b. e ∙ ap some ((list_eq.beq_iff s token).0 b));
            })

      carry :
          (r : Result Bool) (d : Disk)
          → Ends (λ b e. P e × (b ≡ true → marked m e ≡ some token)) P r d
          → P d × (or_false r ≡ true → marked m d ≡ some token)
      carry (ok b) d h = h
      carry (err e) d h = (h, λ f. cc)

pub mark_is-Quiet : (m : Mark) (token : Bytes) → Quiet (mark_is m token)
unfolding mark_is
mark_is-Quiet m token =
    let q : Quiet (read_file (mark_of m) >>= λ s. pure (s == token)) =
      Quiet-of_Effect (λ a p. >>=-Effect (read_file-Effect (mark_of m)) (λ s. pure-Effect)) in
    record {
      trees = λ b d. q.trees b d;
      journal = λ d. q.journal d;
      talk = λ d. q.talk d;
      calm = λ d. q.calm d;
    }

-- The new application has left the token.
abbrev pub IsConfirmed : Plan → Disk → Type 0
IsConfirmed plan d = marked confirmed d ≡ some plan.token

module _ (C : Crates) (S : Platform) (reads : ReadsBack S) (Sighted : Type 0) (old : Option Node)
    (names : List Bytes) (apart : AreApart old names) (plan : Plan) where
  abbrev Lasting : Disk → Type 0
  Lasting = Recoverable S Sighted old names

  abbrev pub Done : Unit {0} → Session → Type 0
  Done u w = IsConfirmed plan w.disk × IsCommitted S w.disk

  abbrev pub Settled : Session → Type 0
  Settled w = Lasting w.disk ⊎ IsConfirmed plan w.disk

  abbrev Waits : Session → Type 0
  Waits w = Lasting w.disk

  pub Waits-Lasts : Lasts Waits
  Waits-Lasts = Lasts-of_files Lasting (Recoverable-same S Sighted old names)

  unconfirmed-Triple : Triple Waits (unconfirmed C S plan) Done Settled
  unfolding unconfirmed
  unconfirmed-Triple =
      >>=-Triple
        (Triple-weaken (within-Triple (finish-Lasting S reads Sighted old names failed _ refl))
          (λ w h. h) (λ u w h. h) (λ w h. inl h))
        (λ _. record { ends = λ w h. inl h })

  finish-IsConfirmed :
      (detail : Bytes)
      → Triple
          (λ d. Lasting d × IsConfirmed plan d)
          (finish S committed detail)
          (λ _ d. IsConfirmed plan d × IsCommitted S d)
          (IsConfirmed plan)
  finish-IsConfirmed detail =
      Triple-weaken
        (Triple-both
          (finish-Keeps S (IsConfirmed plan) (λ d e s h. marked-Still confirmed d e s ∙ h)
            (λ j d h. marked-write_journal S confirmed j d ∙ h) committed detail)
          (commit-Triple S detail))
        (λ d (r, c). (c, (S.print_journal r.journal, r.on_disk))) (λ u d h. h) (λ d h. h.0)

  module _ (again : Exec Session (Unit {0})) (t : Triple Waits again Done Settled) where
    after_status-Triple :
        (status : Option ExitStatus)
        → Triple Waits (after_status C S plan again status) Done Settled
    unfolding after_status
    after_status-Triple none =
        >>=-Triple
          (Triple-weaken (within-Lasts Waits-Lasts in_time-Quiet) (λ w h. h) (λ b w h. h)
            (λ w h. inl h))
          (λ early. if-Triple early t unconfirmed-Triple)
    after_status-Triple (some status) =
        >>=-Triple
          (Triple-weaken (within-Triple (rollback-Triple S reads Sighted old names C apart plan _))
            (λ w h. h) (λ j w h. h.0) (λ w h. inl h))
          (λ j. record { ends = λ w h. inl h })

    try_wait-Triple : Triple Waits try_wait (λ _. Waits) Settled
    unfolding try_wait
    try_wait-Triple =
        >>=-Triple
          (Triple-weaken (within-Lasts Waits-Lasts call-Quiet) (λ w h. h) (λ b w h. h)
            (λ w h. inl h))
          (λ _. record { ends = λ w h. h })

    after_confirmed-Triple :
        (seen : Bool)
        → Triple
            (λ w. Waits w × (seen ≡ true → IsConfirmed plan w.disk))
            (after_confirmed C S plan again seen)
            Done
            Settled
    unfolding after_confirmed
    after_confirmed-Triple true =
        Triple-weaken (within-Triple (finish-IsConfirmed _)) (λ w h. (h.0, h.1 refl)) (λ u w h. h)
          (λ w h. inr h)
    after_confirmed-Triple false =
        >>=-Triple
          (Triple-weaken (observe-Lasts Waits-Lasts) (λ w h. h.0) (λ u w h. h) (λ w h. inl h))
          (λ _. >>=-Triple try_wait-Triple after_status-Triple)

    confirm_round-Triple : Triple Waits (confirm_round C S plan again) Done Settled
    unfolding confirm_round
    confirm_round-Triple =
        >>=-Triple
          (Triple-weaken (observe-Lasts Waits-Lasts) (λ w h. h) (λ u w h. h) (λ w h. inl h))
          (λ _.
            >>=-Triple
              (Triple-weaken
                (within-Triple (
                  mark_is-Triple Lasting
                    (λ d e s h. Recoverable-same S Sighted old names d e s.trees s.journal h)
                    confirmed plan.token))
                (λ w h. h) (λ b w h. h) (λ w h. inl h))
              after_confirmed-Triple)

  -- The wait ends with a commit after a confirmation, or with a disk that can be recovered.
  pub await_confirmation-Triple :
      (rounds : ℕ) → Triple Waits (await_confirmation C S plan rounds) Done Settled
  unfolding await_confirmation
  await_confirmation-Triple zero = confirm_round-Triple (unconfirmed C S plan) unconfirmed-Triple
  await_confirmation-Triple (suc rounds) =
      confirm_round-Triple (await_confirmation C S plan rounds) (await_confirmation-Triple rounds)
