-- ===== src/Helper/Launched.antt =====
-- `launch` of src/helper.rs returns only when the helper is ready, and touches no file of the
-- application.
use freshen.Base.{
  ◌≡◌, refl, ◌∙◌, inl, inr, ℕ, zero, suc, Bool, true, false, Option, none, some, Option-cases,
}
use freshen.Base.Bytes.{text}
use freshen.Base.Outcome.{ok}
use freshen.Base.Exec.{Exec}
use freshen.Base.Triples.{Triple, Triple-weaken, >>=-Triple, Ends-ok}
use freshen.Storage.{Disk, Area, installation, staging, backups, tree, in_folder}
use freshen.Storage.Frames.{saved, in_folder-root, in_folder-saved}
use freshen.Storage.Contents.{call-Quiet, in_time-Quiet}
use freshen.Storage.Tree.{Node}
use freshen.Install.{Plan}
use freshen.Helper.{Session, ExitStatus, ready, cancel, helper_error, try_wait}
use freshen.Helper.Launch.{
  put_program, copy_program, kill, time_out, after_wait, after_ready, ready_round, await_ready,
  reset_child, launch,
}
use freshen.Helper.Waiting.{
  Still, Still-Triple, Lasts, within-Lasts, observe-Lasts, write_mark-Lasts, within-Triple,
  text_of-Quiet,
}
use freshen.Helper.Keeping.{marked}
use freshen.Helper.Running.{transaction-Quiet}
use freshen.Helper.Confirming.{Lasts-of_files, mark_is-Triple}

tree-put_program : (b : Area) (n : Node) (d : Disk) → tree b (put_program n d).1 ≡ tree b d
unfolding tree put_program in_folder
tree-put_program installation n d = in_folder-root (λ t. record t { helper = some n }) d
tree-put_program staging n d = elim (Option-cases d.transaction) [
  | inl e ↦ rw e
  | inr (t, e) ↦ rw e
]
tree-put_program backups n d = elim (Option-cases d.transaction) [
  | inl e ↦ rw e
  | inr (t, e) ↦ rw e
]

module _ (plan : Plan) (before : Disk) where
  abbrev Same : Disk → Type 0
  Same d = ((b : Area) → tree b d ≡ tree b before) × (saved d ≡ saved before)

  abbrev Calm : Session → Type 0
  Calm w = Same w.disk

  Same-of_files :
      (d e : Disk) → ((b : Area) → tree b e ≡ tree b d) → saved e ≡ saved d → Same d → Same e
  Same-of_files d e t j h = (λ b. t b ∙ h.0 b, j ∙ h.1)

  Same-Still : (d e : Disk) → Still d e → Same d → Same e
  Same-Still d e s = Same-of_files d e s.trees s.journal

  lasts : Lasts Calm
  lasts = Lasts-of_files Same Same-of_files

  -- The helper has left the token.
  abbrev pub IsReady : Unit {0} → Session → Type 0
  IsReady u w = Same w.disk × (marked ready w.disk ≡ some plan.token)

  time_out-Triple : Triple Calm (time_out plan) IsReady Calm
  unfolding time_out kill
  time_out-Triple =
      >>=-Triple (write_mark-Lasts lasts cancel (text "cancel")) (λ _. record { ends = λ w h. h })

  module _ (again : Exec Session (Unit {0})) (t : Triple Calm again IsReady Calm) where
    after_wait-Triple :
        (status : Option ExitStatus) → Triple Calm (after_wait plan again status) IsReady Calm
    unfolding after_wait
    after_wait-Triple none = t
    after_wait-Triple (some status) =
        >>=-Triple (within-Lasts lasts (text_of-Quiet helper_error status.shown))
          (λ detail. record { ends = λ w h. h })

    after_ready-Triple :
        (seen : Bool)
        → Triple
            (λ w. Calm w × (seen ≡ true → marked ready w.disk ≡ some plan.token))
            (after_ready plan again seen)
            IsReady
            Calm
    unfolding after_ready try_wait
    after_ready-Triple true = record { ends = λ w h. (h.0, h.1 refl) }
    after_ready-Triple false =
        >>=-Triple (Triple-weaken (observe-Lasts lasts) (λ w h. h.0) (λ u w h. h) (λ w h. h))
          (λ _. >>=-Triple wait_once after_wait-Triple)
      where
        wait_once : Triple Calm try_wait (λ _. Calm) Calm
        wait_once = >>=-Triple (within-Lasts lasts call-Quiet) (λ _. record { ends = λ w h. h })

    ready_round-Triple : (early : Bool) → Triple Calm (ready_round plan again early) IsReady Calm
    unfolding ready_round
    ready_round-Triple false = time_out-Triple
    ready_round-Triple true = >>=-Triple (observe-Lasts lasts) (λ _.
        >>=-Triple (within-Triple (mark_is-Triple Same Same-Still ready plan.token))
          after_ready-Triple)

  await_ready-Triple : (rounds : ℕ) → Triple Calm (await_ready plan rounds) IsReady Calm
  unfolding await_ready
  await_ready-Triple zero = time_out-Triple
  await_ready-Triple (suc rounds) = record {
    ends = λ w h.
        (>>=-Triple (within-Lasts lasts in_time-Quiet)
            (ready_round-Triple (await_ready plan rounds) (await_ready-Triple rounds))).ends
          w h;
  }

  put_program-Triple : (n : Node) → Triple Same (put_program n) (λ _. Same) Same
  unfolding put_program
  put_program-Triple n = record {
    ends = λ d h.
        Same-of_files d (put_program n d).1 (λ b. tree-put_program b n d)
          (in_folder-saved (λ t. record t { helper = some n }) d (λ t. refl)) h;
  }

  copy_program-Triple : (n : Node) → Triple Same (copy_program n) (λ _. Same) Same
  unfolding copy_program
  copy_program-Triple n = >>=-Triple (Still-Triple Same Same-Still call-Quiet) (λ _.
      >>=-Triple (Still-Triple Same Same-Still call-Quiet)
        (λ _. >>=-Triple (put_program-Triple n) (λ _. Still-Triple Same Same-Still call-Quiet)))

  reset_child-Triple : Triple Calm reset_child (λ _. Calm) Calm
  unfolding reset_child
  reset_child-Triple = record { ends = λ w h. h }

  launch-Triple : (n : Node) → Triple Calm (launch plan n) IsReady Calm
  unfolding launch
  launch-Triple n = >>=-Triple (within-Lasts lasts transaction-Quiet) (λ _.
      >>=-Triple (within-Triple (copy_program-Triple n)) (λ _.
        >>=-Triple (within-Lasts lasts call-Quiet)
          (λ _. >>=-Triple reset_child-Triple (λ _. await_ready-Triple 600))))

-- When `launch` returns, the helper has left the token of the plan as a sign that it is ready, and
-- no file of the application, no tree of the transaction and not the journal has changed.
pub launch-IsReady :
    (plan : Plan) (program : Node) (before : Session) {u : Unit {0}}
    → (launch plan program before).0 ≡ ok u
    → IsReady plan before.disk u (launch plan program before).1
launch-IsReady plan program before h =
    Ends-ok (IsReady plan before.disk) (Calm plan before.disk) (launch plan program before).0
      (launch plan program before).1
      ((launch-Triple plan before.disk program).ends before (λ b. refl, refl)) h
