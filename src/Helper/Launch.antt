-- ===== src/Helper/Launch.antt =====
-- `launch` and `Handoff::cancel` of src/helper.rs, in the application that is to be updated.
use freshen.Base.{ℕ, zero, suc, Bool, true, false, not, List, [], ◌∷◌, Option, none, some}
use freshen.Base.Bytes.{text}
use freshen.Base.Outcome.{ok, err, io, other, helper, reject_if, ok_or}
use freshen.Base.Exec.{Exec, lift, pure, ◌>>=◌, ◌>>◌}
use freshen.Storage.{Disk, call, in_time, in_folder}
use freshen.Storage.Tree.{Node}
use freshen.Install.{Plan}
use freshen.Install.Folders.{transaction}
use freshen.Helper.{
  Session, ExitStatus, Deed, ready, cancel, helper_error, within, do_deed, observe, write_mark,
  mark_is, text_of, try_wait,
}

-- `copy_file` of the helper's program into the transaction.
unfoldable pub put_program : Node → Exec Disk (Unit {0})
put_program n d = (ok tt, in_folder (λ t. record t { helper = some n }) d)

unfoldable pub copy_program : Node → Exec Disk (Unit {0})
unfolding put_program
copy_program n = do call; call; put_program n; call

-- `child.kill()` and `child.wait()`, of which the results are dropped.
abbrev pub killed : Option ExitStatus → ExitStatus
killed none = record { is_success = false; shown = text "killed" }
killed (some status) = status

unfoldable pub kill : Exec Session (Unit {0})
kill w = (ok tt, record w { child = some (killed w.child) })

unfoldable pub reset_child : Exec Session (Unit {0})
reset_child w = (ok tt, record w { child = none })

module _ (plan : Plan) where
  unfoldable pub time_out : Exec Session (Unit {0})
  unfolding kill
  time_out = do
    within (write_mark cancel (text "cancel"))
    kill
    lift (err (helper (text "helper readiness timed out")))

  unfoldable pub after_wait : Exec Session (Unit {0}) → Option ExitStatus → Exec Session (Unit {0})
  after_wait again none = again
  after_wait again (some status) = do
    detail ← within (text_of helper_error status.shown)
    lift (err (helper detail))

  unfoldable pub after_ready : Exec Session (Unit {0}) → Bool → Exec Session (Unit {0})
  unfolding after_wait
  after_ready again true = pure tt
  after_ready again false = do observe; status ← try_wait; after_wait again status

  unfoldable pub ready_round : Exec Session (Unit {0}) → Bool → Exec Session (Unit {0})
  unfolding after_ready time_out
  ready_round again false = time_out
  ready_round again true = do
    observe
    seen ← within (mark_is ready plan.token)
    after_ready again seen

  -- A round sleeps 50 ms and the deadline is 30 s away, so that at most 600 rounds sleep.
  unfoldable pub await_ready : ℕ → Exec Session (Unit {0})
  unfolding ready_round
  await_ready zero = time_out
  await_ready (suc rounds) =
      let again = await_ready rounds in λ w. (do early ← within in_time; ready_round again early) w

  -- The helper is started with the path of the plan and the token.
  unfoldable pub launch : Node → Exec Session (Unit {0})
  unfolding await_ready copy_program reset_child
  launch program = do
    within transaction
    within (copy_program program)
    within call
    reset_child
    await_ready 600

-- `child.wait()`: the others act until the child has ended. A child that never ends is waited for
-- without an end, which an error stands for.
unfoldable pub wait_from : List Deed → Exec Session ExitStatus
wait_from [] w = (ok_or w.child (io other), w)
wait_from (x ∷ rest) w = elim w.child [
  | none ↦ wait_from rest (do_deed x (record w { deeds = rest }))
  | some status ↦ (ok status, w)
]

unfoldable pub wait : Exec Session ExitStatus
unfolding wait_from
wait w = wait_from w.deeds w

-- `Handoff::cancel`
unfoldable pub cancel_handoff : Exec Session (Unit {0})
unfolding wait
cancel_handoff = do
  within transaction
  within (write_mark cancel (text "cancel"))
  status ← wait
  lift (reject_if (not status.is_success) (helper (text "helper did not cancel cleanly")))
