-- ===== src/Helper.antt =====
-- src/helper.rs: the transaction's files by which the processes talk, the processes beside the one
-- that is modelled, and how it waits for them.
pub mod Execute
pub mod Waiting
pub mod Keeping
pub mod Running
pub mod Untouched
pub mod Declined
pub mod Finishing
pub mod Confirming
pub mod Ending
pub mod Settled
pub mod Listed
pub mod Program
pub mod Progress
pub mod Launched
pub mod Confirm
pub mod Inspected
pub mod Acknowledged
pub mod Evidence
pub mod Launch
use freshen.Base.{
  ℕ, zero, suc, Bool, true, false, List, [], ◌∷◌, Option, none, some, ◌==◌, list_eq, nat_eq, ltb,
  if◌then◌else◌,
}
use freshen.Base.Bytes.{Bytes, text}
use freshen.Base.Outcome.{Result, ok, err, IoKind, io, invalid}
use freshen.Base.Exec.{Exec, lift, pure, ◌>>=◌, ◌>>◌}
use freshen.Storage.{Disk, Folder, call, in_folder}
use freshen.Storage.Tree.{Place}
use freshen.Install.Folders.{read_file}

-- The files of the transaction that one process writes and another one reads.
pub data Mark : Type 0 where
  ready cancel confirmed helper_error : Mark

unfoldable pub mark_of : Mark → Folder → Option Bytes
mark_of ready t = t.ready
mark_of cancel t = t.cancel
mark_of confirmed t = t.confirmed
mark_of helper_error t = t.helper_error

unfoldable pub set_mark : Mark → Bytes → Folder → Folder
set_mark ready s t = record t { ready = some s }
set_mark cancel s t = record t { cancel = some s }
set_mark confirmed s t = record t { confirmed = some s }
set_mark helper_error s t = record t { helper_error = some s }

-- What `kill(pid, 0)` answers: success, `ESRCH`, `EPERM`, or another error.
pub data Signal : Type 0 where
  delivered no_such_process not_permitted : Signal
  fault : IoKind → Signal

-- `ExitStatus`: whether it is a success, and its text.
pub record ExitStatus : Type 0 where
  pub is_success : Bool
  pub shown : Bytes

-- What another process does between two looks at it: nothing, it writes a file of the transaction,
-- the parent answers otherwise from now on, or the child ends with a status.
pub data Deed : Type 0 where
  idle : Deed
  writes : Mark → Bytes → Deed
  parent_answers : Signal → Deed
  child_ends : ExitStatus → Deed

-- A process that was started: the program, its arguments, and the two variables of its environment.
pub record Started : Type 0 where
  pub program : Place
  pub arguments : List Bytes
  pub token : Bytes
  pub root : Bytes

-- The disk and the other processes, as one process sees them. `deeds` is what the others will do.
pub record Session : Type 0 where
  pub disk : Disk
  pub parent : Signal
  pub child : Option ExitStatus
  pub started : List Started
  pub deeds : List Deed

module _ {A : Type 0} where
  -- A call on the disk.
  unfoldable pub within : Exec Disk A → Exec Session A
  within m w = let (r, d) = m w.disk in (r, record w { disk = d })

  -- `let _ = …`
  unfoldable pub ignore : Exec Disk A → Exec Disk (Unit {0})
  ignore m d = (ok tt, (m d).1)

-- `match result`
unfoldable pub catch :
    {A B : Type 0} → Exec Session A → (Result A → Exec Session B) → Exec Session B
catch m next w = next (m w).0 (m w).1

unfoldable pub do_deed : Deed → Session → Session
unfolding in_folder set_mark
do_deed idle w = w
do_deed (writes m s) w = record w { disk = in_folder (set_mark m s) w.disk }
do_deed (parent_answers s) w = record w { parent = s }
do_deed (child_ends status) w = record w { child = some status }

unfoldable pub do_next : List Deed → Session → Session
do_next [] w = w
do_next (x ∷ rest) w = do_deed x (record w { deeds = rest })

-- The other processes act.
unfoldable pub observe : Exec Session (Unit {0})
unfolding do_next
observe w = (ok tt, do_next w.deeds w)

unfoldable pub put_mark : Mark → Bytes → Exec Disk (Unit {0})
unfolding in_folder set_mark
put_mark m s d = (ok tt, in_folder (set_mark m s) d)

-- `atomic_write` of a file of the transaction.
unfoldable pub write_mark : Mark → Bytes → Exec Disk (Unit {0})
unfolding put_mark
write_mark m s = do call; put_mark m s; call

abbrev pub or_false : Result Bool → Bool
or_false (ok b) = b
or_false (err e) = false

abbrev pub is_written : Option Bytes → Bool
is_written none = false
is_written (some s) = true

-- `join(…).exists()`, which is false when the call fails.
unfoldable pub mark_found : Mark → Result (Unit {0}) → Disk → Bool
unfolding mark_of
mark_found m (ok u) d = elim d.transaction [ none ↦ false | some t ↦ is_written (mark_of m t) ]
mark_found m (err k) d = false

unfoldable pub has_mark : Mark → Exec Disk Bool
unfolding mark_found
has_mark m d = let (r, e) = call d in (ok (mark_found m r e), e)

-- `read_to_string(…).is_ok_and(|text| text == token)`
unfoldable pub mark_is : Mark → Bytes → Exec Disk Bool
unfolding read_file mark_of
mark_is m token d =
    let (r, e) = (read_file (mark_of m) >>= λ s. pure (s == token)) d in (ok (or_false r), e)

-- `read_to_string(…)`, or another text when the call fails.
unfoldable pub text_of : Mark → Bytes → Exec Disk Bytes
unfolding read_file mark_of
text_of m fallback d =
    let (r, e) = read_file (mark_of m) d in (ok (elim r [ ok s ↦ s | err k ↦ fallback ]), e)

-- `Parent::open` on Unix, of a 32-bit number.
unfoldable pub open_parent : ℕ → Result ℕ
open_parent pid =
    if ltb 2147483647 pid
    then err (invalid (text "parent PID out of range"))
    else (if pid == 0 then err (invalid (text "parent PID must be positive")) else ok pid)

-- `Parent::exited` on Unix.
unfoldable pub exited : Signal → Result Bool
exited delivered = ok false
exited no_such_process = ok true
exited not_permitted = ok false
exited (fault kind) = err (io kind)

unfoldable pub parent_exited : Exec Session Bool
unfolding exited
parent_exited w = (exited w.parent, w)

-- `Child::try_wait`
unfoldable pub try_wait : Exec Session (Option ExitStatus)
try_wait = do within call; λ w. (ok w.child, w)
