-- ===== src/Helper/Keeping.antt =====
-- What a deed of another process, and a file that the processes talk by, leave as they were.
use freshen.Base.{
  ◌≡◌, refl, sym, ap, ◌∙◌, inl, inr, Bool, true, false, List, [], Option, none, some, Option-cases,
  arith,
}
use freshen.Base.Bytes.{Bytes}
use freshen.Base.Outcome.{Result, ok}
use freshen.Storage.{
  Disk, Folder, Area, installation, staging, backups, tree, in_folder, call, call_with,
}
use freshen.Storage.Frames.{saved, marks, in_folder-root, in_folder-saved, in_folder-faults}
use freshen.Install.Folders.{file_of}
use freshen.Helper.{
  Mark, ready, cancel, confirmed, helper_error, mark_of, set_mark, is_written, mark_found, has_mark,
}
use freshen.Helper.Waiting.{Still}

set_mark-others :
    (m : Mark) (s : Bytes) (t : Folder)
    → ((set_mark m s t).stage ≡ t.stage)
      × ((set_mark m s t).backup ≡ t.backup)
      × ((set_mark m s t).journal ≡ t.journal)
unfolding set_mark
set_mark-others ready s t = (refl, refl, refl)
set_mark-others cancel s t = (refl, refl, refl)
set_mark-others confirmed s t = (refl, refl, refl)
set_mark-others helper_error s t = (refl, refl, refl)

pub tree-set_mark :
    (b : Area) (m : Mark) (s : Bytes) (d : Disk) → tree b (in_folder (set_mark m s) d) ≡ tree b d
unfolding tree in_folder
tree-set_mark installation m s d = in_folder-root (set_mark m s) d
tree-set_mark staging m s d = elim (Option-cases d.transaction) [
  | inl e ↦ rw e
  | inr (t, e) ↦ let (a, b, c) = set_mark-others m s t in rw (e, a)
]
tree-set_mark backups m s d = elim (Option-cases d.transaction) [
  | inl e ↦ rw e
  | inr (t, e) ↦ let (a, b, c) = set_mark-others m s t in rw (e, b)
]

pub saved-set_mark :
    (m : Mark) (s : Bytes) (d : Disk) → saved (in_folder (set_mark m s) d) ≡ saved d
saved-set_mark m s d = in_folder-saved (set_mark m s) d (λ t. (set_mark-others m s t).2)

pub faults-set_mark :
    (m : Mark) (s : Bytes) (d : Disk) → (in_folder (set_mark m s) d).faults ≡ d.faults
faults-set_mark m s d = in_folder-faults (set_mark m s) d

-- The text of a file that the processes talk by.
unfoldable pub marked : Mark → Disk → Option Bytes
marked m d = elim (marks d) [ none ↦ none | some t ↦ mark_of m t ]

pub marked-marks : (m : Mark) (d e : Disk) → marks e ≡ marks d → marked m e ≡ marked m d
unfolding marked
marked-marks m d e h = rw (marked, h)

pub marked-Still : (m : Mark) (d e : Disk) → Still d e → marked m e ≡ marked m d
marked-Still m d e s = marked-marks m d e s.talk

-- A transaction's directory is there.
unfoldable pub is_there : Disk → Bool
is_there d = elim (marks d) [ none ↦ false | some t ↦ true ]

-- A journal stands in a transaction's directory.
pub saved-is_there : (d : Disk) {t : Bytes} → saved d ≡ some t → is_there d ≡ true
unfolding is_there marks saved
saved-is_there d h = elim (Option-cases d.transaction) [
  | inl e ↦ let n : saved d ≡ none = rw e in absurd (cc)
  | inr (t, e) ↦ rw e
]

pub is_there-Still : (d e : Disk) → Still d e → is_there e ≡ is_there d
unfolding is_there
is_there-Still d e s = rw (is_there, s.talk)

pub is_there-set_mark :
    (m : Mark) (s : Bytes) (d : Disk) → is_there (in_folder (set_mark m s) d) ≡ is_there d
unfolding is_there marks in_folder
is_there-set_mark m s d = elim (Option-cases d.transaction) [ inl e ↦ rw e | inr (t, e) ↦ rw e ]

-- A mark that is set is not lost when one is written.
unfoldable pub is_marked : Mark → Disk → Bool
unfolding marked
is_marked m d = is_written (marked m d)

abbrev pub is_cancel : Mark → Bool
is_cancel cancel = true
is_cancel ready = false
is_cancel confirmed = false
is_cancel helper_error = false

mark_of-set_mark :
    (k m : Mark) (s : Bytes) (t : Folder)
    → is_written (mark_of k t) ≡ true
    → is_written (mark_of k (set_mark m s t)) ≡ true
unfolding mark_of set_mark
mark_of-set_mark ready ready s t h = refl
mark_of-set_mark cancel cancel s t h = refl
mark_of-set_mark confirmed confirmed s t h = refl
mark_of-set_mark helper_error helper_error s t h = refl
mark_of-set_mark ready _ s t h = ground arith
mark_of-set_mark cancel _ s t h = ground arith
mark_of-set_mark confirmed _ s t h = ground arith
mark_of-set_mark helper_error _ s t h = ground arith

marked-there :
    (m : Mark) (d : Disk) (t : Folder) → d.transaction ≡ some t → marked m d ≡ mark_of m t
unfolding marked marks mark_of
marked-there ready d t e = rw e
marked-there cancel d t e = rw e
marked-there confirmed d t e = rw e
marked-there helper_error d t e = rw e

unmarked : (m : Mark) (d : Disk) → d.transaction ≡ none → ¬ (is_written (marked m d) ≡ true)
unfolding marked marks
unmarked m d e h = let f : is_written (marked m d) ≡ false = rw e in cc

absent : (d : Disk) → d.transaction ≡ none → ¬ (is_there d ≡ true)
unfolding is_there marks
absent d e h = let f : is_there d ≡ false = rw e in cc

in_folder-there :
    (f : Folder → Folder) (d : Disk) (t : Folder)
    → d.transaction ≡ some t
    → (in_folder f d).transaction ≡ some (f t)
unfolding in_folder
in_folder-there f d t e = rw e

pub is_marked-set_mark :
    (k m : Mark) (s : Bytes) (d : Disk)
    → is_marked k d ≡ true
    → is_marked k (in_folder (set_mark m s) d) ≡ true
unfolding is_marked
is_marked-set_mark k m s d h = elim (Option-cases d.transaction) [
  | inl e ↦ absurd (unmarked k d e h)
  | inr (t, e) ↦
      ap is_written (
        marked-there k (in_folder (set_mark m s) d) (set_mark m s t)
          (in_folder-there (set_mark m s) d t e))
      ∙ mark_of-set_mark k m s t (ap is_written (sym (marked-there k d t e)) ∙ h)
]

mark_of-set_mark_same : (m : Mark) (s : Bytes) (t : Folder) → mark_of m (set_mark m s t) ≡ some s
unfolding mark_of set_mark
mark_of-set_mark_same ready s t = refl
mark_of-set_mark_same cancel s t = refl
mark_of-set_mark_same confirmed s t = refl
mark_of-set_mark_same helper_error s t = refl

-- What is written is there.
pub marked-set_mark :
    (m : Mark) (s : Bytes) (d : Disk)
    → is_there d ≡ true
    → marked m (in_folder (set_mark m s) d) ≡ some s
marked-set_mark m s d h = elim (Option-cases d.transaction) [
  | inl e ↦ absurd (absent d e h)
  | inr (t, e) ↦
      marked-there m (in_folder (set_mark m s) d) (set_mark m s t)
        (in_folder-there (set_mark m s) d t e)
      ∙ mark_of-set_mark_same m s t
]

pub is_marked-written :
    (m : Mark) (s : Bytes) (d : Disk)
    → is_there d ≡ true
    → is_marked m (in_folder (set_mark m s) d) ≡ true
unfolding is_marked
is_marked-written m s d h = ap is_written (marked-set_mark m s d h)

pub is_marked-Still : (m : Mark) (d e : Disk) → Still d e → is_marked m e ≡ is_marked m d
unfolding is_marked
is_marked-Still m d e s = ap is_written (marked-Still m d e s)

pub call-calm : (d : Disk) → d.faults ≡ [] → call d ≡ (ok tt, d)
unfolding call
call-calm d f = ap (λ fs. call_with fs d) f

mark_found-there :
    (m : Mark) (d : Disk) (t : Folder)
    → d.transaction ≡ some t
    → mark_found m (ok tt) d ≡ is_written (mark_of m t)
unfolding mark_found mark_of
mark_found-there ready d t e = rw e
mark_found-there cancel d t e = rw e
mark_found-there confirmed d t e = rw e
mark_found-there helper_error d t e = rw e

pub file_of-marked : (m : Mark) (d : Disk) → marked m d ≡ file_of (mark_of m) d
unfolding marked file_of marks
file_of-marked m d = elim (Option-cases d.transaction) [
  | inl e ↦ rw e
  | inr (t, e) ↦ marked-there m d t e ∙ rw e
]

pub mark_found-is_marked : (m : Mark) (d : Disk) → mark_found m (ok tt) d ≡ is_marked m d
unfolding is_marked mark_found marked marks
mark_found-is_marked m d = elim (Option-cases d.transaction) [
  | inl e ↦ rw e
  | inr (t, e) ↦ mark_found-there m d t e ∙ ap is_written (sym (marked-there m d t e))
]

-- A mark that is set is found, when no call of the system fails.
pub has_mark-is_marked :
    (m : Mark) (d : Disk) → d.faults ≡ [] → is_marked m d ≡ true → (has_mark m d).0 ≡ ok true
unfolding has_mark marked is_marked
has_mark-is_marked m d f h = elim (Option-cases d.transaction) [
  | inl e ↦ absurd (unmarked m d e h)
  | inr (t, e) ↦
      ap (λ (r : Result (Unit {0}) × Disk). ok (mark_found m r.0 r.1)) (call-calm d f)
      ∙ ap ok (mark_found-there m d t e ∙ ap is_written (sym (marked-there m d t e)) ∙ h)
]

mark_of-set_mark_other :
    (m : Mark) (s : Bytes) (t : Folder)
    → is_cancel m ≡ false
    → mark_of cancel (set_mark m s t) ≡ mark_of cancel t
unfolding mark_of set_mark
mark_of-set_mark_other ready s t h = refl
mark_of-set_mark_other cancel s t h = ground arith
mark_of-set_mark_other confirmed s t h = refl
mark_of-set_mark_other helper_error s t h = refl

-- A write of another file keeps the cancellation as it is.
pub is_marked-set_mark_other :
    (m : Mark) (s : Bytes) (d : Disk)
    → is_cancel m ≡ false
    → is_marked cancel (in_folder (set_mark m s) d) ≡ is_marked cancel d
unfolding is_marked marked marks in_folder
is_marked-set_mark_other m s d h = elim (Option-cases d.transaction) [
  | inl e ↦ rw e
  | inr (t, e) ↦ ap is_written (
      marked-there cancel (in_folder (set_mark m s) d) (set_mark m s t)
        (in_folder-there (set_mark m s) d t e)
      ∙ mark_of-set_mark_other m s t h
      ∙ sym (marked-there cancel d t e))
]

pub is_marked-clock :
    (m : Mark) (d : Disk) (bs : List Bool) → is_marked m (record d { clock = bs }) ≡ is_marked m d
unfolding is_marked marked marks
is_marked-clock m d bs = refl
