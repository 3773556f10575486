-- ===== src/Helper/Progress.antt =====
-- The wait of src/helper.rs for the parent comes to its end: a helper whose parent exits in time goes on.
use freshen.Base.{
  ◌≡◌, refl, sym, subst, ◌∙◌, inl, inr, ℕ, zero, suc, ◌≤◌, Bool, true, false, List, [], ◌∷◌,
  Option-cases, length, arith,
}
use freshen.Base.Bytes.{Bytes}
use freshen.Base.Exec.{Exec}
use freshen.Storage.{Disk, Folder, in_folder}
use freshen.Helper.{
  Session, Mark, ready, cancel, confirmed, helper_error, Signal, fault, Deed, idle, writes,
  parent_answers, child_ends, set_mark, do_deed, do_next,
}
use freshen.Helper.Keeping.{is_marked, faults-set_mark, is_marked-set_mark_other}
use freshen.Helper.Untouched.{is_gone, cancels}

abbrev pub is_fault : Signal → Bool
is_fault (fault kind) = true
is_fault _ = false

abbrev pub answer_after : Deed → Signal → Signal
answer_after (parent_answers t) s = t
answer_after idle s = s
answer_after (writes m t) s = s
answer_after (child_ends status) s = s

-- The parent has exited after a list of deeds, none of which cancels, and it can be looked at meanwhile.
abbrev pub Departs : Signal → List Deed → Type 0
Departs s [] = is_gone s ≡ true
Departs s (x ∷ rest) =
    (is_fault s ≡ false) × ((cancels x ≡ false) × Departs (answer_after x s) rest)

-- No call fails, and the update is not cancelled.
abbrev Clear : Session → Type 0
Clear w = (w.disk.faults ≡ []) × (is_marked cancel w.disk ≡ false)

is_marked-other :
    (m : Mark) (s : Bytes) (d : Disk)
    → cancels (writes m s) ≡ false
    → is_marked cancel (in_folder (set_mark m s) d) ≡ is_marked cancel d
is_marked-other ready s d h = is_marked-set_mark_other ready s d refl
is_marked-other cancel s d h = ground arith
is_marked-other confirmed s d h = is_marked-set_mark_other confirmed s d refl
is_marked-other helper_error s d h = is_marked-set_mark_other helper_error s d refl

Clear-deed : (x : Deed) (w : Session) → cancels x ≡ false → Clear w → Clear (do_deed x w)
unfolding do_deed
Clear-deed idle w c h = h
Clear-deed (writes m s) w c (f, u) =
    (faults-set_mark m s w.disk ∙ f, is_marked-other m s w.disk c ∙ u)
Clear-deed (parent_answers s) w c h = h
Clear-deed (child_ends s) w c h = h

parent-deed : (x : Deed) (w : Session) → (do_deed x w).parent ≡ answer_after x w.parent
unfolding do_deed
parent-deed idle w = refl
parent-deed (writes m s) w = refl
parent-deed (parent_answers s) w = refl
parent-deed (child_ends s) w = refl

in_folder-clock : (f : Folder → Folder) (d : Disk) → (in_folder f d).clock ≡ d.clock
unfolding in_folder
in_folder-clock f d = elim (Option-cases d.transaction) [ inl e ↦ rw e | inr (t, e) ↦ rw e ]

clock-deed : (x : Deed) (w : Session) → (do_deed x w).disk.clock ≡ w.disk.clock
unfolding do_deed
clock-deed idle w = refl
clock-deed (writes m s) w = in_folder-clock (set_mark m s) w.disk
clock-deed (parent_answers s) w = refl
clock-deed (child_ends s) w = refl

deeds-deed : (x : Deed) (w : Session) → (do_deed x w).deeds ≡ w.deeds
unfolding do_deed
deeds-deed idle w = refl
deeds-deed (writes m s) w = refl
deeds-deed (parent_answers s) w = refl
deeds-deed (child_ends s) w = refl

-- A session in which the parent departs.
record Departing (w : Session) (n : ℕ) (clock : List Bool) : Type 0 where
  clear : Clear w
  departs : Departs w.parent w.deeds
  few : length w.deeds ≤ n
  ticks : w.disk.clock ≡ clock

step :
    (ds : List Deed) (w : Session) (n : ℕ) (clock : List Bool)
    → Clear w
    → Departs w.parent ds
    → length ds ≤ suc n
    → w.disk.clock ≡ clock
    → w.deeds ≡ ds
    → Departing (do_next ds w) n clock
unfolding do_next
step [] w n clock c d f t e = record {
  clear = c;
  departs = subst (Departs w.parent) (sym e) d;
  few = subst (λ l. length l ≤ n) (sym e) (omega arith);
  ticks = t;
}
step (x ∷ rest) w n clock c d f t e =
    let v : Session = record w { deeds = rest } in
    record {
      clear = Clear-deed x v d.1.0 c;
      departs =
          subst (λ s. Departs s (do_deed x v).deeds) (sym (parent-deed x v))
            (subst (Departs (answer_after x w.parent)) (sym (deeds-deed x v)) d.1.1);
      few = subst (λ l. length l ≤ n) (sym (deeds-deed x v)) (omega arith);
      ticks = clock-deed x v ∙ t;
    }

-- Two looks: a round.
module _ (again : Exec Session Bool) (w : Session) (n : ℕ) (clock : List Bool)
    (d : Departing w (suc (suc n)) clock) where
  abbrev once : Session
  once = do_next w.deeds w

  abbrev twice : Session
  twice = do_next once.deeds once

-- As many tests of the deadline find it ahead.
abbrev pub in_time_for : ℕ → List Bool → List Bool
in_time_for zero bs = bs
in_time_for (suc rounds) bs = true ∷ in_time_for rounds bs
