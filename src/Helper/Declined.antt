-- ===== src/Helper/Declined.antt =====
-- After a cancellation the helper of src/helper.rs changes no file of the application.
use freshen.Base.{◌≡◌, refl, sym, subst, ◌∙◌, ◌⊎◌, inl, inr, Bool, true, false, List, [], ◌∷◌}
use freshen.Base.Bytes.{Bytes}
use freshen.Base.Outcome.{ok}
use freshen.Base.Triples.{Ends, Triple, Triple-weaken, >>=-Triple}
use freshen.Crates.{Crates}
use freshen.Storage.{Disk, in_folder}
use freshen.Install.{Platform, Plan}
use freshen.Helper.{
  Session, Mark, ready, cancel, confirmed, helper_error, Signal, Deed, idle, writes, parent_answers,
  child_ends, set_mark, do_deed, do_next, observe, exited, has_mark, within,
}
use freshen.Helper.Untouched.{
  Unchanged, is_gone, Orderly, exited-is_gone, Unchanged-Still, Unchanged-writes, Unchanged-deed,
  unchanged,
}
use freshen.Helper.Execute.{go_on, install, run_helper}
use freshen.Helper.Waiting.{Still-of_Quiet, Lasts, has_mark-Quiet, observe-Lasts}
use freshen.Helper.Running.{run_helper-Lasts}
use freshen.Helper.Keeping.{
  faults-set_mark, is_there, is_there-Still, is_there-set_mark, is_marked, is_marked-set_mark,
  has_mark-is_marked, is_marked-written, is_marked-Still,
}

module _ (before : Session) where
  -- The update is cancelled, or the parent lives on until it has cancelled it.
  abbrev Declined : Session → Type 0
  Declined w =
      Unchanged before w
      × ((w.disk.faults ≡ [])
          × ((is_there w.disk ≡ true)
              × ((is_marked cancel w.disk ≡ true)
                  ⊎ ((is_gone w.parent ≡ false) × Orderly w.deeds))))

  abbrev Refused : Disk → Signal → List Deed → Type 0
  Refused d parent deeds = (is_marked cancel d ≡ true) ⊎ ((is_gone parent ≡ false) × Orderly deeds)

  Refused-writes :
      (m : Mark) (s : Bytes) (d : Disk) (parent : Signal) (rest : List Deed)
      → is_there d ≡ true
      → Refused d parent (writes m s ∷ rest)
      → Refused (in_folder (set_mark m s) d) parent rest
  Refused-writes m s d parent rest t (inl c) = inl (is_marked-set_mark cancel m s d c)
  Refused-writes cancel s d parent rest t (inr o) = inl (is_marked-written cancel s d t)
  Refused-writes ready s d parent rest t (inr (g, o)) = elim o [ inl c ↦ cc | inr r ↦ inr (g, r.1) ]
  Refused-writes confirmed s d parent rest t (inr (g, o)) = elim o [
    | inl c ↦ cc
    | inr r ↦ inr (g, r.1)
  ]
  Refused-writes helper_error s d parent rest t (inr (g, o)) = elim o [
    | inl c ↦ cc
    | inr r ↦ inr (g, r.1)
  ]

  Declined-deed :
      (x : Deed) (rest : List Deed) (w : Session)
      → w.disk.faults ≡ []
      → is_there w.disk ≡ true
      → Refused w.disk w.parent (x ∷ rest)
      → let v = do_deed x (record w { deeds = rest }) in
        (v.disk.faults ≡ []) × ((is_there v.disk ≡ true) × Refused v.disk v.parent v.deeds)
  unfolding do_deed
  Declined-deed (writes m s) rest w f t o = (
    faults-set_mark m s w.disk ∙ f,
    (is_there-set_mark m s w.disk ∙ t, Refused-writes m s w.disk w.parent rest t o),
  )
  Declined-deed idle rest w f t (inl c) = (f, (t, inl c))
  Declined-deed idle rest w f t (inr (g, o)) = elim o [
    | inl c ↦ cc
    | inr r ↦ (f, (t, inr (g, r.1)))
  ]
  Declined-deed (parent_answers s) rest w f t (inl c) = (f, (t, inl c))
  Declined-deed (parent_answers s) rest w f t (inr (g, o)) = elim o [
    | inl c ↦ cc
    | inr r ↦ (f, (t, inr (r.0, r.1)))
  ]
  Declined-deed (child_ends s) rest w f t (inl c) = (f, (t, inl c))
  Declined-deed (child_ends s) rest w f t (inr (g, o)) = elim o [
    | inl c ↦ cc
    | inr r ↦ (f, (t, inr (g, r.1)))
  ]

  Declined-next :
      (ds : List Deed) (w : Session) → w.deeds ≡ ds → Declined w → Declined (do_next ds w)
  unfolding do_next
  Declined-next [] w e h = h
  Declined-next (x ∷ rest) w e (u, (f, (t, o))) = (
    Unchanged-deed before x rest w u,
    Declined-deed x rest w f t (subst (Refused w.disk w.parent) e o),
  )

  Declined-Lasts : Lasts Declined
  unfolding observe
  Declined-Lasts = record {
    still = λ w d s (u, (f, (t, o))). (
      Unchanged-Still before w d s u,
      (
        s.calm f,
        (
          is_there-Still w.disk d s ∙ t,
          elim o [ inl c ↦ inl (is_marked-Still cancel w.disk d s ∙ c) | inr r ↦ inr r ],
        ),
      ),
    );
    writes = λ w m s (u, (f, (t, o))). (
      Unchanged-writes before w m s u,
      (
        faults-set_mark m s w.disk ∙ f,
        (
          is_there-set_mark m s w.disk ∙ t,
          elim o [ inl c ↦ inl (is_marked-set_mark cancel m s w.disk c) | inr r ↦ inr r ],
        ),
      ),
    );
    acts = λ w h. Declined-next w.deeds w refl h;
  }

  -- The update is cancelled for good.
  abbrev Cancelled : Session → Type 0
  Cancelled w = Declined w × (is_marked cancel w.disk ≡ true)

  Cancelled-next :
      (ds : List Deed) (w : Session)
      → is_marked cancel w.disk ≡ true
      → is_marked cancel (do_next ds w).disk ≡ true
  unfolding do_next do_deed
  Cancelled-next [] w c = c
  Cancelled-next (idle ∷ rest) w c = c
  Cancelled-next (writes m s ∷ rest) w c = is_marked-set_mark cancel m s w.disk c
  Cancelled-next (parent_answers s ∷ rest) w c = c
  Cancelled-next (child_ends s ∷ rest) w c = c

  Cancelled-Lasts : Lasts Cancelled
  unfolding observe
  Cancelled-Lasts = record {
    still = λ w d s (h, c). (Declined-Lasts.still w d s h, is_marked-Still cancel w.disk d s ∙ c);
    writes =
        λ w m s (h, c). (Declined-Lasts.writes w m s h, is_marked-set_mark cancel m s w.disk c);
    acts = λ w (h, c). (Declined-Lasts.acts w h, Cancelled-next w.deeds w c);
  }

  stop-Triple :
      Triple Cancelled (within (has_mark cancel)) (λ left w. Declined w × (left ≡ true)) Declined
  unfolding within
  stop-Triple = record {
    ends = λ w h.
        subst
          (λ r.
            Ends (λ left v. Declined v × (left ≡ true)) Declined r
              (record w { disk = (has_mark cancel w.disk).1 }))
          (sym (has_mark-is_marked cancel w.disk h.0.1.0 h.1))
          (
            Declined-Lasts.still w (has_mark cancel w.disk).1
                (Still-of_Quiet (has_mark-Quiet cancel) w.disk) h.0,
            refl,
          );
  }

  Cancelled-of_Declined : (w : Session) → Declined w → exited w.parent ≡ ok true → Cancelled w
  Cancelled-of_Declined w h e = elim h.1.1.1 [
    | inl c ↦ (h, c)
    | inr r ↦ let g = exited-is_gone w.parent e in let k = r.0 in cc
  ]

  module _ (C : Crates) (S : Platform) where
    go_on-Declined :
        (plan : Plan)
        → Triple
            (λ w. Declined w × (exited w.parent ≡ ok true))
            (go_on C S plan false)
            (λ _. Declined)
            Declined
    unfolding go_on install
    go_on-Declined plan =
        >>=-Triple
          (Triple-weaken (observe-Lasts Cancelled-Lasts) (λ w h. Cancelled-of_Declined w h.0 h.1)
            (λ u w h. h) (λ w h. h.0))
          (λ _. >>=-Triple stop-Triple quit)
      where
        quit :
            (left : Bool)
            → Triple
                (λ w. Declined w × (left ≡ true))
                (install C S plan left)
                (λ _. Declined)
                Declined
        quit true = record { ends = λ w h. h.0 }
        quit false = record { ends = λ w h. absurd (cc) }

-- When no call of the system fails and the application cancels the update before it exits,
-- `run_helper` changes no file of the application, none of the trees of the transaction and not
-- the journal, and starts no application.
pub run_helper-cancelled :
    (C : Crates) (S : Platform) (args : List Bytes) (before : Session)
    → before.disk.faults ≡ []
    → is_there before.disk ≡ true
    → is_gone before.parent ≡ false
    → Orderly before.deeds
    → Unchanged before (run_helper C S args before).1
run_helper-cancelled C S args before f t g o =
    unchanged before C S (run_helper C S args before).0 (run_helper C S args before).1 (λ v h. h.0)
      ((run_helper-Lasts C S (Declined-Lasts before) (go_on-Declined before C S) args).ends before
        (record { trees = λ b. refl; journal = refl; started = refl }, (f, (t, inr (g, o)))))
