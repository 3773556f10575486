-- ===== src/Helper/Untouched.antt =====
-- Until the parent has exited the helper of src/helper.rs changes no file of the application.
use freshen.Base.{◌≡◌, refl, sym, subst, ◌∙◌, ◌⊎◌, Bool, true, false, List, [], ◌∷◌, arith}
use freshen.Base.Bytes.{Bytes}
use freshen.Base.Outcome.{Result, ok, err}
use freshen.Base.Triples.{Ends, Triple}
use freshen.Crates.{Crates}
use freshen.Storage.{Disk, Area, tree, in_folder}
use freshen.Storage.Frames.{saved}
use freshen.Install.{Platform, Plan}
use freshen.Helper.{
  Session, Mark, cancel, Signal, delivered, no_such_process, not_permitted, fault, Deed, idle,
  writes, parent_answers, child_ends, set_mark, do_deed, do_next, observe, exited,
}
use freshen.Helper.Execute.{go_on, run_helper}
use freshen.Helper.Waiting.{Still, Lasts}
use freshen.Helper.Running.{run_helper-Lasts}
use freshen.Helper.Keeping.{tree-set_mark, saved-set_mark}

-- The files of the application, the transaction's trees and its journal are as before, and no new
-- application was started.
pub record Unchanged (before w : Session) : Type 0 where
  pub trees : (b : Area) → tree b w.disk ≡ tree b before.disk
  pub journal : saved w.disk ≡ saved before.disk
  pub started : w.started ≡ before.started

abbrev pub is_gone : Signal → Bool
is_gone no_such_process = true
is_gone delivered = false
is_gone not_permitted = false
is_gone (fault kind) = false

abbrev pub leaves : Deed → Bool
leaves (parent_answers s) = is_gone s
leaves idle = false
leaves (writes m s) = false
leaves (child_ends status) = false

-- No deed of a list lets the parent exit.
abbrev pub Stays : List Deed → Type 0
Stays [] = Unit
Stays (x ∷ rest) = (leaves x ≡ false) × Stays rest

abbrev pub cancels : Deed → Bool
cancels (writes cancel s) = true
cancels _ = false

-- Before a deed lets the parent exit, one cancels the update.
abbrev pub Orderly : List Deed → Type 0
Orderly [] = Unit
Orderly (x ∷ rest) = (cancels x ≡ true) ⊎ ((leaves x ≡ false) × Orderly rest)

pub exited-is_gone : (s : Signal) → exited s ≡ ok true → is_gone s ≡ true
unfolding exited
exited-is_gone delivered h = ground arith
exited-is_gone no_such_process h = refl
exited-is_gone not_permitted h = ground arith
exited-is_gone (fault kind) h = cc

module _ (before : Session) where
  pub Unchanged-Still :
      (w : Session) (d : Disk)
      → Still w.disk d
      → Unchanged before w
      → Unchanged before (record w { disk = d })
  Unchanged-Still w d s u = record {
    trees = λ b. s.trees b ∙ u.trees b;
    journal = s.journal ∙ u.journal;
    started = u.started;
  }

  pub Unchanged-writes :
      (w : Session) (m : Mark) (s : Bytes)
      → Unchanged before w
      → Unchanged before (record w { disk = in_folder (set_mark m s) w.disk })
  Unchanged-writes w m s u = record {
    trees = λ b. tree-set_mark b m s w.disk ∙ u.trees b;
    journal = saved-set_mark m s w.disk ∙ u.journal;
    started = u.started;
  }

  -- The parent lives on.
  abbrev Alive : Session → Type 0
  Alive w = Unchanged before w × ((is_gone w.parent ≡ false) × Stays w.deeds)

  pub Unchanged-deed :
      (x : Deed) (rest : List Deed) (w : Session)
      → Unchanged before w
      → Unchanged before (do_deed x (record w { deeds = rest }))
  unfolding do_deed
  Unchanged-deed (writes m t) rest w u =
      Unchanged-writes (record w { deeds = rest }) m t
        (record { trees = u.trees; journal = u.journal; started = u.started })
  Unchanged-deed idle rest w u = record {
    trees = u.trees;
    journal = u.journal;
    started = u.started;
  }
  Unchanged-deed (parent_answers t) rest w u = record {
    trees = u.trees;
    journal = u.journal;
    started = u.started;
  }
  Unchanged-deed (child_ends t) rest w u = record {
    trees = u.trees;
    journal = u.journal;
    started = u.started;
  }

  Alive-next :
      (ds : List Deed) (w : Session)
      → Unchanged before w
      → is_gone w.parent ≡ false
      → Stays ds
      → w.deeds ≡ ds
      → Alive (do_next ds w)
  unfolding do_next do_deed
  Alive-next [] w u g s e = (u, (g, subst Stays (sym e) s))
  Alive-next (idle ∷ rest) w u g s e = (Unchanged-deed idle rest w u, (g, s.1))
  Alive-next (writes m t ∷ rest) w u g s e = (Unchanged-deed (writes m t) rest w u, (g, s.1))
  Alive-next (parent_answers t ∷ rest) w u g s e =
      (Unchanged-deed (parent_answers t) rest w u, (s.0, s.1))
  Alive-next (child_ends t ∷ rest) w u g s e = (Unchanged-deed (child_ends t) rest w u, (g, s.1))

  Alive-Lasts : Lasts Alive
  unfolding observe
  Alive-Lasts = record {
    still = λ w d s (u, a). (Unchanged-Still w d s u, a);
    writes = λ w m s (u, a). (Unchanged-writes w m s u, a);
    acts = λ w (u, (g, s)). Alive-next w.deeds w u g s refl;
  }

  module _ (C : Crates) (S : Platform) where
    go_on-Alive :
        (plan : Plan)
        → Triple
            (λ w. Alive w × (exited w.parent ≡ ok true))
            (go_on C S plan false)
            (λ _. Alive)
            Alive
    go_on-Alive plan = record {
      ends = λ w (h, e). let g = exited-is_gone w.parent e in let k = h.1.0 in absurd (cc);
    }

    pub unchanged :
        {I : Session → Type 0} (r : Result Bool) (w : Session)
        → ((v : Session) → I v → Unchanged before v)
        → Ends (λ _. I) I r w
        → Unchanged before w
    unchanged (ok b) w k h = k w h
    unchanged (err e) w k h = k w h

-- While the parent does not exit, `run_helper` changes no file of the application, none of the
-- trees of the transaction and not the journal, and starts no application, whatever its arguments
-- are, whatever the other processes write and whatever calls of the system fail.
pub run_helper-Unchanged :
    (C : Crates) (S : Platform) (args : List Bytes) (before : Session)
    → is_gone before.parent ≡ false
    → Stays before.deeds
    → Unchanged before (run_helper C S args before).1
run_helper-Unchanged C S args before g s =
    unchanged before C S (run_helper C S args before).0 (run_helper C S args before).1 (λ v h. h.0)
      ((run_helper-Lasts C S (Alive-Lasts before) (go_on-Alive before C S) args).ends before
        (record { trees = λ b. refl; journal = refl; started = refl }, (g, s)))
