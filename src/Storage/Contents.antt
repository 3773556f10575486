-- ===== src/Storage/Contents.antt =====
-- What the operations of src/fsutil.rs leave at their place when they return.
use freshen.Base.{◌≡◌, refl, ap, ◌∙◌, inl, inr, false, [], Option, none, some, Option-cases}
use freshen.Base.Bytes.{Bytes, split}
use freshen.Base.Outcome.{Result, ok, err}
use freshen.Base.Exec.{Exec, lift}
use freshen.Base.Triples.{Ends, Triple, Triple-weaken, Triple-both, >>=-Triple}
use freshen.SafePath.{check_path}
use freshen.Storage.Tree.{Node, Place, look, put}
use freshen.Storage.Lookup.{look-put}
use freshen.Storage.{
  Disk, Area, installation, staging, backups, tree, store_tree, store_result, in_folder, call,
  change, copy_file, in_time, check_links, checked_join, safe_join,
}
use freshen.Storage.Frames.{
  Frame, Effect, is_area, saved, marks, store_tree-saved, call-Effect, in_time-Effect,
}
use freshen.Storage.Effects.{dirs-Effect, safe_join-Effect}

-- A condition on the trees and the journal that a change keeps holds whatever the code returns.
Ends-same : {A : Type 0} (P : Disk → Type 0) (r : Result A) (d : Disk) → P d → Ends (λ _. P) P r d
Ends-same P (ok x) d h = h
Ends-same P (err e) d h = h

pub Effect-Triple :
    {A : Type 0} {a : Area} {p : Place} {m : Exec Disk A} (P : Disk → Type 0)
    → Effect a p m
    → ((d e : Disk) → Frame a p d e → P d → P e)
    → Triple P m (λ _. P) P
Effect-Triple {m} P h k = record {
  ends = λ d x. Ends-same P (m d).0 (m d).1 (k d (m d).1 (h.frame d) x);
}

-- Code that changes neither a tree nor the journal.
pub record Quiet {A : Type 0} (m : Exec Disk A) : Type 0 where
  pub trees : (b : Area) (d : Disk) → tree b (m d).1 ≡ tree b d
  pub journal : (d : Disk) → saved (m d).1 ≡ saved d
  pub talk : (d : Disk) → marks (m d).1 ≡ marks d
  pub calm : (d : Disk) → d.faults ≡ [] → (m d).1.faults ≡ []

another : Area → Area
another installation = staging
another staging = installation
another backups = installation

another-differs : (b : Area) → is_area (another b) b ≡ false
unfolding another
another-differs installation = refl
another-differs staging = refl
another-differs backups = refl

pub Quiet-of_Effect :
    {A : Type 0} {m : Exec Disk A} → ((a : Area) (p : Place) → Effect a p m) → Quiet m
Quiet-of_Effect h = record {
  trees = λ b d. ((h (another b) []).frame d).others b (another-differs b);
  journal = λ d. ((h installation []).frame d).journal;
  talk = λ d. ((h installation []).frame d).talk;
  calm = λ d. ((h installation []).frame d).calm;
}

pub call-Quiet : Quiet call
call-Quiet = Quiet-of_Effect (λ a p. call-Effect)

pub in_time-Quiet : Quiet in_time
in_time-Quiet = Quiet-of_Effect (λ a p. in_time-Effect)

pub safe_join-Quiet : (b : Area) (s : Bytes) → Quiet (safe_join b s)
safe_join-Quiet b s = Quiet-of_Effect (λ a p. safe_join-Effect b s)

pub Quiet-Triple :
    {A : Type 0} {m : Exec Disk A} (P : Disk → Type 0)
    → Quiet m
    → ((d e : Disk) → ((b : Area) → tree b e ≡ tree b d) → saved e ≡ saved d → P d → P e)
    → Triple P m (λ _. P) P
Quiet-Triple {m} P h k = record {
  ends = λ d x. Ends-same P (m d).0 (m d).1 (k d (m d).1 (λ b. h.trees b d) (h.journal d) x);
}

pub saved-none : (d : Disk) → d.transaction ≡ none → saved d ≡ none
unfolding saved
saved-none d e = rw e

-- A disk with a journal has the transaction's directory, so that what is stored is read back.
pub tree-store :
    (a : Area) (o : Option Node) (d : Disk) {text : Bytes}
    → saved d ≡ some text
    → tree a (store_tree a o d) ≡ o
unfolding tree store_tree in_folder
tree-store installation o d h = refl
tree-store staging o d h = elim (Option-cases d.transaction) [
  | inl e ↦ let e' = saved-none d e in cc
  | inr (t, e) ↦ rw e
]
tree-store backups o d h = elim (Option-cases d.transaction) [
  | inl e ↦ let e' = saved-none d e in cc
  | inr (t, e) ↦ rw e
]

abbrev pub HasJournal : Bytes → Disk → Type 0
HasJournal text d = saved d ≡ some text

-- The state after a copy that returned.
abbrev pub Holds : Area → Place → Node → Bytes → Disk → Type 0
Holds a p n text d = HasJournal text d × (look p (tree a d) ≡ some n)

Holds-quiet :
    (a : Area) (p : Place) (n : Node) (text : Bytes) (d e : Disk)
    → ((b : Area) → tree b e ≡ tree b d)
    → saved e ≡ saved d
    → Holds a p n text d
    → Holds a p n text e
Holds-quiet a p n text d e t s (h, l) = (s ∙ h, ap (look p) (t a) ∙ l)

store_result-Ends :
    (a : Area) (p : Place) (n : Node) (text : Bytes) (r : Result Node) (d : Disk)
    → ((m : Node) → r ≡ ok m → look p (some m) ≡ some n)
    → HasJournal text d
    → Ends (λ _. Holds a p n text) (λ _. Unit {0}) (store_result a r d).0 (store_result a r d).1
unfolding store_result
store_result-Ends a p n text (ok m) d k h =
    (store_tree-saved a (some m) d ∙ h, ap (look p) (tree-store a (some m) d h) ∙ k m refl)
store_result-Ends a p n text (err e) d k h = tt

rename-Triple :
    (n : Node) (a : Area) (p : Place) (text : Bytes)
    → Triple (HasJournal text) (change a (put p n)) (λ _. Holds a p n text) (λ _. Unit {0})
unfolding change
rename-Triple n a p text = record {
  ends = λ d h.
      store_result-Ends a p n text (put p n (tree a d)) d (λ m e. look-put p n (tree a d) e) h;
}

journal-Triple :
    {A : Type 0} {a : Area} {p : Place} {m : Exec Disk A} (text : Bytes)
    → Effect a p m
    → Triple (HasJournal text) m (λ _. HasJournal text) (λ _. Unit {0})
journal-Triple text h =
    Triple-weaken (Effect-Triple (HasJournal text) h (λ d e f s. f.journal ∙ s)) (λ w i. i)
      (λ x w i. i) (λ w i. tt)

call-Holds :
    (a : Area) (p : Place) (n : Node) (text : Bytes)
    → Triple (Holds a p n text) call (λ _. Holds a p n text) (λ _. Unit {0})
call-Holds a p n text =
    Triple-weaken (Quiet-Triple (Holds a p n text) call-Quiet (Holds-quiet a p n text)) (λ w i. i)
      (λ x w i. i) (λ w i. tt)

pub copy_file-Triple :
    (n : Node) (a : Area) (p : Place) (text : Bytes)
    → Triple (HasJournal text) (copy_file n a p) (λ _. Holds a p n text) (λ _. Unit {0})
unfolding copy_file
copy_file-Triple n a p text = >>=-Triple (journal-Triple text (call-Effect {a = a} {p = p})) (λ _.
    >>=-Triple (journal-Triple text (dirs-Effect a p)) (λ _.
      >>=-Triple (journal-Triple text (call-Effect {a = a} {p = p}))
        (λ _. >>=-Triple (rename-Triple n a p text) (λ _. call-Holds a p n text))))

pub lift-Triple : {W A : Type 0} (P : W → Type 0) (r : Result A) → Triple P (lift r) (λ _. P) P
lift-Triple P (ok x) = record { ends = λ w h. h }
lift-Triple P (err e) = record { ends = λ w h. h }

abbrev IsPlace : Bytes → Place → Disk → Type 0
IsPlace s p d = p ≡ split b'/' s

checked_join-IsPlace :
    (b : Area) (s : Bytes) → Triple (λ d. Unit {0}) (checked_join b s) (IsPlace s) (λ d. Unit {0})
unfolding checked_join
checked_join-IsPlace b s = record {
  ends = λ d h.
      (>>=-Triple (Quiet-Triple (λ d. Unit {0}) call-Quiet (λ d e t s u. tt)) (λ _.
          >>=-Triple (lift-Triple (λ d. Unit {0}) (check_links s (tree b d) (split b'/' s)))
            (λ _. record { ends = λ e u. refl }))).ends
        d h;
}

safe_join-IsPlace :
    (b : Area) (s : Bytes) → Triple (λ d. Unit {0}) (safe_join b s) (IsPlace s) (λ d. Unit {0})
unfolding safe_join
safe_join-IsPlace b s =
    >>=-Triple (lift-Triple (λ d. Unit {0}) (check_path s)) (λ _. checked_join-IsPlace b s)

-- A join keeps the disk, and gives the components of the path.
pub safe_join-Triple :
    (P : Disk → Type 0) (b : Area) (s : Bytes)
    → ((d e : Disk) → ((c : Area) → tree c e ≡ tree c d) → saved e ≡ saved d → P d → P e)
    → Triple P (safe_join b s) (λ p d. P d × (p ≡ split b'/' s)) P
safe_join-Triple P b s k =
    Triple-weaken (Triple-both (Quiet-Triple P (safe_join-Quiet b s) k) (safe_join-IsPlace b s))
      (λ d h. (h, tt)) (λ p d h. h) (λ d h. h.0)
