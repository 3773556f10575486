-- ===== src/Storage/Frames.antt =====
-- The operations of src/fsutil.rs change what stands at their place and nothing apart from it.
use freshen.Base.{
  ◌≡◌, refl, sym, ap, ◌∙◌, inl, inr, Bool, true, false, List, [], ◌∷◌, Option, none, some, nat_eq,
  list_eq, Option-cases, ◌⊎◌,
}
use freshen.Base.Bytes.{Bytes}
use freshen.Base.Outcome.{Result, ok, err, IoKind}
use freshen.Base.Exec.{Exec, lift, pure, continue, ◌>>=◌}
use freshen.Storage.Tree.{Node, Place, look, is_apart}
use freshen.Storage.{
  Disk, Folder, empty_folder, Area, installation, staging, backups, tree, store_tree, in_folder,
  call, call_with, store_result, change, read_clock, in_time,
}

abbrev pub is_area : Area → Area → Bool
is_area installation installation = true
is_area staging staging = true
is_area backups backups = true
is_area _ _ = false

-- The text of the journal on the disk.
unfoldable pub saved : Disk → Option Bytes
saved d = elim d.transaction [ none ↦ none | some t ↦ t.journal ]

-- The files of the transaction by which processes talk.
unfoldable pub marks : Disk → Option Folder
marks d = elim d.transaction [
  | none ↦ none
  | some t ↦ some (record empty_folder {
    ready = t.ready;
    cancel = t.cancel;
    confirmed = t.confirmed;
    helper_error = t.helper_error;
  })
]

-- What a change at a place of an area leaves as it was. Where no call of the system fails, none will.
pub record Frame (a : Area) (p : Place) (d e : Disk) : Type 0 where
  pub apart : (q : Place) → is_apart p q ≡ true → look q (tree a e) ≡ look q (tree a d)
  pub others : (b : Area) → is_area a b ≡ false → tree b e ≡ tree b d
  pub journal : saved e ≡ saved d
  pub talk : marks e ≡ marks d
  pub calm : d.faults ≡ [] → e.faults ≡ []

pub tree-call :
    (b : Area) (d : Disk) (fs : List (Option IoKind)) → tree b (record d { faults = fs }) ≡ tree b d
unfolding tree
tree-call installation d fs = refl
tree-call staging d fs = refl
tree-call backups d fs = refl

pub tree-clock :
    (b : Area) (d : Disk) (bs : List Bool) → tree b (record d { clock = bs }) ≡ tree b d
unfolding tree
tree-clock installation d bs = refl
tree-clock staging d bs = refl
tree-clock backups d bs = refl

pub Frame-refl : {a : Area} {p : Place} {d : Disk} → Frame a p d d
Frame-refl = record {
  apart = λ q h. refl;
  others = λ b h. refl;
  journal = refl;
  talk = refl;
  calm = λ h. h;
}

pub Frame-trans :
    {a : Area} {p : Place} {d e g : Disk} → Frame a p d e → Frame a p e g → Frame a p d g
Frame-trans f h = record {
  apart = λ q s. h.apart q s ∙ f.apart q s;
  others = λ b s. h.others b s ∙ f.others b s;
  journal = h.journal ∙ f.journal;
  talk = h.talk ∙ f.talk;
  calm = λ s. h.calm (f.calm s);
}

-- Code that changes an area at a place at most, whatever it returns.
pub record Effect {A : Type 0} (a : Area) (p : Place) (m : Exec Disk A) : Type 0 where
  pub frame : (d : Disk) → Frame a p d (m d).1

continue-Effect :
    {A B : Type 0} (a : Area) (p : Place) (f : A → Exec Disk B)
    → ((x : A) → Effect a p (f x))
    → (r : Result A) (d : Disk) → Frame a p d (continue r f d).1
continue-Effect a p f h (ok x) d = (h x).frame d
continue-Effect a p f h (err e) d = Frame-refl

pub >>=-Effect :
    {A B : Type 0} {a : Area} {p : Place} {m : Exec Disk A} {f : A → Exec Disk B}
    → Effect a p m
    → ((x : A) → Effect a p (f x))
    → Effect a p (m >>= f)
>>=-Effect {a} {p} {m} {f} h k = record {
  frame = λ d. Frame-trans (h.frame d) (continue-Effect a p f k (m d).0 (m d).1);
}

pub pure-Effect : {A : Type 0} {a : Area} {p : Place} {x : A} → Effect a p (pure x)
pure-Effect = record { frame = λ d. Frame-refl }

pub lift-Effect : {A : Type 0} {a : Area} {p : Place} {r : Result A} → Effect a p (lift r)
lift-Effect = record { frame = λ d. Frame-refl }

call_with-Frame :
    (a : Area) (p : Place) (fs : List (Option IoKind)) (d : Disk)
    → d.faults ≡ fs
    → Frame a p d (call_with fs d).1
unfolding call_with saved marks
call_with-Frame a p [] d e = Frame-refl
call_with-Frame a p (none ∷ rest) d e = record {
  apart = λ q h. ap (look q) (tree-call a d rest);
  others = λ b h. tree-call b d rest;
  journal = refl;
  talk = refl;
  calm = λ h. cc;
}
call_with-Frame a p (some k ∷ rest) d e = record {
  apart = λ q h. ap (look q) (tree-call a d rest);
  others = λ b h. tree-call b d rest;
  journal = refl;
  talk = refl;
  calm = λ h. cc;
}

pub call-Effect : {a : Area} {p : Place} → Effect a p call
unfolding call
call-Effect {a} {p} = record { frame = λ d. call_with-Frame a p d.faults d refl }

read_clock-Frame :
    (a : Area) (p : Place) (bs : List Bool) (d : Disk) → Frame a p d (read_clock bs d).1
unfolding read_clock saved marks
read_clock-Frame a p [] d = Frame-refl
read_clock-Frame a p (b ∷ rest) d = record {
  apart = λ q h. ap (look q) (tree-clock a d rest);
  others = λ b h. tree-clock b d rest;
  journal = refl;
  talk = refl;
  calm = λ h. h;
}

pub in_time-Effect : {a : Area} {p : Place} → Effect a p in_time
unfolding in_time
in_time-Effect {a} {p} = record { frame = λ d. read_clock-Frame a p d.clock d }

pub in_folder-root :
    (f : Folder → Folder) (d : Disk) → tree installation (in_folder f d) ≡ tree installation d
unfolding tree in_folder
in_folder-root f d = elim (Option-cases d.transaction) [ inl e ↦ rw e | inr (t, e) ↦ rw e ]

pub in_folder-saved :
    (f : Folder → Folder) (d : Disk)
    → ((t : Folder) → (f t).journal ≡ t.journal)
    → saved (in_folder f d) ≡ saved d
unfolding saved in_folder
in_folder-saved f d h = elim (Option-cases d.transaction) [
  | inl e ↦ rw e
  | inr (t, e) ↦ rw (e, h t)
]

pub in_folder-marks :
    (f : Folder → Folder) (d : Disk)
    → ((t : Folder)
        → ((f t).ready ≡ t.ready)
          × ((f t).cancel ≡ t.cancel)
          × ((f t).confirmed ≡ t.confirmed)
          × ((f t).helper_error ≡ t.helper_error))
    → marks (in_folder f d) ≡ marks d
unfolding marks in_folder
in_folder-marks f d h = elim (Option-cases d.transaction) [
  | inl e ↦ rw e
  | inr (t, e) ↦ let (a, b, c, k) = h t in rw (e, a, b, c, k)
]

pub in_folder-faults : (f : Folder → Folder) (d : Disk) → (in_folder f d).faults ≡ d.faults
unfolding in_folder
in_folder-faults f d = elim (Option-cases d.transaction) [ inl e ↦ rw e | inr (t, e) ↦ rw e ]

-- The transaction's directory is there.
pub has_folder : Disk → Bool
has_folder d = elim d.transaction [ none ↦ false | some t ↦ true ]

pub store_tree-saved : (a : Area) (o : Option Node) (d : Disk) → saved (store_tree a o d) ≡ saved d
unfolding store_tree saved
store_tree-saved installation o d = refl
store_tree-saved staging o d = in_folder-saved (λ t. record t { stage = o }) d (λ t. refl)
store_tree-saved backups o d = in_folder-saved (λ t. record t { backup = o }) d (λ t. refl)

store_tree-marks : (a : Area) (o : Option Node) (d : Disk) → marks (store_tree a o d) ≡ marks d
unfolding store_tree marks
store_tree-marks installation o d = refl
store_tree-marks staging o d =
    in_folder-marks (λ t. record t { stage = o }) d (λ t. (refl, refl, refl, refl))
store_tree-marks backups o d =
    in_folder-marks (λ t. record t { backup = o }) d (λ t. (refl, refl, refl, refl))

store_tree-faults : (a : Area) (o : Option Node) (d : Disk) → (store_tree a o d).faults ≡ d.faults
unfolding store_tree
store_tree-faults installation o d = refl
store_tree-faults staging o d = in_folder-faults (λ t. record t { stage = o }) d
store_tree-faults backups o d = in_folder-faults (λ t. record t { backup = o }) d

tree-store_other :
    (a b : Area) (o : Option Node) (d : Disk)
    → is_area a b ≡ false
    → tree b (store_tree a o d) ≡ tree b d
unfolding store_tree tree in_folder
tree-store_other installation installation o d h = cc
tree-store_other installation staging o d h = refl
tree-store_other installation backups o d h = refl
tree-store_other staging installation o d h = elim (Option-cases d.transaction) [
  | inl e ↦ rw e
  | inr (t, e) ↦ rw e
]
tree-store_other staging staging o d h = cc
tree-store_other staging backups o d h = elim (Option-cases d.transaction) [
  | inl e ↦ rw e
  | inr (t, e) ↦ rw e
]
tree-store_other backups installation o d h = elim (Option-cases d.transaction) [
  | inl e ↦ rw e
  | inr (t, e) ↦ rw e
]
tree-store_other backups staging o d h = elim (Option-cases d.transaction) [
  | inl e ↦ rw e
  | inr (t, e) ↦ rw e
]
tree-store_other backups backups o d h = cc

-- A stored tree is read back, where there is a directory for it.
tree-store_same :
    (a : Area) (o : Option Node) (d : Disk)
    → (tree a (store_tree a o d) ≡ o) ⊎ ((tree a d ≡ none) × (tree a (store_tree a o d) ≡ none))
unfolding store_tree tree in_folder
tree-store_same installation o d = inl refl
tree-store_same staging o d = elim (Option-cases d.transaction) [
  | inl e ↦ inr (rw e, rw e)
  | inr (t, e) ↦ inl (rw e)
]
tree-store_same backups o d = elim (Option-cases d.transaction) [
  | inl e ↦ inr (rw e, rw e)
  | inr (t, e) ↦ inl (rw e)
]

pub store_tree-Frame :
    (a : Area) (p : Place) (d : Disk) (o : Option Node)
    → ((q : Place) → is_apart p q ≡ true → look q o ≡ look q (tree a d))
    → Frame a p d (store_tree a o d)
store_tree-Frame a p d o h = record {
  apart = λ q s. elim (tree-store_same a o d) [
    | inl u ↦ ap (look q) u ∙ h q s
    | inr v ↦ ap (look q) (v.1 ∙ sym v.0)
  ];
  others = λ b s. tree-store_other a b o d s;
  journal = store_tree-saved a o d;
  talk = store_tree-marks a o d;
  calm = λ s. store_tree-faults a o d ∙ s;
}

store_result-Frame :
    (a : Area) (p : Place) (d : Disk) (r : Result Node)
    → ((q : Place) (m : Node)
        → is_apart p q ≡ true
        → r ≡ ok m
        → look q (some m) ≡ look q (tree a d))
    → Frame a p d (store_result a r d).1
unfolding store_result
store_result-Frame a p d (ok n) h = store_tree-Frame a p d (some n) (λ q s. h q n s refl)
store_result-Frame a p d (err e) h = Frame-refl

pub change-Effect :
    (a : Area) (p : Place) (f : Option Node → Result Node)
    → ((o : Option Node) (q : Place) (m : Node)
        → is_apart p q ≡ true
        → f o ≡ ok m
        → look q (some m) ≡ look q o)
    → Effect a p (change a f)
unfolding change
change-Effect a p f h = record {
  frame = λ d. store_result-Frame a p d (f (tree a d)) (λ q m s e. h (tree a d) q m s e);
}
