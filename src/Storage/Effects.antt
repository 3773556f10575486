-- ===== src/Storage/Effects.antt =====
-- Which places the operations of src/fsutil.rs change.
use freshen.Base.{
  inl, inr, Bool, true, false, [], ◌∷◌, ◌++◌, Option, none, some, nat_eq, list_eq, Bool-cases, ℕ,
  zero, suc,
}
use freshen.Base.Bytes.{Bytes, split}
use freshen.Base.Outcome.{Result, ok, err, Error}
use freshen.Base.Exec.{Exec}
use freshen.SafePath.{check_path}
use freshen.Storage.Tree.{
  Node, file, dir, link, special, Entries, end, entry, Place, look, make_dirs, put, cut, parent,
}
use freshen.Storage.Lookup.{
  look-put_apart, look-make_dirs, look-make_dirs_at, look-cut_apart, apart-below,
}
use freshen.Storage.{
  Disk, Area, tree, call, change, copy_file, copy_tree, copy_entries, copy_found, copy_from, retry,
  retry_early, is_denied, copy_retrying, copy_tree_with_retry, cut_tree, remove_found, remove_tree,
  check_links, checked_join, safe_join,
}
use freshen.Storage.Frames.{
  Frame-trans, Effect, >>=-Effect, pure-Effect, lift-Effect, call-Effect, in_time-Effect,
  change-Effect, store_tree-Frame,
}

pub dirs-Effect : (a : Area) (p : Place) → Effect a p (change a (make_dirs (parent p)))
dirs-Effect a p = change-Effect a p (make_dirs (parent p)) (λ o q m s e. look-make_dirs p q o s e)

pub copy_file-Effect : (n : Node) (a : Area) (p : Place) → Effect a p (copy_file n a p)
unfolding copy_file
copy_file-Effect n a p =
    let rename = change-Effect a p (put p n) (λ o q m s e. look-put_apart p q n o s e) in
    >>=-Effect call-Effect (λ _.
      >>=-Effect (dirs-Effect a p)
        (λ _. >>=-Effect call-Effect (λ _. >>=-Effect rename (λ _. call-Effect))))

below-Effect :
    {A : Type 0} {a : Area} {p : Place} {m : Exec Disk A} (x : Bytes)
    → Effect a (p ++ x ∷ []) m
    → Effect a p m
below-Effect {p} x h = record {
  frame = λ d. record {
    apart = λ q s. (h.frame d).apart q (apart-below p q x s);
    others = (h.frame d).others;
    journal = (h.frame d).journal;
    talk = (h.frame d).talk;
    calm = (h.frame d).calm;
  };
}

mutual
  unfolding copy_tree copy_entries

  pub copy_tree-Effect : (n : Node) (a : Area) (p : Place) → Effect a p (copy_tree n a p)
  copy_tree-Effect (file c m) a p = copy_file-Effect (file c m) a p
  copy_tree-Effect link a p = lift-Effect
  copy_tree-Effect special a p = lift-Effect
  copy_tree-Effect (dir es) a p =
      let dirs = change-Effect a p (make_dirs p) (λ o q m s e. look-make_dirs_at p q o s e) in
      >>=-Effect call-Effect
        (λ _. >>=-Effect dirs (λ _. >>=-Effect (copy_entries-Effect es a p) (λ _. call-Effect)))

  copy_entries-Effect : (es : Entries) (a : Area) (p : Place) → Effect a p (copy_entries es a p)
  copy_entries-Effect end a p = pure-Effect
  copy_entries-Effect (entry x n es) a p =
      >>=-Effect (below-Effect x (copy_tree-Effect n a (p ++ x ∷ [])))
        (λ _. copy_entries-Effect es a p)

copy_found-Effect : (o : Option Node) (a : Area) (p : Place) → Effect a p (copy_found o a p)
unfolding copy_found
copy_found-Effect none a p = lift-Effect
copy_found-Effect (some n) a p = copy_tree-Effect n a p

pub copy_from-Effect :
    (source : Area) (q : Place) (a : Area) (p : Place) → Effect a p (copy_from source q a p)
unfolding copy_from
copy_from-Effect source q a p =
    >>=-Effect call-Effect
      (λ _. record { frame = λ d. (copy_found-Effect (look q (tree source d)) a p).frame d })

retry_early-Effect :
    (e : Error) (a : Area) (p : Place) (again : Exec Disk (Unit {0})) (early : Bool)
    → Effect a p again
    → Effect a p (retry_early e again early)
unfolding retry_early
retry_early-Effect e a p again false h = lift-Effect
retry_early-Effect e a p again true h = elim (Bool-cases (is_denied e)) [
  | inl t ↦ rw t h
  | inr f ↦ rw f lift-Effect
]

retry-Effect :
    (a : Area) (p : Place) (again : Exec Disk (Unit {0})) (r : Result (Unit {0}))
    → Effect a p again
    → Effect a p (retry again r)
unfolding retry
retry-Effect a p again (ok u) h = pure-Effect
retry-Effect a p again (err e) h =
    >>=-Effect in_time-Effect (λ early. retry_early-Effect e a p again early h)

copy_retrying-Effect :
    (rounds : ℕ) (source : Area) (q : Place) (a : Area) (p : Place)
    → Effect a p (copy_retrying rounds source q a p)
unfolding copy_retrying
copy_retrying-Effect zero source q a p = copy_from-Effect source q a p
copy_retrying-Effect (suc rounds) source q a p =
    let ih = copy_retrying-Effect rounds source q a p in
    record {
      frame = λ d. Frame-trans ((copy_from-Effect source q a p).frame d) (
          (retry-Effect a p (copy_retrying rounds source q a p) (copy_from source q a p d).0
              ih).frame
            (copy_from source q a p d).1);
    }

pub copy_tree_with_retry-Effect :
    (source : Area) (q : Place) (a : Area) (p : Place)
    → Effect a p (copy_tree_with_retry source q a p)
unfolding copy_tree_with_retry
copy_tree_with_retry-Effect source q a p = copy_retrying-Effect 50 source q a p

cut_tree-Effect : (a : Area) (p : Place) → Effect a p (cut_tree a p)
unfolding cut_tree
cut_tree-Effect a p = >>=-Effect call-Effect (λ _. record {
  frame = λ d. store_tree-Frame a p d (cut p (tree a d)) (λ q s. look-cut_apart p q (tree a d) s);
})

remove_found-Effect : (o : Option Node) (a : Area) (p : Place) → Effect a p (remove_found o a p)
unfolding remove_found
remove_found-Effect none a p = pure-Effect
remove_found-Effect (some link) a p = lift-Effect
remove_found-Effect (some (file c m)) a p = cut_tree-Effect a p
remove_found-Effect (some (dir es)) a p = cut_tree-Effect a p
remove_found-Effect (some special) a p = cut_tree-Effect a p

pub remove_tree-Effect : (a : Area) (p : Place) → Effect a p (remove_tree a p)
unfolding remove_tree
remove_tree-Effect a p =
    >>=-Effect call-Effect
      (λ _. record { frame = λ d. (remove_found-Effect (look p (tree a d)) a p).frame d })

checked_join-Effect : (b : Area) (s : Bytes) {a : Area} {p : Place} → Effect a p (checked_join b s)
unfolding checked_join
checked_join-Effect b s {a} {p} = record {
  frame = λ d.
      (>>=-Effect {m = call} call-Effect (λ _.
          >>=-Effect (lift-Effect {r = check_links s (tree b d) (split b'/' s)})
            (λ _. pure-Effect {x = split b'/' s}))).frame
        d;
}

-- A join reads only.
pub safe_join-Effect : (b : Area) (s : Bytes) {a : Area} {p : Place} → Effect a p (safe_join b s)
unfolding safe_join
safe_join-Effect b s = >>=-Effect (lift-Effect {r = check_path s}) (λ _. checked_join-Effect b s)
