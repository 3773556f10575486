-- ===== src/Storage.antt =====
-- src/fsutil.rs: the file operations of the installer, on the disk of an installation.
pub mod Tree
pub mod Lookup
pub mod Frames
pub mod Effects
pub mod Contents
pub mod Retries
use freshen.Base.{
  ℕ, zero, suc, Bool, true, false, not, List, [], ◌∷◌, ◌++◌, Option, none, some, if◌then◌else◌,
}
use freshen.Base.Bytes.{Bytes, split, join}
use freshen.Base.Outcome.{Result, ok, err, Error, IoKind, io, denied, not_found, other, unsafe_path}
use freshen.Base.Exec.{Exec, lift, pure, ◌>>=◌, ◌>>◌}
use freshen.SafePath.{check_path}
use freshen.Storage.Tree.{
  Node, file, dir, link, special, Entries, end, entry, get, Place, look, make_dirs, put, cut,
  parent,
}

-- `.freshen/transaction`: its files as texts, its directories and the helper's program as nodes.
pub record Folder : Type 0 where
  pub plan : Option Bytes
  pub journal : Option Bytes
  pub stage : Option Node
  pub backup : Option Node
  pub previous_bundle : Option Node
  pub helper : Option Node
  pub ready : Option Bytes
  pub cancel : Option Bytes
  pub confirmed : Option Bytes
  pub helper_error : Option Bytes

abbrev pub empty_folder : Folder
empty_folder = record {
  plan = none;
  journal = none;
  stage = none;
  backup = none;
  previous_bundle = none;
  helper = none;
  ready = none;
  cancel = none;
  confirmed = none;
  helper_error = none;
}

-- The disk of an installation: its root without `.freshen`, the transaction, whether a link stands
-- in the place of one of these two directories, whether another process holds the lock, and the
-- canonical path of the root.
-- `faults` says which of the next calls of the operating system fail, `clock` what the next tests
-- of a deadline find.
pub record Disk : Type 0 where
  pub root : Option Node
  pub transaction : Option Folder
  pub is_redirected : Bool
  pub is_locked : Bool
  pub path : Bytes
  pub faults : List (Option IoKind)
  pub clock : List Bool

-- The directory that a path is joined to.
pub data Area : Type 0 where
  installation staging backups : Area

unfoldable pub tree : Area → Disk → Option Node
tree installation d = d.root
tree staging d = elim d.transaction [ none ↦ none | some t ↦ t.stage ]
tree backups d = elim d.transaction [ none ↦ none | some t ↦ t.backup ]

-- A change of the transaction's directory, where there is one.
unfoldable pub in_folder : (Folder → Folder) → Disk → Disk
in_folder f d = elim d.transaction [ none ↦ d | some t ↦ record d { transaction = some (f t) } ]

unfoldable pub store_tree : Area → Option Node → Disk → Disk
unfolding in_folder
store_tree installation o d = record d { root = o }
store_tree staging o d = in_folder (λ t. record t { stage = o }) d
store_tree backups o d = in_folder (λ t. record t { backup = o }) d

-- A call of the operating system, which may fail.
unfoldable pub call_with : List (Option IoKind) → Exec Disk (Unit {0})
call_with [] d = (ok tt, d)
call_with (none ∷ rest) d = (ok tt, record d { faults = rest })
call_with (some kind ∷ rest) d = (err (io kind), record d { faults = rest })

unfoldable pub call : Exec Disk (Unit {0})
unfolding call_with
call d = call_with d.faults d

unfoldable pub store_result : Area → Result Node → Exec Disk (Unit {0})
unfolding store_tree
store_result a (ok n) d = (ok tt, store_tree a (some n) d)
store_result a (err e) d = (err e, d)

unfoldable pub change : Area → (Option Node → Result Node) → Exec Disk (Unit {0})
unfolding store_result
change a f d = store_result a (f (tree a d)) d

-- The loop of `checked_join` over the components, from what stands at the root.
unfoldable pub check_links : Bytes → Option Node → Place → Result (Unit {0})
check_links path o [] = ok tt
check_links path none (x ∷ p) = check_links path none p
check_links path (some (file c m)) (x ∷ p) = err (io other)
check_links path (some special) (x ∷ p) = err (io other)
check_links path (some link) (x ∷ p) = err (unsafe_path path)
check_links path (some (dir es)) (x ∷ p) = elim (get es x) [
  | none ↦ check_links path none p
  | some link ↦ err (unsafe_path path)
  | some (dir fs) ↦ check_links path (some (dir fs)) p
  | some (file c m) ↦ check_links path (some (file c m)) p
  | some special ↦ check_links path (some special) p
]

-- A checked path has normal components only.
unfoldable pub checked_join : Area → Bytes → Exec Disk Place
checked_join a relative d =
    (do
      call
      lift (check_links relative (tree a d) (split b'/' relative))
      pure (split b'/' relative))
      d

unfoldable pub safe_join : Area → Bytes → Exec Disk Place
unfolding checked_join
safe_join a relative = do lift (check_path relative); checked_join a relative

unfoldable pub copy_file : Node → Area → Place → Exec Disk (Unit {0})
copy_file n a p = do call; change a (make_dirs (parent p)); call; change a (put p n); call

-- `copy_tree` of what stands at the source. A refused node is named by its place.
unfoldable mutual
  pub copy_tree : Node → Area → Place → Exec Disk (Unit {0})
  copy_tree (file c m) a p = copy_file (file c m) a p
  copy_tree link a p = lift (err (unsafe_path (join b'/' p)))
  copy_tree special a p = lift (err (unsafe_path (join b'/' p)))
  copy_tree (dir es) a p = do call; change a (make_dirs p); copy_entries es a p; call

  pub copy_entries : Entries → Area → Place → Exec Disk (Unit {0})
  copy_entries end a p = pure tt
  copy_entries (entry x n es) a p = do copy_tree n a (p ++ x ∷ []); copy_entries es a p

unfoldable pub copy_found : Option Node → Area → Place → Exec Disk (Unit {0})
copy_found none a q = lift (err (io not_found))
copy_found (some n) a q = copy_tree n a q

unfoldable pub copy_from : Area → Place → Area → Place → Exec Disk (Unit {0})
unfolding copy_found
copy_from source p a q = do call; λ d. copy_found (look p (tree source d)) a q d

-- `Instant::now() < deadline`
unfoldable pub read_clock : List Bool → Exec Disk Bool
read_clock [] d = (ok false, d)
read_clock (b ∷ rest) d = (ok b, record d { clock = rest })

unfoldable pub in_time : Exec Disk Bool
unfolding read_clock
in_time d = read_clock d.clock d

abbrev pub is_denied : Error → Bool
is_denied (io denied) = true
is_denied _ = false

-- One round of the loop: `again` is the next one.
unfoldable pub retry_early : Error → Exec Disk (Unit {0}) → Bool → Exec Disk (Unit {0})
retry_early e again early =
    if early then (if is_denied e then again else lift (err e)) else lift (err e)

unfoldable pub retry : Exec Disk (Unit {0}) → Result (Unit {0}) → Exec Disk (Unit {0})
unfolding retry_early
retry again (ok u) = pure u
retry again (err e) = do early ← in_time; retry_early e again early

-- A round sleeps 200 ms and the deadline is 10 s away, so that at most 50 rounds sleep.
unfoldable pub copy_retrying : ℕ → Area → Place → Area → Place → Exec Disk (Unit {0})
copy_retrying zero source p a q = copy_from source p a q
copy_retrying (suc rounds) source p a q =
    let again = copy_retrying rounds source p a q in
    λ d. retry again (copy_from source p a q d).0 (copy_from source p a q d).1

unfoldable pub copy_tree_with_retry : Area → Place → Area → Place → Exec Disk (Unit {0})
unfolding copy_retrying
copy_tree_with_retry = copy_retrying 50

unfoldable pub cut_tree : Area → Place → Exec Disk (Unit {0})
cut_tree a p = do call; λ d. (ok tt, store_tree a (cut p (tree a d)) d)

unfoldable pub remove_found : Option Node → Area → Place → Exec Disk (Unit {0})
unfolding cut_tree
remove_found none a p = pure tt
remove_found (some link) a p = lift (err (unsafe_path (join b'/' p)))
remove_found (some (file c m)) a p = cut_tree a p
remove_found (some (dir es)) a p = cut_tree a p
remove_found (some special) a p = cut_tree a p

unfoldable pub remove_tree : Area → Place → Exec Disk (Unit {0})
unfolding remove_found
remove_tree a p = do call; λ d. remove_found (look p (tree a d)) a p d
