-- ===== src/Install/Apply.antt =====
-- `apply` and `rollback_inner` of src/install.rs.
use freshen.Base.{
  Bool, true, false, not, ◌&&◌, List, [], ◌∷◌, ◌++◌, Option, none, some, list_eq, nat_eq, contains,
  if◌then◌else◌,
}
use mathlib.Core.List.{reverse}
use freshen.Base.Bytes.{Bytes, text}
use freshen.Base.Outcome.{Result, ok, err, recovery, unsafe_path, io, not_found, reject_if}
use freshen.Base.Exec.{Exec, lift, pure, ◌>>=◌, ◌>>◌}
use freshen.Crates.{Crates}
use freshen.Policy.{InstallLayout, portable, bundle, items}
use freshen.Storage.{
  Disk, Folder, installation, staging, backups, call, change, tree, store_tree, in_folder,
  safe_join, copy_from, copy_tree_with_retry, remove_tree,
}
use freshen.Storage.Tree.{Node, dir, end, Place, look, put, cut}
use freshen.Install.{
  Platform, Plan, seen, at_item, at_backup, at_backup_kind, Journal, InstallState, prepared,
  applying, awaiting_confirmation, rolling_back, rolled_back, with_state, with_detail, verify_plan,
}
use freshen.Install.Folders.{transaction, save_journal, load_journal}
use freshen.Install.Stage.{verify_stage}

-- `BTreeSet::insert`
abbrev pub insert_item : Bytes → List Bytes → List Bytes
insert_item item xs = if contains xs item then xs else item ∷ xs

abbrev pub add_existing : Bytes → Journal → Journal
add_existing item j = record j { existing = insert_item item j.existing }

abbrev pub add_touched : Bytes → Journal → Journal
add_touched item j = record j { touched = j.touched ++ item ∷ [] }

abbrev pub is_prepared : InstallState → Bool
is_prepared prepared = true
is_prepared _ = false

abbrev pub is_dir : Node → Bool
is_dir (dir es) = true
is_dir _ = false

-- `fs::create_dir_all(&backup)`
unfoldable pub add_backup : Folder → Folder
add_backup t = elim t.backup [ none ↦ record t { backup = some (dir end) } | some b ↦ t ]

unfoldable pub make_backup : Exec Disk (Unit {0})
unfolding add_backup
make_backup = do call; λ d. (ok tt, in_folder add_backup d)

-- The loop that captures the rollback set.
unfoldable pub back_up_found : Option Node → Bytes → Place → Journal → Exec Disk Journal
back_up_found none item p j = pure j
back_up_found (some n) item p j = do
  q ← safe_join backups item
  copy_from installation p backups q
  pure (add_existing item j)

module _ (S : Platform) where
  -- `destination.exists()`, which is false when the call fails: the item is not copied then.
  unfoldable pub back_up_item : Bytes → Place → Journal → Exec Disk Journal
  unfolding back_up_found
  back_up_item item p j d =
      back_up_found (seen (S.sees (at_item p) d) (look p (tree installation d))) item p j d

  unfoldable pub back_up : List Bytes → Journal → Exec Disk Journal
  unfolding back_up_item
  back_up [] j = pure j
  back_up (item ∷ rest) j = do
    p ← safe_join installation item
    j' ← back_up_item item p j
    back_up rest j'

-- The bundle that is seen at the destination is renamed to `previous-bundle`.
unfoldable pub move_aside : Option Node → Place → Exec Disk (Unit {0})
move_aside none p = pure tt
move_aside (some n) p = do
  call
  λ e. (
    ok tt,
    in_folder (λ t. record t { previous_bundle = some n })
        (store_tree installation (cut p (tree installation e)) e),
  )

-- The staged bundle is renamed to the destination.
unfoldable pub move_in : Place → Place → Exec Disk (Unit {0})
move_in q p d = elim (look q (tree staging d)) [
  | none ↦ (err (io not_found), d)
  | some n ↦
      (do
        call
        change installation (put p n)
        λ e. (ok tt, store_tree staging (cut q (tree staging e)) e))
        d
]

module _ (S : Platform) where
  unfoldable pub place_item : InstallLayout → Bytes → Place → Exec Disk (Unit {0})
  place_item (portable owned executable directories) item p = do
    q ← safe_join staging item
    copy_tree_with_retry staging q installation p
  place_item (bundle name executable bundle_id team_id) item p = do
    λ d. move_aside (seen (S.sees (at_item p) d) (look p (tree installation d))) p d
    q ← safe_join staging item
    move_in q p
    call

-- A call on the disk, with the journal in memory beside it.
abbrev pub on_disk : {A : Type 0} → Exec Disk A → Exec (Journal × Disk) A
on_disk m w = let (r, d) = m w.1 in (r, (w.0, d))

abbrev pub edit : (Journal → Journal) → Exec (Journal × Disk) (Unit {0})
edit f w = (ok tt, (f w.0, w.1))

module _ (S : Platform) where
  abbrev pub save : Exec (Journal × Disk) (Unit {0})
  save w = on_disk (save_journal S w.0) w

  -- The intent is written before the target is changed.
  abbrev pub note : Bytes → Exec (Journal × Disk) (Unit {0})
  note item = do edit (add_touched item); save

  -- The loop that installs, up to the state that awaits the confirmation.
  unfoldable pub install_items : InstallLayout → List Bytes → Exec (Journal × Disk) (Unit {0})
  install_items layout [] = do edit (with_state awaiting_confirmation); save
  install_items layout (item ∷ rest) = do
    p ← on_disk (safe_join installation item)
    note item
    on_disk (place_item S layout item p)
    install_items layout rest

-- The body of the loop in `rollback_inner`.
unfoldable pub put_back_found : Bool → Option Node → Bytes → Place → Place → Exec Disk (Unit {0})
put_back_found sees none item q p = lift (err (recovery (text "missing backup for " ++ item)))
put_back_found sees (some n) item q p = do
  if is_dir n && sees then remove_tree installation p else pure tt
  copy_tree_with_retry backups q installation p

module _ (S : Platform) where
  -- `source.exists()` and `source.is_dir()` are false when the call fails.
  unfoldable pub put_back : Bytes → Place → Exec Disk (Unit {0})
  unfolding put_back_found
  put_back item p = do
    q ← safe_join backups item
    λ d.
        put_back_found (S.sees (at_backup_kind q) d)
          (seen (S.sees (at_backup q) d) (look q (tree backups d))) item q p d

  unfoldable pub restore_at : Journal → Bytes → Place → Exec Disk (Unit {0})
  unfolding put_back
  restore_at j item p =
      if contains j.existing item then put_back item p else remove_tree installation p

  unfoldable pub restore_item : List Bytes → Journal → Bytes → Exec Disk (Unit {0})
  restore_item allowed j item = do
    lift (reject_if (not (contains allowed item)) (unsafe_path item))
    p ← safe_join installation item
    restore_at j item p

  unfoldable pub restore_items : List Bytes → Journal → List Bytes → Exec Disk (Unit {0})
  restore_items allowed j [] = pure tt
  restore_items allowed j (item ∷ rest) = do
    restore_item allowed j item
    restore_items allowed j rest

module _ (C : Crates) (S : Platform) where
  unfoldable pub rollback_inner : Plan → Journal → Exec Disk Journal
  rollback_inner plan j = do
    v ← lift (verify_plan C S plan)
    transaction
    save_journal S (with_state rolling_back j)
    restore_items S (items plan.policy v.1) j (reverse j.touched)
    save_journal S (with_state rolled_back j)
    pure (with_state rolled_back j)

  -- `if let Err(error) = result`
  unfoldable pub settle : Plan → Result (Unit {0}) → Journal → Exec Disk (Unit {0})
  settle plan (ok u) j = pure u
  settle plan (err e) j = do
    restored ← rollback_inner plan (with_detail (S.display e) j)
    lift (err e)

  unfoldable pub run_install : Plan → List Bytes → Journal → Exec Disk (Unit {0})
  run_install plan names j d =
      let (r, w) = install_items S plan.policy.layout names (j, d) in settle plan r w.0 w.1

  -- From the capture of the rollback set on.
  unfoldable pub apply_from : Plan → List Bytes → Journal → Exec Disk (Unit {0})
  apply_from plan names j = do
    make_backup
    j' ← back_up S names j
    save_journal S (with_state applying j')
    run_install plan names (with_state applying j')

  unfoldable pub apply : Plan → Exec Disk (Unit {0})
  unfolding apply_from
  apply plan = do
    verify_stage C S plan
    v ← lift (verify_plan C S plan)
    transaction
    j ← load_journal S
    lift (
        reject_if (not (is_prepared j.status.state))
          (recovery (text "transaction is not prepared")))
    apply_from plan (items plan.policy v.1) j
