-- ===== src/Install/Restore.antt =====
-- What the journal and the backup keep of the installation as it was before.
use freshen.Base.{
  ◌≡◌, ◌⊎◌, Bool, true, false, List, Option, none, some, contains, list_eq, nat_eq, Member,
}
use freshen.Base.Bytes.{Bytes, split}
use freshen.Storage.Tree.{Node, file, Place, look, is_apart}
use freshen.Storage.{Disk, installation, backups, tree}
use freshen.Install.{Journal}

abbrev pub place : Bytes → Place
place item = split b'/' item

-- The root as it was, and the items of the transaction.
module _ (old : Option Node) (names : List Bytes) where
  -- Each item is a regular file or is not there.
  abbrev pub HoldsFiles : Type 0
  HoldsFiles =
      (x : Bytes)
      → Member x names
      → (look (place x) old ≡ none)
        ⊎ ((c : Bytes) × ((m : Bool) × (look (place x) old ≡ some (file c m))))

  -- No item stands above another one.
  abbrev pub AreApart : Type 0
  AreApart =
      (x y : Bytes)
      → Member x names
      → Member y names
      → (x ≡ y) ⊎ (is_apart (place x) (place y) ≡ true)

  abbrev pub IsRestored : Bytes → Disk → Type 0
  IsRestored x d = look (place x) (tree installation d) ≡ look (place x) old

  abbrev pub AreRestored : Disk → Type 0
  AreRestored d = (x : Bytes) → Member x names → IsRestored x d

-- `Sighted` says that no look of `apply` at an item has failed: only then is an item that was not
-- copied known to have been missing.
module _ (Sighted : Type 0) (old : Option Node) (names : List Bytes) where
  -- The backup of an item, or the knowledge that there was none.
  abbrev pub IsCovered : List Bytes → Bytes → Disk → Type 0
  IsCovered existing x d =
      (contains existing x ≡ true
        → look (place x) (tree backups d) ≡ look (place x) old
          × ((c : Bytes) × ((m : Bool) × (look (place x) old ≡ some (file c m)))))
      × (contains existing x ≡ false → Sighted → look (place x) old ≡ none)

  -- An item that is not touched is as it was, and each item that is touched is covered.
  abbrev pub IsSafe : Journal → Disk → Type 0
  IsSafe j d =
      (x : Bytes)
      → Member x names
      → (¬ Member x j.touched → IsRestored old names x d)
        × (Member x j.touched → IsCovered j.existing x d)
