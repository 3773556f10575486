-- ===== src/Storage/Tree.antt =====
-- A tree of files: what a directory of the file system holds, and the changes at a place in it.
use freshen.Base.{
  Bool, false, not, ◌||◌, List, [], ◌∷◌, Option, none, some, ◌==◌, nat_eq, list_eq, if◌then◌else◌,
}
use freshen.Base.Bytes.{Bytes}
use freshen.Base.Outcome.{Result, ok, err, io, not_found, other, ◌>>=◌}

-- A regular file has contents and the executable bit; `special` is a device, a socket or a pipe.
mutual
  pub data Node : Type 0 where
    file : Bytes → Bool → Node
    dir : Entries → Node
    link : Node
    special : Node

  pub data Entries : Type 0 where
    end : Entries
    entry : Bytes → Node → Entries → Entries

unfoldable pub get : Entries → Bytes → Option Node
get end name = none
get (entry x n es) name = if x == name then some n else get es name

-- Replaces the entry of a name, or adds one at the end.
unfoldable pub set : Entries → Bytes → Node → Entries
set end name m = entry name m end
set (entry x n es) name m = if x == name then entry x m es else entry x n (set es name m)

unfoldable pub delete : Entries → Bytes → Entries
delete end name = end
delete (entry x n es) name = let rest = delete es name in if x == name then rest else entry x n rest

-- The components of a path below a directory.
abbrev pub Place : Type 0
Place = List Bytes

-- What stands at a place, under what stands at its start.
unfoldable pub look : Place → Option Node → Option Node
look [] o = o
look (x ∷ p) none = none
look (x ∷ p) (some (dir es)) = look p (get es x)
look (x ∷ p) (some (file c m)) = none
look (x ∷ p) (some link) = none
look (x ∷ p) (some special) = none

-- `fs::create_dir_all`
unfoldable pub make_dirs : Place → Option Node → Result Node
make_dirs [] none = ok (dir end)
make_dirs [] (some (dir es)) = ok (dir es)
make_dirs [] (some (file c m)) = err (io other)
make_dirs [] (some link) = err (io other)
make_dirs [] (some special) = err (io other)
make_dirs (x ∷ p) none = do n ← make_dirs p none; ok (dir (entry x n end))
make_dirs (x ∷ p) (some (dir es)) = do n ← make_dirs p (get es x); ok (dir (set es x n))
make_dirs (x ∷ p) (some (file c m)) = err (io other)
make_dirs (x ∷ p) (some link) = err (io other)
make_dirs (x ∷ p) (some special) = err (io other)

-- A rename to a place: it replaces what stands there, but no directory.
unfoldable pub put : Place → Node → Option Node → Result Node
put [] n none = ok n
put [] n (some (dir es)) = err (io other)
put [] n (some (file c m)) = ok n
put [] n (some link) = ok n
put [] n (some special) = ok n
put (x ∷ p) n none = err (io not_found)
put (x ∷ p) n (some (dir es)) = do m ← put p n (get es x); ok (dir (set es x m))
put (x ∷ p) n (some (file c m)) = err (io other)
put (x ∷ p) n (some link) = err (io other)
put (x ∷ p) n (some special) = err (io other)

abbrev pub replace : Entries → Bytes → Option Node → Entries
replace es name none = delete es name
replace es name (some n) = set es name n

-- The removal of what stands at a place.
unfoldable pub cut : Place → Option Node → Option Node
cut [] o = none
cut (x ∷ p) none = none
cut (x ∷ p) (some (dir es)) = some (dir (replace es x (cut p (get es x))))
cut (x ∷ p) (some (file c m)) = some (file c m)
cut (x ∷ p) (some link) = some link
cut (x ∷ p) (some special) = some special

-- The directory of a place, and the test that neither of two places stands above the other.
unfoldable pub parent : Place → Place
parent [] = []
parent (x ∷ []) = []
parent (x ∷ y ∷ p) = x ∷ parent (y ∷ p)

unfoldable pub is_apart : Place → Place → Bool
is_apart [] q = false
is_apart (x ∷ p) [] = false
is_apart (x ∷ p) (y ∷ q) = not (x == y) || is_apart p q
