-- ===== src/Install/Listing.antt =====
-- `list_files` of src/install.rs.
use freshen.Base.{
  Bool, true, false, ◌&&◌, ◌||◌, ltb, List, [], ◌∷◌, ◌++◌, map, Option, none, some, ◌==◌, list_eq,
  nat_eq, all, contains, if◌then◌else◌,
}
use freshen.Base.Bytes.{Bytes, join}
use freshen.Base.Outcome.{Result, ok, err, unsafe_path, io, not_found, other, ◌>>=◌}
use freshen.Storage.Tree.{Node, file, dir, link, special, Entries, end, entry, Place}

-- `.replace('\\', "/")`
abbrev pub to_slashes : Bytes → Bytes
to_slashes = map (λ c. if c == 92 then b'/' else c)

-- The order of `String`, by bytes.
unfoldable pub text_le : Bytes → Bytes → Bool
text_le [] t = true
text_le (c ∷ s) [] = false
text_le (c ∷ s) (d ∷ t) = ltb c d || (c == d && text_le s t)

-- `BTreeSet::insert`, on the ascending list of the set.
unfoldable pub insert_path : Bytes → List Bytes → List Bytes
insert_path x [] = x ∷ []
insert_path x (y ∷ ys) =
    let rest = insert_path x ys in
    if x == y then y ∷ ys else if text_le x y then x ∷ y ∷ ys else y ∷ rest

-- With the set that is filled so far as the last argument.
unfoldable mutual
  unfolding insert_path

  pub list_entries : Place → Entries → List Bytes → Result (List Bytes)
  list_entries folder end output = ok output
  list_entries folder (entry x n es) output = do
    filled ← list_node (folder ++ x ∷ []) n output
    list_entries folder es filled

  pub list_node : Place → Node → List Bytes → Result (List Bytes)
  list_node p link output = err (unsafe_path (join b'/' p))
  list_node p special output = err (unsafe_path (join b'/' p))
  list_node p (file c m) output = ok (insert_path (to_slashes (join b'/' p)) output)
  list_node p (dir es) output = list_entries p es output

-- `fs::read_dir` of what is no directory fails.
unfoldable pub list_files : Option Node → Result (List Bytes)
list_files none = err (io not_found)
list_files (some (dir es)) = list_entries [] es []
list_files (some (file c m)) = err (io other)
list_files (some link) = err (io other)
list_files (some special) = err (io other)

-- The equality of two sets.
unfoldable pub same_set : List Bytes → List Bytes → Bool
same_set xs ys = all (contains ys) xs && all (contains xs) ys
