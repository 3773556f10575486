-- ===== src/Release/Collect.antt =====
-- `collect_files` of src/bin/release.rs, and the order of the paths in a package.
use freshen.Base.{not, List, [], ◌∷◌, ◌++◌, Option, none, some, nat_eq, if◌then◌else◌}
use freshen.Base.Bytes.{Bytes, text, join}
use freshen.Base.Bytes.Utf8.{is_utf8}
use freshen.Base.Outcome.{Result, ok, err, io, other, not_found, invalid, reject_if, ◌>>=◌, ◌>>◌}
use freshen.Storage.Tree.{Node, file, dir, link, special, Entries, end, entry, Place}
use freshen.Install.Listing.{to_slashes, text_le}

-- A message of the tool is an `invalid` error here: the tool prints an error and nothing else.
unfoldable mutual
  pub collect_entries : Place → Entries → Result (List Bytes)
  collect_entries folder end = ok []
  collect_entries folder (entry x n es) = do
    these ← collect_node (folder ++ x ∷ []) n
    rest ← collect_entries folder es
    ok (these ++ rest)

  pub collect_node : Place → Node → Result (List Bytes)
  collect_node p link = err (invalid (text "symlinks cannot be packaged in schema 1"))
  collect_node p special = err (invalid (text "special files cannot be packaged"))
  collect_node p (dir es) = collect_entries p es
  collect_node p (file c m) = do
    reject_if (not (is_utf8 (join b'/' p))) (invalid (text "non-Unicode filename"))
    ok (to_slashes (join b'/' p) ∷ [])

-- `fs::read_dir` of what is no directory fails.
unfoldable pub collect_files : Option Node → Result (List Bytes)
collect_files none = err (io not_found)
collect_files (some (dir es)) = collect_entries [] es
collect_files (some (file c m)) = err (io other)
collect_files (some link) = err (io other)
collect_files (some special) = err (io other)

-- `paths.sort()`
unfoldable pub insert_sorted : Bytes → List Bytes → List Bytes
insert_sorted x [] = x ∷ []
insert_sorted x (y ∷ ys) = if text_le x y then x ∷ y ∷ ys else y ∷ insert_sorted x ys

unfoldable pub sort : List Bytes → List Bytes
unfolding insert_sorted
sort [] = []
sort (x ∷ xs) = insert_sorted x (sort xs)
