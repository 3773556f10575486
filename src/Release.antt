-- ===== src/Release.antt =====
-- src/bin/release.rs: the tool that makes keys, packages and signatures. Here: the files it works on.
pub mod Files
pub mod Signed
pub mod Listed
pub mod Merged
pub mod Collect
pub mod Merge
pub mod Sign
pub mod Pack
use freshen.Base.{
  Bool, true, false, List, [], ◌∷◌, Option, none, some, Eq, ◌==◌, list_eq, nat_eq, if◌then◌else◌,
}
use freshen.Base.Bytes.{Bytes}
use freshen.Base.Outcome.{Result, ok, err, IoKind, io, not_found, other, ok_or}
use freshen.Base.Exec.{Exec, lift, pure, ◌>>=◌, ◌>>◌}
use freshen.Crates.{Crates, Manifest}
use freshen.Storage.Tree.{Node}

-- An entry of a package before it is compressed.
pub record Entry : Type 0 where
  pub path : Bytes
  pub executable : Bool
  pub content : Bytes

-- What the tool takes from other crates: `STANDARD.encode`, `SigningKey::from_bytes`, `sign` and
-- `verifying_key`, `serde_json::to_vec_pretty`, the parsers and the equality of versions, the parser of
-- URLs, and the bytes of a ZIP with the given entries.
pub record Tools (C : Crates) : Type 0 where
  pub encode_base64 : Bytes → Bytes
  pub public_key : Bytes → Bytes
  pub sign : Bytes → Bytes → Bytes
  pub print_manifest : Manifest C → Bytes
  pub parse_version : Bytes → Option C.Version
  pub version_eq : Eq C.Version
  pub try_url : Bytes → Option C.Url
  pub write_zip : List Entry → Bytes
  -- Whether the system answers when `Path::exists` asks.
  pub sees : Bytes → List (Bytes × Bytes) → Bool

-- The files by their paths, of which a later write shadows an earlier one, the directories, which of
-- the next calls of the system fail, and what `getrandom` gives.
pub record Desk : Type 0 where
  pub files : List (Bytes × Bytes)
  pub folders : Bytes → Option Node
  pub faults : List (Option IoKind)
  pub random : Result Bytes

unfoldable pub find_file : Bytes → List (Bytes × Bytes) → Option Bytes
find_file path [] = none
find_file path ((p, s) ∷ rest) = if p == path then some s else find_file path rest

unfoldable pub step_with : List (Option IoKind) → Exec Desk (Unit {0})
step_with [] d = (ok tt, d)
step_with (none ∷ rest) d = (ok tt, record d { faults = rest })
step_with (some kind ∷ rest) d = (err (io kind), record d { faults = rest })

-- A call of the system, which may fail.
unfoldable pub step : Exec Desk (Unit {0})
unfolding step_with
step d = step_with d.faults d

unfoldable pub read_at : Bytes → Exec Desk Bytes
unfolding find_file
read_at path = do step; λ d. (ok_or (find_file path d.files) (io not_found), d)

unfoldable pub write_all : Bytes → Bytes → Exec Desk (Unit {0})
write_all path bytes d = (ok tt, record d { files = (path, bytes) ∷ d.files })

-- `create_new(true)` refuses a file that is there.
unfoldable pub create_found : Option Bytes → Bytes → Exec Desk (Unit {0})
unfolding write_all
create_found none path = write_all path []
create_found (some s) path = lift (err (io other))

unfoldable pub create : Bytes → Exec Desk (Unit {0})
unfolding create_found
create path = do step; λ d. create_found (find_file path d.files) path d

unfoldable pub write_new : Bytes → Bytes → Exec Desk (Unit {0})
unfolding create
write_new path bytes = do create path; step; write_all path bytes; step
