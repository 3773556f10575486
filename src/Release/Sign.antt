-- ===== src/Release/Sign.antt =====
-- The commands `keygen` and `sign` of src/bin/release.rs.
use freshen.Base.{
  ◌*◌, Bool, false, not, ◌||◌, Option, none, some, length, ltb, ◌==◌, list_eq, nat_eq,
}
use freshen.Base.Bytes.{Bytes, text}
use freshen.Base.Bytes.Trim.{trim}
use freshen.Base.Bytes.Utf8.{is_utf8}
use freshen.Base.Outcome.{invalid, io, other, json, reject_if, ok_or}
use freshen.Base.Exec.{Exec, lift, ◌>>=◌, ◌>>◌}
use freshen.Crates.{Crates}
use freshen.Manifest.{validate}
use freshen.Trust.{signing_message}
use freshen.Release.{Tools, Desk, find_file, read_at, write_new}

-- `Path::exists`, which is false when the call fails.
abbrev pub path_exists : Bool → Option Bytes → Bool
path_exists sees none = false
path_exists sees (some s) = sees

module _ (C : Crates) (T : Tools C) where
  unfoldable pub keygen : Bytes → Bytes → Exec Desk (Unit {0})
  unfolding write_new find_file
  keygen private public d =
      (do
        lift (
            reject_if
              (path_exists (T.sees private d.files) (find_file private d.files)
                || path_exists (T.sees public d.files) (find_file public d.files)
                || private == public)
              (invalid (text "key output paths must be distinct and must not already exist")))
        seed ← lift d.random
        write_new private (T.encode_base64 seed)
        write_new public (T.encode_base64 (T.public_key seed)))
        d

  unfoldable pub sign : Bytes → Bytes → Bytes → Exec Desk (Unit {0})
  unfolding read_at write_new signing_message
  sign private manifest signature = do
    encoded ← read_at private
    lift (reject_if (not (is_utf8 encoded)) (io other))
    seed ← lift (ok_or (C.decode_base64 (trim encoded)) (invalid (text "Invalid base64")))
    lift (reject_if (not (length seed == 32)) (invalid (text "private key must contain 32 bytes")))
    document ← read_at manifest
    lift (reject_if (ltb (1024 * 1024) (length document)) (invalid (text "manifest exceeds 1 MiB")))
    release ← lift (ok_or (C.parse_manifest document) json)
    lift (validate release)
    write_new signature (T.encode_base64 (T.sign seed (signing_message document)))
