-- ===== src/Tests/Releases.antt =====
-- The release tool: concrete tools over the crates, runs of the commands, and the theorems at them.
use freshen.Base.{
  list_beq, any, all, contains, ℕ, ◌+◌, ◌≡◌, refl, sym, ap, true, false, [], ◌∷◌, ◌++◌, Option,
  none, some, arith, length, ◌==◌, nat_eq, list_eq, ==_refl, subst, map,
}
use mathlib.Core.List.{reverse, reverse-append}
use freshen.Base.Bytes.{
  Bytes, text, split, lower, rsplit_once, starts_with, strip_prefix, upper, is_ascii_hexdigit,
  is_ascii,
}
use freshen.Base.Bytes.Utf8.{is_utf8}
use freshen.SafePath.{check_path, check_parts, is_bad_byte, is_bad_part, is_device, stem}
use freshen.Trust.{signing_domain, signing_message}
use freshen.Base.Bytes.Trim.{trim, whitespace, strip_any, trim_stop}
use freshen.Base.Outcome.{ok}
use freshen.Crates.{Crates}
use freshen.Manifest.{
  ReleaseManifest, check_ancestors, has_file_ancestor, validate, check_artifacts, check_artifact,
  check_hash, check_files,
}
use freshen.Storage.Tree.{file, dir, Entries, end, entry}
use freshen.Install.Listing.{list_files, list_node, insert_path, text_le}
use freshen.Release.{
  Tools, Desk, create, create_found, write_all, find_file, read_at, step_with, step, write_new,
}
use freshen.Release.Sign.{keygen, sign}
use freshen.Release.Merge.{merge, differs, load_manifest, merge_rest}
use freshen.Release.Collect.{collect_files}
use freshen.Release.Signed.{Scheme, Accepted, Keys, sign-verify, keygen-Keys}
use freshen.Release.Merged.{Merged, merge-Merged}
use freshen.Release.Listed.{HasTexts, Agree, AllTexts, collect_files-list_files}
use freshen.Tests.Fixtures.{crates, archive, release}

-- A text between two marks stands for its Base64.
abbrev encode : Bytes → Bytes
encode s = b'=' ∷ (s ++ (b'=' ∷ []))

init : Bytes → Bytes
init [] = []
init (c ∷ []) = []
init (c ∷ d ∷ s) = c ∷ init (d ∷ s)

abbrev decode : Bytes → Option Bytes
decode [] = none
decode (c ∷ s) = some (init s)

abbrev sum : Bytes → ℕ
sum [] = 0
sum (c ∷ s) = c + sum s

-- A document is the version and the target of its release.
abbrev parse : Bytes → Option (ReleaseManifest ℕ ℕ)
parse (v ∷ t ∷ []) =
    some (record (release v) { artifacts = record archive { target = t ∷ [] } ∷ [] })
parse _ = none

-- A signature is the sum of the key and the sum of the message.
abbrev desk_crates : Crates
desk_crates = record crates {
  decode_base64 = decode;
  verify_strict = λ k m s. s == (sum k ∷ sum m ∷ []);
  parse_manifest = parse;
}

abbrev tools : Tools desk_crates
tools = record {
  encode_base64 = encode;
  public_key = λ s. s;
  sign = λ s m. sum s ∷ sum m ∷ [];
  print_manifest = λ m. m.version ∷ length m.artifacts ∷ [];
  parse_version = λ s. some (length s);
  version_eq = nat_eq;
  try_url = λ s. some (length s);
  write_zip = λ es. length es ∷ [];
  sees = λ p fs. true;
}

init_lem : (s : Bytes) → init (s ++ (b'=' ∷ [])) ≡ s
unfolding init
init_lem [] = refl
init_lem (c ∷ []) = refl
init_lem (c ∷ d ∷ s) = ap (λ t. c ∷ t) (init_lem (d ∷ s))

mirrored : (s : Bytes) → reverse (encode s) ≡ b'=' ∷ reverse (b'=' ∷ s)
mirrored s = reverse-append (b'=' ∷ s) (b'=' ∷ [])

trim-encode : (s : Bytes) → trim (encode s) ≡ encode s
unfolding strip_any
trim-encode s =
    trim_stop (encode s) refl
      (subst (λ t. strip_any (map reverse whitespace) t ≡ none) (sym (mirrored s)) refl)

scheme : Scheme desk_crates tools
scheme = record {
  decode = λ s. rw (trim-encode s) (ap some (init_lem s));
  short = λ s m. (omega arith);
  key = λ s. s;
  has_key = λ s h. refl;
  signature = λ s m. sum s ∷ sum m ∷ [];
  has_signature = λ s m. refl;
  verifies = λ s m h. ==_refl (sum s ∷ sum m ∷ []);
}

abbrev seed : Bytes
seed = let t = text "12345678" in t ++ (t ++ (t ++ t))

abbrev desk : Desk
desk = record {
  files =
      (text "key", encode seed) ∷ (text "one", 1 ∷ b'a' ∷ []) ∷ (text "two", 1 ∷ b'b' ∷ []) ∷ [];
  folders = λ p. none;
  faults = [];
  random = ok seed;
}

keygen_test : (keygen desk_crates tools (text "new") (text "pub") desk).0 ≡ ok tt
unfolding keygen list_beq text step
keygen_test = refl

sign_test : (sign desk_crates tools (text "key") (text "one") (text "sig") desk).0 ≡ ok tt
unfolding sign list_beq text split lower rsplit_once starts_with strip_prefix upper any
    check_ancestors has_file_ancestor create create_found write_all find_file read_at step_with step
    write_new check_parts is_bad_byte is_bad_part is_device stem signing_domain signing_message
    is_utf8 trim strip_any init validate check_artifacts contains check_artifact check_hash all
    is_ascii_hexdigit check_files check_path is_ascii
sign_test = refl

merge_test : (merge desk_crates tools (text "out") (text "one") (text "two" ∷ []) desk).0 ≡ ok tt
unfolding merge differs load_manifest merge_rest list_beq text split lower rsplit_once starts_with
    strip_prefix upper any check_ancestors has_file_ancestor create create_found write_all find_file
    read_at step_with step write_new check_parts is_bad_byte is_bad_part is_device stem
    signing_domain signing_message is_utf8 trim strip_any init validate check_artifacts contains
    check_artifact check_hash all is_ascii_hexdigit check_files check_path is_ascii
merge_test = refl

keygen-Keys_example :
    (s : Bytes) × Keys desk_crates tools
      (text "new")
      (text "pub")
      s
      desk
      (keygen desk_crates tools (text "new") (text "pub") desk).1
keygen-Keys_example =
    keygen-Keys desk_crates tools (text "new") (text "pub") desk {u = tt} keygen_test

sign-verify_example :
    Accepted desk_crates tools
      (text "key")
      (text "one")
      (text "sig")
      desk
      (sign desk_crates tools (text "key") (text "one") (text "sig") desk).1
sign-verify_example =
    sign-verify desk_crates tools scheme (text "key") (text "one") (text "sig") desk {u = tt}
      sign_test

merge-Merged_example :
    Merged desk_crates tools
      (text "out")
      (text "one")
      (text "two" ∷ [])
      desk
      (merge desk_crates tools (text "out") (text "one") (text "two" ∷ []) desk).1
merge-Merged_example =
    merge-Merged desk_crates tools (text "out") (text "one") (text "two" ∷ []) desk {u = tt}
      merge_test

abbrev tree : Entries
tree =
    entry (text "app") (file [] true)
      (entry (text "data") (dir (entry (text "a") (file [] false) end)) end)

tree-AllTexts : AllTexts [] tree
unfolding HasTexts is_utf8 text
tree-AllTexts = (refl, ((refl, tt), tt))

collect_files-list_files_example :
    Agree (collect_files (some (dir tree))) (list_files (some (dir tree)))
collect_files-list_files_example = collect_files-list_files tree tree-AllTexts

-- The set is in ascending order, whatever the order of the directory.
lists_sorted :
    list_files (some (dir (entry (text "b") (file [] true) tree)))
    ≡ ok (text "app" ∷ text "b" ∷ text "data/a" ∷ [])
unfolding list_files list_node insert_path text_le text list_beq
lists_sorted = refl
