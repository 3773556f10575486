-- ===== src/Tests/Packages.antt =====
-- A download and the extraction of a package.
use freshen.Base.{ℕ, suc}
use freshen.Base.{
  ◌+◌, ◌≤◌, ◌≡◌, refl, true, false, [], ◌∷◌, none, All, NoRepeat, length, all, any, find, contains,
  list_beq, List,
}
use freshen.Base.Bytes.{Bytes, text, split, starts_with, upper, lower, is_ascii}
use freshen.Base.Outcome.{ok}
use freshen.SafePath.{check_path, is_bad_part, is_device, is_bad_byte, stem}
use freshen.Transport.Http.{UrlParts, Response, download}
use freshen.Transport.Http.Limit.{IsBounded, download-IsBounded}
use freshen.Archive.{
  Chunk, ZipEntry, Unpacked, inventory, trim_end, unpack, extract_file, extract_kind, extract_entry,
  extract_entries, extract,
}
use freshen.Archive.Sound.{IsListed, folded_paths, bytes_of, extract-inverse}
use freshen.Base.Bytes.{rsplit_once, is_ascii_hexdigit}
use freshen.Base.Bytes.Trim.{trim}
use freshen.Manifest.{
  validate, check_artifacts, check_artifact, check_files, check_ancestors, has_file_ancestor,
  check_hash,
}
use freshen.Trust.{verify, accepts, signing_message, signing_domain}
use freshen.Transport.{Host, check_cancelled, report}
use freshen.Updater.{Candidate}
use freshen.Prepare.{PreparedUpdate, prepare}
use freshen.Prepare.Prepared.{IsPrepared, prepare-inverse}
use freshen.Tests.Fixtures.{crates, archive, digest, signed, release, store, updater}

-- Two bytes a round, without an end.
abbrev endless : Response
endless = record {
  content_length = none;
  rounds = λ i. record { is_cancelled = false; read = ok (text "ab"); write = ok tt };
}

abbrev url : UrlParts
url = record { scheme = text "https"; username = []; password = none }

download-IsBounded_example : IsBounded 5 (download (5 + 2) url 5 false (ok endless))
download-IsBounded_example = download-IsBounded url 5 false (ok endless)

abbrev chunks : List Chunk
chunks =
    record { is_cancelled = false; read = ok (text "ab"); write = ok tt }
    ∷ record { is_cancelled = false; read = ok (text "c"); write = ok tt }
    ∷ record { is_cancelled = false; read = ok []; write = ok tt }
    ∷ []

abbrev zipped : Bytes → ZipEntry
zipped name = record {
  is_cancelled = false;
  found = ok tt;
  name = name;
  unix_mode = none;
  is_dir = false;
  size = 3;
  create = ok tt;
  chunks = chunks;
  sync = ok tt;
}

abbrev zip : List ZipEntry
zip =
    record (zipped (text "sounds/")) { is_dir = true }
    ∷ zipped (text "app.exe")
    ∷ zipped (text "sounds/die4.opus")
    ∷ []

abbrev unpacked : List Unpacked
unpacked =
    record { path = text "sounds/die4.opus"; content = text "abc"; executable = false }
    ∷ record { path = text "app.exe"; content = text "abc"; executable = true }
    ∷ []

extracted : extract crates zip archive 1000 ≡ ok unpacked
unfolding extract extract_entries extract_entry extract_kind extract_file unpack trim_end inventory
    text all any find contains list_beq check_path is_bad_part is_device is_bad_byte stem split
    starts_with upper lower is_ascii
extracted = refl

extract-inverse_example :
    All (IsListed crates (inventory archive.files) 1000) unpacked
    × ((length unpacked ≡ length (inventory archive.files))
        × (NoRepeat (folded_paths crates (inventory archive.files) 1000 unpacked)
            × (bytes_of crates (inventory archive.files) 1000 unpacked ≤ 1000)))
extract-inverse_example = extract-inverse crates zip archive 1000 extracted

-- A server of one package of 64 bytes.
abbrev server : Host ℕ
server = record {
  World = ℕ;
  load = λ w. (false, w);
  emit = λ e w. w;
  download = λ u limit w. (record { result = ok 64; written = digest; events = [] }, suc w);
}

abbrev candidate : Candidate crates
candidate = record {
  signed = signed 2;
  release = release 2;
  artifact = record archive { size = 64 };
  history = [];
}

abbrev prepared_update : PreparedUpdate crates
prepared_update = record { stage = unpacked; candidate = candidate; trust = store }

preparing :
    (prepare crates server (λ b. ok zip) (ok tt) (ok tt) updater candidate 0).0 ≡ ok prepared_update
unfolding extracted prepare check_cancelled report verify accepts signing_message signing_domain
    trim validate check_artifacts check_artifact check_files check_ancestors has_file_ancestor
    check_hash is_ascii_hexdigit rsplit_once
preparing = refl

prepare-inverse_example :
    IsPrepared crates server (λ b. ok zip) updater prepared_update
    × (prepared_update.candidate ≡ candidate)
prepare-inverse_example =
    prepare-inverse crates server (λ b. ok zip) updater (ok tt) (ok tt) candidate 0 preparing
