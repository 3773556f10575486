-- ===== src/Tests/Fixtures.antt =====
-- Crates, manifests and a host to run the model on.
use freshen.Base.{
  ℕ, suc, ◌+◌, ◌-◌, ◌≡◌, ◌⊎◌, true, false, [], ◌∷◌, ◌++◌, Option, none, some, arith, leb, ◌==◌,
  nat_eq, list_eq, if◌then◌else◌,
}
use freshen.Base.Bytes.{Bytes, text}
use freshen.Base.Outcome.{ok}
use freshen.Manifest.{PackageFile, Artifact, ReleaseManifest, files}
use freshen.Source.{ManifestLocation}
use freshen.Crates.{Crates, IsTotalOrder}
use freshen.Trust.{SignedManifest, TrustStore, signing_message}
use freshen.Transport.{Host}
use freshen.Updater.{Updater}

abbrev pub digest : Bytes
digest = let d = text "0123456789abcdef" in d ++ (d ++ (d ++ d))

abbrev pub app : PackageFile
app = record { path = text "app.exe"; sha256 = digest; size = 3; executable = true }

abbrev pub sound : PackageFile
sound = record { path = text "sounds/die4.opus"; sha256 = digest; size = 3; executable = false }

abbrev pub archive : Artifact ℕ
archive = record {
  target = text "test-target";
  kind = files;
  url = 7;
  sha256 = digest;
  size = 100;
  files = app ∷ sound ∷ [];
}

abbrev pub release : ℕ → ReleaseManifest ℕ ℕ
release v = record {
  schema = 1;
  product = text "test-app";
  channel = text "stable";
  version = v;
  notes = text "notes";
  artifacts = archive ∷ [];
}

-- The document of a release is the one byte of its version.
abbrev parse : Bytes → Option (ReleaseManifest ℕ ℕ)
parse (v ∷ []) = some (release v)
parse _ = none

-- Versions are numbers, and a signature is the key followed by the message.
abbrev pub crates : Crates
crates = record {
  Version = ℕ;
  version_le = leb;
  pre_is_empty = λ v. true;
  Url = ℕ;
  url_eq = nat_eq;
  decode_base64 = λ s. some s;
  Signature = Bytes;
  signature_from_slice = λ s. some s;
  VerifyingKey = Bytes;
  key_from_bytes = λ s. some s;
  is_weak = λ k. k == [];
  verify_strict = λ k m s. s == (k ++ m);
  sha256 = λ s. digest;
  parse_manifest = parse;
  parse_locations = λ s. none;
  parse_releases = λ s. none;
  parse_url = λ s. 0;
}

leb_total : (a b : ℕ) → (leb a b ≡ true) ⊎ (leb b a ≡ true)
leb_total a b = ground arith

leb_trans : (a b c : ℕ) → leb a b ≡ true → leb b c ≡ true → leb a c ≡ true
leb_trans a b c p q = ground arith

leb_antisym : (a b : ℕ) → leb a b ≡ true → leb b a ≡ true → a ≡ b
leb_antisym a b p q = ground arith

pub crates-IsTotalOrder : IsTotalOrder crates
crates-IsTotalOrder = record { total = leb_total; trans = leb_trans; antisym = leb_antisym }

abbrev pub key : Bytes
key = text "k"

abbrev pub store : TrustStore
store = record { keys = key ∷ [] }

abbrev pub signed : ℕ → SignedManifest
signed v = record { document = v ∷ []; signature = key ++ signing_message (v ∷ []) }

abbrev pub updater : Updater crates
updater = record {
  product = text "test-app";
  channel = text "stable";
  current_version = 1;
  target = text "test-target";
  trust = store;
  max_download = 1000;
  max_unpacked = 1000;
}

-- Location v holds the document of release v, location 100 + v its signature. The world counts the
-- downloads.
abbrev serve : ℕ → Bytes
serve u = if leb 100 u then (signed (u - 100)).signature else (signed u).document

abbrev pub host : Host ℕ
host = record {
  World = ℕ;
  load = λ w. (false, w);
  emit = λ e w. w;
  download = λ u limit w. (record { result = ok 0; written = serve u; events = [] }, suc w);
}

abbrev pub location : ℕ → ManifestLocation ℕ
location v = record { document = v; signature = v + 100 }
