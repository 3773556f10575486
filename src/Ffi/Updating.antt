-- ===== src/Ffi/Updating.antt =====
-- ffi/src/updater.rs: the settings of an updater, the sources, and the calls that check and prepare.
-- What the library does is a parameter here, but for the trust store.
pub mod Calls
pub mod Trusted
use freshen.Base.{
  ℕ, zero, suc, ◌*◌, Bool, true, false, ◌||◌, List, [], ◌∷◌, ◌++◌, Option, none, some, length, ltb,
  ◌==◌, nat_eq, if◌then◌else◌,
}
use freshen.Base.Bytes.{Bytes, text}
use freshen.Base.Outcome.{Result}
use freshen.Base.Exec.{Exec}
use freshen.Source.{ManifestLocation, ReleaseSource, manifests, index, manifest, git_hub}
use freshen.Crates.{Crates}
use freshen.Trust.{TrustStore, new}
use freshen.Updater.{Updater, Candidate, ReleaseNotes}
use freshen.Ffi.{
  Outcome, failed, Caller, Call, Texts, give, refuse, map_failure, from, decimal, signed_decimal,
  set_message, freshen_err_size_limit, run, ◌>>=◌, ◌>>◌,
}
use freshen.Ffi.Util.{take, cstr, handle, store, to_c_string}

-- `FreshenTransport`, of whose callback only that it is there is looked at here.
pub record TransportArguments : Type 0 where
  pub struct_size : ℕ
  pub has_download : Bool

-- `FreshenUpdaterConfig`, `FreshenLocation` and `FreshenSource`, with their sizes on a machine of 64 bits
pub record Config : Type 0 where
  pub struct_size : ℕ
  pub product : Option Bytes
  pub channel : Option Bytes
  pub current_version : Option Bytes
  pub target : Option Bytes
  pub trusted_keys : Option Bytes
  pub trusted_key_count : ℕ
  pub max_download : ℕ
  pub max_unpacked : ℕ
  pub http_timeout_secs : ℕ
  pub transport : Option TransportArguments

pub record Location : Type 0 where
  pub document : Option Bytes
  pub signature : Option Bytes

pub record SourceArguments : Type 0 where
  pub struct_size : ℕ
  pub kind : ℕ
  pub a : Option Bytes
  pub b : Option Bytes
  pub locations : Option (List Location)
  pub location_count : ℕ

abbrev pub drop : ℕ → Bytes → Bytes
drop zero s = s
drop (suc n) [] = []
drop (suc n) (c ∷ s) = drop n s

-- `as_chunks::<32>()`, by the number of the key_chunks.
unfoldable pub key_chunks : ℕ → Bytes → List Bytes
key_chunks zero s = []
key_chunks (suc n) s = take 32 s ∷ key_chunks n (drop 32 s)

abbrev pub seconds_of : ℕ → ℕ
seconds_of n = if n == 0 then 300 else n

module _ {T W : Type 0} where
  unfoldable pub check_size : ℕ → ℕ → Bytes → Call T W (Unit {0})
  unfolding refuse
  check_size actual minimum name =
      if ltb actual minimum then refuse (name ++ text ".struct_size is too small") else give tt

  unfoldable pub keys_at : Option Bytes → ℕ → Call T W (List Bytes)
  unfolding refuse key_chunks decimal
  keys_at none count = refuse (text "at least one trusted public key is required")
  keys_at (some bytes) count =
      if count == 0
      then refuse (text "at least one trusted public key is required")
      else (if ltb 32 count
          then refuse (
              text "config.trusted_key_count is "
              ++ (decimal count ++ text "; at most 32 keys are supported"))
          else give (key_chunks count (take (count * 32) bytes)))

  -- The keys of the settings.
  unfoldable pub trusted_keys : Config → Call T W (List Bytes)
  unfolding keys_at
  trusted_keys c = keys_at c.trusted_keys c.trusted_key_count

-- The transport that an updater uses: the one of the host, or HTTPS with a timeout.
pub data FfiTransport : Type 0 where
  http : ℕ → FfiTransport
  callback : FfiTransport

module _ (C : Crates) (t : Texts) where
  -- `FreshenUpdater`
  pub record Handle : Type 0 where
    pub updater : Updater C
    pub transport : FfiTransport

  -- What the calls take from `url` and `semver`, with the texts of their errors, and
  -- `HttpTransport::new`.
  pub record Parsers : Type 0 where
    pub try_url : Bytes → Option C.Url
    pub url_error : Bytes → Bytes
    pub parse_version : Bytes → Option C.Version
    pub version_error : Bytes → Bytes
    pub new_http : ℕ → Result (Unit {0})

  module _ (R : Parsers) {T W : Type 0} where
    unfoldable pub parsed_or : {A : Type 0} → Option A → Bytes → Call T W A
    unfolding refuse
    parsed_or none message = refuse message
    parsed_or (some a) message = give a

    unfoldable pub parse_url : Bytes → Bytes → Call T W C.Url
    unfolding parsed_or
    parse_url s name =
        parsed_or (R.try_url s) (name ++ (text " is not a valid URL: " ++ R.url_error s))

    url_at : Option Bytes → Bytes → Call T W C.Url
    unfolding cstr parse_url
    url_at pointer name = do s ← cstr pointer name; parse_url s name

    entries_of : List Location → Call T W (List (ManifestLocation C.Url))
    unfolding url_at
    entries_of [] = give []
    entries_of (l ∷ rest) = do
      document ← url_at l.document (text "location.document")
      signature ← url_at l.signature (text "location.signature")
      more ← entries_of rest
      give (record { document = document; signature = signature } ∷ more)

    too_many : SourceArguments → Call T W (ReleaseSource C.Url)
    unfolding set_message decimal
    too_many s c = (
      failed freshen_err_size_limit,
      set_message
          (text "source lists "
            ++ (decimal s.location_count ++ text " manifest locations; at most 100 are supported"))
          c,
    )

    unfoldable pub manifests_source : SourceArguments → Call T W (ReleaseSource C.Url)
    unfolding entries_of too_many refuse
    manifests_source s =
        if ltb 100 s.location_count
        then too_many s
        else (if s.location_count == 0 then give (manifests []) else elim s.locations [
          | none ↦ refuse (text "source.locations must not be null")
          | some ls ↦ do found ← entries_of (take s.location_count ls); give (manifests found)
        ])

    unfoldable pub source_of : SourceArguments → Call T W (ReleaseSource C.Url)
    unfolding url_at cstr manifests_source refuse signed_decimal
    source_of s =
        if s.kind == 1
        then (do document ← url_at s.a (text "source.a"); give (index document))
        else (if s.kind == 2
            then (do
              document ← url_at s.a (text "source.a")
              signature ← url_at s.b (text "source.b")
              give (manifest document signature))
            else (if s.kind == 3
                then (do
                  owner ← cstr s.a (text "source.a")
                  repository ← cstr s.b (text "source.b")
                  give (git_hub owner repository))
                else (if s.kind == 4
                    then manifests_source s
                    else refuse (text "unknown source kind " ++ signed_decimal s.kind))))

    unfoldable pub build_source : Option SourceArguments → Call T W (ReleaseSource C.Url)
    unfolding handle check_size source_of
    build_source source = do
      s ← handle source (text "source")
      check_size s.struct_size 48 (text "source")
      source_of s

    unfoldable pub transport_at : Option TransportArguments → ℕ → Call T W FfiTransport
    unfolding check_size refuse map_failure decimal
    transport_at none seconds =
        if ltb 86400 seconds
        then refuse (
            text "config.http_timeout_secs is "
            ++ (decimal seconds ++ text "; the maximum is 86400"))
        else (do map_failure t (R.new_http (seconds_of seconds)); give (http (seconds_of seconds)))
    transport_at (some custom) seconds = do
      check_size custom.struct_size 24 (text "transport")
      if custom.has_download
          then give callback
          else refuse (text "transport.download must not be null")

    unfoldable pub transport_of : Config → Call T W FfiTransport
    unfolding transport_at
    transport_of c = transport_at c.transport c.http_timeout_secs

    unfoldable pub updater_of : Config → Call T W Handle
    unfolding check_size cstr parsed_or trusted_keys map_failure transport_of
    updater_of c = do
      check_size c.struct_size 88 (text "config")
      version ← cstr c.current_version (text "config.current_version")
      current_version ←
          parsed_or (R.parse_version version)
            (text "config.current_version is not semver: " ++ R.version_error version)
      keys ← trusted_keys c
      trust ← map_failure t (new C keys)
      transport ← transport_of c
      product ← cstr c.product (text "config.product")
      channel ← cstr c.channel (text "config.channel")
      target ← cstr c.target (text "config.target")
      give (record {
        updater = record {
          product = product;
          channel = channel;
          current_version = current_version;
          target = target;
          trust = trust;
          max_download = c.max_download;
          max_unpacked = c.max_unpacked;
        };
        transport = transport;
      })
