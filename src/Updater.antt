-- ===== src/Updater.antt =====
-- src/updater.rs: the search for the newest applicable release (`Updater::check`).
pub mod History
pub mod Consider
pub mod Check
pub mod Newest
use freshen.Base.{
  ℕ, ◌+◌, ◌*◌, ◌≡◌, Bool, true, false, not, ◌&&◌, ◌||◌, List, [], ◌∷◌, ◌++◌, length, is_empty,
}
use freshen.Base.{
  Option, none, some, ltb, all, find, contains, Eq, ◌==◌, nat_eq, list_eq, if◌then◌else◌,
}
use freshen.Base.Bytes.{Bytes, text, is_ascii_alphanumeric}
use freshen.Base.Bytes.Utf8.{is_utf8}
use freshen.Base.Outcome.{Result, ok, err, invalid, signature, size_limit, json, reject_if, ok_or}
use freshen.Base.Exec.{Exec, lift, pure, ◌>>=◌, ◌>>◌}
use freshen.Manifest.{Artifact, ReleaseManifest}
use freshen.Source.{
  ManifestLocation, ReleaseSource, manifests, index, manifest, git_hub, GitHubAsset, GitHubRelease,
}
use freshen.Crates.{Crates, Manifest, Package}
use freshen.Trust.{SignedManifest, TrustStore, verify}
use freshen.Transport.{Host, Event, checking, check_cancelled, report, fetch}

abbrev pub stable : Bytes
stable = text "stable"

module _ (C : Crates) where
  pub record ReleaseNotes : Type 0 where
    pub version : C.Version
    pub notes : Bytes

  pub record Updater : Type 0 where
    pub product : Bytes
    pub channel : Bytes
    pub current_version : C.Version
    pub target : Bytes
    pub trust : TrustStore
    pub max_download : ℕ
    pub max_unpacked : ℕ

  pub record Candidate : Type 0 where
    pub signed : SignedManifest
    pub release : Manifest C
    pub artifact : Package C
    pub history : List ReleaseNotes

  -- `history` and `best` of the loop in `check`; the map is the list of its entries in order.
  pub record Scan : Type 0 where
    pub best : Option Candidate
    pub history : List ReleaseNotes

  abbrev pub before : C.Version → C.Version → Bool
  before a b = not (C.version_le b a)

  -- `BTreeMap::insert`: the map, and the value that it returns.
  unfoldable pub insert : C.Version → Bytes → List ReleaseNotes → List ReleaseNotes
  insert v n [] = record { version = v; notes = n } ∷ []
  insert v n (x ∷ xs) =
      if before v x.version
      then record { version = v; notes = n } ∷ x ∷ xs
      else if before x.version v
      then x ∷ insert v n xs
      else record { version = x.version; notes = n } ∷ xs

  unfoldable pub replaced : C.Version → List ReleaseNotes → Option Bytes
  replaced v [] = none
  replaced v (x ∷ xs) =
      if before v x.version
      then none
      else if before x.version v
      then replaced v xs
      else some x.notes

  abbrev pub conflicts : Option Bytes → Bytes → Bool
  conflicts none notes = false
  conflicts (some previous) notes = not (previous == notes)

  -- `best.as_ref().is_some_and(|c| c.release.version >= version)`
  abbrev pub is_covered : Option Candidate → C.Version → Bool
  is_covered none v = false
  is_covered (some c) v = C.version_le v c.release.version

  abbrev pub is_target : Bytes → Package C → Bool
  is_target target a = a.target == target

  -- The end of the loop's body, for a release with an artifact for the target.
  unfoldable pub select : SignedManifest → Manifest C → Package C → Scan → Result Scan
  unfolding insert replaced
  select signed release artifact scan =
      let history = insert release.version release.notes scan.history in
      if conflicts (replaced release.version scan.history) release.notes
      then err (invalid (text "conflicting release notes for the same version"))
      else if is_covered scan.best release.version
      then ok (record { best = scan.best; history = history })
      else ok (record {
        best =
            some (record { signed = signed; release = release; artifact = artifact; history = [] });
        history = history;
      })

  -- The tests of the product, the channel and the version.
  unfoldable pub is_skipped : Updater → Manifest C → Bool
  is_skipped u release =
      (not (release.product == u.product) || not (release.channel == u.channel))
      || (C.version_le release.version u.current_version
          || (u.channel == stable && not (C.pre_is_empty release.version)))

  -- The loop's body behind the downloads.
  unfoldable pub consider : Updater → SignedManifest → Scan → Result Scan
  consider u signed scan = elim (verify C u.trust signed) [
    | err e ↦ err e
    | ok release ↦
        if is_skipped u release
        then ok scan
        else elim (find (is_target u.target) release.artifacts) [
          | none ↦ ok scan
          | some artifact ↦ select signed release artifact scan
        ]
  ]

  -- The history is stored in the candidate at the end.
  unfoldable pub with_history : Scan → Option Candidate
  with_history scan = elim scan.best [
    | none ↦ none
    | some c ↦ some (record c { history = scan.history })
  ]

  -- `filter` and `filter_map` over the releases that GitHub lists.
  abbrev pub named : Bytes → GitHubAsset C.Url → Bool
  named name a = a.name == name

  unfoldable pub location_of : GitHubRelease C.Url → Option (ManifestLocation C.Url)
  location_of r = elim (find (named (text "freshen-manifest.json")) r.assets) [
    | none ↦ none
    | some d ↦ elim (find (named (text "freshen-manifest.json.sig")) r.assets) [
      | none ↦ none
      | some s ↦
          some (record { document = d.browser_download_url; signature = s.browser_download_url })
    ]
  ]

  unfoldable pub locations_of : Updater → List (GitHubRelease C.Url) → List (ManifestLocation C.Url)
  locations_of u [] = []
  locations_of u (r ∷ rest) =
      let more = locations_of u rest in
      if not r.draft && (not r.prerelease || not (u.channel == stable))
      then elim (location_of r) [ none ↦ more | some l ↦ l ∷ more ]
      else more

  is_name_byte : ℕ → Bool
  is_name_byte c = is_ascii_alphanumeric c || contains (text "-_.") c

  unfoldable pub is_bad_name : Bytes → Bool
  unfolding is_name_byte
  is_bad_name value = is_empty value || not (all is_name_byte value)

  unfoldable pub releases_url : Bytes → Bytes → Bytes
  releases_url owner repository =
      text "https://api.github.com/repos/"
      ++ (owner ++ (text "/" ++ (repository ++ text "/releases?per_page=100")))

  module _ (H : Host C.Url) where
    -- The `match source` in `check`.
    unfoldable pub locate :
        Updater → ReleaseSource C.Url → Exec H.World (List (ManifestLocation C.Url))
    locate u (manifests locations) = do
      lift (reject_if (ltb 100 (length locations)) size_limit)
      pure locations
    locate u (index document) = do
      bytes ← fetch H document (1024 * 1024)
      lift (ok_or (C.parse_locations bytes) json)
    locate u (manifest d s) = pure (record { document = d; signature = s } ∷ [])
    locate u (git_hub owner repository) = do
      lift (
          reject_if (is_bad_name owner || is_bad_name repository)
            (invalid (text "GitHub owner or repository")))
      bytes ← fetch H (C.parse_url (releases_url owner repository)) (8 * (1024 * 1024))
      releases ← lift (ok_or (C.parse_releases bytes) json)
      lift (reject_if (ltb 100 (length releases)) size_limit)
      pure (locations_of u releases)

    -- The download of one manifest and its signature.
    unfoldable pub fetch_signed : ManifestLocation C.Url → Exec H.World SignedManifest
    fetch_signed l = do
      document ← fetch H l.document (1024 * 1024)
      bytes ← fetch H l.signature 1024
      lift (reject_if (not (is_utf8 bytes)) signature)
      pure (record { document = document; signature = bytes })

    abbrev pub is_seen : List (ManifestLocation C.Url) → ManifestLocation C.Url → Bool
    is_seen [] l = false
    is_seen (x ∷ xs) l =
        (C.url_eq.beq x.document l.document && C.url_eq.beq x.signature l.signature) || is_seen xs l

    -- `for ManifestLocation { document, signature } in pairs`
    unfoldable pub scan_locations :
        Updater
        → List (ManifestLocation C.Url)
        → List (ManifestLocation C.Url)
        → Scan
        → Exec H.World Scan
    scan_locations u seen [] scan = pure scan
    scan_locations u seen (l ∷ rest) scan = do
      check_cancelled H
      scan' ←
          if is_seen seen l
          then pure scan
          else do signed ← fetch_signed l; lift (consider u signed scan)
      scan_locations u (if is_seen seen l then seen else l ∷ seen) rest scan'

    unfoldable pub check : Updater → ReleaseSource C.Url → Exec H.World (Option Candidate)
    check u source = do
      report H checking
      check_cancelled H
      pairs ← locate u source
      lift (reject_if (ltb 100 (length pairs)) size_limit)
      scan ← scan_locations u [] pairs (record { best = none; history = [] })
      pure (with_history scan)
