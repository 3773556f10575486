-- ===== src/Updater/Newest.antt =====
-- `Updater::check` as a whole: what it offers, and that it misses no release that it downloaded.
use freshen.Base.{◌≤◌, ◌≡◌, refl, ap, subst, true, List, [], Option, none, some, length, ltb}
use freshen.Base.{arith, Member, All}
use freshen.Base.Outcome.{ok, ok-injective, reject_if, reject_if-eq-ok, size_limit}
use freshen.Base.Exec.{lift, bind-known}
use freshen.Crates.{Crates, Manifest, IsTotalOrder}
use freshen.Source.{ManifestLocation, ReleaseSource}
use freshen.Trust.{SignedManifest}
use freshen.Transport.{Host, checking, check_cancelled, report}
use freshen.Updater.{
  ReleaseNotes, Updater, Candidate, Scan, with_history, locate, scan_locations, check,
}
use freshen.Updater.History.{Entry, IsAscending}
use freshen.Updater.Consider.{IsOffer, IsNoteOf, IsNewest, IsSound}
use freshen.Updater.Check.{
  pair_of, consider_all, Fetches, scan_locations-inverse, consider_all-IsSound,
}

module _ (C : Crates) (u : Updater C) where
  -- An offer of the newest release, with the history that leads to it.
  pub record IsUpdate (c : Candidate C) : Type 0 where
    pub offer : IsOffer C u c.signed c.release c.artifact
    pub ascending : IsAscending C c.history
    pub notes : All (IsNoteOf C u) c.history
    pub own_notes : Member (Entry C c.release.version c.release.notes) c.history
    pub newest : IsNewest C u c.release.version c.history

  abbrev pub start : Scan C
  start = record { best = none; history = [] }

  IsSound-start : IsSound C u start
  IsSound-start = record { ascending = tt; notes = tt; best = refl }

  IsUpdate-of_IsSound :
      (best : Option (Candidate C)) (history : List (ReleaseNotes C)) (c : Candidate C)
      → with_history C (record { best = best; history = history }) ≡ some c
      → IsSound C u (record { best = best; history = history })
      → IsUpdate c
  unfolding with_history
  IsUpdate-of_IsSound none history c h sound = cc
  IsUpdate-of_IsSound (some b) history c h sound =
      let same : record b { history = history } ≡ c = ground arith in
      subst IsUpdate same (record {
        offer = sound.best.0;
        ascending = sound.ascending;
        notes = sound.notes;
        own_notes = sound.best.1;
        newest = sound.best.2;
      })

  -- A release with an entry in a sound history is not newer than the best candidate.
  abbrev pub Covers : Option (Candidate C) → Manifest C → Type 0
  Covers r m =
      (c : Candidate C) × (r ≡ some c)
      × (C.version_le m.version c.release.version ≡ true)
      × Member (Entry C m.version m.notes) c.history

module _ (C : Crates) (H : Host C.Url) (u : Updater C) where
  -- The world after the report that the check begins, and the first look at a cancellation.
  abbrev pub begun : H.World → H.World
  begun w = (check_cancelled H (report H checking w).1).1

  -- A run of `check` from a world that returned: the locations, and what it has downloaded from
  -- there to the world in which the call ends.
  pub record IsRun (source : ReleaseSource C.Url) (w : H.World) (r : Option (Candidate C))
      : Type 0 where
    pub locations : List (ManifestLocation C.Url)
    pub located : (locate C H u source (begun w)).0 ≡ ok locations
    pub few : length locations ≤ 100
    pub scan : Scan C
    pub downloaded : List SignedManifest
    pub fetched :
        Fetches C H [] locations
          (locate C H u source (begun w)).1
          downloaded
          (check C H u source w).1
    pub considered : consider_all C u downloaded (start C u) ≡ ok scan
    pub result : with_history C scan ≡ r

  -- A call of `check` that returns has located at most 100 manifests and has then, up to the world
  -- in which it ends, downloaded exactly the locations that do not have both the document and the
  -- signature of an earlier one, once each and in order, documents up to 1 MiB and then signatures
  -- up to 1024 bytes that are UTF-8, and its result is that of considering these downloads one
  -- after the other.
  pub check-IsRun :
      (source : ReleaseSource C.Url) (w : H.World) {r : Option (Candidate C)}
      → (check C H u source w).0 ≡ ok r
      → IsRun source w r
  unfolding check
  check-IsRun source w {r} h =
      let v = (check C H u source w).1 in
      let (v1, e1, h1) =
        bind-known (report H checking) _ w (pair_of (check C H u source w) r v h refl) in
      let (v2, e2, h2) = bind-known (check_cancelled H) _ (report H checking w).1 h1 in
      let (locations, located, h3) = bind-known (locate C H u source) _ (begun w) h2 in
      let w3 = (locate C H u source (begun w)).1 in
      let (v4, e4, h4) =
        bind-known (lift (reject_if (ltb 100 (length locations)) size_limit)) _ w3 h3 in
      let (scan, e5, h5) = bind-known (scan_locations C H u [] locations (start C u)) _ w3 h4 in
      let last = (scan_locations C H u [] locations (start C u) w3).1 in
      let (ss, f, c) =
        scan_locations-inverse C H u [] locations (start C u) w3
          (pair_of (scan_locations C H u [] locations (start C u) w3) scan last e5 refl) in
      let fits = reject_if-eq-ok (ltb 100 (length locations)) size_limit e4 in
      record {
        locations = locations;
        located = located;
        few = ground arith;
        scan = scan;
        downloaded = ss;
        fetched = subst (Fetches C H [] locations w3 ss) (ap (λ p. p.1) h5) f;
        considered = c;
        result = ok-injective (ap (λ p. p.0) h5);
      }

module _ (C : Crates) (order : IsTotalOrder C) (H : Host C.Url) (u : Updater C) where
  -- For a total order of versions, a candidate that `check` returns is a verified manifest of this
  -- product and channel, newer than the current version and not a pre-release on the stable
  -- channel, with a package that it lists for the target. Its history is strictly ascending,
  -- consists of the notes of such releases, its own among them, and holds nothing newer.
  pub check-IsUpdate :
      (source : ReleaseSource C.Url) (w : H.World) (c : Candidate C)
      → (check C H u source w).0 ≡ ok (some c)
      → IsUpdate C u c
  check-IsUpdate source w c h =
      let run = check-IsRun C H u source w h in
      IsUpdate-of_IsSound C u run.scan.best run.scan.history c run.result (
        consider_all-IsSound C order u run.downloaded (start C u) run.considered
          (IsSound-start C u))
