-- ===== src/Updater/Consider.antt =====
-- One manifest in the loop of `check`: the invariant of the loop, and what is never lost.
use freshen.Base.{
  ◌≡◌, refl, sym, subst, ◌↔◌, ◌⊎◌, inl, inr, true, false, List, [], ◌∷◌, Option, none, some,
}
use freshen.Base.{
  arith, Member, All, find, find-eq-some, Bool-cases, Option-cases, nat_eq, list_eq, list_beq_iff,
  if◌then◌else◌,
}
use freshen.Base.Bytes.{Bytes}
use freshen.Base.Outcome.{ok, Result-cases}
use freshen.Crates.{Crates, Manifest, Package, IsTotalOrder}
use freshen.Trust.{SignedManifest, verify}
use freshen.Updater.{
  stable, ReleaseNotes, Updater, Candidate, Scan, insert, replaced, conflicts, is_covered,
  is_target, select, is_skipped, consider,
}
use freshen.Updater.History.{Entry, IsAscending, All-insert, insert-IsAscending, Member-insert}

module _ (C : Crates) (u : Updater C) where
  -- A newer release of this product and channel, and no pre-release on the stable channel.
  pub record IsApplicable (m : Manifest C) : Type 0 where
    pub product : m.product ≡ u.product
    pub channel : m.channel ≡ u.channel
    pub newer : C.version_le m.version u.current_version ≡ false
    pub released : u.channel ≡ stable → C.pre_is_empty m.version ≡ true

  pub is_skipped_iff : (m : Manifest C) → (is_skipped C u m ≡ false) ↔ IsApplicable m
  unfolding is_skipped
  is_skipped_iff m = ground (
    arith,
    list_beq_iff m.product u.product,
    list_beq_iff m.channel u.channel,
    list_beq_iff u.channel stable,
  )

  -- A verified, applicable release with the package that it lists for the target.
  pub record IsOffer (s : SignedManifest) (m : Manifest C) (a : Package C) : Type 0 where
    pub verified : verify C u.trust s ≡ ok m
    pub applicable : IsApplicable m
    pub listed : Member a m.artifacts
    pub for_target : a.target ≡ u.target

  -- The notes are those of a verified, applicable release with a package for the target.
  pub record IsNoteOf (e : ReleaseNotes C) : Type 0 where
    pub signed : SignedManifest
    pub release : Manifest C
    pub artifact : Package C
    pub offer : IsOffer signed release artifact
    pub entry : Entry C release.version release.notes ≡ e

  abbrev pub IsNewest : C.Version → List (ReleaseNotes C) → Type 0
  IsNewest v = All (λ e. C.version_le e.version v ≡ true)

  -- The best candidate is an offer, its notes are in the history, and nothing there is newer.
  abbrev pub IsBest : Option (Candidate C) → List (ReleaseNotes C) → Type 0
  IsBest none history = history ≡ []
  IsBest (some c) history =
      IsOffer c.signed c.release c.artifact
      × Member (Entry C c.release.version c.release.notes) history
      × IsNewest c.release.version history

  pub record IsSound (scan : Scan C) : Type 0 where
    pub ascending : IsAscending C scan.history
    pub notes : All IsNoteOf scan.history
    pub best : IsBest scan.best scan.history

module _ (C : Crates) (order : IsTotalOrder C) (u : Updater C) where
  IsNewest-trans :
      (v w : C.Version) (xs : List (ReleaseNotes C))
      → C.version_le v w ≡ true
      → IsNewest C u v xs
      → IsNewest C u w xs
  IsNewest-trans v w [] l h = tt
  IsNewest-trans v w (e ∷ xs) l h = (order.trans e.version v w h.0 l, IsNewest-trans v w xs l h.1)

  version_le_refl : (v : C.Version) → C.version_le v v ≡ true
  version_le_refl v = ground (arith, order.total v v)

  newest-of_uncovered :
      (best : Option (Candidate C)) (v : C.Version) (history : List (ReleaseNotes C))
      → is_covered C best v ≡ false
      → IsBest C u best history
      → IsNewest C u v history
  newest-of_uncovered none v history f b = subst (IsNewest C u v) (sym b) tt
  newest-of_uncovered (some c) v history f b =
      let older : C.version_le c.release.version v ≡ true =
        ground (arith, order.total c.release.version v) in
      IsNewest-trans c.release.version v history older b.2

  IsBest-of_covered :
      (best : Option (Candidate C)) (v : C.Version) (n : Bytes) (history : List (ReleaseNotes C))
      → conflicts C (replaced C v history) n ≡ false
      → is_covered C best v ≡ true
      → IsBest C u best history
      → IsBest C u best (insert C v n history)
  IsBest-of_covered none v n history k t b = cc
  IsBest-of_covered (some c) v n history k t b = (
    b.0,
    (Member-insert C order v n history (Entry C c.release.version c.release.notes) k).1 (inl b.1),
    All-insert C order (λ e. C.version_le e.version c.release.version ≡ true) v n history t b.2,
  )

  module _ (s : SignedManifest) (m : Manifest C) (a : Package C) (scan : Scan C) {scan' : Scan C}
      (selected : select C s m a scan ≡ ok scan') where
    select-conflicts : conflicts C (replaced C m.version scan.history) m.notes ≡ false
    unfolding select
    select-conflicts = ground arith

    select-history : scan'.history ≡ insert C m.version m.notes scan.history
    unfolding select
    select-history = ground arith

    -- The entry of the release is in the history afterwards, with all entries from before.
    pub Member-select :
        (e : ReleaseNotes C)
        → Member e scan'.history ↔ (Member e scan.history ⊎ (Entry C m.version m.notes ≡ e))
    Member-select e =
        rw select-history (Member-insert C order m.version m.notes scan.history e select-conflicts)

    abbrev offered : Candidate C
    offered = record { signed = s; release = m; artifact = a; history = [] }

    select-best :
        scan'.best ≡ (if is_covered C scan.best m.version then scan.best else some offered)
    unfolding select
    select-best = ground arith

    best-select :
        IsOffer C u s m a
        → IsBest C u scan.best scan.history
        → IsBest C u scan'.best (insert C m.version m.notes scan.history)
    best-select offer b = rw select-best (elim (Bool-cases (is_covered C scan.best m.version)) [
      | inl t ↦
          rw t (IsBest-of_covered scan.best m.version m.notes scan.history select-conflicts t b)
      | inr f ↦ rw f (
        offer,
        (Member-insert C order m.version m.notes scan.history _ select-conflicts).1 (inr refl),
        All-insert C order (λ e. C.version_le e.version m.version ≡ true) m.version m.notes
            scan.history (version_le_refl m.version)
            (newest-of_uncovered scan.best m.version scan.history f b),
      )
    ])

    select-IsSound : IsOffer C u s m a → IsSound C u scan → IsSound C u scan'
    unfolding select
    select-IsSound offer sound = record {
      ascending =
          rw select-history
            (insert-IsAscending C order m.version m.notes scan.history sound.ascending);
      notes = rw select-history (
          All-insert C order (IsNoteOf C u) m.version m.notes scan.history
            (record { signed = s; release = m; artifact = a; offer = offer; entry = refl })
            sound.notes);
      best = rw select-history (best-select offer sound.best);
    }

  -- One manifest keeps the invariant of the loop.
  pub consider-IsSound :
      (s : SignedManifest) (scan : Scan C) {scan' : Scan C}
      → consider C u s scan ≡ ok scan'
      → IsSound C u scan
      → IsSound C u scan'
  unfolding consider
  consider-IsSound s scan {scan'} h sound = elim (Result-cases (verify C u.trust s)) [
    | inr (x, e) ↦ ground arith
    | inl (m, e) ↦ elim (Bool-cases (is_skipped C u m)) [
      | inl t ↦ let same : scan ≡ scan' = ground arith in subst (IsSound C u) same sound
      | inr f ↦ elim (Option-cases (find (is_target C u.target) m.artifacts)) [
        | inl n ↦ let same : scan ≡ scan' = ground arith in subst (IsSound C u) same sound
        | inr (a, found) ↦
            let (listed, is_a) = find-eq-some (is_target C u.target) m.artifacts found in
            let selected : select C s m a scan ≡ ok scan' = ground arith in
            select-IsSound s m a scan selected
              (record {
                verified = e;
                applicable = (is_skipped_iff C u m).0 f;
                listed = listed;
                for_target = (list_beq_iff a.target u.target).0 is_a;
              })
              sound
      ]
    ]
  ]

  -- An entry of the history stays in it.
  pub consider-keeps :
      (s : SignedManifest) (scan : Scan C) {scan' : Scan C} (e : ReleaseNotes C)
      → consider C u s scan ≡ ok scan'
      → Member e scan.history
      → Member e scan'.history
  unfolding consider
  consider-keeps s scan {scan'} e h at = elim (Result-cases (verify C u.trust s)) [
    | inr (x, v) ↦ ground arith
    | inl (m, v) ↦ elim (Bool-cases (is_skipped C u m)) [
      | inl t ↦ let same : scan ≡ scan' = ground arith in subst (λ z. Member e z.history) same at
      | inr f ↦ elim (Option-cases (find (is_target C u.target) m.artifacts)) [
        | inl n ↦ let same : scan ≡ scan' = ground arith in subst (λ z. Member e z.history) same at
        | inr (a, found) ↦
            let selected : select C s m a scan ≡ ok scan' = ground arith in
            (Member-select s m a scan selected e).1 (inl at)
      ]
    ]
  ]

  -- The notes of an applicable release with a package for the target enter the history.
  pub consider-adds :
      (s : SignedManifest) (m : Manifest C) (a : Package C) (scan : Scan C) {scan' : Scan C}
      → consider C u s scan ≡ ok scan'
      → verify C u.trust s ≡ ok m
      → IsApplicable C u m
      → find (is_target C u.target) m.artifacts ≡ some a
      → Member (Entry C m.version m.notes) scan'.history
  unfolding consider
  consider-adds s m a scan {scan'} h v ok_policy found =
      let used : is_skipped C u m ≡ false = (is_skipped_iff C u m).1 ok_policy in
      let selected : select C s m a scan ≡ ok scan' = ground arith in
      (Member-select s m a scan selected (Entry C m.version m.notes)).1 (inr refl)
