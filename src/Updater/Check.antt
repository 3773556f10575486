-- ===== src/Updater/Check.antt =====
-- `Updater::check`: the candidate that it returns.
use freshen.Base.{
  ◌≡◌, refl, sym, ap, subst, ◌∙◌, ◌⊎◌, ◌↔◌, inl, inr, Bool, not, ◌||◌, ◌&&◌, Bool-cases,
  and-eq-true, true, false, List, [], ◌∷◌, some,
}
use freshen.Base.{arith, Member, find, nat_eq, list_eq, if◌then◌else◌}
use freshen.Base.Outcome.{
  Result, ok, err, signature, reject_if, reject_if-eq-ok, ok-injective, Result-cases,
}
use freshen.Base.Exec
use freshen.Base.Exec.{Exec, lift, pure, bind-known}
use freshen.Crates.{Crates, Manifest, Package, IsTotalOrder}
use freshen.Source.{ManifestLocation}
use freshen.Trust.{SignedManifest, verify}
use freshen.Transport.{Host, check_cancelled, fetch}
use freshen.Base.Bytes.Utf8.{is_utf8}
use freshen.Updater.{
  ReleaseNotes, Updater, Scan, is_target, consider, fetch_signed, is_seen, scan_locations,
}
use freshen.Updater.History.{Entry}
use freshen.Updater.Consider.{
  IsApplicable, IsSound, consider-IsSound, consider-keeps, consider-adds,
}

module _ (C : Crates) (u : Updater C) where
  -- The manifests one after the other, without the downloads.
  unfoldable pub consider_all : List SignedManifest → Scan C → Result (Scan C)
  consider_all [] scan = ok scan
  consider_all (s ∷ rest) scan = elim (consider C u s scan) [
    | err e ↦ err e
    | ok scan' ↦ consider_all rest scan'
  ]

pub pair_of :
    {A W : Type 0} (p : Result A × W) (a : A) (v : W) → p.0 ≡ ok a → p.1 ≡ v → p ≡ (ok a, v)
pair_of p a v e f = λ i. (e i, f i)

rest-true : (a b : Bool) → a ≡ false → (a || b) ≡ true → b ≡ true
rest-true a b f h = ground arith

or-true : (a b : Bool) → (a ≡ true) ⊎ (b ≡ true) → (a || b) ≡ true
or-true a b h = ground arith

module _ (C : Crates) (H : Host C.Url) where
  -- The same document and the same signature as a location of the list.
  abbrev pub IsKnown : List (ManifestLocation C.Url) → ManifestLocation C.Url → Type 0
  IsKnown seen l =
      (x : ManifestLocation C.Url) × (Member x seen
        × ((x.document ≡ l.document) × (x.signature ≡ l.signature)))

  abbrev is_same : ManifestLocation C.Url → ManifestLocation C.Url → Bool
  is_same x l = C.url_eq.beq x.document l.document && C.url_eq.beq x.signature l.signature

  is_same_iff :
      (x l : ManifestLocation C.Url)
      → (is_same x l ≡ true) ↔ ((x.document ≡ l.document) × (x.signature ≡ l.signature))
  is_same_iff x l =
      let parts =
        and-eq-true (C.url_eq.beq x.document l.document) (C.url_eq.beq x.signature l.signature) in
      (
        λ h.
            let (d, s) = parts.0 h in
            (
              (C.url_eq.beq_iff x.document l.document).0 d,
              (C.url_eq.beq_iff x.signature l.signature).0 s,
            ),
        λ (d, s). parts.1 (
          (C.url_eq.beq_iff x.document l.document).1 d,
          (C.url_eq.beq_iff x.signature l.signature).1 s,
        ),
      )

  pub is_seen-IsKnown :
      (seen : List (ManifestLocation C.Url)) (l : ManifestLocation C.Url)
      → is_seen C H seen l ≡ true
      → IsKnown seen l
  is_seen-IsKnown [] l h = cc
  is_seen-IsKnown (x ∷ xs) l h = elim (Bool-cases (is_same x l)) [
    | inl t ↦ (x, (inl refl, (is_same_iff x l).0 t))
    | inr f ↦
        let (y, (m, k)) = is_seen-IsKnown xs l (rest-true (is_same x l) _ f h) in (y, (inr m, k))
  ]

  pub is_seen-of_IsKnown :
      (seen : List (ManifestLocation C.Url)) (l : ManifestLocation C.Url)
      → IsKnown seen l
      → is_seen C H seen l ≡ true
  is_seen-of_IsKnown [] l (y, (m, k)) = absurd m
  is_seen-of_IsKnown (x ∷ xs) l (y, (inl e, k)) =
      let t =
        (is_same_iff x l).1
          (subst (λ z. (z.document ≡ l.document) × (z.signature ≡ l.signature)) (sym e) k) in
      or-true (is_same x l) (is_seen C H xs l) (inl t)
  is_seen-of_IsKnown (x ∷ xs) l (y, (inr m, k)) =
      or-true (is_same x l) (is_seen C H xs l) (inr (is_seen-of_IsKnown xs l (y, (m, k))))

  -- The download of a manifest and its signature, from a world to a world.
  pub record IsFetched (l : ManifestLocation C.Url) (s : SignedManifest) (w v : H.World)
      : Type 0 where
    pub document : (fetch H l.document 1048576 w).0 ≡ ok s.document
    pub signature : fetch H l.signature 1024 (fetch H l.document 1048576 w).1 ≡ (ok s.signature, v)
    pub readable : is_utf8 s.signature ≡ true

  -- What a loop over locations downloads from a world on, and the world in which it ends: each
  -- location whose document and signature do not both stand in one of `seen` or of those before,
  -- in order, first the document and then the signature, and nothing else.
  pub data Fetches
      : List (ManifestLocation C.Url)
        → List (ManifestLocation C.Url)
        → H.World
        → List SignedManifest
        → H.World
        → Type 0 where
    done : {seen : List (ManifestLocation C.Url)} {w : H.World} → Fetches seen [] w [] w
    again :
        {seen rest : List (ManifestLocation C.Url)} {l : ManifestLocation C.Url} {w : H.World}
        {ss : List SignedManifest} {v : H.World}
        → IsKnown seen l
        → Fetches seen rest (check_cancelled H w).1 ss v
        → Fetches seen (l ∷ rest) w ss v
    got :
        {seen rest : List (ManifestLocation C.Url)} {l : ManifestLocation C.Url}
        {w between : H.World} {s : SignedManifest} {ss : List SignedManifest} {v : H.World}
        → ¬ IsKnown seen l
        → IsFetched l s (check_cancelled H w).1 between
        → Fetches (l ∷ seen) rest between ss v
        → Fetches seen (l ∷ rest) w (s ∷ ss) v

module _ (C : Crates) (H : Host C.Url) (u : Updater C) where
  abbrev Ran :
      List (ManifestLocation C.Url)
      → List (ManifestLocation C.Url)
      → Scan C
      → H.World
      → Scan C
      → H.World
      → Type 0
  Ran seen locations scan w scan' v =
      (ss : List SignedManifest) × Fetches C H seen locations w ss v
      × (consider_all C u ss scan ≡ ok scan')

  abbrev polled : H.World → H.World
  polled w = (check_cancelled H w).1

  abbrev one : ManifestLocation C.Url → Scan C → Exec H.World (Scan C)
  one l scan = Exec.◌>>=◌ (fetch_signed C H l) (λ s. lift (consider C u s scan))

  fetch_signed-IsFetched :
      (l : ManifestLocation C.Url) (w v : H.World) (s : SignedManifest)
      → fetch_signed C H l w ≡ (ok s, v)
      → IsFetched C H l s w v
  unfolding fetch_signed
  fetch_signed-IsFetched l w v s h =
      let (document, got_document, h1) = bind-known (fetch H l.document 1048576) _ w h in
      let w1 = (fetch H l.document 1048576 w).1 in
      let (bytes, got_bytes, h2) = bind-known (fetch H l.signature 1024) _ w1 h1 in
      let w2 = (fetch H l.signature 1024 w1).1 in
      let (unit, utf8, h3) =
        bind-known (lift (reject_if (not (is_utf8 bytes)) signature)) _ w2 h2 in
      let same : record { document = document; signature = bytes } ≡ s =
        ok-injective (ap (λ p. p.0) h3) in
      let last : w2 ≡ v = ap (λ p. p.1) h3 in
      let readable = reject_if-eq-ok (not (is_utf8 bytes)) signature utf8 in
      subst (λ z. IsFetched C H l z w v) same
        (record {
          document = got_document;
          signature = pair_of (fetch H l.signature 1024 w1) bytes v got_bytes last;
          readable = ground arith;
        })

  module _ (seen rest : List (ManifestLocation C.Url)) (l : ManifestLocation C.Url) (scan : Scan C)
      (w : H.World) {scan' : Scan C} {v : H.World} where
    -- Behind the downloads of one location.
    Ran-downloaded :
        (s : SignedManifest) (mid : Scan C) (between : H.World)
        → is_seen C H seen l ≡ false
        → fetch_signed C H l (polled w) ≡ (ok s, between)
        → consider C u s scan ≡ ok mid
        → Ran (l ∷ seen) rest mid between scan' v
        → Ran seen (l ∷ rest) scan w scan' v
    unfolding consider_all
    Ran-downloaded s mid between n fetched considered (ss, f, c) = (
      s ∷ ss,
      got (λ k. let t = is_seen-of_IsKnown C H seen l k in cc)
          (fetch_signed-IsFetched l (polled w) between s fetched) f,
      rw (considered, consider_all) c,
    )

    Ran-body :
        (b : Bool)
        → is_seen C H seen l ≡ b
        → ((seen' : List (ManifestLocation C.Url)) (mid : Scan C) (x : H.World)
            → scan_locations C H u seen' rest mid x ≡ (ok scan', v)
            → Ran seen' rest mid x scan' v)
        → Exec.◌>>=◌
            (if b then pure scan else one l scan)
            (λ mid. scan_locations C H u (if b then seen else l ∷ seen) rest mid)
            (polled w)
          ≡ (ok scan', v)
        → Ran seen (l ∷ rest) scan w scan' v
    Ran-body true t ih h =
        let (ss, f, c) = ih seen scan (polled w) h in
        (ss, again (is_seen-IsKnown C H seen l t) f, c)
    Ran-body false n ih h =
        let (mid, ok2, h2) =
          bind-known (one l scan) (λ mid. scan_locations C H u (l ∷ seen) rest mid) (polled w) h in
        let (s, ok3, considered) =
          bind-known (fetch_signed C H l) _ (polled w)
            (pair_of (one l scan (polled w)) mid (one l scan (polled w)).1 ok2 refl) in
        let between = (fetch_signed C H l (polled w)).1 in
        Ran-downloaded s mid between n (pair_of (fetch_signed C H l (polled w)) s between ok3 refl)
          (ap (λ p. p.0) considered)
          (ih (l ∷ seen) mid between (
            subst (λ x. scan_locations C H u (l ∷ seen) rest mid x ≡ (ok scan', v))
              (sym (ap (λ p. p.1) considered)) h2))

  -- The loop of `check` is the downloads followed by `consider_all`.
  pub scan_locations-inverse :
      (seen locations : List (ManifestLocation C.Url)) (scan : Scan C) (w : H.World)
      {scan' : Scan C} {v : H.World}
      → scan_locations C H u seen locations scan w ≡ (ok scan', v)
      → Ran seen locations scan w scan' v
  unfolding scan_locations consider_all
  scan_locations-inverse seen [] scan w h =
      ([], subst (λ x. Fetches C H seen [] w [] x) (ap (λ p. p.1) h) done, ap (λ p. p.0) h)
  scan_locations-inverse seen (l ∷ rest) scan w {scan'} {v} h =
      let (u1, ok1, h1) = bind-known (check_cancelled H) _ w h in
      Ran-body seen rest l scan w (is_seen C H seen l) refl
        (λ seen' mid x. scan_locations-inverse seen' rest mid x {scan' = scan'} {v = v}) h1

module _ (C : Crates) (order : IsTotalOrder C) (u : Updater C) where
  consider_all-ok :
      (s : SignedManifest) (ss : List SignedManifest) (scan : Scan C) {mid : Scan C}
      → consider C u s scan ≡ ok mid
      → consider_all C u (s ∷ ss) scan ≡ consider_all C u ss mid
  unfolding consider_all
  consider_all-ok s ss scan e = rw (e, consider_all)

  pub consider_all-IsSound :
      (ss : List SignedManifest) (scan : Scan C) {scan' : Scan C}
      → consider_all C u ss scan ≡ ok scan'
      → IsSound C u scan
      → IsSound C u scan'
  unfolding consider_all
  consider_all-IsSound [] scan {scan'} h sound =
      let same : scan ≡ scan' = ground arith in subst (IsSound C u) same sound
  consider_all-IsSound (s ∷ ss) scan {scan'} h sound = elim (Result-cases (consider C u s scan)) [
    | inr (x, e) ↦ ground arith
    | inl (mid, e) ↦
        consider_all-IsSound ss mid {scan' = scan'} (sym (consider_all-ok s ss scan e) ∙ h)
          (consider-IsSound C order u s scan e sound)
  ]

  consider_all-keeps :
      (ss : List SignedManifest) (scan : Scan C) {scan' : Scan C} (e : ReleaseNotes C)
      → consider_all C u ss scan ≡ ok scan'
      → Member e scan.history
      → Member e scan'.history
  unfolding consider_all
  consider_all-keeps [] scan {scan'} e h at =
      let same : scan ≡ scan' = ground arith in subst (λ z. Member e z.history) same at
  consider_all-keeps (s ∷ ss) scan {scan'} e h at = elim (Result-cases (consider C u s scan)) [
    | inr (x, c) ↦ ground arith
    | inl (mid, c) ↦
        consider_all-keeps ss mid {scan' = scan'} e (sym (consider_all-ok s ss scan c) ∙ h)
          (consider-keeps C order u s scan e c at)
  ]

  pub consider_all-adds :
      (ss : List SignedManifest) (scan : Scan C) {scan' : Scan C}
      → consider_all C u ss scan ≡ ok scan'
      → (s : SignedManifest) (m : Manifest C) (a : Package C) → Member s ss
      → verify C u.trust s ≡ ok m
      → IsApplicable C u m
      → find (is_target C u.target) m.artifacts ≡ some a
      → Member (Entry C m.version m.notes) scan'.history
  unfolding consider_all
  consider_all-adds [] scan h s m a at v p found = absurd at
  consider_all-adds (s ∷ ss) scan {scan'} h t m a at v p found =
      elim (Result-cases (consider C u s scan)) [
        | inr (x, c) ↦ ground arith
        | inl (mid, c) ↦ elim at [
          | inl e ↦
              let c' : consider C u t scan ≡ ok mid =
                subst (λ z. consider C u z scan ≡ ok mid) e c in
              consider_all-keeps ss mid {scan' = scan'} _ (sym (consider_all-ok s ss scan c) ∙ h)
                (consider-adds C order u t m a scan c' v p found)
          | inr later ↦
              consider_all-adds ss mid {scan' = scan'} (sym (consider_all-ok s ss scan c) ∙ h) t m a
                later v p found
        ]
      ]
