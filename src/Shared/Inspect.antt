-- ===== src/Shared/Inspect.antt =====
-- What `inspect` knows when it reports that the application can restart.
use freshen.Base.{
  ◌≡◌, refl, ◌*◌, Bool, true, false, not, ◌||◌, ◌&&◌, List, [], ◌∷◌, Option, none, some, find, All,
  length, ltb, ◌==◌, list_eq, nat_eq, Bool-cases, inl, inr,
}
use freshen.Base.Bytes.{Bytes}
use freshen.Base.Outcome.{Result, ok, err, json, size_limit, reject_if, ok_or}
use freshen.Base.Exec.{lift}
use freshen.Base.Triples.{Ends-ok, Triple, Triple-weaken, >>=-Triple}
use freshen.Crates.{Crates, Manifest, Package}
use freshen.Trust.{SignedManifest, TrustStore, verify}
use freshen.Storage.{Disk, installation, tree}
use freshen.Storage.Tree.{Node}
use freshen.Updater.{stable}
use freshen.Shared.{
  unchanged, ready_to_restart, status_of, is_irrelevant, inspect_artifact, inspect_release, inspect,
}
use freshen.Shared.Ready.{IsPresent, Same, pending_files-Triple}

-- A newer release of the product and channel, and no pre-release on the stable channel.
pub record IsRelevant (C : Crates) (product channel : Bytes) (current : C.Version)
    (release : Manifest C) : Type 0 where
  pub same_product : release.product ≡ product
  pub same_channel : release.channel ≡ channel
  pub newer : C.version_le release.version current ≡ false
  pub released : channel ≡ stable → C.pre_is_empty release.version ≡ true

none_of :
    (a b c d e : Bool)
    → (not a || not b || c || (d && not e)) ≡ false
    → (a ≡ true) × ((b ≡ true) × ((c ≡ false) × (d ≡ true → e ≡ true)))
none_of true true false true true h = (refl, (refl, (refl, λ t. refl)))
none_of true true false false e h = (refl, (refl, (refl, λ t. absurd (cc))))
none_of true true false true false h = absurd (cc)
none_of true true true d e h = absurd (cc)
none_of true false c d e h = absurd (cc)
none_of false b c d e h = absurd (cc)

is_irrelevant-IsRelevant :
    (C : Crates) (product channel : Bytes) (current : C.Version) (release : Manifest C)
    → is_irrelevant C product channel current release ≡ false
    → IsRelevant C product channel current release
unfolding is_irrelevant
is_irrelevant-IsRelevant C product channel current release h =
    let (p, (c, (n, r))) =
      none_of (release.product == product) (release.channel == channel)
        (C.version_le release.version current) (channel == stable) (C.pre_is_empty release.version)
        h in
    record {
      same_product = (list_eq.beq_iff release.product product).0 p;
      same_channel = (list_eq.beq_iff release.channel channel).0 c;
      newer = n;
      released = λ e. r ((list_eq.beq_iff channel stable).1 e);
    }

module _ {A : Type 0} where
  lift_known :
      (P : Disk → Type 0) (r : Result A)
      → Triple P (lift r) (λ x d. P d × (r ≡ ok x)) (λ d. Unit {0})
  lift_known P (ok x) = record { ends = λ d h. (h, refl) }
  lift_known P (err e) = record { ends = λ d h. tt }

module _ (C : Crates) (root : Option Node) where
  -- The one file of the release that is found for the target is all there.
  abbrev Found : C.Version → Option (Package C) → C.Version → Type 0
  Found v o w = (a : Package C) × ((o ≡ some a) × ((w ≡ v) × All (IsPresent C root) a.files))

  status-ready :
      (v w : C.Version) (pending : List Bytes)
      → status_of C v pending ≡ ready_to_restart w
      → (pending ≡ []) × (w ≡ v)
  status-ready v w [] e = (refl, cc)
  status-ready v w (p ∷ ps) e = (cc, cc)

  inspect_artifact-Triple :
      (v : C.Version) (o : Option (Package C))
      → Triple
          (Same C root)
          (inspect_artifact C v o)
          (λ s d. (w : C.Version) → s ≡ ready_to_restart w → Found v o w)
          (λ d. Unit {0})
  unfolding inspect_artifact
  inspect_artifact-Triple v none = record {
    ends = λ d h w e. let f : unchanged ≡ ready_to_restart w = e in absurd (cc);
  }
  inspect_artifact-Triple v (some a) =
      >>=-Triple
        (Triple-weaken (pending_files-Triple C root a.files) (λ d h. h) (λ l d h. h) (λ d h. tt))
        (λ l. record {
          ends = λ d (s, k) w e.
              let (none_left, same) = status-ready v w l e in (a, (refl, (same, k none_left)));
        })

  module _ (product channel : Bytes) (current : C.Version) (target : Bytes) where
    abbrev Relevant : Manifest C → C.Version → Type 0
    Relevant release w =
        IsRelevant C product channel current release
        × Found release.version (find (λ a. a.target == target) release.artifacts) w

    inspect_release-Triple :
        (release : Manifest C)
        → Triple
            (Same C root)
            (inspect_release C product channel current target release)
            (λ s d. (w : C.Version) → s ≡ ready_to_restart w → Relevant release w)
            (λ d. Unit {0})
    unfolding inspect_release
    inspect_release-Triple release =
        elim (Bool-cases (is_irrelevant C product channel current release)) [
          | inl t ↦ rw t (record {
            ends = λ d h w e. let f : unchanged ≡ ready_to_restart w = e in absurd (cc);
          })
          | inr f ↦ rw f (
              Triple-weaken
                (inspect_artifact-Triple release.version
                  (find (λ a. a.target == target) release.artifacts))
                (λ d h. h)
                (λ s d k w e. (is_irrelevant-IsRelevant C product channel current release f, k w e))
                (λ d h. h))
        ]

    module _ (parse : Bytes → Option SignedManifest) (trust : TrustStore) where
      -- A verified release, by the published text.
      abbrev Published : Bytes → C.Version → Type 0
      Published bytes w =
          (signed : SignedManifest) × ((release : Manifest C) × ((ok_or (parse bytes) json
                ≡ ok signed)
              × ((verify C trust signed ≡ ok release) × Relevant release w)))

      read-Triple :
          (bytes : Bytes)
          → Triple
              (Same C root)
              (inspect C parse (ok bytes) trust product channel current target)
              (λ s d. (w : C.Version) → s ≡ ready_to_restart w → Published bytes w)
              (λ d. Unit {0})
      unfolding inspect
      read-Triple bytes =
          >>=-Triple
            (lift_known (Same C root)
              (reject_if (ltb (4 * (1024 * 1024)) (length bytes)) size_limit))
            (λ u.
              >>=-Triple
                (lift_known
                  (λ d.
                    Same C root d
                    × (reject_if (ltb (4 * (1024 * 1024)) (length bytes)) size_limit ≡ ok u))
                  (ok_or (parse bytes) json))
                (λ signed.
                  >>=-Triple
                    (lift_known
                      (λ d.
                        (Same C root d
                          × (reject_if (ltb (4 * (1024 * 1024)) (length bytes)) size_limit ≡ ok u))
                        × (ok_or (parse bytes) json ≡ ok signed))
                      (verify C trust signed))
                    (λ release. record {
                      ends = λ d (((s, z), p), v).
                          (Triple-weaken (inspect_release-Triple release) (λ g h. h)
                              (λ x g k w e. (signed, (release, (p, (v, k w e))))) (λ g h. h)).ends
                            d s;
                    })))

-- When `inspect` reports a version as ready, the published text is a document that the trust store
-- verifies, its release is of the product and channel, newer, no pre-release on the stable
-- channel, and of that version, and every file of its package for the target is on the disk with
-- the listed size and digest.
pub inspect-ready :
    (C : Crates) (parse : Bytes → Option SignedManifest) (bytes : Bytes) (trust : TrustStore)
    (product channel : Bytes) (current : C.Version) (target : Bytes) (d : Disk) {v : C.Version}
    → (inspect C parse (ok bytes) trust product channel current target d).0
      ≡ ok (ready_to_restart v)
    → (signed : SignedManifest) × ((release : Manifest C) × ((ok_or (parse bytes) json ≡ ok signed)
          × ((verify C trust signed ≡ ok release)
              × (IsRelevant C product channel current release
                  × ((a : Package C) × ((find (λ a. a.target == target) release.artifacts ≡ some a)
                        × ((v ≡ release.version)
                            × All (IsPresent C (tree installation d)) a.files)))))))
inspect-ready C parse bytes trust product channel current target d {v} h =
    Ends-ok
      (λ s e.
        (w : C.Version)
        → s ≡ ready_to_restart w
        → Published C (tree installation d) product channel current target parse trust bytes w)
      (λ e. Unit {0}) (inspect C parse (ok bytes) trust product channel current target d).0
      (inspect C parse (ok bytes) trust product channel current target d).1
      ((read-Triple C (tree installation d) product channel current target parse trust bytes).ends d
        refl)
      h v refl
