-- ===== src/Manifest/Valid.antt =====
-- What `validate` promises: a manifest is accepted exactly when it meets this description.
use freshen.Base.{◌≤◌, ◌≡◌, refl, sym, subst, ◌≢◌, ◌↔◌, inl, inr, false}
use freshen.Base.{
  List, [], ◌∷◌, map, arith, length, is_empty, Member, NoRepeat, Fresh, Fresh-NoRepeat, All,
  All-Member, All-of, contains_iff, not-contains, nat_eq, list_eq, Bool-cases,
}
use freshen.Base.Bytes.{Bytes}
use freshen.Base.Outcome.{ok, Result-cases}
use freshen.Manifest.{
  PackageFile, Artifact, ReleaseManifest, check_files, check_ancestors, has_file_ancestor,
  check_artifact, check_artifacts, validate,
}
use freshen.Manifest.Hashes.{IsHash, check_hash_iff}
use freshen.Manifest.Ancestors.{HasAncestor, has_file_ancestor_iff}
use freshen.Manifest.Files.{
  folded, IsSoundFile, collected, check_files-inverse, check_files_complete, Member-collected,
}

-- No path of the list is a file and an ancestor directory of another one.
abbrev pub NoAncestor : List Bytes → List Bytes → Type 0
NoAncestor paths = All (λ p. ¬ HasAncestor paths p)

pub record IsValidInventory (fs : List PackageFile) : Type 0 where
  pub some_file : fs ≢ []
  pub few : length fs ≤ 100000
  pub sound : All IsSoundFile fs
  pub distinct : NoRepeat (map folded fs)
  pub no_ancestor : NoAncestor (map folded fs) (map folded fs)

module _ {Url : Type 0} where
  pub record IsValidArtifact (a : Artifact Url) : Type 0 where
    pub hash : IsHash a.sha256
    pub nonempty : a.size ≢ 0
    pub inventory : IsValidInventory a.files

  abbrev pub target_of : Artifact Url → Bytes
  target_of a = a.target

module _ {Version Url : Type 0} where
  pub record IsValidManifest (m : ReleaseManifest Version Url) : Type 0 where
    pub schema : m.schema ≡ 1
    pub product : m.product ≢ []
    pub channel : m.channel ≢ []
    pub targets : All (λ t. t ≢ []) (map target_of m.artifacts)
    pub distinct : NoRepeat (map target_of m.artifacts)
    pub artifacts : All IsValidArtifact m.artifacts

check_ancestors_iff :
    (paths ps : List Bytes) → (check_ancestors paths ps ≡ ok tt) ↔ NoAncestor paths ps
unfolding check_ancestors
check_ancestors_iff paths [] = (λ h. tt, λ h. refl)
check_ancestors_iff paths (p ∷ ps) = elim (Bool-cases (has_file_ancestor (length p) paths p)) [
  | inl t ↦ rw t (λ h. cc, λ h. absurd (h.0 ((has_file_ancestor_iff paths p).0 t)))
  | inr f ↦
      let ih = check_ancestors_iff paths ps in
      rw f (λ h. (λ a. cc ((has_file_ancestor_iff paths p).1 a), ih.0 h), λ h. ih.1 h.1)
]

-- `NoAncestor` depends on the members of the lists alone.
NoAncestor-mono :
    (ps qs : List Bytes)
    → ((p : Bytes) → Member p qs → Member p ps)
    → NoAncestor ps ps
    → NoAncestor qs qs
NoAncestor-mono ps qs sub h =
    All-of (λ p. ¬ HasAncestor qs p) qs
      λ p m (dir, rest, e, at).
        All-Member (λ p. ¬ HasAncestor ps p) ps h (sub p m) (dir, rest, e, sub dir at)

Member-collected-folded :
    (fs : List PackageFile) (p : Bytes) → Member p (collected [] fs) ↔ Member p (map folded fs)
Member-collected-folded fs p = ground (arith, Member-collected p [] fs)

is_empty_iff {ℓ} : {A : Type ℓ} (xs : List A) → (is_empty xs ≡ false) ↔ (xs ≢ [])
is_empty_iff [] = (λ h. cc, λ h. absurd (h refl))
is_empty_iff (x ∷ xs) = (λ h e. cc, λ h. refl)

module _ {Url : Type 0} where
  check_artifact-inverse : (a : Artifact Url) → check_artifact a ≡ ok tt → IsValidArtifact a
  unfolding check_artifact
  check_artifact-inverse a h = elim (Result-cases (check_files [] a.files)) [
    | inr (x, e) ↦ ground arith
    | inl (paths, e) ↦
        let (sound, fresh, at) = check_files-inverse [] a.files e in
        let last : check_ancestors paths paths ≡ ok tt = ground arith in
        record {
          hash = (check_hash_iff a.sha256).0 (ground arith);
          nonempty = ground arith;
          inventory = record {
            some_file = (is_empty_iff a.files).0 (ground arith);
            few = ground arith;
            sound = sound;
            distinct = (Fresh-NoRepeat (map folded a.files)).0 fresh;
            no_ancestor =
                NoAncestor-mono (collected [] a.files) (map folded a.files)
                  (λ p. (Member-collected-folded a.files p).1)
                  (subst (λ ps. NoAncestor ps ps) (sym at)
                    ((check_ancestors_iff paths paths).0 last));
          };
        }
  ]

  check_artifact_complete : (a : Artifact Url) → IsValidArtifact a → check_artifact a ≡ ok tt
  unfolding check_artifact
  check_artifact_complete a v =
      let open_files =
        check_files_complete [] a.files v.inventory.sound
          ((Fresh-NoRepeat (map folded a.files)).1 v.inventory.distinct) in
      let paths = collected [] a.files in
      let last = (check_ancestors_iff paths paths).1 (
        NoAncestor-mono (map folded a.files) paths (λ p. (Member-collected-folded a.files p).0)
          v.inventory.no_ancestor) in
      ground (
        arith,
        (check_hash_iff a.sha256).1 v.hash,
        open_files,
        last,
        v.nonempty,
        v.inventory.few,
        (is_empty_iff a.files).1 v.inventory.some_file,
      )

  pub check_artifact_iff : (a : Artifact Url) → (check_artifact a ≡ ok tt) ↔ IsValidArtifact a
  check_artifact_iff a = (check_artifact-inverse a, check_artifact_complete a)

  abbrev IsValidRest : List Bytes → List (Artifact Url) → Type 0
  IsValidRest seen rest =
      All (λ t. t ≢ []) (map target_of rest)
      × Fresh seen (map target_of rest)
      × All IsValidArtifact rest

  check_artifacts_iff :
      (seen : List Bytes) (rest : List (Artifact Url))
      → (check_artifacts seen rest ≡ ok tt) ↔ IsValidRest seen rest
  unfolding check_artifacts
  check_artifacts_iff seen [] = (λ h. (tt, tt, tt), λ h. refl)
  check_artifacts_iff seen (a ∷ rest) =
      let ih = check_artifacts_iff (a.target ∷ seen) rest in
      let one = check_artifact_iff a in
      (
        λ h.
            let good : check_artifact a ≡ ok tt = ground arith in
            let more : check_artifacts (a.target ∷ seen) rest ≡ ok tt = ground arith in
            let (ts, fresh, valid) = ih.0 more in
            (
              ((is_empty_iff a.target).0 (ground arith), ts),
              (not-contains seen a.target (ground arith), fresh),
              (one.0 good, valid),
            ),
        λ h.
            let good = one.1 h.2.0 in
            let more = ih.1 (h.0.1, h.1.1, h.2.1) in
            ground (arith, (is_empty_iff a.target).1 h.0.0, contains_iff seen a.target, h.1.0),
      )

module _ {Version Url : Type 0} where
  -- A manifest is accepted exactly when its schema is 1, its product and channel are named, its
  -- targets are named and differ, and each artifact has a well-formed hash, a size other than 0,
  -- and 1 to 100,000 files with safe paths and well-formed hashes, no two of which have the same
  -- path up to the case of letters, and none of which has a path that is an ancestor directory of
  -- the path of another one up to the case of letters.
  pub validate_iff : (m : ReleaseManifest Version Url) → (validate m ≡ ok tt) ↔ IsValidManifest m
  unfolding validate
  validate_iff m =
      let rest = check_artifacts_iff [] m.artifacts in
      let unique = Fresh-NoRepeat (map target_of m.artifacts) in
      (
        λ h.
            let more : check_artifacts [] m.artifacts ≡ ok tt = ground arith in
            let (ts, fresh, valid) = rest.0 more in
            record {
              schema = ground arith;
              product = (is_empty_iff m.product).0 (ground arith);
              channel = (is_empty_iff m.channel).0 (ground arith);
              targets = ts;
              distinct = unique.0 fresh;
              artifacts = valid;
            },
        λ v.
            let more = rest.1 (v.targets, unique.1 v.distinct, v.artifacts) in
            ground (
              arith,
              (is_empty_iff m.product).1 v.product,
              (is_empty_iff m.channel).1 v.channel,
              v.schema,
              more,
            ),
      )
