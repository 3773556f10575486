-- ===== src/Prepare/Prepared.antt =====
-- What `prepare` returns.
use freshen.Base.{
  ◌≡◌, ◌≤◌, refl, Bool, true, false, not, ◌||◌, ◌&&◌, List, length, ltb, ◌==◌, list_eq, nat_eq,
  or-eq-false, arith,
}
use freshen.Base.Bytes.{Bytes, text, eq_ignore_ascii_case}
use freshen.Base.Outcome.{
  Result, ok, err, invalid, size_limit, hash_mismatch, reject_if, reject_if-eq-ok,
}
use freshen.Base.Exec.{Exec, lift}
use freshen.Base.Triples.{Ends, Ends-ok, Triple, >>=-Triple}
use freshen.Crates.{Crates, Manifest}
use freshen.Trust.{verify}
use freshen.Transport.{Host, verifying, ready, check_cancelled, report}
use freshen.Updater.{Updater, Candidate, stable}
use freshen.Updater.Consider.{IsApplicable}
use freshen.Archive.{ZipEntry, Unpacked, extract}
use freshen.Prepare.{PreparedUpdate, is_mismatch, save_package, prepare}

not-eq-false : (b : Bool) → (not b ≡ false → b ≡ true) × (b ≡ true → not b ≡ false)
not-eq-false b = (λ h. ground arith, λ h. ground arith)

none_of5 :
    (a b c d e : Bool)
    → (a || b || c || d || e) ≡ false
    → ((((a ≡ false) × (b ≡ false)) × (c ≡ false)) × (d ≡ false)) × (e ≡ false)
none_of5 false false false false false h = ((((refl, refl), refl), refl), refl)
none_of5 true b c d e h = absurd (cc)
none_of5 false true c d e h = absurd (cc)
none_of5 false false true d e h = absurd (cc)
none_of5 false false false true e h = absurd (cc)
none_of5 false false false false true h = absurd (cc)

only_if : (a b : Bool) → (a && not b) ≡ false → a ≡ true → b ≡ true
only_if true true h e = refl
only_if true false h e = absurd (cc)
only_if false b h e = absurd (cc)

module _ {W A : Type 0} (K : Type 0) where
  lift-Ends : (r : Result A) (w : W) → K → Ends (λ x v. K × (r ≡ ok x)) (λ v. Unit {0}) r w
  lift-Ends (ok x) w k = (k, refl)
  lift-Ends (err e) w k = tt

  lift-Known :
      (r : Result A) → Triple (λ w. K) (lift {W = W} r) (λ x w. K × (r ≡ ok x)) (λ w. Unit {0})
  lift-Known r = record { ends = λ w k. lift-Ends r w k }

  any-Ends : (r : Result A) (w : W) → K → Ends (λ x v. K) (λ v. Unit {0}) r w
  any-Ends (ok x) w k = k
  any-Ends (err e) w k = tt

  any-Known : (m : Exec W A) → Triple (λ w. K) m (λ x w. K) (λ w. Unit {0})
  any-Known m = record { ends = λ w k. any-Ends (m w).0 (m w).1 k }

module _ (C : Crates) (H : Host C.Url) (open_zip : Bytes → Result (List ZipEntry))
    (u : Updater C) where
  -- A prepared update: its release is verified and one for this updater, and its stage is the extraction of a
  -- package of the listed size and digest.
  pub record IsPrepared (p : PreparedUpdate C) : Type 0 where
    pub release : Manifest C
    pub verified : verify C u.trust p.candidate.signed ≡ ok release
    pub applicable : IsApplicable C u release
    pub target : p.candidate.artifact.target ≡ u.target
    pub small : p.candidate.artifact.size ≤ u.max_download
    pub zip : Bytes
    pub entries : List ZipEntry
    pub complete : length zip ≡ p.candidate.artifact.size
    pub genuine : eq_ignore_ascii_case (C.sha256 zip) p.candidate.artifact.sha256 ≡ true
    pub opened : open_zip zip ≡ ok entries
    pub extracted : extract C entries p.candidate.artifact u.max_unpacked ≡ ok p.stage
    pub trusted : p.trust ≡ u.trust

  matches-IsApplicable :
      (c : Candidate C) (release : Manifest C)
      → is_mismatch C u c release ≡ false
      → IsApplicable C u release × (c.artifact.target ≡ u.target)
  unfolding is_mismatch
  matches-IsApplicable c release h =
      let ((((p, ch), n), t), s) =
        none_of5 (not (release.product == u.product)) (not (release.channel == u.channel))
          (C.version_le release.version u.current_version) (not (c.artifact.target == u.target))
          (u.channel == stable && not (C.pre_is_empty release.version)) h in
      (
        record {
          product = (list_eq.beq_iff release.product u.product).0 ((not-eq-false _).0 p);
          channel = (list_eq.beq_iff release.channel u.channel).0 ((not-eq-false _).0 ch);
          newer = n;
          released = λ e.
              only_if (u.channel == stable) (C.pre_is_empty release.version) s
                ((list_eq.beq_iff u.channel stable).1 e);
        },
        (list_eq.beq_iff c.artifact.target u.target).0 ((not-eq-false _).0 t),
      )

  IsPrepared-of :
      (release : Manifest C) (c : Candidate C) (bytes : Bytes) (entries : List ZipEntry)
      (files : List Unpacked)
      → verify C u.trust c.signed ≡ ok release
      → is_mismatch C u c release ≡ false
      → ltb u.max_download c.artifact.size ≡ false
      → (not (length bytes == c.artifact.size)
          || not (eq_ignore_ascii_case (C.sha256 bytes) c.artifact.sha256))
        ≡ false
      → open_zip bytes ≡ ok entries
      → extract C entries c.artifact u.max_unpacked ≡ ok files
      → IsPrepared (record { stage = files; candidate = c; trust = u.trust })
  IsPrepared-of release c bytes entries files v m s g o x =
      let (l, h) =
        (or-eq-false (not (length bytes == c.artifact.size))
            (not (eq_ignore_ascii_case (C.sha256 bytes) c.artifact.sha256))).0
          g in
      record {
        release = release;
        verified = v;
        applicable = (matches-IsApplicable c release m).0;
        target = (matches-IsApplicable c release m).1;
        small = ground arith;
        zip = bytes;
        entries = entries;
        complete =
            (nat_eq.beq_iff (length bytes) c.artifact.size).0
              ((not-eq-false (length bytes == c.artifact.size)).0 l);
        genuine = (not-eq-false (eq_ignore_ascii_case (C.sha256 bytes) c.artifact.sha256)).0 h;
        opened = o;
        extracted = x;
        trusted = refl;
      }

  prepare-Triple :
      (directory sync : Result (Unit {0})) (c : Candidate C)
      → Triple
          (λ w. Unit {0})
          (prepare C H open_zip directory sync u c)
          (λ p w. IsPrepared p × (p.candidate ≡ c))
          (λ w. Unit {0})
  unfolding prepare
  prepare-Triple directory sync c =
      >>=-Triple (lift-Known (Unit {0}) (verify C u.trust c.signed)) (λ release.
        >>=-Triple
          (lift-Known _ (
            reject_if (is_mismatch C u c release)
              (invalid (text "candidate does not match updater policy"))))
          (λ _.
            >>=-Triple (lift-Known _ (reject_if (ltb u.max_download c.artifact.size) size_limit))
              (λ _. >>=-Triple (lift-Known _ directory) (λ _.
                >>=-Triple (any-Known _ (save_package C H c.artifact.url c.artifact.size)) (λ bytes.
                  >>=-Triple (lift-Known _ sync) (λ _.
                    >>=-Triple (any-Known _ (check_cancelled H)) (λ _.
                      >>=-Triple (any-Known _ (report H verifying)) (λ _.
                        >>=-Triple
                          (lift-Known _ (
                            reject_if
                              (not (length bytes == c.artifact.size)
                                || not (eq_ignore_ascii_case (C.sha256 bytes) c.artifact.sha256))
                              (hash_mismatch (text "package.zip"))))
                          (λ _. >>=-Triple (lift-Known _ (open_zip bytes)) (λ entries.
                            >>=-Triple (lift-Known _ (extract C entries c.artifact u.max_unpacked))
                              (λ files. >>=-Triple (any-Known _ (report H ready)) (λ _. record {
                                ends = λ w h.
                                    let ((((((((k, v), m), s), d), y), g), o), x) = h in
                                    (
                                      IsPrepared-of release c bytes entries files v
                                          (reject_if-eq-ok (is_mismatch C u c release)
                                            (invalid
                                              (text "candidate does not match updater policy"))
                                            m)
                                          (reject_if-eq-ok (ltb u.max_download c.artifact.size)
                                            size_limit s)
                                          (reject_if-eq-ok
                                            (not (length bytes == c.artifact.size)
                                              || not (
                                                  eq_ignore_ascii_case (C.sha256 bytes)
                                                    c.artifact.sha256))
                                            (hash_mismatch (text "package.zip")) g)
                                          o x,
                                      refl,
                                    );
                              }))))))))))))

  -- When `prepare` returns, the candidate's document is verified by the updater's own trust, its
  -- release has the product, channel and target of the updater, is newer and no pre-release on the
  -- stable channel, the package is within the limit, and its download has the listed size and
  -- digest and unpacks to the stage that is returned.
  pub prepare-inverse :
      (directory sync : Result (Unit {0})) (c : Candidate C) (w : H.World) {p : PreparedUpdate C}
      → (prepare C H open_zip directory sync u c w).0 ≡ ok p
      → IsPrepared p × (p.candidate ≡ c)
  prepare-inverse directory sync c w h =
      Ends-ok (λ p v. IsPrepared p × (p.candidate ≡ c)) (λ v. Unit {0})
        (prepare C H open_zip directory sync u c w).0 (prepare C H open_zip directory sync u c w).1
        ((prepare-Triple directory sync c).ends w tt) h
