-- ===== src/Prepare.antt =====
-- `Updater::prepare` of src/updater.rs: the download and the extraction of a candidate's package.
pub mod Prepared
use freshen.Base.{
  ℕ, Bool, true, false, not, ◌&&◌, ◌||◌, List, [], ◌∷◌, length, ltb, ◌==◌, list_eq, nat_eq,
}
use freshen.Base.Bytes.{Bytes, text, eq_ignore_ascii_case}
use freshen.Base.Outcome.{Result, ok, err, invalid, size_limit, hash_mismatch, reject_if}
use freshen.Base.Exec.{Exec, lift, pure, continue, ◌>>=◌, ◌>>◌}
use freshen.Crates.{Crates, Manifest, Package}
use freshen.Trust.{TrustStore, verify}
use freshen.Transport.{Host, verifying, ready, check_cancelled, report}
use freshen.Updater.{Updater, Candidate, stable}
use freshen.Archive.{ZipEntry, Unpacked, extract}

module _ (C : Crates) where
  -- `PreparedUpdate`, with the contents of its stage.
  pub record PreparedUpdate : Type 0 where
    pub stage : List Unpacked
    pub candidate : Candidate C
    pub trust : TrustStore

  unfoldable pub is_mismatch : Updater C → Candidate C → Manifest C → Bool
  is_mismatch u c release =
      not (release.product == u.product)
      || not (release.channel == u.channel)
      || C.version_le release.version u.current_version
      || not (c.artifact.target == u.target)
      || (u.channel == stable && not (C.pre_is_empty release.version))

  module _ (H : Host C.Url) where
    -- The download into `package.zip`.
    unfoldable pub save_package : C.Url → ℕ → Exec H.World Bytes
    save_package url limit w =
        let (d, w') = H.download url limit w in continue d.result (λ n. pure d.written) w'

    -- `open_zip` is `ZipArchive::new` and the entries, `directory` the making of the temporary
    -- directory and its file, `sync` the last write.
    unfoldable pub prepare :
        (Bytes → Result (List ZipEntry))
        → Result (Unit {0})
        → Result (Unit {0})
        → Updater C
        → Candidate C
        → Exec H.World PreparedUpdate
    unfolding save_package is_mismatch
    prepare open_zip directory sync u c = do
      release ← lift (verify C u.trust c.signed)
      lift (
          reject_if (is_mismatch u c release)
            (invalid (text "candidate does not match updater policy")))
      lift (reject_if (ltb u.max_download c.artifact.size) size_limit)
      lift directory
      bytes ← save_package c.artifact.url c.artifact.size
      lift sync
      check_cancelled H
      report H verifying
      lift (
          reject_if
            (not (length bytes == c.artifact.size)
              || not (eq_ignore_ascii_case (C.sha256 bytes) c.artifact.sha256))
            (hash_mismatch (text "package.zip")))
      entries ← lift (open_zip bytes)
      files ← lift (extract C entries c.artifact u.max_unpacked)
      report H ready
      pure (record { stage = files; candidate = c; trust = u.trust })
