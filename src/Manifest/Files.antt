-- ===== src/Manifest/Files.antt =====
-- The file loop of `validate`: what the set of paths holds, and when the loop ends without error.
use freshen.Base.{◌≡◌, refl, sym, ◌∙◌, ◌↔◌, ◌⊎◌, inl, inr, false}
use freshen.Base.{
  List, [], ◌∷◌, map, arith, Member, Fresh, All, contains, contains_iff, not-contains, nat_eq,
  list_eq,
}
use freshen.Base.Bytes.{Bytes, to_ascii_lowercase}
use freshen.Base.Outcome.{ok}
use freshen.SafePath.{check_path}
use freshen.SafePath.Grammar.{IsSafePath, check_path_iff}
use freshen.Manifest.{PackageFile, check_hash, check_files}
use freshen.Manifest.Hashes.{IsHash, check_hash_iff}

-- The path as a case-insensitive filesystem compares it.
abbrev pub folded : PackageFile → Bytes
folded f = to_ascii_lowercase f.path

abbrev pub IsSoundFile : PackageFile → Type 0
IsSoundFile f = IsSafePath f.path × IsHash f.sha256

abbrev pub collected : List Bytes → List PackageFile → List Bytes
collected paths [] = paths
collected paths (f ∷ fs) = collected (folded f ∷ paths) fs

check_files-step :
    (paths : List Bytes) (f : PackageFile) (fs : List PackageFile)
    → IsSoundFile f
    → ¬ Member (folded f) paths
    → check_files paths (f ∷ fs) ≡ check_files (folded f ∷ paths) fs
unfolding check_files
check_files-step paths f fs (p, s) n =
    ground (arith, check_path_iff f.path, check_hash_iff f.sha256, contains_iff paths (folded f), n)

check_files-head :
    (paths : List Bytes) (f : PackageFile) (fs : List PackageFile) {out : List Bytes}
    → check_files paths (f ∷ fs) ≡ ok out
    → IsSoundFile f × (¬ Member (folded f) paths)
unfolding check_files
check_files-head paths f fs h =
    let path_ok : check_path f.path ≡ ok tt = ground arith in
    let hash_ok : check_hash f.sha256 ≡ ok tt = ground arith in
    let new : contains paths (folded f) ≡ false = ground arith in
    (
      ((check_path_iff f.path).0 path_ok, (check_hash_iff f.sha256).0 hash_ok),
      not-contains paths (folded f) new,
    )

pub check_files-inverse :
    (paths : List Bytes) (fs : List PackageFile) {out : List Bytes}
    → check_files paths fs ≡ ok out
    → All IsSoundFile fs × Fresh paths (map folded fs) × (collected paths fs ≡ out)
unfolding check_files
check_files-inverse paths [] h = (tt, tt, ground arith)
check_files-inverse paths (f ∷ fs) h =
    let (sound, fresh) = check_files-head paths f fs h in
    let (a, b, c) =
      check_files-inverse (folded f ∷ paths) fs
        (sym (check_files-step paths f fs sound fresh) ∙ h) in
    ((sound, a), (fresh, b), c)

pub check_files_complete :
    (paths : List Bytes) (fs : List PackageFile)
    → All IsSoundFile fs
    → Fresh paths (map folded fs)
    → check_files paths fs ≡ ok (collected paths fs)
unfolding check_files
check_files_complete paths [] a b = refl
check_files_complete paths (f ∷ fs) a b =
    check_files-step paths f fs a.0 b.0 ∙ check_files_complete (folded f ∷ paths) fs a.1 b.1

pub Member-collected :
    (p : Bytes) (paths : List Bytes) (fs : List PackageFile)
    → Member p (collected paths fs) ↔ (Member p (map folded fs) ⊎ Member p paths)
Member-collected p paths [] = (λ m. inr m, λ m. elim m [ inl x ↦ absurd x | inr x ↦ x ])
Member-collected p paths (f ∷ fs) = ground (arith, Member-collected p (folded f ∷ paths) fs)
