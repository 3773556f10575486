-- ===== src/Shared/Ready.antt =====
-- What `inspect` found when it reports an installation as ready.
use freshen.Base.{
  ◌≡◌, refl, sym, ap, subst, ◌∙◌, Bool, true, false, and-eq-true, List, [], ◌∷◌, Option, none, some,
  All, length, ◌==◌, list_eq, nat_eq,
}
use freshen.Base.Bytes.{Bytes, split, eq_ignore_ascii_case}
use freshen.Base.Outcome.{ok}
use freshen.Base.Triples.{Ends-ok, Triple, >>=-Triple}
use freshen.Manifest.{PackageFile}
use freshen.Crates.{Crates}
use freshen.Storage.{Disk, Area, installation, tree}
use freshen.Storage.Tree.{Node, file, dir, link, special, Place, look}
use freshen.Storage.Frames.{saved}
use freshen.Storage.Contents.{call-Quiet, safe_join-Triple}
use freshen.Shared.{attempt, is_current, matches, add_pending, pending_files}

module _ (C : Crates) (root : Option Node) where
  -- The file is on the disk, as it is listed.
  abbrev pub IsPresent : PackageFile → Type 0
  IsPresent f =
      (c : Bytes) × ((m : Bool) × ((look (split b'/' f.path) root ≡ some (file c m))
          × ((length c ≡ f.size) × (eq_ignore_ascii_case (C.sha256 c) f.sha256 ≡ true))))

  abbrev pub Same : Disk → Type 0
  Same d = tree installation d ≡ root

  Same-quiet :
      (d e : Disk) → ((b : Area) → tree b e ≡ tree b d) → saved e ≡ saved d → Same d → Same e
  Same-quiet d e t s h = t installation ∙ h

  is_current-IsPresent :
      (f : PackageFile) (o : Option Node)
      → look (split b'/' f.path) root ≡ o
      → is_current C f o ≡ true
      → IsPresent f
  unfolding is_current
  is_current-IsPresent f none l h = cc
  is_current-IsPresent f (some (file c m)) l h =
      let (a, b) =
        (and-eq-true (length c == f.size) (eq_ignore_ascii_case (C.sha256 c) f.sha256)).0 h in
      (c, (m, (l, ((nat_eq.beq_iff (length c) f.size).0 a, b))))
  is_current-IsPresent f (some (dir es)) l h = cc
  is_current-IsPresent f (some link) l h = cc
  is_current-IsPresent f (some special) l h = cc

  attempt-Same : Triple Same attempt (λ b. Same) Same
  unfolding attempt
  attempt-Same = record { ends = λ d h. call-Quiet.trees installation d ∙ h }

  matches-Triple :
      (f : PackageFile) (p : Place)
      → p ≡ split b'/' f.path
      → Triple Same (matches C f p) (λ b d. Same d × (b ≡ true → IsPresent f)) Same
  unfolding matches
  matches-Triple f p e = >>=-Triple attempt-Same (λ was_read. record {
    ends = λ d h. (
      h,
      λ t.
          is_current-IsPresent f (look p (tree installation d))
            (subst (λ z. look (split b'/' f.path) root ≡ look z (tree installation d)) (sym e)
              (ap (look (split b'/' f.path)) (sym h)))
            ((and-eq-true was_read (is_current C f (look p (tree installation d)))).0 t).1,
    );
  })

  add-IsPresent :
      (b : Bool) (f : PackageFile) (fs : List PackageFile) (rest : List Bytes)
      → (b ≡ true → IsPresent f)
      → (rest ≡ [] → All IsPresent fs)
      → add_pending C b f.path rest ≡ []
      → All IsPresent (f ∷ fs)
  add-IsPresent true f fs rest h k e = (h refl, k e)
  add-IsPresent false f fs rest h k e = cc

  -- Nothing is pending only when every file is present.
  pub pending_files-Triple :
      (fs : List PackageFile)
      → Triple Same (pending_files C fs) (λ l d. Same d × (l ≡ [] → All IsPresent fs)) Same
  unfolding pending_files
  pending_files-Triple [] = record { ends = λ d h. (h, λ e. tt) }
  pending_files-Triple (f ∷ fs) =
      >>=-Triple (safe_join-Triple Same installation f.path Same-quiet) (λ p.
        >>=-Triple {Mid = λ b d. Same d × (b ≡ true → IsPresent f)}
          (record { ends = λ d (h, e). (matches-Triple f p e).ends d h })
          (λ b. record {
            ends = λ d (h, k).
                (>>=-Triple (pending_files-Triple fs)
                    (λ rest. record { ends = λ g (s, r). (s, add-IsPresent b f fs rest k r) })).ends
                  d h;
          }))

pub pending_files-IsPresent :
    (C : Crates) (fs : List PackageFile) (d : Disk)
    → (pending_files C fs d).0 ≡ ok []
    → All (IsPresent C (tree installation d)) fs
pending_files-IsPresent C fs d h =
    (Ends-ok
        (λ l e.
          Same C (tree installation d) e × (l ≡ [] → All (IsPresent C (tree installation d)) fs))
        (Same C (tree installation d)) (pending_files C fs d).0 (pending_files C fs d).1
        ((pending_files-Triple C (tree installation d) fs).ends d refl) h).1
      refl
