-- ===== src/Helper/Inspected.antt =====
-- What the checks of `confirm_startup` in src/helper.rs find, on a disk that they leave as it is.
use freshen.Base.{
  ◌≡◌, refl, sym, subst, ◌∙◌, Bool, true, false, not, Option, none, some, ◌==◌, list_eq, nat_eq,
  ltb, length, ◌*◌,
}
use freshen.Base.Bytes.{Bytes, split, eq_ignore_ascii_case}
use freshen.Base.Outcome.{
  Result, ok, err, Error, io, not_found, json, size_limit, reject_if, ok_or, reject_if-eq-ok,
  ok_or-inverse,
}
use freshen.Base.Exec.{Exec, lift}
use freshen.Base.Triples.{Ends, Triple, Triple-weaken, >>=-Triple}
use freshen.Crates.{Crates}
use freshen.Manifest.{PackageFile}
use freshen.Storage.Tree.{Node, file, dir, link, special}
use freshen.Storage.{Disk, Area, installation, tree, safe_join}
use freshen.Storage.Frames.{saved}
use freshen.Storage.Contents.{Quiet, call-Quiet, safe_join-Triple}
use freshen.Install.{
  Platform, Journal, InstallStatus, InstallState, prepared, applying, awaiting_confirmation,
  committed, rolling_back, rolled_back, failed,
}
use freshen.Install.Folders.{
  exists, file_of, read_file, load_journal, status_of, installation_status,
}
use freshen.Install.Backed.{saved-file_of}
use freshen.Helper.Confirm.{is_awaiting, awaits, check_program}
use freshen.Helper.Waiting.{Still, Still-Triple}
use freshen.Helper.Running.{transaction-Quiet}

pub not-false : (b : Bool) → not b ≡ false → b ≡ true
not-false true h = refl
not-false false h = cc

pub check_program-inverse :
    (C : Crates) (f : PackageFile) (o : Option Node) {u : Unit {0}}
    → check_program C f o ≡ ok u
    → (c : Bytes) × ((m : Bool) × ((o ≡ some (file c m))
          × (eq_ignore_ascii_case (C.sha256 c) f.sha256 ≡ true)))
unfolding check_program
check_program-inverse C f none h = cc
check_program-inverse C f (some (file c m)) h =
    (c, (m, (refl, not-false _ (reject_if-eq-ok _ _ h))))
check_program-inverse C f (some (dir es)) h = cc
check_program-inverse C f (some link) h = cc
check_program-inverse C f (some special) h = cc

-- A comparison of texts that let the code go on.
pub same_bytes :
    (a b : Bytes) (e : Error) {u : Unit {0}} → reject_if (not (a == b)) e ≡ ok u → a ≡ b
same_bytes a b e h = (list_eq.beq_iff a b).0 (not-false (a == b) (reject_if-eq-ok _ _ h))

is_awaiting-inverse : (s : InstallState) → is_awaiting s ≡ true → s ≡ awaiting_confirmation
is_awaiting-inverse awaiting_confirmation h = refl
is_awaiting-inverse prepared h = cc
is_awaiting-inverse applying h = cc
is_awaiting-inverse committed h = cc
is_awaiting-inverse rolling_back h = cc
is_awaiting-inverse rolled_back h = cc
is_awaiting-inverse failed h = cc

some-injective : {A : Type 0} {x y : A} → some x ≡ some y → x ≡ y
some-injective h = cc

pub awaits-inverse :
    (o : Option InstallStatus)
    → awaits o ≡ true
    → (s : InstallStatus) × ((o ≡ some s) × (s.state ≡ awaiting_confirmation))
awaits-inverse none h = cc
awaits-inverse (some s) h = (s, (refl, is_awaiting-inverse s.state h))

-- The trees and the journal are as before.
module _ (before : Disk) where
  abbrev pub Same : Disk → Type 0
  Same d = ((b : Area) → tree b d ≡ tree b before) × (saved d ≡ saved before)

  pub Same-Still : (d e : Disk) → Still d e → Same d → Same e
  Same-Still d e s (t, j) = (λ b. s.trees b ∙ t b, s.journal ∙ j)

  -- What is known by now, beside it.
  module _ (K : Type 0) where
    abbrev pub With : Disk → Type 0
    With d = Same d × K

    pub look_on : {A : Type 0} {m : Exec Disk A} → Quiet m → Triple With m (λ _. With) Same
    look_on q =
        Triple-weaken (Still-Triple With (λ d e s (h, k). (Same-Still d e s h, k)) q) (λ d h. h)
          (λ x d h. h) (λ d h. h.0)

    pub learn :
        {A : Type 0} (r : Result A) → Triple With (lift r) (λ x d. Same d × (K × (r ≡ ok x))) Same
    learn (ok x) = record { ends = λ d (h, k). (h, (k, refl)) }
    learn (err e) = record { ends = λ d h. h.0 }

    pub join_at :
        (s : Bytes)
        → Triple With (safe_join installation s) (λ p d. Same d × (K × (p ≡ split b'/' s))) Same
    join_at s =
        Triple-weaken
          (safe_join-Triple With installation s
            (λ d e t j (h, k). ((λ b. t b ∙ h.0 b, j ∙ h.1), k)))
          (λ d h. h) (λ p d (h, e). (h.0, (h.1, e))) (λ d h. h.0)

  module _ (S : Platform) where
    -- The status in the journal on the disk.
    abbrev pub IsStatus : InstallStatus → Type 0
    IsStatus s =
        (t : Bytes) × ((j : Journal) × ((saved before ≡ some t)
            × ((S.parse_journal t ≡ some j) × (j.status ≡ s))))

    module _ (K : Type 0) where
      read_text :
          Triple
            (With K)
            (read_file (λ t. t.journal))
            (λ b d. With K d × (saved before ≡ some b))
            Same
      unfolding read_file
      read_text =
          >>=-Triple (look_on K call-Quiet)
            (λ _. record { ends = λ d h. found (file_of (λ t. t.journal) d) d h (saved-file_of d) })
        where
          found :
              (o : Option Bytes) (d : Disk)
              → With K d
              → saved d ≡ o
              → Ends (λ b e. With K e × (saved before ≡ some b)) Same (ok_or o (io not_found)) d
          found none d h e = h.0
          found (some b) d h e = (h, sym h.0.1 ∙ e)

      read_journal : Triple (With K) (load_journal S) (λ j d. With K d × IsStatus j.status) Same
      unfolding load_journal
      read_journal = >>=-Triple read_text (λ b.
          >>=-Triple
            (Triple-weaken
              (learn (K × (saved before ≡ some b))
                (reject_if (ltb (16 * (1024 * 1024)) (length b)) size_limit))
              (λ d h. (h.0.0, (h.0.1, h.1))) (λ x d h. (h.0, h.1.0)) (λ d h. h))
            (λ _.
              Triple-weaken (learn (K × (saved before ≡ some b)) (ok_or (S.parse_journal b) json))
                (λ d h. h)
                (λ j d (h, (k, e)). ((h, k.0), (b, (j, (k.1, (ok_or-inverse _ json e, refl))))))
                (λ d h. h)))

      -- A status that is found is that of the journal.
      pub read_status :
          Triple
            (With K)
            (installation_status S)
            (λ o d. With K d × ((s : InstallStatus) → o ≡ some s → IsStatus s))
            Same
      unfolding installation_status exists
      read_status = >>=-Triple (look_on K transaction-Quiet) (λ _.
          >>=-Triple {Mid = λ b d. With K d} {m = exists S} (record { ends = λ d h. h }) status)
        where
          status :
              (b : Bool)
              → Triple
                  (With K)
                  (status_of S b)
                  (λ o d. With K d × ((s : InstallStatus) → o ≡ some s → IsStatus s))
                  Same
          status false = record { ends = λ d h. (h, λ s e. cc) }
          status true =
              >>=-Triple read_journal
                (λ j. record { ends = λ d (h, i). (h, λ s e. subst IsStatus (some-injective e) i) })
