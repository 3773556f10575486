-- ===== src/Release/Files.antt =====
-- What the reads and the writes of src/bin/release.rs do to the files.
use freshen.Base.{
  ◌≡◌, refl, sym, ap, subst, ◌∙◌, false, List, [], ◌∷◌, Option, none, some, ◌==◌, list_eq, nat_eq,
  if◌then◌else◌, ==_refl,
}
use freshen.Base.Bytes.{Bytes}
use freshen.Base.Outcome.{IoKind, io, not_found, ok_or}
use freshen.Base.Triples.{Ends, Triple, >>=-Triple}
use freshen.Release.{
  Desk, find_file, step_with, step, read_at, write_all, create_found, create, write_new,
}

-- The files are those of before.
abbrev pub Kept : Desk → Desk → Type 0
Kept before d = (d.files ≡ before.files) × (d.folders ≡ before.folders)

abbrev pub Any : Desk → Type 0
Any d = Unit {0}

module _ (P : Desk → Type 0)
    (closed : (d : Desk) (fs : List (Option IoKind)) → P d → P (record d { faults = fs })) where
  step_with-Ends :
      (fs : List (Option IoKind)) (d : Desk)
      → P d
      → Ends (λ _. P) Any (step_with fs d).0 (step_with fs d).1
  unfolding step_with
  step_with-Ends [] d h = h
  step_with-Ends (none ∷ rest) d h = closed d rest h
  step_with-Ends (some kind ∷ rest) d h = tt

  pub step-Triple : Triple P step (λ _. P) Any
  unfolding step
  step-Triple = record { ends = λ d h. step_with-Ends d.faults d h }

module _ (before : Desk) where
  found :
      (o : Option Bytes) (d : Desk)
      → Kept before d
      → Ends (λ s d. Kept before d × (o ≡ some s)) Any (ok_or o (io not_found)) d
  found none d h = tt
  found (some s) d h = (h, refl)

  -- What is read is what stands there.
  pub read_at-Triple :
      (path : Bytes)
      → Triple
          (Kept before)
          (read_at path)
          (λ s d. Kept before d × (find_file path before.files ≡ some s))
          Any
  unfolding read_at
  read_at-Triple path = >>=-Triple (step-Triple (Kept before) (λ d fs h. h)) (λ _. record {
    ends = λ d h.
        subst
          (λ fs.
            Ends (λ s d. Kept before d × (find_file path before.files ≡ some s)) Any
              (ok_or (find_file path fs) (io not_found)) d)
          (sym h.0) (found (find_file path before.files) d h);
  })

-- The files after a new one.
pub record Wrote (path bytes : Bytes) (before after : Desk) : Type 0 where
  pub fresh : find_file path before.files ≡ none
  pub written : find_file path after.files ≡ some bytes
  pub others :
      (p : Bytes) → (path == p) ≡ false → find_file p after.files ≡ find_file p before.files
  pub folders : after.folders ≡ before.folders

find-filled :
    (path new : Bytes) (fs : List (Bytes × Bytes)) → find_file path ((path, new) ∷ fs) ≡ some new
unfolding find_file
find-filled path new fs = ap (λ b. if b then some new else find_file path fs) (==_refl path)

find-others :
    (path new p : Bytes) (fs : List (Bytes × Bytes))
    → (path == p) ≡ false
    → find_file p ((path, new) ∷ fs) ≡ find_file p fs
unfolding find_file
find-others path new p fs e = ap (λ b. if b then some new else find_file p fs) e

module _ (path bytes : Bytes) (before : Desk) where
  write_all-Wrote :
      {old : Bytes} (new : Bytes) (d : Desk)
      → Wrote path old before d
      → Wrote path new before (write_all path new d).1
  unfolding write_all
  write_all-Wrote new d w = record {
    fresh = w.fresh;
    written = find-filled path new d.files;
    others = λ p e. find-others path new p d.files e ∙ w.others p e;
    folders = w.folders;
  }

  create_found-Ends :
      (o : Option Bytes) (d : Desk)
      → Kept before d
      → find_file path before.files ≡ o
      → Ends (λ _. Wrote path [] before) Any (create_found o path d).0 (create_found o path d).1
  unfolding create_found write_all
  create_found-Ends (some s) d h e = tt
  create_found-Ends none d h e = record {
    fresh = e;
    written = find-filled path [] d.files;
    others = λ p q. find-others path [] p d.files q ∙ ap (find_file p) h.0;
    folders = h.1;
  }

  pub create-Triple : Triple (Kept before) (create path) (λ _. Wrote path [] before) Any
  unfolding create
  create-Triple = >>=-Triple (step-Triple (Kept before) (λ d fs h. h)) (λ _. record {
    ends = λ d h. create_found-Ends (find_file path d.files) d h (ap (find_file path) (sym h.0));
  })

  -- A file that is written anew was not there, and no other file changes.
  pub write_new-Triple :
      Triple (Kept before) (write_new path bytes) (λ _. Wrote path bytes before) Any
  unfolding write_new
  write_new-Triple = >>=-Triple create-Triple (λ _.
      >>=-Triple (step-Triple (Wrote path [] before) closed)
        (λ _. >>=-Triple put (λ _. step-Triple (Wrote path bytes before) closed)))
    where
      closed :
          {old : Bytes} (d : Desk) (fs : List (Option IoKind))
          → Wrote path old before d
          → Wrote path old before (record d { faults = fs })
      closed d fs w = record {
        fresh = w.fresh;
        written = w.written;
        others = w.others;
        folders = w.folders;
      }

      put : Triple (Wrote path [] before) (write_all path bytes) (λ _. Wrote path bytes before) Any
      put = record { ends = λ d w. write_all-Wrote bytes d w }
