-- ===== src/Storage/Retries.antt =====
-- Copies that are tried again, and removals: what they leave at their place when they return.
use freshen.Base.{
  ◌≡◌, refl, sym, ap, ◌∙◌, subst, inl, inr, Bool, true, false, Option, none, some, ℕ, zero, suc,
  Bool-cases,
}
use freshen.Base.Bytes.{Bytes}
use freshen.Base.Outcome.{Result, ok, err, Error}
use freshen.Base.Exec.{Exec}
use freshen.Base.Triples.{Ends, Triple, Triple-weaken, Triple-both, >>=-Triple}
use freshen.Storage.Tree.{Node, file, dir, link, special, Place, look, cut}
use freshen.Storage.Lookup.{look-cut}
use freshen.Storage.{
  Disk, Area, tree, call, copy_tree, copy_found, copy_from, retry, retry_early, is_denied,
  copy_retrying, copy_tree_with_retry, cut_tree, remove_found, remove_tree,
}
use freshen.Storage.Frames.{is_area, saved}
use freshen.Storage.Effects.{copy_from-Effect}
use freshen.Storage.Contents.{
  HasJournal, Holds, Quiet-Triple, Effect-Triple, call-Quiet, in_time-Quiet, copy_file-Triple,
  tree-store,
}

module _ (source : Area) (q : Place) (a : Area) (p : Place) (c : Bytes) (x : Bool)
    (text : Bytes) where
  -- A regular file stands at the source.
  abbrev pub Source : Disk → Type 0
  Source d = HasJournal text d × (look q (tree source d) ≡ some (file c x))

  abbrev pub Copied : Unit {0} → Disk → Type 0
  Copied u = Holds a p (file c x) text

  Source-quiet :
      (d e : Disk) → ((b : Area) → tree b e ≡ tree b d) → saved e ≡ saved d → Source d → Source e
  Source-quiet d e t s (h, l) = (s ∙ h, ap (look q) (t source) ∙ l)

  -- What is found is copied.
  copy_found-Triple :
      Triple Source (λ d. copy_found (look q (tree source d)) a p d) Copied (λ _. Unit {0})
  unfolding copy_found copy_tree
  copy_found-Triple = record {
    ends = λ d (h, l).
        subst (λ o. Ends Copied (λ _. Unit {0}) (copy_found o a p d).0 (copy_found o a p d).1)
          (sym l) ((copy_file-Triple (file c x) a p text).ends d h);
  }

  copy_from-Copied : Triple Source (copy_from source q a p) Copied (λ _. Unit {0})
  unfolding copy_from
  copy_from-Copied =
      >>=-Triple
        (Triple-weaken (Quiet-Triple Source call-Quiet Source-quiet) (λ d h. h) (λ u d h. h)
          (λ d h. tt))
        (λ _. copy_found-Triple)

  module _ (differ : is_area a source ≡ false) where
    copy_from-Source : Triple Source (copy_from source q a p) (λ _. Source) Source
    copy_from-Source =
        Effect-Triple Source (copy_from-Effect source q a p)
          (λ d e f (h, l). (f.journal ∙ h, ap (look q) (f.others source differ) ∙ l))

    pub copy_from-Triple : Triple Source (copy_from source q a p) Copied Source
    copy_from-Triple =
        Triple-weaken (Triple-both copy_from-Copied copy_from-Source) (λ d h. (h, h)) (λ u d h. h.0)
          (λ d h. h.1)

    retry_early-Triple :
        (e : Error) (again : Exec Disk (Unit {0})) (early : Bool)
        → Triple Source again Copied Source
        → Triple Source (retry_early e again early) Copied Source
    unfolding retry_early
    retry_early-Triple e again false h = record { ends = λ d s. s }
    retry_early-Triple e again true h = elim (Bool-cases (is_denied e)) [
      | inl t ↦ rw t h
      | inr f ↦ rw f (record { ends = λ d s. s })
    ]

    retry-Ends :
        (again : Exec Disk (Unit {0})) (r : Result (Unit {0})) (d : Disk)
        → Triple Source again Copied Source
        → Ends Copied Source r d
        → Ends Copied Source (retry again r d).0 (retry again r d).1
    unfolding retry
    retry-Ends again (ok u) d h s = s
    retry-Ends again (err e) d h s =
        (>>=-Triple (Quiet-Triple Source in_time-Quiet Source-quiet)
            (λ early. retry_early-Triple e again early h)).ends
          d s

    copy_retrying-Triple :
        (rounds : ℕ) → Triple Source (copy_retrying rounds source q a p) Copied Source
    unfolding copy_retrying
    copy_retrying-Triple zero = copy_from-Triple
    copy_retrying-Triple (suc rounds) = record {
      ends = λ d s.
          retry-Ends (copy_retrying rounds source q a p) (copy_from source q a p d).0
            (copy_from source q a p d).1 (copy_retrying-Triple rounds) (copy_from-Triple.ends d s);
    }

    -- A copy that returned has put the file at its place, in one of the rounds.
    pub copy_tree_with_retry-Triple :
        Triple Source (copy_tree_with_retry source q a p) Copied Source
    unfolding copy_tree_with_retry
    copy_tree_with_retry-Triple = copy_retrying-Triple 50

module _ (a : Area) (p : Place) (text : Bytes) where
  -- Nothing stands at the place.
  abbrev pub Gone : Unit {0} → Disk → Type 0
  Gone u d = look p (tree a d) ≡ none

  journal-quiet :
      (d e : Disk)
      → ((b : Area) → tree b e ≡ tree b d)
      → saved e ≡ saved d
      → HasJournal text d
      → HasJournal text e
  journal-quiet d e t s h = s ∙ h

  quiet_call : Triple (HasJournal text) call (λ _. HasJournal text) (λ _. Unit {0})
  quiet_call =
      Triple-weaken (Quiet-Triple (HasJournal text) call-Quiet journal-quiet) (λ d h. h)
        (λ u d h. h) (λ d h. tt)

  cut_tree-Triple : Triple (HasJournal text) (cut_tree a p) Gone (λ _. Unit {0})
  unfolding cut_tree
  cut_tree-Triple = >>=-Triple quiet_call (λ _. record {
    ends = λ d h. ap (look p) (tree-store a (cut p (tree a d)) d h) ∙ look-cut p (tree a d);
  })

  remove_found-Ends :
      (o : Option Node) (d : Disk)
      → look p (tree a d) ≡ o
      → HasJournal text d
      → Ends Gone (λ _. Unit {0}) (remove_found o a p d).0 (remove_found o a p d).1
  unfolding remove_found
  remove_found-Ends none d l h = l
  remove_found-Ends (some link) d l h = tt
  remove_found-Ends (some (file c m)) d l h = cut_tree-Triple.ends d h
  remove_found-Ends (some (dir es)) d l h = cut_tree-Triple.ends d h
  remove_found-Ends (some special) d l h = cut_tree-Triple.ends d h

  pub remove_tree-Triple : Triple (HasJournal text) (remove_tree a p) Gone (λ _. Unit {0})
  unfolding remove_tree
  remove_tree-Triple =
      >>=-Triple quiet_call
        (λ _. record { ends = λ d h. remove_found-Ends (look p (tree a d)) d refl h })
