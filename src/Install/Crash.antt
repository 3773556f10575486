-- ===== src/Install/Crash.antt =====
-- `save_journal` and `rollback_inner` of src/install.rs on a disk that can be recovered.
use freshen.Base.{
  ◌≡◌, ap, ◌∙◌, inl, inr, true, List, Option, some, list_eq, nat_eq, Member, Option-cases,
}
use freshen.Base.Bytes.{Bytes}
use freshen.Base.Triples.{Triple, Triple-weaken, >>=-Triple}
use freshen.Storage.Tree.{Node, look}
use freshen.Storage.{Disk, Area, installation, staging, backups, tree, in_folder}
use freshen.Storage.Frames.{saved}
use freshen.Storage.Contents.{Quiet-Triple, call-Quiet, saved-none}
use freshen.Install.{Platform, Journal}
use freshen.Install.Folders.{write_journal, save_journal}
use freshen.Install.Recovery.{is_final}
use freshen.Install.Restore.{place, AreRestored, IsSafe}

in_folder-tree :
    (b : Area) (text : Bytes) (d : Disk)
    → tree b (in_folder (λ t. record t { journal = some text }) d) ≡ tree b d
unfolding in_folder tree
in_folder-tree installation text d = elim (Option-cases d.transaction) [
  | inl e ↦ rw e
  | inr (t, e) ↦ rw e
]
in_folder-tree staging text d = elim (Option-cases d.transaction) [
  | inl e ↦ rw e
  | inr (t, e) ↦ rw e
]
in_folder-tree backups text d = elim (Option-cases d.transaction) [
  | inl e ↦ rw e
  | inr (t, e) ↦ rw e
]

pub in_folder-saved_as :
    (text : Bytes) (d : Disk) {before : Bytes}
    → saved d ≡ some before
    → saved (in_folder (λ t. record t { journal = some text }) d) ≡ some text
unfolding in_folder saved
in_folder-saved_as text d h = elim (Option-cases d.transaction) [
  | inl e ↦ let e' = saved-none d e in cc
  | inr (t, e) ↦ rw e
]

module _ (S : Platform) (Sighted : Type 0) (old : Option Node) (names : List Bytes) where
  -- The journal on the disk tells how to put every item back: it is read by a recovery.
  pub record Recoverable (d : Disk) : Type 0 where
    pub journal : Journal
    pub on_disk : saved d ≡ some (S.print_journal journal)
    pub safe : IsSafe Sighted old names journal d
    pub named : (x : Bytes) → Member x journal.touched → Member x names
    pub settled : is_final journal.status.state ≡ true → Sighted → AreRestored old names d

  -- Conditions on the trees alone.
  abbrev pub OfTrees : (Disk → Type 0) → Type 0
  OfTrees T = (d e : Disk) → ((b : Area) → tree b e ≡ tree b d) → T d → T e

  pub AreRestored-same : OfTrees (AreRestored old names)
  AreRestored-same d e t h x m = ap (look (place x)) (t installation) ∙ h x m

  pub IsSafe-same : (j : Journal) → OfTrees (IsSafe Sighted old names j)
  IsSafe-same j d e t h x m = (
    λ u. ap (look (place x)) (t installation) ∙ (h x m).0 u,
    λ u.
        let c = (h x m).1 u in
        (λ k. let (l, f) = c.0 k in (ap (look (place x)) (t backups) ∙ l, f), c.1),
  )

  pub Recoverable-same :
      (d e : Disk)
      → ((b : Area) → tree b e ≡ tree b d)
      → saved e ≡ saved d
      → Recoverable d
      → Recoverable e
  Recoverable-same d e t s r = record {
    journal = r.journal;
    on_disk = s ∙ r.on_disk;
    safe = IsSafe-same r.journal d e t r.safe;
    named = r.named;
    settled = λ f g. AreRestored-same d e t (r.settled f g);
  }

  module _ (j : Journal) (named : (x : Bytes) → Member x j.touched → Member x names)
      (T : Disk → Type 0) (trees : OfTrees T)
      (safe : (d : Disk) → T d → IsSafe Sighted old names j d)
      (settled : (d : Disk)
        → T d
        → is_final j.status.state ≡ true
        → Sighted
        → AreRestored old names d) where
    abbrev Both : Disk → Type 0
    Both d = Recoverable d × T d

    abbrev Written : Disk → Type 0
    Written d = (saved d ≡ some (S.print_journal j)) × T d

    Both-same :
        (d e : Disk) → ((b : Area) → tree b e ≡ tree b d) → saved e ≡ saved d → Both d → Both e
    Both-same d e t s (r, h) = (Recoverable-same d e t s r, trees d e t h)

    Written-same :
        (d e : Disk)
        → ((b : Area) → tree b e ≡ tree b d)
        → saved e ≡ saved d
        → Written d
        → Written e
    Written-same d e t s (r, h) = (s ∙ r, trees d e t h)

    Both-of_Written : (d : Disk) → Written d → Both d
    Both-of_Written d (s, h) = (
      record { journal = j; on_disk = s; safe = safe d h; named = named; settled = settled d h },
      h,
    )

    write_journal-Triple : Triple Both (write_journal S j) (λ _. Written) Both
    unfolding write_journal
    write_journal-Triple = record {
      ends = λ d (r, h). (
        in_folder-saved_as (S.print_journal j) d r.on_disk,
        trees d (write_journal S j d).1 (λ b. in_folder-tree b (S.print_journal j) d) h,
      );
    }

    -- Whatever call of it fails, the disk can be recovered before and after the rename.
    pub save_journal-Triple : Triple Both (save_journal S j) (λ _. Written) Both
    unfolding save_journal
    save_journal-Triple = >>=-Triple (Quiet-Triple Both call-Quiet Both-same) (λ _.
        >>=-Triple write_journal-Triple (λ _.
          Triple-weaken (Quiet-Triple Written call-Quiet Written-same) (λ d h. h) (λ u d h. h)
            Both-of_Written))
