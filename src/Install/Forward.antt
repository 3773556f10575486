-- ===== src/Install/Forward.antt =====
-- The second loop of `apply` in src/install.rs: whatever fails in it, the disk can be recovered, and
-- the journal in memory knows each item that may be changed.
use freshen.Base.{
  ◌≡◌, refl, sym, ap, subst, ◌∙◌, inl, inr, false, List, [], ◌∷◌, Option, some, Member,
}
use freshen.Base.Bytes.{Bytes}
use freshen.Base.Outcome.{Result, ok, err}
use freshen.Base.Exec.{Exec, ◌>>◌}
use freshen.Base.Triples.{Ends, Triple, Triple-weaken, >>=-Triple}
use freshen.Policy.{InstallLayout, portable}
use freshen.Storage.Tree.{Node, Place, look}
use freshen.Storage.{Disk, Area, installation, staging, backups, tree}
use freshen.Storage.Frames.{Frame, Effect, >>=-Effect, saved}
use freshen.Storage.Effects.{safe_join-Effect, copy_tree_with_retry-Effect}
use freshen.Storage.Contents.{Effect-Triple, safe_join-Triple}
use freshen.Install.{Platform, Journal, awaiting_confirmation, with_state}
use freshen.Install.Folders.{save_journal}
use freshen.Install.Apply.{place_item, on_disk, edit, add_touched, save, note, install_items}
use freshen.Install.Recovery.{is_final}
use freshen.Install.Restore.{place, AreApart, IsCovered, IsSafe}
use freshen.Install.Rollback.{IsSaved-Frame}
use freshen.Install.Members.{Member-snoc_iff}
use freshen.Install.Crash.{Recoverable, Recoverable-same, IsSafe-same, save_journal-Triple}

on_disk-Ends :
    {A : Type 0} (Post : A → Journal × Disk → Type 0) (Fail : Journal × Disk → Type 0) (j : Journal)
    (r : Result A) (d : Disk)
    → Ends (λ a e. Post a (j, e)) (λ e. Fail (j, e)) r d
    → Ends Post Fail r (j, d)
on_disk-Ends Post Fail j (ok a) d h = h
on_disk-Ends Post Fail j (err e) d h = h

pub on_disk-Triple :
    {A : Type 0} {m : Exec Disk A} (Pre : Journal × Disk → Type 0)
    (Post : A → Journal × Disk → Type 0) (Fail : Journal × Disk → Type 0)
    → ((j : Journal) → Triple (λ d. Pre (j, d)) m (λ a d. Post a (j, d)) (λ d. Fail (j, d)))
    → Triple Pre (on_disk m) Post Fail
on_disk-Triple {m} Pre Post Fail h = record {
  ends = λ w p. on_disk-Ends Post Fail w.0 (m w.1).0 (m w.1).1 ((h w.0).ends w.1 p);
}

place_item-Effect :
    (S : Platform) (owned : List Bytes) (executable : Bytes) (directories : List Bytes)
    (item : Bytes) (p : Place)
    → Effect installation p (place_item S (portable owned executable directories) item p)
unfolding place_item
place_item-Effect S owned executable directories item p =
    >>=-Effect (safe_join-Effect staging item)
      (λ q. copy_tree_with_retry-Effect staging q installation p)

module _ (S : Platform) (Sighted : Type 0) (old : Option Node) (names : List Bytes)
    (apart : AreApart old names) where
  -- The journal in memory: what it does not name is unchanged, and every item is covered.
  abbrev pub Held : Journal → Disk → Type 0
  Held j d =
      IsSafe Sighted old names j d
      × ((x : Bytes) → Member x names → IsCovered Sighted old names j.existing x d)

  abbrev pub Facts : Journal → Type 0
  Facts j = ((x : Bytes) → Member x j.touched → Member x names) × (is_final j.status.state ≡ false)

  abbrev pub Inv : Journal × Disk → Type 0
  Inv w = Recoverable S Sighted old names w.1 × (Held w.0 w.1 × Facts w.0)

  pub Held-same :
      (j : Journal) (d e : Disk) → ((b : Area) → tree b e ≡ tree b d) → Held j d → Held j e
  Held-same j d e t (s, c) = (
    IsSafe-same S Sighted old names j d e t s,
    λ x m. (λ k. let (l, f) = (c x m).0 k in (ap (look (place x)) (t backups) ∙ l, f), (c x m).1),
  )

  Inv-same :
      (j : Journal) (d e : Disk)
      → ((b : Area) → tree b e ≡ tree b d)
      → saved e ≡ saved d
      → Inv (j, d)
      → Inv (j, e)
  Inv-same j d e t s (r, (h, f)) =
      (Recoverable-same S Sighted old names d e t s r, (Held-same j d e t h, f))

  -- The journal is on the disk too.
  abbrev Both : Journal × Disk → Type 0
  Both w = (saved w.1 ≡ some (S.print_journal w.0)) × (Held w.0 w.1 × Facts w.0)

  Inv-of_Both : (w : Journal × Disk) → Both w → Inv w
  Inv-of_Both w (s, (h, f)) = (
    record {
      journal = w.0;
      on_disk = s;
      safe = h.0;
      named = f.0;
      settled = λ t. let u = f.1 in cc;
    },
    (h, f),
  )

  save_journal-Both :
      (j : Journal)
      → Facts j
      → Triple
          (λ d. Recoverable S Sighted old names d × Held j d)
          (save_journal S j)
          (λ _ d. Both (j, d))
          (λ d. Inv (j, d))
  save_journal-Both j f =
      Triple-weaken
        (save_journal-Triple S Sighted old names j f.0 (Held j) (Held-same j) (λ d k. k.0)
          (λ d k t. let u = f.1 in cc))
        (λ d k. k) (λ u d k. (k.0, (k.1, f))) (λ d k. (k.0, (k.1, f)))

  save-Triple : Triple Inv (save S) (λ _. Both) Inv
  save-Triple = record {
    ends = λ w h.
        on_disk-Ends (λ _. Both) Inv w.0 (save_journal S w.0 w.1).0 (save_journal S w.0 w.1).1
          ((save_journal-Both w.0 h.1.1).ends w.1 (h.0, h.1.0));
  }

  -- The intent is noted before the change.
  add_touched-Inv :
      (x : Bytes) (w : Journal × Disk) → Member x names → Inv w → Inv (add_touched x w.0, w.1)
  add_touched-Inv x w m (r, ((s, c), (n, f))) = (
    r,
    (
      (
        λ y k. (λ u. (s y k).0 (λ v. u ((Member-snoc_iff w.0.touched x y).1 (inl v))), λ u. c y k),
        c,
      ),
      (
        λ y u. elim ((Member-snoc_iff w.0.touched x y).0 u) [
          | inl v ↦ n y v
          | inr e ↦ subst (λ z. Member z names) e m
        ],
        f,
      ),
    ),
  )

  module _ (x : Bytes) (named : Member x names) where
    Both-Frame :
        (j : Journal) (d e : Disk)
        → Member x j.touched
        → Frame installation (place x) d e
        → Both (j, d)
        → Both (j, e)
    Both-Frame j d e t f (s, ((h, c), k)) =
        let (s', h') =
          IsSaved-Frame S Sighted old names apart j (S.print_journal j) x named t d e f (s, h) in
        (
          s',
          (
            (
              h',
              λ y m. (
                λ u.
                    let (l, v) = (c y m).0 u in
                    (ap (look (place y)) (f.others backups refl) ∙ l, v),
                (c y m).1,
              ),
            ),
            k,
          ),
        )

    -- The journal on the disk names the item.
    abbrev Noted : Journal × Disk → Type 0
    Noted w = Both w × Member x w.0.touched

    note-Triple : Triple Inv (note S x) (λ _. Noted) Inv
    note-Triple = record {
      ends = λ w h.
          on_disk-Ends (λ _. Noted) Inv (add_touched x w.0)
            (save_journal S (add_touched x w.0) w.1).0 (save_journal S (add_touched x w.0) w.1).1
            (let i = add_touched-Inv x w named h in
              (noted (add_touched x w.0) i.1.1
                  ((Member-snoc_iff w.0.touched x x).1 (inr refl))).ends
                w.1 (i.0, i.1.0));
    }
      where
        noted :
            (j : Journal)
            → Facts j
            → Member x j.touched
            → Triple
                (λ d. Recoverable S Sighted old names d × Held j d)
                (save_journal S j)
                (λ _ d. Noted (j, d))
                (λ d. Inv (j, d))
        noted j f m = Triple-weaken (save_journal-Both j f) (λ d k. k) (λ u d k. (k, m)) (λ d k. k)

    place-Triple :
        (layout : InstallLayout)
        → Effect installation (place x) (place_item S layout x (place x))
        → Triple Noted (on_disk (place_item S layout x (place x))) (λ _. Inv) Inv
    place-Triple layout effect =
        on_disk-Triple Noted (λ _. Inv) Inv
          (λ j.
            Triple-weaken
              (Effect-Triple (λ d. Noted (j, d)) effect
                (λ d e f (b, m). (Both-Frame j d e m f b, m)))
              (λ d h. h) (λ u d h. Inv-of_Both (j, d) h.0) (λ d h. Inv-of_Both (j, d) h.0))

  await-Triple : Triple Inv (edit (with_state awaiting_confirmation)) (λ _. Inv) Inv
  await-Triple = record { ends = λ w (r, (k, f)). (r, (k, (f.0, refl))) }

  -- The loop, on a portable layout.
  pub install_items-Triple :
      (owned : List Bytes) (executable : Bytes) (directories xs : List Bytes)
      → ((x : Bytes) → Member x xs → Member x names)
      → Triple Inv (install_items S (portable owned executable directories) xs) (λ _. Inv) Inv
  unfolding install_items
  install_items-Triple owned executable directories [] h =
      >>=-Triple {Mid = λ _. Inv} await-Triple
        (λ _. Triple-weaken save-Triple (λ w i. i) (λ u w b. Inv-of_Both w b) (λ w i. i))
  install_items-Triple owned executable directories (x ∷ xs) h =
      let layout = portable owned executable directories in
      let named = h x (inl refl) in
      >>=-Triple {Mid = λ p w. Inv w × (p ≡ place x)}
        (on_disk-Triple Inv (λ p w. Inv w × (p ≡ place x)) Inv
          (λ j. safe_join-Triple (λ d. Inv (j, d)) installation x (Inv-same j)))
        (λ p. record {
          ends = λ w (i, e).
              subst
                (λ z.
                  Ends (λ _. Inv) Inv
                    ((note S x >> (on_disk (place_item S layout x z) >> install_items S layout xs))
                      w).0
                    ((note S x >> (on_disk (place_item S layout x z) >> install_items S layout xs))
                      w).1)
                (sym e)
                ((>>=-Triple (note-Triple x named) (λ _.
                    >>=-Triple
                      (place-Triple x named layout
                        (place_item-Effect S owned executable directories x (place x)))
                      (λ _.
                        install_items-Triple owned executable directories xs
                          (λ y m. h y (inr m))))).ends
                  w i);
        })
