-- ===== src/Install/Backed.antt =====
-- The part of `apply` in src/install.rs before the first change: nothing is changed, and every item
-- that is there is in the backup.
use freshen.Base.{
  ◌≡◌, refl, sym, ap, subst, ◌∙◌, ◌⊎◌, inl, inr, true, List, [], ◌∷◌, Option, some, Member,
  Option-cases, ◌*◌, ltb, length,
}
use freshen.Base.Bytes.{Bytes}
use freshen.Base.Outcome.{io, not_found, size_limit, json, ok_or, reject_if}
use freshen.Base.Triples.{Ends, Triple, Triple-weaken, >>=-Triple}
use freshen.Storage.Tree.{Node, Place, look}
use freshen.Storage.{Disk, Folder, Area, installation, tree}
use freshen.Storage.Frames.{saved, in_folder-saved, in_folder-root}
use freshen.Storage.Contents.{Quiet-Triple, call-Quiet, lift-Triple, safe_join-Triple}
use freshen.Install.{at_item, Platform, Journal, ReadsBack}
use freshen.Install.Folders.{file_of, read_file, load_journal}
use freshen.Install.Apply.{back_up, back_up_item, add_backup, make_backup}
use freshen.Install.Restore.{place, HoldsFiles, AreApart}
use freshen.Install.Backing.{Idle, State, Idle-same, State-same, back_up_item-Triple}

add_backup-journal : (t : Folder) → (add_backup t).journal ≡ t.journal
unfolding add_backup
add_backup-journal t = elim (Option-cases t.backup) [ inl e ↦ rw e | inr (b, e) ↦ rw e ]

module _ (S : Platform) (Sighted : Type 0) (old : Option Node) (names : List Bytes)
    (apart : AreApart old names) (files : HoldsFiles old names) (text : Bytes)
    (sighted : Sighted → (p : Place) (d : Disk) → S.sees (at_item p) d ≡ true) where
  pub back_up-Triple :
      (xs : List Bytes) (R : Bytes → Type 0) (j : Journal)
      → ((x : Bytes) → Member x xs → Member x names)
      → Triple
          (State Sighted old names apart files text R j)
          (back_up S xs j)
          (λ k d.
            State Sighted old names apart files text (λ y. R y ⊎ Member y xs) k d
            × (k.touched ≡ j.touched))
          (Idle old names apart files text)
  unfolding back_up
  back_up-Triple [] R j h = record {
    ends =
        λ d (i, (b, n)). ((i, (b, λ y m r. elim r [ inl u ↦ n y m u | inr v ↦ absurd v ])), refl);
  }
  back_up-Triple (x ∷ xs) R j h =
      >>=-Triple
        (Triple-weaken
          (safe_join-Triple (State Sighted old names apart files text R j) installation x
            (State-same Sighted old names apart files text R j))
          (λ d s. s) (λ p d s. s) (λ d s. s.0))
        (λ p.
          >>=-Triple
            {Mid = λ k g.
              State Sighted old names apart files text (λ y. R y ⊎ (x ≡ y)) k g
              × (k.touched ≡ j.touched)}
            (record {
              ends = λ d (s, e).
                  subst
                    (λ z.
                      Ends
                        (λ k g.
                          State Sighted old names apart files text (λ y. R y ⊎ (x ≡ y)) k g
                          × (k.touched ≡ j.touched))
                        (Idle old names apart files text) (back_up_item S x z j d).0
                        (back_up_item S x z j d).1)
                    (sym e)
                    ((back_up_item-Triple Sighted old names apart files text R x (h x (inl refl)) j
                        S sighted).ends
                      d s);
            })
            (λ k. record {
              ends = λ d (s, t).
                  (Triple-weaken (back_up-Triple xs (λ y. R y ⊎ (x ≡ y)) k (λ y m. h y (inr m)))
                      (λ e i. i)
                      (λ l e ((i, (b, n)), u). (
                        (
                          i,
                          (
                            b,
                            λ y m r. n y m (elim r [
                              | inl a ↦ inl (inl a)
                              | inr w ↦ elim w [ inl q ↦ inl (inr q) | inr v ↦ inr v ]
                            ]),
                          ),
                        ),
                        u ∙ t,
                      ))
                      (λ e i. i)).ends
                    d s;
            }))

module _ (old : Option Node) (names : List Bytes) (apart : AreApart old names)
    (files : HoldsFiles old names) (text : Bytes) where
  pub make_backup-Triple :
      Triple
        (Idle old names apart files text)
        make_backup
        (λ _. Idle old names apart files text)
        (Idle old names apart files text)
  unfolding make_backup
  make_backup-Triple =
      >>=-Triple
        (Quiet-Triple (Idle old names apart files text) call-Quiet
          (Idle-same old names apart files text))
        (λ _. record {
          ends = λ d (h, r). (
            in_folder-saved add_backup d (λ t. add_backup-journal t) ∙ h,
            λ x m. ap (look (place x)) (in_folder-root add_backup d) ∙ r x m,
          );
        })

pub saved-file_of : (d : Disk) → saved d ≡ file_of (λ t. t.journal) d
unfolding saved file_of
saved-file_of d = refl

read_file-Triple :
    (P : Disk → Type 0) (before : Bytes)
    → ((d e : Disk) → ((b : Area) → tree b e ≡ tree b d) → saved e ≡ saved d → P d → P e)
    → ((d : Disk) → P d → saved d ≡ some before)
    → Triple P (read_file (λ t. t.journal)) (λ b d. P d × (b ≡ before)) P
unfolding read_file
read_file-Triple P before same known = >>=-Triple (Quiet-Triple P call-Quiet same) (λ _. record {
  ends = λ d h.
      let e = sym (saved-file_of d) ∙ known d h in
      subst (λ o. Ends (λ b d. P d × (b ≡ before)) P (ok_or o (io not_found)) d) (sym e) (h, refl);
})

module _ (S : Platform) (reads : ReadsBack S) where
  -- What is loaded is what was saved.
  pub load_journal-Triple :
      (P : Disk → Type 0) (j : Journal)
      → ((d e : Disk) → ((b : Area) → tree b e ≡ tree b d) → saved e ≡ saved d → P d → P e)
      → ((d : Disk) → P d → saved d ≡ some (S.print_journal j))
      → Triple P (load_journal S) (λ k d. P d × (k ≡ j)) P
  unfolding load_journal
  load_journal-Triple P j same known =
      >>=-Triple (read_file-Triple P (S.print_journal j) same known) (λ b.
        >>=-Triple
          (Triple-weaken
            (lift-Triple (λ d. P d × (b ≡ S.print_journal j))
              (reject_if (ltb (16 * (1024 * 1024)) (length b)) size_limit))
            (λ d h. h) (λ u d h. h) (λ d h. h.0))
          (λ _. record {
            ends = λ d (h, e).
                let r = ap S.parse_journal e ∙ reads j in
                subst (λ o. Ends (λ k d. P d × (k ≡ j)) P (ok_or o json) d) (sym r) (h, refl);
          }))
