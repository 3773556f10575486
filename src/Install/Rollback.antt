-- ===== src/Install/Rollback.antt =====
-- `rollback_inner` of src/install.rs puts every item back, and a run that fails can be repeated.
use freshen.Base.{
  ◌≡◌, refl, sym, ap, subst, ◌∙◌, ◌⊎◌, inl, inr, Bool, true, false, not, List, [], ◌∷◌, Option,
  some, contains, list_eq, nat_eq, Member, Bool-cases,
}
use freshen.Base.Bytes.{Bytes}
use freshen.Base.Outcome.{unsafe_path, reject_if}
use freshen.Base.Exec.{Exec}
use freshen.Base.Triples.{Ends, Triple, Triple-weaken, Triple-both, >>=-Triple}
use freshen.Storage.Tree.{Node, file, look, is_apart}
use freshen.Storage.{Disk, Area, installation, backups, tree}
use freshen.Storage.Frames.{Frame, Effect, saved}
use freshen.Storage.Effects.{copy_tree_with_retry-Effect, remove_tree-Effect}
use freshen.Storage.Contents.{Effect-Triple, lift-Triple, safe_join-Triple}
use freshen.Storage.Retries.{copy_tree_with_retry-Triple, remove_tree-Triple}
use freshen.Install.{Platform, Journal, seen, at_backup, at_backup_kind}
use freshen.Install.Apply.{put_back_found, put_back, restore_at, restore_item, restore_items}
use freshen.Install.Restore.{place, AreApart, IsRestored, IsCovered, IsSafe}

module _ (S : Platform) (Sighted : Type 0) (old : Option Node) (names : List Bytes)
    (apart : AreApart old names) (j : Journal) (text : Bytes) where
  -- The journal is on the disk, as the given text.
  abbrev pub IsSaved : Disk → Type 0
  IsSaved d = (saved d ≡ some text) × IsSafe Sighted old names j d

  -- The items of a set are as they were.
  abbrev pub Done : (Bytes → Type 0) → Disk → Type 0
  Done R d = (y : Bytes) → Member y names → R y → Sighted → IsRestored old names y d

  IsCovered-after :
      (d e : Disk) (x : Bytes)
      → tree backups e ≡ tree backups d
      → IsCovered Sighted old names j.existing x d
      → IsCovered Sighted old names j.existing x e
  IsCovered-after d e x t c = (λ h. let (l, f) = c.0 h in (ap (look (place x)) t ∙ l, f), c.1)

  pub IsSaved-same :
      (d e : Disk) → ((b : Area) → tree b e ≡ tree b d) → saved e ≡ saved d → IsSaved d → IsSaved e
  IsSaved-same d e t s (h, safe) = (
    s ∙ h,
    λ x m. (
      λ u. ap (look (place x)) (t installation) ∙ (safe x m).0 u,
      λ u. IsCovered-after d e x (t backups) ((safe x m).1 u),
    ),
  )

  Done-same :
      (R : Bytes → Type 0) (d e : Disk) → ((b : Area) → tree b e ≡ tree b d) → Done R d → Done R e
  Done-same R d e t h y m r g = ap (look (place y)) (t installation) ∙ h y m r g

  module _ (x : Bytes) (named : Member x names) where
    -- The items apart from one.
    abbrev Rest : (Bytes → Type 0) → Bytes → Type 0
    Rest R y = R y × (is_apart (place x) (place y) ≡ true)

    Done-Frame :
        (R : Bytes → Type 0) (d e : Disk)
        → Frame installation (place x) d e
        → Done (Rest R) d
        → Done (Rest R) e
    Done-Frame R d e f h y m r g = f.apart (place y) r.1 ∙ h y m r g

    Done-join :
        (R : Bytes → Type 0) (d : Disk)
        → Done (Rest R) d
        → (Sighted → IsRestored old names x d)
        → Done (λ y. R y ⊎ (x ≡ y)) d
    Done-join R d h i y m (inr e) g = subst (λ z. IsRestored old names z d) e (i g)
    Done-join R d h i y m (inl r) g = elim (apart x y named m) [
      | inl e ↦ subst (λ z. IsRestored old names z d) e (i g)
      | inr a ↦ h y m (r, a) g
    ]

    module _ (touched : Member x j.touched) where
      -- A change of a touched item is safe.
      pub IsSaved-Frame : (d e : Disk) → Frame installation (place x) d e → IsSaved d → IsSaved e
      IsSaved-Frame d e f (h, safe) = (
        f.journal ∙ h,
        λ y m. (
          λ u. elim (apart x y named m) [
            | inl e ↦ absurd (u (subst (λ z. Member z j.touched) e touched))
            | inr a ↦ f.apart (place y) a ∙ (safe y m).0 u
          ],
          λ u. IsCovered-after d e y (f.others backups refl) ((safe y m).1 u),
        ),
      )

      module _ (R : Bytes → Type 0) where
        abbrev Begin : Disk → Type 0
        Begin d = IsSaved d × Done R d

        abbrev After : Unit {0} → Disk → Type 0
        After u d = IsSaved d × Done (λ y. R y ⊎ (x ≡ y)) d

        Begin-same :
            (d e : Disk)
            → ((b : Area) → tree b e ≡ tree b d)
            → saved e ≡ saved d
            → Begin d
            → Begin e
        Begin-same d e t s (h, r) = (IsSaved-same d e t s h, Done-same R d e t r)

        -- Code that changes the item's place at most and restores it.
        step :
            {Pre : Disk → Type 0} {m : Exec Disk (Unit {0})}
            → Effect installation (place x) m
            → Triple Pre m (λ _ d. Sighted → IsRestored old names x d) (λ _. Unit {0})
            → Triple (λ d. Begin d × Pre d) m After IsSaved
        step effect restores =
            Triple-weaken
              (Triple-both restores (
                Triple-both (Effect-Triple IsSaved effect IsSaved-Frame)
                  (Effect-Triple (Done (Rest R)) effect (Done-Frame R))))
              (λ d (b, h). (h, (b.0, λ y m r. b.1 y m r.0)))
              (λ u d (i, (s, r)). (s, Done-join R d r i)) (λ d h. h.1.0)

        put_back_found-Ends :
            (c : Bytes) (m sees : Bool) (o : Option Node) (d : Disk)
            → look (place x) old ≡ some (file c m)
            → o ≡ some (file c m)
            → look (place x) (tree backups d) ≡ o
            → Begin d
            → Ends After IsSaved
                (put_back_found sees o x (place x) (place x) d).0
                (put_back_found sees o x (place x) (place x) d).1
        unfolding put_back_found
        put_back_found-Ends c m sees o d k e l b =
            subst
              (λ z.
                Ends After IsSaved (put_back_found sees z x (place x) (place x) d).0
                  (put_back_found sees z x (place x) (place x) d).1)
              (sym e)
              ((step (copy_tree_with_retry-Effect backups (place x) installation (place x)) (
                  Triple-weaken
                    (copy_tree_with_retry-Triple backups (place x) installation (place x) c m text
                      refl)
                    (λ e h. h) (λ u e h g. h.1 ∙ sym k) (λ e h. tt))).ends
                d (b, (b.0.0, l ∙ e)))

        -- A backup that is not seen is an error.
        seen-Ends :
            (c : Bytes) (m b : Bool) (d : Disk)
            → look (place x) old ≡ some (file c m)
            → look (place x) (tree backups d) ≡ some (file c m)
            → Begin d
            → Ends After IsSaved
                (put_back_found
                  (S.sees (at_backup_kind (place x)) d)
                  (seen b (look (place x) (tree backups d)))
                  x
                  (place x)
                  (place x)
                  d).0
                (put_back_found
                  (S.sees (at_backup_kind (place x)) d)
                  (seen b (look (place x) (tree backups d)))
                  x
                  (place x)
                  (place x)
                  d).1
        unfolding put_back_found
        seen-Ends c m true d k l b =
            put_back_found-Ends c m (S.sees (at_backup_kind (place x)) d)
              (look (place x) (tree backups d)) d k l refl b
        seen-Ends c m false d k l b = b.0

        put_back-Triple :
            contains j.existing x ≡ true → Triple Begin (put_back S x (place x)) After IsSaved
        unfolding put_back
        put_back-Triple known =
            >>=-Triple
              (Triple-weaken (safe_join-Triple Begin backups x Begin-same) (λ d h. h) (λ p d h. h)
                (λ d h. h.0))
              (λ q. record {
                ends = λ d (b, e).
                    let (l, (c, (m, k))) = (((b.0.1 x named).1 touched).0 known) in
                    subst
                      (λ z.
                        Ends After IsSaved
                          (put_back_found (S.sees (at_backup_kind z) d)
                            (seen (S.sees (at_backup z) d) (look z (tree backups d))) x z (place x)
                            d).0
                          (put_back_found (S.sees (at_backup_kind z) d)
                            (seen (S.sees (at_backup z) d) (look z (tree backups d))) x z (place x)
                            d).1)
                      (sym e) (seen-Ends c m (S.sees (at_backup (place x)) d) d k (l ∙ k) b);
              })

        restore_at-Triple : Triple Begin (restore_at S j x (place x)) After IsSaved
        unfolding restore_at
        restore_at-Triple = elim (Bool-cases (contains j.existing x)) [
          | inl t ↦ rw t (put_back-Triple t)
          | inr f ↦ rw f (record {
            ends = λ d b.
                let none_before = ((b.0.1 x named).1 touched).1 f in
                (step (remove_tree-Effect installation (place x)) (
                    Triple-weaken (remove_tree-Triple installation (place x) text) (λ e h. h)
                      (λ u e h g. h ∙ sym (none_before g)) (λ e h. tt))).ends
                  d (b, b.0.0);
          })
        ]

        restore_item-Triple :
            (allowed : List Bytes) → Triple Begin (restore_item S allowed j x) After IsSaved
        unfolding restore_item
        restore_item-Triple allowed =
            >>=-Triple
              (Triple-weaken
                (lift-Triple Begin (reject_if (not (contains allowed x)) (unsafe_path x)))
                (λ d h. h) (λ u d h. h) (λ d h. h.0))
              (λ _.
                >>=-Triple
                  (Triple-weaken (safe_join-Triple Begin installation x Begin-same) (λ d h. h)
                    (λ p d h. h) (λ d h. h.0))
                  (λ p. record {
                    ends = λ d (b, e).
                        subst
                          (λ z.
                            Ends After IsSaved (restore_at S j x z d).0 (restore_at S j x z d).1)
                          (sym e) (restore_at-Triple.ends d b);
                  }))

  -- The loop restores each item of its list.
  pub restore_items-Triple :
      (allowed xs : List Bytes) (R : Bytes → Type 0)
      → ((x : Bytes) → Member x xs → Member x names × Member x j.touched)
      → Triple
          (λ d. IsSaved d × Done R d)
          (restore_items S allowed j xs)
          (λ _ d. IsSaved d × Done (λ y. R y ⊎ Member y xs) d)
          IsSaved
  unfolding restore_items
  restore_items-Triple allowed [] R h = record {
    ends = λ d (s, r). (s, λ y m e. elim e [ inl i ↦ r y m i | inr v ↦ absurd v ]);
  }
  restore_items-Triple allowed (x ∷ xs) R h =
      let (named, touched) = h x (inl refl) in
      >>=-Triple (restore_item-Triple x named touched R allowed) (λ _.
        Triple-weaken (restore_items-Triple allowed xs (λ y. R y ⊎ (x ≡ y)) (λ y m. h y (inr m)))
          (λ d s. s)
          (λ u d (s, r). (
            s,
            λ y m e. r y m (elim e [
              | inl i ↦ inl (inl i)
              | inr w ↦ elim w [ inl q ↦ inl (inr q) | inr v ↦ inr v ]
            ]),
          ))
          (λ d s. s))
