-- ===== src/Install/Backing.antt =====
-- The first loop of `apply` in src/install.rs copies every item that is there before one is changed.
use freshen.Base.{
  ◌≡◌, refl, sym, ap, subst, ◌∙◌, ◌⊎◌, inl, inr, Bool, true, false, List, ◌∷◌, Option, none, some,
  arith, contains, list_eq, nat_eq, Member, or-eq-false, ◌==◌, Bool-cases, if◌then◌else◌,
}
use freshen.Base.Bytes.{Bytes}
use freshen.Base.Exec.{pure, ◌>>◌}
use freshen.Base.Triples.{Ends, Triple, Triple-weaken, Triple-both, >>=-Triple}
use freshen.Storage.Tree.{Node, file, Place, look, is_apart}
use freshen.Storage.{Disk, Area, installation, backups, tree, copy_from}
use freshen.Storage.Frames.{Frame, saved}
use freshen.Storage.Effects.{copy_from-Effect}
use freshen.Storage.Contents.{Effect-Triple, safe_join-Triple}
use freshen.Storage.Retries.{copy_from-Triple}
use freshen.Install.{Platform, Journal, seen, at_item}
use freshen.Install.Apply.{insert_item, add_existing, back_up_found, back_up_item}
use freshen.Install.Restore.{place, HoldsFiles, AreApart, AreRestored}

contains-insert_item :
    (x y : Bytes) (xs : List Bytes)
    → contains (insert_item x xs) y ≡ true
    → (x ≡ y) ⊎ (contains xs y ≡ true)
unfolding contains
contains-insert_item x y xs h = elim (Bool-cases (contains xs x)) [
  | inl t ↦ inr (subst (λ b. contains (if b then xs else x ∷ xs) y ≡ true) t h)
  | inr f ↦
      let k = subst (λ b. contains (if b then xs else x ∷ xs) y ≡ true) f h in
      elim (Bool-cases (x == y)) [
        | inl e ↦ inl ((list_eq.beq_iff x y).0 e)
        | inr n ↦ inr (ground arith)
      ]
]

not-insert_item :
    (x y : Bytes) (xs : List Bytes)
    → contains (insert_item x xs) y ≡ false
    → (contains xs y ≡ false) × ¬ (x ≡ y)
unfolding contains
not-insert_item x y xs h = elim (Bool-cases (contains xs x)) [
  | inl t ↦
      let k = subst (λ b. contains (if b then xs else x ∷ xs) y ≡ false) t h in
      (k, λ e. let t' = subst (λ z. contains xs z ≡ true) e t in cc)
  | inr f ↦
      let k = subst (λ b. contains (if b then xs else x ∷ xs) y ≡ false) f h in
      let (n, m) = (or-eq-false (x == y) (contains xs y)).0 k in
      (m, λ e. let t = (list_eq.beq_iff x y).1 e in cc)
]

module _ (old : Option Node) (names : List Bytes) (apart : AreApart old names)
    (files : HoldsFiles old names) (text : Bytes) where
  -- Nothing is changed yet.
  abbrev pub Idle : Disk → Type 0
  Idle d = (saved d ≡ some text) × AreRestored old names d

  -- Each item of the set is in the backup, and what is missing in it of the items seen was missing.
  abbrev pub HasBackups : List Bytes → Disk → Type 0
  HasBackups existing d =
      (y : Bytes)
      → Member y names
      → contains existing y ≡ true
      → (look (place y) (tree backups d) ≡ look (place y) old)
        × ((c : Bytes) × ((m : Bool) × (look (place y) old ≡ some (file c m))))

  pub Idle-same :
      (d e : Disk) → ((b : Area) → tree b e ≡ tree b d) → saved e ≡ saved d → Idle d → Idle e
  Idle-same d e t s (h, r) = (s ∙ h, λ x m. ap (look (place x)) (t installation) ∙ r x m)

  pub Idle-Frame : (p : Place) (d e : Disk) → Frame backups p d e → Idle d → Idle e
  Idle-Frame p d e f (h, r) =
      (f.journal ∙ h, λ x m. ap (look (place x)) (f.others installation refl) ∙ r x m)

module _ (Sighted : Type 0) (old : Option Node) (names : List Bytes) (apart : AreApart old names)
    (files : HoldsFiles old names) (text : Bytes) where
  abbrev Unmoved : Disk → Type 0
  Unmoved = Idle old names apart files text

  abbrev pub SeenAll : (Bytes → Type 0) → List Bytes → Type 0
  SeenAll R existing =
      (y : Bytes)
      → Member y names
      → R y
      → contains existing y ≡ false
      → Sighted
      → look (place y) old ≡ none

  abbrev pub State : (Bytes → Type 0) → Journal → Disk → Type 0
  State R j d =
      Unmoved d × (HasBackups old names apart files text j.existing d × SeenAll R j.existing)

  pub State-same :
      (R : Bytes → Type 0) (j : Journal) (d e : Disk)
      → ((b : Area) → tree b e ≡ tree b d)
      → saved e ≡ saved d
      → State R j d
      → State R j e
  State-same R j d e t s (i, (b, n)) = (
    Idle-same old names apart files text d e t s i,
    (λ y m k. let (l, f) = b y m k in (ap (look (place y)) (t backups) ∙ l, f), n),
  )

  module _ (R : Bytes → Type 0) (x : Bytes) (named : Member x names) (j : Journal) where
    abbrev Next : Journal → Disk → Type 0
    Next k d = State (λ y. R y ⊎ (x ≡ y)) k d × (k.touched ≡ j.touched)

    -- An item that is not there is noted by its absence.
    seen_absent :
        (d : Disk)
        → (Sighted → look (place x) (tree installation d) ≡ none)
        → State R j d
        → Next j d
    seen_absent d l (i, (b, n)) = (
      (
        i,
        (
          b,
          λ y m r k g. elim r [
            | inl u ↦ n y m u k g
            | inr e ↦ subst (λ z. look (place z) old ≡ none) e (sym (i.1 x named) ∙ l g)
          ],
        ),
      ),
      refl,
    )

    -- The other items of the backup, apart from the one that is copied.
    abbrev Others : Disk → Type 0
    Others d =
        (y : Bytes)
        → Member y names
        → (contains j.existing y ≡ true) × (is_apart (place x) (place y) ≡ true)
        → (look (place y) (tree backups d) ≡ look (place y) old)
          × ((c : Bytes) × ((m : Bool) × (look (place y) old ≡ some (file c m))))

    Others-Frame : (d e : Disk) → Frame backups (place x) d e → Others d → Others e
    Others-Frame d e f h y m r = let (l, k) = h y m r in (f.apart (place y) r.1 ∙ l, k)

    module _ (c : Bytes) (m : Bool) (known : look (place x) old ≡ some (file c m)) where
      add-Next :
          (d : Disk)
          → Unmoved d
          → Others d
          → SeenAll R j.existing
          → look (place x) (tree backups d) ≡ some (file c m)
          → Next (add_existing x j) d
      add-Next d i o n l = (
        (
          i,
          (
            λ y k h. elim (contains-insert_item x y j.existing h) [
              | inl e ↦
                  subst
                    (λ z.
                      (look (place z) (tree backups d) ≡ look (place z) old)
                      × ((c : Bytes) × ((m : Bool) × (look (place z) old ≡ some (file c m)))))
                    e (l ∙ sym known, (c, (m, known)))
              | inr t ↦ elim (apart x y named k) [
                | inl e ↦
                    subst
                      (λ z.
                        (look (place z) (tree backups d) ≡ look (place z) old)
                        × ((c : Bytes) × ((m : Bool) × (look (place z) old ≡ some (file c m)))))
                      e (l ∙ sym known, (c, (m, known)))
                | inr a ↦ o y k (t, a)
              ]
            ],
            λ y k r h g.
                let (u, v) = not-insert_item x y j.existing h in
                elim r [ inl w ↦ n y k w u g | inr e ↦ absurd (v e) ],
          ),
        ),
        refl,
      )

      copy-Triple :
          Triple
            (State R j)
            (copy_from installation (place x) backups (place x))
            (λ _. Next (add_existing x j))
            Unmoved
      copy-Triple =
          Triple-weaken
            (Triple-both
              (Triple-both (copy_from-Triple installation (place x) backups (place x) c m text refl)
                (Effect-Triple Unmoved (copy_from-Effect installation (place x) backups (place x))
                  (Idle-Frame old names apart files text (place x))))
              (Effect-Triple (λ d. Others d × SeenAll R j.existing)
                (copy_from-Effect installation (place x) backups (place x))
                (λ d e f (o, n). (Others-Frame d e f o, n))))
            (λ d (i, (b, n)). (((i.0, i.1 x named ∙ known), i), (λ y k r. b y k r.0, n)))
            (λ u d ((h, i), (o, n)). add-Next d i o n h.1) (λ d h. h.0.1)

    -- What a look at the item tells.
    abbrev Glimpse : Option Node → Disk → Type 0
    Glimpse none d = Sighted → look (place x) (tree installation d) ≡ none
    Glimpse (some n) d = look (place x) (tree installation d) ≡ some n

    back_up_found-Triple :
        (o : Option Node)
        → Triple (λ d. State R j d × Glimpse o d) (back_up_found o x (place x) j) Next Unmoved
    unfolding back_up_found
    back_up_found-Triple none = record { ends = λ d (s, l). seen_absent d l s }
    back_up_found-Triple (some n) = elim (files x named) [
      | inl gone ↦ record { ends = λ d (s, l). let e = sym (s.0.1 x named ∙ gone) ∙ l in cc }
      | inr (c, (m, known)) ↦
          >>=-Triple
            (Triple-weaken (safe_join-Triple (State R j) backups x (State-same R j)) (λ d h. h.0)
              (λ p d h. h) (λ d h. h.0))
            (λ q. record {
              ends = λ d (s, e).
                  subst
                    (λ z.
                      Ends Next Unmoved
                        ((copy_from installation (place x) backups z >> pure (add_existing x j))
                          d).0
                        ((copy_from installation (place x) backups z >> pure (add_existing x j))
                          d).1)
                    (sym e)
                    ((>>=-Triple (copy-Triple c m known) (λ _. record { ends = λ g h. h })).ends d
                      s);
            })
    ]

    module _ (S : Platform)
        (sighted : Sighted → (p : Place) (d : Disk) → S.sees (at_item p) d ≡ true) where
      glimpsed :
          (b : Bool) (o : Option Node) (d : Disk)
          → S.sees (at_item (place x)) d ≡ b
          → look (place x) (tree installation d) ≡ o
          → Glimpse (seen b o) d
      glimpsed true none d e l = λ g. l
      glimpsed true (some n) d e l = l
      glimpsed false o d e l = λ g. let t = sighted g (place x) d in absurd (cc)

      pub back_up_item-Triple : Triple (State R j) (back_up_item S x (place x) j) Next Unmoved
      unfolding back_up_item
      back_up_item-Triple = record {
        ends = λ d s.
            let b = S.sees (at_item (place x)) d in
            let o = look (place x) (tree installation d) in
            (back_up_found-Triple (seen b o)).ends d (s, glimpsed b o d refl refl);
      }
