-- ===== src/Updater/History.antt =====
-- The ordered map of release notes: insertion keeps it sorted by version and loses no entry.
use freshen.Base.{◌≡◌, subst, ◌↔◌, ◌⊎◌, inl, inr, true, false, List, [], ◌∷◌}
use freshen.Base.{arith, Member, All, Bool-cases, nat_eq, list_eq, list_beq_iff}
use freshen.Base.Bytes.{Bytes}
use freshen.Crates.{Crates, IsTotalOrder}
use freshen.Updater.{ReleaseNotes, before, insert, replaced, conflicts}

module _ (C : Crates) where
  -- Strictly ascending by version.
  abbrev pub IsAscending : List (ReleaseNotes C) → Type 0
  IsAscending [] = Unit
  IsAscending (x ∷ xs) = All (λ y. before C x.version y.version ≡ true) xs × IsAscending xs

  abbrev pub Entry : C.Version → Bytes → ReleaseNotes C
  Entry v n = record { version = v; notes = n }

module _ (C : Crates) (order : IsTotalOrder C) where
  before_trans :
      (a b c : C.Version) → before C a b ≡ true → before C b c ≡ true → before C a c ≡ true
  before_trans a b c p q = ground (arith, order.total a b, order.trans c a b)

  -- Neither is before the other.
  eq_of_before : (a b : C.Version) → before C a b ≡ false → before C b a ≡ false → a ≡ b
  eq_of_before a b p q = order.antisym a b (ground arith) (ground arith)

  All-before_trans :
      (a b : C.Version) (xs : List (ReleaseNotes C))
      → before C a b ≡ true
      → All (λ y. before C b y.version ≡ true) xs
      → All (λ y. before C a y.version ≡ true) xs
  All-before_trans a b [] p h = tt
  All-before_trans a b (x ∷ xs) p h =
      (before_trans a b x.version p h.0, All-before_trans a b xs p h.1)

  -- A property of the new entry and of the old ones holds of all entries of the new map.
  pub All-insert {κ} :
      (P : ReleaseNotes C → Type κ) (v : C.Version) (n : Bytes) (xs : List (ReleaseNotes C))
      → P (Entry C v n)
      → All P xs
      → All P (insert C v n xs)
  unfolding insert
  All-insert P v n [] p h = (p, tt)
  All-insert P v n (x ∷ xs) p h = elim (Bool-cases (before C v x.version)) [
    | inl t ↦ rw t (p, h)
    | inr f ↦ elim (Bool-cases (before C x.version v)) [
      | inl t ↦ rw (f, t) (h.0, All-insert P v n xs p h.1)
      | inr g ↦ rw (f, g) (subst (λ w. P (Entry C w n)) (eq_of_before v x.version f g) p, h.1)
    ]
  ]

  pub insert-IsAscending :
      (v : C.Version) (n : Bytes) (xs : List (ReleaseNotes C))
      → IsAscending C xs
      → IsAscending C (insert C v n xs)
  unfolding insert
  insert-IsAscending v n [] h = (tt, tt)
  insert-IsAscending v n (x ∷ xs) h = elim (Bool-cases (before C v x.version)) [
    | inl t ↦ rw t ((t, All-before_trans v x.version xs t h.0), h)
    | inr f ↦ elim (Bool-cases (before C x.version v)) [
      | inl t ↦
          rw (f, t)
            (
              All-insert (λ y. before C x.version y.version ≡ true) v n xs t h.0,
              insert-IsAscending v n xs h.1,
            )
      | inr g ↦ rw (f, g) h
    ]
  ]

  -- Where no old entry conflicts, the members of the new map are the old ones and the new entry.
  pub Member-insert :
      (v : C.Version) (n : Bytes) (xs : List (ReleaseNotes C)) (e : ReleaseNotes C)
      → conflicts C (replaced C v xs) n ≡ false
      → Member e (insert C v n xs) ↔ (Member e xs ⊎ (Entry C v n ≡ e))
  unfolding insert replaced
  Member-insert v n [] e h = ground arith
  Member-insert v n (x ∷ xs) e h = elim (Bool-cases (before C v x.version)) [
    | inl t ↦ rw t (ground arith)
    | inr f ↦ elim (Bool-cases (before C x.version v)) [
      | inl t ↦ let ih = Member-insert v n xs e (rw (f, t) at h) in rw (f, t) (ground (arith, ih))
      | inr g ↦
          let same_notes : x.notes ≡ n = ground (arith, list_beq_iff x.notes n) in
          let same : record { version = x.version; notes = n } ≡ x = cc in
          let new : Entry C v n ≡ x = cc (eq_of_before v x.version f g) in rw (f, g) (ground arith)
    ]
  ]
