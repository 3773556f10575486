-- ===== src/Install/Undo.antt =====
-- `rollback_inner` of src/install.rs: when it returns every item is as it was, and when it fails the
-- disk can still be recovered.
use freshen.Base.{
  ◌≡◌, ◌⊎◌, inl, inr, List, Option, Member, contains, contains_iff, not-contains, Bool-cases,
  list_eq, nat_eq,
}
use mathlib.Core.List.{reverse}
use freshen.Base.Bytes.{Bytes, text}
use freshen.Base.Outcome.{unsafe_path, reject_if}
use freshen.Base.Triples.{Triple, Triple-weaken, >>=-Triple}
use freshen.Crates.{Crates}
use freshen.Policy.{items}
use freshen.Storage.Tree.{Node}
use freshen.Storage.{Disk, Area, tree}
use freshen.Storage.Frames.{saved}
use freshen.Storage.Contents.{Quiet-Triple, call-Quiet, lift-Triple}
use freshen.Install.{Platform, Plan, Journal, rolling_back, rolled_back, with_state, verify_plan}
use freshen.Install.Folders.{transaction}
use freshen.Install.Apply.{rollback_inner}
use freshen.Install.Restore.{AreApart, AreRestored, IsSafe}
use freshen.Install.Rollback.{Done, restore_items-Triple}
use freshen.Install.Members.{Member-reverse, reverse-Member}
use freshen.Install.Crash.{
  Recoverable, Recoverable-same, IsSafe-same, AreRestored-same, save_journal-Triple,
}

pub transaction-Triple :
    (P : Disk → Type 0)
    → ((d e : Disk) → ((b : Area) → tree b e ≡ tree b d) → saved e ≡ saved d → P d → P e)
    → Triple P transaction (λ _. P) P
unfolding transaction
transaction-Triple P k = record {
  ends = λ d h.
      (>>=-Triple (Quiet-Triple P call-Quiet k) (λ _.
          lift-Triple P
            (reject_if d.is_redirected (unsafe_path (text ".freshen/transaction"))))).ends
        d h;
}

module _ (C : Crates) (S : Platform) (Sighted : Type 0) (old : Option Node) (names : List Bytes)
    (apart : AreApart old names) where
  module _ (j : Journal) (named : (x : Bytes) → Member x j.touched → Member x names) where
    -- The items that are not touched, and those that are touched, are all of them.
    all-Done :
        (d : Disk)
        → IsSafe Sighted old names j d
        → Done S Sighted old names apart j
            (S.print_journal j)
            (λ y. ⊥ ⊎ Member y (reverse j.touched))
            d
        → Sighted
        → AreRestored old names d
    all-Done d safe done g x m = elim (Bool-cases (contains j.touched x)) [
      | inl t ↦ done x m (inr (reverse-Member j.touched x ((contains_iff j.touched x).0 t))) g
      | inr f ↦ (safe x m).0 (not-contains j.touched x f)
    ]

    abbrev Safe : Disk → Type 0
    Safe d = Recoverable S Sighted old names d × IsSafe Sighted old names j d

    abbrev Undone : Disk → Type 0
    Undone d = (Sighted → AreRestored old names d) × IsSafe Sighted old names j d

    Safe-same :
        (d e : Disk) → ((b : Area) → tree b e ≡ tree b d) → saved e ≡ saved d → Safe d → Safe e
    Safe-same d e t s (r, h) =
        (Recoverable-same S Sighted old names d e t s r, IsSafe-same S Sighted old names j d e t h)

    pub rollback_inner-Triple :
        (plan : Plan)
        → Triple Safe
            (rollback_inner C S plan j)
            (λ _ d. Recoverable S Sighted old names d × (Sighted → AreRestored old names d))
            (Recoverable S Sighted old names)
    unfolding rollback_inner
    rollback_inner-Triple plan =
        >>=-Triple
          (Triple-weaken (lift-Triple Safe (verify_plan C S plan)) (λ d h. h) (λ v d h. h)
            (λ d h. h.0))
          (λ v.
            >>=-Triple
              (Triple-weaken (transaction-Triple Safe Safe-same) (λ d h. h) (λ u d h. h)
                (λ d h. h.0))
              (λ _.
                >>=-Triple
                  (Triple-weaken
                    (save_journal-Triple S Sighted old names (with_state rolling_back j) named
                      (IsSafe Sighted old names j) (IsSafe-same S Sighted old names j) (λ d h. h)
                      (λ d h f. cc))
                    (λ d h. h) (λ u d h. (h, λ y m r. absurd r)) (λ d h. h.0))
                  (λ _.
                    >>=-Triple
                      (Triple-weaken
                        (restore_items-Triple S Sighted old names apart j
                          (S.print_journal (with_state rolling_back j)) (items plan.policy v.1)
                          (reverse j.touched) (λ y. ⊥)
                          (λ x m. let t = Member-reverse j.touched x m in (named x t, t)))
                        (λ d h. h)
                        (λ u d (s, r). (
                          record {
                            journal = with_state rolling_back j;
                            on_disk = s.0;
                            safe = s.1;
                            named = named;
                            settled = λ f. cc;
                          },
                          (all-Done d s.1 r, s.1),
                        ))
                        (λ d s. record {
                          journal = with_state rolling_back j;
                          on_disk = s.0;
                          safe = s.1;
                          named = named;
                          settled = λ f. cc;
                        }))
                      (λ _.
                        >>=-Triple
                          (Triple-weaken
                            (save_journal-Triple S Sighted old names (with_state rolled_back j)
                              named Undone
                              (λ d e t h. (
                                λ g. AreRestored-same S Sighted old names d e t (h.0 g),
                                IsSafe-same S Sighted old names j d e t h.1,
                              ))
                              (λ d h. h.1) (λ d h f. h.0))
                            (λ d h. h)
                            (λ u d (s, h). (
                              record {
                                journal = with_state rolled_back j;
                                on_disk = s;
                                safe = h.1;
                                named = named;
                                settled = λ f. h.0;
                              },
                              h.0,
                            ))
                            (λ d h. h.0))
                          (λ _. record { ends = λ d h. h })))))
