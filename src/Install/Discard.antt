-- ===== src/Install/Discard.antt =====
-- `discard_finished_installation` of src/install.rs keeps what an unfinished installation needs.
use freshen.Base.{
  ◌≡◌, refl, sym, ap, subst, ◌∙◌, ◌⊎◌, inl, inr, Bool, Bool-cases, ◌*◌, true, false, not, ◌||◌,
  List, [], ◌∷◌, Option, none, some, ltb, length,
}
use freshen.Base.Bytes.{Bytes, text}
use freshen.Base.Outcome.{
  Result, ok, err, Error, IoKind, io, not_found, busy, json, size_limit, recovery, unsafe_path,
  ok_or, reject_if,
}
use freshen.Base.Triples.{Ends, Triple, Triple-weaken, >>=-Triple}
use freshen.Storage.{Disk, Folder, call, call_with}
use freshen.Storage.Contents.{lift-Triple}
use freshen.Install.{at_transaction, Platform, Journal, ReadsBack}
use freshen.Install.Folders.{transaction, lock, exists, file_of, read_file, load_journal}
use freshen.Install.Recovery.{
  is_final, is_unapplied, discard_existing, discard_finished_installation,
}

module _ (t : Folder) where
  abbrev Keeps : Disk → Type 0
  Keeps d = d.transaction ≡ some t

  call_with-Keeps :
      (fs : List (Option IoKind)) (d : Disk)
      → Keeps d
      → Ends (λ _. Keeps) Keeps (call_with fs d).0 (call_with fs d).1
  unfolding call_with
  call_with-Keeps [] d h = h
  call_with-Keeps (none ∷ rest) d h = h
  call_with-Keeps (some k ∷ rest) d h = h

  call-Keeps : Triple Keeps call (λ _. Keeps) Keeps
  unfolding call
  call-Keeps = record { ends = λ d h. call_with-Keeps d.faults d h }

  transaction-Keeps : Triple Keeps transaction (λ _. Keeps) Keeps
  unfolding transaction
  transaction-Keeps = record {
    ends = λ d h.
        (>>=-Triple call-Keeps (λ _.
            lift-Triple Keeps
              (reject_if d.is_redirected (unsafe_path (text ".freshen/transaction"))))).ends
          d h;
  }

  lock-Keeps : Triple Keeps lock (λ _. Keeps) Keeps
  unfolding lock
  lock-Keeps = record {
    ends = λ d h.
        (>>=-Triple transaction-Keeps
            (λ _. >>=-Triple call-Keeps (λ _. lift-Triple Keeps (reject_if d.is_locked busy)))).ends
          d h;
  }

  module _ (S : Platform) (reads : ReadsBack S) (j : Journal)
      (known : t.journal ≡ some (S.print_journal j))
      (unfinished : (is_final j.status.state || is_unapplied j.status.state) ≡ false) where
    found : (d : Disk) → Keeps d → file_of (λ f. f.journal) d ≡ some (S.print_journal j)
    unfolding file_of
    found d h = rw (h, known)

    read_file-Keeps :
        Triple Keeps (read_file (λ f. f.journal)) (λ b d. Keeps d × (b ≡ S.print_journal j)) Keeps
    unfolding read_file
    read_file-Keeps = >>=-Triple call-Keeps (λ _. record {
      ends = λ d h.
          subst
            (λ o. Ends (λ b e. Keeps e × (b ≡ S.print_journal j)) Keeps (ok_or o (io not_found)) d)
            (sym (found d h)) (h, refl);
    })

    load_journal-Keeps : Triple Keeps (load_journal S) (λ k d. Keeps d × (k ≡ j)) Keeps
    unfolding load_journal
    load_journal-Keeps = >>=-Triple read_file-Keeps (λ b.
        >>=-Triple
          (Triple-weaken
            (lift-Triple (λ d. Keeps d × (b ≡ S.print_journal j))
              (reject_if (ltb (16 * (1024 * 1024)) (length b)) size_limit))
            (λ d h. h) (λ u d h. h) (λ d h. h.0))
          (λ _. record {
            ends = λ d (h, e).
                subst (λ o. Ends (λ k g. Keeps g × (k ≡ j)) Keeps (ok_or o json) d)
                  (sym (ap S.parse_journal e ∙ reads j)) (h, refl);
          }))

    -- The look at the transaction has missed it.
    abbrev Missed : Disk → Type 0
    Missed d = S.sees at_transaction d ≡ false

    exists-Keeps : Triple Keeps (exists S) (λ b d. Keeps d × ((b ≡ true) ⊎ Missed d)) Keeps
    unfolding exists
    exists-Keeps = record {
      ends = λ d h. elim (Bool-cases (S.sees at_transaction d)) [
        | inl e ↦ (h, inl (rw (e, h) refl))
        | inr e ↦ (h, inr e)
      ];
    }

    -- It never returns, and where it fails the folder is there.
    discard_existing-Keeps : Triple Keeps (discard_existing S true) (λ _ d. ⊥) Keeps
    unfolding discard_existing
    discard_existing-Keeps = >>=-Triple load_journal-Keeps (λ k.
        >>=-Triple {Mid = λ _ d. ⊥}
          (record {
            ends = λ d (h, e).
                subst
                  (λ b.
                    Ends (λ _ d. ⊥) Keeps
                      (reject_if (not b)
                        (recovery (text "cannot discard an unfinished installation")))
                      d)
                  (sym (
                    ap (λ l. is_final l.status.state || is_unapplied l.status.state) e
                    ∙ unfinished))
                  h;
          })
          (λ _. record { ends = λ d h. absurd h }))

    discard_unseen-Keeps :
        (d : Disk)
        → Keeps d
        → Missed d
        → Ends
            (λ _ e. Keeps e × Missed e)
            Keeps
            (discard_existing S false d).0
            (discard_existing S false d).1
    unfolding discard_existing
    discard_unseen-Keeps d h m = (h, m)

    discard_seen-Keeps :
        (b : Bool) (d : Disk)
        → Keeps d
        → (b ≡ true) ⊎ Missed d
        → Ends
            (λ _ e. Keeps e × Missed e)
            Keeps
            (discard_existing S b d).0
            (discard_existing S b d).1
    discard_seen-Keeps true d h m =
        (Triple-weaken discard_existing-Keeps (λ e k. k) (λ u e k. absurd k) (λ e k. k)).ends d h
    discard_seen-Keeps false d h (inl e) = cc
    discard_seen-Keeps false d h (inr m) = discard_unseen-Keeps d h m

    discard-Keeps :
        (root : Bytes)
        → Triple Keeps (discard_finished_installation S root) (λ _ d. Keeps d × Missed d) Keeps
    unfolding discard_finished_installation
    discard-Keeps root =
        >>=-Triple
          (>>=-Triple (lift-Triple Keeps (S.canonicalize root)) (λ r. record { ends = λ d h. h }))
          (λ _. >>=-Triple lock-Keeps (λ _. >>=-Triple transaction-Keeps (λ _.
            >>=-Triple exists-Keeps
              (λ b. record { ends = λ d (h, m). discard_seen-Keeps b d h m }))))

    failed_with :
        {A : Type 0} (r : Result A) (d : Disk)
        → Ends (λ _ g. Keeps g × Missed g) Keeps r d
        → (((e : Error) × (r ≡ err e)) ⊎ Missed d) × Keeps d
    failed_with (ok x) d (h, m) = (inr m, h)
    failed_with (err e) d h = (inl (e, refl), h)

    -- While the journal of a transaction is neither committed nor rolled back nor prepared, the
    -- transaction with its backups stays as it is, whatever calls of the system fail, and
    -- `discard_finished_installation` fails, unless the test whether the transaction is there has
    -- failed.
    pub discard-unfinished :
        (root : Bytes) (d : Disk)
        → d.transaction ≡ some t
        → (((e : Error) × ((discard_finished_installation S root d).0 ≡ err e))
            ⊎ (S.sees at_transaction (discard_finished_installation S root d).1 ≡ false))
          × ((discard_finished_installation S root d).1.transaction ≡ some t)
    discard-unfinished root d h =
        failed_with (discard_finished_installation S root d).0
          (discard_finished_installation S root d).1 ((discard-Keeps root).ends d h)
