-- ===== src/Install/Applied.antt =====
-- `apply` of src/install.rs, on a portable layout: whatever call fails, and however far it came, the
-- disk can be recovered.
use freshen.Base.{
  ◌≡◌, refl, sym, subst, ◌∙◌, ◌⊎◌, inr, true, not, List, [], Option, Member, contains, list_eq,
  nat_eq,
}
use freshen.Base.Bytes.{Bytes, text}
use freshen.Base.Outcome.{Result, ok, err, recovery, reject_if, ok-injective}
use freshen.Base.Exec.{lift, ◌>>◌}
use freshen.Base.Triples.{Ends, Triple, Triple-weaken, >>=-Triple}
use freshen.Crates.{Crates, Manifest, Package}
use freshen.Policy.{portable, items}
use freshen.Storage.Tree.{Node, Place}
use freshen.Storage.{Disk, Area, tree}
use freshen.Storage.Frames.{saved}
use freshen.Storage.Contents.{Quiet-Triple, lift-Triple}
use freshen.Install.{
  at_item, Platform, Plan, Journal, ReadsBack, applying, with_state, with_detail, verify_plan,
}
use freshen.Install.Folders.{save_journal}
use freshen.Install.Apply.{install_items, settle, run_install, apply_from, apply, is_prepared}
use freshen.Install.Restore.{HoldsFiles, AreApart}
use freshen.Install.Backing.{Idle, State, Idle-same}
use freshen.Install.Backed.{back_up-Triple, make_backup-Triple, load_journal-Triple}
use freshen.Install.Crash.{Recoverable, save_journal-Triple}
use freshen.Install.Undo.{transaction-Triple, rollback_inner-Triple}
use freshen.Install.Forward.{Held, Held-same, Inv, install_items-Triple}
use freshen.Install.Checking.{verify_stage-Quiet}

module _ {A : Type 0} where
  -- The value of a result that let the code go on.
  lift-known : (P : Disk → Type 0) (r : Result A) → Triple P (lift r) (λ x d. P d × (r ≡ ok x)) P
  lift-known P (ok x) = record { ends = λ d h. (h, refl) }
  lift-known P (err e) = record { ends = λ d h. h }

module _ (C : Crates) (S : Platform) (reads : ReadsBack S) (Sighted : Type 0) (old : Option Node)
    (plan : Plan) (release : Manifest C) (artifact : Package C)
    (verified : verify_plan C S plan ≡ ok (release, artifact))
    (apart : AreApart old (items plan.policy artifact))
    (files : HoldsFiles old (items plan.policy artifact))
    (sighted : Sighted → (p : Place) (d : Disk) → S.sees (at_item p) d ≡ true) where
  -- The journal of a prepared transaction, before which nothing was done.
  module _ (j : Journal) (untouched : j.touched ≡ []) (fresh : j.existing ≡ []) where
    abbrev Start : Disk → Type 0
    Start = Idle old (items plan.policy artifact) apart files (S.print_journal j)

    pub Recoverable-of_Idle :
        (d : Disk) → Start d → Recoverable S Sighted old (items plan.policy artifact) d
    Recoverable-of_Idle d (s, r) = record {
      journal = j;
      on_disk = s;
      safe = λ x m. (λ u. r x m, λ t. absurd (subst (Member x) untouched t));
      named = λ x t. absurd (subst (Member x) untouched t);
      settled = λ f g. r;
    }

    begin-State :
        (d : Disk)
        → Start d
        → State Sighted old
            (items plan.policy artifact)
            apart
            files
            (S.print_journal j)
            (λ y. ⊥)
            j
            d
    unfolding contains
    begin-State d i =
        (i, ((λ y m k. let e = subst (λ l. contains l y ≡ true) fresh k in cc), λ y m v. absurd v))

    Held-of_State :
        (k : Journal) (d : Disk)
        → State Sighted old
            (items plan.policy artifact)
            apart
            files
            (S.print_journal j)
            (λ y. ⊥ ⊎ Member y (items plan.policy artifact))
            k
            d
        → Held S Sighted old (items plan.policy artifact) apart k d
    Held-of_State k d ((s, r), (b, n)) = (
      λ x m. (λ u. r x m, λ u. (λ t. b x m t, λ t. n x m (inr m) t)),
      λ x m. (λ t. b x m t, λ t. n x m (inr m) t),
    )

    abbrev Lasting : Disk → Type 0
    Lasting = Recoverable S Sighted old (items plan.policy artifact)

    abbrev Armed : Journal × Disk → Type 0
    Armed = Inv S Sighted old (items plan.policy artifact) apart

    settle-Ends :
        (r : Result (Unit {0})) (w : Journal × Disk)
        → Ends (λ _. Armed) Armed r w
        → Ends (λ _. Lasting) Lasting (settle C S plan r w.0 w.1).0 (settle C S plan r w.0 w.1).1
    unfolding settle
    settle-Ends (ok u) w h = h.0
    settle-Ends (err e) w h =
        (>>=-Triple
            (Triple-weaken
              (rollback_inner-Triple C S Sighted old (items plan.policy artifact) apart
                (with_detail (S.display e) w.0) h.1.1.0 plan)
              (λ d s. s) (λ k d s. s.0) (λ d s. s))
            (λ k. lift-Triple Lasting (err e))).ends
          w.1 (h.0, h.1.0.0)

    module _ (owned : List Bytes) (executable : Bytes) (directories : List Bytes)
        (layout : plan.policy.layout ≡ portable owned executable directories) where
      run_install-Ends :
          (w : Journal × Disk)
          → Armed w
          → Ends
              (λ _. Lasting)
              Lasting
              (run_install C S plan (items plan.policy artifact) w.0 w.1).0
              (run_install C S plan (items plan.policy artifact) w.0 w.1).1
      unfolding run_install
      run_install-Ends w h =
          settle-Ends (install_items S plan.policy.layout (items plan.policy artifact) w).0
            (install_items S plan.policy.layout (items plan.policy artifact) w).1
            (subst
              (λ l.
                Ends (λ _. Armed) Armed (install_items S l (items plan.policy artifact) w).0
                  (install_items S l (items plan.policy artifact) w).1)
              (sym layout)
              ((install_items-Triple S Sighted old (items plan.policy artifact) apart owned
                  executable directories (items plan.policy artifact) (λ x m. m)).ends
                w h))

      finish_apply :
          (k : Journal)
          → k.touched ≡ j.touched
          → Triple
              (State Sighted old
                (items plan.policy artifact)
                apart
                files
                (S.print_journal j)
                (λ y. ⊥ ⊎ Member y (items plan.policy artifact))
                k)
              (save_journal S (with_state applying k)
                >> run_install C S plan (items plan.policy artifact) (with_state applying k))
              (λ _. Lasting)
              Lasting
      finish_apply k t =
          let empty = t ∙ untouched in
          >>=-Triple
            (Triple-weaken
              (save_journal-Triple S Sighted old (items plan.policy artifact)
                (with_state applying k) (λ x m. absurd (subst (Member x) empty m))
                (Held S Sighted old (items plan.policy artifact) apart k)
                (Held-same S Sighted old (items plan.policy artifact) apart k) (λ d h. h.0)
                (λ d h f. cc))
              (λ d s. (Recoverable-of_Idle d s.0, Held-of_State k d s)) (λ u d h. h) (λ d h. h.0))
            (λ _. record {
              ends = λ d (s, h).
                  run_install-Ends (with_state applying k, d)
                    (
                      record {
                        journal = with_state applying k;
                        on_disk = s;
                        safe = h.0;
                        named = λ x m. absurd (subst (Member x) empty m);
                        settled = λ f. cc;
                      },
                      (h, (λ x m. absurd (subst (Member x) empty m), refl)),
                    );
            })

      Start-same :
          (d e : Disk) → ((b : Area) → tree b e ≡ tree b d) → saved e ≡ saved d → Start d → Start e
      Start-same = Idle-same old (items plan.policy artifact) apart files (S.print_journal j)

      abbrev Known : Manifest C × Package C → Disk → Type 0
      Known v d = Start d × (verify_plan C S plan ≡ ok v)

      Known-same :
          (v : Manifest C × Package C) (d e : Disk)
          → ((b : Area) → tree b e ≡ tree b d)
          → saved e ≡ saved d
          → Known v d
          → Known v e
      Known-same v d e t s (h, k) = (Start-same d e t s h, k)

      apply_from-Triple :
          Triple Start (apply_from C S plan (items plan.policy artifact) j) (λ _. Lasting) Lasting
      unfolding apply_from
      apply_from-Triple =
          >>=-Triple
            (Triple-weaken
              (make_backup-Triple old (items plan.policy artifact) apart files (S.print_journal j))
              (λ d h. h) (λ u d h. begin-State d h) Recoverable-of_Idle)
            (λ _.
              >>=-Triple
                (Triple-weaken
                  (back_up-Triple S Sighted old (items plan.policy artifact) apart files
                    (S.print_journal j) sighted (items plan.policy artifact) (λ y. ⊥) j (λ x m. m))
                  (λ d h. h) (λ k d h. h) Recoverable-of_Idle)
                (λ k. record { ends = λ d (s, t). (finish_apply k t).ends d s }))

      end_of_apply :
          (v : Manifest C × Package C) (k : Journal) (d : Disk)
          → verify_plan C S plan ≡ ok v
          → k ≡ j
          → Start d
          → Ends
              (λ _. Lasting)
              Lasting
              (apply_from C S plan (items plan.policy v.1) k d).0
              (apply_from C S plan (items plan.policy v.1) k d).1
      end_of_apply v k d e same s =
          let e' : (release, artifact) ≡ v = ok-injective (sym verified ∙ e) in
          subst
            (λ w.
              Ends (λ _. Lasting) Lasting (apply_from C S plan (items plan.policy w.1) k d).0
                (apply_from C S plan (items plan.policy w.1) k d).1)
            e'
            (subst
              (λ l.
                Ends (λ _. Lasting) Lasting (apply_from C S plan (items plan.policy artifact) l d).0
                  (apply_from C S plan (items plan.policy artifact) l d).1)
              (sym same) (apply_from-Triple.ends d s))

      -- What `apply` does to the disk, whichever of its calls fails.
      pub apply-Triple : Triple Start (apply C S plan) (λ _. Lasting) Lasting
      unfolding apply
      apply-Triple =
          >>=-Triple
            (Triple-weaken (Quiet-Triple Start (verify_stage-Quiet C S plan) Start-same) (λ d h. h)
              (λ u d h. h) Recoverable-of_Idle)
            (λ _.
              >>=-Triple
                (Triple-weaken (lift-known Start (verify_plan C S plan)) (λ d h. h) (λ v d h. h)
                  Recoverable-of_Idle)
                (λ v.
                  >>=-Triple
                    (Triple-weaken (transaction-Triple (Known v) (Known-same v)) (λ d h. h)
                      (λ u d h. h) (λ d h. Recoverable-of_Idle d h.0))
                    (λ _.
                      >>=-Triple
                        (Triple-weaken
                          (load_journal-Triple S reads (Known v) j (Known-same v) (λ d h. h.0.0))
                          (λ d h. h) (λ k d h. h) (λ d h. Recoverable-of_Idle d h.0))
                        (λ k.
                          >>=-Triple
                            (Triple-weaken
                              (lift-Triple (λ d. Known v d × (k ≡ j))
                                (reject_if (not (is_prepared k.status.state))
                                  (recovery (text "transaction is not prepared"))))
                              (λ d h. h) (λ u d h. h) (λ d h. Recoverable-of_Idle d h.0.0))
                            (λ _. record {
                              ends = λ d ((s, e), same). end_of_apply v k d e same s;
                            })))))
