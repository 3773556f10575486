-- ===== src/Helper/Acknowledged.antt =====
-- What `confirm_startup` of src/helper.rs has checked of the program before it leaves the token.
use freshen.Base.{
  ◌≡◌, refl, sym, ap, subst, ◌∙◌, Bool, true, not, ◌∷◌, ◌++◌, some, ◌==◌, list_eq, nat_eq,
}
use freshen.Base.Bytes.{Bytes, text, split, eq_ignore_ascii_case}
use freshen.Base.Outcome.{Result, ok, invalid, reject_if, reject_if-eq-ok}
use freshen.Base.Exec.{Exec, lift, pure, ◌>>=◌, ◌>>◌}
use freshen.Base.Triples.{Ends, Triple, Triple-weaken, >>=-Triple, Ends-known}
use freshen.Crates.{Crates}
use freshen.Manifest.{PackageFile}
use freshen.Policy as Policy
use freshen.Storage.Tree.{file, Place, look}
use freshen.Storage.{Disk, installation, tree}
use freshen.Storage.Contents.{Quiet, call-Quiet}
use freshen.Install.{Platform, Plan, InstallStatus, awaiting_confirmation}
use freshen.Install.Folders.{transaction, installation_status}
use freshen.Install.Folders.{load_plan}
use freshen.Install.Recovered.{load_plan-Quiet}
use freshen.Helper.{confirmed, put_mark, write_mark}
use freshen.Helper.Listed.{listed_program}
use freshen.Helper.Program.{IsListed, listed_program-IsListed}
use freshen.Helper.Confirm.{awaits, check_program, acknowledge}
use freshen.Helper.Waiting.{Still-Triple, Still-of_Quiet}
use freshen.Helper.Keeping.{
  tree-set_mark, saved-set_mark, marked, marked-Still, marked-set_mark, is_there, is_there-Still,
  saved-is_there,
}
use freshen.Helper.Running.{transaction-Quiet}
use freshen.Helper.Inspected.{
  not-false, same_bytes, check_program-inverse, awaits-inverse, Same, With, Same-Still, look_on,
  learn, join_at, IsStatus, read_status,
}

-- What was found before the token is left: `token`, `root` and `current` are the token of the
-- environment, the canonical root and the path of the running program.
pub record Acknowledged (C : Crates) (S : Platform) (token root : Bytes) (current : Result Bytes)
    (before after : Disk) : Type 0 where
  pub plan : Plan
  pub loaded : (load_plan C S (transaction before).1).0 ≡ ok plan
  pub same_token : token ≡ plan.token
  pub path : Bytes
  pub program : Bytes
  pub running : current ≡ ok path
  pub is_running : S.canonicalize path ≡ ok program
  pub is_installed : S.canonicalize (root ++ b'/' ∷ Policy.executable plan.policy) ≡ ok program
  pub listed : PackageFile
  pub is_listed : IsListed C plan listed
  pub content : Bytes
  pub mode : Bool
  pub installed :
      look (split b'/' (Policy.executable plan.policy)) (tree installation before)
      ≡ some (file content mode)
  pub digest : eq_ignore_ascii_case (C.sha256 content) listed.sha256 ≡ true
  pub status : InstallStatus
  pub on_disk : IsStatus before S status
  pub awaiting : status.state ≡ awaiting_confirmation
  pub left : marked confirmed after ≡ some token

module _ (C : Crates) (S : Platform) (token root : Bytes) (current : Result Bytes)
    (before : Disk) where
  leave :
      (s : Bytes)
      → Triple
          (λ d. Same before d × (is_there d ≡ true))
          (write_mark confirmed s)
          (λ _ d. Same before d × (marked confirmed d ≡ some s))
          (Same before)
  unfolding write_mark put_mark
  leave s =
      >>=-Triple {Mid = λ u d. Same before d × (is_there d ≡ true)}
        (Triple-weaken
          (Still-Triple (λ d. Same before d × (is_there d ≡ true))
            (λ d e q (h, t). (Same-Still before d e q h, is_there-Still d e q ∙ t)) call-Quiet)
          (λ d h. h) (λ u d h. h) (λ d h. h.0))
        (λ _.
          >>=-Triple {Mid = λ u d. Same before d × (marked confirmed d ≡ some s)}
            {m = put_mark confirmed s}
            (record {
              ends = λ d ((t, j), h). (
                (λ b. tree-set_mark b confirmed s d ∙ t b, saved-set_mark confirmed s d ∙ j),
                marked-set_mark confirmed s d h,
              );
            })
            (λ _.
              Triple-weaken
                (Still-Triple (λ d. Same before d × (marked confirmed d ≡ some s))
                  (λ d e q (h, m). (Same-Still before d e q h, marked-Still confirmed d e q ∙ m))
                  call-Quiet)
                (λ d h. h) (λ u d h. h) (λ d h. h.0)))

  -- What the digest of the program is taken of.
  look_at :
      (K : Type 0) (f : PackageFile) (p : Place)
      → Triple
          (With before K)
          (λ d. (check_program C f (look p (tree installation d)), d))
          (λ u d.
            Same before d × (K × (check_program C f (look p (tree installation before)) ≡ ok u)))
          (Same before)
  look_at K f p = record {
    ends = λ d (h, k).
        subst
          (λ o.
            Ends
              (λ u e.
                Same before e
                × (K × (check_program C f (look p (tree installation before)) ≡ ok u)))
              (Same before) (check_program C f (look p o)) d)
          (sym (h.0 installation))
          ((learn before K (check_program C f (look p (tree installation before)))).ends d (h, k));
  }

  -- From the status on.
  finally :
      (K : Type 0) (plan : Plan)
      → ((d : Disk) (s : InstallStatus)
          → K
          → IsStatus before S s
          → s.state ≡ awaiting_confirmation
          → marked confirmed d ≡ some plan.token
          → Acknowledged C S token root current before d)
      → Triple
          (With before K)
          (do
            status ← installation_status S
            lift (
                reject_if
                  (not (awaits status))
                  (invalid (text "transaction is not awaiting confirmation")))
            write_mark confirmed plan.token
            pure true)
          (λ _ d. Same before d × Acknowledged C S token root current before d)
          (Same before)
  finally K plan make = >>=-Triple (read_status before S K) (λ status.
      >>=-Triple
        (Triple-weaken
          (learn before (K × ((s : InstallStatus) → status ≡ some s → IsStatus before S s)) (
            reject_if (not (awaits status))
              (invalid (text "transaction is not awaiting confirmation"))))
          (λ d h. (h.0.0, (h.0.1, h.1))) (λ u d h. h) (λ d h. h))
        (λ _. record {
          ends = λ d (h, (k, e)).
              let (s, (q, a)) = awaits-inverse status (not-false _ (reject_if-eq-ok _ _ e)) in
              let i = k.1 s q in
              (>>=-Triple (leave plan.token)
                  (λ _. record { ends = λ g (m, l). (m, make g s k.0 i a l) })).ends
                d (h, saved-is_there d (h.1 ∙ i.1.1.0));
        }))

  acknowledge-Triple :
      (plan : Plan)
      → (load_plan C S (transaction before).1).0 ≡ ok plan
      → Triple
          (Same before)
          (acknowledge C S token root current plan)
          (λ _ d. Same before d × Acknowledged C S token root current before d)
          (Same before)
  unfolding acknowledge
  acknowledge-Triple plan loaded =
      Triple-weaken
        (>>=-Triple
          (learn before (Unit {0})
            (reject_if (not (token == plan.token)) (invalid (text "confirmation token mismatch"))))
          (λ _. >>=-Triple (join_at before _ (Policy.executable plan.policy)) (λ p.
            >>=-Triple
              (learn before _ (S.canonicalize (root ++ b'/' ∷ Policy.executable plan.policy)))
              (λ expected. >>=-Triple (learn before _ current) (λ path.
                >>=-Triple (learn before _ (S.canonicalize path)) (λ actual.
                  >>=-Triple
                    (learn before _ (
                      reject_if (not (actual == expected))
                        (invalid (text "unexpected confirming executable"))))
                    (λ _. >>=-Triple (learn before _ (listed_program C plan)) (λ f.
                      >>=-Triple (look_on before _ call-Quiet) (λ _.
                        >>=-Triple (look_at _ f p) (λ _. finally _ plan (λ d s k i a l.
                          let program =
                            check_program-inverse C f (look p (tree installation before)) k.1 in
                          record {
                            plan = plan;
                            loaded = loaded;
                            same_token = same_bytes token plan.token _ k.0.0.0.0.0.0.0.1;
                            path = path;
                            program = actual;
                            running = k.0.0.0.0.1;
                            is_running = k.0.0.0.1;
                            is_installed =
                                k.0.0.0.0.0.1 ∙ ap ok (sym (same_bytes actual expected _ k.0.0.1));
                            listed = f;
                            is_listed = listed_program-IsListed C plan k.0.1;
                            content = program.0;
                            mode = program.1.0;
                            installed =
                                ap (λ z. look z (tree installation before)) (sym k.0.0.0.0.0.0.1)
                                ∙ program.1.1.0;
                            digest = program.1.1.1;
                            status = s;
                            on_disk = i;
                            awaiting = a;
                            left =
                                l ∙ ap some (sym (same_bytes token plan.token _ k.0.0.0.0.0.0.0.1));
                          })))))))))))
        (λ d h. (h, tt)) (λ b d h. h) (λ d h. h)

  -- Code at a known disk.
  at :
      {A : Type 0} (x : Disk) (m : Exec Disk A)
      → Triple (λ d. d ≡ x) m (λ a d. (d ≡ (m x).1) × ((m x).0 ≡ ok a)) (λ d. d ≡ (m x).1)
  at x m = record {
    ends = λ d e.
        subst
          (λ z. Ends (λ a d. (d ≡ (m x).1) × ((m x).0 ≡ ok a)) (λ d. d ≡ (m x).1) (m z).0 (m z).1)
          (sym e) (Ends-known (λ d. d ≡ (m x).1) (m x).0 (m x).1 refl);
  }

  abbrev loading : Disk
  loading = (transaction before).1

  Same-Quiet :
      {A : Type 0} {m : Exec Disk A} (d e : Disk)
      → Quiet m
      → Same before d
      → e ≡ (m d).1
      → Same before e
  Same-Quiet {m} d e q h i =
      subst (Same before) (sym i) (Same-Still before d (m d).1 (Still-of_Quiet q d) h)

  loading-Same : Same before loading
  loading-Same = Same-Quiet before loading transaction-Quiet (λ b. refl, refl) refl

  -- From the plan on.
  pub load_and_acknowledge :
      Triple
        (λ d. d ≡ before)
        (do transaction; plan ← load_plan C S; acknowledge C S token root current plan)
        (λ _ d. Same before d × Acknowledged C S token root current before d)
        (Same before)
  load_and_acknowledge =
      >>=-Triple
        (Triple-weaken (at before transaction) (λ d h. h) (λ u d h. h.0)
          (λ d h. Same-Quiet before d transaction-Quiet (λ b. refl, refl) h))
        (λ _.
          >>=-Triple
            (Triple-weaken (at loading (load_plan C S)) (λ d h. h) (λ u d h. h)
              (λ d h. Same-Quiet loading d (load_plan-Quiet C S) loading-Same h))
            (λ plan. record {
              ends = λ d (e, l).
                  (acknowledge-Triple plan l).ends d
                    (Same-Quiet loading d (load_plan-Quiet C S) loading-Same e);
            }))
