-- ===== src/Helper/Waiting.antt =====
-- The waiting of src/helper.rs changes nothing: what the other processes keep is kept while the helper
-- waits for the parent.
use freshen.Base.{◌≡◌, refl, ℕ, zero, suc, Bool, true, false, []}
use freshen.Base.Bytes.{Bytes}
use freshen.Base.Outcome.{Result, ok, err}
use freshen.Base.Exec.{Exec}
use freshen.Base.Triples.{Ends, Triple, Triple-weaken, >>=-Triple, Ends-always, if-Triple}
use freshen.Storage.{Disk, Area, tree, in_folder}
use freshen.Storage.Frames.{saved, marks}
use freshen.Storage.Contents.{Quiet, Quiet-of_Effect, call-Quiet, in_time-Quiet}
use freshen.Install.Folders.{read_file}
use freshen.Install.Recovered.{read_file-Effect}
use freshen.Helper.{
  Session, Mark, cancel, mark_of, text_of, set_mark, put_mark, write_mark, within, ignore, catch,
  observe, has_mark, exited, parent_exited,
}
use freshen.Helper.Execute.{too_late, after_exited, after_cancel, await_round, await_exit}

-- The disk is the same but for the calls and the clock.
pub record Still (d e : Disk) : Type 0 where
  pub trees : (b : Area) → tree b e ≡ tree b d
  pub journal : saved e ≡ saved d
  pub talk : marks e ≡ marks d
  pub calm : d.faults ≡ [] → e.faults ≡ []

pub Still-of_Quiet : {A : Type 0} {m : Exec Disk A} → Quiet m → (d : Disk) → Still d (m d).1
Still-of_Quiet q d = record {
  trees = λ b. q.trees b d;
  journal = q.journal d;
  talk = q.talk d;
  calm = q.calm d;
}

pub has_mark-Quiet : (m : Mark) → Quiet (has_mark m)
unfolding has_mark
has_mark-Quiet m = record {
  trees = λ b d. call-Quiet.trees b d;
  journal = λ d. call-Quiet.journal d;
  talk = λ d. call-Quiet.talk d;
  calm = λ d. call-Quiet.calm d;
}

pub text_of-Quiet : (m : Mark) (s : Bytes) → Quiet (text_of m s)
unfolding text_of
text_of-Quiet m s =
    let q : Quiet (read_file (mark_of m)) = Quiet-of_Effect (λ a p. read_file-Effect (mark_of m)) in
    record {
      trees = λ b d. q.trees b d;
      journal = λ d. q.journal d;
      talk = λ d. q.talk d;
      calm = λ d. q.calm d;
    }

-- A call on the disk in a session.
pub within-Triple :
    {A : Type 0} {m : Exec Disk A} {Pre : Disk → Type 0} {Post : A → Disk → Type 0}
    {Fail : Disk → Type 0}
    → Triple Pre m Post Fail
    → Triple (λ w. Pre w.disk) (within m) (λ x w. Post x w.disk) (λ w. Fail w.disk)
unfolding within
within-Triple {A} {m} {Post} {Fail} t = record {
  ends = λ w h. carry (m w.disk).0 (m w.disk).1 w (t.ends w.disk h);
}
  where
    carry :
        (r : Result A) (d : Disk) (w : Session)
        → Ends Post Fail r d
        → Ends (λ x v. Post x v.disk) (λ v. Fail v.disk) r (record w { disk = d })
    carry (ok x) d w h = h
    carry (err e) d w h = h

pub catch-Triple :
    {A B : Type 0} {Pre : Session → Type 0} {Mid : A → Session → Type 0} {Fail : Session → Type 0}
    {Post : B → Session → Type 0} {Fail' : Session → Type 0} {m : Exec Session A}
    {next : Result A → Exec Session B}
    → Triple Pre m Mid Fail
    → ((r : Result A) → Triple (Ends Mid Fail r) (next r) Post Fail')
    → Triple Pre (catch m next) Post Fail'
unfolding catch
catch-Triple {m} t k = record { ends = λ w h. (k (m w).0).ends (m w).1 (t.ends w h) }

module _ (P : Disk → Type 0) (closed : (d e : Disk) → Still d e → P d → P e) where
  pub Still-Triple : {A : Type 0} {m : Exec Disk A} → Quiet m → Triple P m (λ _. P) P
  Still-Triple {m} q = record {
    ends = λ d h. Ends-always P (m d).0 (m d).1 (closed d (m d).1 (Still-of_Quiet q d) h);
  }

  pub write_mark-Triple :
      (m : Mark) (s : Bytes)
      → ((d : Disk) → P d → P (in_folder (set_mark m s) d))
      → Triple P (write_mark m s) (λ _. P) P
  unfolding write_mark
  write_mark-Triple m s k =
      >>=-Triple (Still-Triple call-Quiet) (λ _. >>=-Triple put (λ _. Still-Triple call-Quiet))
    where
      put : Triple P (put_mark m s) (λ _. P) P
      put = record { ends = λ d h. k d h }

pub ignore-Triple :
    {A : Type 0} {m : Exec Disk A} (P : Disk → Type 0)
    → Triple P m (λ _. P) P
    → Triple P (ignore m) (λ _. P) P
unfolding ignore
ignore-Triple {A} {m} P t = record { ends = λ d h. drop (m d).0 (m d).1 (t.ends d h) }
  where
    drop : (r : Result A) (d : Disk) → Ends (λ _. P) P r d → P d
    drop (ok x) d h = h
    drop (err e) d h = h

-- A condition on sessions that neither a quiet call nor the other processes break.
pub record Lasts (I : Session → Type 0) : Type 0 where
  pub still : (w : Session) (d : Disk) → Still w.disk d → I w → I (record w { disk = d })
  pub writes :
      (w : Session) (m : Mark) (s : Bytes)
      → I w
      → I (record w { disk = in_folder (set_mark m s) w.disk })
  pub acts : (w : Session) → I w → I (observe w).1

module _ {I : Session → Type 0} (l : Lasts I) where
  pub within-Lasts : {A : Type 0} {m : Exec Disk A} → Quiet m → Triple I (within m) (λ _. I) I
  unfolding within
  within-Lasts {m} q = record {
    ends = λ w h.
        Ends-always I (m w.disk).0 (record w { disk = (m w.disk).1 })
          (l.still w (m w.disk).1 (Still-of_Quiet q w.disk) h);
  }

  pub write_mark-Lasts : (m : Mark) (s : Bytes) → Triple I (within (write_mark m s)) (λ _. I) I
  unfolding within
  write_mark-Lasts m s = record {
    ends = λ w h. carry w (write_mark m s w.disk).0 (write_mark m s w.disk).1 (
        (write_mark-Triple (λ d. I (record w { disk = d }))
            (λ d e q. l.still (record w { disk = d }) e q) m s
            (λ d. l.writes (record w { disk = d }) m s)).ends
          w.disk h);
  }
    where
      carry :
          (w : Session) (r : Result (Unit {0})) (d : Disk)
          → Ends (λ _ e. I (record w { disk = e })) (λ e. I (record w { disk = e })) r d
          → Ends (λ _. I) I r (record w { disk = d })
      carry w (ok u) d h = h
      carry w (err e) d h = h

  pub ignore-Lasts : (m : Mark) (s : Bytes) → Triple I (within (ignore (write_mark m s))) (λ _. I) I
  unfolding ignore within
  ignore-Lasts m s = record {
    ends = λ w h.
        drop (within (write_mark m s) w).0 (within (write_mark m s) w).1
          ((write_mark-Lasts m s).ends w h);
  }
    where
      drop : (r : Result (Unit {0})) (w : Session) → Ends (λ _. I) I r w → I w
      drop (ok u) w h = h
      drop (err e) w h = h

  pub observe-Lasts : Triple I observe (λ _. I) I
  observe-Lasts = record { ends = λ w h. Ends-always I (observe w).0 (observe w).1 (l.acts w h) }

  abbrev Left : Bool → Session → Type 0
  Left left w = I w × (left ≡ false → exited w.parent ≡ ok true)

  abbrev Gone : Bool → Session → Type 0
  Gone gone w = I w × (exited w.parent ≡ ok gone)

  parent_exited-Triple : Triple I parent_exited Gone I
  unfolding parent_exited
  parent_exited-Triple = record { ends = λ w h. widen (exited w.parent) w h refl }
    where
      widen : (r : Result Bool) (w : Session) → I w → exited w.parent ≡ r → Ends Gone I r w
      widen (ok b) w h e = (h, e)
      widen (err k) w h e = h

  module _ (again : Exec Session Bool) (t : Triple I again Left I) where
    after_exited-Triple : (gone : Bool) → Triple (Gone gone) (after_exited again gone) Left I
    unfolding after_exited
    after_exited-Triple true = record { ends = λ w (h, e). (h, λ f. e) }
    after_exited-Triple false =
        >>=-Triple (Triple-weaken (within-Lasts in_time-Quiet) (λ w h. h.0) (λ b w h. h) (λ w h. h))
          (λ early. if-Triple early t (record { ends = λ w h. h }))

    after_cancel-Triple : (left : Bool) → Triple I (after_cancel again left) Left I
    unfolding after_cancel
    after_cancel-Triple true = record { ends = λ w h. (h, λ f. cc) }
    after_cancel-Triple false =
        >>=-Triple observe-Lasts (λ _. >>=-Triple parent_exited-Triple after_exited-Triple)

    await_round-Triple : Triple I (await_round again) Left I
    unfolding await_round
    await_round-Triple =
        >>=-Triple observe-Lasts
          (λ _. >>=-Triple (within-Lasts (has_mark-Quiet cancel)) after_cancel-Triple)

  -- When the wait ends without a cancellation the parent has exited.
  pub await_exit-Triple : (rounds : ℕ) → Triple I (await_exit rounds) Left I
  unfolding await_exit
  await_exit-Triple zero = await_round-Triple too_late (record { ends = λ w h. h })
  await_exit-Triple (suc rounds) = await_round-Triple (await_exit rounds) (await_exit-Triple rounds)
