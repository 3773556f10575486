-- ===== src/Helper/Finishing.antt =====
-- `finish` and `rollback` of src/install.rs as the helper calls them: on a disk that can be recovered.
use freshen.Base.{
  ◌≡◌, refl, sym, subst, ◌∙◌, Bool, true, false, List, Option, some, Member, ◌*◌, ltb, length,
}
use freshen.Base.Bytes.{Bytes, text}
use freshen.Base.Outcome.{size_limit, json, ok_or, reject_if}
use freshen.Base.Exec.{Exec, ◌>>=◌}
use freshen.Base.Triples.{Ends, Triple, Triple-weaken, >>=-Triple}
use freshen.Crates.{Crates}
use freshen.Storage.Tree.{Node, Place}
use freshen.Storage.{Disk, Area, tree, in_folder}
use freshen.Storage.Frames.{
  Effect, >>=-Effect, lift-Effect, pure-Effect, Frame-refl, saved, in_folder-marks,
}
use freshen.Storage.Contents.{Quiet, Quiet-of_Effect, call-Quiet}
use freshen.Install.{
  Platform, Plan, Journal, InstallState, ReadsBack, committed, with_state, with_detail,
}
use freshen.Install.Folders.{
  load_journal, save_journal, write_journal, installation_status, status_of, exists,
}
use freshen.Install.Apply.{rollback_inner}
use freshen.Install.Recovery.{is_final, finish, rollback}
use freshen.Install.Restore.{AreApart, AreRestored, IsSafe}
use freshen.Install.Backed.{load_journal-Triple}
use freshen.Install.Checking.{transaction-Effect}
use freshen.Install.Crash.{
  in_folder-saved_as, Recoverable, Recoverable-same, IsSafe-same, save_journal-Triple,
}
use freshen.Install.Recovered.{read_file-Effect}
use freshen.Install.Undo.{transaction-Triple, rollback_inner-Triple}
use freshen.Helper.{Mark}
use freshen.Helper.Keeping.{marked, marked-marks}
use freshen.Helper.Waiting.{Still, Still-Triple}

load_journal-Effect : (S : Platform) {a : Area} {p : Place} → Effect a p (load_journal S)
unfolding load_journal
load_journal-Effect S = >>=-Effect (read_file-Effect (λ t. t.journal)) (λ bytes.
    >>=-Effect (lift-Effect {r = reject_if (ltb (16 * (1024 * 1024)) (length bytes)) size_limit})
      (λ _. lift-Effect {r = ok_or (S.parse_journal bytes) json}))

pub load_journal-Quiet : (S : Platform) → Quiet (load_journal S)
load_journal-Quiet S = Quiet-of_Effect (λ a p. load_journal-Effect S)

status_of-Effect : (S : Platform) (b : Bool) {a : Area} {p : Place} → Effect a p (status_of S b)
unfolding status_of
status_of-Effect S false = pure-Effect
status_of-Effect S true = >>=-Effect (load_journal-Effect S) (λ j. pure-Effect)

pub installation_status-Quiet : (S : Platform) → Quiet (installation_status S)
unfolding installation_status exists
installation_status-Quiet S = Quiet-of_Effect (λ a p. >>=-Effect transaction-Effect (λ _.
    >>=-Effect {m = exists S} (record { frame = λ d. Frame-refl })
      (λ found. status_of-Effect S found)))

module _ (S : Platform) where
  -- What a write of the journal keeps, `save_journal` and `finish` keep.
  module _ (P : Disk → Type 0) (closed : (d e : Disk) → Still d e → P d → P e)
      (journal : (j : Journal) (d : Disk) → P d → P (write_journal S j d).1) where
    pub save_journal-Keeps : (j : Journal) → Triple P (save_journal S j) (λ _. P) P
    unfolding save_journal
    save_journal-Keeps j =
        >>=-Triple (Still-Triple P closed call-Quiet)
          (λ _. >>=-Triple put (λ _. Still-Triple P closed call-Quiet))
      where
        put : Triple P (write_journal S j) (λ _. P) P
        put = record { ends = λ d h. journal j d h }

    pub finish-Keeps : (s : InstallState) (text : Bytes) → Triple P (finish S s text) (λ _. P) P
    unfolding finish
    finish-Keeps s text =
        >>=-Triple (Still-Triple P closed (Quiet-of_Effect (λ a p. transaction-Effect))) (λ _.
          >>=-Triple (Still-Triple P closed (load_journal-Quiet S))
            (λ j. save_journal-Keeps (with_detail text (with_state s j))))

  pub marked-write_journal :
      (m : Mark) (j : Journal) (d : Disk) → marked m (write_journal S j d).1 ≡ marked m d
  unfolding write_journal
  marked-write_journal m j d =
      marked-marks m d (in_folder (λ t. record t { journal = some (S.print_journal j) }) d) (
        in_folder-marks (λ t. record t { journal = some (S.print_journal j) }) d
          (λ t. (refl, refl, refl, refl)))

-- The journal on the disk says that the update is committed.
pub record IsCommitted (S : Platform) (d : Disk) : Type 0 where
  pub journal : Journal
  pub on_disk : saved d ≡ some (S.print_journal journal)
  pub final : journal.status.state ≡ committed

module _ (S : Platform) (reads : ReadsBack S) (Sighted : Type 0) (old : Option Node)
    (names : List Bytes) where
  abbrev Lasting : Disk → Type 0
  Lasting = Recoverable S Sighted old names

  abbrev OfJournal : Journal → Disk → Type 0
  OfJournal j d = (saved d ≡ some (S.print_journal j)) × (Lasting d × IsSafe Sighted old names j d)

  OfJournal-same :
      (j : Journal) (d e : Disk)
      → ((b : Area) → tree b e ≡ tree b d)
      → saved e ≡ saved d
      → OfJournal j d
      → OfJournal j e
  OfJournal-same j d e t s (h, (r, i)) = (
    s ∙ h,
    (Recoverable-same S Sighted old names d e t s r, IsSafe-same S Sighted old names j d e t i),
  )

  -- Code that starts by reading the journal of a disk that can be recovered.
  load-Triple :
      {A : Type 0} (next : Journal → Exec Disk A) (Post : A → Disk → Type 0)
      → ((k : Journal)
          → ((x : Bytes) → Member x k.touched → Member x names)
          → Triple (OfJournal k) (next k) Post Lasting)
      → Triple Lasting (load_journal S >>= next) Post Lasting
  load-Triple {A} next Post t = record {
    ends = λ d r.
        (>>=-Triple
            (Triple-weaken
              (load_journal-Triple S reads (OfJournal r.journal) r.journal
                (OfJournal-same r.journal) (λ e h. h.0))
              (λ e h. h) (λ j e h. h) (λ e h. h.1.0))
            (λ j. record {
              ends = λ e (h, q).
                  subst (λ z. Ends Post Lasting (next z e).0 (next z e).1) (sym q)
                    ((t r.journal r.named).ends e h);
            })).ends
          d (r.on_disk, (r, r.safe));
  }

  -- A state that is not final is written over a journal that can be recovered.
  pub finish-Lasting :
      (s : InstallState) (detail : Bytes)
      → is_final s ≡ false
      → Triple Lasting (finish S s detail) (λ _. Lasting) Lasting
  unfolding finish
  finish-Lasting s detail f =
      >>=-Triple (transaction-Triple Lasting (Recoverable-same S Sighted old names)) (λ _.
        load-Triple (λ j. save_journal S (with_detail detail (with_state s j))) (λ _. Lasting)
          write)
    where
      write :
          (k : Journal)
          → ((x : Bytes) → Member x k.touched → Member x names)
          → Triple
              (OfJournal k)
              (save_journal S (with_detail detail (with_state s k)))
              (λ _. Lasting)
              Lasting
      write k named =
          Triple-weaken
            (save_journal-Triple S Sighted old names (with_detail detail (with_state s k)) named
              (IsSafe Sighted old names k) (IsSafe-same S Sighted old names k) (λ d h. h)
              (λ d h g. cc))
            (λ d h. h.1)
            (λ u d (w, h). record {
              journal = with_detail detail (with_state s k);
              on_disk = w;
              safe = h;
              named = named;
              settled = λ g. cc;
            })
            (λ d h. h.0)

  module _ (C : Crates) (apart : AreApart old names) where
    -- A rollback that returns has restored every item.
    pub rollback-Triple :
        (plan : Plan) (detail : Bytes)
        → Triple Lasting
            (rollback C S plan detail)
            (λ _ d. Lasting d × (Sighted → AreRestored old names d))
            Lasting
    unfolding rollback
    rollback-Triple plan detail =
        >>=-Triple (transaction-Triple Lasting (Recoverable-same S Sighted old names)) (λ _.
          load-Triple (λ j. rollback_inner C S plan (with_detail detail j))
            (λ _ d. Lasting d × (Sighted → AreRestored old names d))
            (λ k named.
              Triple-weaken
                (rollback_inner-Triple C S Sighted old names apart (with_detail detail k) named
                  plan)
                (λ d h. h.1) (λ j d h. h) (λ d h. h)))

-- A disk on which a journal is.
abbrev pub HasText : Disk → Type 0
HasText d = (before : Bytes) × (saved d ≡ some before)

HasText-Still : (d e : Disk) → Still d e → HasText d → HasText e
HasText-Still d e s (b, h) = (b, s.journal ∙ h)

IsCommitted-Still : (S : Platform) (d e : Disk) → Still d e → IsCommitted S d → IsCommitted S e
IsCommitted-Still S d e s c = record {
  journal = c.journal;
  on_disk = s.journal ∙ c.on_disk;
  final = c.final;
}

module _ (S : Platform) where
  commit_journal :
      (detail : Bytes) (j : Journal)
      → Triple HasText
          (write_journal S (with_detail detail (with_state committed j)))
          (λ _. IsCommitted S)
          HasText
  unfolding write_journal
  commit_journal detail j = record {
    ends = λ d (b, h). record {
      journal = with_detail detail (with_state committed j);
      on_disk =
          in_folder-saved_as (S.print_journal (with_detail detail (with_state committed j))) d h;
      final = refl;
    };
  }

  -- When `finish` returns the journal says so.
  pub commit-Triple :
      (detail : Bytes)
      → Triple HasText (finish S committed detail) (λ _. IsCommitted S) (λ _. Unit {0})
  unfolding finish save_journal
  commit-Triple detail =
      Triple-weaken
        (>>=-Triple
          (Still-Triple HasText HasText-Still (Quiet-of_Effect (λ a p. transaction-Effect)))
          (λ _. >>=-Triple (Still-Triple HasText HasText-Still (load_journal-Quiet S)) (λ j.
            >>=-Triple (Still-Triple HasText HasText-Still call-Quiet) (λ _.
              >>=-Triple (commit_journal detail j) (λ _.
                Triple-weaken (Still-Triple (IsCommitted S) (IsCommitted-Still S) call-Quiet)
                  (λ d h. h) (λ u d h. h) (λ d c. (S.print_journal c.journal, c.on_disk)))))))
        (λ d h. h) (λ u d h. h) (λ d h. tt)
