-- ===== src/Ffi/Updating/Calls.antt =====
-- The calls of ffi/src/updater.rs on an updater, a candidate and a prepared update.
use freshen.Base.{ℕ, zero, suc, List, [], ◌∷◌, Option, none, some, length}
use freshen.Base.Bytes.{Bytes, text}
use freshen.Base.Exec.{Exec}
use freshen.Source.{ReleaseSource}
use freshen.Crates.{Crates}
use freshen.Updater.{Candidate}
use freshen.Prepare.{PreparedUpdate}
use freshen.Ffi.{done, Caller, Call, Texts, from, run, ◌>>=◌, ◌>>◌}
use freshen.Ffi.Util.{cstr, handle, store, to_c_string}
use freshen.Ffi.Updating.{Config, SourceArguments, Handle, Parsers, build_source, updater_of}

module _ (C : Crates) (t : Texts) (R : Parsers C t) where
  unfoldable pub freshen_updater_new :
      {W : Type 0}
      → Option Config
      → Caller (Option (Handle C t)) W
      → ℕ × Caller (Option (Handle C t)) W
  unfolding store handle updater_of run
  freshen_updater_new config = run (do
    store none (text "out_updater")
    c ← handle config (text "config")
    updater ← updater_of C t R c
    store (some updater) (text "out_updater"))

  module _ {H W : Type 0} where
    store_some : Option H → Call (Option H) W (Unit {0})
    unfolding store
    store_some none s = (done tt, s)
    store_some (some candidate) s = store (some candidate) (text "out_candidate") s

    -- `check` is `Updater::check` with the flag and the events of the host.
    unfoldable pub freshen_check :
        (Handle C t → ReleaseSource C.Url → Exec W (Option H))
        → Option (Handle C t)
        → Option SourceArguments
        → Caller (Option H) W
        → ℕ × Caller (Option H) W
    unfolding store store_some handle build_source from run
    freshen_check check updater source = run (do
      store none (text "out_candidate")
      u ← handle updater (text "updater")
      s ← build_source C t R source
      found ← from t (check u s)
      store_some found)

  -- `prepare` is `Updater::prepare`; the handle of a prepared update holds it until it is armed.
  unfoldable pub freshen_prepare :
      {H P W : Type 0}
      → (Handle C t → H → Bytes → Exec W P)
      → Option (Handle C t)
      → Option H
      → Option Bytes
      → Caller (Option (Option P)) W
      → ℕ × Caller (Option (Option P)) W
  unfolding store handle cstr from run
  freshen_prepare prepare updater candidate temporary_parent = run (do
    store none (text "out_prepared")
    u ← handle updater (text "updater")
    c ← handle candidate (text "candidate")
    parent ← cstr temporary_parent (text "temporary_parent")
    prepared ← from t (prepare u c parent)
    store (some (some prepared)) (text "out_prepared"))

abbrev pub nth {ℓ} : {A : Type ℓ} → List A → ℕ → Option A
nth [] n = none
nth (x ∷ xs) zero = some x
nth (x ∷ xs) (suc n) = nth xs n

-- A null pointer gives null.
abbrev pub shown_text : {A : Type 0} → Option A → (A → Bytes) → Option Bytes
shown_text none f = none
shown_text (some a) f = to_c_string (f a)

abbrev pub number_of : {A : Type 0} → Option A → (A → ℕ) → ℕ
number_of none f = 0
number_of (some a) f = f a

abbrev pub history_text : {A B : Type 0} → Option A → (A → List B) → ℕ → (B → Bytes) → Option Bytes
history_text none history i f = none
history_text (some a) history i f = shown_text (nth (history a) i) f

-- What the host reads of a candidate; the printer of versions is a parameter.
module _ (C : Crates) (show : C.Version → Bytes) where
  unfoldable pub freshen_candidate_version : Option (Candidate C) → Option Bytes
  unfolding to_c_string
  freshen_candidate_version c = shown_text c (λ x. show x.release.version)

  unfoldable pub freshen_candidate_notes : Option (Candidate C) → Option Bytes
  unfolding to_c_string
  freshen_candidate_notes c = shown_text c (λ x. x.release.notes)

  unfoldable pub freshen_candidate_download_size : Option (Candidate C) → ℕ
  freshen_candidate_download_size c = number_of c (λ x. x.artifact.size)

  unfoldable pub freshen_candidate_history_count : Option (Candidate C) → ℕ
  freshen_candidate_history_count c = number_of c (λ x. length x.history)

  unfoldable pub freshen_candidate_history_version : Option (Candidate C) → ℕ → Option Bytes
  unfolding to_c_string
  freshen_candidate_history_version c i = history_text c (λ x. x.history) i (λ n. show n.version)

  unfoldable pub freshen_candidate_history_notes : Option (Candidate C) → ℕ → Option Bytes
  unfolding to_c_string
  freshen_candidate_history_notes c i = history_text c (λ x. x.history) i (λ n. n.notes)

-- What the host reads of a prepared update, which may have been consumed.
module _ (C : Crates) (show : C.Version → Bytes) where
  unfoldable pub prepared_release : Option (Option (PreparedUpdate C)) → Option (PreparedUpdate C)
  prepared_release none = none
  prepared_release (some update) = update

  unfoldable pub freshen_prepared_version : Option (Option (PreparedUpdate C)) → Option Bytes
  unfolding prepared_release to_c_string
  freshen_prepared_version p =
      shown_text (prepared_release p) (λ x. show x.candidate.release.version)

  unfoldable pub freshen_prepared_notes : Option (Option (PreparedUpdate C)) → Option Bytes
  unfolding prepared_release to_c_string
  freshen_prepared_notes p = shown_text (prepared_release p) (λ x. x.candidate.release.notes)

  unfoldable pub freshen_prepared_history_count : Option (Option (PreparedUpdate C)) → ℕ
  unfolding prepared_release
  freshen_prepared_history_count p =
      number_of (prepared_release p) (λ x. length x.candidate.history)

  unfoldable pub freshen_prepared_history_version :
      Option (Option (PreparedUpdate C)) → ℕ → Option Bytes
  unfolding prepared_release to_c_string
  freshen_prepared_history_version p i =
      history_text (prepared_release p) (λ x. x.candidate.history) i (λ n. show n.version)

  unfoldable pub freshen_prepared_history_notes :
      Option (Option (PreparedUpdate C)) → ℕ → Option Bytes
  unfolding prepared_release to_c_string
  freshen_prepared_history_notes p i =
      history_text (prepared_release p) (λ x. x.candidate.history) i (λ n. n.notes)
