-- ===== src/Tests/Updates.antt =====
-- The search for updates.
use freshen.Base.{ℕ, ◌≡◌, refl, ◌∙◌, [], ◌∷◌, some, inl, inr, find, arith}
use freshen.Base.Bytes.{text}
use freshen.Base.Bytes.Utf8.{is_utf8}
use freshen.Base.Outcome.{ok}
use freshen.Source.{ReleaseSource, manifests}
use freshen.Transport.{check_cancelled, report, fetch}
use freshen.Updater.{
  Candidate, is_skipped, consider, select, with_history, locate, fetch_signed, scan_locations,
  check,
}
use freshen.Updater.Check.{IsKnown, got, again, done, consider_all}
use freshen.Updater.Newest.{IsUpdate, IsRun, check-IsRun, check-IsUpdate}
use freshen.Tests.Fixtures.{
  crates, crates-IsTotalOrder, updater, host, location, signed, release, archive,
}
use freshen.Tests.Manifests.{verified}

abbrev source : ReleaseSource ℕ
source = manifests (location 2 ∷ location 3 ∷ location 2 ∷ location 1 ∷ [])

abbrev newest : Candidate crates
newest = record {
  signed = signed 3;
  release = release 3;
  artifact = archive;
  history =
      record { version = 2; notes = text "notes" }
      ∷ record { version = 3; notes = text "notes" }
      ∷ [];
}

finds_newest : (check crates host updater source 0).0 ≡ ok (some newest)
unfolding check scan_locations locate fetch_signed check_cancelled report fetch consider select
    is_skipped with_history verified find is_utf8
finds_newest = refl

check-IsUpdate_example : IsUpdate crates updater newest
check-IsUpdate_example =
    check-IsUpdate crates crates-IsTotalOrder host updater source 0 newest finds_newest

check-IsRun_example : IsRun crates host updater source 0 (some newest)
check-IsRun_example = check-IsRun crates host updater source 0 finds_newest

-- The second mention of location 2 is not downloaded again.
abbrev short : ReleaseSource ℕ
short = manifests (location 2 ∷ location 3 ∷ location 2 ∷ [])

two_not_three : ¬ (◌≡◌ {A = ℕ} 2 3)
two_not_three h = omega arith

not-IsKnown : ¬ IsKnown crates host (location 2 ∷ []) (location 3)
not-IsKnown (x, (inl e, (d, s))) =
    let p : 2 ≡ x.document = λ i. (e i).document in two_not_three (p ∙ d)
not-IsKnown (x, (inr m, k)) = absurd m

run : IsRun crates host updater short 0 (some newest)
unfolding finds_newest consider_all
run = record {
  locations = location 2 ∷ location 3 ∷ location 2 ∷ [];
  located = refl;
  few = omega arith;
  scan = record { best = some (record newest { history = [] }); history = newest.history };
  downloaded = signed 2 ∷ signed 3 ∷ [];
  fetched =
      got (λ (x, (m, k)). m) (record { document = refl; signature = refl; readable = refl })
        (got not-IsKnown (record { document = refl; signature = refl; readable = refl })
          (again (location 2, (inr (inl refl), (refl, refl))) done));
  considered = refl;
  result = refl;
}
