-- ===== src/Helper/Evidence.antt =====
-- What stands behind a result of `confirm_startup` in src/helper.rs, and what it never changes.
use freshen.Base.{
  ◌≡◌, refl, sym, ap, subst, ◌∙◌, Bool, true, not, Option, none, some, ◌==◌, list_eq, nat_eq,
}
use freshen.Base.Bytes.{Bytes, text}
use freshen.Base.Outcome.{Result, ok, err, invalid, reject_if}
use freshen.Base.Exec.{lift}
use freshen.Base.Triples.{Ends, Triple, Triple-weaken, >>=-Triple, Ends-ok}
use freshen.Crates.{Crates}
use freshen.Storage.{Disk}
use freshen.Install.{Platform}
use freshen.Helper.Confirm.{confirm_startup}
use freshen.Helper.Inspected.{same_bytes, Same}
use freshen.Helper.Acknowledged.{Acknowledged, load_and_acknowledge}

-- What stands behind a confirmation: the variables of the environment, of which the second one names
-- the root that was given, and the checks.
pub record Evidence (C : Crates) (S : Platform) (token_variable root_variable : Option Bytes)
    (given : Bytes) (current : Result Bytes) (before after : Disk) : Type 0 where
  pub token : Bytes
  pub expected : Bytes
  pub root : Bytes
  pub has_token : token_variable ≡ some token
  pub has_root : root_variable ≡ some expected
  pub is_root : S.canonicalize given ≡ ok root
  pub is_expected : S.canonicalize expected ≡ ok root
  pub checks : Acknowledged C S token root current before after

module _ (C : Crates) (S : Platform) (given : Bytes) (current : Result Bytes) (before : Disk) where
  abbrev Post : Option Bytes → Option Bytes → Bool → Disk → Type 0
  Post t r b d = Same before d × (b ≡ true → Evidence C S t r given current before d)

  was : (d : Disk) → d ≡ before → Same before d
  was d e = subst (Same before) (sym e) (λ b. refl, refl)

  -- The disk of before, and what is known.
  keep :
      {A : Type 0} (K : Type 0) (r : Result A)
      → Triple
          (λ d. (d ≡ before) × K)
          (lift r)
          (λ x d. (d ≡ before) × (K × (r ≡ ok x)))
          (Same before)
  keep K (ok x) = record { ends = λ d h. (h.0, (h.1, refl)) }
  keep K (err e) = record { ends = λ d h. was d h.0 }

  confirm_startup-Triple :
      (t r : Option Bytes)
      → Triple
          (λ d. (d ≡ before) × Unit {0})
          (confirm_startup C S t r given current)
          (Post t r)
          (Same before)
  unfolding confirm_startup
  confirm_startup-Triple none r = record { ends = λ d e. (was d e.0, λ h. cc) }
  confirm_startup-Triple (some token) none = record { ends = λ d e. (was d e.0, λ h. cc) }
  confirm_startup-Triple (some token) (some expected) =
      >>=-Triple (keep (Unit {0}) (S.canonicalize given)) (λ root.
        >>=-Triple (keep _ (S.canonicalize expected)) (λ e.
          >>=-Triple
            (keep _ (reject_if (not (root == e)) (invalid (text "confirmation root mismatch"))))
            (λ _. record {
              ends = λ d (h, k).
                  (Triple-weaken (load_and_acknowledge C S token root current before) (λ g i. i)
                      (λ b g (q, a). (
                        q,
                        λ _. record {
                          token = token;
                          expected = expected;
                          root = root;
                          has_token = refl;
                          has_root = refl;
                          is_root = k.0.0.1;
                          is_expected = k.0.1 ∙ ap ok (sym (same_bytes root e _ k.1));
                          checks = a;
                        },
                      ))
                      (λ g q. q)).ends
                    d h;
            })))

  -- When `confirm_startup` returns true, the environment has a token and a root, the root is the
  -- canonical path that was given, the plan that is loaded has that token, the running program is
  -- the installed executable by its canonical path, it is a regular file whose digest is that of a
  -- file which a package for the plan's target lists at the path of the executable, in the
  -- manifest that the plan's keys verify, the journal on the disk awaits the confirmation, and the
  -- token is left in the transaction.
  pub confirm_startup-Evidence :
      (t r : Option Bytes)
      → (confirm_startup C S t r given current before).0 ≡ ok true
      → Evidence C S t r given current before (confirm_startup C S t r given current before).1
  confirm_startup-Evidence t r h =
      (Ends-ok (Post t r) (Same before) (confirm_startup C S t r given current before).0
          (confirm_startup C S t r given current before).1
          ((confirm_startup-Triple t r).ends before (refl, tt)) h).1
        refl

  either :
      (t r : Option Bytes) (x : Result Bool) (d : Disk)
      → Ends (Post t r) (Same before) x d
      → Same before d
  either t r (ok b) d h = h.0
  either t r (err e) d h = h

  -- Whatever it returns, `confirm_startup` changes no file of the application, none of the trees
  -- of the transaction and not the journal.
  pub confirm_startup-Same :
      (t r : Option Bytes) → Same before (confirm_startup C S t r given current before).1
  confirm_startup-Same t r =
      either t r (confirm_startup C S t r given current before).0
        (confirm_startup C S t r given current before).1
        ((confirm_startup-Triple t r).ends before (refl, tt))
