-- ===== src/Tests/Journals.antt =====
-- A text form of journals that is read back.
use freshen.Base.{ℕ, zero, suc, ◌≡◌, refl, ap, ◌∙◌, List, [], ◌∷◌, ◌++◌, Option, none, some, length}
use freshen.Base.Bytes.{Bytes}
use freshen.Install.{
  Journal, InstallState, prepared, applying, awaiting_confirmation, committed, rolling_back,
  rolled_back, failed,
}

abbrev code : InstallState → ℕ
code prepared = 0
code applying = 1
code awaiting_confirmation = 2
code committed = 3
code rolling_back = 4
code rolled_back = 5
code failed = 6

abbrev state_of : ℕ → InstallState
state_of zero = prepared
state_of (suc zero) = applying
state_of (suc (suc zero)) = awaiting_confirmation
state_of (suc (suc (suc zero))) = committed
state_of (suc (suc (suc (suc zero)))) = rolling_back
state_of (suc (suc (suc (suc (suc zero))))) = rolled_back
state_of (suc (suc (suc (suc (suc (suc n)))))) = failed

state_of-code : (s : InstallState) → state_of (code s) ≡ s
state_of-code prepared = refl
state_of-code applying = refl
state_of-code awaiting_confirmation = refl
state_of-code committed = refl
state_of-code rolling_back = refl
state_of-code rolled_back = refl
state_of-code failed = refl

abbrev take : ℕ → Bytes → Bytes
take zero s = []
take (suc n) [] = []
take (suc n) (c ∷ s) = c ∷ take n s

abbrev drop : ℕ → Bytes → Bytes
drop zero s = s
drop (suc n) [] = []
drop (suc n) (c ∷ s) = drop n s

take-append : (b r : Bytes) → take (length b) (b ++ r) ≡ b
take-append [] r = refl
take-append (c ∷ b) r = ap (λ z. c ∷ z) (take-append b r)

drop-append : (b r : Bytes) → drop (length b) (b ++ r) ≡ r
drop-append [] r = refl
drop-append (c ∷ b) r = drop-append b r

-- Texts one after the other, each behind its length.
abbrev print_list : List Bytes → Bytes → Bytes
print_list [] r = r
print_list (b ∷ bs) r = length b ∷ b ++ print_list bs r

abbrev read_list : ℕ → Bytes → List Bytes
read_list zero s = []
read_list (suc k) [] = []
read_list (suc k) (n ∷ s) = take n s ∷ read_list k (drop n s)

abbrev skip_list : ℕ → Bytes → Bytes
skip_list zero s = s
skip_list (suc k) [] = []
skip_list (suc k) (n ∷ s) = skip_list k (drop n s)

read-print : (bs : List Bytes) (r : Bytes) → read_list (length bs) (print_list bs r) ≡ bs
read-print [] r = refl
read-print (b ∷ bs) r =
    rw (take-append b (print_list bs r), drop-append b (print_list bs r), read-print bs r)

skip-print : (bs : List Bytes) (r : Bytes) → skip_list (length bs) (print_list bs r) ≡ r
skip-print [] r = refl
skip-print (b ∷ bs) r = rw (drop-append b (print_list bs r), skip-print bs r)

abbrev pub print_journal : Journal → Bytes
print_journal j =
    code j.status.state
    ∷ length j.touched
    ∷ length j.existing
    ∷ print_list (j.status.version ∷ j.status.detail ∷ [])
        (print_list j.touched (print_list j.existing []))

abbrev text_at : List Bytes → ℕ → Bytes
text_at [] i = []
text_at (b ∷ bs) zero = b
text_at (b ∷ bs) (suc i) = text_at bs i

abbrev assemble : InstallState → List Bytes → List Bytes → List Bytes → Journal
assemble s heads touched existing = record {
  status = record { state = s; version = text_at heads 0; detail = text_at heads 1 };
  touched = touched;
  existing = existing;
}

abbrev pub parse_journal : Bytes → Option Journal
parse_journal (s ∷ t ∷ e ∷ rest) =
    let tail = skip_list 2 rest in
    some
      (assemble (state_of s) (read_list 2 rest) (read_list t tail) (read_list e (skip_list t tail)))
parse_journal _ = none

pub parse-print : (j : Journal) → parse_journal (print_journal j) ≡ some j
parse-print j =
    ap
      (λ s. some (assemble s (read_list 2 all) (read_list t tail) (read_list e (skip_list t tail))))
      (state_of-code j.status.state)
    ∙ ap (λ h. some (assemble j.status.state h (read_list t tail) (read_list e (skip_list t tail))))
        (read-print heads rest)
    ∙ ap (λ z. some (assemble j.status.state heads (read_list t z) (read_list e (skip_list t z))))
        (skip-print heads rest)
    ∙ ap (λ l. some (assemble j.status.state heads l (read_list e (skip_list t rest))))
        (read-print j.touched (print_list j.existing []))
    ∙ ap (λ z. some (assemble j.status.state heads j.touched (read_list e z)))
        (skip-print j.touched (print_list j.existing []))
    ∙ ap (λ l. some (assemble j.status.state heads j.touched l)) (read-print j.existing [])
  where
    heads : List Bytes
    heads = j.status.version ∷ j.status.detail ∷ []

    rest : Bytes
    rest = print_list j.touched (print_list j.existing [])

    all : Bytes
    all = print_list heads rest

    tail : Bytes
    tail = skip_list 2 all

    t : ℕ
    t = length j.touched

    e : ℕ
    e = length j.existing
