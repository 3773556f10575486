-- ===== src/Policy/Portable.antt =====
-- Which packages a portable policy lets in: the signed inventory can grow only beneath directories
-- that the host named.
use freshen.Base.{
  ℕ, ◌≤◌, ◌≡◌, refl, subst, ap, ◌↔◌, ◌⊎◌, inl, inr, Bool, true, false, not, List, [], ◌∷◌, ◌++◌,
  length,
}
use freshen.Base.{
  arith, all, any, any_iff, All, All-of, All-Member, Member, NoRepeat, or-eq-false, ◌&&◌, contains,
  contains_iff, Bool-cases, Option-cases, nat_eq, list_eq,
}
use freshen.Base.Bytes.{Bytes, strip_prefix}
use freshen.Base.Bytes.Prefix.{strip_prefix-inverse, strip_prefix-append, starts_with_iff}
use freshen.Base.Outcome.{ok}
use freshen.SafePath.{check_path}
use freshen.SafePath.Grammar.{IsSafePath, check_path_iff}
use freshen.Manifest.{PackageKind, files, mac_bundle, Artifact}
use freshen.Policy.{
  InstallLayout, InstallPolicy, portable, validate_layout, is_kind, check_paths, set_of, paths_of,
  is_beneath, has_stray, validate_portable, validate,
}

-- The path lies strictly below the directory.
abbrev pub IsBeneath : Bytes → Bytes → Type 0
IsBeneath path directory = (rest : Bytes) × (path ≡ directory ++ (b'/' ∷ rest))

is_beneath-inverse : (p d : Bytes) → is_beneath p d ≡ true → IsBeneath p d
unfolding is_beneath
is_beneath-inverse p d h = elim (Option-cases (strip_prefix p d)) [
  | inl e ↦ ground arith
  | inr (suffix, e) ↦
      let (rest, at) = (starts_with_iff suffix (b'/' ∷ [])).0 (ground arith) in
      (rest, cc (strip_prefix-inverse p d e, at))
]

is_beneath_complete : (p d : Bytes) → IsBeneath p d → is_beneath p d ≡ true
unfolding is_beneath
is_beneath_complete p d (rest, e) =
    rw (e, strip_prefix-append d (b'/' ∷ rest), is_beneath)
      ((starts_with_iff (b'/' ∷ rest) (b'/' ∷ [])).1 (rest, refl))

pub is_beneath_iff : (p d : Bytes) → (is_beneath p d ≡ true) ↔ IsBeneath p d
is_beneath_iff p d = (is_beneath-inverse p d, is_beneath_complete p d)

check_paths_iff : (ps : List Bytes) → (check_paths ps ≡ ok tt) ↔ All IsSafePath ps
unfolding check_paths
check_paths_iff [] = (λ h. tt, λ h. refl)
check_paths_iff (p ∷ ps) = (
  λ h.
      let first : check_path p ≡ ok tt = ground arith in
      let more : check_paths ps ≡ ok tt = ground arith in
      ((check_path_iff p).0 first, (check_paths_iff ps).0 more),
  λ h. ground (arith, (check_path_iff p).1 h.0, (check_paths_iff ps).1 h.1),
)

Member-set_of : (x : Bytes) (xs : List Bytes) → Member x (set_of xs) ↔ Member x xs
unfolding set_of
Member-set_of x [] = (λ m. m, λ m. m)
Member-set_of x (y ∷ ys) = elim (Bool-cases (contains (set_of ys) y)) [
  | inl t ↦ rw t (
    λ m. inr ((Member-set_of x ys).0 m),
    λ m. elim m [
      | inl e ↦ subst (λ z. Member z (set_of ys)) e ((contains_iff (set_of ys) y).0 t)
      | inr r ↦ (Member-set_of x ys).1 r
    ],
  )
  | inr f ↦ rw f (ground (arith, Member-set_of x ys))
]

length-set_of : (xs : List Bytes) → length (set_of xs) ≤ length xs
unfolding set_of
length-set_of [] = omega arith
length-set_of (x ∷ xs) = ground (arith, length-set_of xs)

-- The set has as many elements as the list exactly when nothing repeats.
set_of-NoRepeat : (xs : List Bytes) → (length (set_of xs) ≡ length xs) ↔ NoRepeat xs
unfolding set_of
set_of-NoRepeat [] = (λ h. tt, λ h. refl)
set_of-NoRepeat (x ∷ xs) =
    ground
      (arith, length-set_of xs, set_of-NoRepeat xs, contains_iff (set_of xs) x, Member-set_of x xs)

-- The path is owned or lies below an expandable directory.
abbrev pub IsAllowed : List Bytes → List Bytes → Bytes → Type 0
IsAllowed owned directories path =
    Member path owned ⊎ ((d : Bytes) × Member d directories × IsBeneath path d)

IsAllowed-of_listed :
    (owned directories : List Bytes) (p : Bytes)
    → any (is_beneath p) directories ≡ true
    → IsAllowed owned directories p
IsAllowed-of_listed owned directories p t =
    let (d, at, below) = (any_iff (is_beneath p) directories).0 t in
    inr (d, at, is_beneath-inverse p d below)

-- One round of the search for a stray path.
stray_iff :
    (owned directories : List Bytes) (p : Bytes)
    → ((not (contains (set_of owned) p) && not (any (is_beneath p) directories)) ≡ false)
      ↔ IsAllowed owned directories p
stray_iff owned directories p = (to, of)
  where
    to :
        (not (contains (set_of owned) p) && not (any (is_beneath p) directories)) ≡ false
        → IsAllowed owned directories p
    to h = elim (Bool-cases (any (is_beneath p) directories)) [
      | inl t ↦ IsAllowed-of_listed owned directories p t
      | inr f ↦ inl ((Member-set_of p owned).0 ((contains_iff (set_of owned) p).0 (ground arith)))
    ]

    of :
        IsAllowed owned directories p
        → (not (contains (set_of owned) p) && not (any (is_beneath p) directories)) ≡ false
    of (inl m) = rw ((contains_iff (set_of owned) p).1 ((Member-set_of p owned).1 m))
    of (inr (d, at, below)) =
        let listed =
          (any_iff (is_beneath p) directories).1 (d, at, is_beneath_complete p d below) in
        ground arith

has_stray_iff :
    (owned directories ps : List Bytes)
    → (has_stray (set_of owned) directories ps ≡ false) ↔ All (IsAllowed owned directories) ps
unfolding has_stray
has_stray_iff owned directories [] = (λ h. tt, λ h. refl)
has_stray_iff owned directories (p ∷ ps) =
    let ih = has_stray_iff owned directories ps in
    let one = stray_iff owned directories p in
    (
      λ h.
          let (a, b) = (or-eq-false _ (has_stray (set_of owned) directories ps)).0 h in
          (one.0 a, ih.0 b),
      λ h. (or-eq-false _ (has_stray (set_of owned) directories ps)).1 (one.1 h.0, ih.1 h.1),
    )

all-contains_iff :
    (received xs : List Bytes)
    → (all (contains received) xs ≡ true) ↔ All (λ p. Member p received) xs
unfolding all
all-contains_iff received [] = (λ h. tt, λ h. refl)
all-contains_iff received (x ∷ xs) =
    ground (arith, contains_iff received x, all-contains_iff received xs)

All-set_of : (P : Bytes → Type 0) (xs : List Bytes) → All P (set_of xs) ↔ All P xs
All-set_of P xs = (
  λ h. All-of P xs (λ x m. All-Member P (set_of xs) h ((Member-set_of x xs).1 m)),
  λ h. All-of P (set_of xs) (λ x m. All-Member P xs h ((Member-set_of x xs).0 m)),
)

is_kind_iff : (k : PackageKind) → (is_kind k files ≡ true) ↔ (k ≡ files)
is_kind_iff files = (λ h. refl, λ h. refl)
is_kind_iff mac_bundle = (λ h. cc, λ h. cc)

abbrev pub InRange : ℕ → Type 0
InRange t = (1 ≤ t) × (t ≤ 3600)

module _ {Url : Type 0} where
  -- What a portable policy asks of a package.
  pub record IsPermitted (owned : List Bytes) (executable : Bytes) (directories : List Bytes)
      (a : Artifact Url) : Type 0 where
    pub kind : a.kind ≡ files
    pub owned_safe : All IsSafePath owned
    pub owned_distinct : NoRepeat owned
    pub directories_safe : All IsSafePath directories
    pub complete : All (λ p. Member p (paths_of a.files)) owned
    pub confined : All (IsAllowed owned directories) (paths_of a.files)
    pub runs_owned : Member executable owned

  module _ (owned : List Bytes) (executable : Bytes) (directories : List Bytes)
      (a : Artifact Url) where
    validate_portable-inverse :
        validate_portable owned executable directories a ≡ ok tt
        → IsPermitted owned executable directories a
    unfolding validate_portable
    validate_portable-inverse h =
        let k : is_kind a.kind files ≡ true = ground arith in
        let owned_ok : check_paths owned ≡ ok tt = ground arith in
        let directories_ok : check_paths directories ≡ ok tt = ground arith in
        let size : length (set_of owned) ≡ length owned = ground arith in
        let subset : all (contains (paths_of a.files)) (set_of owned) ≡ true = ground arith in
        let tidy : has_stray (set_of owned) directories (paths_of a.files) ≡ false = ground arith in
        let runs : contains (set_of owned) executable ≡ true = ground arith in
        record {
          kind = (is_kind_iff a.kind).0 k;
          owned_safe = (check_paths_iff owned).0 owned_ok;
          owned_distinct = (set_of-NoRepeat owned).0 size;
          directories_safe = (check_paths_iff directories).0 directories_ok;
          complete =
              (All-set_of (λ p. Member p (paths_of a.files)) owned).0
                ((all-contains_iff (paths_of a.files) (set_of owned)).0 subset);
          confined = (has_stray_iff owned directories (paths_of a.files)).0 tidy;
          runs_owned =
              (Member-set_of executable owned).0 ((contains_iff (set_of owned) executable).0 runs);
        }

    validate_portable_complete :
        IsPermitted owned executable directories a
        → validate_portable owned executable directories a ≡ ok tt
    unfolding validate_portable
    validate_portable_complete p = ground (
      arith,
      (is_kind_iff a.kind).1 p.kind,
      (check_paths_iff owned).1 p.owned_safe,
      (check_paths_iff directories).1 p.directories_safe,
      (set_of-NoRepeat owned).1 p.owned_distinct,
      (all-contains_iff (paths_of a.files) (set_of owned)).1
          ((All-set_of (λ p. Member p (paths_of a.files)) owned).1 p.complete),
      (has_stray_iff owned directories (paths_of a.files)).1 p.confined,
      (contains_iff (set_of owned) executable).1 ((Member-set_of executable owned).1 p.runs_owned),
    )

  layout-portable :
      (is_macos : Bool) (a : Artifact Url) {l : InstallLayout} {owned : List Bytes}
      {executable : Bytes} {directories : List Bytes}
      → l ≡ portable owned executable directories
      → validate_layout is_macos l a ≡ validate_portable owned executable directories a
  unfolding validate_layout
  layout-portable is_macos a e = ap (λ l. validate_layout is_macos l a) e

  -- A portable policy lets a package in exactly when both timeouts are between 1 and 3600 seconds,
  -- it is a files package, the owned paths are safe and differ, it holds every owned path, each of
  -- its paths is owned or lies strictly below a named directory, the named directories have safe
  -- paths, and the executable is owned.
  pub validate-portable_iff :
      (is_macos : Bool) (policy : InstallPolicy) (a : Artifact Url) {owned : List Bytes}
      {executable : Bytes} {directories : List Bytes}
      → policy.layout ≡ portable owned executable directories
      → (validate is_macos policy a ≡ ok tt) ↔ (
          InRange policy.exit_timeout_secs
          × InRange policy.confirmation_timeout_secs
          × IsPermitted owned executable directories a)
  unfolding validate
  validate-portable_iff is_macos policy a {owned} {executable} {directories} e =
      let portable_layout : validate_layout is_macos policy.layout a
          ≡ validate_portable owned executable directories a =
        layout-portable is_macos a e in
      (
        λ h.
            let good : validate_portable owned executable directories a ≡ ok tt = ground arith in
            (
              ground arith,
              ground arith,
              validate_portable-inverse owned executable directories a good,
            ),
        λ h.
            let good = validate_portable_complete owned executable directories a h.2 in
            ground arith,
      )
