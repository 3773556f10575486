-- ===== src/Manifest/Ancestors.antt =====
-- The ancestor loop of `validate`: with the fuel that it is given it finds every listed ancestor.
use freshen.Base.{ℕ, zero, suc, ◌≤◌, ◌≡◌, sym, subst, ◌∙◌, ap, ◌↔◌, inl, inr, true}
use freshen.Base.{
  List, [], ◌∷◌, ◌++◌, arith, length, length-append, Member, contains, contains_iff, nat_eq,
  list_eq, Option-cases, Bool-cases,
}
use freshen.Base.Bytes.{Bytes, rsplit_once}
use freshen.Base.Bytes.Split.{Free, rsplit_once-some, rsplit_once-none, last_split, not-Free}
use mathlib.Core.List.{append_assoc}
use freshen.Manifest.{has_file_ancestor}

-- Some listed path is an ancestor directory of `path`.
abbrev pub HasAncestor : List Bytes → Bytes → Type 0
HasAncestor paths path = (dir rest : Bytes) × (path ≡ dir ++ (b'/' ∷ rest)) × Member dir paths

has_file_ancestor_sound :
    (fuel : ℕ) (paths : List Bytes) (path : Bytes)
    → has_file_ancestor fuel paths path ≡ true
    → HasAncestor paths path
unfolding has_file_ancestor
has_file_ancestor_sound zero paths path h = cc
has_file_ancestor_sound (suc fuel) paths path h = elim (Option-cases (rsplit_once b'/' path)) [
  | inl e ↦ ground arith
  | inr ((p, q), e) ↦
      let (joined, free) = rsplit_once-some b'/' path {a = p} {b = q} e in
      elim (Bool-cases (contains paths p)) [
        | inl t ↦ (p, q, joined, (contains_iff paths p).0 t)
        | inr f ↦
            let (d, r, at_d, m) = has_file_ancestor_sound fuel paths p (ground arith) in
            (
              d,
              r ++ (b'/' ∷ q),
              joined ∙ ap (λ t. t ++ (b'/' ∷ q)) at_d ∙ append_assoc d (b'/' ∷ r) (b'/' ∷ q),
              m,
            )
      ]
]

has_file_ancestor_complete :
    (fuel : ℕ) (paths : List Bytes) (path : Bytes)
    → length path ≤ fuel
    → HasAncestor paths path
    → has_file_ancestor fuel paths path ≡ true
unfolding has_file_ancestor
has_file_ancestor_complete zero [] path l (d, r, e, m) = absurd m
has_file_ancestor_complete zero paths path l (d, r, e, m) =
    absurd (omega (arith, ap length e, length-append d (b'/' ∷ r)))
has_file_ancestor_complete (suc fuel) paths path l (d, r, e, m) =
    elim (Option-cases (rsplit_once b'/' path)) [
      | inl n ↦ absurd (not-Free b'/' d r (subst (Free b'/') e (rsplit_once-none b'/' path n)))
      | inr ((p, q), n) ↦
          let (joined, free) = rsplit_once-some b'/' path {a = p} {b = q} n in
          elim (last_split b'/' d r p q (sym e ∙ joined) free) [
            | inl at_p ↦
                rw (n, has_file_ancestor)
                  (rw ((contains_iff paths p).1 (subst (λ x. Member x paths) at_p m)))
            | inr (r', e') ↦
                let ih =
                  has_file_ancestor_complete fuel paths p
                    (omega (arith, ap length joined, length-append p (b'/' ∷ q))) (d, r', e', m) in
                ground arith
          ]
    ]

-- With the length of the path as fuel the ancestor loop answers true exactly when some listed path
-- is an ancestor directory of the path.
pub has_file_ancestor_iff :
    (paths : List Bytes) (path : Bytes)
    → (has_file_ancestor (length path) paths path ≡ true) ↔ HasAncestor paths path
has_file_ancestor_iff paths path = (
  has_file_ancestor_sound (length path) paths path,
  has_file_ancestor_complete (length path) paths path (omega arith),
)
