-- ===== src/Base/Bytes/Split.antt =====
-- `split` and `join` are inverse to one another.
use freshen.Base.Tests.{Option-cases, Bool-cases}
use freshen.Base.Lists.{All}
use freshen.Base.Sets.{◌==◌, nat_eq, ==_refl}
use freshen.Base.Bytes.{Bytes, split, push_front, join, rsplit_once}
use Prim.Native.Nat.{ℕ}
use mathlib.Core.Path.{◌≡◌, refl, ap, sym, subst, ◌∙◌}
use mathlib.Core.Logic.{◌≢◌, ◌⊎◌, inl, inr}
use mathlib.Core.List.{List, [], ◌∷◌, ◌++◌}
use mathlib.Core.Option.{none, some}
use native.Mathlib.Omega.{arith}

-- No byte of the text is the separator.
abbrev pub Free : ℕ → Bytes → Type 0
Free sep = All (λ c. c ≢ sep)

push_front-ne-nil : (c : ℕ) (ps : List Bytes) → push_front c ps ≢ []
push_front-ne-nil c [] h = cc
push_front-ne-nil c (p ∷ ps) h = cc

pub split-ne-nil : (sep : ℕ) (s : Bytes) → split sep s ≢ []
unfolding split
split-ne-nil sep [] h = cc
split-ne-nil sep (c ∷ s) h = ground (arith, push_front-ne-nil c (split sep s))

join-push_front :
    (sep c : ℕ) (ps : List Bytes) → ps ≢ [] → join sep (push_front c ps) ≡ c ∷ join sep ps
join-push_front sep c [] h = absurd (h refl)
join-push_front sep c (p ∷ []) h = refl
join-push_front sep c (p ∷ q ∷ ps) h = refl

join-nil_front : (sep : ℕ) (ps : List Bytes) → ps ≢ [] → join sep ([] ∷ ps) ≡ sep ∷ join sep ps
join-nil_front sep [] h = absurd (h refl)
join-nil_front sep (p ∷ ps) h = refl

pub join-split : (sep : ℕ) (s : Bytes) → join sep (split sep s) ≡ s
unfolding split
join-split sep [] = refl
join-split sep (c ∷ s) = ground (
  arith,
  nat_eq.beq_iff c sep,
  join-split sep s,
  join-nil_front sep (split sep s) (split-ne-nil sep s),
  join-push_front sep c (split sep s) (split-ne-nil sep s),
)

Free-push_front :
    (sep c : ℕ) (ps : List Bytes) → c ≢ sep → All (Free sep) ps → All (Free sep) (push_front c ps)
Free-push_front sep c [] h a = ((h, tt), tt)
Free-push_front sep c (p ∷ ps) h a = ((h, a.0), a.1)

pub split-Free : (sep : ℕ) (s : Bytes) → All (Free sep) (split sep s)
unfolding split
split-Free sep [] = (tt, tt)
split-Free sep (c ∷ s) = elim (Bool-cases (c == sep)) [
  | inl t ↦ rw t (tt, split-Free sep s)
  | inr f ↦ rw f (
      Free-push_front sep c (split sep s) (λ e. ground (arith, nat_eq.beq_iff c sep))
        (split-Free sep s))
]

split-Free_append :
    (sep : ℕ) (p s : Bytes) → Free sep p → split sep (p ++ (sep ∷ s)) ≡ p ∷ split sep s
unfolding split
split-Free_append sep [] s f = rw (==_refl sep)
split-Free_append sep (c ∷ p) s f =
    ground (arith, nat_eq.beq_iff c sep, f.0, split-Free_append sep p s f.1)

split-of_Free : (sep : ℕ) (p : Bytes) → Free sep p → split sep p ≡ p ∷ []
unfolding split
split-of_Free sep [] f = refl
split-of_Free sep (c ∷ p) f = ground (arith, nat_eq.beq_iff c sep, f.0, split-of_Free sep p f.1)

pub split-join :
    (sep : ℕ) (ps : List Bytes) → ps ≢ [] → All (Free sep) ps → split sep (join sep ps) ≡ ps
split-join sep [] h f = absurd (h refl)
split-join sep (p ∷ []) h f = split-of_Free sep p f.0
split-join sep (p ∷ q ∷ ps) h f =
    split-Free_append sep p (join sep (q ∷ ps)) f.0
    ∙ ap (λ r. p ∷ r) (split-join sep (q ∷ ps) (λ e. cc) f.1)

push_front-append :
    (c : ℕ) (ps qs : List Bytes) → ps ≢ [] → push_front c (ps ++ qs) ≡ push_front c ps ++ qs
push_front-append c [] qs h = absurd (h refl)
push_front-append c (p ∷ ps) qs h = refl

pub split-append : (sep : ℕ) (a b : Bytes) → split sep (a ++ (sep ∷ b)) ≡ split sep a ++ split sep b
unfolding split
split-append sep [] b = rw (==_refl sep)
split-append sep (c ∷ a) b = rw (split-append sep a b) (elim (Bool-cases (c == sep)) [
  | inl t ↦ rw t
  | inr f ↦ rw f (push_front-append c (split sep a) (split sep b) (split-ne-nil sep a))
])

-- The last separator.
pub rsplit_once-none : (sep : ℕ) (s : Bytes) → rsplit_once sep s ≡ none → Free sep s
unfolding rsplit_once
rsplit_once-none sep [] h = tt
rsplit_once-none sep (c ∷ s) h = ground (arith, nat_eq.beq_iff c sep, rsplit_once-none sep s)

pub rsplit_once-some :
    (sep : ℕ) (s : Bytes) {a b : Bytes}
    → rsplit_once sep s ≡ some (a, b)
    → (s ≡ a ++ (sep ∷ b)) × Free sep b
unfolding rsplit_once
rsplit_once-some sep [] h = cc
rsplit_once-some sep (c ∷ s) {a} {b} h = elim (Option-cases (rsplit_once sep s)) [
  | inl e ↦ ground (arith, nat_eq.beq_iff c sep, rsplit_once-none sep s e)
  | inr ((p, q), e) ↦
      let (split_s, free) = rsplit_once-some sep s {a = p} {b = q} e in
      let before : c ∷ p ≡ a = ground arith in
      let behind : q ≡ b = ground arith in
      (cc (split_s, before, behind), subst (Free sep) behind free)
]

pub not-Free : (sep : ℕ) (a b : Bytes) → ¬ Free sep (a ++ (sep ∷ b))
not-Free sep [] b f = f.0 refl
not-Free sep (c ∷ a) b f = not-Free sep a b f.1

pub last_split :
    (sep : ℕ) (a b p q : Bytes)
    → a ++ (sep ∷ b) ≡ p ++ (sep ∷ q)
    → Free sep q
    → (a ≡ p) ⊎ ((r : Bytes) × (p ≡ a ++ (sep ∷ r)))
last_split sep [] b [] q e f = inl refl
last_split sep [] b (d ∷ p) q e f = inr (p, cc)
last_split sep (c ∷ a) b [] q e f =
    let tails : a ++ (sep ∷ b) ≡ q = cc in
    absurd (not-Free sep a b (subst (Free sep) (sym tails) f))
last_split sep (c ∷ a) b (d ∷ p) q e f =
    let heads : c ≡ d = cc in
    let tails : a ++ (sep ∷ b) ≡ p ++ (sep ∷ q) = cc in
    elim (last_split sep a b p q tails f) [ inl h ↦ inl (cc) | inr (r, h) ↦ inr (r, cc) ]
