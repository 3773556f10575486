-- ===== src/Install/Members.antt =====
-- The members of a list put together or reversed.
use freshen.Base.{◌≡◌, sym, subst, ◌⊎◌, inl, inr, List, [], ◌∷◌, ◌++◌, Member}
use mathlib.Core.List.{reverse, reverse-cons}
use freshen.Base.Bytes.{Bytes}

Member-append : (xs ys : List Bytes) (x : Bytes) → Member x (xs ++ ys) → Member x xs ⊎ Member x ys
Member-append [] ys x m = inr m
Member-append (z ∷ xs) ys x (inl e) = inl (inl e)
Member-append (z ∷ xs) ys x (inr m) = elim (Member-append xs ys x m) [
  | inl l ↦ inl (inr l)
  | inr r ↦ inr r
]

append-Member : (xs ys : List Bytes) (x : Bytes) → Member x xs ⊎ Member x ys → Member x (xs ++ ys)
append-Member [] ys x (inl m) = absurd m
append-Member [] ys x (inr m) = m
append-Member (z ∷ xs) ys x (inl (inl e)) = inl e
append-Member (z ∷ xs) ys x (inl (inr m)) = inr (append-Member xs ys x (inl m))
append-Member (z ∷ xs) ys x (inr m) = inr (append-Member xs ys x (inr m))

-- The elements of a list with one more at its end.
pub Member-snoc_iff :
    (xs : List Bytes) (y x : Bytes)
    → (Member x (xs ++ y ∷ []) → Member x xs ⊎ (y ≡ x))
      × (Member x xs ⊎ (y ≡ x) → Member x (xs ++ y ∷ []))
Member-snoc_iff xs y x = (
  λ m. elim (Member-append xs (y ∷ []) x m) [
    | inl l ↦ inl l
    | inr (inl e) ↦ inr e
    | inr (inr v) ↦ absurd v
  ],
  λ m. append-Member xs (y ∷ []) x (elim m [ inl l ↦ inl l | inr e ↦ inr (inl e) ]),
)

pub Member-reverse : (xs : List Bytes) (x : Bytes) → Member x (reverse xs) → Member x xs
Member-reverse [] x m = m
Member-reverse (z ∷ xs) x m =
    elim ((Member-snoc_iff (reverse xs) z x).0 (subst (Member x) (reverse-cons z xs) m)) [
      | inl l ↦ inr (Member-reverse xs x l)
      | inr e ↦ inl e
    ]

pub reverse-Member : (xs : List Bytes) (x : Bytes) → Member x xs → Member x (reverse xs)
reverse-Member [] x m = m
reverse-Member (z ∷ xs) x (inl e) =
    subst (Member x) (sym (reverse-cons z xs)) ((Member-snoc_iff (reverse xs) z x).1 (inr e))
reverse-Member (z ∷ xs) x (inr m) =
    subst (Member x) (sym (reverse-cons z xs))
      ((Member-snoc_iff (reverse xs) z x).1 (inl (reverse-Member xs x m)))
