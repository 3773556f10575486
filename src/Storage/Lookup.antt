-- ===== src/Storage/Lookup.antt =====
-- What stands at a place after a change at another place.
use freshen.Base.{
  ◌≡◌, refl, sym, subst, inl, inr, Bool, true, false, ◌&&◌, [], ◌∷◌, ◌++◌, Option, none, some,
  arith, ◌==◌, ==_refl, nat_eq, list_eq, Bool-cases,
}
use freshen.Base.Bytes.{Bytes}
use freshen.Base.Outcome.{ok, >>=-eq-ok, ok-injective}
use freshen.Storage.Tree.{
  Node, file, dir, link, special, Entries, end, entry, get, set, delete, replace, Place, look,
  make_dirs, put, cut, parent, is_apart,
}

name_eq : (x y : Bytes) → (x == y) ≡ true → x ≡ y
name_eq x y h = (list_eq.beq_iff x y).0 h

get-set_same : (es : Entries) (x : Bytes) (n : Node) → get (set es x n) x ≡ some n
unfolding get set
get-set_same end x n = rw (==_refl x)
get-set_same (entry z m es) x n = elim (Bool-cases (z == x)) [
  | inl e ↦ rw (e, e)
  | inr f ↦ rw (f, f, get-set_same es x n)
]

get-set_other :
    (es : Entries) (x y : Bytes) (n : Node) → (x == y) ≡ false → get (set es x n) y ≡ get es y
unfolding get set
get-set_other end x y n h = rw h
get-set_other (entry z m es) x y n h = elim (Bool-cases (z == x)) [
  | inl e ↦ let f = subst (λ u. (u == y) ≡ false) (sym (name_eq z x e)) h in rw (e, f)
  | inr f ↦ rw (f, get-set_other es x y n h)
]

get-delete_same : (es : Entries) (x : Bytes) → get (delete es x) x ≡ none
unfolding get delete
get-delete_same end x = refl
get-delete_same (entry z m es) x = elim (Bool-cases (z == x)) [
  | inl e ↦ rw (e, get-delete_same es x)
  | inr f ↦ rw (f, f, get-delete_same es x)
]

get-delete_other : (es : Entries) (x y : Bytes) → (x == y) ≡ false → get (delete es x) y ≡ get es y
unfolding get delete
get-delete_other end x y h = refl
get-delete_other (entry z m es) x y h = elim (Bool-cases (z == x)) [
  | inl e ↦
      let f = subst (λ u. (u == y) ≡ false) (sym (name_eq z x e)) h in
      rw (e, f, get-delete_other es x y h)
  | inr f ↦ rw (f, get-delete_other es x y h)
]

get-replace_same : (es : Entries) (x : Bytes) (o : Option Node) → get (replace es x o) x ≡ o
get-replace_same es x none = get-delete_same es x
get-replace_same es x (some n) = get-set_same es x n

get-replace_other :
    (es : Entries) (x y : Bytes) (o : Option Node)
    → (x == y) ≡ false
    → get (replace es x o) y ≡ get es y
get-replace_other es x y none h = get-delete_other es x y h
get-replace_other es x y (some n) h = get-set_other es x y n h

-- What was renamed to a place stands there, and stands apart from it what stood there.
pub look-put :
    (p : Place) (n : Node) (o : Option Node) {m : Node}
    → put p n o ≡ ok m
    → look p (some m) ≡ some n
unfolding look put
look-put [] n none h = cc
look-put [] n (some (dir es)) h = cc
look-put [] n (some (file c x)) h = cc
look-put [] n (some link) h = cc
look-put [] n (some special) h = cc
look-put (x ∷ p) n none h = cc
look-put (x ∷ p) n (some (dir es)) {m} h =
    let (a, ha, hb) = >>=-eq-ok (put p n (get es x)) _ h in
    subst (λ t. look (x ∷ p) (some t) ≡ some n) (ok-injective hb)
      (rw (get-set_same es x a) (look-put p n (get es x) ha))
look-put (x ∷ p) n (some (file c y)) h = cc
look-put (x ∷ p) n (some link) h = cc
look-put (x ∷ p) n (some special) h = cc

-- Below a missing directory nothing is found.
look-none : (p : Place) → look p none ≡ none
unfolding look
look-none [] = refl
look-none (x ∷ p) = refl

pub look-put_apart :
    (p q : Place) (n : Node) (o : Option Node) {m : Node}
    → is_apart p q ≡ true
    → put p n o ≡ ok m
    → look q (some m) ≡ look q o
unfolding look put is_apart
look-put_apart [] q n o a h = cc
look-put_apart (x ∷ p) [] n o a h = cc
look-put_apart (x ∷ p) (y ∷ q) n none a h = cc
look-put_apart (x ∷ p) (y ∷ q) n (some (file c b)) a h = cc
look-put_apart (x ∷ p) (y ∷ q) n (some link) a h = cc
look-put_apart (x ∷ p) (y ∷ q) n (some special) a h = cc
look-put_apart (x ∷ p) (y ∷ q) n (some (dir es)) {m} a h =
    let (b, hb, e) = >>=-eq-ok (put p n (get es x)) _ h in
    subst (λ t. look (y ∷ q) (some t) ≡ look q (get es y)) (ok-injective e)
      (elim (Bool-cases (x == y)) [
        | inl same ↦
            let r = look-put_apart p q n (get es x) (ground arith) hb in
            subst (λ z. look q (get (set es x b) z) ≡ look q (get es z)) (name_eq x y same)
              (rw (get-set_same es x b) r)
        | inr differ ↦ rw (get-set_other es x y b differ)
      ])

-- The test that a place stands at or above another one.
covers : Place → Place → Bool
covers [] d = true
covers (y ∷ q) [] = false
covers (y ∷ q) (x ∷ d) = x == y && covers q d

make_dirs-not_covered :
    (d q : Place) (o : Option Node) {m : Node}
    → covers q d ≡ false
    → make_dirs d o ≡ ok m
    → look q (some m) ≡ look q o
unfolding look make_dirs covers get
make_dirs-not_covered d [] o c h = cc
make_dirs-not_covered [] (y ∷ q) none c h =
    subst (λ t. look (y ∷ q) (some t) ≡ none) (ok-injective h) (look-none q)
make_dirs-not_covered [] (y ∷ q) (some (dir es)) c h =
    subst (λ t. look (y ∷ q) (some t) ≡ look q (get es y)) (ok-injective h) refl
make_dirs-not_covered [] (y ∷ q) (some (file b x)) c h = cc
make_dirs-not_covered [] (y ∷ q) (some link) c h = cc
make_dirs-not_covered [] (y ∷ q) (some special) c h = cc
make_dirs-not_covered (x ∷ d) (y ∷ q) none c h =
    let (b, hb, e) = >>=-eq-ok (make_dirs d none) _ h in
    subst (λ t. look (y ∷ q) (some t) ≡ none) (ok-injective e)
      (elim (Bool-cases (x == y)) [
        | inl same ↦ rw (same, make_dirs-not_covered d q none (ground arith) hb, look-none q)
        | inr differ ↦ rw (differ, look-none q)
      ])
make_dirs-not_covered (x ∷ d) (y ∷ q) (some (dir es)) c h =
    let (b, hb, e) = >>=-eq-ok (make_dirs d (get es x)) _ h in
    subst (λ t. look (y ∷ q) (some t) ≡ look q (get es y)) (ok-injective e)
      (elim (Bool-cases (x == y)) [
        | inl same ↦
            let r = make_dirs-not_covered d q (get es x) (ground arith) hb in
            subst (λ z. look q (get (set es x b) z) ≡ look q (get es z)) (name_eq x y same)
              (rw (get-set_same es x b) r)
        | inr differ ↦ rw (get-set_other es x y b differ)
      ])
make_dirs-not_covered (x ∷ d) (y ∷ q) (some (file b z)) c h = cc
make_dirs-not_covered (x ∷ d) (y ∷ q) (some link) c h = cc
make_dirs-not_covered (x ∷ d) (y ∷ q) (some special) c h = cc

apart-not_covers : (p q : Place) → is_apart p q ≡ true → covers q (parent p) ≡ false
unfolding is_apart covers parent
apart-not_covers [] q a = cc
apart-not_covers (x ∷ p) [] a = cc
apart-not_covers (x ∷ []) (y ∷ q) a = refl
apart-not_covers (x ∷ z ∷ p) (y ∷ q) a = ground (arith, apart-not_covers (z ∷ p) q)

-- New directories hold nothing.
pub look-make_dirs :
    (p q : Place) (o : Option Node) {m : Node}
    → is_apart p q ≡ true
    → make_dirs (parent p) o ≡ ok m
    → look q (some m) ≡ look q o
look-make_dirs p q o a h = make_dirs-not_covered (parent p) q o (apart-not_covers p q a) h

pub look-cut : (p : Place) (o : Option Node) → look p (cut p o) ≡ none
unfolding look cut
look-cut [] o = refl
look-cut (x ∷ p) none = refl
look-cut (x ∷ p) (some (dir es)) =
    rw (get-replace_same es x (cut p (get es x)), look-cut p (get es x))
look-cut (x ∷ p) (some (file c b)) = refl
look-cut (x ∷ p) (some link) = refl
look-cut (x ∷ p) (some special) = refl

pub look-cut_apart :
    (p q : Place) (o : Option Node) → is_apart p q ≡ true → look q (cut p o) ≡ look q o
unfolding look cut is_apart
look-cut_apart [] q o a = cc
look-cut_apart (x ∷ p) [] o a = cc
look-cut_apart (x ∷ p) (y ∷ q) none a = refl
look-cut_apart (x ∷ p) (y ∷ q) (some (file c b)) a = refl
look-cut_apart (x ∷ p) (y ∷ q) (some link) a = refl
look-cut_apart (x ∷ p) (y ∷ q) (some special) a = refl
look-cut_apart (x ∷ p) (y ∷ q) (some (dir es)) a = elim (Bool-cases (x == y)) [
  | inl same ↦
      let r = look-cut_apart p q (get es x) (ground arith) in
      subst (λ z. look q (get (replace es x (cut p (get es x))) z) ≡ look q (get es z))
        (name_eq x y same) (rw (get-replace_same es x (cut p (get es x))) r)
  | inr differ ↦ rw (get-replace_other es x y (cut p (get es x)) differ)
]

apart-not_covers_at : (p q : Place) → is_apart p q ≡ true → covers q p ≡ false
unfolding is_apart covers
apart-not_covers_at [] q a = cc
apart-not_covers_at (x ∷ p) [] a = cc
apart-not_covers_at (x ∷ p) (y ∷ q) a = ground (arith, apart-not_covers_at p q)

pub look-make_dirs_at :
    (p q : Place) (o : Option Node) {m : Node}
    → is_apart p q ≡ true
    → make_dirs p o ≡ ok m
    → look q (some m) ≡ look q o
look-make_dirs_at p q o a h = make_dirs-not_covered p q o (apart-not_covers_at p q a) h

pub apart-below : (p q : Place) (x : Bytes) → is_apart p q ≡ true → is_apart (p ++ x ∷ []) q ≡ true
unfolding is_apart
apart-below [] q x a = cc
apart-below (z ∷ p) [] x a = cc
apart-below (z ∷ p) (y ∷ q) x a = ground (arith, apart-below p q x)
