-- ===== src/Release/Listed.antt =====
-- `collect_files` of src/bin/release.rs against `list_files` of src/install.rs: what is packed is what
-- the installer finds.
use freshen.Base.{
  ◌≡◌, sym, ◌∙◌, ◌↔◌, ◌⊎◌, inl, inr, Bool-cases, Member, ◌==◌, list_eq, nat_eq, true, List, [], ◌∷◌,
  ◌++◌, some,
}
use freshen.Base.Bytes.{Bytes, join}
use freshen.Base.Bytes.Utf8.{is_utf8}
use freshen.Base.Outcome.{Result, ok, err, ◌>>=◌}
use freshen.Storage.Tree.{Node, file, dir, link, special, Entries, end, entry, Place}
use freshen.Install.Listing.{to_slashes, text_le, insert_path, list_entries, list_node, list_files}
use freshen.Release.Collect.{collect_entries, collect_node, collect_files}

-- Every name below a directory is UTF-8.
unfoldable mutual
  pub HasTexts : Place → Node → Type 0
  HasTexts p (file c m) = is_utf8 (join b'/' p) ≡ true
  HasTexts p (dir es) = AllTexts p es
  HasTexts p link = Unit
  HasTexts p special = Unit

  pub AllTexts : Place → Entries → Type 0
  AllTexts p end = Unit
  AllTexts p (entry x n es) = HasTexts (p ++ x ∷ []) n × AllTexts p es

-- The same fate, and the same set of paths.
abbrev pub Agree : Result (List Bytes) → Result (List Bytes) → Type 0
Agree (ok xs) (ok ys) = (z : Bytes) → Member z xs ↔ Member z ys
Agree (err e) (err f) = Unit
Agree (ok xs) (err f) = ⊥
Agree (err e) (ok ys) = ⊥

-- The same fate, and a set that has grown by the paths of the list.
abbrev Grows : List Bytes → Result (List Bytes) → Result (List Bytes) → Type 0
Grows before (ok xs) (ok ys) = (z : Bytes) → Member z ys ↔ (Member z xs ⊎ Member z before)
Grows before (err e) (err f) = Unit
Grows before (ok xs) (err f) = ⊥
Grows before (err e) (ok ys) = ⊥

Member-insert_path :
    (z x : Bytes) (ys : List Bytes) → Member z (insert_path x ys) ↔ ((x ≡ z) ⊎ Member z ys)
unfolding insert_path
Member-insert_path z x [] = (λ h. h, λ h. h)
Member-insert_path z x (y ∷ ys) = elim (Bool-cases (x == y)) [
  | inl t ↦
      let e = (list_eq.beq_iff x y).0 t in
      rw t (inr, λ h. elim h [ inl k ↦ inl (sym e ∙ k) | inr m ↦ m ])
  | inr f ↦ elim (Bool-cases (text_le x y)) [
    | inl t ↦ rw (f, t) (λ h. h, λ h. h)
    | inr n ↦
        let (to, from) = Member-insert_path z x ys in
        rw (f, n)
          (
            λ h. elim h [
              | inl k ↦ inr (inl k)
              | inr m ↦ elim (to m) [ inl k ↦ inl k | inr l ↦ inr (inr l) ]
            ],
            λ h. elim h [
              | inl k ↦ inr (from (inl k))
              | inr m ↦ elim m [ inl k ↦ inl k | inr l ↦ inr (from (inr l)) ]
            ],
          )
  ]
]

Member-append : (z : Bytes) (xs ys : List Bytes) → Member z (xs ++ ys) ↔ (Member z xs ⊎ Member z ys)
Member-append z [] ys = (inr, λ h. elim h [ inl v ↦ absurd v | inr m ↦ m ])
Member-append z (x ∷ xs) ys =
    let (to, from) = Member-append z xs ys in
    (
      λ h. elim h [
        | inl e ↦ inl (inl e)
        | inr m ↦ elim (to m) [ inl k ↦ inl (inr k) | inr l ↦ inr l ]
      ],
      λ h. elim h [
        | inl m ↦ elim m [ inl e ↦ inl e | inr k ↦ inr (from (inl k)) ]
        | inr l ↦ inr (from (inr l))
      ],
    )

module _ (before filled these : List Bytes)
    (grown : (z : Bytes) → Member z filled ↔ (Member z these ⊎ Member z before)) where
  Grows-append :
      (r s : Result (List Bytes))
      → Grows filled r s
      → Grows before (r >>= λ rest. ok (these ++ rest)) s
  Grows-append (ok rest) (ok ys) h = λ z. (
    λ m. elim ((h z).0 m) [
      | inl k ↦ inl ((Member-append z these rest).1 (inr k))
      | inr l ↦ elim ((grown z).0 l) [
        | inl k ↦ inl ((Member-append z these rest).1 (inl k))
        | inr b ↦ inr b
      ]
    ],
    λ m. elim m [
      | inl k ↦ elim ((Member-append z these rest).0 k) [
        | inl a ↦ (h z).1 (inr ((grown z).1 (inl a)))
        | inr b ↦ (h z).1 (inl b)
      ]
      | inr b ↦ (h z).1 (inr ((grown z).1 (inr b)))
    ],
  )
  Grows-append (err e) (err f) h = tt
  Grows-append (ok rest) (err f) h = absurd h
  Grows-append (err e) (ok ys) h = absurd h

Grows-bind :
    (before : List Bytes) (r s q : Result (List Bytes)) (next : List Bytes → Result (List Bytes))
    → Grows before r s
    → ((filled : List Bytes) → Grows filled q (next filled))
    → Grows before (r >>= λ these. q >>= λ rest. ok (these ++ rest)) (s >>= next)
Grows-bind before (ok these) (ok filled) q next h k =
    Grows-append before filled these h q (next filled) (k filled)
Grows-bind before (err e) (err f) q next h k = tt
Grows-bind before (ok these) (err f) q next h k = absurd h
Grows-bind before (err e) (ok filled) q next h k = absurd h

mutual
  unfolding collect_entries list_entries HasTexts

  list_node-Grows :
      (p : Place) (n : Node) (output : List Bytes)
      → HasTexts p n
      → Grows output (collect_node p n) (list_node p n output)
  list_node-Grows p (file c m) output t = rw t (λ z.
      let (to, from) = Member-insert_path z (to_slashes (join b'/' p)) output in
      (
        λ h. elim (to h) [ inl e ↦ inl (inl e) | inr k ↦ inr k ],
        λ h. elim h [
          | inl k ↦ elim k [ inl e ↦ from (inl e) | inr v ↦ absurd v ]
          | inr l ↦ from (inr l)
        ],
      ))
  list_node-Grows p (dir es) output t = list_entries-Grows p es output t
  list_node-Grows p link output t = tt
  list_node-Grows p special output t = tt

  list_entries-Grows :
      (p : Place) (es : Entries) (output : List Bytes)
      → AllTexts p es
      → Grows output (collect_entries p es) (list_entries p es output)
  list_entries-Grows p end output t = λ z. (inr, λ h. elim h [ inl v ↦ absurd v | inr m ↦ m ])
  list_entries-Grows p (entry x n es) output t =
      Grows-bind output (collect_node (p ++ x ∷ []) n) (list_node (p ++ x ∷ []) n output)
        (collect_entries p es) (list_entries p es) (list_node-Grows (p ++ x ∷ []) n output t.0)
        (λ filled. list_entries-Grows p es filled t.1)

Agree-of_Grows : (r s : Result (List Bytes)) → Grows [] r s → Agree r s
Agree-of_Grows (ok xs) (ok ys) h =
    λ z. (λ m. (h z).1 (inl m), λ m. elim ((h z).0 m) [ inl k ↦ k | inr v ↦ absurd v ])
Agree-of_Grows (err e) (err f) h = tt
Agree-of_Grows (ok xs) (err f) h = absurd h
Agree-of_Grows (err e) (ok ys) h = absurd h

-- On a directory whose names are UTF-8, the files that the tool packs are those that the installer
-- lists: `collect_files` succeeds exactly where `list_files` does, and the list of the one and the
-- set of the other have the same paths.
pub collect_files-list_files :
    (es : Entries)
    → AllTexts [] es
    → Agree (collect_files (some (dir es))) (list_files (some (dir es)))
unfolding collect_files list_files
collect_files-list_files es t =
    Agree-of_Grows (collect_entries [] es) (list_entries [] es []) (list_entries-Grows [] es [] t)
