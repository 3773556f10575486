-- ===== src/Trust/Keys.antt =====
-- `TrustStore::new`: which key lists make a store.
use freshen.Base.{◌≤◌, ◌≡◌, refl, ◌↔◌, ◌⊎◌, inl, inr, false, List, [], ◌∷◌, length}
use freshen.Base.{some, arith, All, Option-cases}
use freshen.Base.Bytes.{Bytes}
use freshen.Base.Outcome.{ok, err, signature}
use freshen.Crates.{Crates}
use freshen.Trust.{TrustStore, check_keys, new}

module _ (C : Crates) where
  -- The bytes are a point of the curve that is not of small order.
  abbrev pub IsStrongKey : Bytes → Type 0
  IsStrongKey bytes =
      (key : C.VerifyingKey) × (C.key_from_bytes bytes ≡ some key) × (C.is_weak key ≡ false)

  check_keys_iff : (keys : List Bytes) → (check_keys C keys ≡ ok tt) ↔ All IsStrongKey keys
  unfolding check_keys
  check_keys_iff [] = (λ h. tt, λ h. refl)
  check_keys_iff (bytes ∷ rest) =
      let ih = check_keys_iff rest in
      (
        λ h. elim (Option-cases (C.key_from_bytes bytes)) [
          | inl e ↦ ground arith
          | inr (key, e) ↦ ((key, e, ground arith), ih.0 (ground arith))
        ],
        λ h. ground (arith, h.0.1, h.0.2, ih.1 h.1),
      )

  check_keys-error :
      (keys : List Bytes) → (check_keys C keys ≡ ok tt) ⊎ (check_keys C keys ≡ err signature)
  unfolding check_keys
  check_keys-error [] = inl refl
  check_keys-error (bytes ∷ rest) = ground (arith, check_keys-error rest)

  abbrev pub StoreOf : List Bytes → TrustStore → Type 0
  StoreOf keys t = (t.keys ≡ keys) × (1 ≤ length keys) × (length keys ≤ 32) × All IsStrongKey keys

  new-inverse : (keys : List Bytes) (t : TrustStore) → new C keys ≡ ok t → StoreOf keys t
  unfolding new
  new-inverse [] t h = cc
  new-inverse (k ∷ ks) t h =
      let good : check_keys C (k ∷ ks) ≡ ok tt = ground arith in
      (ground arith, omega arith, ground arith, (check_keys_iff (k ∷ ks)).0 good)

  new_complete : (keys : List Bytes) (t : TrustStore) → StoreOf keys t → new C keys ≡ ok t
  unfolding new
  new_complete [] t h = absurd (omega arith)
  new_complete (k ∷ ks) t h = ground (arith, (check_keys_iff (k ∷ ks)).1 h.3, h.0, h.2)

  -- A trust store is made exactly of 1 to 32 keys that decode and are not weak, and keeps them as
  -- they were given.
  pub new_iff : (keys : List Bytes) (t : TrustStore) → (new C keys ≡ ok t) ↔ StoreOf keys t
  new_iff keys t = (new-inverse keys t, new_complete keys t)
