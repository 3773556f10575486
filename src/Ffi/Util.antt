-- ===== src/Ffi/Util.antt =====
-- ffi/src/util.rs: pointers and texts of the host. A null pointer is none.
use freshen.Base.{
  ℕ, zero, suc, ◌^◌, List, [], ◌∷◌, ◌++◌, Option, none, some, ltb, ◌==◌, nat_eq, if◌then◌else◌,
}
use freshen.Base.Bytes.{Bytes, text}
use freshen.Base.Bytes.Utf8.{is_utf8}
use freshen.Ffi.{Call, done, give, refuse, decimal, without_nul, ◌>>=◌}

abbrev pub take {ℓ} : {A : Type ℓ} → ℕ → List A → List A
take zero xs = []
take (suc n) [] = []
take (suc n) (x ∷ xs) = x ∷ take n xs

module _ {T W : Type 0} where
  abbrev pub null : {A : Type 0} → Bytes → Call T W A
  null name = refuse (name ++ text " must not be null")

  -- The bytes stand before the NUL.
  unfoldable pub cstr : Option Bytes → Bytes → Call T W Bytes
  unfolding refuse
  cstr none name = null name
  cstr (some s) name = if is_utf8 s then give s else refuse (name ++ text " must be valid UTF-8")

  unfoldable pub cstrs : List (Option Bytes) → Bytes → Call T W (List Bytes)
  unfolding cstr
  cstrs [] name = give []
  cstrs (p ∷ ps) name = do s ← cstr p name; rest ← cstrs ps name; give (s ∷ rest)

  unfoldable pub list_items : Option (List (Option Bytes)) → ℕ → Bytes → Call T W (List Bytes)
  unfolding cstrs
  list_items none count name = refuse (name ++ text " must not be null when its count is nonzero")
  list_items (some ps) count name = cstrs (take count ps) name

  unfoldable pub cstr_list : Option (List (Option Bytes)) → ℕ → Bytes → Call T W (List Bytes)
  unfolding list_items
  cstr_list pointer count name =
      if count == 0
      then give []
      else (if ltb (2 ^ 20) count
          then refuse (
              name
              ++ (text " claims "
                  ++ (decimal count ++ text " entries, more than the 1048576 allowed")))
          else list_items pointer count name)

  unfoldable pub handle : {A : Type 0} → Option A → Bytes → Call T W A
  unfolding refuse
  handle none name = null name
  handle (some a) name = give a

  unfoldable pub store_found : Option T → T → Bytes → Call T W (Unit {0})
  unfolding refuse
  store_found none value name s = null name s
  store_found (some old) value name s = (done tt, record s { slot = some value })

  -- To the place behind the out-pointer.
  unfoldable pub store : T → Bytes → Call T W (Unit {0})
  unfolding store_found
  store value name s = store_found s.slot value name s

-- The text that the host gets and frees.
unfoldable pub to_c_string : Bytes → Option Bytes
unfolding without_nul
to_c_string s = some (without_nul s)
