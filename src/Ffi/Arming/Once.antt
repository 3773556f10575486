-- ===== src/Ffi/Arming/Once.antt =====
-- `freshen_arm` of ffi/src/install.rs consumes the prepared update.
use freshen.Base.{
  ℕ, ◌≡◌, refl, sym, ap, ◌∙◌, inl, inr, List, Option, none, some, ◌++◌, ltb, ◌==◌, nat_eq,
  Bool-cases,
}
use freshen.Base.Bytes.{Bytes, text}
use freshen.Base.Outcome.{ok}
use freshen.Base.Exec.{Exec}
use freshen.Policy.{InstallPolicy}
use freshen.Ffi.{set_message, Caller, Texts, refuse, from, signed_decimal}
use freshen.Ffi.Behaves.{
  At, Finishes, Behaves, give-Behaves, refuse-Behaves, from-Behaves, >>=-Behaves, Ended, run-Ended,
  Behaves-weaken, handle-Behaves, cstr-Behaves, cstr_list-Behaves, store-Behaves,
}
use freshen.Ffi.Arming.{
  PolicyArguments, size_of_policy, portable_policy, mac_bundle_policy, layout_policy, checked_size,
  build_policy, Holder, take_found, take_held, on_world, freshen_arm,
}

module _ {T W : Type 0} {P Fail : At T W} (keep : (o : Option T) (w : W) → P o w → Fail o w) where
  layout_policy-Behaves :
      (a : PolicyArguments) (root executable : Bytes)
      → Behaves P (layout_policy a root executable) (λ p. P) Fail
  unfolding layout_policy portable_policy mac_bundle_policy
  layout_policy-Behaves a root executable = elim (Bool-cases (a.layout == 1)) [
    | inl x ↦ rw x (
        >>=-Behaves
          (cstr_list-Behaves keep a.owned_files a.owned_file_count (text "policy.owned_files"))
          (λ owned.
            >>=-Behaves
              (cstr_list-Behaves keep a.expandable_directories a.expandable_directory_count
                (text "policy.expandable_directories"))
              (λ ds. give-Behaves {P = λ p. P} _)))
    | inr x ↦ elim (Bool-cases (a.layout == 2)) [
      | inl y ↦
          rw (x, y)
            (>>=-Behaves (cstr-Behaves keep a.bundle_name (text "policy.bundle_name")) (λ name.
              >>=-Behaves
                (cstr-Behaves (λ o w h. keep o w h.0) a.bundle_id (text "policy.bundle_id"))
                (λ id.
                  >>=-Behaves
                    (cstr-Behaves (λ o w h. keep o w h.0.0) a.team_id (text "policy.team_id"))
                    (λ team. record { ends = λ s h. h.0.0.0 }))))
      | inr y ↦
          rw (x, y) (refuse-Behaves (text "unknown policy layout " ++ signed_decimal a.layout) keep)
    ]
  ]

  checked_size-Behaves : (a : PolicyArguments) → Behaves P (checked_size a) (λ u. P) Fail
  unfolding checked_size
  checked_size-Behaves a = elim (Bool-cases (ltb a.struct_size size_of_policy)) [
    | inl x ↦ rw x (refuse-Behaves (text "policy.struct_size is too small") keep)
    | inr x ↦ rw x (give-Behaves {P = λ u. P} tt)
  ]

  pub build_policy-Behaves :
      (policy : Option PolicyArguments) → Behaves P (build_policy policy) (λ p. P) Fail
  unfolding build_policy
  build_policy-Behaves policy = >>=-Behaves (handle-Behaves keep policy (text "policy")) (λ a.
      >>=-Behaves (record { ends = λ s h. (checked_size-Behaves a).ends s h.0 })
        (λ u. >>=-Behaves (cstr-Behaves keep a.root (text "policy.root")) (λ root.
          >>=-Behaves (cstr-Behaves (λ o w h. keep o w h.0) a.executable (text "policy.executable"))
            (λ executable. record {
              ends = λ s h. (layout_policy-Behaves a root executable).ends s h.0.0;
            }))))

module _ {P H W : Type 0} (t : Texts) (arm : P → InstallPolicy → Bytes → List Bytes → Exec W H)
    (before : Holder P W) where
  -- What `arm` has done with the update that was held.
  pub record Armed (handoff : H) (w : Holder P W) : Type 0 where
    pub update : P
    pub policy : InstallPolicy
    pub helper : Bytes
    pub args : List Bytes
    pub was_held : before.held ≡ some (some update)
    pub is_armed : (arm update policy helper args before.world).0 ≡ ok handoff
    pub emptied : w.held ≡ some none
    pub left : w.world ≡ (arm update policy helper args before.world).1

  -- The handoff is handed out.
  abbrev pub HandedOut : Option (Option H) → Holder P W → Type 0
  HandedOut o w = (handoff : H) × ((o ≡ some (some handoff)) × Armed handoff w)

  -- Nothing is handed out, and the handle is empty; one that was empty leaves the world as it was.
  pub record Spent (o : Option (Option H)) (w : Holder P W) : Type 0 where
    pub no_handoff : o ≡ some none
    pub emptied : w.held ≡ some none
    pub untouched : before.held ≡ some none → w.world ≡ before.world

  -- The update is taken.
  Taken : P → At (Option H) (Holder P W)
  Taken p o w =
      (o ≡ some none)
      × ((w.held ≡ some none) × ((w.world ≡ before.world) × (before.held ≡ some (some p))))

  Taken-Spent : (p : P) (o : Option (Option H)) (w : Holder P W) → Taken p o w → Spent o w
  unfolding Taken
  Taken-Spent p o w h = record { no_handoff = h.0; emptied = h.1.0; untouched = λ e. h.1.1.0 }

  took :
      {content : Option P} (held : Option (Option P)) (name consumed : Bytes)
      (s : Caller (Option H) (Holder P W))
      → held ≡ some content
      → s.world ≡ before
      → before.held ≡ held
      → s.slot ≡ some none
      → Finishes Taken Spent (take_found held name consumed s).0 (take_found held name consumed s).1
  unfolding take_found Taken refuse set_message
  took none name consumed s e w b o = cc
  took (some none) name consumed s e w b o = record {
    nonzero = λ z. cc;
    message = _;
    has_message = refl;
    left = record {
      no_handoff = o;
      emptied = ap (λ h. h.held) w ∙ b;
      untouched = λ z. ap (λ h. h.world) w;
    };
  }
  took (some (some p)) name consumed s e w b o = (o, (refl, (ap (λ h. h.world) w, b)))

  take_held-Behaves :
      {content : Option P} (name consumed : Bytes)
      → before.held ≡ some content
      → Behaves (λ o w. (o ≡ some none) × (w ≡ before)) (take_held name consumed) Taken Spent
  unfolding take_held
  take_held-Behaves name consumed c = record {
    ends = λ s h.
        took s.world.held name consumed s (ap (λ z. z.held) h.1 ∙ c) h.1
          (ap (λ z. z.held) (sym h.1)) h.0;
  }

  arming :
      (update : P) (policy : InstallPolicy) (helper : Bytes) (args : List Bytes)
      → Behaves
          (Taken update)
          (from t (on_world (arm update policy helper args)))
          (λ handoff o w. (o ≡ some none) × Armed handoff w)
          Spent
  unfolding Taken
  arming update policy helper args =
      from-Behaves t (on_world (arm update policy helper args))
        (λ o w handoff h e. (
          h.0,
          record {
            update = update;
            policy = policy;
            helper = helper;
            args = args;
            was_held = h.1.1.1;
            is_armed = ap (λ z. (arm update policy helper args z).0) (sym h.1.1.0) ∙ e;
            emptied = h.1.0;
            left = ap (λ z. (arm update policy helper args z).1) h.1.1.0;
          },
        ))
        (λ o w d h e. record {
          no_handoff = h.0;
          emptied = h.1.0;
          untouched = λ z. absurd (cc h.1.1.1);
        })

  -- Let the out-pointer and the handle not be null. When `freshen_arm` returns 0, the handle held
  -- an update, the library has armed it, its handoff is handed out, and the handle is empty.
  -- Otherwise the code is not 0, a message is recorded, null is handed out, the handle is empty,
  -- and if it was empty before, the world is unchanged.
  pub freshen_arm-once :
      (policy : Option PolicyArguments) (helper_executable : Option Bytes)
      (relaunch_args : Option (List (Option Bytes))) (relaunch_arg_count : ℕ)
      (s : Caller (Option H) (Holder P W)) {old : Option H} {content : Option P}
      → s.slot ≡ some old
      → s.world ≡ before
      → before.held ≡ some content
      → Ended HandedOut Spent
          (freshen_arm t arm policy helper_executable relaunch_args relaunch_arg_count s).0
          (freshen_arm t arm policy helper_executable relaunch_args relaunch_arg_count s).1
  unfolding freshen_arm
  freshen_arm-once policy helper_executable relaunch_args relaunch_arg_count s {old} o w c =
      run-Ended {Post = HandedOut} s
        (>>=-Behaves (store-Behaves {Q = λ w. w ≡ before} {old = old} none (text "out_handoff"))
          (λ u. >>=-Behaves (take_held-Behaves _ _ c) (λ update.
            >>=-Behaves (build_policy-Behaves (Taken-Spent update) policy) (λ built.
              >>=-Behaves
                (cstr-Behaves (Taken-Spent update) helper_executable (text "helper_executable"))
                (λ helper.
                  >>=-Behaves
                    (record {
                      ends = λ s h.
                          (cstr_list-Behaves (Taken-Spent update) relaunch_args relaunch_arg_count
                              (text "relaunch_args")).ends
                            s h.0;
                    })
                    (λ args. >>=-Behaves (arming update built helper args) (λ handoff.
                      Behaves-weaken
                        (store-Behaves {old = none} (some handoff) (text "out_handoff"))
                        (λ u o w h. (handoff, h)))))))))
        (o, w)
