-- ===== src/Plugins/Manager/Refusal.antt =====
-- What the checks at the start of `_startup_plugin` have done where they return.
use fastapi_infra.Common.{
  string_eq, String, Bool, true, false, not, Option, List, some, contains, keep_if, is_empty,
  is_empty-eq-nil, none_kept, ◌≡◌, arith, Bool-cases, inl, inr,
}
use fastapi_infra.Common.Dict.{Dict, has_key}
use fastapi_infra.Common.Result.{Result, ok, Result-cases}
use fastapi_infra.Plugins.Contract.{Plugin, Message, invalid, broken}
use fastapi_infra.Plugins.Manager.State.{ManagerError, Platform, Manager, get_plugin}
use fastapi_infra.Plugins.Manager.Checks.{validate_config, missing_optional_dependencies}
use fastapi_infra.Plugins.Manager.Methods.{set_disabled, is_forced}
use fastapi_infra.Plugins.Manager.Starting.{
  refuse, disable_or_raise_for_dependency_errors, validated_plugin_config_or_disabled,
}
use fastapi_infra.Plugins.Manager.Rollback.{SameManager}

module _ {C V W : Type 0} where
  pub set_disabled_ok :
      (name : String) (message : Message) (details : Dict String (List String))
      (m m' : Manager C V W) (r : Result ManagerError (Unit {0}))
      → set_disabled name message details m ≡ (r, m')
      → SameManager m m'
  unfolding set_disabled
  set_disabled_ok name message details m m' r h = ground arith

module _ {C V W : Type 0} (pf : Platform C V W) where
  pub refuse_ok :
      (name : String) (enabled : Option Bool) (detail : String) (names : List String)
      (message : Message) (error : ManagerError) (m m' : Manager C V W) (b : Bool)
      → refuse pf name enabled detail names message error m ≡ (ok b, m')
      → (b ≡ true) × SameManager m m'
  unfolding refuse set_disabled
  refuse_ok name enabled detail names message error m m' b h =
      elim (Bool-cases (is_forced enabled)) [ inl f ↦ absurd (ground arith) | inr f ↦ ground arith ]

  -- What a plugin that passed the dependency checks can rely on.
  abbrev pub Ready : Plugin C V W → Manager C V W → Type 0
  Ready p m =
      (d : String) → contains p.metadata.dependencies d ≡ true → contains m.active_plugins d ≡ true

  pub disable_or_raise_ok :
      (name : String) (p : Plugin C V W) (enabled : Option Bool) (m m' : Manager C V W) (b : Bool)
      → disable_or_raise_for_dependency_errors pf name p enabled m ≡ (ok b, m')
      → SameManager m m' × (b ≡ false → Ready p m)
  unfolding disable_or_raise_for_dependency_errors
  disable_or_raise_ok name p enabled m m' b h =
      let gone = λ (d : String). not (has_key d pf.plugins) in
      let still = λ (d : String). not (contains m.active_plugins d) in
      let missing = keep_if gone p.metadata.dependencies in
      let inactive = keep_if still p.metadata.dependencies in
      let optional = missing_optional_dependencies pf p in
      elim (Bool-cases (is_empty missing)) [
        | inr some_missing ↦
            let (yes_, same) = refuse_ok name enabled _ missing _ _ m m' b (rw some_missing at h) in
            (same, λ e. absurd (ground arith))
        | inl all_known ↦ elim (Bool-cases (is_empty inactive)) [
          | inr some_inactive ↦
              let (yes_, same) =
                refuse_ok name enabled _ inactive _ _ m m' b (rw (all_known, some_inactive) at h) in
              (same, λ e. absurd (ground arith))
          | inl all_active ↦
              let ready : Ready p m = λ d i. ground (
                arith,
                none_kept still p.metadata.dependencies d (is_empty-eq-nil inactive all_active) i,
              ) in
              elim (Bool-cases (is_empty optional)) [
                | inl all_there ↦ (ground arith, λ e. ready)
                | inr some_absent ↦
                    let (yes_, same) =
                      refuse_ok name enabled _ optional _ _ m m' b
                        (rw (all_known, all_active, some_absent) at h) in
                    (same, λ e. ready)
              ]
        ]
      ]

  -- What the plugin's settings come to
  abbrev pub IsConfigured : String → Plugin C V W → Option V → Type 0
  IsConfigured name p config = validate_config p (get_plugin pf name).config ≡ ok config

  pub validated_ok :
      (name : String) (p : Plugin C V W) (enabled : Option Bool) (m m' : Manager C V W)
      (c : Option (Option V))
      → validated_plugin_config_or_disabled pf name p enabled m ≡ (ok c, m')
      → SameManager m m' × ((config : Option V) → c ≡ some config → IsConfigured name p config)
  unfolding validated_plugin_config_or_disabled set_disabled
  validated_ok name p enabled m m' c h = (
    ground arith,
    λ config e. elim (Result-cases (validate_config p (get_plugin pf name).config)) [
      | inl (v, valid) ↦ ground arith
      | inr (broken why, loud) ↦ absurd (ground arith)
      | inr (invalid why, loud) ↦ absurd (ground arith)
    ],
  )
