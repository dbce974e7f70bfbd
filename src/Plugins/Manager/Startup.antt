-- ===== src/Plugins/Manager/Startup.antt =====
-- What `_startup_plugin` has done where it returns.
use fastapi_infra.Common.{
  string_eq, String, Bool, true, Option, List, [], none, some, ◌≡◌, refl, arith, if◌then◌else◌,
  Bool-cases, Option-cases, inl, inr,
}
use fastapi_infra.Common.Dict.{lookup}
use fastapi_infra.Common.Result.{Result, ok, err}
use fastapi_infra.Common.Action
use fastapi_infra.Plugins.Contract.{Plugin, Message}
use fastapi_infra.Plugins.Order.{OrderError, resolve_order}
use fastapi_infra.Plugins.Manager.State.{ManagerError, Platform, Manager, get_plugin}
use fastapi_infra.Plugins.Manager.Checks.{check_unknown_configured_plugins}
use fastapi_infra.Plugins.Manager.Methods.{is_switched_off}
use fastapi_infra.Plugins.Manager.Starting.{
  disable_or_raise_for_dependency_errors, validated_plugin_config_or_disabled, activate_config,
  configure, start_enabled, startup_plugin,
}
use fastapi_infra.Plugins.Manager.Lifecycle.{startup_each, start_all, settle, startup}
use fastapi_infra.Plugins.Manager.Rollback.{SameManager}
use fastapi_infra.Plugins.Manager.Refusal.{
  IsConfigured, Ready, set_disabled_ok, disable_or_raise_ok, validated_ok,
}
use fastapi_infra.Plugins.Manager.Activation.{Activated, activate_ok}

module _ {C V W : Type 0} where
  SameManager-trans : {a b c : Manager C V W} → SameManager a b → SameManager b c → SameManager a c
  SameManager-trans h k = ground arith

module _ {C V W : Type 0} (pf : Platform C V W) where
  -- `_startup_plugin` either disables the plugin, and changes nothing but its health, or activates it.
  pub data Outcome (name : String) (m m' : Manager C V W) : Type 0 where
    left_out : SameManager m m' → Outcome name m m'
    activated :
        (p : Plugin C V W)
        → lookup name pf.plugins ≡ some p
        → Ready pf p m
        → Activated pf name p m m'
        → Outcome name m m'

  rebase :
      (name : String) (p : Plugin C V W) (m n m' : Manager C V W)
      → SameManager m n
      → Activated pf name p n m'
      → Activated pf name p m m'
  rebase name p m n m' s a = record {
    started_plugins = ground (arith, a.started_plugins, s.started_plugins);
    active_plugins = ground (arith, a.active_plugins, s.active_plugins);
    started = ground (arith, a.started, s.started);
    contexts = λ k i. a.contexts k (rw s.contexts at i);
    elsewhere = λ k i. ground (arith, a.elsewhere k i, s.contexts);
    own = a.own;
    here = a.here;
    services =
        λ reads. let (ctx, r, e, valid) = a.services reads in (ctx, rw s.services r, e, valid);
  }

  activate_config-Outcome :
      (name : String) (p : Plugin C V W) (c : Option (Option V)) (m n m' : Manager C V W)
      → lookup name pf.plugins ≡ some p
      → Ready pf p m
      → SameManager m n
      → ((v : Option V) → c ≡ some v → IsConfigured pf name p v)
      → activate_config pf name p c n ≡ (ok tt, m')
      → Outcome name m m'
  unfolding activate_config
  activate_config-Outcome name p none m n m' found ready s valid h =
      left_out
        (ground (arith, s.services, s.contexts, s.started_plugins, s.active_plugins, s.started))
  activate_config-Outcome name p (some v) m n m' found ready s valid h =
      activated p found ready
        (rebase name p m n m' s (activate_ok pf name p v n m' found (valid v refl) h))

  start_enabled-Outcome :
      (name : String) (p : Plugin C V W) (enabled : Option Bool) (m m' : Manager C V W)
      → lookup name pf.plugins ≡ some p
      → start_enabled pf name p enabled m ≡ (ok tt, m')
      → Outcome name m m'
  unfolding start_enabled
  start_enabled-Outcome name p enabled m m' found h =
      let (refused, n, first, rest) =
        Action.>>=-eq-ok (disable_or_raise_for_dependency_errors pf name p enabled)
          (λ r. if r then Action.pure tt else configure pf name p enabled) m h in
      let (same, ready) = disable_or_raise_ok pf name p enabled m n refused first in
      elim (Bool-cases refused) [
        | inl out ↦ left_out (
            ground (
              arith, same.services, same.contexts, same.started_plugins, same.active_plugins,
              same.started,
            ))
        | inr go ↦ configured n same (ready go) (rw go at rest)
      ]
    where
      configured :
          (n : Manager C V W)
          → SameManager m n
          → Ready pf p m
          → configure pf name p enabled n ≡ (ok tt, m')
          → Outcome name m m'
      configured n same ready g =
          let (c, u, second, last) =
            Action.>>=-eq-ok (validated_plugin_config_or_disabled pf name p enabled)
              (activate_config pf name p) n g in
          let (kept, valid) = validated_ok pf name p enabled n u c second in
          activate_config-Outcome name p c m u m' found ready (SameManager-trans same kept) valid
            last

  pub startup_plugin-Outcome :
      (name : String) (m m' : Manager C V W)
      → startup_plugin pf name m ≡ (ok tt, m')
      → Outcome name m m'
  unfolding startup_plugin
  startup_plugin-Outcome name m m' h = elim (Option-cases (lookup name pf.plugins)) [
    | inl missing ↦ absurd (ground arith)
    | inr (p, found) ↦
        let enabled = (get_plugin pf name).enabled in
        elim (Bool-cases (is_switched_off enabled p.metadata.default_enabled)) [
          | inl off ↦ left_out (
              set_disabled_ok name Message.disabled_by_config [] m m' (ok tt)
                (rw (found, off, startup_plugin) at h))
          | inr on ↦
              start_enabled-Outcome name p enabled m m' found (rw (found, on, startup_plugin) at h)
        ]
  ]

  settle_ok :
      (m : Manager C V W) (r : Result ManagerError (Unit {0}) × Manager C V W) (m' : Manager C V W)
      → settle pf m r ≡ (ok tt, m')
      → r ≡ (ok tt, m')
  unfolding settle
  settle_ok m (ok _, n) m' h = ground arith
  settle_ok m (err e, n) m' h = absurd (ground arith)

  start_all_ok :
      (m m' : Manager C V W)
      → start_all pf m ≡ (ok tt, m')
      → (names : List String) × (u : Manager C V W) × (resolve_order
            (λ (p : Plugin C V W). p.metadata)
            pf.plugins
          ≡ ok names)
        × (startup_each pf names m ≡ (ok tt, u))
        × (m' ≡ record u { started = true })
  unfolding start_all
  start_all_ok m m' h = go (resolve_order (λ (p : Plugin C V W). p.metadata) pf.plugins) refl
    where
      go :
          (r : Result OrderError (List String))
          → resolve_order (λ (p : Plugin C V W). p.metadata) pf.plugins ≡ r
          → (names : List String) × (u : Manager C V W) × (resolve_order
                (λ (p : Plugin C V W). p.metadata)
                pf.plugins
              ≡ ok names)
            × (startup_each pf names m ≡ (ok tt, u))
            × (m' ≡ record u { started = true })
      go (err e) q = absurd (ground arith)
      go (ok names) q =
          let (_, u, each, last) =
            Action.>>=-eq-ok (startup_each pf names)
              (λ _. Action.modify (λ (x : Manager C V W). record x { started = true })) m
              (rw (q, start_all) at h) in
          (names, u, q, each, ground arith)

  -- A successful `startup` is a run over a resolved order that ends with the flag set.
  pub startup_ok :
      (m m' : Manager C V W)
      → startup pf m ≡ (ok tt, m')
      → (names : List String) × (u : Manager C V W) × (resolve_order
            (λ (p : Plugin C V W). p.metadata)
            pf.plugins
          ≡ ok names)
        × (startup_each pf names m ≡ (ok tt, u))
        × (m' ≡ record u { started = true })
  unfolding startup
  startup_ok m m' h = elim (Bool-cases m.started) [
    | inl running ↦ absurd (ground arith)
    | inr idle ↦ go (check_unknown_configured_plugins pf) (rw (idle, startup) at h)
  ]
    where
      go :
          (r : Result ManagerError (Unit {0}))
          → (elim r [ err e ↦ (err e, m) | ok _ ↦ settle pf m (start_all pf m) ]) ≡ (ok tt, m')
          → (names : List String) × (u : Manager C V W) × (resolve_order
                (λ (p : Plugin C V W). p.metadata)
                pf.plugins
              ≡ ok names)
            × (startup_each pf names m ≡ (ok tt, u))
            × (m' ≡ record u { started = true })
      go (err e) g = absurd (ground arith)
      go (ok a) g = start_all_ok m m' (settle_ok m (start_all pf m) m' g)
