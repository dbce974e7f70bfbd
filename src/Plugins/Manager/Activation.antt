-- ===== src/Plugins/Manager/Activation.antt =====
-- What the statements of `_startup_plugin` that start a plugin have done where they return.
use fastapi_infra.Common.{
  string_eq, ℕ, String, true, false, Option, [], ◌∷◌, ◌++◌, some, ◌≡◌, ◌==◌, refl, ◌∙◌, arith,
}
use fastapi_infra.Common.Int.{ℤ}
use fastapi_infra.Common.Dict.{Dict, lookup, insert, has_key, lookup-insert, lookup-insert_self}
use fastapi_infra.Common.Result.{ok}
use fastapi_infra.Common.Action
use fastapi_infra.Plugins.Contract.{Plugin, PluginContext, Hooked}
use fastapi_infra.Plugins.Manager.State.{Platform, Manager}
use fastapi_infra.Plugins.Manager.Checks.{validate_registered_services}
use fastapi_infra.Plugins.Manager.Checks.Laws.{Respects, validate_registered_services_iff}
use fastapi_infra.Plugins.Manager.Methods
use fastapi_infra.Plugins.Manager.Methods.{
  call_hook, set_disabled, plugin_health_status, add, is_forced,
}
use fastapi_infra.Plugins.Manager.Starting.{run_register, run_startup, new_context, adopt, activate}
use fastapi_infra.Plugins.Manager.Refusal.{IsConfigured}

module _ {C V W : Type 0} where
  -- A health check that leaves the services of its context alone.
  abbrev pub ReadsOnly : Plugin C V W → Type 0
  ReadsOnly p =
      (t : Option ℤ) (w : W) (ctx : PluginContext C V)
      → (p.health_check t w ctx).services ≡ ctx.services

  call_hook_ok :
      (hook : W → PluginContext C V → Hooked W) (name : String) (ctx ctx' : PluginContext C V)
      (m m' : Manager C V W)
      → call_hook hook name ctx m ≡ (ok ctx', m')
      → (ctx'.config ≡ ctx.config)
        × (m' ≡ record m { world = m'.world; contexts = insert name ctx' m.contexts })
  unfolding call_hook
  call_hook_ok hook name ctx ctx' m m' h = ground arith

module _ {C V W : Type 0} (pf : Platform C V W) where
  record Adopted (name : String) (p : Plugin C V W) (ctx : PluginContext C V) (m m' : Manager C V W)
      : Type 0 where
    started_plugins : m'.started_plugins ≡ m.started_plugins
    active_plugins : m'.active_plugins ≡ m.active_plugins
    started : m'.started ≡ m.started
    contexts : (k : String) → has_key k m.contexts ≡ true → has_key k m'.contexts ≡ true
    elsewhere : (k : String) → (k == name) ≡ false → lookup k m'.contexts ≡ lookup k m.contexts
    own :
        (last : PluginContext C V) × (lookup name m'.contexts ≡ some last)
        × (last.config ≡ ctx.config)
    services : m'.services ≡ (p.health_check pf.timeout m.world ctx).services

  adopt_ok :
      (name : String) (p : Plugin C V W) (ctx : PluginContext C V) (m m' : Manager C V W)
      → lookup name pf.plugins ≡ some p
      → lookup name m.contexts ≡ some ctx
      → adopt pf name m ≡ (ok tt, m')
      → Adopted name p ctx m m'
  unfolding adopt plugin_health_status
  adopt_ok name p ctx m m' found here h =
      let probe = p.health_check pf.timeout m.world ctx in
      let ctx' : PluginContext C V = record ctx { services = probe.services } in
      let at = λ (k : String). lookup-insert k name ctx' m.contexts in
      record {
        started_plugins = ground (arith, at name);
        active_plugins = ground (arith, at name);
        started = ground (arith, at name);
        contexts = λ k i. ground (arith, at name, at k);
        elsewhere = λ k i. ground (arith, at name, at k);
        own = (ctx', ground (arith, at name), refl);
        services = ground (arith, at name);
      }

  -- What `activate` has done where it returns.
  pub record Activated (name : String) (p : Plugin C V W) (m m' : Manager C V W) : Type 0 where
    pub started_plugins : m'.started_plugins ≡ m.started_plugins ++ name ∷ []
    pub active_plugins : m'.active_plugins ≡ add m.active_plugins name
    pub started : m'.started ≡ m.started
    pub contexts : (k : String) → has_key k m.contexts ≡ true → has_key k m'.contexts ≡ true
    pub elsewhere : (k : String) → (k == name) ≡ false → lookup k m'.contexts ≡ lookup k m.contexts
    pub own :
        (ctx : PluginContext C V) × (lookup name m'.contexts ≡ some ctx)
        × IsConfigured pf name p ctx.config
    pub here : has_key name m'.contexts ≡ true
    pub services :
        ReadsOnly p
        → (ctx : PluginContext C V) × Respects p m.services ctx
          × (m'.services ≡ ctx.services)
          × IsConfigured pf name p ctx.config

  validate_ok :
      (name : String) (p : Plugin C V W) (before : Dict String ℕ) (ctx : PluginContext C V)
      (m m' : Manager C V W)
      → Methods.lift (validate_registered_services name p before ctx) m ≡ (ok tt, m')
      → Respects p before ctx × (m' ≡ m)
  validate_ok name p before ctx m m' h =
      ((validate_registered_services_iff name p before ctx).0 (ground arith), ground arith)

  record Registered (name : String) (p : Plugin C V W) (ctx ctx' : PluginContext C V)
      (m m' : Manager C V W) : Type 0 where
    started_plugins : m'.started_plugins ≡ m.started_plugins ++ name ∷ []
    active_plugins : m'.active_plugins ≡ m.active_plugins
    started : m'.started ≡ m.started
    config : ctx'.config ≡ ctx.config
    contexts : m'.contexts ≡ insert name ctx' m.contexts

  run_register_ok :
      (name : String) (p : Plugin C V W) (before : Dict String ℕ) (ctx ctx' : PluginContext C V)
      (m m' : Manager C V W)
      → run_register pf name p before ctx m ≡ (ok ctx', m')
      → Registered name p ctx ctx' m m'
  unfolding run_register
  run_register_ok name p before ctx ctx' m m' h = ground arith

  record Launched (name : String) (p : Plugin C V W) (before : Dict String ℕ)
      (ctx ctx' : PluginContext C V) (m m' : Manager C V W) : Type 0 where
    started_plugins : m'.started_plugins ≡ m.started_plugins
    active_plugins : m'.active_plugins ≡ add m.active_plugins name
    started : m'.started ≡ m.started
    config : ctx'.config ≡ ctx.config
    contexts : m'.contexts ≡ insert name ctx' m.contexts
    respects : Respects p before ctx'

  run_startup_ok :
      (name : String) (p : Plugin C V W) (before : Dict String ℕ) (ctx ctx' : PluginContext C V)
      (m m' : Manager C V W)
      → run_startup pf name p before ctx m ≡ (ok ctx', m')
      → Launched name p before ctx ctx' m m'
  unfolding run_startup
  run_startup_ok name p before ctx ctx' m m' h = record {
    started_plugins = ground arith;
    active_plugins = ground arith;
    started = ground arith;
    config = ground arith;
    contexts = ground arith;
    respects = (validate_registered_services_iff name p before ctx').0 (ground arith);
  }

  pub activate_ok :
      (name : String) (p : Plugin C V W) (config : Option V) (m m' : Manager C V W)
      → lookup name pf.plugins ≡ some p
      → IsConfigured pf name p config
      → activate pf name p config m ≡ (ok tt, m')
      → Activated name p m m'
  unfolding activate
  activate_ok name p config m m' found valid h =
      let before = m.services in
      let ctx = new_context pf name config before in
      let (reg, u, first, rest) =
        Action.>>=-eq-ok (run_register pf name p before ctx)
          (λ r. Action.◌>>◌ (run_startup pf name p before r) (adopt pf name)) m h in
      let (run, v, second, last) =
        Action.>>=-eq-ok (run_startup pf name p before reg) (λ _. adopt pf name) u rest in
      let a : Registered name p ctx reg m u = run_register_ok name p before ctx reg m u first in
      let b : Launched name p before reg run u v =
        run_startup_ok name p before reg run u v second in
      let here : lookup name v.contexts ≡ some run =
        rw b.contexts (lookup-insert_self name run u.contexts) in
      let c : Adopted name p run v m' = adopt_ok name p run v m' found here last in
      record {
        started_plugins = c.started_plugins ∙ b.started_plugins ∙ a.started_plugins;
        active_plugins = ground (arith, c.active_plugins, b.active_plugins, a.active_plugins);
        started = c.started ∙ b.started ∙ a.started;
        contexts = λ k i. c.contexts k (
            ground (
              arith,
              b.contexts,
              a.contexts,
              lookup-insert k name run u.contexts,
              lookup-insert k name reg m.contexts,
            ));
        elsewhere = λ k i.
            c.elsewhere k i
            ∙ ground (
              arith,
              b.contexts,
              a.contexts,
              lookup-insert k name run u.contexts,
              lookup-insert k name reg m.contexts,
            );
        own = let (last, at, same) = c.own in (last, at, rw (same ∙ b.config ∙ a.config) valid);
        here = c.contexts name (rw here);
        services = λ reads. (
          run,
          b.respects,
          c.services ∙ reads pf.timeout v.world run,
          rw (b.config ∙ a.config) valid,
        );
      }
