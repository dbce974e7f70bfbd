-- ===== src/Plugins/Manager/Services.antt =====
-- Whose the services are that a successful `startup` leaves.
use fastapi_infra.Common.{
  string_eq, ℕ, String, true, List, [], ◌∷◌, some, contains, ◌≡◌, ◌==◌, ◌∙◌, refl, subst, arith,
  Bool-cases, inl, inr,
}
use fastapi_infra.Common.Dict.{lookup, has_key, lookup-nil}
use fastapi_infra.Common.Result.{ok}
use fastapi_infra.Common.Action
use fastapi_infra.Plugins.Contract.{Plugin}
use fastapi_infra.Plugins.Manager.State.{Platform, Manager}
use fastapi_infra.Plugins.Manager.Starting.{startup_plugin}
use fastapi_infra.Plugins.Manager.Lifecycle.{startup_each, startup}
use fastapi_infra.Plugins.Manager.Activation.{ReadsOnly, Activated}
use fastapi_infra.Plugins.Manager.Refusal.{IsConfigured}
use fastapi_infra.Plugins.Manager.Startup.{left_out, activated, startup_plugin-Outcome, startup_ok}
use fastapi_infra.Plugins.Manager.Checks.{is_allowed, configured_service_name}
use fastapi_infra.Plugins.Contract.{PluginContext}

module _ {C V W : Type 0} (pf : Platform C V W) where
  -- An active plugin that declares the service name `k`: in what it provides, or in the field of its
  -- own context's configuration. That is what the plugin's settings come to.
  pub record Owner (m : Manager C V W) (k : String) : Type 0 where
    pub name : String
    pub plugin : Plugin C V W
    pub ctx : PluginContext C V
    pub found : lookup name pf.plugins ≡ some plugin
    pub active : contains m.active_plugins name ≡ true
    pub own : lookup name m.contexts ≡ some ctx
    pub valid : IsConfigured pf name plugin ctx.config
    pub allowed : is_allowed plugin ctx k ≡ true

  abbrev pub Owned : Manager C V W → Type 0
  Owned m = (k : String) → has_key k m.services ≡ true → Owner m k

  abbrev pub AllReadOnly : Type 0
  AllReadOnly = (n : String) (p : Plugin C V W) → lookup n pf.plugins ≡ some p → ReadsOnly p

  move :
      (m m' : Manager C V W) (k : String)
      → m.active_plugins ≡ m'.active_plugins
      → m.contexts ≡ m'.contexts
      → Owner m k
      → Owner m' k
  move m m' k same_active same_contexts o = record {
    name = o.name;
    plugin = o.plugin;
    ctx = o.ctx;
    found = o.found;
    active = rw same_active at o.active;
    own = rw same_contexts at o.own;
    valid = o.valid;
    allowed = o.allowed;
  }

  -- Which names a plugin declares is a matter of its configuration alone.
  is_allowed-config :
      (p q : Plugin C V W) (c d : PluginContext C V) (k : String)
      → p ≡ q
      → c.config ≡ d.config
      → is_allowed p c k ≡ is_allowed q d k
  unfolding configured_service_name
  is_allowed-config p q c d k same_plugin same_config =
      subst (λ r. is_allowed p c k ≡ is_allowed r d k) same_plugin
        (subst (λ v. is_allowed p c k ≡ is_allowed p (record d { config = v }) k) same_config refl)

  -- An owner stays one when a plugin is started, be it another one or itself.
  Activated-Owner :
      (name : String) (p : Plugin C V W) (m m' : Manager C V W) (k : String)
      → lookup name pf.plugins ≡ some p
      → Activated pf name p m m'
      → Owner m k
      → Owner m' k
  Activated-Owner name p m m' k found a o =
      let active : contains m'.active_plugins o.name ≡ true =
        ground (arith, a.active_plugins, o.active) in
      elim (Bool-cases (o.name == name)) [
        | inr other ↦ record {
          name = o.name;
          plugin = o.plugin;
          ctx = o.ctx;
          found = o.found;
          active = active;
          own = a.elsewhere o.name other ∙ o.own;
          valid = o.valid;
          allowed = o.allowed;
        }
        | inl itself ↦
            let (ctx, at, valid) = a.own in
            let same_name : name ≡ o.name = ground (arith, itself) in
            let same_plugin : p ≡ o.plugin = ground (arith, found, o.found, same_name) in
            let same_config : ctx.config ≡ o.ctx.config =
              ground (arith, rw (same_name, same_plugin) at valid, o.valid) in
            record {
              name = name;
              plugin = p;
              ctx = ctx;
              found = found;
              active = rw same_name active;
              own = at;
              valid = valid;
              allowed =
                  is_allowed-config p o.plugin ctx o.ctx k same_plugin same_config ∙ o.allowed;
            }
      ]

  Activated-Owned :
      (name : String) (p : Plugin C V W) (m m' : Manager C V W)
      → lookup name pf.plugins ≡ some p
      → ReadsOnly p
      → Activated pf name p m m'
      → Owned m
      → Owned m'
  Activated-Owned name p m m' found reads a o k i =
      let (ctx, r, e, valid) = a.services reads in
      let (last, at, valid') = a.own in
      let same : last.config ≡ ctx.config = ground (arith, valid, valid') in
      elim (Bool-cases (has_key k m.services)) [
        | inl old ↦ Activated-Owner name p m m' k found a (o k old)
        | inr new ↦ record {
          name = name;
          plugin = p;
          ctx = last;
          found = found;
          active = ground (arith, a.active_plugins);
          own = at;
          valid = valid';
          allowed = is_allowed-config p p last ctx k refl same ∙ r.declared k new (rw e at i);
        }
      ]

  startup_plugin-Owned :
      (name : String) (m m' : Manager C V W)
      → AllReadOnly
      → startup_plugin pf name m ≡ (ok tt, m')
      → Owned m
      → Owned m'
  startup_plugin-Owned name m m' reads h o = elim (startup_plugin-Outcome pf name m m' h) [
    | left_out s ↦ λ k i. move m m' k s.active_plugins s.contexts (o k (rw s.services i))
    | activated p found ready a ↦ Activated-Owned name p m m' found (reads name p found) a o
  ]

  startup_each-Owned :
      (names : List String) (m m' : Manager C V W)
      → AllReadOnly
      → startup_each pf names m ≡ (ok tt, m')
      → Owned m
      → Owned m'
  unfolding startup_each
  startup_each-Owned [] m m' reads h o = let e : m' ≡ m = ground arith in rw e o
  startup_each-Owned (name ∷ names) m m' reads h o =
      let (_, u, first, rest) =
        Action.>>=-eq-ok (startup_plugin pf name) (λ _. startup_each pf names) m h in
      startup_each-Owned names u m' reads rest (startup_plugin-Owned name m u reads first o)

  -- Starting one plugin keeps every service that was there, the same object under the same name, if
  -- no health check touches the services.
  startup_plugin_keeps :
      (name k : String) (v : ℕ) (m m' : Manager C V W)
      → AllReadOnly
      → startup_plugin pf name m ≡ (ok tt, m')
      → lookup k m.services ≡ some v
      → lookup k m'.services ≡ some v
  startup_plugin_keeps name k v m m' reads h e = elim (startup_plugin-Outcome pf name m m' h) [
    | left_out s ↦ ground (arith, s.services)
    | activated p found ready a ↦
        let (ctx, r, same, valid) = a.services (reads name p found) in rw same (r.kept k v e)
  ]

  -- Where `startup` runs from a manager with no services and returns, and no health check touches the
  -- services, every service name is one that an active plugin declares: it stands in what the plugin
  -- provides, or in the field of the configuration that its own context has.
  pub startup-Owned :
      (m m' : Manager C V W) → AllReadOnly → m.services ≡ [] → startup pf m ≡ (ok tt, m') → Owned m'
  startup-Owned m m' reads empty h =
      let (names, u, sorted, each, last) = startup_ok pf m m' h in
      let o : Owned u =
        startup_each-Owned names m u reads each
          (λ k i. absurd (ground (arith, lookup-nil {V = ℕ} k))) in
      rw last (λ k i. move u (record u { started = true }) k refl refl (o k i))
