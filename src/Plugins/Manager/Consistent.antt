-- ===== src/Plugins/Manager/Consistent.antt =====
-- What a successful `startup` establishes.
use fastapi_infra.Common.{
  string_eq, String, true, List, [], ◌∷◌, some, contains, contains-append, ◌≡◌, refl, ◌∙◌, sym,
  arith,
}
use fastapi_infra.Common.Dict.{lookup, has_key}
use fastapi_infra.Common.Result.{ok}
use fastapi_infra.Common.Action
use fastapi_infra.Plugins.Contract.{Plugin}
use fastapi_infra.Plugins.Manager.State.{Platform, Manager}
use fastapi_infra.Plugins.Manager.Starting.{startup_plugin}
use fastapi_infra.Plugins.Manager.Lifecycle.{startup_each, startup}
use fastapi_infra.Plugins.Manager.Refusal.{Ready}
use fastapi_infra.Plugins.Manager.Activation.{Activated}
use fastapi_infra.Plugins.Manager.Startup.{left_out, activated, startup_plugin-Outcome, startup_ok}

module _ {C V W : Type 0} (pf : Platform C V W) where
  -- What holds of the manager between two plugins.
  pub record IsConsistent (m : Manager C V W) : Type 0 where
    pub same : (n : String) → contains m.active_plugins n ≡ contains m.started_plugins n
    pub known : (n : String) → contains m.active_plugins n ≡ true → has_key n pf.plugins ≡ true
    pub context : (n : String) → contains m.active_plugins n ≡ true → has_key n m.contexts ≡ true
    pub backed :
        (n d : String) (p : Plugin C V W)
        → contains m.active_plugins n ≡ true
        → lookup n pf.plugins ≡ some p
        → contains p.metadata.dependencies d ≡ true
        → contains m.active_plugins d ≡ true

  Activated-IsConsistent :
      (name : String) (p : Plugin C V W) (m m' : Manager C V W)
      → lookup name pf.plugins ≡ some p
      → Ready pf p m
      → Activated pf name p m m'
      → IsConsistent m
      → IsConsistent m'
  Activated-IsConsistent name p m m' found ready a c =
      let grown = contains-append m.started_plugins (name ∷ []) in
      record {
        same = λ n.
            rw (a.active_plugins, a.started_plugins)
              (ground (arith, c.same n, c.same name, grown n));
        known = λ n i. ground (arith, a.active_plugins, c.known n, found);
        context = λ n i. ground (arith, a.active_plugins, c.context n, a.contexts n, a.here);
        backed = λ n d q i f j.
            rw a.active_plugins (ground (arith, a.active_plugins, c.backed n d q, ready d, found));
      }

  startup_plugin-IsConsistent :
      (name : String) (m m' : Manager C V W)
      → startup_plugin pf name m ≡ (ok tt, m')
      → IsConsistent m
      → IsConsistent m' × (m'.started ≡ m.started)
  startup_plugin-IsConsistent name m m' h c = elim (startup_plugin-Outcome pf name m m' h) [
    | left_out s ↦ (
      rw (sym s.active_plugins, sym s.started_plugins, sym s.contexts)
          (record { same = c.same; known = c.known; context = c.context; backed = c.backed }),
      sym s.started,
    )
    | activated p found ready a ↦ (Activated-IsConsistent name p m m' found ready a c, a.started)
  ]

  startup_each-IsConsistent :
      (names : List String) (m m' : Manager C V W)
      → startup_each pf names m ≡ (ok tt, m')
      → IsConsistent m
      → IsConsistent m' × (m'.started ≡ m.started)
  unfolding startup_each
  startup_each-IsConsistent [] m m' h c = let e : m' ≡ m = ground arith in rw e (c, refl)
  startup_each-IsConsistent (name ∷ names) m m' h c =
      let (_, u, first, rest) =
        Action.>>=-eq-ok (startup_plugin pf name) (λ _. startup_each pf names) m h in
      let (c', e) = startup_plugin-IsConsistent name m u first c in
      let (c'', e') = startup_each-IsConsistent names u m' rest c' in (c'', e' ∙ e)

  -- Where `startup` runs from a manager with nothing started and returns, the manager is started, the
  -- active plugins are the started ones, each is known and has its context, and every dependency of an
  -- active plugin is active too.
  pub startup-IsConsistent :
      (m m' : Manager C V W)
      → m.started_plugins ≡ []
      → m.active_plugins ≡ []
      → startup pf m ≡ (ok tt, m')
      → IsConsistent m' × (m'.started ≡ true)
  startup-IsConsistent m m' empty idle h =
      let (names, u, sorted, each, last) = startup_ok pf m m' h in
      let start : IsConsistent m = record {
        same = λ n. rw (empty, idle);
        known = λ n i. ground arith;
        context = λ n i. ground arith;
        backed = λ n d p i f j. absurd (ground arith);
      } in
      let (c, e) = startup_each-IsConsistent names m u each start in
      rw last
        (record { same = c.same; known = c.known; context = c.context; backed = c.backed }, refl)
