-- ===== src/Plugins/Manager/Rollback.antt =====
-- A `startup` that raises an `Exception` leaves the manager as it was; one that is cancelled does not.
use fastapi_infra.Common.{true, false, ◌⊎◌, refl, ◌≡◌, arith, Bool-cases, inl, inr}
use fastapi_infra.Common.Result.{Result, ok, err, Result-cases}
use fastapi_infra.Plugins.Manager.State.{ManagerError, is_exception, Platform, Manager}
use fastapi_infra.Plugins.Manager.Checks.{check_unknown_configured_plugins}
use fastapi_infra.Plugins.Manager.Stopping.{shutdown}
use fastapi_infra.Plugins.Manager.Lifecycle.{startup, start_all, settle, rollback_startup, restore}

module _ {C V W : Type 0} where
  -- All that the manager keeps but the recorded health and the outside world.
  pub record SameManager (a b : Manager C V W) : Type 0 where
    pub services : a.services ≡ b.services
    pub contexts : a.contexts ≡ b.contexts
    pub started_plugins : a.started_plugins ≡ b.started_plugins
    pub active_plugins : a.active_plugins ≡ b.active_plugins
    pub started : a.started ≡ b.started

module _ {C V W : Type 0} (pf : Platform C V W) where
  restore-SameManager : (m n : Manager C V W) → SameManager m (restore pf m n)
  unfolding restore
  restore-SameManager m n = record {
    services = refl;
    contexts = refl;
    started_plugins = refl;
    active_plugins = refl;
    started = refl;
  }

  -- What the rollback itself raises is no `Exception`.
  rollback_startup-cases :
      (m n : Manager C V W)
      → (rollback_startup pf m n ≡ (ok tt, restore pf m (shutdown pf n).1))
        ⊎ ((f : ManagerError) × ((rollback_startup pf m n).0 ≡ err f) × (is_exception f ≡ false))
  unfolding rollback_startup
  rollback_startup-cases m n = elim (Result-cases (shutdown pf n).0) [
    | inl (_, fine) ↦ inl (ground (arith, fine))
    | inr (f, raised) ↦ elim (Bool-cases (is_exception f)) [
      | inl caught ↦ inl (ground (arith, raised, caught))
      | inr other ↦ inr (f, ground (arith, raised, other), other)
    ]
  ]

  settle-SameManager :
      (m : Manager C V W) (r : Result ManagerError (Unit {0})) (n : Manager C V W)
      (e : ManagerError) {m' : Manager C V W}
      → settle pf m (r, n) ≡ (err e, m')
      → is_exception e ≡ true
      → SameManager m m'
  unfolding settle
  settle-SameManager m (ok a) n e h x = absurd (ground arith)
  settle-SameManager m (err f) n e {m' = m'} h x = elim (Bool-cases (is_exception f)) [
    | inr other ↦ absurd (ground arith)
    | inl caught ↦ elim (rollback_startup-cases m n) [
      | inl done ↦
          let end : m' ≡ restore pf m (shutdown pf n).1 = ground (arith, h, caught, done) in
          rw end (restore-SameManager m (shutdown pf n).1)
      | inr (g, raised, other) ↦ absurd (ground (arith, h, caught, raised, other, x))
    ]
  ]

  -- Where `startup` raises an `Exception`, for whatever reason, the services, the contexts, the lists
  -- of started and active plugins and the flag are what they were before the call.
  pub startup-SameManager :
      (m : Manager C V W) (e : ManagerError) {m' : Manager C V W}
      → startup pf m ≡ (err e, m')
      → is_exception e ≡ true
      → SameManager m m'
  unfolding startup
  startup-SameManager m e {m' = m'} h x = elim (Bool-cases m.started) [
    | inl running ↦ ground arith
    | inr idle ↦ split (check_unknown_configured_plugins pf) (rw idle at h)
  ]
    where
      split :
          (r : Result ManagerError (Unit {0}))
          → (elim r [ err f ↦ (err f, m) | ok _ ↦ settle pf m (start_all pf m) ]) ≡ (err e, m')
          → SameManager m m'
      split (ok a) g = let (q, n) = start_all pf m in settle-SameManager m q n e g x
      split (err f) g = ground arith
