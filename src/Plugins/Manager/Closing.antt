-- ===== src/Plugins/Manager/Closing.antt =====
-- What `shutdown` leaves behind.
use fastapi_infra.Common.{
  string_eq, ℕ, ◌+◌, ◌-◌, String, true, false, Option, List, [], ◌∷◌, none, some, contains, remove,
  reverse, ◌≡◌, refl, ◌∙◌, arith, ◌==◌, count_if, ◌++◌, not, contains-keep_if, contains-append,
  Option-cases, inl, inr,
}
use mathlib.Core.List.{reverse-cons}
use fastapi_infra.Common.Dict.{lookup}
use fastapi_infra.Common.Result.{ok, err}
use fastapi_infra.Common.Action
use fastapi_infra.Plugins.Contract.{Plugin, PluginContext}
use fastapi_infra.Plugins.Manager.State.{ManagerError, Platform, Manager}
use fastapi_infra.Plugins.Manager.Methods.{discard}
use fastapi_infra.Plugins.Manager.Stopping.{stop, shutdown_one, shutdown_each, conclude, shutdown}

abbrev count : List String → String → ℕ
count xs n = count_if (λ x. x == n) xs

abbrev remove_each : List String → List String → List String
remove_each xs [] = xs
remove_each xs (n ∷ ns) = remove_each (remove xs n) ns

count-remove :
    (xs : List String) (a n : String) → count (remove xs a) n ≡ count xs n - count (a ∷ []) n
count-remove [] a n = ground arith
count-remove (x ∷ xs) a n = ground (arith, count-remove xs a n)

count-remove_each :
    (xs ns : List String) (n : String) → count (remove_each xs ns) n ≡ count xs n - count ns n
count-remove_each xs [] n = omega arith
count-remove_each xs (m ∷ ns) n =
    ground (arith, count-remove_each (remove xs m) ns n, count-remove xs m n)

nil_of_count : (xs : List String) → ((n : String) → count xs n ≡ 0) → xs ≡ []
nil_of_count [] h = refl
nil_of_count (x ∷ xs) h = absurd (ground (arith, h x))

count-append : (xs ys : List String) (n : String) → count (xs ++ ys) n ≡ count xs n + count ys n
count-append [] ys n = omega arith
count-append (x ∷ xs) ys n = ground (arith, count-append xs ys n)

count-reverse : (xs : List String) (n : String) → count (reverse xs) n ≡ count xs n
count-reverse [] n = refl
count-reverse (x ∷ xs) n =
    rw (reverse-cons x xs)
      (ground (arith, count-append (reverse xs) (x ∷ []) n, count-reverse xs n))

remove_each-reverse : (xs : List String) → remove_each xs (reverse xs) ≡ []
remove_each-reverse xs =
    nil_of_count (remove_each xs (reverse xs))
      (λ n. omega (arith, count-remove_each xs (reverse xs) n, count-reverse xs n))

contains_of_reverse :
    (xs : List String) (n : String) → contains xs n ≡ true → contains (reverse xs) n ≡ true
contains_of_reverse (x ∷ xs) n h =
    rw (reverse-cons x xs)
      (ground (arith, contains-append (reverse xs) (x ∷ []) n, contains_of_reverse xs n))
contains_of_reverse [] n h = absurd (ground arith)

module _ {C V W : Type 0} (pf : Platform C V W) where
  -- What a part of `shutdown` that answers `first` has done, for the plugins `names`.
  record Closed (names : List String) (before first : Option ManagerError) (m m' : Manager C V W)
      : Type 0 where
    services : m'.services ≡ m.services
    started : m'.started ≡ m.started
    health : m'.health ≡ m.health
    quiet : first ≡ none → before ≡ none
    stopped : first ≡ none → m'.started_plugins ≡ remove_each m.started_plugins names
    inactive :
        first ≡ none → (n : String) → contains names n ≡ true → contains m'.active_plugins n ≡ false
    shrinks :
        (n : String) → contains m.active_plugins n ≡ false → contains m'.active_plugins n ≡ false

  stop-Closed :
      (name : String) (p : Plugin C V W) (before first : Option ManagerError)
      (ctx : PluginContext C V) (m m' : Manager C V W)
      → stop pf name p before ctx m ≡ (ok first, m')
      → Closed (name ∷ []) before first m m'
  unfolding stop
  stop-Closed name p before first ctx m m' h = elim (Option-cases (p.shutdown m.world ctx).raised) [
    | inl quiet ↦
        let e : m'.active_plugins ≡ discard m.active_plugins name = ground arith in
        let gone = λ (n : String). contains-keep_if (λ y. not (y == name)) m.active_plugins n in
        record {
          services = ground arith;
          started = ground arith;
          health = ground arith;
          quiet = λ q. ground arith;
          stopped = λ q. ground arith;
          inactive = λ q n i. rw e (ground (arith, gone n));
          shrinks = λ n i. rw e (ground (arith, gone n));
        }
    | inr (why, loud) ↦
        let e : m'.active_plugins ≡ m.active_plugins = ground arith in
        let some_first : first ≡ none → ⊥ = λ q. ground arith in
        record {
          services = ground arith;
          started = ground arith;
          health = ground arith;
          quiet = λ q. absurd (some_first q);
          stopped = λ q. absurd (some_first q);
          inactive = λ q n i. absurd (some_first q);
          shrinks = λ n i. rw e i;
        }
  ]

  shutdown_one-Closed :
      (name : String) (before first : Option ManagerError) (m m' : Manager C V W)
      → shutdown_one pf name before m ≡ (ok first, m')
      → Closed (name ∷ []) before first m m'
  unfolding shutdown_one
  shutdown_one-Closed name before first m m' h = elim (Option-cases (lookup name pf.plugins)) [
    | inl missing ↦ absurd (ground arith)
    | inr (p, found) ↦ elim (Option-cases (lookup name m.contexts)) [
      | inl gone ↦
          let e : m'.active_plugins ≡ discard m.active_plugins name = ground arith in
          let out = λ (n : String). contains-keep_if (λ y. not (y == name)) m.active_plugins n in
          record {
            services = ground arith;
            started = ground arith;
            health = ground arith;
            quiet = λ q. ground arith;
            stopped = λ q. ground arith;
            inactive = λ q n i. rw e (ground (arith, out n));
            shrinks = λ n i. rw e (ground (arith, out n));
          }
      | inr (ctx, here) ↦
          stop-Closed name p before first ctx m m' (rw (found, here, shutdown_one) at h)
    ]
  ]

  shutdown_each-Closed :
      (names : List String) (before first : Option ManagerError) (m m' : Manager C V W)
      → shutdown_each pf names before m ≡ (ok first, m')
      → Closed names before first m m'
  unfolding shutdown_each
  shutdown_each-Closed [] before first m m' h = record {
    services = ground arith;
    started = ground arith;
    health = ground arith;
    quiet = λ q. ground arith;
    stopped = λ q. ground arith;
    inactive = λ q n i. ground arith;
    shrinks = λ n i. ground arith;
  }
  shutdown_each-Closed (name ∷ names) before first m m' h =
      let (f, u, now, later) =
        Action.>>=-eq-ok (shutdown_one pf name before) (λ x. shutdown_each pf names x) m h in
      let a : Closed (name ∷ []) before f m u = shutdown_one-Closed name before f m u now in
      let b : Closed names f first u m' = shutdown_each-Closed names f first u m' later in
      record {
        services = b.services ∙ a.services;
        started = b.started ∙ a.started;
        health = b.health ∙ a.health;
        quiet = λ q. a.quiet (b.quiet q);
        stopped = λ q. ground (arith, b.stopped q, a.stopped (b.quiet q));
        inactive = λ q n i. ground (arith, a.inactive (b.quiet q) n, b.inactive q n, b.shrinks n);
        shrinks = λ n i. b.shrinks n (a.shrinks n i);
      }

  -- How a successful `shutdown` leaves the manager.
  pub record IsClosed (m m' : Manager C V W) : Type 0 where
    pub services : m'.services ≡ []
    pub started : m'.started ≡ false
    pub started_plugins : m'.started_plugins ≡ []
    pub inactive :
        (n : String) → contains m.started_plugins n ≡ true → contains m'.active_plugins n ≡ false

  conclude_ok :
      (first : Option ManagerError) (u m' : Manager C V W)
      → conclude pf first u ≡ (ok tt, m')
      → (first ≡ none) × (m' ≡ record u { services = []; started = false })
  unfolding conclude
  conclude_ok none u m' h = ground arith
  conclude_ok (some e) u m' h = absurd (ground arith)

  conclude_err :
      (first : Option ManagerError) (u m' : Manager C V W) (e : ManagerError)
      → conclude pf first u ≡ (err e, m')
      → m' ≡ u
  unfolding conclude
  conclude_err none u m' e h = absurd (ground arith)
  conclude_err (some f) u m' e h = ground arith

  -- A `shutdown` that does not raise has stopped every plugin that was started: nothing is started or
  -- served any more, and none of those plugins is active.
  pub shutdown-IsClosed :
      (m : Manager C V W) {m' : Manager C V W} → shutdown pf m ≡ (ok tt, m') → IsClosed m m'
  unfolding shutdown
  shutdown-IsClosed m {m' = m'} h =
      let names = reverse m.started_plugins in
      let (first, u, loop, last) =
        Action.>>=-eq-ok (shutdown_each pf names none) (conclude pf) m h in
      let c : Closed names none first m u = shutdown_each-Closed names none first m u loop in
      let (quiet, e) = conclude_ok first u m' last in
      record {
        services = ground (arith, e);
        started = ground (arith, e);
        started_plugins = ground (arith, e, c.stopped quiet, remove_each-reverse m.started_plugins);
        inactive = λ n i.
            ground (arith, e, c.inactive quiet n (contains_of_reverse m.started_plugins n i));
      }
