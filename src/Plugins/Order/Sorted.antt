-- ===== src/Plugins/Order/Sorted.antt =====
-- The order that `resolve_order` returns.
use fastapi_infra.Common.{
  string_eq, suc, String, List, [], ◌∷◌, contains, length, ◌≡◌, refl, ◌∙◌, arith,
}
use fastapi_infra.Common.Dict.{Dict, keys, has_key, contains-keys}
use fastapi_infra.Common.Result.{Result, ok, >>=-eq-ok}
use fastapi_infra.Plugins.Contract.{PluginMetadata}
use fastapi_infra.Plugins.Order.{Walk, OrderError, fresh, visit, visit_all, resolve_order}
use fastapi_infra.Plugins.Order.Walks.{
  Distinct, Ordered, IsSound, Visited, Visits, VisitedEach, visit-Visited,
}

module _ {P : Type 0} (metadata : P → PluginMetadata) (plugins : Dict String P) where
  pub visit_all-Visited :
      (go : String → Walk → Result OrderError Walk)
      → Visits metadata plugins go
      → (ns : List String) (w w' : Walk) → IsSound metadata plugins w
      → visit_all metadata plugins go ns w ≡ ok w'
      → VisitedEach metadata plugins ns w w'
  unfolding visit_all
  visit_all-Visited go good [] w w' s h =
      let e : w' ≡ w = ground arith in
      rw e (record { sound = s; restored = refl; done = λ d i k. ground arith; grows = λ m g. g })
  visit_all-Visited go good (n ∷ ns) w w' s h =
      let (v, first, others) = >>=-eq-ok (go n w) (λ x. visit_all metadata plugins go ns x) h in
      let one : Visited metadata plugins n w v = good n w v s first in
      let rest : VisitedEach metadata plugins ns v w' =
        visit_all-Visited go good ns v w' one.sound others in
      record {
        sound = rest.sound;
        restored = rest.restored ∙ one.restored;
        done = λ m i k. ground (arith, one.done, rest.done m, rest.grows m);
        grows = λ m g. rest.grows m (one.grows m g);
      }

  pub fresh-IsSound : IsSound metadata plugins fresh
  fresh-IsSound = record {
    same = λ n. refl;
    ordered = tt;
    distinct = tt;
    known = λ n h. ground arith;
    apart = λ n h. refl;
  }

  -- What a start order has to be.
  pub record IsStartOrder (order : List String) : Type 0 where
    pub ordered : Ordered metadata plugins [] order
    pub distinct : Distinct order
    pub complete : (n : String) → contains order n ≡ has_key n plugins

  -- An order that `resolve_order` returns holds every plugin once and nothing else, and each plugin
  -- stands behind all of its dependencies that are plugins.
  pub resolve_order-IsStartOrder :
      (order : List String) → resolve_order metadata plugins ≡ ok order → IsStartOrder order
  unfolding resolve_order
  resolve_order-IsStartOrder order h =
      let go = visit metadata plugins (suc (length plugins)) in
      let (w, run, last) =
        >>=-eq-ok (visit_all metadata plugins go (keys plugins) fresh) (λ x. ok x.resolved) h in
      let v : VisitedEach metadata plugins (keys plugins) fresh w =
        visit_all-Visited go (visit-Visited metadata plugins (suc (length plugins))) (keys plugins)
          fresh w fresh-IsSound run in
      let e : order ≡ w.resolved = ground arith in
      rw e (record {
        ordered = v.sound.ordered;
        distinct = v.sound.distinct;
        complete =
            λ n. ground (arith, v.sound.known n, v.sound.same n, v.done n, contains-keys plugins n);
      })
