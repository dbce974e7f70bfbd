-- ===== src/Plugins/Manager/Checks/Laws.antt =====
-- What `_validate_registered_services` lets through.
use fastapi_infra.Common.{
  string_eq, nat_eq, ℕ, String, true, false, not, some, keep_if, is_empty-eq-nil, keep_if-eq-nil,
  ◌↔◌, none_kept, ◌≡◌, ◌&&◌, arith, Option-cases, inl, inr,
}
use fastapi_infra.Common.Dict.{Dict, keys, lookup, has_key, contains-keys}
use fastapi_infra.Common.Result.{ok}
use fastapi_infra.Plugins.Contract.{PluginContext, Plugin}
use fastapi_infra.Plugins.Manager.Checks.{validate_registered_services, replaced, is_allowed}

-- A plugin keeps the services that were there, the same objects under the same names, and the names
-- that it adds are its declared ones.
pub record Respects {C V W : Type 0} (p : Plugin C V W) (before : Dict String ℕ)
    (ctx : PluginContext C V) : Type 0 where
  pub kept : (k : String) (v : ℕ) → lookup k before ≡ some v → lookup k ctx.services ≡ some v
  pub declared :
      (k : String)
      → has_key k before ≡ false
      → has_key k ctx.services ≡ true
      → is_allowed p ctx k ≡ true

module _ {C V W : Type 0} (name : String) (p : Plugin C V W) (before : Dict String ℕ)
    (ctx : PluginContext C V) where
  validate_sound : validate_registered_services name p before ctx ≡ ok tt → Respects p before ctx
  unfolding validate_registered_services
  validate_sound h =
      let after = ctx.services in
      let gone = λ (k : String). not (has_key k after) in
      let new = λ (k : String). not (has_key k before) && not (is_allowed p ctx k) in
      record {
        kept = λ k v e. ground (
          arith,
          is_empty-eq-nil (keep_if gone (keys before)),
          is_empty-eq-nil (keep_if (replaced before after) (keys before)),
          none_kept gone (keys before) k,
          none_kept (replaced before after) (keys before) k,
          contains-keys before k,
        );
        declared = λ k i j. ground (
          arith,
          is_empty-eq-nil (keep_if new (keys after)),
          none_kept new (keys after) k,
          contains-keys after k,
        );
      }

  validate_complete : Respects p before ctx → validate_registered_services name p before ctx ≡ ok tt
  unfolding validate_registered_services
  validate_complete r =
      let after = ctx.services in
      let gone = λ (k : String). not (has_key k after) in
      let new = λ (k : String). not (has_key k before) && not (is_allowed p ctx k) in
      rw (
        keep_if-eq-nil gone (keys before) (λ k i. elim (Option-cases (lookup k before)) [
          | inl none_before ↦ ground (arith, contains-keys before k)
          | inr (v, e) ↦ ground (arith, r.kept k v e)
        ]),
        keep_if-eq-nil (replaced before after) (keys before) (λ k i.
            elim (Option-cases (lookup k before)) [
              | inl none_before ↦ ground arith
              | inr (v, e) ↦ ground (arith, r.kept k v e)
            ]),
        keep_if-eq-nil new (keys after)
            (λ k i. ground (arith, r.declared k, contains-keys after k)),
      )

  -- The check of a plugin's services passes exactly when the plugin respects the services that
  -- were there before it.
  pub validate_registered_services_iff :
      (validate_registered_services name p before ctx ≡ ok tt) ↔ Respects p before ctx
  validate_registered_services_iff = (validate_sound, validate_complete)
