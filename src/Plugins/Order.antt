-- ===== src/Plugins/Order.antt =====
-- `PluginManager._resolve_order` of infra/plugins/manager.py: the order in which plugins start.
pub mod Walks
pub mod Sorted
pub mod Cycles
pub mod Positions
use fastapi_infra.Common.{
  string_eq, ℕ, zero, suc, String, List, [], ◌∷◌, ◌++◌, none, some, contains, remove, length,
  if◌then◌else◌,
}
use fastapi_infra.Common.Dict.{Dict, keys, lookup, has_key}
use fastapi_infra.Common.Result.{Result, ok, err, ◌>>=◌}
use fastapi_infra.Plugins.Contract.{PluginMetadata}

-- `PluginDependencyError` as `visit` raises it. Python has no fuel: `out_of_fuel` is shown to be
-- unreachable.
pub data OrderError : Type 0 where
  circular unknown : String → OrderError
  out_of_fuel : OrderError

-- The variables that `visit` closes over.
pub record Walk : Type 0 where
  pub resolved : List String
  pub visiting : List String
  pub visited : List String

abbrev pub fresh : Walk
fresh = record { resolved = []; visiting = []; visited = [] }

-- The lines behind the loop over the dependencies.
abbrev pub leave : String → Walk → Walk
leave name w = record {
  resolved = w.resolved ++ name ∷ [];
  visiting = remove w.visiting name;
  visited = name ∷ w.visited;
}

module _ {P : Type 0} (metadata : P → PluginMetadata) (plugins : Dict String P) where
  -- The loop over a plugin's dependencies, over the recursive call.
  unfoldable pub visit_each :
      (String → Walk → Result OrderError Walk) → List String → Walk → Result OrderError Walk
  visit_each go [] w = ok w
  visit_each go (d ∷ ds) w =
      (if has_key d plugins then go d w else ok w) >>= λ w'. visit_each go ds w'

  unfoldable pub visit : ℕ → String → Walk → Result OrderError Walk
  visit zero name w = err out_of_fuel
  visit (suc fuel) name w =
      if contains w.visited name
      then ok w
      else if contains w.visiting name
      then err (circular name)
      else elim (lookup name plugins) [
        | none ↦ err (unknown name)
        | some p ↦
            visit_each (visit fuel) (metadata p).dependencies
              (record w { visiting = name ∷ w.visiting })
            >>= λ w'. ok (leave name w')
      ]

  -- The loop over all plugins.
  unfoldable pub visit_all :
      (String → Walk → Result OrderError Walk) → List String → Walk → Result OrderError Walk
  visit_all go [] w = ok w
  visit_all go (n ∷ ns) w = go n w >>= λ w'. visit_all go ns w'

  -- The chain of plugins under visit holds no name twice, so one more than their number is enough.
  unfoldable pub resolve_order : Result OrderError (List String)
  unfolding visit visit_all visit_each
  resolve_order =
      visit_all (visit (suc (length plugins))) (keys plugins) fresh >>= λ w. ok w.resolved
