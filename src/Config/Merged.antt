-- ===== src/Config/Merged.antt =====
-- What is found in the trees that infra/config/loader.py sets along a path of keys.
use fastapi_infra.Common.{
  string_eq, String, Option, some, List, [], ◌∷◌, ◌≡◌, sym, subst, arith, if◌then◌else◌, ◌==◌,
}
use fastapi_infra.Common.Json.{Json, Fields, object}
use fastapi_infra.Config.Settings.{get, set, set_nested, existing_or_new}
use fastapi_infra.Config.Merge.{get-set}

module _ {F : Type 0} where
  -- What is found along a path of keys through objects
  unfoldable pub get_nested : Fields F → String → List String → Option (Json F)
  get_nested d key [] = get key d
  get_nested d key (next ∷ path) = get_nested (existing_or_new (get key d)) next path

  set_nested-others :
      (d : Fields F) (key : String) (path : List String) (v : Json F) (j : String)
      → get j (set_nested d key path v)
        ≡ (if j == key then get key (set_nested d key path v) else get j d)
  unfolding set_nested
  set_nested-others d key [] v j = ground (arith, get-set j key v d, get-set key key v d)
  set_nested-others d key (next ∷ path) v j =
      let inner = object (set_nested (existing_or_new (get key d)) next path v) in
      ground (arith, get-set j key inner d, get-set key key inner d)

  -- From `d` to `e` nothing changes but along a path: at every object on it the entries of other keys
  -- stay.
  abbrev pub Along : Fields F → Fields F → String → List String → Type 0
  Along d e key [] = (j : String) → get j e ≡ (if j == key then get key e else get j d)
  Along d e key (next ∷ path) =
      ((j : String) → get j e ≡ (if j == key then get key e else get j d))
      × Along (existing_or_new (get key d)) (existing_or_new (get key e)) next path

  set_nested-Along :
      (d : Fields F) (key : String) (path : List String) (v : Json F)
      → Along d (set_nested d key path v) key path
  unfolding set_nested
  set_nested-Along d key [] v = set_nested-others d key [] v
  set_nested-Along d key (next ∷ path) v =
      let before = existing_or_new (get key d) in
      let inner = set_nested before next path v in
      let found : existing_or_new (get key (set key (object inner) d)) ≡ inner =
        ground (arith, get-set key key (object inner) d) in
      (
        set_nested-others d key (next ∷ path) v,
        subst (λ e. Along before e next path) (sym found) (set_nested-Along before next path v),
      )

  get_nested-set_nested_found :
      (d : Fields F) (key : String) (path : List String) (v : Json F)
      → get_nested (set_nested d key path v) key path ≡ some v
  unfolding get_nested set_nested
  get_nested-set_nested_found d key [] v = ground (arith, get-set key key v d)
  get_nested-set_nested_found d key (next ∷ path) v =
      let inner = set_nested (existing_or_new (get key d)) next path v in
      let found = get_nested-set_nested_found (existing_or_new (get key d)) next path v in
      ground (arith, get-set key key (object inner) d, found)

  -- A value that is set under a path of keys is found under that path again, and nothing else
  -- changes: at every object along the path the entries of other keys stay.
  pub get_nested-set_nested :
      (d : Fields F) (key : String) (path : List String) (v : Json F)
      → (get_nested (set_nested d key path v) key path ≡ some v)
        × Along d (set_nested d key path v) key path
  get_nested-set_nested d key path v =
      (get_nested-set_nested_found d key path v, set_nested-Along d key path v)
