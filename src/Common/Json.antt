-- ===== src/Common/Json.antt =====
-- JSON values, as Python's `json` reads them. `F` is the type of floating-point numbers.
use Prim.Native.String.{String}
use mathlib.Core.Bool.{Bool}
use mathlib.Core.List.{[], ◌∷◌}
use fastapi_infra.Common.Int.{ℤ}
use fastapi_infra.Common.Dict.{Dict}

mutual
  pub data Json (F : Type 0) : Type 0 where
    null : Json F
    bool : Bool → Json F
    int : ℤ → Json F
    float : F → Json F
    text : String → Json F
    list : Items F → Json F
    object : Fields F → Json F

  pub data Items (F : Type 0) : Type 0 where
    no_item : Items F
    item : Json F → Items F → Items F

  pub data Fields (F : Type 0) : Type 0 where
    no_field : Fields F
    field : String → Json F → Fields F → Fields F

module _ {F : Type 0} where
  abbrev pub dict_of : Fields F → Dict String (Json F)
  dict_of no_field = []
  dict_of (field k v more) = (k, v) ∷ dict_of more
