-- ===== src/Config/Settings.antt =====
-- The settings of infra/config/loader.py: nested keys, the merge of two trees, values from the
-- environment, and references to it. `loads` is `json.loads`, `none` where it refuses.
use fastapi_infra.Common.{
  string_eq, String, ◌<>◌, Bool, true, not, ◌&&◌, ◌||◌, Option, none, some, List, [], ◌∷◌,
  if◌then◌else◌, ◌==◌, map, keep_if, is_some,
}
use fastapi_infra.Common.Dict.{Dict, lookup}
use fastapi_infra.Common.Result.{Result, ok, err, ◌>>=◌}
use fastapi_infra.Common.Json.{
  Json, Items, Fields, text, list, object, no_item, item, no_field, field,
}
use fastapi_infra.Common.Text.{is_blank, is_code, drop_prefix, ends_with, has_text}
use Prim.Native.Char.{Char, code}

pub data SettingsError : Type 0 where
  not_an_object mixed_reference bad_reference : SettingsError
  unset : String → SettingsError

pub data MissingEnvPolicy : Type 0 where
  error placeholder : MissingEnvPolicy

module _ {F : Type 0} where
  -- `target.get(key)`
  unfoldable pub get : String → Fields F → Option (Json F)
  get k no_field = none
  get k (field j v more) = if k == j then some v else get k more

  -- `target[key] = value`
  unfoldable pub set : String → Json F → Fields F → Fields F
  set k v no_field = field k v no_field
  set k v (field j w more) = if k == j then field k v more else field j w (set k v more)

  -- A dict that is there already, or a new one
  abbrev pub existing_or_new : Option (Json F) → Fields F
  existing_or_new (some (object d)) = d
  existing_or_new _ = no_field

  -- The path is never empty: its first key is an argument.
  unfoldable pub set_nested : Fields F → String → List String → Json F → Fields F
  unfolding set get
  set_nested target key [] value = set key value target
  set_nested target key (next ∷ path) value =
      set key (object (set_nested (existing_or_new (get key target)) next path value)) target

-- A merge goes along the source; `merged` is what comes under a key of it.
unfoldable mutual
  unfolding get set

  pub merged : {F : Type 0} → Option (Json F) → Json F → Json F
  merged (some (object d)) (object source) = object (deep_merge d source)
  merged existing v = v

  pub deep_merge : {F : Type 0} → Fields F → Fields F → Fields F
  deep_merge target no_field = target
  deep_merge target (field k v more) = deep_merge (set k (merged (get k target) v) target) more

unfoldable pub env_reference_placeholder : String → String
unfolding ends_with has_text
env_reference_placeholder variable =
    if ends_with "_PORT" variable
    then "1"
    else (if ends_with "_URL" variable
        then (if has_text "REDIS" variable
            then "redis://localhost:6379/0"
            else "https://example.test")
        else (if ends_with "_REGION" variable
            then "us-east-1"
            else (if ends_with "_HOST" variable
                then "localhost"
                else (if ends_with "_DATABASE" variable || ends_with "_DB" variable
                    then "app"
                    else (if ends_with "_SENDER" variable
                        then "noreply@example.test"
                        else (if ends_with "_RECIPIENT" variable
                            then "ops@example.test"
                            else (if ends_with "_SECRET" variable || ends_with "_PASSWORD" variable
                                then "placeholder-secret-value"
                                else (if ends_with "_API_KEY" variable
                                    then "placeholder-api-key"
                                    else "placeholder"))))))))

module _ {F : Type 0} where
  abbrev only_env : Fields F → Bool
  only_env no_field = true
  only_env (field k v more) = k == "$env" && only_env more

  unfoldable pub missing : MissingEnvPolicy → String → Result SettingsError (Json F)
  unfolding env_reference_placeholder
  missing placeholder variable = ok (text (env_reference_placeholder variable))
  missing error variable = err (unset variable)

  abbrev found_or : MissingEnvPolicy → String → Option String → Result SettingsError (Json F)
  found_or policy variable (some value) = ok (text value)
  found_or policy variable none = missing policy variable

  abbrev variable_of : Option (Json F) → Result SettingsError String
  variable_of (some (text s)) = if is_blank s then err bad_reference else ok s
  variable_of _ = err bad_reference

  -- An object with the key `$env`
  unfoldable pub reference :
      MissingEnvPolicy → Dict String String → Fields F → Result SettingsError (Json F)
  unfolding get missing
  reference policy environ d =
      if only_env d
      then (variable_of (get "$env" d) >>= λ variable.
          found_or policy variable (lookup variable environ))
      else err mixed_reference

unfoldable mutual
  unfolding get reference

  pub resolve_env_references :
      {F : Type 0} → MissingEnvPolicy → Dict String String → Json F → Result SettingsError (Json F)
  resolve_env_references policy environ (list items) =
      resolve_items policy environ items >>= λ resolved. ok (list resolved)
  resolve_env_references policy environ (object d) =
      let resolved = resolve_fields policy environ d in
      if is_some (get "$env" d)
      then reference policy environ d
      else (resolved >>= λ r. ok (object r))
  resolve_env_references policy environ v = ok v

  pub resolve_items :
      {F : Type 0}
      → MissingEnvPolicy
      → Dict String String
      → Items F
      → Result SettingsError (Items F)
  resolve_items policy environ no_item = ok no_item
  resolve_items policy environ (item v more) = resolve_env_references policy environ v >>= λ r.
      resolve_items policy environ more >>= λ rest. ok (item r rest)

  pub resolve_fields :
      {F : Type 0}
      → MissingEnvPolicy
      → Dict String String
      → Fields F
      → Result SettingsError (Fields F)
  resolve_fields policy environ no_field = ok no_field
  resolve_fields policy environ (field k v more) = resolve_env_references policy environ v >>= λ r.
      resolve_fields policy environ more >>= λ rest. ok (field k r rest)

-- `s.split("__")`
abbrev put : Char → List String → List String
put c [] = String.◌∷◌ c String.[] ∷ []
put c (part ∷ parts) = String.◌∷◌ c part ∷ parts

unfoldable pub split_double : String → List String
split_double String.[] = String.[] ∷ []
split_double (String.◌∷◌ c String.[]) = String.◌∷◌ c String.[] ∷ []
split_double (String.◌∷◌ c (String.◌∷◌ d s)) =
    let behind = split_double s in
    let next = split_double (String.◌∷◌ d s) in
    if is_code (code c) 95 && is_code (code d) 95 then String.[] ∷ behind else put c next

module _ {F : Type 0} (loads : String → Option (Json F)) (lower : String → String) where
  unfoldable pub coerce_env_value : String → Json F
  coerce_env_value value = elim (loads value) [ none ↦ text value | some j ↦ j ]

  abbrev set_path : List String → Json F → Fields F → Fields F
  set_path [] value settings = settings
  set_path (key ∷ path) value settings = set_nested settings key path value

  unfoldable pub read_variable : String → String → String → Fields F → Fields F
  unfolding drop_prefix split_double set_nested coerce_env_value
  read_variable prefix name value settings = elim (drop_prefix prefix name) [
    | none ↦ settings
    | some rest ↦
        set_path (map lower (keep_if (λ part. not (is_blank part)) (split_double rest)))
          (coerce_env_value value) settings
  ]

  unfoldable pub read_each : String → Dict String String → Fields F → Fields F
  unfolding read_variable
  read_each prefix [] settings = settings
  read_each prefix ((name, value) ∷ more) settings =
      read_each prefix more (read_variable prefix name value settings)

  unfoldable pub read_env_settings : String → Dict String String → Fields F
  unfolding read_each
  read_env_settings env_prefix environ = read_each (env_prefix <> "__") environ no_field

  -- `given` is what the file holds; the model that the result goes to is pydantic's.
  unfoldable pub load_infra_settings :
      MissingEnvPolicy → String → Dict String String → Fields F → Result SettingsError (Json F)
  unfolding read_env_settings resolve_env_references deep_merge
  load_infra_settings policy env_prefix environ given =
      resolve_env_references policy environ
        (object (deep_merge given (read_env_settings env_prefix environ)))
