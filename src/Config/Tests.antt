-- ===== src/Config/Tests.antt =====
-- Lines of an env file and trees of settings, and the theorems on them at runs.
use fastapi_infra.Common.{string_eq, ℕ, String, ◌<>◌, true, Option, none, some, [], ◌∷◌, ◌≡◌, refl}
use fastapi_infra.Common.Dict.{lookup, insert}
use fastapi_infra.Common.Int.{pos}
use fastapi_infra.Common.Result.{ok, err}
use fastapi_infra.Common.Json.{Json, Fields, int, text, object, no_field, field}
use fastapi_infra.Common.Text.{
  strip, is_space, partition, drop_prefix, is_same, ends_with, has_text,
}
use fastapi_infra.Config.Env.{
  parse_env_line, parse_env_value, load_env_file, load_lines, quoted_value, split_closing,
  unescaped, decode_double_quoted_env_value, strip_comment, valid_env_key, at_line, invalid_key,
}
use fastapi_infra.Config.Quoted.{escape}
use fastapi_infra.Config.Quoted
use fastapi_infra.Config.Settings.{
  get, set, set_nested, deep_merge, env_reference_placeholder, missing, reference,
  resolve_env_references, split_double, coerce_env_value, read_variable, read_each,
  read_env_settings, load_infra_settings, error,
}
use fastapi_infra.Config.Merge.{are_dicts, IsMerge}
use fastapi_infra.Config.Merge
use fastapi_infra.Config.Merged.{get_nested, Along}
use fastapi_infra.Config.Merged

program : Unit {0}
unfolding string_eq lookup insert strip is_space partition parse_env_line parse_env_value
    load_env_file load_lines quoted_value split_closing unescaped decode_double_quoted_env_value
    strip_comment drop_prefix valid_env_key escape get set set_nested deep_merge is_same ends_with
    has_text env_reference_placeholder missing reference resolve_env_references split_double
    coerce_env_value read_variable read_each read_env_settings load_infra_settings get_nested
program = tt

read :
    load_env_file ("# keys" ∷ "export A = 1 # one" ∷ "B='x y' # two" ∷ "C=\"a\\nb\"" ∷ []) []
    ≡ ok (("A", "1") ∷ ("B", "x y") ∷ ("C", "a\nb") ∷ [])
unfolding program
read = refl

refused : load_env_file ("A=1" ∷ "1A=2" ∷ []) [] ≡ err (at_line 2 (invalid_key "1A"))
unfolding program
refused = refl

abbrev saying : String
saying = "say \"\\\" $HOME"

parse_env_value-escape_example :
    parse_env_value (String.◌∷◌ "\"" (escape saying <> "\"")) ≡ ok saying
parse_env_value-escape_example = Quoted.parse_env_value-escape saying

abbrev one_field : String → Json ℕ → Fields ℕ
one_field k v = field k v no_field

abbrev redis : Fields ℕ
redis = one_field "redis" (object (field "port" (int (pos 1)) (one_field "db" (int (pos 0)))))

abbrev port : Fields ℕ
port = one_field "redis" (object (one_field "port" (int (pos 2))))

port_once : are_dicts port ≡ true
unfolding program
port_once = refl

ports_joined :
    deep_merge redis port
    ≡ one_field "redis" (object (field "port" (int (pos 2)) (one_field "db" (int (pos 0)))))
unfolding program
ports_joined = refl

deep_merge-IsMerge_example : IsMerge redis port (deep_merge redis port)
deep_merge-IsMerge_example = Merge.deep_merge-IsMerge redis port port_once

get_nested-set_nested_example :
    (get_nested (set_nested redis "redis" ("port" ∷ []) (int (pos 3))) "redis" ("port" ∷ [])
      ≡ some (int (pos 3)))
    × Along redis (set_nested redis "redis" ("port" ∷ []) (int (pos 3))) "redis" ("port" ∷ [])
get_nested-set_nested_example =
    Merged.get_nested-set_nested redis "redis" ("port" ∷ []) (int (pos 3))

abbrev no_json : String → Option (Json ℕ)
no_json _ = none

abbrev same_text : String → String
same_text s = s

-- A variable of the environment wins over the file, and a reference is replaced.
loaded :
    load_infra_settings no_json same_text error "infra"
      (("infra__redis__port", "7") ∷ ("DB", "main") ∷ [])
      (one_field "redis" (object (one_field "db" (object (one_field "$env" (text "DB"))))))
    ≡ ok (
        object
          (one_field "redis" (object (field "db" (text "main") (one_field "port" (text "7"))))))
unfolding program
loaded = refl
