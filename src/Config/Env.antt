-- ===== src/Config/Env.antt =====
-- The env file of infra/config/loader.py: its lines, its keys, and its quoted and unquoted values.
use fastapi_infra.Common.{
  string_eq, ℕ, suc, String, ◌<>◌, Bool, true, false, not, ◌&&◌, ◌||◌, Option, none, some, List, [],
  ◌∷◌, if◌then◌else◌,
}
use fastapi_infra.Common.Dict.{Dict, insert}
use fastapi_infra.Common.Result.{Result, ok, err, ◌>>=◌}
use fastapi_infra.Common.Text.{
  strip, is_blank, is_code, is_between, is_space, all_codes, pushed, partition, drop_prefix,
}
use Prim.Native.Char.{Char, code}

-- `ValueError`, by what it says
pub data EnvError : Type 0 where
  not_key_value invalid_key : String → EnvError
  unterminated unexpected_content : EnvError
  at_line : ℕ → EnvError → EnvError

abbrev pub backslash : ℕ
backslash = 92

abbrev pub double_quote : ℕ
double_quote = 34

abbrev pub single_quote : ℕ
single_quote = 39

abbrev pub hash : ℕ
hash = 35

-- `s[0] == c`
abbrev pub begins : ℕ → String → Bool
begins c String.[] = false
begins c (String.◌∷◌ d s) = is_code (code d) c

abbrev is_letter : ℕ → Bool
is_letter c = is_between 65 c 90 || is_between 97 c 122

-- A character of a key, which is ASCII when its tests are reached
abbrev is_key_code : ℕ → Bool
is_key_code c = is_letter c || is_between 48 c 57 || is_code c 95

unfoldable pub valid_env_key : String → Bool
valid_env_key String.[] = false
valid_env_key (String.◌∷◌ c s) =
    (is_letter (code c) || is_code (code c) 95) && is_key_code (code c) && all_codes is_key_code s

-- What stands before and behind the closing quote. `escaped` says whether an odd number of
-- backslashes stands right before the text; `escapes` whether that counts, as it does for `"`.
unfoldable pub split_closing : Bool → ℕ → Bool → String → Option (String × String)
split_closing escapes quote escaped String.[] = none
split_closing escapes quote escaped (String.◌∷◌ c s) =
    if is_code (code c) quote && not (escapes && escaped)
    then some (String.[], s)
    else pushed c (split_closing escapes quote (is_code (code c) backslash && not escaped) s)

-- What `\` and a character stand for
unfoldable pub unescaped : Char → String
unescaped e =
    if is_code (code e) 110
    then "\n"
    else (if is_code (code e) 114
        then "\r"
        else (if is_code (code e) 116
            then "\t"
            else (if is_code (code e) double_quote
                  || is_code (code e) backslash
                  || is_code (code e) 36
                then String.◌∷◌ e String.[]
                else String.◌∷◌ "\\" (String.◌∷◌ e String.[]))))

unfoldable pub decode_double_quoted_env_value : String → String
unfolding unescaped
decode_double_quoted_env_value String.[] = String.[]
decode_double_quoted_env_value (String.◌∷◌ c String.[]) = String.◌∷◌ c String.[]
decode_double_quoted_env_value (String.◌∷◌ c (String.◌∷◌ e s)) =
    let skipped = decode_double_quoted_env_value s in
    let next = decode_double_quoted_env_value (String.◌∷◌ e s) in
    if is_code (code c) backslash then unescaped e <> skipped else String.◌∷◌ c next

-- `spaced` says whether the text is at its start or stands behind white space.
unfoldable pub strip_comment : Bool → String → String
unfolding is_space
strip_comment spaced String.[] = String.[]
strip_comment spaced (String.◌∷◌ c s) =
    let rest = strip_comment (is_space (code c)) s in
    if is_code (code c) hash && spaced then String.[] else String.◌∷◌ c rest

abbrev pub strip_unquoted_comment : String → String
strip_unquoted_comment = strip_comment true

-- Behind the closing quote stands nothing, or a comment.
unfoldable pub quoted_value : Bool → Option (String × String) → Result EnvError String
unfolding decode_double_quoted_env_value strip
quoted_value is_double none = err unterminated
quoted_value is_double (some (inner, suffix)) =
    let rest = strip suffix in
    if not (is_blank rest) && not (begins hash rest)
    then err unexpected_content
    else ok (if is_double then decode_double_quoted_env_value inner else inner)

unfoldable pub parse_env_value : String → Result EnvError String
unfolding quoted_value split_closing strip_comment strip
parse_env_value String.[] = ok String.[]
parse_env_value (String.◌∷◌ c s) =
    if is_code (code c) single_quote
    then quoted_value false (split_closing false single_quote false s)
    else (if is_code (code c) double_quote
        then quoted_value true (split_closing true double_quote false s)
        else ok (strip (strip_unquoted_comment (String.◌∷◌ c s))))

abbrev without_export : String → String
without_export line = elim (drop_prefix "export " line) [ none ↦ line | some rest ↦ strip rest ]

abbrev pub pair_of : String → Option (String × String) → Result EnvError (String × String)
pair_of raw_line none = err (not_key_value raw_line)
pair_of raw_line (some (key, value)) =
    if valid_env_key (strip key)
    then (parse_env_value (strip value) >>= λ parsed. ok (strip key, parsed))
    else err (invalid_key (strip key))

unfoldable pub parse_env_line : String → Result EnvError (Option (String × String))
unfolding strip drop_prefix partition valid_env_key parse_env_value
parse_env_line raw_line =
    let line = strip raw_line in
    if is_blank line || begins hash line
    then ok none
    else pair_of raw_line (partition 61 (without_export line)) >>= λ pair. ok (some pair)

abbrev pub set_pair : Option (String × String) → Dict String String → Dict String String
set_pair none env = env
set_pair (some (key, value)) env = insert key value env

abbrev pub numbered : {A : Type 0} → ℕ → Result EnvError A → Result EnvError A
numbered n (ok a) = ok a
numbered n (err e) = err (at_line n e)

-- `lines` are those of the file, numbered from `n`.
unfoldable pub load_lines :
    ℕ → List String → Dict String String → Result EnvError (Dict String String)
unfolding parse_env_line
load_lines n [] env = ok env
load_lines n (raw_line ∷ more) env =
    numbered n (parse_env_line raw_line) >>= λ parsed. load_lines (suc n) more (set_pair parsed env)

unfoldable pub load_env_file :
    List String → Dict String String → Result EnvError (Dict String String)
unfolding load_lines
load_env_file lines base_environ = load_lines 1 lines base_environ
