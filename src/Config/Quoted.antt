-- ===== src/Config/Quoted.antt =====
-- Values in double quotes in the env file of infra/config/loader.py.
use fastapi_infra.Common.{
  String, ◌<>◌, Bool, true, false, ◌&&◌, ◌||◌, Option, some, ◌≡◌, refl, arith, if◌then◌else◌,
  Bool-cases, inl, inr,
}
use fastapi_infra.Common.Result.{ok}
use fastapi_infra.Common.Text.{is_code, pushed}
use fastapi_infra.Config.Env.{
  backslash, double_quote, split_closing, unescaped, decode_double_quoted_env_value, quoted_value,
  parse_env_value,
}
use Prim.Native.Char.{Char, code}
use Prim.Native.String.append.{cons, nil}

-- A text as it is written between double quotes: a backslash stands before each quote and each
-- backslash.
unfoldable pub escape : String → String
escape String.[] = String.[]
escape (String.◌∷◌ c s) =
    let rest = escape s in
    if is_code (code c) double_quote || is_code (code c) backslash
    then String.◌∷◌ "\\" (String.◌∷◌ c rest)
    else String.◌∷◌ c rest

and_false : (b : Bool) → (b && false) ≡ false
and_false true = refl
and_false false = refl

abbrev closing : Bool → String → Option (String × String)
closing = split_closing true double_quote

closing_backslash : (s : String) → closing false (String.◌∷◌ "\\" s) ≡ pushed "\\" (closing true s)
unfolding split_closing
closing_backslash s = refl

closing_escaped :
    (c : Char) (s : String) → closing true (String.◌∷◌ c s) ≡ pushed c (closing false s)
unfolding split_closing
closing_escaped c s =
    rw (and_false (is_code (code c) double_quote), and_false (is_code (code c) backslash)) refl

closing_plain :
    (c : Char) (s : String)
    → (is_code (code c) double_quote || is_code (code c) backslash) ≡ false
    → closing false (String.◌∷◌ c s) ≡ pushed c (closing false s)
unfolding split_closing
closing_plain c s h =
    let no_quote : is_code (code c) double_quote ≡ false = ground (arith, h) in
    let no_backslash : is_code (code c) backslash ≡ false = ground (arith, h) in
    rw (no_quote, no_backslash) refl

closing_quote : (s : String) → closing false (String.◌∷◌ "\"" s) ≡ some ("", s)
unfolding split_closing
closing_quote s = refl

-- The quote behind an escaped text is the closing one.
closing-escape :
    (s suffix : String)
    → closing false (escape s <> String.◌∷◌ "\"" suffix) ≡ some (escape s, suffix)
unfolding escape
closing-escape String.[] suffix = rw (nil (String.◌∷◌ "\"" suffix), closing_quote suffix) refl
closing-escape (String.◌∷◌ c s) suffix =
    elim (Bool-cases (is_code (code c) double_quote || is_code (code c) backslash)) [
      | inl special ↦
          let end = String.◌∷◌ "\"" suffix in
          rw
            (
              special,
              cons "\\" (String.◌∷◌ c (escape s)) end,
              cons c (escape s) end,
              closing_backslash (String.◌∷◌ c (escape s <> end)),
              closing_escaped c (escape s <> end),
              closing-escape s suffix,
            )
            refl
      | inr plain ↦
          let end = String.◌∷◌ "\"" suffix in
          rw
            (
              plain,
              cons c (escape s) end,
              closing_plain c (escape s <> end) plain,
              closing-escape s suffix,
            )
            refl
    ]

decode_plain :
    (c : Char) (s : String)
    → is_code (code c) backslash ≡ false
    → decode_double_quoted_env_value (String.◌∷◌ c s)
      ≡ String.◌∷◌ c (decode_double_quoted_env_value s)
unfolding decode_double_quoted_env_value
decode_plain c String.[] h = refl
decode_plain c (String.◌∷◌ e s) h = ground arith

unescaped_special :
    (c : Char)
    → (is_code (code c) double_quote || is_code (code c) backslash) ≡ true
    → unescaped c ≡ String.◌∷◌ c String.[]
unfolding unescaped
unescaped_special c h = ground arith

decode_nil : decode_double_quoted_env_value "" ≡ ""
unfolding decode_double_quoted_env_value
decode_nil = refl

decode_special :
    (c : Char) (s : String)
    → (is_code (code c) double_quote || is_code (code c) backslash) ≡ true
    → decode_double_quoted_env_value (String.◌∷◌ "\\" (String.◌∷◌ c s))
      ≡ String.◌∷◌ c (decode_double_quoted_env_value s)
unfolding decode_double_quoted_env_value
decode_special c s h =
    let t = decode_double_quoted_env_value s in
    rw (unescaped_special c h, cons c String.[] t, nil t) refl

decode-escape : (s : String) → decode_double_quoted_env_value (escape s) ≡ s
unfolding escape
decode-escape String.[] = decode_nil
decode-escape (String.◌∷◌ c s) =
    elim (Bool-cases (is_code (code c) double_quote || is_code (code c) backslash)) [
      | inl special ↦ rw (special, decode_special c (escape s) special, decode-escape s) refl
      | inr plain ↦
          let ordinary : is_code (code c) backslash ≡ false = ground (arith, plain) in
          rw (plain, decode_plain c (escape s) ordinary, decode-escape s) refl
    ]

-- Any text that is written between double quotes, with a backslash before each quote and each
-- backslash, is read back as it was.
pub parse_env_value-escape :
    (s : String) → parse_env_value (String.◌∷◌ "\"" (escape s <> "\"")) ≡ ok s
unfolding parse_env_value quoted_value
parse_env_value-escape s = rw (closing-escape s "", decode-escape s) refl
