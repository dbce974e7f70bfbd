-- ===== src/Health/Redaction.antt =====
-- Secrets in the details of a health report: `redact_secret_value` of infra/core/health.py. The two
-- regular expressions of `redact_secret_text` and `str` of a key are arguments.
use fastapi_infra.Common.{
  string_eq, String, Bool, true, false, ◌&&◌, ◌||◌, List, [], ◌∷◌, ◌≡◌, refl, arith, if◌then◌else◌,
  ◌==◌, Bool-cases, inl, inr,
}
use fastapi_infra.Common.Text.{is_code, has_text}
use Prim.Native.Char.{code}

-- The values that the details hold. `O` is the type of all other objects, and of the keys of dicts.
mutual
  pub data Value (O : Type 0) : Type 0 where
    other : O → Value O
    text : String → Value O
    list tuple : Values O → Value O
    dict : Entries O → Value O

  pub data Values (O : Type 0) : Type 0 where
    no_value : Values O
    value : Value O → Values O → Values O

  pub data Entries (O : Type 0) : Type 0 where
    no_entry : Entries O
    entry : O → Value O → Entries O → Entries O

abbrev pub redacted : String
redacted = "[redacted]"

abbrev secret_key_parts : List String
secret_key_parts =
    "api_key" ∷ "apikey" ∷ "authorization" ∷ "credential" ∷ "password" ∷ "secret" ∷ "token" ∷ []

-- `s.replace("-", "_")`
unfoldable pub underscored : String → String
underscored String.[] = String.[]
underscored (String.◌∷◌ c s) =
    let rest = underscored s in
    if is_code (code c) 45 then String.◌∷◌ "_" rest else String.◌∷◌ c rest

unfoldable pub has_any : List String → String → Bool
unfolding has_text
has_any [] s = false
has_any (part ∷ parts) s = has_text part s || has_any parts s

module _ (lower : String → String) where
  unfoldable pub is_secret_key : String → Bool
  unfolding underscored has_any
  is_secret_key key = has_any secret_key_parts (underscored (lower key))

module _ {O : Type 0} (str : O → String) (lower redact_secret_text : String → String) where
  unfoldable mutual
    unfolding is_secret_key

    pub redact_secret_value : Value O → Value O
    redact_secret_value (dict entries) = dict (redact_entries entries)
    redact_secret_value (list items) = list (redact_items items)
    redact_secret_value (tuple items) = tuple (redact_items items)
    redact_secret_value (text s) = text (redact_secret_text s)
    redact_secret_value (other o) = other o

    pub redact_items : Values O → Values O
    redact_items no_value = no_value
    redact_items (value v more) = value (redact_secret_value v) (redact_items more)

    -- Under a key that names a secret the value goes, whatever it is.
    pub redact_entries : Entries O → Entries O
    redact_entries no_entry = no_entry
    redact_entries (entry k v more) =
        let shown = redact_secret_value v in
        entry k (if is_secret_key lower (str k) then text redacted else shown) (redact_entries more)

  abbrev pub is_replaced : Value O → Bool
  is_replaced (text s) = s == redacted
  is_replaced v = false

  -- At every depth of dicts, lists and tuples a key that names a secret has the replacement for its
  -- value, and every other text is one that `redact_secret_text` leaves as it is.
  abbrev mutual
    pub is_clean : Value O → Bool
    is_clean (dict entries) = are_clean_entries entries
    is_clean (list items) = are_clean_items items
    is_clean (tuple items) = are_clean_items items
    is_clean (text s) = redact_secret_text s == s
    is_clean (other o) = true

    pub are_clean_items : Values O → Bool
    are_clean_items no_value = true
    are_clean_items (value v more) = is_clean v && are_clean_items more

    pub are_clean_entries : Entries O → Bool
    are_clean_entries no_entry = true
    are_clean_entries (entry k v more) =
        (if is_secret_key lower (str k) then is_replaced v else is_clean v)
        && are_clean_entries more

module _ {O : Type 0} (str : O → String) (lower redact_secret_text : String → String)
    (stable : (s : String) → redact_secret_text (redact_secret_text s) ≡ redact_secret_text s) where
  mutual
    unfolding redact_secret_value

    value-Clean :
        (v : Value O)
        → is_clean str lower redact_secret_text (redact_secret_value str lower redact_secret_text v)
          ≡ true
    value-Clean (other o) = refl
    value-Clean (text s) = ground (arith, stable s)
    value-Clean (list items) = items-Clean items
    value-Clean (tuple items) = items-Clean items
    value-Clean (dict entries) = entries-Clean entries

    items-Clean :
        (items : Values O)
        → are_clean_items str lower redact_secret_text
            (redact_items str lower redact_secret_text items)
          ≡ true
    items-Clean no_value = refl
    items-Clean (value v more) = ground (arith, value-Clean v, items-Clean more)

    entries-Clean :
        (entries : Entries O)
        → are_clean_entries str lower redact_secret_text
            (redact_entries str lower redact_secret_text entries)
          ≡ true
    entries-Clean no_entry = refl
    entries-Clean (entry k v more) = elim (Bool-cases (is_secret_key lower (str k))) [
      | inl secret ↦ ground (arith, secret, entries-Clean more)
      | inr plain ↦ ground (arith, plain, value-Clean v, entries-Clean more)
    ]

  -- In what a report shows, at every depth of dicts, lists and tuples, the value under a key that
  -- names a secret is replaced, and every other text has been through the redaction of texts, where
  -- that does not change its own result. An object of any other type is not looked into.
  pub redact_secret_value-IsClean :
      (v : Value O)
      → is_clean str lower redact_secret_text (redact_secret_value str lower redact_secret_text v)
        ≡ true
  redact_secret_value-IsClean v = value-Clean v
