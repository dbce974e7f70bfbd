-- ===== src/Common/Text.antt =====
-- `str.strip`, with Python's white space, `str.split` and `str.partition`.
use Prim.Native.Nat.{ℕ}
use Prim.Native.Char.{Char, code}
use Prim.Native.String.{String, ◌++◌ as ◌<>◌}
use Prim.Native.String.append.{cons, nil}
use mathlib.Core.Path.{◌≡◌, refl, ap, ◌∙◌}
use text.Mathlib.TextLemmas.{append_assoc}
use mathlib.Core.Option.{Option, none, some}
use mathlib.Core.List.{List, [], ◌∷◌}
use mathlib.Core.Bool.{Bool, true, false, not, ◌&&◌, ◌||◌}
use native.Mathlib.Omega.{arith}
use fastapi_infra.Common.Tests.{leb, if◌then◌else◌, is_some}

abbrev pub is_code : ℕ → ℕ → Bool
is_code a b = leb a b && leb b a

abbrev pub is_between : ℕ → ℕ → ℕ → Bool
is_between a c b = leb a c && leb c b

-- `str.isspace` of one character
unfoldable pub is_space : ℕ → Bool
is_space c =
    is_between 9 c 13
    || is_between 28 c 32
    || is_code c 133
    || is_code c 160
    || is_code c 5760
    || is_between 8192 c 8202
    || is_between 8232 c 8233
    || is_code c 8239
    || is_code c 8287
    || is_code c 12288

-- `not s`
abbrev pub is_blank : String → Bool
is_blank String.[] = true
is_blank (String.◌∷◌ c s) = false

lstrip : String → String
lstrip String.[] = String.[]
lstrip (String.◌∷◌ c s) = let rest = lstrip s in if is_space (code c) then rest else String.◌∷◌ c s

rstrip : String → String
rstrip String.[] = String.[]
rstrip (String.◌∷◌ c s) =
    let rest = rstrip s in
    if is_space (code c) && is_blank rest then String.[] else String.◌∷◌ c rest

unfoldable pub strip : String → String
unfolding is_space lstrip rstrip
strip s = rstrip (lstrip s)

-- All characters have a number that passes.
abbrev pub all_codes : (ℕ → Bool) → String → Bool
all_codes p String.[] = true
all_codes p (String.◌∷◌ c s) = p (code c) && all_codes p s

abbrev pub lacks : ℕ → String → Bool
lacks sep = all_codes λ c. not (is_code c sep)

abbrev begin : Char → List String → List String
begin c [] = String.◌∷◌ c String.[] ∷ []
begin c (part ∷ parts) = String.◌∷◌ c part ∷ parts

-- `s.split(sep)`, for the character with the number `sep`
unfoldable pub split : ℕ → String → List String
split sep String.[] = String.[] ∷ []
split sep (String.◌∷◌ c s) =
    let rest = split sep s in if is_code (code c) sep then String.[] ∷ rest else begin c rest

-- A character more before the place of a split
abbrev pub pushed : Char → Option (String × String) → Option (String × String)
pushed c none = none
pushed c (some (before, behind)) = some (String.◌∷◌ c before, behind)

-- `s.partition(sep)`, and `s.split(sep, 1)`; `none` where the separator is missing
unfoldable pub partition : ℕ → String → Option (String × String)
partition sep String.[] = none
partition sep (String.◌∷◌ c s) =
    if is_code (code c) sep then some (String.[], s) else pushed c (partition sep s)

-- `s[len(prefix):]`, where the text has the prefix
unfoldable pub drop_prefix : String → String → Option String
drop_prefix String.[] s = some s
drop_prefix (String.◌∷◌ c p) String.[] = none
drop_prefix (String.◌∷◌ c p) (String.◌∷◌ d s) =
    let rest = drop_prefix p s in if is_code (code d) (code c) then rest else none

-- `s == t`
unfoldable pub is_same : String → String → Bool
is_same String.[] String.[] = true
is_same String.[] (String.◌∷◌ d t) = false
is_same (String.◌∷◌ c s) String.[] = false
is_same (String.◌∷◌ c s) (String.◌∷◌ d t) = is_code (code c) (code d) && is_same s t

-- `s.endswith(suffix)`
unfoldable pub ends_with : String → String → Bool
unfolding is_same
ends_with suffix String.[] = is_blank suffix
ends_with suffix (String.◌∷◌ c s) = is_same (String.◌∷◌ c s) suffix || ends_with suffix s

-- `part in s`
unfoldable pub has_text : String → String → Bool
unfolding drop_prefix
has_text part String.[] = is_blank part
has_text part (String.◌∷◌ c s) = is_some (drop_prefix part (String.◌∷◌ c s)) || has_text part s

-- A text without the separator is one part.
pub split_one : (sep : ℕ) (s : String) → lacks sep s ≡ true → split sep s ≡ s ∷ []
unfolding split
split_one sep String.[] h = refl
split_one sep (String.◌∷◌ c s) h = ground (arith, split_one sep s)

-- What stands before the first separator is the first part.
pub split-append :
    (sep : Char) (s t : String)
    → lacks (code sep) s ≡ true
    → split (code sep) (s <> String.◌∷◌ sep t) ≡ s ∷ split (code sep) t
unfolding split
split-append sep String.[] t h = rw (nil (String.◌∷◌ sep t)) (ground arith)
split-append sep (String.◌∷◌ c s) t h =
    rw (cons c s (String.◌∷◌ sep t)) (ground (arith, split-append sep s t))

pub all_codes-append :
    (p : ℕ → Bool) (s t : String) → all_codes p (s <> t) ≡ (all_codes p s && all_codes p t)
all_codes-append p String.[] t = rw (nil t) refl
all_codes-append p (String.◌∷◌ c s) t = rw (cons c s t) (ground (arith, all_codes-append p s t))

abbrev pub dot : Char
dot = "."

pub dot-append : (t : String) → "." <> t ≡ String.◌∷◌ dot t
dot-append t = cons dot String.[] t ∙ ap (λ u. String.◌∷◌ dot u) (nil t)

-- Three texts without dots, joined by dots
pub split-dots :
    (a b c : String)
    → lacks 46 a ≡ true
    → lacks 46 b ≡ true
    → lacks 46 c ≡ true
    → split 46 ((a <> "." <> b) <> "." <> c) ≡ a ∷ b ∷ c ∷ []
split-dots a b c ha hb hc =
    rw
      (
        append_assoc a ("." <> b) ("." <> c),
        append_assoc "." b ("." <> c),
        dot-append c,
        dot-append (b <> String.◌∷◌ dot c),
        split-append dot a (b <> String.◌∷◌ dot c) ha,
        split-append dot b c hb,
        split_one 46 c hc,
      )
      refl
