-- ===== src/Cache.antt =====
-- `MemoryCacheService` of infra/cache/service.py. Times are whole ticks, and the clock is an
-- argument. A value may be `None`.
use fastapi_infra.Common.{
  string_eq, ℕ, ◌+◌, String, ◌<>◌, Bool, true, false, Option, none, some, is_some, leb,
  if◌then◌else◌,
}
use fastapi_infra.Common.Int.{ℤ, is_nonpos, pos_part}
use fastapi_infra.Common.Dict.{Dict, lookup, insert, erase, has_key}
use fastapi_infra.Common.Text.{is_blank}
pub mod Lifetime
mod Tests

-- A value and when it expires
abbrev pub Item : Type 0 → Type 0
Item V = Option V × Option ℕ

abbrev pub Items : Type 0 → Type 0
Items V = Dict String (Item V)

-- `_make_key`
unfoldable pub make_key : String → String → String
make_key namespace key = if is_blank namespace then key else namespace <> ":" <> key

-- `expires_at is not None and expires_at <= time.monotonic()`
abbrev pub is_expired : ℕ → Option ℕ → Bool
is_expired now none = false
is_expired now (some expires_at) = leb expires_at now

-- `time.monotonic() + ttl if ttl > 0 else None`
abbrev pub expiry : ℕ → ℤ → Option ℕ
expiry now ttl = if is_nonpos ttl then none else some (now + pos_part ttl)

module _ {V : Type 0} (namespace : String) where
  unfoldable pub get : ℕ → String → Items V → Option V × Items V
  unfolding make_key
  get now key items =
      let full_key = make_key namespace key in
      elim (lookup full_key items) [
        | none ↦ (none, items)
        | some item ↦
            if is_expired now item.1 then (none, erase full_key items) else (item.0, items)
      ]

  unfoldable pub set : ℕ → String → Option V → ℤ → Items V → Bool × Items V
  unfolding make_key
  set now key value ttl items =
      (true, insert (make_key namespace key) (value, expiry now ttl) items)

  unfoldable pub delete : String → Items V → Bool × Items V
  unfolding make_key
  delete key items =
      let full_key = make_key namespace key in (has_key full_key items, erase full_key items)

  unfoldable pub exists : ℕ → String → Items V → Bool × Items V
  unfolding get
  exists now key items = let (value, items') = get now key items in (is_some value, items')

  unfoldable pub expire : ℕ → String → ℤ → Items V → Bool × Items V
  unfolding get make_key
  expire now key ttl items =
      let (value, items') = get now key items in
      elim value [
        | none ↦ (false, items')
        | some v ↦ (true, insert (make_key namespace key) (some v, expiry now ttl) items')
      ]
