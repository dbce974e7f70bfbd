-- ===== src/Cache/Lifetime.antt =====
-- How long `MemoryCacheService` of infra/cache/service.py keeps a value.
use fastapi_infra.Common.{
  string_eq, ℕ, ◌+◌, ◌≤◌, String, Bool, true, false, ◌||◌, Option, none, some, ltb, if◌then◌else◌,
  ◌≡◌, refl, arith, Option-cases, inl, inr,
}
use fastapi_infra.Common.Int.{ℤ, is_nonpos, pos_part}
use fastapi_infra.Common.Dict.{lookup, lookup-insert, lookup-erase}
use fastapi_infra.Cache.{Items, make_key, is_expired, expiry, get, set, expire}

-- A value that was stored at `t` with `ttl` is alive at `now`.
abbrev pub is_alive : ℕ → ℤ → ℕ → Bool
is_alive t ttl now = is_nonpos ttl || ltb now (t + pos_part ttl)

module _ {V : Type 0} (namespace : String) where
  -- What `get` answers, as a view of the items.
  unfoldable pub view : ℕ → String → Items V → Option V
  view now full_key items = elim (lookup full_key items) [
    | none ↦ none
    | some item ↦ if is_expired now item.1 then none else item.0
  ]

  get-view :
      (now : ℕ) (key : String) (items : Items V)
      → (get namespace now key items).0 ≡ view now (make_key namespace key) items
  unfolding get view
  get-view now key items = ground arith

  -- The item of a missing or expired key goes; all else stays.
  get-keeps :
      (now later : ℕ) (key : String) (full_key : String) (items : Items V)
      → now ≤ later
      → view later full_key (get namespace now key items).1 ≡ view later full_key items
  unfolding get view
  get-keeps now later key full_key items le =
      ground (arith, lookup-erase full_key (make_key namespace key) items)

  -- A read is never seen by a later read: whatever key was read before, the answer is the one that
  -- the items give without that read.
  pub get-get :
      (now later : ℕ) (j k : String) (items : Items V)
      → now ≤ later
      → (get namespace later j (get namespace now k items).1).0 ≡ (get namespace later j items).0
  get-get now later j k items le = ground (
    arith,
    get-view later j (get namespace now k items).1,
    get-view later j items,
    get-keeps now later k (make_key namespace j) items le,
  )

  -- What was stored comes back for exactly its time to live, and for ever if `ttl` is not positive.
  pub get-set :
      (t now : ℕ) (key : String) (value : Option V) (ttl : ℤ) (items : Items V)
      → (get namespace now key (set namespace t key value ttl items).1).0
        ≡ (if is_alive t ttl now then value else none)
  unfolding get set
  get-set t now key value ttl items = ground (
    arith,
    lookup-insert (make_key namespace key) (make_key namespace key) (value, expiry t ttl) items,
  )

  -- What is not there stays away.
  view-none :
      (t now : ℕ) (full_key : String) (items : Items V)
      → t ≤ now
      → view t full_key items ≡ none
      → view now full_key items ≡ none
  unfolding view
  view-none t now full_key items le h = ground arith

  expire-none :
      (t : ℕ) (key : String) (ttl : ℤ) (items : Items V)
      → (get namespace t key items).0 ≡ none
      → expire namespace t key ttl items ≡ (false, (get namespace t key items).1)
  unfolding expire
  expire-none t key ttl items h = rw (h, expire) refl

  expire-some :
      (t : ℕ) (key : String) (ttl : ℤ) (items : Items V) (v : V)
      → (get namespace t key items).0 ≡ some v
      → expire namespace t key ttl items
        ≡ (true, (set namespace t key (some v) ttl (get namespace t key items).1).1)
  unfolding expire set
  expire-some t key ttl items v h = rw (h, expire) refl

  -- After `expire` answered true, a read answers with the value that was live, within its new time
  -- to live, and with nothing later; after it answered false, a read answers with nothing.
  pub get-expire :
      (t now : ℕ) (key : String) (ttl : ℤ) (items : Items V)
      → t ≤ now
      → (get namespace now key (expire namespace t key ttl items).1).0 ≡ (
          if (expire namespace t key ttl items).0
          then (if is_alive t ttl now then (get namespace t key items).0 else none)
          else none)
  get-expire t now key ttl items le = elim (Option-cases (get namespace t key items).0) [
    | inl missing ↦ ground (
      arith,
      expire-none t key ttl items missing,
      get-get t now key key items le,
      get-view now key items,
      get-view t key items,
      view-none t now (make_key namespace key) items le,
    )
    | inr (v, found) ↦ ground (
      arith,
      expire-some t key ttl items v found,
      get-set t now key (some v) ttl (get namespace t key items).1,
    )
  ]
