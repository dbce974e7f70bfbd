-- ===== src/Cache/Tests.antt =====
-- The theorems on the cache at small caches.
use fastapi_infra.Common.{string_eq, ℕ, none, some, [], ◌≡◌, if◌then◌else◌}
use fastapi_infra.Common.Int.{pos}
use fastapi_infra.Cache.{Items, get, set}
use fastapi_infra.Cache.Lifetime.{is_alive}
use fastapi_infra.Cache.Lifetime

abbrev none_yet : Items ℕ
none_yet = []

abbrev one : Items ℕ
one = (set "app" 5 "k" (some 7) (pos 10) none_yet).1

get-set_example :
    (get "app" 14 "k" (set "app" 5 "k" (some 7) (pos 10) none_yet).1).0
    ≡ (if is_alive 5 (pos 10) 14 then some 7 else none)
get-set_example = Lifetime.get-set "app" 5 14 "k" (some 7) (pos 10) none_yet
