-- ===== src/RateLimit/Window.antt =====
-- `MemoryRateLimiter` of infra/plugins/ratelimit/memory.py against a limiter that keeps every hit.
use fastapi_infra.Common.{
  string_eq, ℕ, ◌≤◌, String, Bool, true, false, List, [], ◌∷◌, ◌++◌, length, leb, keep_if, count_if,
  if◌then◌else◌, ◌≡◌, refl, arith, ◌==◌,
}
use fastapi_infra.Common.Int.{ℤ, pos_part, is_nonpos}
use fastapi_infra.Common.Dict.{insert, lookup-insert}
use fastapi_infra.RateLimit.{Hits, hits_of, in_window, allow}

-- Sliding window counting: a hit is granted when fewer than `limit` granted hits lie in the window
-- that ends now. Nothing is ever forgotten.
unfoldable pub ideal_allow : ℕ → String → ℤ → ℤ → Hits → Bool × Hits
ideal_allow now key limit window_seconds h =
    let inside = count_if (in_window now window_seconds) (hits_of key h) in
    if is_nonpos limit
    then (false, h)
    else (if leb (pos_part limit) inside
        then (false, h)
        else (true, insert key (hits_of key h ++ now ∷ []) h))

-- The same hits in the window that ends at `t`.
abbrev pub Agrees : ℕ → ℤ → Hits → Hits → Type 0
Agrees t window d h =
    (key : String)
    → keep_if (in_window t window) (hits_of key d) ≡ keep_if (in_window t window) (hits_of key h)

hits_of-insert :
    (j k : String) (hits : List ℕ) (d : Hits)
    → hits_of j (insert k hits d) ≡ (if j == k then hits else hits_of j d)
hits_of-insert j k hits d = ground (arith, lookup-insert j k hits d)

length-keep_if : (p : ℕ → Bool) (xs : List ℕ) → length (keep_if p xs) ≡ count_if p xs
length-keep_if p [] = refl
length-keep_if p (x ∷ xs) = ground (arith, length-keep_if p xs)

keep_if-append :
    (p : ℕ → Bool) (xs ys : List ℕ) → keep_if p (xs ++ ys) ≡ keep_if p xs ++ keep_if p ys
keep_if-append p [] ys = refl
keep_if-append p (x ∷ xs) ys = ground (arith, keep_if-append p xs ys)

keep_if_later :
    (t now : ℕ) (window : ℤ) (xs : List ℕ)
    → t ≤ now
    → keep_if (in_window now window) (keep_if (in_window t window) xs)
      ≡ keep_if (in_window now window) xs
keep_if_later t now window [] le = refl
keep_if_later t now window (x ∷ xs) le = ground (arith, keep_if_later t now window xs le)

later-Agrees :
    (t now : ℕ) (window : ℤ) (d h : Hits) → t ≤ now → Agrees t window d h → Agrees now window d h
later-Agrees t now window d h le same key = ground (
  arith,
  keep_if_later t now window (hits_of key d) le,
  keep_if_later t now window (hits_of key h) le,
  same key,
)

-- One call, with the clock not running back: the same answer, and the states agree again.
allow-Agrees :
    (t now : ℕ) (key : String) (limit window : ℤ) (d h : Hits)
    → t ≤ now
    → Agrees t window d h
    → ((allow now key limit window d).0 ≡ (ideal_allow now key limit window h).0)
      × Agrees now window (allow now key limit window d).1 (ideal_allow now key limit window h).1
unfolding allow ideal_allow
allow-Agrees t now key limit window d h le same = (
  ground (
    arith,
    later-Agrees t now window d h le same key,
    length-keep_if (in_window now window) (hits_of key d),
    length-keep_if (in_window now window) (hits_of key h),
  ),
  λ j. ground (
    arith,
    later-Agrees t now window d h le same key,
    later-Agrees t now window d h le same j,
    length-keep_if (in_window now window) (hits_of key d),
    length-keep_if (in_window now window) (hits_of key h),
    hits_of-insert j key (keep_if (in_window now window) (hits_of key d)) d,
    hits_of-insert j key (keep_if (in_window now window) (hits_of key d) ++ now ∷ []) d,
    hits_of-insert j key (hits_of key h ++ now ∷ []) h,
    keep_if_later now now window (hits_of key d) (omega arith),
    keep_if-append (in_window now window) (keep_if (in_window now window) (hits_of key d))
        (now ∷ []),
    keep_if-append (in_window now window) (hits_of key h) (now ∷ []),
  ),
)

-- A run of calls, each a time and a key.
unfoldable pub run :
    (ℕ → String → ℤ → ℤ → Hits → Bool × Hits) → ℤ → ℤ → List (ℕ × String) → Hits → List Bool
run step limit window [] d = []
run step limit window ((now, key) ∷ calls) d =
    let (b, d') = step now key limit window d in b ∷ run step limit window calls d'

-- The times do not run back.
abbrev pub IsMonotone : ℕ → List (ℕ × String) → Type 0
IsMonotone t [] = Unit
IsMonotone t ((now, key) ∷ calls) = (t ≤ now) × IsMonotone now calls

run-Agrees :
    (t : ℕ) (limit window : ℤ) (calls : List (ℕ × String)) (d h : Hits)
    → IsMonotone t calls
    → Agrees t window d h
    → run allow limit window calls d ≡ run ideal_allow limit window calls h
unfolding run
run-Agrees t limit window [] d h mono same = refl
run-Agrees t limit window ((now, key) ∷ calls) d h (le, mono) same =
    let (answer, agrees) = allow-Agrees t now key limit window d h le same in
    cc (answer, run-Agrees now limit window calls _ _ mono agrees)

-- Forgetting loses nothing: on any run of calls with one limit and one window, whose times do not
-- run back, the limiter answers as one that keeps every granted hit and counts those in the window.
pub allow-refines :
    (limit window : ℤ) (calls : List (ℕ × String))
    → IsMonotone 0 calls
    → run allow limit window calls [] ≡ run ideal_allow limit window calls []
allow-refines limit window calls mono = run-Agrees 0 limit window calls [] [] mono (λ key. refl)
