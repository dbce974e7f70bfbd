-- ===== src/Lock/Tests.antt =====
-- A server of one key, and the theorems on locks at runs over it.
use fastapi_infra.Common.{
  string_eq, ℕ, suc, ◌≤◌, ◌<◌, leb, String, Bool, true, false, Option, none, some, is_some, [], ◌≡◌,
  ◌≢◌, refl, arith, if◌then◌else◌, ◌==◌, Option-cases, inl, inr,
}
use fastapi_infra.Common.Int.{pos, pos_part}
use fastapi_infra.Common.Dict.{Dict, lookup, insert, erase, lookup-insert, lookup-erase}
use fastapi_infra.Common.Result.{ok, err}
use fastapi_infra.Common.Text.{strip}
use fastapi_infra.Lock.{
  Server, Site, acquire, acquire_loop, wait_or, validate_acquire, validate_key,
  validate_positive_seconds, validate_non_negative_seconds, release, release_script, owns,
  build_key, timed_out,
}
use fastapi_infra.Lock.Holding.{IsServer, Others, idle, tried, released}
use fastapi_infra.Lock.Holding
use fastapi_infra.Lock.Acquire.{IsClocked, Holds}
use fastapi_infra.Lock.Acquire

-- The values of the keys and the clock; no time passes but in `sleep`. A time of 0 is refused by
-- `SET`, and `EXPIRE` deletes the key at once.
abbrev World : Type 0
World = Dict String String × ℕ

abbrev set_free : String → String → Option String → World → Bool × World
set_free k t none (d, n) = (true, (insert k t d, n))
set_free k t (some _) w = (false, w)

abbrev redis : Server World
redis = record {
  get = λ k w. lookup k w.0;
  set_nx = λ k t n w. if leb n 0 then (false, w) else set_free k t (lookup k w.0) w;
  del = λ k w. (is_some (lookup k w.0), (erase k w.0, w.1));
  expire = λ k n w. (is_some (lookup k w.0), if leb n 0 then (erase k w.0, w.1) else w);
  time = λ w. w.1;
  sleep = λ w. (w.0, suc w.1);
}

set_other :
    (j k t : String) (w : World)
    → (j == k) ≡ false
    → lookup j (set_free k t (lookup k w.0) w).1.0 ≡ lookup j w.0
set_other j k t w other = elim (Option-cases (lookup k w.0)) [
  | inl free ↦ ground (arith, lookup-insert j k t w.0)
  | inr (u, held) ↦ ground arith
]

sets : (k t : String) (n : ℕ) (w : World) → w.1 ≤ (redis.set_nx k t n w).1.1
sets k t n w = elim (Option-cases (lookup k w.0)) [
  | inl free ↦ ground arith
  | inr (u, held) ↦ ground arith
]

set_done :
    (k t : String) (n : ℕ) (w : World)
    → 0 < n
    → (redis.set_nx k t n w).0 ≡ true
    → redis.get k (redis.set_nx k t n w).1 ≡ some t
set_done k t n w lasts set = elim (Option-cases (lookup k w.0)) [
  | inl free ↦ ground (arith, lookup-insert k k t w.0)
  | inr (u, held) ↦ absurd (ground arith)
]

redis-IsServer : IsServer redis
redis-IsServer = record {
  set_done = λ k t n w lasts set. set_done k t n w lasts set;
  set_taken = λ k t u n w lasts held. (ground arith, ground arith);
  set_other = λ j k t n w lasts other. ground (arith, set_other j k t w other);
  del_key = λ k w. refl;
  deleted = λ j k w. lookup-erase j k w.0;
  expired_later = λ j k n w lasts. ground arith;
}

redis-IsClocked : IsClocked redis
redis-IsClocked = record { sleeps = λ w. omega arith; sets = λ k t n w. sets k t n w }

program : Unit {0}
unfolding string_eq lookup insert erase strip acquire acquire_loop wait_or validate_acquire
    validate_key validate_positive_seconds validate_non_negative_seconds release release_script
program = tt

abbrev tok : String
tok = "tok"

abbrev mine : String
mine = "mine"

abbrev site : Site World
site = record { lock_tokens = []; world = ([], 0) }

abbrev held : Site World
held = (acquire redis "lock" 3 "tok" "job" (pos 30) true (pos 2) site).1

acquired : acquire redis "lock" 3 "tok" "job" (pos 30) true (pos 2) site ≡ (some (ok "tok"), held)
unfolding program
acquired = refl

-- A second caller waits in vain.
refused :
    (acquire redis "lock" 3 "mine" "job" (pos 30) true (pos 2) held).0
    ≡ some (err (timed_out "job"))
unfolding program
refused = refl

acquire-Holds_example : (tok ≡ tok) × Holds redis "lock" "job" "tok" held
acquire-Holds_example =
    Acquire.acquire-Holds redis "lock" redis-IsServer 3 "tok" "tok" "job" (pos 30) true (pos 2) site
      held acquired

acquire-Ends_example :
    acquire redis "lock" (suc (pos_part (pos 2))) "mine" "job" (pos 30) true (pos 2) held
    ≢ (none, held)
acquire-Ends_example =
    Acquire.acquire-Ends redis "lock" redis-IsClocked "mine" "job" (pos 30) true (pos 2) held held

abbrev after : World
after = (release_script redis "lock:job" "mine" (redis.set_nx "lock:job" "mine" 9 held.world).1).1

foreign : (tok == mine) ≡ false
unfolding program
foreign = refl

key_held : redis.get "lock:job" held.world ≡ some "tok"
unfolding program
key_held = refl

held-IsExclusive_example :
    (redis.get "lock:job" after ≡ some "tok")
    × ((t : String) (n : ℕ) → 0 < n → (redis.set_nx "lock:job" t n after).0 ≡ false)
held-IsExclusive_example =
    Holding.held-IsExclusive redis redis-IsServer "lock:job" "tok" held.world after key_held (
      released "lock:job" "mine" foreign
        (tried "lock:job" "mine" 9 (omega arith) (idle held.world)))

abbrev freed : Site World
freed = (release redis "lock" "job" "tok" held).1

let_go : release redis "lock" "job" "tok" held ≡ (ok true, freed)
unfolding program
let_go = refl

release-Frees_example :
    (true ≡ owns redis (build_key "lock" "job") "tok" held.world)
    × ((j : String)
        → redis.get j freed.world ≡ (
            if true
            then (if j == build_key "lock" "job" then none else redis.get j held.world)
            else redis.get j held.world))
release-Frees_example =
    Acquire.release-Frees redis "lock" redis-IsServer "job" "tok" true held freed let_go
