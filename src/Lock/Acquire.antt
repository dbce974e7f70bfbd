-- ===== src/Lock/Acquire.antt =====
-- The loop of `acquire` and the answer of `release` in infra/plugins/lock/manager.py.
use fastapi_infra.Common.{
  string_eq, ℕ, zero, suc, ◌+◌, ◌-◌, ◌≤◌, ◌<◌, String, Bool, true, false, Option, none, some, leb,
  if◌then◌else◌, ◌==◌, ◌≡◌, ◌≢◌, arith, Bool-cases, inl, inr,
}
use fastapi_infra.Common.Int.{ℤ, pos, negsuc, pos_part}
use fastapi_infra.Common.Dict.{lookup, lookup-insert_self}
use fastapi_infra.Common.Result.{Result, ok, Result-cases}
use fastapi_infra.Lock.{
  Server, Site, LockError, build_key, validate_acquire, validate_positive_seconds, validate_key,
  wait_or, acquire_loop, acquire, owns, release_script, release,
}
use fastapi_infra.Lock.Holding.{IsServer}

-- The clock does not run back, and a sleep takes time.
pub record IsClocked {W : Type 0} (server : Server W) : Type 0 where
  pub sleeps : (w : W) → server.time w < server.time (server.sleep w)
  pub sets : (k t : String) (n : ℕ) (w : W) → server.time w ≤ server.time (server.set_nx k t n w).1

-- `acquire` sends positive times to live only.
lasting :
    (key : String) (timeout block_timeout : ℤ) {u : Unit {0}}
    → validate_acquire key timeout block_timeout ≡ ok u
    → 0 < pos_part timeout
unfolding validate_acquire validate_positive_seconds validate_key
lasting key (pos n) block_timeout h = ground arith
lasting key (negsuc n) block_timeout h = absurd (ground arith)

module _ {W : Type 0} (server : Server W) (prefix : String) where
  -- The token is held: by the server, and in the manager's own notes.
  abbrev pub Holds : String → String → Site W → Type 0
  Holds key token s =
      (server.get (build_key prefix key) s.world ≡ some token)
      × (lookup key s.lock_tokens ≡ some token)

  abbrev slept : Site W → Site W
  slept s = record s { world = server.sleep s.world }

  wait_or-ok :
      (key t : String) (blocking : Bool) (block start : ℕ)
      (rest : Site W → Option (Result LockError String) × Site W) (s s' : Site W)
      → wait_or server prefix key blocking block start rest s ≡ (some (ok t), s')
      → rest (slept s) ≡ (some (ok t), s')
  unfolding wait_or
  wait_or-ok key t true block start rest s s' h =
      elim (Bool-cases (leb block (server.time s.world - start))) [
        | inl late ↦ absurd (ground arith)
        | inr early ↦ rw (early, wait_or) at h
      ]
  wait_or-ok key t false block start rest s s' h = absurd (ground arith)

  wait_or-none :
      (key : String) (blocking : Bool) (block start : ℕ)
      (rest : Site W → Option (Result LockError String) × Site W) (s s' : Site W)
      → wait_or server prefix key blocking block start rest s ≡ (none, s')
      → (rest (slept s) ≡ (none, s')) × (server.time s.world - start < block)
  unfolding wait_or
  wait_or-none key true block start rest s s' h =
      elim (Bool-cases (leb block (server.time s.world - start))) [
        | inl late ↦ absurd (ground arith)
        | inr early ↦ (rw (early, wait_or) at h, ground arith)
      ]
  wait_or-none key false block start rest s s' h = absurd (ground arith)

  acquire_loop-Holds :
      (laws : IsServer server) (fuel : ℕ) (key token token' : String) (timeout : ℕ)
      (blocking : Bool) (block start : ℕ) (s s' : Site W)
      → 0 < timeout
      → acquire_loop server prefix fuel key token timeout blocking block start s
        ≡ (some (ok token'), s')
      → (token' ≡ token) × Holds key token s'
  unfolding acquire_loop
  acquire_loop-Holds laws zero key token token' timeout blocking block start s s' lasts h =
      absurd (ground arith)
  acquire_loop-Holds laws (suc fuel) key token token' timeout blocking block start s s' lasts h =
      elim (Bool-cases (server.set_nx (build_key prefix key) token timeout s.world).0) [
        | inl got ↦ (
          ground arith,
          (
            ground (arith, laws.set_done (build_key prefix key) token timeout s.world lasts got),
            ground (arith, lookup-insert_self key token s.lock_tokens),
          ),
        )
        | inr missed ↦
            let w = (server.set_nx (build_key prefix key) token timeout s.world).1 in
            let rest = acquire_loop server prefix fuel key token timeout blocking block start in
            acquire_loop-Holds laws fuel key token token' timeout blocking block start
              (slept (record s { world = w })) s' lasts
              (wait_or-ok key token' blocking block start rest (record s { world = w }) s'
                (rw (missed, acquire_loop) at h))
      ]

  -- `acquire` gives no token but its own, and when it does, the server holds the key for it and the
  -- manager has noted it.
  pub acquire-Holds :
      (laws : IsServer server) (fuel : ℕ) (token token' key : String) (timeout : ℤ)
      (blocking : Bool) (block_timeout : ℤ) (s s' : Site W)
      → acquire server prefix fuel token key timeout blocking block_timeout s
        ≡ (some (ok token'), s')
      → (token' ≡ token) × Holds key token s'
  unfolding acquire
  acquire-Holds laws fuel token token' key timeout blocking block_timeout s s' h =
      elim (Result-cases (validate_acquire key timeout block_timeout)) [
        | inr (e, bad) ↦ absurd (ground arith)
        | inl (u, fine) ↦
            acquire_loop-Holds laws fuel key token token' (pos_part timeout) blocking
              (pos_part block_timeout) (server.time s.world) s s'
              (lasting key timeout block_timeout fine) (rw (fine, acquire) at h)
      ]

  -- What is left of the wait, if no attempt in this turn succeeded.
  missed_turn :
      (fuel : ℕ) (key token : String) (timeout : ℕ) (blocking : Bool) (block start : ℕ)
      (s s' : Site W)
      → (server.set_nx (build_key prefix key) token timeout s.world).0 ≡ false
      → acquire_loop server prefix (suc fuel) key token timeout blocking block start s ≡ (none, s')
      → let w = (server.set_nx (build_key prefix key) token timeout s.world).1 in
        (acquire_loop server prefix fuel key token timeout blocking block start
            (slept (record s { world = w }))
          ≡ (none, s'))
        × (server.time w - start < block)
  unfolding acquire_loop
  missed_turn fuel key token timeout blocking block start s s' missed h =
      let w = (server.set_nx (build_key prefix key) token timeout s.world).1 in
      wait_or-none key blocking block start
        (acquire_loop server prefix fuel key token timeout blocking block start)
        (record s { world = w }) s' (rw (missed, acquire_loop) at h)

  acquire_loop-Ends :
      (clock : IsClocked server) (fuel : ℕ) (key token : String) (timeout : ℕ) (blocking : Bool)
      (block start : ℕ) (s s' : Site W)
      → start ≤ server.time s.world
      → block + start ≤ server.time s.world + fuel
      → acquire_loop server prefix (suc fuel) key token timeout blocking block start s ≢ (none, s')
  unfolding acquire_loop
  acquire_loop-Ends clock zero key token timeout blocking block start s s' le enough h =
      elim (Bool-cases (server.set_nx (build_key prefix key) token timeout s.world).0) [
        | inl got ↦ ground arith
        | inr missed ↦
            let (next, early) =
              missed_turn zero key token timeout blocking block start s s' missed h in
            omega (arith, early, clock.sets (build_key prefix key) token timeout s.world)
      ]
  acquire_loop-Ends clock (suc fuel) key token timeout blocking block start s s' le enough h =
      elim (Bool-cases (server.set_nx (build_key prefix key) token timeout s.world).0) [
        | inl got ↦ ground arith
        | inr missed ↦
            let w = (server.set_nx (build_key prefix key) token timeout s.world).1 in
            let (next, early) =
              missed_turn (suc fuel) key token timeout blocking block start s s' missed h in
            acquire_loop-Ends clock fuel key token timeout blocking block start
              (slept (record s { world = w })) s'
              (omega
                (arith, clock.sleeps w, clock.sets (build_key prefix key) token timeout s.world))
              (omega (
                arith,
                early,
                clock.sleeps w,
                clock.sets (build_key prefix key) token timeout s.world,
              ))
              next
      ]

  -- `acquire` ends, blocking or not, by one attempt for each tick of `block_timeout` and one more:
  -- with that fuel it never runs out, if the clock does not run back and a sleep takes a tick.
  pub acquire-Ends :
      (clock : IsClocked server) (token key : String) (timeout : ℤ) (blocking : Bool)
      (block_timeout : ℤ) (s s' : Site W)
      → acquire server prefix
          (suc (pos_part block_timeout))
          token
          key
          timeout
          blocking
          block_timeout
          s
        ≢ (none, s')
  unfolding acquire
  acquire-Ends clock token key timeout blocking block_timeout s s' h =
      elim (Result-cases (validate_acquire key timeout block_timeout)) [
        | inr (e, bad) ↦ ground arith
        | inl (u, fine) ↦
            acquire_loop-Ends clock (pos_part block_timeout) key token (pos_part timeout) blocking
              (pos_part block_timeout) (server.time s.world) s s' (omega arith) (omega arith)
              (rw (fine, acquire) at h)
      ]

  -- A release with the token that holds the key frees it and says so; with any other token it says
  -- no and the key keeps its holder. No other key is touched.
  pub release-Frees :
      (laws : IsServer server) (key token : String) (freed : Bool) (s s' : Site W)
      → release server prefix key token s ≡ (ok freed, s')
      → (freed ≡ owns server (build_key prefix key) token s.world)
        × ((j : String)
            → server.get j s'.world ≡ (
                if freed
                then (if j == build_key prefix key then none else server.get j s.world)
                else server.get j s.world))
  unfolding release release_script
  release-Frees laws key token freed s s' h = (
    ground (arith, laws.del_key (build_key prefix key) s.world),
    λ j. ground (
      arith,
      laws.del_key (build_key prefix key) s.world,
      laws.deleted j (build_key prefix key) s.world,
    ),
  )
