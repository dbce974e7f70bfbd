-- ===== src/Lock.antt =====
-- `DistributedLockManager` of infra/plugins/lock/manager.py. The server is an argument: the four
-- commands that the manager and its two scripts send, on a world that holds the clock too.
use fastapi_infra.Common.{
  string_eq, ℕ, zero, suc, ◌-◌, String, ◌<>◌, Bool, true, false, not, Option, none, some, leb, ltb,
  if◌then◌else◌, ◌==◌,
}
use fastapi_infra.Common.Int.{ℤ, pos, pos_part, is_nonpos, is_neg}
use fastapi_infra.Common.Dict.{Dict, insert, erase}
use fastapi_infra.Common.Result.{Result, ok, err, ◌>>=◌}
use fastapi_infra.Common.Text.{strip, is_blank}
pub mod Holding
pub mod Acquire
mod Tests

pub data LockError : Type 0 where
  empty_key : LockError
  not_positive : String → LockError
  negative : String → LockError
  empty_token : LockError
  taken : String → LockError
  timed_out : String → LockError

pub record Server (W : Type 0) : Type 0 where
  pub get : String → W → Option String
  -- `SET key value NX EX seconds`
  pub set_nx : String → String → ℕ → W → Bool × W
  pub del : String → W → Bool × W
  pub expire : String → ℕ → W → Bool × W
  pub time : W → ℕ
  pub sleep : W → W

-- A manager beside the server: `_lock_tokens`.
pub record Site (W : Type 0) : Type 0 where
  pub lock_tokens : Dict String String
  pub world : W

-- `_build_key`, with `self.prefix`
abbrev pub build_key : String → String → String
build_key prefix key = prefix <> ":" <> key

unfoldable pub validate_key : String → Result LockError (Unit {0})
validate_key key = if is_blank (strip key) then err empty_key else ok tt

unfoldable pub validate_positive_seconds : String → ℤ → Result LockError (Unit {0})
validate_positive_seconds name value = if is_nonpos value then err (not_positive name) else ok tt

unfoldable pub validate_non_negative_seconds : String → ℤ → Result LockError (Unit {0})
validate_non_negative_seconds name value = if is_neg value then err (negative name) else ok tt

abbrev validate_token : String → Result LockError (Unit {0})
validate_token token = if is_blank token then err empty_token else ok tt

unfoldable pub validate_acquire : String → ℤ → ℤ → Result LockError (Unit {0})
unfolding validate_key validate_positive_seconds validate_non_negative_seconds
validate_acquire key timeout block_timeout = do
  _ ← validate_key key
  _ ← validate_positive_seconds "timeout" timeout
  validate_non_negative_seconds "block_timeout" block_timeout

module _ {W : Type 0} (server : Server W) where
  -- `redis.call("get", KEYS[1]) == ARGV[1]`
  abbrev pub owns : String → String → W → Bool
  owns lock_key token w = elim (server.get lock_key w) [ none ↦ false | some t ↦ t == token ]

  -- The script of `release`
  unfoldable pub release_script : String → String → W → Bool × W
  release_script lock_key token w =
      if owns lock_key token w then server.del lock_key w else (false, w)

  -- The script of `extend`
  unfoldable pub extend_script : String → String → ℕ → W → Bool × W
  extend_script lock_key token ttl w =
      if owns lock_key token w then server.expire lock_key ttl w else (false, w)

module _ {W : Type 0} (server : Server W) (prefix : String) where
  -- The tests of `acquire` behind a failed attempt; `rest` is the rest of the loop.
  unfoldable pub wait_or :
      String
      → Bool
      → ℕ
      → ℕ
      → (Site W → Option (Result LockError String) × Site W)
      → Site W
      → Option (Result LockError String) × Site W
  wait_or key blocking block_timeout start rest s = elim blocking [
    | false ↦ (some (err (taken key)), s)
    | true ↦ elim (leb block_timeout (server.time s.world - start)) [
      | true ↦ (some (err (timed_out key)), s)
      | false ↦ rest (record s { world = server.sleep s.world })
    ]
  ]

  -- `while True` on fuel; `none` is out of fuel.
  unfoldable pub acquire_loop :
      ℕ → String → String → ℕ → Bool → ℕ → ℕ → Site W → Option (Result LockError String) × Site W
  unfolding wait_or
  acquire_loop zero key token timeout blocking block_timeout start s = (none, s)
  acquire_loop (suc fuel) key token timeout blocking block_timeout start s =
      let (acquired, w) = server.set_nx (build_key prefix key) token timeout s.world in
      elim acquired [
        | true ↦
            (some (ok token), record { lock_tokens = insert key token s.lock_tokens; world = w })
        | false ↦
            wait_or key blocking block_timeout start
              (acquire_loop fuel key token timeout blocking block_timeout start)
              (record s { world = w })
      ]

  -- `token` is what `uuid4` gave.
  unfoldable pub acquire :
      ℕ → String → String → ℤ → Bool → ℤ → Site W → Option (Result LockError String) × Site W
  unfolding validate_acquire acquire_loop
  acquire fuel token key timeout blocking block_timeout s =
      elim (validate_acquire key timeout block_timeout) [
        | err e ↦ (some (err e), s)
        | ok _ ↦
            acquire_loop fuel key token (pos_part timeout) blocking (pos_part block_timeout)
              (server.time s.world) s
      ]

  unfoldable pub release : String → String → Site W → Result LockError Bool × Site W
  unfolding validate_key release_script
  release key token s = elim (validate_key key >>= λ _. validate_token token) [
    | err e ↦ (err e, s)
    | ok _ ↦
        let (gone, w) = release_script server (build_key prefix key) token s.world in
        (
          ok gone,
          record {
            lock_tokens = if gone then erase key s.lock_tokens else s.lock_tokens;
            world = w;
          },
        )
  ]

  unfoldable pub extend : String → String → ℤ → Site W → Result LockError Bool × Site W
  unfolding validate_key extend_script validate_positive_seconds
  extend key token ttl s =
      elim (validate_key key
        >>= (λ _. validate_token token)
        >>= (λ _. validate_positive_seconds "ttl" ttl)) [
          | err e ↦ (err e, s)
          | ok _ ↦
              let (longer, w) =
                extend_script server (build_key prefix key) token (pos_part ttl) s.world in
              (ok longer, record s { world = w })
        ]
