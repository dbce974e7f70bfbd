-- ===== src/Lock/Holding.antt =====
-- Who holds a lock of infra/plugins/lock/manager.py, given what the commands of Redis promise.
use fastapi_infra.Common.{
  string_eq, ℕ, ◌<◌, String, true, false, none, some, is_some, if◌then◌else◌, ◌==◌, ◌≡◌, arith,
}
use fastapi_infra.Lock.{Server, owns, release_script, extend_script}

-- What Redis documents of `SET NX EX`, `DEL` and `EXPIRE`, at the moment of the command. Of the two
-- that take a time to live, only for a positive one: at 0 Redis refuses the first, and the second
-- deletes the key.
pub record IsServer {W : Type 0} (server : Server W) : Type 0 where
  pub set_done :
      (k t : String) (n : ℕ) (w : W)
      → 0 < n
      → (server.set_nx k t n w).0 ≡ true
      → server.get k (server.set_nx k t n w).1 ≡ some t
  pub set_taken :
      (k t u : String) (n : ℕ) (w : W)
      → 0 < n
      → server.get k w ≡ some u
      → ((server.set_nx k t n w).0 ≡ false) × (server.get k (server.set_nx k t n w).1 ≡ some u)
  pub set_other :
      (j k t : String) (n : ℕ) (w : W)
      → 0 < n
      → (j == k) ≡ false
      → server.get j (server.set_nx k t n w).1 ≡ server.get j w
  pub del_key : (k : String) (w : W) → (server.del k w).0 ≡ is_some (server.get k w)
  pub deleted :
      (j k : String) (w : W)
      → server.get j (server.del k w).1 ≡ (if j == k then none else server.get j w)
  pub expired_later :
      (j k : String) (n : ℕ) (w : W) → 0 < n → server.get j (server.expire k n w).1 ≡ server.get j w

module _ {W : Type 0} (server : Server W) where
  -- What any clients do, in any order, but for the release of `held` by its own token. A manager
  -- sends positive times only.
  pub data Others (held : String) : W → W → Type 0 where
    idle : (w : W) → Others held w w
    tried :
        {w w' : W} (k t : String) (n : ℕ)
        → 0 < n
        → Others held w w'
        → Others held w (server.set_nx k t n w').1
    released :
        {w w' : W} (k t : String)
        → (held == t) ≡ false
        → Others held w w'
        → Others held w (release_script server k t w').1
    extended :
        {w w' : W} (k t : String) (n : ℕ)
        → 0 < n
        → Others held w w'
        → Others held w (extend_script server k t n w').1

module _ {W : Type 0} (server : Server W) (laws : IsServer server) where
  set-keeps :
      (j k t held : String) (n : ℕ) (w : W)
      → 0 < n
      → server.get j w ≡ some held
      → server.get j (server.set_nx k t n w).1 ≡ some held
  set-keeps j k t held n w lasts h =
      ground (arith, laws.set_taken j t held n w lasts h, laws.set_other j k t n w lasts)

  release_script-get :
      (j k t : String) (w : W)
      → server.get j (release_script server k t w).1
        ≡ (if owns server k t w then (if j == k then none else server.get j w) else server.get j w)
  unfolding release_script
  release_script-get j k t w = ground (arith, laws.deleted j k w)

  extend_script-get :
      (j k t : String) (n : ℕ) (w : W)
      → 0 < n
      → server.get j (extend_script server k t n w).1 ≡ server.get j w
  unfolding extend_script
  extend_script-get j k t n w lasts = ground (arith, laws.expired_later j k n w lasts)

  Others-keep :
      (j held : String) (w w' : W)
      → server.get j w ≡ some held
      → Others server held w w'
      → server.get j w' ≡ some held
  Others-keep j held w w' h (idle _) = h
  Others-keep j held w w' h (tried {w' = v} k t n lasts o) =
      set-keeps j k t held n v lasts (Others-keep j held w v h o)
  Others-keep j held w w' h (released {w' = v} k t other o) =
      ground (arith, release_script-get j k t v, Others-keep j held w v h o)
  Others-keep j held w w' h (extended {w' = v} k t n lasts o) =
      ground (arith, extend_script-get j k t n v lasts, Others-keep j held w v h o)

  -- Mutual exclusion: while a token holds a key, whatever other clients try, extend or release with
  -- their own tokens, in any order, the token keeps the key and every attempt to take it fails. All
  -- times to live are positive, the key must not run out in the meantime, and only the holder
  -- knows its token.
  pub held-IsExclusive :
      (k held : String) (w w' : W)
      → server.get k w ≡ some held
      → Others server held w w'
      → (server.get k w' ≡ some held)
        × ((t : String) (n : ℕ) → 0 < n → (server.set_nx k t n w').0 ≡ false)
  held-IsExclusive k held w w' h o =
      let kept = Others-keep k held w w' h o in
      (kept, λ t n lasts. (laws.set_taken k t held n w' lasts kept).0)
