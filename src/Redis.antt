-- ===== src/Redis.antt =====
-- The Redis commands that the program sends through go-redis, as an interface over the world `W` that they
-- act on: the server and all that changes it. go-redis and Redis are not in the repository; `IsLawful` states
-- what the program relies on.
pub mod Memory
use poselink_api_middleware.Common.{
  ℕ, ◌≤◌, ◌≡◌, String, Option, none, some, Bool, Result, ok, err, str_eq, if◌then◌else◌,
}
use poselink_api_middleware.Common.Int.{ℤ}

-- `redis.Nil`, `redis.TxFailedErr`, and any other error with its text.
pub data RedisError : Type 0 where
  nil_reply tx_failed : RedisError
  failed : String → RedisError

-- A command returns the world that it leaves and its error; a read leaves the world alone. Durations are in
-- nanoseconds. `watch` returns what the server remembers of the key for `exec_set`, which stands for
-- MULTI, SET, EXEC.
pub record Redis (W : Type 0) : Type 0 where
  pub error_text : RedisError → String
  pub ping : W → Option RedisError
  pub get : W → String → Result RedisError String
  pub set : W → String → String → ℕ → W × Option RedisError
  pub del : W → String → W × Option RedisError
  pub exists : W → String → Result RedisError ℕ
  pub ttl : W → String → Result RedisError ℤ
  pub expire : W → String → ℤ → W × Option RedisError
  pub watch : W → String → Result RedisError ℕ
  pub exec_set : W → ℕ → String → String → ℕ → W × Option RedisError

-- The reply of a read of a key: an error where the connection is down.
abbrev pub reply : Option String → Option String → Result RedisError String
reply (some message) value = err (failed message)
reply none none = err nil_reply
reply none (some value) = ok value

-- `content` is what the server holds under a key at this instant, expired keys left out; `version` counts the
-- writes of a key, and `down` is the error of a connection that does not work.
pub record IsLawful {W : Type 0} (R : Redis W) : Type 0 where
  pub content : W → String → Option String
  pub version : W → String → ℕ
  pub down : W → Option String
  pub get-reply : (w : W) (k : String) → R.get w k ≡ reply (down w) (content w k)
  pub set-content :
      (w : W) (k v : String) (d : ℕ) (j : String)
      → (R.set w k v d).1 ≡ none
      → content (R.set w k v d).0 j ≡ (if str_eq j k then some v else content w j)
  pub set-down :
      (w : W) (k v : String) (d : ℕ)
      → (R.set w k v d).1 ≡ none
      → (down w ≡ none) × (down (R.set w k v d).0 ≡ none)
  pub del-content :
      (w : W) (k j : String)
      → (R.del w k).1 ≡ none
      → content (R.del w k).0 j ≡ (if str_eq j k then none else content w j)
  pub del-down :
      (w : W) (k : String) → (R.del w k).1 ≡ none → (down w ≡ none) × (down (R.del w k).0 ≡ none)
  pub watch-version :
      (w : W) (k : String) (token : ℕ) → R.watch w k ≡ ok token → token ≡ version w k
  pub exec_set-content :
      (w : W) (token : ℕ) (k v : String) (d : ℕ) (j : String)
      → (R.exec_set w token k v d).1 ≡ none
      → content (R.exec_set w token k v d).0 j ≡ (if str_eq j k then some v else content w j)
  pub exec_set-down :
      (w : W) (token : ℕ) (k v : String) (d : ℕ)
      → (R.exec_set w token k v d).1 ≡ none
      → (down w ≡ none) × (down (R.exec_set w token k v d).0 ≡ none)
  pub exec_set-version :
      (w : W) (token : ℕ) (k v : String) (d : ℕ)
      → (R.exec_set w token k v d).1 ≡ none
      → version w k ≡ token
  pub exec_set-tx_failed :
      (w : W) (token : ℕ) (k v : String) (d : ℕ)
      → (R.exec_set w token k v d).1 ≡ some tx_failed
      → (R.exec_set w token k v d).0 ≡ w

-- What a server guarantees of the steps of its other clients: a write of a key counts up the key's version,
-- and a key with an unchanged version has an unchanged content.
pub record IsFair {W : Type 0} {R : Redis W} (L : IsLawful R) (others : ℕ → W → W) : Type 0 where
  pub version_grows : (i : ℕ) (w : W) (k : String) → L.version w k ≤ L.version (others i w) k
  pub content_same :
      (i : ℕ) (w : W) (k : String)
      → L.version w k ≡ L.version (others i w) k
      → L.content w k ≡ L.content (others i w) k

-- What a server that is reached answers: WATCH succeeds, and so does an EXEC after which no watched key has
-- changed.
pub record IsResponsive {W : Type 0} {R : Redis W} (L : IsLawful R) : Type 0 where
  pub watch-up : (w : W) (k : String) → L.down w ≡ none → (token : ℕ) × (R.watch w k ≡ ok token)
  pub exec_set-up :
      (w : W) (token : ℕ) (k v : String) (d : ℕ)
      → L.down w ≡ none
      → L.version w k ≡ token
      → (R.exec_set w token k v d).1 ≡ none
