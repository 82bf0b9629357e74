-- ===== src/Store/Connecting.antt =====
-- `NewRedisClient` of internal/store/redis_client.go: PING with retries until the server answers.
pub mod Laws
use poselink_api_middleware.Common.{
  ℕ, zero, suc, ◌-◌, ◌<>◌, String, Option, none, some, List, [], ◌∷◌, Done, ok, err, ltb,
  if◌then◌else◌,
}
use poselink_api_middleware.Common.Int.{ℤ}
use poselink_api_middleware.Common.Decimal.{decimal_ℤ}
use poselink_api_middleware.Common.Lists.{get_elem?}

pub record RedisConfig : Type 0 where
  pub host : String
  pub port : ℤ
  pub password : String
  pub db : ℤ
  pub min_idle_conns : ℤ
  pub max_conns : ℤ

-- The fields of `redis.Options` that are set.
pub record RedisOptions : Type 0 where
  pub addr : String
  pub password : String
  pub db : ℤ
  pub min_idle_conns : ℤ
  pub max_active_conns : ℤ

abbrev pub redis_options : RedisConfig → RedisOptions
redis_options config = record {
  addr = config.host <> ":" <> decimal_ℤ config.port;
  password = config.password;
  db = config.db;
  min_idle_conns = config.min_idle_conns;
  max_active_conns = config.max_conns;
}

-- The client of go-redis before it is known to work, and the clock: `ping` may take its time, `sleep` lets a
-- number of seconds pass, `close` closes the connections.
pub record Connection (W : Type 0) : Type 0 where
  pub ping : W → W × Option String
  pub sleep : ℕ → W → W
  pub close : W → W

abbrev pub max_retries : ℕ
max_retries = 5

-- In seconds.
abbrev pub backoff_durations : List ℕ
backoff_durations = 1 ∷ (2 ∷ (4 ∷ (8 ∷ (16 ∷ []))))

module _ {W : Type 0} (client : Connection W) where
  -- The pause after a failure, but not after the last; an index out of range would panic and is not reached.
  abbrev pub back_off : ℕ → W → W
  back_off attempt w =
      if ltb attempt (max_retries - 1)
      then elim (get_elem? backoff_durations attempt) [ none ↦ w | some d ↦ client.sleep d w ]
      else w

  -- The tests after a PING: a success returns the client, an error is kept and the loop goes on.
  pinged : ℕ → W × Option String → (W → String → W × Done) → W × Done
  pinged attempt (w, none) again = (w, ok tt)
  pinged attempt (w, some e) again = again (back_off attempt w) e

  -- The loop: the rounds left, the number of the attempt, and `lastErr`.
  attempts : ℕ → ℕ → W → String → W × Done
  attempts zero attempt w last_err =
      (client.close w, err ("failed to connect to Redis after 5 attempts: " <> last_err))
  attempts (suc left) attempt w last_err =
      pinged attempt (client.ping w) (λ w' e. attempts left (suc attempt) w' e)

  unfoldable pub new_redis_client : W → W × Done
  unfolding attempts pinged
  new_redis_client w = attempts max_retries 0 w ""
