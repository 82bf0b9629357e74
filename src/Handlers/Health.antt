-- ===== src/Handlers/Health.antt =====
-- internal/handlers/health.go, with `Ping` of internal/store/redis_client.go.
pub mod Laws
use poselink_api_middleware.Common.{Option, none, some, [], ◌∷◌}
use poselink_api_middleware.Redis.{Redis, RedisError}
use poselink_api_middleware.Http.{ResponseWriter, text, object, write_json_response}

pub record HealthHandler (W : Type 0) : Type 0 where
  pub redis_client : Redis W

abbrev answer : Option RedisError → ResponseWriter → ResponseWriter
answer (some e) out =
    write_json_response 503
      (object (("status", text "unhealthy") ∷ (("error", text "Redis unavailable") ∷ []))) out
answer none out = write_json_response 200 (object (("status", text "healthy") ∷ [])) out

-- `CheckHealth`
unfoldable pub check_health : {W : Type 0} → HealthHandler W → W → ResponseWriter → ResponseWriter
check_health h w out = answer (h.redis_client.ping w) out
