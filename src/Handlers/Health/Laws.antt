-- ===== src/Handlers/Health/Laws.antt =====
-- The health check answers.
use poselink_api_middleware.Common.{inl, inr, Option-cases}
use poselink_api_middleware.Http.{ResponseWriter}
use poselink_api_middleware.Http.Answers.{IsJson, write_json_response-IsJson}
use poselink_api_middleware.Handlers.Health.{HealthHandler, check_health}

pub check_health-IsJson :
    {W : Type 0} (h : HealthHandler W) (w : W) (out : ResponseWriter)
    → IsJson out (check_health h w out)
unfolding check_health
check_health-IsJson h w out = elim (Option-cases (h.redis_client.ping w)) [
  | inl e ↦ rw e (write_json_response-IsJson _ _ out)
  | inr (m, e) ↦ rw e (write_json_response-IsJson _ _ out)
]
