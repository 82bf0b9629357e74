-- ===== src/Handlers/Hold/Answers.antt =====
-- The handlers of the switch answer.
use poselink_api_middleware.Common.{String, Option, none, some, Bool, Result, ok, err}
use poselink_api_middleware.Redis.{RedisError}
use poselink_api_middleware.Http.{ResponseWriter}
use poselink_api_middleware.Http.Answers.{
  IsJson, write_error_response-IsJson, write_json_response-IsJson,
}
use poselink_api_middleware.Handlers.Hold.{HoldHandler, set_hold, get_hold, answer}

module _ {W : Type 0} (h : HoldHandler W) where
  answer-IsJson :
      (enabled : Bool) (r : W × Option RedisError) (out : ResponseWriter)
      → IsJson out (answer h enabled r out).1
  unfolding answer
  answer-IsJson enabled (w, some e) out = write_error_response-IsJson _ _ out
  answer-IsJson enabled (w, none) out = write_json_response-IsJson _ _ out

  pub set_hold-IsJson :
      (w : W) (out : ResponseWriter) (enabled : Result String Bool)
      → IsJson out (set_hold h w out enabled).1
  unfolding set_hold
  set_hold-IsJson w out (err e) = write_error_response-IsJson _ _ out
  set_hold-IsJson w out (ok enabled) = answer-IsJson enabled _ out

  pub get_hold-IsJson : (w : W) (out : ResponseWriter) → IsJson out (get_hold h w out)
  unfolding get_hold
  get_hold-IsJson w out = write_json_response-IsJson _ _ out
