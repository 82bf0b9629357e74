-- ===== src/Handlers/Hold.antt =====
-- internal/handlers/hold.go: the QA switch that holds transactions back from the devices.
pub mod Laws
pub mod Answers
use poselink_api_middleware.Common.{
  String, Option, none, some, Bool, false, [], ◌∷◌, Result, ok, err, str_eq, if◌then◌else◌,
}
use poselink_api_middleware.Redis.{Redis, RedisError}
use poselink_api_middleware.Http.{
  ResponseWriter, text, flag, object, write_error_response, write_json_response,
}

abbrev pub hold_redis_key : String
hold_redis_key = "qa:transaction_hold"

pub record HoldHandler (W : Type 0) : Type 0 where
  pub redis_client : Redis W

module _ {W : Type 0} (h : HoldHandler W) where
  unfoldable pub is_hold_enabled : W → Bool
  is_hold_enabled w = elim (h.redis_client.get w hold_redis_key) [
    | err e ↦ false
    | ok val ↦ str_eq val "true"
  ]

  answer : Bool → W × Option RedisError → ResponseWriter → W × ResponseWriter
  answer enabled (w, some e) out = (w, write_error_response 500 "failed to set hold state" out)
  answer enabled (w, none) out = (
    w,
    write_json_response 200
        (object (("message", text "transaction hold updated") ∷ ("enabled", flag enabled) ∷ []))
        out,
  )

  -- The argument is the result of decoding the request's body: its field `enabled`.
  unfoldable pub set_hold : W → ResponseWriter → Result String Bool → W × ResponseWriter
  unfolding answer
  set_hold w out (err e) = (w, write_error_response 400 "invalid JSON request body" out)
  set_hold w out (ok enabled) =
      answer enabled (h.redis_client.set w hold_redis_key (if enabled then "true" else "false") 0)
        out

  unfoldable pub get_hold : W → ResponseWriter → ResponseWriter
  unfolding is_hold_enabled
  get_hold w out = write_json_response 200 (object (("enabled", flag (is_hold_enabled w)) ∷ [])) out
