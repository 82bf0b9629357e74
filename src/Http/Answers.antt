-- ===== src/Http/Answers.antt =====
-- One JSON answer, as all handlers write it.
use poselink_api_middleware.Common.{ℕ, ◌≡◌, refl, String}
use poselink_api_middleware.Http.{ResponseWriter, Body, write_json_response, write_error_response}

-- One status and one JSON body were written.
abbrev pub IsJson : ResponseWriter → ResponseWriter → Type 0
IsJson out₀ out = (code : ℕ) × (body : Body) × (out ≡ write_json_response code body out₀)

pub write_error_response-IsJson :
    (code : ℕ) (message : String) (out : ResponseWriter)
    → IsJson out (write_error_response code message out)
unfolding write_error_response
write_error_response-IsJson code message out = (_, _, refl)

pub write_json_response-IsJson :
    (code : ℕ) (body : Body) (out : ResponseWriter) → IsJson out (write_json_response code body out)
write_json_response-IsJson code body out = (_, _, refl)
