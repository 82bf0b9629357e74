-- ===== src/Handlers/Middleware.antt =====
-- The middleware around every handler: internal/handlers/cors.go and `PanicRecoveryMiddleware` of
-- internal/handlers/errors.go, in the order in which main.go sets them up.
pub mod Panics
use poselink_api_middleware.Common.{
  ℕ, ◌≡◌, ◌≢◌, ap, refl, String, Option, none, some, Bool, arith, str_eq, if◌then◌else◌,
}
use poselink_api_middleware.Http.{
  ResponseWriter, set_header, write_header, write_error_response, write_json_response, encode,
}

-- How a handler ends: it returns, or it panics after it may have written something. Or it still runs, after all
-- that has happened so far.
pub data Served (W : Type 0) : Type 0 where
  returned panicked : W → ResponseWriter → Served W
  running : W → Served W

-- The deferred function: a panic is answered with 500, and the handler returns.
abbrev recovered : {W : Type 0} → Served W → Served W
recovered (returned w out) = returned w out
recovered (running w) = running w
recovered (panicked w out) = returned w (write_error_response 500 "internal server error" out)

unfoldable pub panic_recovery_middleware :
    {W : Type 0} → (W → ResponseWriter → Served W) → W → ResponseWriter → Served W
panic_recovery_middleware next w out = recovered (next w out)

unfoldable pub set_cors_headers : ResponseWriter → ResponseWriter
set_cors_headers out = set_header "Access-Control-Max-Age" "3600" (
    set_header "Access-Control-Allow-Headers" "Content-Type, Authorization, X-Requested-With" (
      set_header "Access-Control-Allow-Methods" "GET, POST, PUT, DELETE, OPTIONS"
        (set_header "Access-Control-Allow-Origin" "*" out)))

-- The text is the request's method.
unfoldable pub cors_middleware :
    {W : Type 0} → (W → ResponseWriter → Served W) → String → W → ResponseWriter → Served W
cors_middleware next method w out =
    if str_eq method "OPTIONS"
    then returned w (write_header 200 (set_cors_headers out))
    else next w (set_cors_headers out)

unfoldable pub serve :
    {W : Type 0} → (W → ResponseWriter → Served W) → String → W → ResponseWriter → Served W
serve next method w out = cors_middleware (panic_recovery_middleware next) method w out
