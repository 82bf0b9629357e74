-- ===== src/Handlers/Middleware/Panics.antt =====
-- What the point of sale receives when a handler panics.
use poselink_api_middleware.Common.{
  ◌≡◌, ◌≢◌, refl, String, none, some, [], ◌∷◌, ◌++◌, inl, inr, Option-cases,
}
use poselink_api_middleware.Common.Texts.{eq-false_of_ne}
use poselink_api_middleware.Http.{
  ResponseWriter, insert, error_body, write_error_response, write_json_response, encode,
  write_header, set_header,
}
use poselink_api_middleware.Handlers.Middleware.{
  Served, returned, panicked, serve, cors_middleware, panic_recovery_middleware, set_cors_headers,
}

-- What an error leaves in a writer.
answered :
    (out : ResponseWriter)
    → let final = write_error_response 500 "internal server error" out in
      (final.status ≡ some (elim out.status [ none ↦ 500 | some code ↦ code ]))
      × (final.headers ≡ elim out.status [
        | none ↦ insert "Content-Type" "application/json" out.headers
        | some code ↦ out.headers
      ])
      × (final.bodies
          ≡ out.bodies ++ (error_body (record { error = "internal server error" }) ∷ []))
unfolding write_error_response write_json_response encode write_header set_header
answered out = elim (Option-cases out.status) [
  | inl e ↦ (rw e refl, rw e refl, rw e refl)
  | inr (code, e) ↦ (rw e refl, rw e refl, rw e refl)
]

-- Behind both middlewares, where the handler of a request that is not OPTIONS panics, the request is answered:
-- with the status that the handler had sent, or 500 and the content type of JSON if it had sent none, and with
-- the JSON error after the bodies that it had written.
pub serve-panicked :
    {W : Type 0} (next : W → ResponseWriter → Served W) (method : String) (w w' : W)
    (out out' : ResponseWriter)
    → method ≢ "OPTIONS"
    → next w (set_cors_headers out) ≡ panicked w' out'
    → (final : ResponseWriter) × (serve next method w out ≡ returned w' final)
      × (final.status ≡ some (elim out'.status [ none ↦ 500 | some code ↦ code ]))
      × (final.headers ≡ elim out'.status [
        | none ↦ insert "Content-Type" "application/json" out'.headers
        | some code ↦ out'.headers
      ])
      × (final.bodies
          ≡ out'.bodies ++ (error_body (record { error = "internal server error" }) ∷ []))
unfolding serve cors_middleware panic_recovery_middleware
serve-panicked next method w w' out out' other panics =
    let (status, headers, bodies) = answered out' in
    (
      write_error_response 500 "internal server error" out',
      rw (eq-false_of_ne method "OPTIONS" other, serve, panics) refl,
      status,
      headers,
      bodies,
    )
