-- ===== src/Tests/Middlewares.antt =====
-- A handler that panics.
use poselink_api_middleware.Common.{ℕ, ◌+◌, ◌≡◌, refl, some, [], ◌∷◌}
use poselink_api_middleware.Common.Texts.{ne_of_eq-false}
use poselink_api_middleware.Http.{ResponseWriter, new_writer, insert, error_body, set_header}
use poselink_api_middleware.Handlers.Middleware.{
  Served, returned, panicked, serve, set_cors_headers,
}
use poselink_api_middleware.Handlers.Middleware.Panics.{serve-panicked}

-- The world counts the calls.
abbrev crash : ℕ → ResponseWriter → Served ℕ
crash w out = panicked (w + 1) out

runs : Unit {0}
unfolding set_cors_headers set_header
runs = tt

serve-panicked_example :
    (final : ResponseWriter) × (serve crash "POST" 0 new_writer ≡ returned 1 final)
    × (final.status ≡ some 500)
    × (final.headers
        ≡ insert "Content-Type" "application/json" (set_cors_headers new_writer).headers)
    × (final.bodies ≡ error_body (record { error = "internal server error" }) ∷ [])
unfolding runs
serve-panicked_example =
    serve-panicked crash "POST" 0 1 new_writer (set_cors_headers new_writer)
      (ne_of_eq-false "POST" "OPTIONS" refl) refl
