-- ===== src/Main/Routing/Laws.antt =====
-- Every request for a route is answered.
use poselink_api_middleware.Common.{
  ℕ, ◌≡◌, ◌≢◌, ◌⊎◌, inl, inr, refl, ap, String, some, str_eq, eq_iff, Bool-cases, Option-cases,
}
use poselink_api_middleware.Common.Texts.{ne_of_eq-false}
use poselink_api_middleware.Http.{ResponseWriter, Body, write_header, write_json_response}
use poselink_api_middleware.Http.Answers.{
  IsJson, write_error_response-IsJson, write_json_response-IsJson,
}
use poselink_api_middleware.Handlers.Transaction.{
  TransactionHandler, Schedule, Outcome, handle_transaction_status,
}
use poselink_api_middleware.Handlers.Transaction.Polling.{HasEnd}
use poselink_api_middleware.Handlers.Transaction.Ending.{handle_transaction-ends}
use poselink_api_middleware.Handlers.Admin.Answers.{
  create_or_update_mapping-IsJson, delete_mapping_request-IsJson,
}
use poselink_api_middleware.Handlers.Admin.Migration.Answers.{migrate_mapping-IsJson}
use poselink_api_middleware.Handlers.Admin.Ttl.Answers.{
  get_transaction_ttl-IsJson, extend_transaction_ttl-IsJson,
}
use poselink_api_middleware.Handlers.Hold.Answers.{set_hold-IsJson, get_hold-IsJson}
use poselink_api_middleware.Handlers.Health.Laws.{check_health-IsJson}
use poselink_api_middleware.Handlers.Middleware.{
  Served, returned, serve, cors_middleware, panic_recovery_middleware, set_cors_headers,
}
use poselink_api_middleware.Main.{App}
use poselink_api_middleware.Main.Routing.{
  Endpoint, transaction, transaction_status, mapping_update, mapping_removal, migration, ttl,
  ttl_extension, hold_update, hold, health, Route, routes, Request, Mux, of_outcome, of_pair,
  handle, serve_request,
}

handle_transaction_status-IsJson :
    {W : Type 0} (h : TransactionHandler W) (w : W) (out : ResponseWriter) (trx_id : String)
    → IsJson out (handle_transaction_status h w out trx_id)
unfolding handle_transaction_status
handle_transaction_status-IsJson h w out trx_id = elim (Bool-cases (str_eq trx_id "")) [
  | inl e ↦ rw e (write_error_response-IsJson _ _ out)
  | inr e ↦ elim (Option-cases (h.store.load w trx_id)) [
    | inl e' ↦ rw (e, e') (write_error_response-IsJson _ _ out)
    | inr (tx, e') ↦ rw (e, e') (write_json_response-IsJson _ _ out)
  ]
]

-- A handler returns with one JSON answer.
abbrev Replies : {W : Type 0} → ResponseWriter → Served W → Type 0
Replies {W = W} out₀ s =
    (w : W) × (code : ℕ) × (body : Body) × (s ≡ returned w (write_json_response code body out₀))

returned-Replies :
    {W : Type 0} (w : W) (out₀ out : ResponseWriter)
    → IsJson out₀ out
    → Replies out₀ (returned w out)
returned-Replies w out₀ out (code, body, e) = (w, code, body, ap (returned w) e)

of_pair-Replies :
    {W : Type 0} (app : App W) (out₀ : ResponseWriter) (r : W × ResponseWriter)
    → IsJson out₀ r.1
    → Replies out₀ (of_pair app r)
of_pair-Replies app out₀ (w, out) h = returned-Replies w out₀ out h

module _ {W : Type 0} (app : App W) (schedule : Schedule W) where
  handle-Replies :
      (endpoint : Endpoint) (r : Request) (w : W) (out : ResponseWriter)
      → HasEnd schedule.turns
      → Replies out (handle app endpoint schedule r w out)
  unfolding handle
  handle-Replies transaction r w out ends =
      let (w', code, body, e) =
        handle_transaction-ends app.transaction_handler schedule w out r.payment ends in
      (w', code, body, ap (λ (o : Outcome W). of_outcome app o) e)
  handle-Replies transaction_status r w out ends =
      returned-Replies w out _
        (handle_transaction_status-IsJson app.transaction_handler w out r.trx_id)
  handle-Replies mapping_update r w out ends =
      of_pair-Replies app out _ (create_or_update_mapping-IsJson app.admin_handler w out r.mapping)
  handle-Replies mapping_removal r w out ends =
      of_pair-Replies app out _ (delete_mapping_request-IsJson app.admin_handler w out r.mid r.tid)
  handle-Replies migration r w out ends =
      of_pair-Replies app out _
        (migrate_mapping-IsJson app.admin_handler w out r.force app.migrations)
  handle-Replies ttl r w out ends =
      returned-Replies w out _
        (get_transaction_ttl-IsJson app.admin_handler.redis_client w out r.path)
  handle-Replies ttl_extension r w out ends =
      of_pair-Replies app out _
        (extend_transaction_ttl-IsJson app.admin_handler.redis_client w out r.path r.duration)
  handle-Replies hold_update r w out ends =
      of_pair-Replies app out _ (set_hold-IsJson app.hold_handler w out r.enabled)
  handle-Replies hold r w out ends =
      returned-Replies w out _ (get_hold-IsJson app.hold_handler w out)
  handle-Replies health r w out ends =
      returned-Replies w out _ (check_health-IsJson app.health_handler w out)

  -- Every request for which the router finds a route of the program is answered, once. OPTIONS changes nothing
  -- and is answered with status 200 and the CORS headers; with any other method, the handler of the route
  -- answers with one status and one JSON body behind the CORS headers. For the handler of payments the timeout
  -- passes in the end, or the client goes.
  pub serve_request-answers :
      (mux : Mux) (r : Request) (w : W) (out : ResponseWriter) (found : Route)
      → mux.find_route routes r.method r.path ≡ some found
      → HasEnd schedule.turns
      → ((r.method ≡ "OPTIONS")
          × (serve_request app mux schedule r w out
              ≡ returned w (write_header 200 (set_cors_headers out))))
        ⊎ ((r.method ≢ "OPTIONS")
            × ((w' : W) × (code : ℕ) × (body : Body) × (handle app found.endpoint schedule r w
                    (set_cors_headers out)
                  ≡ returned w' (write_json_response code body (set_cors_headers out)))
                × (serve_request app mux schedule r w out
                    ≡ returned w' (write_json_response code body (set_cors_headers out)))))
  unfolding serve_request serve cors_middleware panic_recovery_middleware
  serve_request-answers mux r w out found routed ends =
      elim (Bool-cases (str_eq r.method "OPTIONS")) [
        | inl e ↦ inl ((eq_iff r.method "OPTIONS").0 e, rw (routed, serve_request, e) refl)
        | inr e ↦
            let (w', code, body, same) =
              handle-Replies found.endpoint r w (set_cors_headers out) ends in
            inr (
              ne_of_eq-false _ _ e,
              (w', code, body, same, rw (routed, serve_request, e, same) refl),
            )
      ]
