-- ===== src/Tests/Requests.antt =====
-- A request for the health of the program, through the router.
use poselink_api_middleware.Common.{ℕ, ◌≡◌, ◌≢◌, ◌⊎◌, refl, some, [], ◌∷◌, err}
use poselink_api_middleware.Redis.Memory.{Server}
use poselink_api_middleware.Http.{
  Body, new_writer, write_header, write_json_response, write_error_response,
}
use poselink_api_middleware.Handlers.Transaction.{Schedule, ended}
use poselink_api_middleware.Handlers.Middleware.{returned, set_cors_headers}
use poselink_api_middleware.Main.Routing.{health, Route, Request, Mux, handle, serve_request}
use poselink_api_middleware.Main.Routing.Laws.{serve_request-answers}
use poselink_api_middleware.Tests.Samples.{server}
use poselink_api_middleware.Tests.Startup.{app}

abbrev health_route : Route
health_route = record { template = "/health"; endpoint = health; methods = "GET" ∷ "OPTIONS" ∷ [] }

-- A router that knows one route.
abbrev mux : Mux
mux = record {
  find_route = λ routes method path. some health_route;
  unmatched = λ method path out. write_error_response 404 "not found" out;
}

abbrev schedule : Schedule Server
schedule = record {
  notify_chan = 0;
  before_store = λ s. s;
  before_hold = λ s. s;
  before_publish = λ s. s;
  turns = ended (λ s. s) ∷ [];
}

abbrev request : Request
request = record {
  method = "GET";
  path = "/health";
  trx_id = "";
  mid = "";
  tid = "";
  payment = err "EOF";
  mapping = err "EOF";
  force = err "EOF";
  duration = err "EOF";
  enabled = err "EOF";
}

serve_request-answers_example :
    ((request.method ≡ "OPTIONS")
      × (serve_request app mux schedule request server new_writer
          ≡ returned server (write_header 200 (set_cors_headers new_writer))))
    ⊎ ((request.method ≢ "OPTIONS")
        × ((w' : Server) × (code : ℕ) × (body : Body) × (handle app health schedule request server
                (set_cors_headers new_writer)
              ≡ returned w' (write_json_response code body (set_cors_headers new_writer)))
            × (serve_request app mux schedule request server new_writer
                ≡ returned w' (write_json_response code body (set_cors_headers new_writer)))))
serve_request-answers_example =
    serve_request-answers app schedule mux request server new_writer health_route refl tt
