-- ===== src/Main/Routing.antt =====
-- The routes of main.go, and the handlers behind them.
pub mod Laws
use poselink_api_middleware.Common.{String, Option, none, some, Bool, List, [], ◌∷◌, Result}
use poselink_api_middleware.Common.Int.{ℤ}
use poselink_api_middleware.Models.{PaymentRequest}
use poselink_api_middleware.Http.{ResponseWriter}
use poselink_api_middleware.Handlers.Transaction.{
  Schedule, Outcome, waiting, answered, handle_transaction, handle_transaction_status,
}
use poselink_api_middleware.Handlers.Admin.{
  MappingRequest, create_or_update_mapping, delete_mapping_request,
}
use poselink_api_middleware.Handlers.Admin.Migration.{migrate_mapping}
use poselink_api_middleware.Handlers.Admin.Ttl.{get_transaction_ttl, extend_transaction_ttl}
use poselink_api_middleware.Handlers.Hold.{set_hold, get_hold}
use poselink_api_middleware.Handlers.Health.{check_health}
use poselink_api_middleware.Handlers.Middleware.{Served, returned, running, serve}
use poselink_api_middleware.Main.{App}

pub data Endpoint : Type 0 where
  transaction transaction_status mapping_update mapping_removal migration ttl ttl_extension :
      Endpoint
  hold_update hold health : Endpoint

pub record Route : Type 0 where
  pub template : String
  pub endpoint : Endpoint
  pub methods : List String

abbrev route : String → Endpoint → String → Route
route template endpoint method = record {
  template = template;
  endpoint = endpoint;
  methods = method ∷ "OPTIONS" ∷ [];
}

-- The calls of `router.HandleFunc`, in their order.
abbrev pub routes : List Route
routes =
    route "/api/v1/transaction" transaction "POST"
    ∷ route "/api/v1/transaction/status/{trx_id}" transaction_status "GET"
    ∷ route "/api/v1/admin/mapping" mapping_update "POST"
    ∷ route "/api/v1/admin/mapping" mapping_removal "DELETE"
    ∷ route "/api/v1/admin/migrate" migration "POST"
    ∷ route "/api/v1/admin/transaction/{trx_id}/ttl" ttl "GET"
    ∷ route "/api/v1/admin/transaction/{trx_id}/extend-ttl" ttl_extension "POST"
    ∷ route "/api/v1/admin/hold" hold_update "POST"
    ∷ route "/api/v1/admin/hold" hold "GET"
    ∷ route "/health" health "GET"
    ∷ []

-- A request: its method and path, the variable of the path and the query, and what the handlers' decoders make
-- of its body.
pub record Request : Type 0 where
  pub method : String
  pub path : String
  pub trx_id : String
  pub mid : String
  pub tid : String
  pub payment : Result String PaymentRequest
  pub mapping : Result String MappingRequest
  pub force : Result String Bool
  pub duration : Result String ℤ
  pub enabled : Result String Bool

-- gorilla/mux: the route that it finds for a method and a path, and its answer where it finds none.
pub record Mux : Type 0 where
  pub find_route : List Route → String → String → Option Route
  pub unmatched : String → String → ResponseWriter → ResponseWriter

module _ {W : Type 0} (app : App W) where
  abbrev of_outcome : Outcome W → Served W
  of_outcome (waiting w) = running w
  of_outcome (answered w out) = returned w out

  abbrev of_pair : W × ResponseWriter → Served W
  of_pair (w, out) = returned w out

  -- The handler of an endpoint; the schedule is that of a transaction.
  unfoldable pub handle : Endpoint → Schedule W → Request → W → ResponseWriter → Served W
  handle transaction schedule r w out =
      of_outcome (handle_transaction app.transaction_handler schedule w out r.payment)
  handle transaction_status schedule r w out =
      returned w (handle_transaction_status app.transaction_handler w out r.trx_id)
  handle mapping_update schedule r w out =
      of_pair (create_or_update_mapping app.admin_handler w out r.mapping)
  handle mapping_removal schedule r w out =
      of_pair (delete_mapping_request app.admin_handler w out r.mid r.tid)
  handle migration schedule r w out =
      of_pair (migrate_mapping app.admin_handler w out r.force app.migrations)
  handle ttl schedule r w out =
      returned w (get_transaction_ttl app.admin_handler.redis_client w out r.path)
  handle ttl_extension schedule r w out =
      of_pair (extend_transaction_ttl app.admin_handler.redis_client w out r.path r.duration)
  handle hold_update schedule r w out = of_pair (set_hold app.hold_handler w out r.enabled)
  handle hold schedule r w out = returned w (get_hold app.hold_handler w out)
  handle health schedule r w out = returned w (check_health app.health_handler w out)

  -- The router with its middleware, which runs only where a route is found.
  unfoldable pub serve_request : Mux → Schedule W → Request → W → ResponseWriter → Served W
  serve_request mux schedule r w out = elim (mux.find_route routes r.method r.path) [
    | none ↦ returned w (mux.unmatched r.method r.path out)
    | some found ↦ serve (handle found.endpoint schedule r) r.method w out
  ]
