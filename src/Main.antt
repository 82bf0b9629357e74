-- ===== src/Main.antt =====
-- main.go: the parts of the program, made from the configuration and wired together. `log.Fatalf` ends the process
-- at once, so no deferred call runs; `Fatal` says at which step.
pub mod EndToEnd
pub mod Limits
pub mod Routing
pub mod Shutdown
use poselink_api_middleware.Common.{
  ℕ, ◌*◌, ◌<>◌, String, Option, none, some, List, Result, ok, err, Done,
}
use poselink_api_middleware.Common.Int.{ℤ, pos}
use poselink_api_middleware.Common.Durations.{second, add_int64}
use poselink_api_middleware.Common.Decimal.{decimal_ℤ}
use poselink_api_middleware.Redis.{Redis}
use poselink_api_middleware.Config.{Config, ConfigError, load_config}
use poselink_api_middleware.Store.Connecting.{
  RedisConfig, RedisOptions, redis_options, Connection, new_redis_client,
}
use poselink_api_middleware.Store.RedisStore.{
  TransactionCodec, RedisTransactionStore, new_redis_transaction_store,
}
use poselink_api_middleware.Store.RedisStore.Contract.{redis_store}
use poselink_api_middleware.Mapper.RedisMapper.{redis_mapper}
use poselink_api_middleware.Ably.Client.{
  AblySdk, AblyClient, Decoding, new_ably_client, ably_publisher, subscribe_to_responses,
}
use poselink_api_middleware.Handlers.Transaction.{TransactionHandler, new_transaction_handler}
use poselink_api_middleware.Handlers.Edc.{EdcResponseHandler}
use poselink_api_middleware.Handlers.Hold.{HoldHandler}
use poselink_api_middleware.Handlers.Health.{HealthHandler}
use poselink_api_middleware.Handlers.Admin.{AdminHandler}

-- All that the process finds in its surroundings: the environment, the Ably SDK, go-redis (`redis.NewClient`), the JSON
-- of the configured mappings and of a transaction, the clock, and the other clients of Redis.
pub record Host (W : Type 0) : Type 0 where
  pub env : String → String
  pub parse_mappings : String → Result String (List (String × String))
  pub new_client : RedisOptions → Redis W
  pub connection : RedisOptions → Connection W
  pub ably : AblySdk W
  pub json : TransactionCodec
  pub now : W → ℕ
  pub after_watch : ℕ → W → W
  pub before_exec : ℕ → W → W
  pub before_get : String → W → W
  pub before_set : String → W → W

pub data Fatal : Type 0 where
  no_configuration : ConfigError → Fatal
  no_redis no_ably no_subscription : String → Fatal

-- The fields of `http.Server` that are set.
pub record Server : Type 0 where
  pub addr : String
  pub read_timeout : ℤ
  pub write_timeout : ℤ
  pub idle_timeout : ℤ

pub record App (W : Type 0) : Type 0 where
  pub ably_client : AblyClient W
  pub edc_handler : EdcResponseHandler W
  pub hold_handler : HoldHandler W
  pub transaction_handler : TransactionHandler W
  pub admin_handler : AdminHandler W
  pub health_handler : HealthHandler W
  pub migrations : List (String × String)
  pub server : Server

abbrev pub redis_config : Config → RedisConfig
redis_config cfg = record {
  host = cfg.redis_host;
  port = cfg.redis_port;
  password = cfg.redis_password;
  db = cfg.redis_db;
  min_idle_conns = cfg.redis_min_idle_conns;
  max_conns = cfg.redis_max_conns;
}

-- The transaction timeout and a buffer.
abbrev pub new_server : Config → Server
new_server cfg = record {
  addr = ":" <> decimal_ℤ cfg.server_port;
  read_timeout = pos (15 * second);
  write_timeout = add_int64 cfg.timeout_duration (pos (15 * second));
  idle_timeout = pos (120 * second);
}

module _ {W : Type 0} (host : Host W) where
  abbrev pub transaction_store : Redis W → RedisTransactionStore W
  transaction_store client =
      new_redis_transaction_store client host.json host.now host.after_watch host.before_exec

  -- The handlers, once the clients are there.
  unfoldable pub new_app : Config → Redis W → AblyClient W → App W
  new_app cfg client ably_client =
      let store = redis_store (transaction_store client) in
      let hold : HoldHandler W = record { redis_client = client } in
      record {
        ably_client = ably_client;
        edc_handler = record { store = store };
        hold_handler = hold;
        transaction_handler =
            new_transaction_handler store (redis_mapper client) (ably_publisher ably_client)
              (some hold) cfg.timeout_duration;
        admin_handler = record {
          mapper = client;
          redis_client = client;
          before_get = host.before_get;
          before_set = host.before_set;
        };
        health_handler = record { redis_client = client };
        migrations = cfg.mid_tid_mappings;
        server = new_server cfg;
      }

  subscribed : Config → Redis W → AblyClient W → W × Done → W × Result Fatal (App W)
  subscribed cfg client ably_client (w, err e) = (w, err (no_subscription e))
  subscribed cfg client ably_client (w, ok done) = (w, ok (new_app cfg client ably_client))

  with_redis : Config → Redis W → W → W × Result Fatal (App W)
  with_redis cfg client w =
      elim (new_ably_client host.ably cfg.ably_api_key cfg.encryption_secret) [
        | err e ↦ (w, err (no_ably e))
        | ok ably_client ↦ subscribed cfg client ably_client (subscribe_to_responses ably_client w)
      ]

  connected : Config → Redis W → W × Done → W × Result Fatal (App W)
  connected cfg client (w, err e) = (w, err (no_redis e))
  connected cfg client (w, ok done) = with_redis cfg client w

  -- `main`, up to the start of the server.
  unfoldable pub main : W → W × Result Fatal (App W)
  unfolding connected with_redis subscribed
  main w = elim (load_config host.env host.parse_mappings) [
    | err e ↦ (w, err (no_configuration e))
    | ok cfg ↦
        let options = redis_options (redis_config cfg) in
        connected cfg (host.new_client options) (new_redis_client (host.connection options) w)
  ]
