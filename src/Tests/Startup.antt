-- ===== src/Tests/Startup.antt =====
-- The program, started on an empty server.
use mathlib.Core.List.{Memᴰ}
use poselink_api_middleware.Common.{
  ℕ, ◌+◌, ◌*◌, ◌<◌, ◌≤◌, ◌⊎◌, ◌≡◌, refl, [], ◌∷◌, true, false, none, ok, arith, str_eq,
  if◌then◌else◌,
}
use poselink_api_middleware.Common.Int.{pos}
use poselink_api_middleware.Common.Durations.{second, in_seconds}
use poselink_api_middleware.Redis.Memory.{Server, memory, quiet}
use poselink_api_middleware.Config.{Config, load_config, number_setting}
use poselink_api_middleware.Config.Atoi.{atoi}
use poselink_api_middleware.Store.Connecting.{new_redis_client}
use poselink_api_middleware.Ably.Client.{AblyClient, new_ably_client, subscribe_to_responses}
use poselink_api_middleware.Ably.Publishing.{RestClient}
use poselink_api_middleware.Common.Texts.{trim_space}
use poselink_api_middleware.Http.{ResponseWriter, new_writer, write_error_response}
use poselink_api_middleware.Mapper.Keys.{mapping_key}
use poselink_api_middleware.Mapper.RedisMapper.{get_serial_number, set_mapping}
use poselink_api_middleware.Store.Stamp.{stamp}
use poselink_api_middleware.Store.RedisStore.{store, load, update}
use poselink_api_middleware.Store.RedisStore.Keys.{transaction_key}
use poselink_api_middleware.Handlers.Hold.{is_hold_enabled, set_hold}
use poselink_api_middleware.Handlers.Transaction.{
  Schedule, Outcome, waiting, answered, handle_transaction, held, poll, new_transaction_handler,
}
use poselink_api_middleware.Handlers.Transaction.Timing.{Round, handle_timed, turns_of}
use poselink_api_middleware.Main.{Host, App, new_app, main}
use poselink_api_middleware.Main.Limits.{main-timeouts, main-timeouts_wrap}
use poselink_api_middleware.Tests.Codec.{text_codec}
use poselink_api_middleware.Tests.Samples.{server, request}
use poselink_api_middleware.Tests.Settings.{environment, no_mappings, defaults}

pub starts : Unit {0}
unfolding load_config number_setting atoi new_redis_client new_ably_client subscribe_to_responses
    main in_seconds
starts = tt

-- An Ably that takes every message.
abbrev pub rest_client : RestClient Server
rest_client = record {
  publish = λ s channel event payload. (s, none);
  marshal = λ fields. ok "{}";
  sleep = λ d s. s;
}

abbrev pub ably_client : AblyClient Server
ably_client = record {
  realtime_client = record { subscribe = λ s channel event. (s, none) };
  rest_client = rest_client;
  encryption_secret = "ECR2022secretKey";
}

abbrev pub host : Host Server
host = record {
  env = environment;
  parse_mappings = no_mappings;
  new_client = λ options. memory;
  connection = λ options. record { ping = λ s. (s, none); sleep = λ d s. s; close = λ s. s };
  ably = record {
    new_rest = λ key. ok rest_client;
    new_realtime = λ key. ok ably_client.realtime_client;
  };
  json = text_codec;
  now = λ s. s.time;
  after_watch = quiet;
  before_exec = quiet;
  before_get = λ key s. s;
  before_set = λ key s. s;
}

abbrev pub app : App Server
app = new_app host defaults memory ably_client

-- A hold is on, so that nothing is published.
abbrev ready : Server
ready =
    (set_hold (record { redis_client = memory }) (set_mapping memory server "M1" "7" "SN1").0
      new_writer (ok true)).0

abbrev schedule : Schedule Server
schedule = record {
  notify_chan = 4;
  before_store = λ s. s;
  before_hold = λ s. s;
  before_publish = λ s. s;
  turns = [];
}

-- A tick, and then a minute after the start.
abbrev tick : Round Server
tick = record { time = second; acts = λ s. s; gone = false; prefers_done = true }

abbrev late : Round Server
late = record { time = 60 * second; acts = λ s. s; gone = false; prefers_done = true }

abbrev run : App Server → Outcome Server
run a =
    handle_timed a.transaction_handler schedule (tick ∷ (late ∷ [])) ready new_writer (ok request)

abbrev left : Outcome Server → Server
left (waiting w) = w
left (answered w out) = w

abbrev sent : Outcome Server → ResponseWriter
sent (waiting w) = new_writer
sent (answered w out) = out

handled : Unit {0}
unfolding starts store load update memory text_codec transaction_key stamp get_serial_number
    set_mapping mapping_key held is_hold_enabled set_hold trim_space poll handle_transaction
    handle_timed turns_of write_error_response new_app new_transaction_handler
handled = tt

main-timeouts_example :
    (app.server.write_timeout ≡ pos (60 * second + 15 * second))
    × (m : Round Server) × Memᴰ m (tick ∷ (late ∷ []))
    × ((m.gone ≡ true) ⊎ (60 * second ≤ m.time))
unfolding handled
main-timeouts_example =
    main-timeouts host server ready (left (run app)) app defaults (60 * second) schedule
      (tick ∷ (late ∷ [])) (ok request) (sent (run app)) refl refl refl (omega arith) (omega arith)
      refl refl

-- The same with a timeout that is too long.
abbrev long_host : Host Server
long_host = record host {
  env = λ name. if str_eq name "TIMEOUT_DURATION" then "18446744060" else environment name;
}

abbrev long : Config
long = record defaults { timeout_duration = in_seconds (pos 18_446_744_060) }

abbrev long_app : App Server
long_app = new_app long_host long memory ably_client

main-timeouts_wrap_example :
    ((t : ℕ) × (long_app.server.write_timeout ≡ pos t) × (t < 15 * second))
    × (m : Round Server) × Memᴰ m (tick ∷ (late ∷ []))
    × ((m.gone ≡ true) ⊎ (60 * second ≤ m.time))
unfolding handled
main-timeouts_wrap_example =
    main-timeouts_wrap long_host server ready (left (run long_app)) long_app long 18_446_744_060
      schedule (tick ∷ (late ∷ [])) (ok request) (sent (run long_app)) refl refl refl (omega arith)
      (omega arith) refl refl
