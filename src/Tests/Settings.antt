-- ===== src/Tests/Settings.antt =====
-- The configuration on concrete environments.
use poselink_api_middleware.Common.{
  ◌≡◌, refl, String, List, [], Result, ok, err, str_eq, if◌then◌else◌,
}
use poselink_api_middleware.Common.Int.{pos}
use poselink_api_middleware.Config.{Config, load_config, number_setting}
use poselink_api_middleware.Config.Atoi.{atoi, range_error}
use poselink_api_middleware.Config.Laws.{IsValid, load_config-IsValid}

-- A key, a port, and otherwise the defaults.
abbrev pub environment : String → String
environment name =
    if str_eq name "ABLY_API_KEY" then "key" else if str_eq name "SERVER_PORT" then "9090" else ""

abbrev pub no_mappings : String → Result String (List (String × String))
no_mappings text = ok []

abbrev pub defaults : Config
defaults = record {
  ably_api_key = "key";
  encryption_secret = "ECR2022secretKey";
  server_port = pos 9090;
  timeout_duration = pos 60_000_000_000;
  mid_tid_mappings = [];
  redis_host = "localhost";
  redis_port = pos 6379;
  redis_password = "";
  redis_db = pos 0;
  redis_min_idle_conns = pos 5;
  redis_max_conns = pos 100;
}

runs : Unit {0}
unfolding load_config number_setting atoi
runs = tt

load_config-IsValid_example : IsValid defaults
unfolding runs
load_config-IsValid_example = load_config-IsValid environment no_mappings defaults refl

beyond : atoi "9223372036854775808" ≡ err range_error
unfolding runs
beyond = refl
