-- ===== src/Config.antt =====
-- internal/config/config.go: the configuration, read from environment variables.
pub mod Atoi
pub mod Laws
use poselink_api_middleware.Common.{
  ℕ, ◌*◌, ◌^◌, ◌<>◌, String, Option, none, some, Bool, true, false, ◌||◌, ◌&&◌, not, List, [],
  Result, ok, err, str_eq, if◌then◌else◌,
}
use poselink_api_middleware.Common.Int.{ℤ, pos, negsuc, leb_ℤ}
use poselink_api_middleware.Common.Durations.{second, in_seconds}
use poselink_api_middleware.Common.Results.{◌>>=◌}
use Atoi.{NumError, atoi}

pub record Config : Type 0 where
  pub ably_api_key : String
  pub encryption_secret : String
  pub server_port : ℤ
  pub timeout_duration : ℤ
  pub mid_tid_mappings : List (String × String)
  pub redis_host : String
  pub redis_port : ℤ
  pub redis_password : String
  pub redis_db : ℤ
  pub redis_min_idle_conns : ℤ
  pub redis_max_conns : ℤ

-- The error texts: a variable with the error of its parser, or with a number out of its range.
pub data ConfigError : Type 0 where
  api_key_required : ConfigError
  invalid_number : String → NumError → ConfigError
  invalid_mappings : String → ConfigError
  not_a_port not_positive negative : String → ℤ → ConfigError

-- The three tests of a parsed number; true passes.
abbrev pub is_port : ℤ → Bool
is_port n = not (leb_ℤ n (pos 0) || not (leb_ℤ n (pos 65535)))

abbrev pub is_positive : ℤ → Bool
is_positive n = not (leb_ℤ n (pos 0))

abbrev pub is_non_negative : ℤ → Bool
is_non_negative n = leb_ℤ (pos 0) n

-- An optional number: the default where the variable is unset or empty, or its number if that passes the test.
unfoldable pub number_setting :
    String → String → ℤ → (ℤ → Bool) → (String → ℤ → ConfigError) → Result ConfigError ℤ
number_setting name value default passes complaint =
    if str_eq value "" then ok default else elim (atoi value) [
      | err e ↦ err (invalid_number name e)
      | ok n ↦ if passes n then ok n else err (complaint name n)
    ]

-- An optional text.
abbrev pub text_setting : String → String → String
text_setting value default = if str_eq value "" then default else value

-- `env` is `os.Getenv`, and `parse_mappings` is `json.Unmarshal` into the map.
module _ (env : String → String)
    (parse_mappings : String → Result String (List (String × String))) where
  abbrev mappings_setting : String → Result ConfigError (List (String × String))
  mappings_setting value =
      if str_eq value ""
      then ok []
      else elim (parse_mappings value) [ err e ↦ err (invalid_mappings e) | ok m ↦ ok m ]

  -- The timeout is kept in seconds until it is known to be positive.
  abbrev timeout_setting : String → Result ConfigError ℤ
  timeout_setting value =
      if str_eq value ""
      then ok (pos (60 * second))
      else number_setting "TIMEOUT_DURATION" value (pos 60) is_positive not_positive >>= λ n.
          ok (in_seconds n)

  abbrev settings : String → Result ConfigError Config
  settings key = do
    port ← number_setting "SERVER_PORT" (env "SERVER_PORT") (pos 8080) is_port not_a_port
    timeout ← timeout_setting (env "TIMEOUT_DURATION")
    mappings ← mappings_setting (env "MIDTID_MAPPINGS")
    redis_port ← number_setting "REDIS_PORT" (env "REDIS_PORT") (pos 6379) is_port not_a_port
    db ← number_setting "REDIS_DB" (env "REDIS_DB") (pos 0) is_non_negative negative
    min_idle ←
        number_setting "REDIS_MIN_IDLE_CONNS" (env "REDIS_MIN_IDLE_CONNS") (pos 5) is_non_negative
          negative
    max_conns ←
        number_setting "REDIS_MAX_CONNS" (env "REDIS_MAX_CONNS") (pos 100) is_positive not_positive
    ok (record {
      ably_api_key = key;
      encryption_secret = text_setting (env "ENCRYPTION_SECRET") "ECR2022secretKey";
      server_port = port;
      timeout_duration = timeout;
      mid_tid_mappings = mappings;
      redis_host = text_setting (env "REDIS_HOST") "localhost";
      redis_port = redis_port;
      redis_password = env "REDIS_PASSWORD";
      redis_db = db;
      redis_min_idle_conns = min_idle;
      redis_max_conns = max_conns;
    })

  -- `LoadConfig`
  unfoldable pub load_config : Result ConfigError Config
  unfolding ◌>>=◌
  load_config =
      if str_eq (env "ABLY_API_KEY") "" then err api_key_required else settings (env "ABLY_API_KEY")
