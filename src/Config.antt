-- ===== src/Config.antt =====
-- config/config.go: the configuration, read by viper, which is a parameter.
pub mod Laws
mod Tests
use backend_infra_assessment.Base.{
  ℕ, String, List, [], ◌∷◌, Option, none, some, Result, ok, err, Exec, pure, raise, ◌>>=◌, ◌>>◌,
  append, str_eq, if◌then◌else◌,
}
use backend_infra_assessment.Domain.{Duration}
use backend_infra_assessment.Auth.{SecurityConfig}

pub record AppConfig : Type 0 where
  pub port : String
  pub env : String

pub record DbConfig : Type 0 where
  pub host : String
  pub port : String
  pub user : String
  pub password : String
  pub name : String
  pub ssl_mode : String

pub record RedisConfig : Type 0 where
  pub host : String
  pub port : String
  pub password : String
  pub db : ℕ

pub record JwtConfig : Type 0 where
  pub secret : String
  pub access_ttl : Duration
  pub refresh_ttl : Duration

pub record LlmConfig : Type 0 where
  pub base_url : String
  pub model : String
  pub timeout : Duration
  pub cf_access_client_id : String
  pub cf_access_client_secret : String
  pub summary_ttl : Duration
  pub max_attempts : ℕ
  pub max_events : ℕ

pub record BootstrapConfig : Type 0 where
  pub admin_email : String
  pub admin_password : String

-- Config, with its one-field parts Log and Cache as the fields that they hold.
pub record Config : Type 0 where
  pub app : AppConfig
  pub db : DbConfig
  pub redis : RedisConfig
  pub jwt : JwtConfig
  pub security : SecurityConfig
  pub log_level : String
  pub cache_ttl : Duration
  pub llm : LlmConfig
  pub bootstrap : BootstrapConfig

unfoldable pub addr : RedisConfig → String
addr r = append r.host (append ":" r.port)

unfoldable pub dsn : DbConfig → String
dsn d = append "host=" (
    append d.host (
      append " port=" (
        append d.port (
          append " user=" (
            append d.user (
              append " password=" (
                append d.password
                  (append " dbname=" (append d.name (append " sslmode=" d.ssl_mode))))))))))

-- The value of a SetDefault call.
pub data Setting : Type 0 where
  text : String → Setting
  number : ℕ → Setting

-- What ReadInConfig can fail with.
pub data ReadError : Type 0 where
  not_found : ReadError
  unreadable : String → ReadError

-- viper with AutomaticEnv: the getters read the environment, the file and the defaults.
pub record Viper (W : Type 0) : Type 0 where
  pub read_in_config : W → Option ReadError × W
  pub get_string : List (String × Setting) → String → W → String
  pub get_int : List (String × Setting) → String → W → ℕ
  pub get_duration : List (String × Setting) → String → W → Duration

unfoldable pub defaults : List (String × Setting)
defaults =
    ("APP_PORT", text "8080")
    ∷ ("APP_ENV", text "development")
    ∷ ("DB_HOST", text "localhost")
    ∷ ("DB_PORT", text "5432")
    ∷ ("DB_USER", text "postgres")
    ∷ ("DB_PASSWORD", text "postgres")
    ∷ ("DB_NAME", text "auth")
    ∷ ("DB_SSLMODE", text "disable")
    ∷ ("REDIS_HOST", text "localhost")
    ∷ ("REDIS_PORT", text "6379")
    ∷ ("REDIS_PASSWORD", text "")
    ∷ ("REDIS_DB", number 0)
    ∷ ("JWT_ACCESS_TTL", text "15m")
    ∷ ("JWT_REFRESH_TTL", text "168h")
    ∷ ("BRUTE_FORCE_MAX_ATTEMPTS", number 5)
    ∷ ("BRUTE_FORCE_WINDOW", text "15m")
    ∷ ("LOG_LEVEL", text "info")
    ∷ ("CACHE_TTL", text "60s")
    ∷ ("OLLAMA_MODEL", text "llama3.2:1b")
    ∷ ("OLLAMA_TIMEOUT", text "60s")
    ∷ ("LLM_SUMMARY_TTL", text "5m")
    ∷ ("LLM_MAX_ATTEMPTS", number 20)
    ∷ ("LLM_MAX_EVENTS", number 20)
    ∷ []

module _ {W : Type 0} (v : Viper W) where
  -- The Config literal of Load, in the world after the file has been read.
  unfoldable pub read_config : W → Config
  read_config w = record {
    app = record {
      port = v.get_string defaults "APP_PORT" w;
      env = v.get_string defaults "APP_ENV" w;
    };
    db = record {
      host = v.get_string defaults "DB_HOST" w;
      port = v.get_string defaults "DB_PORT" w;
      user = v.get_string defaults "DB_USER" w;
      password = v.get_string defaults "DB_PASSWORD" w;
      name = v.get_string defaults "DB_NAME" w;
      ssl_mode = v.get_string defaults "DB_SSLMODE" w;
    };
    redis = record {
      host = v.get_string defaults "REDIS_HOST" w;
      port = v.get_string defaults "REDIS_PORT" w;
      password = v.get_string defaults "REDIS_PASSWORD" w;
      db = v.get_int defaults "REDIS_DB" w;
    };
    jwt = record {
      secret = v.get_string defaults "JWT_SECRET" w;
      access_ttl = v.get_duration defaults "JWT_ACCESS_TTL" w;
      refresh_ttl = v.get_duration defaults "JWT_REFRESH_TTL" w;
    };
    security = record {
      brute_force_max_attempts = v.get_int defaults "BRUTE_FORCE_MAX_ATTEMPTS" w;
      brute_force_window = v.get_duration defaults "BRUTE_FORCE_WINDOW" w;
    };
    log_level = v.get_string defaults "LOG_LEVEL" w;
    cache_ttl = v.get_duration defaults "CACHE_TTL" w;
    llm = record {
      base_url = v.get_string defaults "OLLAMA_URL" w;
      model = v.get_string defaults "OLLAMA_MODEL" w;
      timeout = v.get_duration defaults "OLLAMA_TIMEOUT" w;
      cf_access_client_id = v.get_string defaults "CF_ACCESS_CLIENT_ID" w;
      cf_access_client_secret = v.get_string defaults "CF_ACCESS_CLIENT_SECRET" w;
      summary_ttl = v.get_duration defaults "LLM_SUMMARY_TTL" w;
      max_attempts = v.get_int defaults "LLM_MAX_ATTEMPTS" w;
      max_events = v.get_int defaults "LLM_MAX_EVENTS" w;
    };
    bootstrap = record {
      admin_email = v.get_string defaults "BOOTSTRAP_ADMIN_EMAIL" w;
      admin_password = v.get_string defaults "BOOTSTRAP_ADMIN_PASSWORD" w;
    };
  }

  -- A file that is not there is no error.
  abbrev pub tolerated : Option ReadError → Exec W String Unit
  tolerated none = pure tt
  tolerated (some not_found) = pure tt
  tolerated (some (unreadable e)) = raise e

  -- `if cfg.JWT.Secret == "" { return nil, errors.New("JWT_SECRET is required") }`
  abbrev pub required : Config → Exec W String Config
  required cfg = if str_eq cfg.jwt.secret "" then raise "JWT_SECRET is required" else pure cfg

  unfoldable pub load : Exec W String Config
  unfolding read_config
  load = do
    failed ← (λ w. (ok (v.read_in_config w).0, (v.read_in_config w).1))
    tolerated failed
    λ w. required (read_config w) w
