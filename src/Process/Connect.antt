-- ===== src/Process/Connect.antt =====
-- pkg/database/database.go, pkg/redis/redis.go and pkg/logger/logger.go.
use backend_infra_assessment.Base.{
  ℕ, ◌*◌, String, Option, none, some, ok, err, Exec, always, pure, ◌>>=◌, ◌>>◌, append, str_eq,
  if◌then◌else◌,
}
use backend_infra_assessment.Domain.{Duration}
use backend_infra_assessment.Config.{RedisConfig, addr}
use backend_infra_assessment.Http.RequestLog.{
  Level, level_debug, level_info, level_warn, level_error,
}

abbrev millisecond : Duration
millisecond = 1000000

abbrev pub second : Duration
second = 1000000000

-- gorm.Open over the PostgreSQL driver, and the pool of database/sql behind a handle.
pub record SqlLibrary (W H : Type 0) : Type 0 where
  pub open_gorm : String → Exec W String H
  -- db.DB()
  pub pool_of : H → Exec W String Unit
  pub set_max_open_conns : H → ℕ → W → Unit {0} × W
  pub set_max_idle_conns : H → ℕ → W → Unit {0} × W
  pub set_conn_max_lifetime : H → Duration → W → Unit {0} × W

unfoldable pub open_database : {W H : Type 0} → SqlLibrary W H → String → Exec W String H
open_database sql dsn = do
  db ← sql.open_gorm dsn
  sql.pool_of db
  always (sql.set_max_open_conns db 25)
  always (sql.set_max_idle_conns db 5)
  always (sql.set_conn_max_lifetime db (300 * second))
  pure db

-- redis.Options, as far as the code sets them.
pub record RedisOptions : Type 0 where
  pub addr : String
  pub password : String
  pub db : ℕ
  pub dial_timeout : Duration
  pub read_timeout : Duration
  pub write_timeout : Duration
  pub pool_size : ℕ
  pub min_idle_conns : ℕ

-- go-redis: a client is made at once, and PING under a timeout says whether it can be used.
pub record RedisLibrary (W C : Type 0) : Type 0 where
  pub new_client : RedisOptions → W → C × W
  pub ping : C → Duration → W → Option String × W
  pub close : C → W → Option String × W

unfoldable pub redis_options : RedisConfig → RedisOptions
redis_options cfg = record {
  addr = addr cfg;
  password = cfg.password;
  db = cfg.db;
  dial_timeout = 3 * second;
  read_timeout = 500 * millisecond;
  write_timeout = 500 * millisecond;
  pool_size = 20;
  min_idle_conns = 2;
}

module _ {W C : Type 0} (lib : RedisLibrary W C) where
  -- `if err := client.Ping(pingCtx).Err(); err != nil { _ = client.Close(); return nil, ... }`
  abbrev pinged : C → Option String → Exec W String C
  pinged client none w = (ok client, w)
  pinged client (some e) w = (err (append "redis ping: " e), (lib.close client w).1)

  unfoldable pub open_redis : RedisConfig → Exec W String C
  unfolding redis_options
  open_redis cfg = do
    client ← always (lib.new_client (redis_options cfg))
    failed ← always (lib.ping client (3 * second))
    pinged client failed

-- logger.New, with strings.ToLower as a parameter: the level of an unknown name is Info.
unfoldable pub level_of : (String → String) → String → Level
level_of to_lower level =
    if str_eq (to_lower level) "debug"
    then level_debug
    else if str_eq (to_lower level) "warn"
    then level_warn
    else if str_eq (to_lower level) "error"
    then level_error
    else level_info
