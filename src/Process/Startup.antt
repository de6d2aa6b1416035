-- ===== src/Process/Startup.antt =====
-- cmd/api/main.go: how the process starts, and with what it ends.
use backend_infra_assessment.Base.{
  ℕ, String, Option, none, some, List, append, Result, ok, err, Exec, always, pure, raise, ◌>>=◌,
  ◌>>◌,
}
use backend_infra_assessment.Domain.{
  User, RefreshToken, LoginAttempt, AuditEvent, UserRepository, AuditEventRepository,
}
use backend_infra_assessment.Database.{Gorm, Platform}
use backend_infra_assessment.Repository.{
  user_repository, token_repository, login_attempt_repository, audit_event_repository,
}
use backend_infra_assessment.Jwt.{JwtService}
use backend_infra_assessment.Auth.{AuthService}
use backend_infra_assessment.Bootstrap.{
  Outcome, skipped, created, promoted, already_admin, ensure_admin,
}
use backend_infra_assessment.Config.{Config, JwtConfig, Viper, load, dsn}
use backend_infra_assessment.Limiter.{Redis, redis_limiter}
use backend_infra_assessment.Llm.{HttpLibrary, OllamaConfig, new_client}
use backend_infra_assessment.Http.Cache.{RedisClient, redis_cache, EntryCodec}
use backend_infra_assessment.Http.RequestLog.{Level}
use backend_infra_assessment.Http.Routes.{Router, Renderer}
use backend_infra_assessment.Threat.{ThreatService}
use backend_infra_assessment.Process.Connect.{
  SqlLibrary, RedisLibrary, open_database, open_redis, level_of,
}
use backend_infra_assessment.Process.Server.{
  Server, new_server, Event, Ended, failed, shut_down, run,
}

-- The four tables behind a handle.
pub record Tables (W : Type 0) : Type 0 where
  pub users : Gorm W User
  pub tokens : Gorm W RefreshToken
  pub attempts : Gorm W LoginAttempt
  pub audits : Gorm W AuditEvent

-- What the process finds outside the program: handles `H` of the database and clients `C` of Redis.
pub record Environment (W H C : Type 0) : Type 0 where
  pub viper : Viper W
  pub sql : SqlLibrary W H
  pub redis : RedisLibrary W C
  pub tables : H → Tables W
  pub scripts : C → Redis W
  pub values : C → RedisClient W
  pub platform : Platform W
  pub http : HttpLibrary W
  pub codec : EntryCodec
  pub renderer : Renderer
  pub to_lower : String → String
  -- log.Error, log.Info and log.Warn, under the level of the logger
  pub log : Level → String → W → W
  -- http.Server.Shutdown
  pub shutdown : ℕ → W → Option String × W

-- How the process ends. os.Exit runs no deferred call.
pub data Exit : Type 0 where
  panicked : String → Exit
  exited : ℕ → Exit
  returned : Exit

-- What main has built once it calls Run.
pub record App (W C : Type 0) : Type 0 where
  pub config : Config
  pub client : C
  pub router : Router W
  pub audits : AuditEventRepository W
  pub threats : ThreatService W
  pub server : Server (Router W)

-- NewJWTService
abbrev pub new_jwt_service : JwtConfig → JwtService
new_jwt_service cfg = record {
  secret = cfg.secret;
  access_ttl = cfg.access_ttl;
  refresh_ttl = cfg.refresh_ttl;
}

module _ {W H C : Type 0} (env : Environment W H C) where
  abbrev pub log_of : Config → String → W → W
  log_of cfg = env.log (level_of env.to_lower cfg.log_level)

  -- `if err != nil { panic("failed to load config: " + err.Error()) }`
  abbrev pub or_panic : Result String Config → Exec W Exit Config
  or_panic (ok cfg) = pure cfg
  or_panic (err e) = raise (panicked (append "failed to load config: " e))

  -- `if err != nil { log.Error(text, "error", err); os.Exit(1) }`
  abbrev pub or_exit : {E A : Type 0} → (String → W → W) → String → Result E A → Exec W Exit A
  or_exit log text (ok a) w = (ok a, w)
  or_exit log text (err e) w = (err (exited 1), log text w)

  -- A call whose error the code looks at itself.
  abbrev pub outcome_of : {E A : Type 0} → Exec W E A → Exec W Exit (Result E A)
  outcome_of m w = (ok (m w).0, (m w).1)

  -- `if out != bootstrap.OutcomeSkipped { log.Info("admin bootstrap", ...) }`
  abbrev pub announce : (String → W → W) → Outcome → W → Unit {0} × W
  announce log skipped w = (tt, w)
  announce log created w = (tt, log "admin bootstrap" w)
  announce log promoted w = (tt, log "admin bootstrap" w)
  announce log already_admin w = (tt, log "admin bootstrap" w)

  abbrev pub users_of : H → UserRepository W
  users_of db = user_repository env.platform (env.tables db).users

  abbrev ollama_config : Config → OllamaConfig
  ollama_config cfg = record {
    base_url = cfg.llm.base_url;
    model = cfg.llm.model;
    timeout = cfg.llm.timeout;
    cf_access_client_id = cfg.llm.cf_access_client_id;
    cf_access_client_secret = cfg.llm.cf_access_client_secret;
  }

  -- The services, the handlers and the router.
  unfoldable pub wired : Config → H → C → App W C
  wired cfg db client =
      let attempts = login_attempt_repository env.platform (env.tables db).attempts in
      let audits = audit_event_repository env.platform (env.tables db).audits in
      let service : AuthService W = record {
        users = users_of db;
        tokens = token_repository env.platform (env.tables db).tokens;
        attempts = attempts;
        jwt = new_jwt_service cfg.jwt;
        security = cfg.security;
      } in
      let cache = redis_cache (env.values client) in
      let router : Router W = record {
        limiter = redis_limiter env.platform (env.scripts client);
        cache = cache;
        codec = env.codec;
        cache_ttl = cfg.cache_ttl;
        service = service;
        renderer = env.renderer;
      } in
      record {
        config = cfg;
        client = client;
        router = router;
        audits = audits;
        threats = record {
          users = users_of db;
          attempts = attempts;
          audits = audits;
          llm = new_client env.http (ollama_config cfg);
          cache = cache;
          cfg = record {
            model = cfg.llm.model;
            timeout = cfg.llm.timeout;
            summary_ttl = cfg.llm.summary_ttl;
            max_attempts = cfg.llm.max_attempts;
            max_events = cfg.llm.max_events;
          };
        };
        server = new_server cfg.app.port router;
      }

  -- main up to the administrator, from the connections on.
  unfoldable pub prepare : Config → H → C → Exec W Exit (App W C)
  unfolding wired
  prepare cfg db client = do
    ensured ← outcome_of (
        ensure_admin env.platform (users_of db) cfg.bootstrap.admin_email
          cfg.bootstrap.admin_password)
    outcome ← or_exit (log_of cfg) "admin bootstrap failed" ensured
    always (announce (log_of cfg) outcome)
    pure (wired cfg db client)

  -- main once Redis is to be opened, and once the database is.
  unfoldable pub with_database : Config → H → Exec W Exit (App W C)
  unfolding prepare
  with_database cfg db = do
    connected ← outcome_of (open_redis env.redis cfg.redis)
    client ← or_exit (log_of cfg) "failed to connect to redis" connected
    prepare cfg db client

  unfoldable pub with_config : Config → Exec W Exit (App W C)
  unfolding with_database
  with_config cfg = do
    opened ← outcome_of (open_database env.sql (dsn cfg.db))
    db ← or_exit (log_of cfg) "failed to connect to database" opened
    with_database cfg db

  unfoldable pub start_up : Exec W Exit (App W C)
  unfolding with_config
  start_up = do loaded ← outcome_of (load env.viper); cfg ← or_panic loaded; with_config cfg

  -- The deferred call, which logs an error of Close.
  abbrev closed : (String → W → W) → Option String × W → W
  closed log (none, w) = w
  closed log (some e, w) = log "redis close failed" w

  -- What main makes of the error of Run.
  abbrev finish : App W C → Option String → W → Exit × W
  finish app none w = (returned, closed (log_of app.config) (env.redis.close app.client w))
  finish app (some e) w = (exited 1, log_of app.config "server error" w)

  -- `return err`, or `return s.httpServer.Shutdown(shutdownCtx)`
  abbrev run_error : Ended → W → Option String × W
  run_error (failed e) w = (some e, w)
  run_error (shut_down time) w = env.shutdown time w

  abbrev pub ended : App W C → Option Ended → W → Option Exit × W
  ended app none w = (none, w)
  ended app (some e) w =
      let (failure, w') = run_error e w in
      let (exit, w'') = finish app failure w' in (some exit, w'')

  abbrev pub served : (App W C → W → W) → List Event → Result Exit (App W C) × W → Option Exit × W
  served serve events (err exit, w) = (some exit, w)
  served serve events (ok app, w) = ended app (run events) (serve app w)

  -- main, with what the requests do while it serves, and the events that Run waits for. Nothing is
  -- returned while the process still runs.
  unfoldable pub main : (App W C → W → W) → List Event → W → Option Exit × W
  main serve events w = served serve events (start_up w)
