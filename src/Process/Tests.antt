-- ===== src/Process/Tests.antt =====
-- The process over the database in memory, with an administrator configured.
use backend_infra_assessment.Base.{
  ◌≡◌, refl, none, ok, err, str_eq, str_eq_iff, ◌==◌, if◌then◌else◌, arith,
}
use backend_infra_assessment.Database.Contract.{
  users_table, tokens_table, attempts_table, audits_table,
}
use backend_infra_assessment.Repository.{user_repository}
use backend_infra_assessment.Repository.Correct.Users.{user_repository-IsUserRepository}
use backend_infra_assessment.Bootstrap.{promote, create_admin, ensure_found, ensure_admin}
use backend_infra_assessment.Bootstrap.Laws.{HasAdmin}
use backend_infra_assessment.Config.{Viper, load, read_config, dsn, addr}
use backend_infra_assessment.Tests.Memory.{
  Memory, db_of, clock_of, memory_gorm, memory_gorm-IsGorm, memory_platform,
  memory_platform-IsPlatform, first_of_rows,
}
use backend_infra_assessment.Tests.Service.{start}
use backend_infra_assessment.Process.Connect.{open_database, redis_options, open_redis}
use backend_infra_assessment.Process.Startup.{
  Environment, App, wired, prepare, with_database, with_config, start_up,
}
use backend_infra_assessment.Process.Laws.{IsEnvironment, start_up-ok}

abbrev viper : Viper Memory
viper = record {
  read_in_config = λ w. (none, w);
  get_string = λ settings key w.
      if str_eq key "BOOTSTRAP_ADMIN_EMAIL"
      then "root@example.com"
      else if str_eq key "BOOTSTRAP_ADMIN_PASSWORD"
      then "root"
      else "value";
  get_int = λ settings key w. 5;
  get_duration = λ settings key w. 900000000000;
}

abbrev environment : Environment Memory (Unit {0}) (Unit {0})
environment = record {
  viper = viper;
  sql = record {
    open_gorm = λ dsn w. (ok tt, w);
    pool_of = λ h w. (ok tt, w);
    set_max_open_conns = λ h n w. (tt, w);
    set_max_idle_conns = λ h n w. (tt, w);
    set_conn_max_lifetime = λ h d w. (tt, w);
  };
  redis = record {
    new_client = λ options w. (tt, w);
    ping = λ c time w. (none, w);
    close = λ c w. (none, w);
  };
  tables = λ h. record {
    users = memory_gorm users_table str_eq;
    tokens = memory_gorm tokens_table str_eq;
    attempts = memory_gorm attempts_table ◌==◌;
    audits = memory_gorm audits_table ◌==◌;
  };
  scripts = λ c. record { run = λ key script ttl w. (ok (script none).0, w) };
  values = λ c. record { get = λ key w. (ok "", w); set = λ key value ttl w. (ok tt, w) };
  platform = memory_platform;
  http = record {
    marshal = λ r. ok r.prompt;
    new_request = λ url. ok tt;
    send = λ time timeout r w. (err "connection refused", w);
    decode = λ s. ok s;
    decimal = λ n. "";
    trim_space = λ s. s;
  };
  codec = record { marshal = λ e. ok e.body; unmarshal = λ raw. err "unexpected end" };
  renderer = record { content_type = "application/json"; user = λ u. u.email; users = λ l. "" };
  to_lower = λ s. s;
  log = λ level t w. w;
  shutdown = λ time w. (none, w);
}

environment-IsEnvironment : IsEnvironment db_of clock_of environment
environment-IsEnvironment = record {
  platform = memory_platform-IsPlatform;
  users = λ h.
      user_repository-IsUserRepository db_of clock_of memory_platform memory_platform-IsPlatform
        (memory_gorm users_table str_eq) (memory_gorm-IsGorm users_table str_eq str_eq_iff);
  log_view = λ level t w. refl;
}

starting : Unit {0}
unfolding load open_database dsn open_redis addr redis_options prepare with_database with_config
    start_up ensure_admin ensure_found create_admin promote user_repository memory_gorm
    first_of_rows memory_platform
starting = tt

abbrev app : App Memory (Unit {0})
app = wired environment (read_config viper start) tt tt

start_works : (start_up environment start).0 ≡ ok app
unfolding starting
start_works = refl

address_given : (app.config.bootstrap.admin_email ≡ "") → ⊥
unfolding wired read_config
address_given e = ground (arith, e, str_eq_iff "root@example.com" "")

password_given : (app.config.bootstrap.admin_password ≡ "") → ⊥
unfolding wired read_config
password_given e = ground (arith, e, str_eq_iff "root" "")

start_up-ok_example :
    (¬ (app.router.service.jwt.secret ≡ ""))
    × HasAdmin app.config.bootstrap.admin_email (db_of (start_up environment start).1)
start_up-ok_example =
    start_up-ok db_of clock_of environment app start environment-IsEnvironment address_given
      password_given start_works
