-- ===== src/Process/Laws.antt =====
-- What holds once cmd/api/main.go serves, and how it ends.
use backend_infra_assessment.Base.{
  ◌≡◌, inl, inr, refl, sym, ap, subst, ◌∙◌, String, Result, ok, Result-cases, Exec, ◌>>=◌,
}
use backend_infra_assessment.Domain.{Time, Error}
use backend_infra_assessment.Database.Contract.{Db, IsPlatform}
use backend_infra_assessment.Repository.Contract.{IsUserRepository}
use backend_infra_assessment.Bootstrap.{
  Outcome, skipped, created, promoted, already_admin, ensure_admin,
}
use backend_infra_assessment.Bootstrap.Laws.{HasAdmin, ensure_admin-ok}
use backend_infra_assessment.Config.{Config, load, dsn}
use backend_infra_assessment.Config.Laws.{load-ok}
use backend_infra_assessment.Http.RequestLog.{Level}
use backend_infra_assessment.Process.Connect.{open_database, open_redis}
use backend_infra_assessment.Process.Startup.{
  Environment, Exit, App, users_of, announce, log_of, wired, prepare, start_up, outcome_of, or_exit,
  with_config, with_database,
}

-- The database behind a handle behaves as documented, and logging does not touch it.
pub record IsEnvironment {W H C : Type 0} (view : W → Db) (clock : W → Time)
    (env : Environment W H C) : Type 0 where
  pub platform : IsPlatform view clock env.platform
  pub users : (db : H) → IsUserRepository view clock (users_of env db)
  pub log_view : (l : Level) (t : String) (w : W) → view (env.log l t w) ≡ view w

module _ {W H C : Type 0} (view : W → Db) (clock : W → Time) (env : Environment W H C) where
  announce_view :
      (cfg : Config) (outcome : Outcome) (w : W)
      → IsEnvironment view clock env
      → view (announce env (log_of env cfg) outcome w).1 ≡ view w
  announce_view cfg skipped w b = refl
  announce_view cfg created w b = b.log_view _ _ w
  announce_view cfg promoted w b = b.log_view _ _ w
  announce_view cfg already_admin w b = b.log_view _ _ w

  -- A step whose error ends the process has succeeded, if the start has.
  or_exit_ok :
      {E A : Type 0} (m : Exec W E A) (log : String → W → W) (text : String)
      (k : A → Exec W Exit (App W C)) (app : App W C) (w : W)
      → ((outcome_of env m >>= λ r. or_exit env log text r >>= k) w).0 ≡ ok app
      → (a : A) × ((m w).0 ≡ ok a)
        × ((outcome_of env m >>= λ r. or_exit env log text r >>= k) w ≡ k a (m w).1)
  or_exit_ok m log text k app w h = elim (Result-cases (m w).0) [
    | inl (a, e) ↦ (a, e, rw e refl)
    | inr (x, e) ↦ cc (rw e at h)
  ]

  prepare_ok :
      (cfg : Config) (db : H) (client : C) (app : App W C) (w : W)
      → (prepare env cfg db client w).0 ≡ ok app
      → (outcome : Outcome) × (w' : W) × (ensure_admin env.platform
            (users_of env db)
            cfg.bootstrap.admin_email
            cfg.bootstrap.admin_password
            w
          ≡ (ok outcome, w'))
        × ((prepare env cfg db client w).1 ≡ (announce env (log_of env cfg) outcome w').1)
        × (app ≡ wired env cfg db client)
  unfolding prepare
  prepare_ok cfg db client app w h =
      let ensure =
        ensure_admin env.platform (users_of env db) cfg.bootstrap.admin_email
          cfg.bootstrap.admin_password in
      elim (Result-cases (ensure w).0) [
        | inr (x, e) ↦ cc (rw e at h)
        | inl (outcome, e) ↦ (outcome, (ensure w).1, rw (← e) refl, rw e refl, sym (cc (rw e at h)))
      ]

  with_config_ok :
      (cfg : Config) (app : App W C) (w : W)
      → (with_config env cfg w).0 ≡ ok app
      → (db : H) × (w' : W) × (with_config env cfg w ≡ with_database env cfg db w')
  unfolding with_config
  with_config_ok cfg app w h =
      let (db, _, g) =
        or_exit_ok (open_database env.sql (dsn cfg.db)) (log_of env cfg)
          "failed to connect to database" (with_database env cfg) app w h in
      (db, (open_database env.sql (dsn cfg.db) w).1, g)

  with_database_ok :
      (cfg : Config) (db : H) (app : App W C) (w : W)
      → (with_database env cfg db w).0 ≡ ok app
      → (client : C) × (w' : W) × (with_database env cfg db w ≡ prepare env cfg db client w')
  unfolding with_database
  with_database_ok cfg db app w h =
      let (client, _, g) =
        or_exit_ok (open_redis env.redis cfg.redis) (log_of env cfg) "failed to connect to redis"
          (prepare env cfg db) app w h in
      (client, (open_redis env.redis cfg.redis w).1, g)

  -- A start that gets to serve has read a configuration, opened both connections and gone on to the
  -- administrator.
  start_up_cases :
      (app : App W C) (w : W)
      → (start_up env w).0 ≡ ok app
      → (cfg : Config) × (db : H) × (client : C) × (w' : W) × ((load env.viper w).0 ≡ ok cfg)
        × ((prepare env cfg db client w').0 ≡ ok app)
        × (start_up env w ≡ prepare env cfg db client w')
  unfolding start_up
  start_up_cases app w h = elim (Result-cases (load env.viper w).0) [
    | inr (x, e) ↦ cc (rw e at h)
    | inl (cfg, e) ↦
        let h1 : (with_config env cfg (load env.viper w).1).0 ≡ ok app = rw e at h in
        let (db, w2, f) = with_config_ok cfg app (load env.viper w).1 h1 in
        let h2 : (with_database env cfg db w2).0 ≡ ok app = rw f at h1 in
        let (client, w3, g) = with_database_ok cfg db app w2 h2 in
        (cfg, db, client, w3, e, rw g at h2, rw (e, f, g) refl)
  ]

  -- Once main serves, with a configured administrator: there is a secret, and a user of the configured
  -- address is an administrator.
  pub start_up-ok :
      (app : App W C) (w : W)
      → IsEnvironment view clock env
      → ¬ (app.config.bootstrap.admin_email ≡ "")
      → ¬ (app.config.bootstrap.admin_password ≡ "")
      → (start_up env w).0 ≡ ok app
      → (¬ (app.router.service.jwt.secret ≡ ""))
        × HasAdmin app.config.bootstrap.admin_email (view (start_up env w).1)
  unfolding wired
  start_up-ok app w b m k h =
      let (cfg, db, client, w', e, f, same) = start_up_cases app w h in
      let (outcome, w'', g, world, built) = prepare_ok cfg db client app w' f in
      let (secret, _, _, _) = load-ok env.viper cfg w e in
      let named : app.config ≡ cfg = ap (λ (a : App W C). a.config) built in
      let there =
        ensure_admin-ok view clock env.platform (users_of env db) cfg.bootstrap.admin_email
          cfg.bootstrap.admin_password outcome w' b.platform (b.users db)
          (subst (λ (c : Config). ¬ (c.bootstrap.admin_email ≡ "")) named m)
          (subst (λ (c : Config). ¬ (c.bootstrap.admin_password ≡ "")) named k)
          (ap (λ (r : Result Error Outcome × W). r.0) g) in
      let quiet = announce_view cfg outcome w'' b in
      let after : view (start_up env w).1 ≡ view w'' =
        ap (λ (r : Result Exit (App W C) × W). view r.1) same ∙ ap view world ∙ quiet in
      let ensured : view
            (ensure_admin env.platform (users_of env db) cfg.bootstrap.admin_email
              cfg.bootstrap.admin_password w').1
          ≡ view w'' =
        ap (λ (r : Result Error Outcome × W). view r.1) g in
      (
        subst (λ (a : App W C). ¬ (a.router.service.jwt.secret ≡ "")) (sym built) secret,
        subst (λ (c : Config). HasAdmin c.bootstrap.admin_email (view (start_up env w).1))
            (sym named) (subst (HasAdmin cfg.bootstrap.admin_email) (ensured ∙ sym after) there),
      )
