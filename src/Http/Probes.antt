-- ===== src/Http/Probes.antt =====
-- internal/router/router.go: /livez, /readyz, the routes without guards, and the table of routes. The
-- pings of Gorm and go-redis are parameters.
use backend_infra_assessment.Base.{
  ◌≡◌, ◌↔◌, inl, inr, String, Bool, true, false, List, [], ◌∷◌, ◌++◌, Result, ok, err, is_ok, Exec,
  str_eq, ◌&&◌, not, if◌then◌else◌, Result-cases, arith,
}
use backend_infra_assessment.Database.{Platform}
use backend_infra_assessment.Jwt.{JwtLibrary}
use backend_infra_assessment.Http.{Reply, Served}
use backend_infra_assessment.Http.Handlers.{
  RegisterRequest, RefreshRequest, UserResponse, TokenResponse, handle_register, handle_refresh,
  reply,
}
use backend_infra_assessment.Http.Routes.{Router}

-- db.DB(), sqlDB.PingContext and rdb.Ping.
pub record Backends (W : Type 0) : Type 0 where
  pub database_handle : Exec W String Unit
  pub ping_database : Exec W String Unit
  pub ping_redis : Exec W String Unit

pub record Readiness : Type 0 where
  pub ready : Bool
  pub database : String
  pub redis : String

-- GET /livez
abbrev pub livez : {W : Type 0} → W → Reply String × W
livez w = (reply 200 "ok", w)

-- The text of a check.
abbrev check_text : Result String Unit → String
check_text (ok u) = "ok"
check_text (err e) = e

module _ {W : Type 0} (back : Backends W) where
  -- The first check: a handle, and a ping of it.
  abbrev database_pinged : Result String Unit × W → Result String Unit × W
  database_pinged (ok u, w) = back.ping_database w
  database_pinged (err e, w) = (err e, w)

  unfoldable pub database_check : Exec W String Unit
  database_check w = database_pinged (back.database_handle w)

  -- GET /readyz
  unfoldable pub readyz : W → Reply Readiness × W
  unfolding database_check
  readyz w =
      let (database, w1) = database_check w in
      let (redis, w2) = back.ping_redis w1 in
      let ready = is_ok database && is_ok redis in
      (
        reply (if not ready then 503 else 200)
            (record { ready = ready; database = check_text database; redis = check_text redis }),
        w2,
      )

  -- A pod is ready, with status 200, just when the database gives a handle and both backends answer
  -- the ping; Redis is asked in either case, and any other outcome has status 503.
  pub readyz-ready :
      (w : W)
      → let database = database_check w in
        let answer = (readyz w).0 in
        ((answer.status ≡ 200) ↔ (
          (is_ok (back.database_handle w).0 ≡ true)
          × (is_ok (back.ping_database (back.database_handle w).1).0 ≡ true)
          × (is_ok (back.ping_redis database.1).0 ≡ true)))
        × ((answer.payload.ready ≡ false) ↔ (answer.status ≡ 503))
        × ((readyz w).1 ≡ (back.ping_redis database.1).1)
  unfolding readyz
  readyz-ready w =
      let (_, w1) = back.database_handle w in
      elim (Result-cases (back.database_handle w).0) [
        | inr (x, e) ↦ ground (arith, e)
        | inl (u, e) ↦ elim (Result-cases (back.ping_database w1).0) [
          | inr (x, f) ↦ ground (arith, e, f)
          | inl (v, f) ↦ elim (Result-cases (back.ping_redis (back.ping_database w1).1).0) [
            | inr (x, g) ↦ ground (arith, e, f, g)
            | inl (z, g) ↦ ground (arith, e, f, g)
          ]
        ]
      ]

module _ {W : Type 0} (p : Platform W) (lib : JwtLibrary) (r : Router W) where
  -- POST /auth/register
  abbrev pub route_register : Result String RegisterRequest → Served W (Reply UserResponse)
  route_register body = handle_register p lib r.service body

  -- POST /auth/refresh
  abbrev pub route_refresh : Result String RefreshRequest → Served W (Reply TokenResponse)
  route_refresh body = handle_refresh p lib r.service body

-- The handlers by the routes that New registers.
pub data Endpoint : Type 0 where
  probes_life : Endpoint
  probes_readiness : Endpoint
  registers : Endpoint
  logs_in : Endpoint
  refreshes : Endpoint
  logs_out : Endpoint
  shows_caller : Endpoint
  shows_documents : Endpoint
  lists_users : Endpoint
  summarizes : Endpoint

pub record Route : Type 0 where
  pub method : String
  pub pattern : String
  pub endpoint : Endpoint

abbrev route : String → String → Endpoint → Route
route method pattern endpoint = record { method = method; pattern = pattern; endpoint = endpoint }

-- `if cfg.App.Env != "production" { r.GET("/swagger/*any", ...) }`
abbrev documents : String → List Route
documents env =
    if str_eq env "production" then [] else route "GET" "/swagger/*any" shows_documents ∷ []

-- The routes of an environment, in the order in which New registers them.
unfoldable pub routes : String → List Route
routes env =
    (route "GET" "/livez" probes_life
      ∷ route "GET" "/readyz" probes_readiness
      ∷ route "POST" "/auth/register" registers
      ∷ route "POST" "/auth/login" logs_in
      ∷ route "POST" "/auth/refresh" refreshes
      ∷ route "POST" "/auth/logout" logs_out
      ∷ route "GET" "/auth/me" shows_caller
      ∷ [])
    ++ (documents env
        ++ (route "GET" "/admin/users" lists_users
            ∷ route "GET" "/admin/users/:id/threat-summary" summarizes
            ∷ []))
