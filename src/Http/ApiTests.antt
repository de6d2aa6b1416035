-- ===== src/Http/ApiTests.antt =====
-- The whole interface over the world in memory, and a request without a token.
use backend_infra_assessment.Base.{
  ◌≡◌, ◌⊎◌, inl, refl, none, some, err, ok, ◌∷◌, is_ok, false, arith,
}
use backend_infra_assessment.Domain.{AuditEvent}
use backend_infra_assessment.Http.{Refusal, refusal}
use backend_infra_assessment.Http.Audit.{Request, Response, build_audit_event, actor_of}
use backend_infra_assessment.Http.Api.{Api, Input, handle, matched, serve}
use backend_infra_assessment.Http.Api.Refused.{handle-refused}
use backend_infra_assessment.Http.Engine.{Audited, entered, id_of}
use backend_infra_assessment.Http.EngineTests.{
  audit_rows, audit_rows-IsAuditRepository, quiet, quiet-IsLogger,
}
use backend_infra_assessment.Http.Api.Admin.{handle-admin}
use backend_infra_assessment.Http.Guard.{
  Identity, auth, require_role, is_allowed, rate_limit_by_role, quota_for_role,
}
use backend_infra_assessment.Http.RequestLog.{request_id_for}
use backend_infra_assessment.Http.Routes.{admin}
use backend_infra_assessment.Jwt.{parse_access_token, key_func}
use backend_infra_assessment.Domain.{role_admin}
use backend_infra_assessment.Http.Probes.{lists_users, routes}
use backend_infra_assessment.Http.RouteTests.{open_router, token_jwt}
use backend_infra_assessment.Tests.Memory.{
  Memory, db_of, clock_of, memory_platform, memory_platform-IsPlatform, tally,
}
use backend_infra_assessment.Tests.Service.{service, start}

abbrev api : Api Memory
api = record {
  env = "production";
  router = open_router;
  threats = record {
    users = service.users;
    attempts = service.attempts;
    audits = audit_rows;
    llm = record { generate = λ timeout prompt w. (ok "quiet", w) };
    cache = record { get = λ key w. (ok none, w); set = λ key value ttl w. (ok tt, w) };
    cfg = record {
      model = "llama";
      timeout = 60;
      summary_ttl = 300;
      max_attempts = 50;
      max_events = 50;
    };
  };
  format = record { decimal = tally; rfc3339 = tally; trim_space = λ s. s };
  codec = record { marshal = λ s. err "unsupported"; unmarshal = λ raw. err "unexpected end" };
  backends = record {
    database_handle = λ w. (ok tt, w);
    ping_database = λ w. (ok tt, w);
    ping_redis = λ w. (ok tt, w);
  };
  audits = audit_rows;
  log = quiet;
  documents_page = λ w. (200, w);
  size = λ w. 0;
  panics = λ e c w. none;
}

abbrev list_request : Request
list_request = record {
  method = "GET";
  full_path = "/admin/users";
  url_path = "/admin/users";
  raw_query = "";
  client_ip = "10.0.0.7";
  user_agent = "curl";
  request_id = "r-1";
}

-- No header, and no body.
abbrev anonymous : Input
anonymous = record {
  authorization = "";
  registration = err "EOF";
  credentials = err "EOF";
  session = err "EOF";
  leave = err "EOF";
  id = "";
}

abbrev no_token : Refusal
no_token = refusal 401 "UNAUTHORIZED" "missing or malformed Authorization header"

found : matched (routes api.env) "GET" "/admin/users" ≡ some lists_users
unfolding matched routes
found = refl

refused :
    (auth memory_platform token_jwt open_router.service.jwt ""
      (entered memory_platform quiet audit_rows list_request start)).0
    ≡ err no_token
unfolding auth
refused = refl

handle-refused_example :
    let after = handle memory_platform token_jwt api list_request anonymous start in
    (r : Response) × (after.0 ≡ inl r)
    × (r.status ≡ 401)
    × (((event : AuditEvent) × (db_of after.1
            ≡ record (db_of start) { audits = event ∷ (db_of start).audits })
          × (event.status_code ≡ 401)
          × (event.actor_id ≡ none)
          × (event.path ≡ "/admin/users"))
        ⊎ ((is_ok
                (audit_rows.create
                  (build_audit_event list_request
                    (id_of db_of clock_of memory_platform quiet audit_rows list_request start)
                    r)
                  (auth memory_platform token_jwt open_router.service.jwt ""
                    (entered memory_platform quiet audit_rows list_request start)).1).0
              ≡ false)
            × (db_of after.1 ≡ db_of start)))
handle-refused_example =
    handle-refused memory_platform token_jwt api db_of clock_of list_request anonymous lists_users
      no_token start memory_platform-IsPlatform quiet-IsLogger audit_rows-IsAuditRepository found
      refl refused

-- The administrator lists the users.
abbrev with_token : Input
with_token = record anonymous { authorization = "Bearer admin" }

abbrev root : Identity
root = record { user_id = 2; role = "admin" }

let_through :
    (admin memory_platform token_jwt open_router "Bearer admin"
      (entered memory_platform quiet audit_rows list_request start)).0
    ≡ ok root
unfolding admin auth require_role is_allowed rate_limit_by_role quota_for_role parse_access_token
    key_func memory_platform entered request_id_for
let_through = refl

handle-admin_example :
    let after = handle memory_platform token_jwt api list_request with_token start in
    (r : Response) × (after.0 ≡ inl r)
    × (actor_of r.identity ≡ some 2)
    × (root.role ≡ role_admin)
    × Audited db_of clock_of memory_platform quiet audit_rows list_request
        (id_of db_of clock_of memory_platform quiet audit_rows list_request start)
        r
        (serve memory_platform token_jwt api
          (some lists_users)
          "10.0.0.7"
          with_token
          (entered memory_platform quiet audit_rows list_request start)).1
        after.1
handle-admin_example =
    handle-admin memory_platform token_jwt api db_of clock_of list_request with_token lists_users
      root start memory_platform-IsPlatform quiet-IsLogger audit_rows-IsAuditRepository found refl
      let_through (omega arith) refl
