-- ===== src/Http/RouteTests.antt =====
-- The routes over the database in memory, with a limiter that lets everything through.
use Prim.Native.String.{◌++◌}
use backend_infra_assessment.Base.{
  ◌≡◌, refl, Bool, true, none, some, [], ◌∷◌, String, Result, ok, err,
}
use backend_infra_assessment.Domain.{User, role_admin}
use backend_infra_assessment.Jwt.{
  JwtLibrary, Claims, signing_method_hs256, key_func, parse_access_token,
}
use backend_infra_assessment.Repository.{user_repository}
use backend_infra_assessment.Auth.{get_user, list_users}
use backend_infra_assessment.Tests.Memory.{
  Memory, memory_platform, memory_gorm, first_of_rows, tally, untally,
}
use backend_infra_assessment.Tests.Service.{service}
use backend_infra_assessment.Http.{Reply, refusal}
use backend_infra_assessment.Http.Cache.{Answer, miss, response_cache}
use backend_infra_assessment.Http.Guard.{
  Identity, auth, require_role, is_allowed, rate_limit_by_role, quota_for_role, bearer, trim_prefix,
}
use backend_infra_assessment.Http.Handlers.{
  UserResponse, handle_me, handle_list_users, reply, to_user_response,
}
use backend_infra_assessment.Http.Probes.{Backends, readyz, database_check}
use backend_infra_assessment.Http.Routes.{
  Router, admin, route_list_users, users_page, route_list_users-ok,
}

-- A library that knows two tokens, and asks for the key of HS256.
abbrev pub claims_of : String → Claims
claims_of role = record { user_id = "11"; role = role; issued_at = none; expires_at = some 2000 }

abbrev pub keyed : Result String String → Claims → Result String (Claims × Bool)
keyed (ok key) claims = ok (claims, true)
keyed (err e) claims = err e

abbrev pub token_jwt : JwtLibrary
token_jwt = record {
  signed_string = λ m c secret. ok ("jwt:" ++ c.role);
  parse_with_claims = λ now token key. keyed (key signing_method_hs256) (claims_of token);
}

abbrev pub open_router : Router Memory
open_router = record {
  limiter = record { allow = λ key per_minute burst w. ((true, none), w) };
  cache = record { get = λ key w. (ok none, w); set = λ key value ttl w. (err "down", w) };
  codec = record { marshal = λ entry. ok entry.body; unmarshal = λ raw. err "unexpected end" };
  cache_ttl = 60;
  service = service;
  renderer = record {
    content_type = "application/json";
    user = λ u. u.email;
    users = λ l. "users";
  };
}

abbrev root_user : User
root_user = record {
  id = 2;
  email = "root@example.com";
  password_hash = "bcrypt:root";
  role = "admin";
  created_at = 0;
  updated_at = 0;
}

abbrev world : Memory
world = record {
  db = record { users = root_user ∷ []; tokens = []; attempts = []; audits = [] };
  clock = 1000000000000;
  next = 1;
}

abbrev root : Identity
root = record { user_id = 2; role = "admin" }

-- Everything that a request computes with.
routing : Unit {0}
unfolding auth require_role is_allowed rate_limit_by_role quota_for_role admin route_list_users
    users_page handle_list_users handle_me get_user list_users response_cache user_repository
    memory_gorm first_of_rows memory_platform tally untally parse_access_token key_func
routing = tt

admitted : (admin memory_platform token_jwt open_router "Bearer admin" world).0 ≡ ok root
unfolding routing
admitted = refl

turned_away :
    (admin memory_platform token_jwt open_router "Bearer viewer" world).0
    ≡ err (refusal 403 "FORBIDDEN" "insufficient permissions")
unfolding routing
turned_away = refl

listed :
    (route_list_users memory_platform token_jwt open_router "Bearer admin" world).0
    ≡ ok (record {
      mark = some miss;
      result = ok (record { status = 200; content_type = "application/json"; body = "users" });
    })
unfolding routing
listed = refl

authenticated : (auth memory_platform token_jwt service.jwt "Bearer admin" world).0 ≡ ok root
unfolding routing
authenticated = refl

abbrev list_answer : Answer
list_answer = record {
  mark = some miss;
  result = ok (record { status = 200; content_type = "application/json"; body = "users" });
}

route_list_users-ok_example :
    (claims : Claims) × ((parse_access_token memory_platform token_jwt open_router.service.jwt
        (trim_prefix "Bearer admin" bearer)
        world).0
      ≡ ok claims)
    × (claims.role ≡ role_admin)
route_list_users-ok_example =
    route_list_users-ok memory_platform token_jwt open_router "Bearer admin" list_answer world
      listed

abbrev me_answer : Reply UserResponse
me_answer = reply 200 (to_user_response memory_platform token_jwt service root_user)

me_works : (handle_me memory_platform token_jwt service root world).0 ≡ ok me_answer
unfolding routing
me_works = refl

-- PostgreSQL answers, and Redis does not.
abbrev half_up : Backends Memory
half_up = record {
  database_handle = λ w. (ok tt, w);
  ping_database = λ w. (ok tt, w);
  ping_redis = λ w. (err "dial tcp: connection refused", w);
}

not_ready : (readyz half_up world).0.status ≡ 503
unfolding readyz database_check
not_ready = refl
