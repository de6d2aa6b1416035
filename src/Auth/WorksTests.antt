-- ===== src/Auth/WorksTests.antt =====
-- Logins and exchanges that the service over the database in memory grants.
use Prim.Native.String.{◌++◌}
use backend_infra_assessment.Base.{
  none, ◌≡◌, inl, refl, sym, false, str_eq, str_eq_iff, ok, arith, String,
}
use backend_infra_assessment.Domain.{User, RefreshToken}
use backend_infra_assessment.Repository.{
  user_repository, token_repository, login_attempt_repository,
}
use backend_infra_assessment.Jwt.{generate_access_token, generate_refresh_token, claims_for}
use backend_infra_assessment.Auth.{
  TokenPair, register, register_found, create_viewer, login, login_unlocked, login_found, accept,
  reject, record_attempt, issue_tokens, store_pair, refresh,
}
use backend_infra_assessment.Auth.Login.{count_failures}
use backend_infra_assessment.Auth.Steps.{IsWellFormed}
use backend_infra_assessment.Auth.Backends.{DrawsFresh}
use backend_infra_assessment.Auth.Works.{exchanging, login-works, refresh-works}
use backend_infra_assessment.Tests.Service.{service, service-IsBacked, start}
use backend_infra_assessment.Tests.Signing.{signing}
use backend_infra_assessment.Tests.Up.{service-IsUp}
use backend_infra_assessment.Tests.Memory.{Memory, db_of, clock_of, memory_gorm, memory_platform}

running : Unit {0}
unfolding register register_found create_viewer login login_unlocked login_found accept reject
    record_attempt issue_tokens store_pair user_repository token_repository login_attempt_repository
    memory_gorm memory_platform generate_access_token generate_refresh_token claims_for
    count_failures
running = tt

abbrev joined : Memory
joined = (register memory_platform signing service "ann@example.com" "correct horse" start).1

abbrev entered : Memory
entered =
    (login memory_platform signing service "ann@example.com" "correct horse" "10.0.0.1" joined).1

abbrev ann : User
ann = record {
  id = 2;
  email = "ann@example.com";
  password_hash = "bcrypt:correct horse";
  role = "viewer";
  created_at = 1000000000000;
  updated_at = 1000000000000;
}

abbrev ann_token : RefreshToken
ann_token = record {
  id = 8;
  user_id = 2;
  token_hash = "sha256:111";
  expires_at = 605800000000002;
  revoked_at = none;
  created_at = 1000000000003;
}

joined-IsWellFormed : IsWellFormed (db_of joined)
unfolding running
joined-IsWellFormed = record { emails = (tt, tt); hashes = tt }

login-works_example :
    (pair : TokenPair) × ((login memory_platform signing service "ann@example.com" "correct horse"
        "10.0.0.1" joined).0
      ≡ ok pair)
unfolding running
login-works_example =
    login-works db_of clock_of memory_platform signing service service-IsBacked service-IsUp ann
      "correct horse" "10.0.0.1" joined joined-IsWellFormed (inl refl) refl (omega arith)
      (λ token h. tt)

entered-IsWellFormed : IsWellFormed (db_of entered)
unfolding running
entered-IsWellFormed = record { emails = (tt, tt); hashes = (tt, tt) }

unlike :
    (s t token : String)
    → str_eq ("sha256:" ++ s) ("sha256:" ++ t) ≡ false
    → token ≡ t
    → ¬ (("sha256:" ++ s) ≡ ("sha256:" ++ token))
unlike s t token h drawn e =
    ground (arith, h, e, drawn, str_eq_iff ("sha256:" ++ s) ("sha256:" ++ t))

drawn_fresh :
    DrawsFresh db_of clock_of memory_platform signing service service-IsBacked service-IsUp (
      exchanging db_of clock_of memory_platform signing service service-IsBacked service-IsUp
        ann_token
        (service.tokens.find_by_hash "sha256:111" entered).1)
unfolding running
drawn_fresh token h =
    let drawn : token ≡ "11111" = sym (cc h) in (unlike "111" "11111" token refl drawn, tt)

refresh-works_example :
    (pair : TokenPair) × ((refresh memory_platform signing service "111" entered).0 ≡ ok pair)
unfolding running
refresh-works_example =
    refresh-works db_of clock_of memory_platform signing service service-IsBacked service-IsUp "111"
      ann_token ann entered entered-IsWellFormed (inl refl) refl refl (omega arith) (inl refl) refl
      drawn_fresh
