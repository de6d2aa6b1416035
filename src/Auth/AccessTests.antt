-- ===== src/Auth/AccessTests.antt =====
-- The access tokens of the service over the database in memory.
use backend_infra_assessment.Base.{◌≡◌, String, some, ok, err, Has, arith, refl, append}
use backend_infra_assessment.Domain.{User, Uuid}
use backend_infra_assessment.Repository.{
  user_repository, token_repository, login_attempt_repository,
}
use backend_infra_assessment.Jwt.{
  Claims, generate_access_token, generate_refresh_token, claims_for, signing_method_hs256,
  other_method,
}
use backend_infra_assessment.Auth.{
  TokenPair, register, register_found, create_viewer, login, login_unlocked, login_found, accept,
  reject, record_attempt, issue_tokens, store_pair,
}
use backend_infra_assessment.Auth.Access.{Accepts, login-authenticates, auth-expired, auth-foreign}
use backend_infra_assessment.Http.{refusal}
use backend_infra_assessment.Http.Guard.{auth, bearer}
use backend_infra_assessment.Tests.Service.{service, service-IsBacked, start}
use backend_infra_assessment.Tests.Signing.{signing, signing-IsJwtLibrary, signed_text}
use backend_infra_assessment.Tests.Memory.{
  Memory, db_of, clock_of, memory_gorm, memory_platform, untally-tally,
}

running : Unit {0}
unfolding register register_found create_viewer login login_unlocked login_found accept reject
    record_attempt issue_tokens store_pair user_repository token_repository login_attempt_repository
    memory_gorm memory_platform generate_access_token generate_refresh_token
running = tt

abbrev joined : Memory
joined = (register memory_platform signing service "ann@example.com" "correct horse" start).1

abbrev entered : Memory
entered =
    (login memory_platform signing service "ann@example.com" "correct horse" "10.0.0.1" joined).1

abbrev ann_claims : Claims
ann_claims = record {
  user_id = "11";
  role = "viewer";
  issued_at = some 1000;
  expires_at = some 1900;
}

abbrev ann_access : String
ann_access = signed_text signing_method_hs256 ann_claims "secret"

abbrev ann_pair : TokenPair
ann_pair = record { access_token = ann_access; refresh_token = "111" }

login_works :
    (login memory_platform signing service "ann@example.com" "correct horse" "10.0.0.1" joined).0
    ≡ ok ann_pair
unfolding running claims_for
login_works = refl

uuid_text : (u : Uuid) → memory_platform.uuid_parse (memory_platform.uuid_string u) ≡ some u
unfolding memory_platform
uuid_text u = rw (untally-tally u) refl

login-authenticates_example :
    (user : User) × Has user (db_of joined).users
    × (user.email ≡ "ann@example.com")
    × Accepts db_of clock_of memory_platform signing service service-IsBacked signing-IsJwtLibrary
        user ann_pair entered
unfolding running
login-authenticates_example =
    login-authenticates db_of clock_of memory_platform signing service service-IsBacked
      signing-IsJwtLibrary "ann@example.com" "correct horse" "10.0.0.1" joined entered ann_pair
      uuid_text login_works (omega arith)

issued :
    (generate_access_token memory_platform signing service.jwt 2 "viewer" start).0 ≡ ok ann_access
unfolding generate_access_token memory_platform claims_for
issued = refl

-- A quarter of an hour later.
abbrev afterwards : Memory
afterwards = record start { clock = 1900000000000 }

auth-expired_example :
    (auth memory_platform signing service.jwt (append bearer ann_access) afterwards).0
    ≡ err (refusal 401 "UNAUTHORIZED" "invalid or expired token")
auth-expired_example =
    auth-expired db_of clock_of memory_platform signing service service-IsBacked
      signing-IsJwtLibrary 2 "viewer" ann_access start afterwards issued (omega arith)

-- A token without a signature.
abbrev forged : String
forged = signed_text (other_method "none") (record ann_claims { role = "admin" }) ""

auth-foreign_example :
    (auth memory_platform signing service.jwt (append bearer forged) start).0
    ≡ err (refusal 401 "UNAUTHORIZED" "invalid or expired token")
auth-foreign_example =
    auth-foreign db_of clock_of memory_platform signing service service-IsBacked
      signing-IsJwtLibrary "none" (record ann_claims { role = "admin" }) "" forged start refl
