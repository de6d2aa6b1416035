-- ===== src/Auth/FailureTests.antt =====
-- A refresh whose tokens cannot be signed.
use backend_infra_assessment.Base.{◌≡◌, ◌⊎◌, refl, false, none, err, is_ok, [], ◌∷◌, Has}
use backend_infra_assessment.Domain.{User, RefreshToken}
use backend_infra_assessment.Repository.{user_repository, token_repository}
use backend_infra_assessment.Jwt.{JwtLibrary, generate_access_token}
use backend_infra_assessment.Auth.{refresh, refresh_unrevoked, rotate, issue_tokens}
use backend_infra_assessment.Auth.Failure.{IsLost, refresh-err}
use backend_infra_assessment.Tests.Service.{service, service-IsBacked}
use backend_infra_assessment.Tests.Memory.{
  Memory, db_of, clock_of, memory_gorm, memory_platform, first_of_rows,
}

abbrev no_key : JwtLibrary
no_key = record {
  signed_string = λ method claims key. err "key is of invalid type";
  parse_with_claims = λ now token keys. err "malformed";
}

abbrev ann : User
ann = record {
  id = 2;
  email = "ann@example.com";
  password_hash = "bcrypt:correct horse";
  role = "viewer";
  created_at = 1000;
  updated_at = 1000;
}

abbrev ann_token : RefreshToken
ann_token = record {
  id = 8;
  user_id = 2;
  token_hash = "sha256:111";
  expires_at = 9000;
  revoked_at = none;
  created_at = 1000;
}

abbrev held : Memory
held = record {
  db = record { users = ann ∷ []; tokens = ann_token ∷ []; attempts = []; audits = [] };
  clock = 2000;
  next = 5;
}

failed : is_ok (refresh memory_platform no_key service "111" held).0 ≡ false
unfolding refresh refresh_unrevoked rotate issue_tokens generate_access_token user_repository
    token_repository memory_gorm memory_platform first_of_rows
failed = refl

refresh-err_example :
    let after = refresh memory_platform no_key service "111" held in
    (db_of after.1 ≡ db_of held)
    ⊎ ((rt : RefreshToken) × Has rt (db_of held).tokens
        × (rt.token_hash ≡ "sha256:111")
        × (rt.revoked_at ≡ none)
        × IsLost db_of clock_of memory_platform no_key service service-IsBacked rt
            (db_of held)
            (db_of after.1))
unfolding memory_platform
refresh-err_example =
    refresh-err db_of clock_of memory_platform no_key service service-IsBacked "111" held failed
