-- ===== src/Tests/Service.antt =====
-- The authentication service on the database in memory, and its start.
use Prim.Native.String.{◌++◌}
use backend_infra_assessment.Base.{[], ok, err, ==_iff, str_eq, str_eq_iff, ◌==◌}
use backend_infra_assessment.Database.Contract.{users_table, tokens_table, attempts_table}
use backend_infra_assessment.Repository.{
  user_repository, token_repository, login_attempt_repository,
}
use backend_infra_assessment.Repository.Correct.Users.{user_repository-IsUserRepository}
use backend_infra_assessment.Repository.Correct.Tokens.{token_repository-IsTokenRepository}
use backend_infra_assessment.Repository.Correct.Attempts.{
  login_attempt_repository-IsAttemptRepository,
}
use backend_infra_assessment.Jwt.{JwtLibrary}
use backend_infra_assessment.Auth.{AuthService}
use backend_infra_assessment.Auth.Contract.{IsBacked}
use backend_infra_assessment.Tests.Memory.{
  Memory, db_of, clock_of, memory_gorm, memory_gorm-IsGorm, memory_platform,
  memory_platform-IsPlatform,
}

abbrev pub plain_jwt : JwtLibrary
plain_jwt = record {
  signed_string = λ m c secret. ok ("jwt:" ++ c.user_id ++ ":" ++ c.role);
  parse_with_claims = λ now token key. err "malformed";
}

abbrev pub service : AuthService Memory
service = record {
  users = user_repository memory_platform (memory_gorm users_table str_eq);
  tokens = token_repository memory_platform (memory_gorm tokens_table str_eq);
  attempts = login_attempt_repository memory_platform (memory_gorm attempts_table ◌==◌);
  jwt = record { secret = "secret"; access_ttl = 900000000000; refresh_ttl = 604800000000000 };
  security = record { brute_force_max_attempts = 2; brute_force_window = 900000000000 };
}

pub service-IsBacked : IsBacked db_of clock_of memory_platform service
service-IsBacked = record {
  platform = memory_platform-IsPlatform;
  users =
      user_repository-IsUserRepository db_of clock_of memory_platform memory_platform-IsPlatform
        (memory_gorm users_table str_eq) (memory_gorm-IsGorm users_table str_eq str_eq_iff);
  tokens =
      token_repository-IsTokenRepository db_of clock_of memory_platform memory_platform-IsPlatform
        (memory_gorm tokens_table str_eq) (memory_gorm-IsGorm tokens_table str_eq str_eq_iff);
  attempts =
      login_attempt_repository-IsAttemptRepository db_of clock_of memory_platform
        memory_platform-IsPlatform (memory_gorm attempts_table ◌==◌)
        (memory_gorm-IsGorm attempts_table ◌==◌ ==_iff);
}

abbrev pub start : Memory
start = record {
  db = record { users = []; tokens = []; attempts = []; audits = [] };
  clock = 1000000000000;
  next = 1;
}
