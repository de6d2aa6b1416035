-- ===== src/Repository/Tests.antt =====
-- The repositories over the database in memory.
use backend_infra_assessment.Base.{str_eq, str_eq_iff}
use backend_infra_assessment.Database.Contract.{users_table, tokens_table}
use backend_infra_assessment.Repository.{user_repository, token_repository}
use backend_infra_assessment.Repository.Contract.{IsUserRepository, IsTokenRepository}
use backend_infra_assessment.Repository.Correct.Users.{user_repository-IsUserRepository}
use backend_infra_assessment.Repository.Correct.Tokens.{token_repository-IsTokenRepository}
use backend_infra_assessment.Tests.Memory.{
  db_of, clock_of, memory_gorm, memory_gorm-IsGorm, memory_platform, memory_platform-IsPlatform,
}

user_repository-IsUserRepository_example :
    IsUserRepository db_of clock_of
      (user_repository memory_platform (memory_gorm users_table str_eq))
user_repository-IsUserRepository_example =
    user_repository-IsUserRepository db_of clock_of memory_platform memory_platform-IsPlatform
      (memory_gorm users_table str_eq) (memory_gorm-IsGorm users_table str_eq str_eq_iff)

token_repository-IsTokenRepository_example :
    IsTokenRepository db_of clock_of
      (token_repository memory_platform (memory_gorm tokens_table str_eq))
token_repository-IsTokenRepository_example =
    token_repository-IsTokenRepository db_of clock_of memory_platform memory_platform-IsPlatform
      (memory_gorm tokens_table str_eq) (memory_gorm-IsGorm tokens_table str_eq str_eq_iff)
