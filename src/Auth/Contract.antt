-- ===== src/Auth/Contract.antt =====
-- What the service relies on, in one record: its repositories and the platform behave as
-- documented.
use backend_infra_assessment.Domain.{Time}
use backend_infra_assessment.Database.{Platform}
use backend_infra_assessment.Database.Contract.{Db, IsPlatform}
use backend_infra_assessment.Repository.Contract.{
  IsUserRepository, IsTokenRepository, IsAttemptRepository,
}
use backend_infra_assessment.Auth.{AuthService}

pub record IsBacked {W : Type 0} (view : W → Db) (clock : W → Time) (p : Platform W)
    (s : AuthService W) : Type 0 where
  pub platform : IsPlatform view clock p
  pub users : IsUserRepository view clock s.users
  pub tokens : IsTokenRepository view clock s.tokens
  pub attempts : IsAttemptRepository view clock s.attempts
