-- ===== src/Auth.antt =====
-- internal/service/auth_service.go: registration, login, token refresh and logout.
pub mod Contract
pub mod Access
pub mod Backends
pub mod Works
pub mod Concurrent
pub mod Failure
pub mod Issue
pub mod Login
pub mod Lockout
pub mod Refresh
pub mod Sessions
pub mod Steps
pub mod Trace
mod Tests
mod FailureTests
mod WorksTests
mod ConcurrentTests
mod AccessTests
pub mod Register
use backend_infra_assessment.Base.{
  ℕ, ◌+◌, ◌-◌, String, Bool, true, false, Option, none, some, List, Result, ok, err, Exec, pure,
  raise, always, caught, ◌>>=◌, ◌>>◌, leb, ltb, is_some, if◌then◌else◌,
}
use backend_infra_assessment.Domain.{
  Uuid, uuid_nil, Time, Duration, role_viewer, User, RefreshToken, LoginAttempt, UserRepository,
  TokenRepository, LoginAttemptRepository, Error, Fallible,
}
use backend_infra_assessment.Domain.Errors.{
  domain, errors_is, email_taken, user_not_found, account_locked, invalid_credentials,
  token_revoked, token_expired, token_not_found,
}
use backend_infra_assessment.Database.{Platform}
use backend_infra_assessment.Hash.{hash_password, check_password, sha256_hex}
use backend_infra_assessment.Jwt.{
  JwtLibrary, JwtService, generate_access_token, generate_refresh_token,
}

pub record TokenPair : Type 0 where
  pub access_token : String
  pub refresh_token : String

pub record SecurityConfig : Type 0 where
  pub brute_force_max_attempts : ℕ
  pub brute_force_window : Duration

pub record AuthService (W : Type 0) : Type 0 where
  pub users : UserRepository W
  pub tokens : TokenRepository W
  pub attempts : LoginAttemptRepository W
  pub jwt : JwtService
  pub security : SecurityConfig

-- A new row: the repository assigns the id, and Gorm the times.
abbrev pub new_user : String → String → String → User
new_user email password_hash role = record {
  id = uuid_nil;
  email = email;
  password_hash = password_hash;
  role = role;
  created_at = 0;
  updated_at = 0;
}

abbrev pub new_attempt : String → String → Bool → LoginAttempt
new_attempt email ip successful = record {
  id = uuid_nil;
  email = email;
  ip_address = ip;
  successful = successful;
  created_at = 0;
}

abbrev pub new_token : Uuid → String → Time → RefreshToken
new_token user_id token_hash expires_at = record {
  id = uuid_nil;
  user_id = user_id;
  token_hash = token_hash;
  expires_at = expires_at;
  revoked_at = none;
  created_at = 0;
}

module _ {W : Type 0} (p : Platform W) (lib : JwtLibrary) (s : AuthService W) where
  -- The part of Register after the address has been found to be free.
  create_viewer : String → String → Fallible W User
  create_viewer email password = do
    password_hash ← hash_password p password
    s.users.create (new_user email password_hash role_viewer)

  -- What Register makes of `_, err := s.users.FindByEmail(ctx, email)`.
  register_found : String → String → Result Error User → Fallible W User
  register_found email password (ok u) = raise (domain email_taken)
  register_found email password (err e) =
      if errors_is e user_not_found then create_viewer email password else raise e

  pub register : String → String → Fallible W User
  register email password = do
    found ← caught (s.users.find_by_email email)
    register_found email password found

  -- Best effort: an error of the repository is dropped.
  pub record_attempt : String → String → Bool → Fallible W (Unit {0})
  record_attempt email ip successful = do
    caught (s.attempts.create (new_attempt email ip successful))
    pure tt

  -- The part of issueTokens after both tokens have been generated.
  store_pair : User → String → String → Fallible W TokenPair
  store_pair user access refresh = do
    now ← always p.time_now
    s.tokens.create (new_token user.id (sha256_hex p refresh) (now + s.jwt.refresh_ttl))
    pure (record { access_token = access; refresh_token = refresh })

  pub issue_tokens : User → Fallible W TokenPair
  issue_tokens user = do
    access ← generate_access_token p lib s.jwt user.id user.role
    refresh ← generate_refresh_token p lib s.jwt
    store_pair user access refresh

  -- A wrong password and an unknown address leave by this way.
  reject : String → String → Fallible W TokenPair
  reject email ip = do record_attempt email ip false; raise (domain invalid_credentials)

  pub accept : String → String → User → Fallible W TokenPair
  accept email ip user = do record_attempt email ip true; issue_tokens user

  -- What Login makes of `user, err := s.users.FindByEmail(ctx, email)`.
  login_found : String → String → String → Result Error User → Fallible W TokenPair
  login_found email password ip (ok user) =
      if is_some (check_password p user.password_hash password)
      then reject email ip
      else accept email ip user
  login_found email password ip (err e) =
      if errors_is e user_not_found then reject email ip else raise e

  -- The part of Login after the lockout test.
  pub login_unlocked : String → String → String → Fallible W TokenPair
  login_unlocked email password ip = do
    found ← caught (s.users.find_by_email email)
    login_found email password ip found

  pub login : String → String → String → Fallible W TokenPair
  login email password ip = do
    now ← always p.time_now
    failed ← s.attempts.count_recent_failed email (now - s.security.brute_force_window)
    if leb s.security.brute_force_max_attempts failed
        then raise (domain account_locked)
        else login_unlocked email password ip

  -- The part of Refresh after the tests of the token.
  rotate : RefreshToken → Fallible W TokenPair
  rotate rt = do user ← s.users.find_by_id rt.user_id; s.tokens.revoke rt.id; issue_tokens user

  pub refresh_unrevoked : RefreshToken → Fallible W TokenPair
  refresh_unrevoked rt = do
    now ← always p.time_now
    if ltb rt.expires_at now then raise (domain token_expired) else rotate rt

  pub refresh : String → Fallible W TokenPair
  refresh refresh_token = do
    rt ← s.tokens.find_by_hash (sha256_hex p refresh_token)
    if is_some rt.revoked_at then raise (domain token_revoked) else refresh_unrevoked rt

  -- What Logout makes of `rt, err := s.tokens.FindByHash(...)`.
  logout_found : Result Error RefreshToken → Fallible W (Unit {0})
  logout_found (ok rt) = s.tokens.revoke rt.id
  logout_found (err e) = if errors_is e token_not_found then pure tt else raise e

  pub logout : String → Fallible W (Unit {0})
  logout refresh_token = do
    found ← caught (s.tokens.find_by_hash (sha256_hex p refresh_token))
    logout_found found

  unfoldable pub get_user : Uuid → Fallible W User
  get_user id = s.users.find_by_id id

  unfoldable pub list_users : Fallible W (List User)
  list_users = s.users.list
