-- ===== src/Auth/Concurrent.antt =====
-- The methods of internal/service/auth_service.go as programs: every call of a repository and
-- every reading of the clock is one statement, and other requests run between the statements.
pub mod Alone
pub mod Rely
pub mod Lawful
pub mod System
pub mod Play
pub mod Safety
pub mod Logout
pub mod Ended
pub mod Grants
pub mod Granted
pub mod Guessing
use backend_infra_assessment.Base.{
  ◌-◌, ◌+◌, String, Bool, false, true, Result, ok, err, List, leb, ltb, is_some, if◌then◌else◌,
}
use backend_infra_assessment.Base.Programs.{
  Program, stop, statement, attempted, reading, ◌>>=◌, ◌>>◌,
}
use backend_infra_assessment.Domain.{Uuid, User, RefreshToken, role_viewer, Error}
use backend_infra_assessment.Domain.Errors.{
  domain, errors_is, email_taken, user_not_found, account_locked, invalid_credentials,
  token_revoked, token_expired, token_not_found,
}
use backend_infra_assessment.Database.{Platform}
use backend_infra_assessment.Hash.{hash_password, check_password, sha256_hex}
use backend_infra_assessment.Jwt.{JwtLibrary, generate_access_token, generate_refresh_token}
use backend_infra_assessment.Auth.{AuthService, TokenPair, new_user, new_attempt, new_token}
use backend_infra_assessment.Auth.Sessions.{
  Call, registering, logging_in, refreshing, logging_out, getting, listing,
}

abbrev pub Request : Type 0 → Type 0 → Type 1
Request W A = Program W Error A

abbrev pub finished : {W A : Type 0} → A → Request W A
finished a = stop (ok a)

abbrev pub failed : {W A : Type 0} → Error → Request W A
failed e = stop (err e)

-- What a method returns beside an error.
pub data Reply : Type 0 where
  user_reply : User → Reply
  pair_reply : TokenPair → Reply
  users_reply : List User → Reply
  no_reply : Reply

-- Hashing and signing do not touch the tables, so each is one statement.
module _ {W : Type 0} (p : Platform W) (lib : JwtLibrary) (s : AuthService W) where
  unfoldable pub create_viewer_program : String → String → Request W User
  create_viewer_program email password = do
    password_hash ← statement (hash_password p password)
    statement (s.users.create (new_user email password_hash role_viewer))

  unfoldable pub register_found_program : String → String → Result Error User → Request W User
  register_found_program email password (ok u) = failed (domain email_taken)
  register_found_program email password (err e) =
      if errors_is e user_not_found then create_viewer_program email password else failed e

  unfoldable pub register_program : String → String → Request W User
  register_program email password = do
    found ← attempted (s.users.find_by_email email)
    register_found_program email password found

  unfoldable pub record_attempt_program : String → String → Bool → Request W (Unit {0})
  record_attempt_program email ip successful = do
    attempted (s.attempts.create (new_attempt email ip successful))
    finished tt

  unfoldable pub issue_tokens_program : User → Request W TokenPair
  issue_tokens_program user = do
    access ← statement (generate_access_token p lib s.jwt user.id user.role)
    refresh ← statement (generate_refresh_token p lib s.jwt)
    now ← reading p.time_now
    statement (s.tokens.create (new_token user.id (sha256_hex p refresh) (now + s.jwt.refresh_ttl)))
    finished (record { access_token = access; refresh_token = refresh })

  unfoldable pub reject_program : String → String → Request W TokenPair
  reject_program email ip = do
    record_attempt_program email ip false
    failed (domain invalid_credentials)

  unfoldable pub accept_program : String → String → User → Request W TokenPair
  accept_program email ip user = do record_attempt_program email ip true; issue_tokens_program user

  unfoldable pub login_found_program :
      String → String → String → Result Error User → Request W TokenPair
  login_found_program email password ip (ok user) =
      if is_some (check_password p user.password_hash password)
      then reject_program email ip
      else accept_program email ip user
  login_found_program email password ip (err e) =
      if errors_is e user_not_found then reject_program email ip else failed e

  unfoldable pub login_unlocked_program : String → String → String → Request W TokenPair
  login_unlocked_program email password ip = do
    found ← attempted (s.users.find_by_email email)
    login_found_program email password ip found

  unfoldable pub login_program : String → String → String → Request W TokenPair
  login_program email password ip = do
    now ← reading p.time_now
    counted ← statement (s.attempts.count_recent_failed email (now - s.security.brute_force_window))
    if leb s.security.brute_force_max_attempts counted
        then failed (domain account_locked)
        else login_unlocked_program email password ip

  unfoldable pub rotate_program : RefreshToken → Request W TokenPair
  rotate_program rt = do
    user ← statement (s.users.find_by_id rt.user_id)
    statement (s.tokens.revoke rt.id)
    issue_tokens_program user

  unfoldable pub refresh_unrevoked_program : RefreshToken → Request W TokenPair
  refresh_unrevoked_program rt = do
    now ← reading p.time_now
    if ltb rt.expires_at now then failed (domain token_expired) else rotate_program rt

  unfoldable pub refresh_program : String → Request W TokenPair
  refresh_program refresh_token = do
    rt ← statement (s.tokens.find_by_hash (sha256_hex p refresh_token))
    if is_some rt.revoked_at then failed (domain token_revoked) else refresh_unrevoked_program rt

  unfoldable pub logout_found_program : Result Error RefreshToken → Request W (Unit {0})
  logout_found_program (ok rt) = statement (s.tokens.revoke rt.id)
  logout_found_program (err e) = if errors_is e token_not_found then finished tt else failed e

  unfoldable pub logout_program : String → Request W (Unit {0})
  logout_program refresh_token = do
    found ← attempted (s.tokens.find_by_hash (sha256_hex p refresh_token))
    logout_found_program found

  -- The program of a call.
  unfoldable pub program : Call → Request W Reply
  program (registering email password) = do
    user ← register_program email password
    finished (user_reply user)
  program (logging_in email password ip) = do
    pair ← login_program email password ip
    finished (pair_reply pair)
  program (refreshing token) = do pair ← refresh_program token; finished (pair_reply pair)
  program (logging_out token) = do logout_program token; finished no_reply
  program (getting id) = do user ← statement (s.users.find_by_id id); finished (user_reply user)
  program listing = do users ← statement s.users.list; finished (users_reply users)
