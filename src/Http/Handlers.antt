-- ===== src/Http/Handlers.antt =====
-- internal/handler/auth_handler.go and dto.go. A handler takes what ShouldBindJSON made of the body,
-- which is an error of the validator or the request.
use backend_infra_assessment.Base.{
  ℕ, String, List, map, Result, ok, err, pure, raise, ◌>>=◌, ◌>>◌, ◌≡◌, Has, Result-cases, inl, inr,
  sym,
}
use backend_infra_assessment.Domain.{Time, User, Error, Fallible}
use backend_infra_assessment.Database.{Platform}
use backend_infra_assessment.Database.Contract.{Db}
use backend_infra_assessment.Auth.Contract.{IsBacked}
use backend_infra_assessment.Jwt.{JwtLibrary}
use backend_infra_assessment.Auth.{
  AuthService, TokenPair, register, login, refresh, logout, get_user, list_users,
}
use backend_infra_assessment.Http.{Reply, Served, attempted, respond_error, validation_error}
use backend_infra_assessment.Http.Guard.{Identity}

pub record RegisterRequest : Type 0 where
  pub email : String
  pub password : String

pub record LoginRequest : Type 0 where
  pub email : String
  pub password : String

pub record RefreshRequest : Type 0 where
  pub refresh_token : String

pub record LogoutRequest : Type 0 where
  pub refresh_token : String

pub record UserResponse : Type 0 where
  pub id : String
  pub email : String
  pub role : String

pub record TokenResponse : Type 0 where
  pub access_token : String
  pub refresh_token : String

pub record UsersListResponse : Type 0 where
  pub users : List UserResponse

-- c.JSON(status, data)
abbrev pub reply : {A : Type 0} → ℕ → A → Reply A
reply status payload = record { status = status; payload = payload }

-- `if err := c.ShouldBindJSON(&req); err != nil { respondValidationError(c, err); return }`
abbrev pub bound : {W A : Type 0} → Result String A → Served W A
bound (ok request) = pure request
bound (err e) = raise (validation_error e)

-- `if err != nil { respondError(c, err); return }`
abbrev pub checked : {W A : Type 0} → Result Error A → Served W A
checked (ok a) = pure a
checked (err e) = raise (respond_error e)

-- A call of the service, with its error answered.
abbrev pub called : {W A : Type 0} → Fallible W A → Served W A
called m = do result ← attempted m; checked result

abbrev pub token_response : TokenPair → TokenResponse
token_response pair = record {
  access_token = pair.access_token;
  refresh_token = pair.refresh_token;
}

module _ {W : Type 0} (p : Platform W) (lib : JwtLibrary) (svc : AuthService W) where
  abbrev pub to_user_response : User → UserResponse
  to_user_response u = record { id = p.uuid_string u.id; email = u.email; role = u.role }

  unfoldable pub handle_register : Result String RegisterRequest → Served W (Reply UserResponse)
  handle_register body = do
    request ← bound body
    user ← called (register p lib svc request.email request.password)
    pure (reply 201 (to_user_response user))

  unfoldable pub handle_login : String → Result String LoginRequest → Served W (Reply TokenResponse)
  handle_login client_ip body = do
    request ← bound body
    pair ← called (login p lib svc request.email request.password client_ip)
    pure (reply 200 (token_response pair))

  unfoldable pub handle_refresh : Result String RefreshRequest → Served W (Reply TokenResponse)
  handle_refresh body = do
    request ← bound body
    pair ← called (refresh p lib svc request.refresh_token)
    pure (reply 200 (token_response pair))

  unfoldable pub handle_logout : Result String LogoutRequest → Served W (Reply Unit)
  handle_logout body = do
    request ← bound body
    called (logout p lib svc request.refresh_token)
    pure (reply 204 tt)

  unfoldable pub handle_me : Identity → Served W (Reply UserResponse)
  handle_me who = do
    user ← called (get_user p lib svc who.user_id)
    pure (reply 200 (to_user_response user))

  -- The profile that /auth/me answers with is the stored row of the caller.
  pub handle_me-ok :
      (view : W → Db) (clock : W → Time) (answer : Reply UserResponse) (who : Identity) (w : W)
      → IsBacked view clock p svc
      → (handle_me who w).0 ≡ ok answer
      → (u : User) × Has u (view w).users
        × (u.id ≡ who.user_id)
        × (answer ≡ reply 200 (to_user_response u))
  unfolding handle_me get_user
  handle_me-ok view clock answer who w b h =
      elim (Result-cases (svc.users.find_by_id who.user_id w).0) [
        | inl (u, e) ↦
            let (same, found) = b.users.find_by_id_ok who.user_id u w e in
            (u, found, same, sym (cc (rw e at h)))
        | inr (x, e) ↦ cc (rw e at h)
      ]

  unfoldable pub handle_list_users : Served W (Reply UsersListResponse)
  handle_list_users = do
    users ← called (list_users p lib svc)
    pure (reply 200 (record { users = map to_user_response users }))
