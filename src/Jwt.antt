-- ===== src/Jwt.antt =====
-- internal/service/jwt_service.go: access tokens and refresh tokens. golang-jwt is a parameter.
pub mod Contract
pub mod Issued
use backend_infra_assessment.Base.{
  ℕ, ◌+◌, ◌/◌, String, Bool, true, false, Option, some, Result, ok, err, always, ◌>>=◌,
}
use backend_infra_assessment.Domain.{Uuid, Time, Duration, Role, Fallible}
use backend_infra_assessment.Domain.Errors.{Error, domain, unauthorized}
use backend_infra_assessment.Database.{Platform}
use backend_infra_assessment.Hash.{library}

-- The signing methods of golang-jwt: HS256 is one of the HMAC family.
pub data SigningMethod : Type 0 where
  hmac : ℕ → SigningMethod
  other_method : String → SigningMethod

abbrev pub signing_method_hs256 : SigningMethod
signing_method_hs256 = hmac 256

pub record Claims : Type 0 where
  pub user_id : String
  pub role : String
  pub issued_at : Option ℕ
  pub expires_at : Option ℕ

-- golang-jwt. A key function maps a token's method to the key that must verify it, or refuses.
-- Numeric dates are whole seconds.
pub record JwtLibrary : Type 0 where
  pub signed_string : SigningMethod → Claims → String → Result String String
  -- The claims, and token.Valid.
  pub parse_with_claims :
      (now : Time) → String → (SigningMethod → Result String String) → Result String (Claims × Bool)

pub record JwtService : Type 0 where
  pub secret : String
  pub access_ttl : Duration
  pub refresh_ttl : Duration

-- jwt.NewNumericDate truncates to seconds.
abbrev pub numeric_date : Time → ℕ
numeric_date t = t / 1000000000

-- The key function that ParseAccessToken passes on.
unfoldable pub key_func : JwtService → SigningMethod → Result String String
key_func s (hmac n) = ok s.secret
key_func s (other_method alg) = err "unexpected signing method"

-- `if err != nil || !token.Valid { return nil, domain.ErrUnauthorized }`
abbrev pub accepted : Result String (Claims × Bool) → Result Error Claims
accepted (ok (claims, true)) = ok claims
accepted (ok (claims, false)) = err (domain unauthorized)
accepted (err e) = err (domain unauthorized)

abbrev pub refresh_bytes : ℕ
refresh_bytes = 32

module _ {W : Type 0} (p : Platform W) (lib : JwtLibrary) (s : JwtService) where
  unfoldable pub claims_for : Uuid → Role → Time → Claims
  claims_for user_id role now = record {
    user_id = p.uuid_string user_id;
    role = role;
    issued_at = some (numeric_date now);
    expires_at = some (numeric_date (now + s.access_ttl));
  }

  unfoldable pub generate_access_token : Uuid → Role → Fallible W String
  unfolding claims_for
  generate_access_token user_id role = do
    now ← always p.time_now
    λ w.
        (library (lib.signed_string signing_method_hs256 (claims_for user_id role now) s.secret), w)

  unfoldable pub parse_access_token : String → Fallible W Claims
  unfolding key_func
  parse_access_token token = do
    now ← always p.time_now
    λ w. (accepted (lib.parse_with_claims now token (key_func s)), w)

  unfoldable pub generate_refresh_token : Fallible W String
  generate_refresh_token = do
    b ← (λ w. (library (p.rand_read refresh_bytes w).0, (p.rand_read refresh_bytes w).1))
    λ w. (ok (p.base64_raw_url b), w)
