-- ===== src/Jwt/Contract.antt =====
-- The documented behaviour of golang-jwt: a token is parsed to the claims that were signed, under the
-- key that the key function gives for its method, until it expires.
use backend_infra_assessment.Base.{
  ℕ, ◌≡◌, ◌≤◌, ◌<◌, ◌*◌, String, true, false, some, Result, ok, err, is_ok,
}
use backend_infra_assessment.Domain.{Time}
use backend_infra_assessment.Jwt.{JwtLibrary, SigningMethod, Claims}

pub record IsJwtLibrary (lib : JwtLibrary) : Type 0 where
  pub parse_signed :
      (method : SigningMethod) (claims : Claims) (key token : String) (now exp : ℕ)
      (keys : SigningMethod → Result String String)
      → lib.signed_string method claims key ≡ ok token
      → keys method ≡ ok key
      → claims.expires_at ≡ some exp
      → now < exp * 1000000000
      → lib.parse_with_claims now token keys ≡ ok (claims, true)
  -- ErrTokenExpired
  pub parse_expired :
      (method : SigningMethod) (claims : Claims) (key token : String) (now exp : ℕ)
      (keys : SigningMethod → Result String String)
      → lib.signed_string method claims key ≡ ok token
      → claims.expires_at ≡ some exp
      → exp * 1000000000 ≤ now
      → is_ok (lib.parse_with_claims now token keys) ≡ false
  -- ErrTokenUnverifiable
  pub parse_unverifiable :
      (method : SigningMethod) (claims : Claims) (key token e : String) (now : Time)
      (keys : SigningMethod → Result String String)
      → lib.signed_string method claims key ≡ ok token
      → keys method ≡ err e
      → is_ok (lib.parse_with_claims now token keys) ≡ false
