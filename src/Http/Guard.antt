-- ===== src/Http/Guard.antt =====
-- internal/middleware: auth.go, rbac.go, ratelimit.go and brute_force.go, which decide whether a
-- request goes on. What Auth stores in Gin's context is the value that it returns.
use text.Mathlib.Text.{starts_with}
use Prim.Native.String.{len, slice}
use backend_infra_assessment.Base.{
  ℕ, ◌≡◌, inl, inr, String, Bool, true, false, Option, none, some, List, [], ◌∷◌, Result, ok, err,
  pure, raise, always, ◌>>=◌, append, str_eq, str_eq_iff, if◌then◌else◌, Has, Result-cases,
  Option-cases, Bool-cases, arith,
}
use backend_infra_assessment.Domain.{Uuid, Role, role_admin, role_analyst, role_viewer, Error}
use backend_infra_assessment.Database.{Platform}
use backend_infra_assessment.Jwt.{JwtLibrary, JwtService, Claims, parse_access_token}
use backend_infra_assessment.Limiter.{Limiter}
use backend_infra_assessment.Http.{Refusal, Served, refusal, attempted}

-- ctx.user.id and ctx.user.role
pub record Identity : Type 0 where
  pub user_id : Uuid
  pub role : Role

pub record RoleQuota : Type 0 where
  pub per_minute : ℕ
  pub burst : ℕ

unfoldable pub quota_for_role : Role → Option RoleQuota
quota_for_role role =
    if str_eq role role_admin
    then some (record { per_minute = 120; burst = 30 })
    else if str_eq role role_analyst
    then some (record { per_minute = 60; burst = 20 })
    else if str_eq role role_viewer
    then some (record { per_minute = 30; burst = 10 })
    else none

abbrev pub bearer : String
bearer = "Bearer "

-- strings.TrimPrefix(s, prefix)
abbrev pub trim_prefix : String → String → String
trim_prefix s prefix = if starts_with s prefix then slice s (len prefix) (len s) else s

-- Is one of the allowed roles the caller's?
unfoldable pub is_allowed : List Role → Role → Bool
is_allowed [] role = false
is_allowed (r ∷ allowed) role = if str_eq role r then true else is_allowed allowed role

module _ {W : Type 0} (p : Platform W) (lib : JwtLibrary) (jwt : JwtService) where
  -- The part of Auth after uuid.Parse.
  identify : String → Option Uuid → Served W Identity
  identify role (some user_id) = pure (record { user_id = user_id; role = role })
  identify role none = raise (refusal 401 "UNAUTHORIZED" "invalid token subject")

  -- The part of Auth after ParseAccessToken.
  auth_claims : Result Error Claims → Served W Identity
  auth_claims (ok claims) = identify claims.role (p.uuid_parse claims.user_id)
  auth_claims (err e) = raise (refusal 401 "UNAUTHORIZED" "invalid or expired token")

  -- Auth, on the Authorization header.
  unfoldable pub auth : String → Served W Identity
  unfolding auth_claims identify
  auth header =
      if starts_with header bearer
      then (do
        parsed ← attempted (parse_access_token p lib jwt (trim_prefix header bearer))
        auth_claims parsed)
      else raise (refusal 401 "UNAUTHORIZED" "missing or malformed Authorization header")

module _ {W : Type 0} where
  unfoldable pub require_role : List Role → Identity → Served W Unit
  require_role allowed who =
      if is_allowed allowed who.role
      then pure tt
      else raise (refusal 403 "FORBIDDEN" "insufficient permissions")

  -- `allowed, _ := lim.Allow(...)`: the error is dropped.
  unfoldable pub admit : Refusal → (Bool × Option Error) → Served W Unit
  admit limited (allowed, e) = if allowed then pure tt else raise limited

  unfoldable pub login_rate_limit : Limiter W → ℕ → ℕ → String → Served W Unit
  unfolding admit
  login_rate_limit lim per_minute burst client_ip = do
    answer ← always (lim.allow (append "rl:login:" client_ip) per_minute burst)
    admit (refusal 429 "RATE_LIMITED" "too many login attempts, slow down") answer

module _ {W : Type 0} (p : Platform W) (lim : Limiter W) where
  abbrev pub quota_key : Identity → String
  quota_key who = append "rl:role:" (append who.role (append ":" (p.uuid_string who.user_id)))

  -- The part of RateLimitByRole after quotaForRole.
  unfoldable pub within_quota : Identity → Option RoleQuota → Served W Unit
  unfolding admit
  within_quota who (some quota) = do
    answer ← always (lim.allow (quota_key who) quota.per_minute quota.burst)
    admit (refusal 429 "RATE_LIMITED" "request quota exceeded for your role") answer
  within_quota who none = raise (refusal 403 "ROLE_UNKNOWN" "no rate-limit policy for this role")

  unfoldable pub rate_limit_by_role : Identity → Served W Unit
  unfolding within_quota
  rate_limit_by_role who = within_quota who (quota_for_role who.role)

-- A request passes Auth only with a token that ParseAccessToken accepts, and the identity that the
-- handlers see is the token's.
pub auth-ok :
    {W : Type 0} (p : Platform W) (lib : JwtLibrary) (jwt : JwtService) (header : String)
    (who : Identity) (w : W)
    → (auth p lib jwt header w).0 ≡ ok who
    → (claims : Claims) × ((parse_access_token p lib jwt (trim_prefix header bearer) w).0
        ≡ ok claims)
      × (claims.role ≡ who.role)
      × (p.uuid_parse claims.user_id ≡ some who.user_id)
      × (starts_with header bearer ≡ true)
unfolding auth
auth-ok p lib jwt header who w h =
    let token = trim_prefix header bearer in
    elim (Bool-cases (starts_with header bearer)) [
      | inl e ↦ elim (Result-cases (parse_access_token p lib jwt token w).0) [
        | inl (claims, f) ↦ elim (Option-cases (p.uuid_parse claims.user_id)) [
          | inl g ↦ ground (arith, e, f, g)
          | inr (id, g) ↦ (claims, f, ground (arith, e, f, g, h), ground (arith, e, f, g, h), e)
        ]
        | inr (x, f) ↦ ground (arith, e, f)
      ]
      | inr e ↦ ground (arith, e)
    ]

-- RequireRole lets through exactly the roles of its list.
pub require_role-ok :
    {W : Type 0} (allowed : List Role) (who : Identity) (w : W)
    → (require_role allowed who w).0 ≡ ok tt
    → Has who.role allowed
unfolding require_role is_allowed
require_role-ok [] who w h = ground arith
require_role-ok (r ∷ allowed) who w h =
    let same = str_eq_iff who.role r in ground (arith, require_role-ok allowed who w, same)
