-- ===== src/Domain/Errors.antt =====
-- internal/domain/errors.go, and what the code observes of a Go error: its text, and whether
-- errors.Is finds a sentinel in it.
use backend_infra_assessment.Base.{ℕ, ◌≡◌, refl, String, Bool, true, false, Exec, ◌==◌}

pub data Sentinel : Type 0 where
  invalid_credentials : Sentinel
  email_taken : Sentinel
  user_not_found : Sentinel
  token_not_found : Sentinel
  token_expired : Sentinel
  token_revoked : Sentinel
  account_locked : Sentinel
  forbidden : Sentinel
  unauthorized : Sentinel
  llm_unavailable : Sentinel

-- The text of each sentinel.
unfoldable pub text : Sentinel → String
text invalid_credentials = "invalid credentials"
text email_taken = "email already registered"
text user_not_found = "user not found"
text token_not_found = "refresh token not found"
text token_expired = "refresh token expired"
text token_revoked = "refresh token revoked"
text account_locked = "account temporarily locked due to too many failed login attempts"
text forbidden = "forbidden"
text unauthorized = "unauthorized"
text llm_unavailable = "threat analysis is temporarily unavailable"

-- A sentinel of the domain, an error of a library or of the backend, or either wrapped by `%w`.
pub data Error : Type 0 where
  domain : Sentinel → Error
  external : String → Error
  wrapped : String → Error → Error

-- A call of the program that changes the world and may fail.
abbrev pub Fallible : Type 0 → Type 0 → Type 0
Fallible W A = Exec W Error A

-- Sentinels are compared by identity.
abbrev pub identity : Sentinel → ℕ
identity invalid_credentials = 0
identity email_taken = 1
identity user_not_found = 2
identity token_not_found = 3
identity token_expired = 4
identity token_revoked = 5
identity account_locked = 6
identity forbidden = 7
identity unauthorized = 8
identity llm_unavailable = 9

-- errors.Is(err, target)
abbrev pub errors_is : Error → Sentinel → Bool
errors_is (domain s) target = identity s == identity target
errors_is (external s) target = false
errors_is (wrapped s e) target = errors_is e target

-- No sentinel of the domain is in the error: it comes from a library or a backend.
abbrev pub is_infrastructure : Error → Bool
is_infrastructure (domain s) = false
is_infrastructure (external s) = true
is_infrastructure (wrapped s e) = is_infrastructure e

pub errors_is-infrastructure :
    (e : Error) (s : Sentinel) → is_infrastructure e ≡ true → errors_is e s ≡ false
errors_is-infrastructure (domain t) s h = cc
errors_is-infrastructure (external t) s h = refl
errors_is-infrastructure (wrapped t e) s h = errors_is-infrastructure e s h
