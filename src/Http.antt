-- ===== src/Http.antt =====
-- internal/handler/response.go and internal/middleware/middleware.go: what a request is answered
-- with. Gin runs the handlers of a route in order until one of them aborts: here they are calls
-- whose error is the answer that ends the chain.
pub mod Audit
pub mod RequestLog
mod EngineTests
pub mod Engine
pub mod Cache
pub mod Capture
pub mod Replay
pub mod Writer
pub mod Guard
pub mod Keys
pub mod Quota
pub mod Isolation
pub mod Fresh
pub mod Handlers
pub mod Routes
pub mod Probes
pub mod Visits
pub mod Api
mod Tests
mod ApiTests
mod ReplayTests
mod RouteTests
mod QuotaTests
mod FreshTests
use backend_infra_assessment.Base.{
  ℕ, ◌≡◌, refl, String, true, false, Exec, ◌||◌, append, arith, Result, ok, err, if◌then◌else◌,
}
use backend_infra_assessment.Domain.{Error, Fallible}
use backend_infra_assessment.Domain.Errors.{
  Sentinel, text, domain, external, wrapped, errors_is, is_infrastructure, errors_is-infrastructure,
  invalid_credentials, email_taken, user_not_found, token_not_found, token_revoked, token_expired,
  account_locked, forbidden, unauthorized, llm_unavailable,
}

-- An ErrorResponse with its status.
pub record Refusal : Type 0 where
  pub status : ℕ
  pub code : String
  pub message : String

pub record Reply (A : Type 0) : Type 0 where
  pub status : ℕ
  pub payload : A

-- A middleware or a handler: `raise` answers with an error and ends the chain.
abbrev pub Served : Type 0 → Type 0 → Type 0
Served W A = Exec W Refusal A

abbrev pub refusal : ℕ → String → String → Refusal
refusal status code message = record { status = status; code = code; message = message }

-- `v, err := m` of a service, where the handler goes on to look at `err`.
abbrev pub attempted : {W A : Type 0} → Fallible W A → Served W (Result Error A)
attempted m w = (ok (m w).0, (m w).1)

-- err.Error()
abbrev pub error_text : Error → String
error_text (domain s) = text s
error_text (external t) = t
error_text (wrapped t e) = append t (append ": " (error_text e))

unfoldable pub validation_error : String → Refusal
validation_error message = refusal 400 "VALIDATION_ERROR" message

-- respondError: the cases of the switch, in its order.
unfoldable pub respond_error : Error → Refusal
respond_error e =
    if errors_is e invalid_credentials
    then refusal 401 "INVALID_CREDENTIALS" (error_text e)
    else if errors_is e email_taken
    then refusal 409 "EMAIL_TAKEN" (error_text e)
    else if errors_is e user_not_found
    then refusal 404 "USER_NOT_FOUND" (error_text e)
    else if errors_is e token_not_found || errors_is e token_revoked || errors_is e token_expired
    then refusal 401 "INVALID_REFRESH_TOKEN" (error_text e)
    else if errors_is e account_locked
    then refusal 429 "ACCOUNT_LOCKED" (error_text e)
    else if errors_is e forbidden
    then refusal 403 "FORBIDDEN" (error_text e)
    else if errors_is e unauthorized
    then refusal 401 "UNAUTHORIZED" (error_text e)
    else if errors_is e llm_unavailable
    then refusal 503 "SERVICE_UNAVAILABLE" (error_text e)
    else refusal 500 "INTERNAL" "internal server error"

-- An error of a library or a backend is answered with a fixed text, whatever it says.
pub respond_error-hides :
    (e : Error)
    → is_infrastructure e ≡ true
    → respond_error e ≡ refusal 500 "INTERNAL" "internal server error"
unfolding respond_error
respond_error-hides e h =
    rw
      (
        errors_is-infrastructure e invalid_credentials h,
        errors_is-infrastructure e email_taken h,
        errors_is-infrastructure e user_not_found h,
        errors_is-infrastructure e token_not_found h,
        errors_is-infrastructure e token_revoked h,
        errors_is-infrastructure e token_expired h,
        errors_is-infrastructure e account_locked h,
        errors_is-infrastructure e forbidden h,
        errors_is-infrastructure e unauthorized h,
        errors_is-infrastructure e llm_unavailable h,
      )
      refl

-- Every sentinel of the domain has a status of its own, also where it is wrapped.
pub respond_error-known :
    (e : Error) → is_infrastructure e ≡ false → ¬ ((respond_error e).status ≡ 500)
unfolding respond_error
respond_error-known (domain invalid_credentials) h = ground arith
respond_error-known (domain email_taken) h = ground arith
respond_error-known (domain user_not_found) h = ground arith
respond_error-known (domain token_not_found) h = ground arith
respond_error-known (domain token_expired) h = ground arith
respond_error-known (domain token_revoked) h = ground arith
respond_error-known (domain account_locked) h = ground arith
respond_error-known (domain forbidden) h = ground arith
respond_error-known (domain unauthorized) h = ground arith
respond_error-known (domain llm_unavailable) h = ground arith
respond_error-known (external t) h = ground arith
respond_error-known (wrapped t e) h = let k = respond_error-known e h in ground (arith, k)
