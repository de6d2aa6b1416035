-- ===== src/Domain.antt =====
-- internal/domain: the entities, the sentinel errors and the repository interfaces.
pub mod Errors
pub use Errors.{Sentinel, Error, Fallible}
use backend_infra_assessment.Base.{ℕ, String, Bool, Option, List}

-- A uuid.UUID as the number that its bytes spell; the zero value is uuid.Nil.
abbrev pub Uuid : Type 0
Uuid = ℕ

abbrev pub uuid_nil : Uuid
uuid_nil = 0

-- A time.Time and a time.Duration in nanoseconds, both non-negative.
abbrev pub Time : Type 0
Time = ℕ

abbrev pub Duration : Type 0
Duration = ℕ

-- Gorm persists a role as text, so a role outside the three constants can come back.
abbrev pub Role : Type 0
Role = String

abbrev pub role_admin : Role
role_admin = "admin"

abbrev pub role_analyst : Role
role_analyst = "analyst"

abbrev pub role_viewer : Role
role_viewer = "viewer"

pub record User : Type 0 where
  pub id : Uuid
  pub email : String
  pub password_hash : String
  pub role : Role
  pub created_at : Time
  pub updated_at : Time

pub record RefreshToken : Type 0 where
  pub id : Uuid
  pub user_id : Uuid
  pub token_hash : String
  pub expires_at : Time
  pub revoked_at : Option Time
  pub created_at : Time

pub record LoginAttempt : Type 0 where
  pub id : Uuid
  pub email : String
  pub ip_address : String
  pub successful : Bool
  pub created_at : Time

pub record AuditEvent : Type 0 where
  pub id : Uuid
  pub actor_id : Option Uuid
  pub actor_role : String
  pub action : String
  pub method : String
  pub path : String
  pub status_code : ℕ
  pub ip_address : String
  pub user_agent : String
  pub request_id : String
  pub created_at : Time

-- The interfaces that the services take. `Create` writes the assigned id and times into the struct
-- that it is given, which is the value returned here.
pub record UserRepository (W : Type 0) : Type 0 where
  pub create : User → Fallible W User
  pub find_by_email : String → Fallible W User
  pub find_by_id : Uuid → Fallible W User
  pub list : Fallible W (List User)
  pub update_role : Uuid → Role → Fallible W Unit

pub record TokenRepository (W : Type 0) : Type 0 where
  pub create : RefreshToken → Fallible W RefreshToken
  pub find_by_hash : String → Fallible W RefreshToken
  pub revoke : Uuid → Fallible W Unit

pub record LoginAttemptRepository (W : Type 0) : Type 0 where
  pub create : LoginAttempt → Fallible W LoginAttempt
  pub count_recent_failed : String → Time → Fallible W ℕ
  pub list_recent_by_email : String → ℕ → Fallible W (List LoginAttempt)

pub record AuditEventRepository (W : Type 0) : Type 0 where
  pub create : AuditEvent → Fallible W AuditEvent
  pub list_recent_by_actor : Uuid → ℕ → Fallible W (List AuditEvent)
