-- ===== src/Repository.antt =====
-- internal/repository: the Gorm-backed implementations of the domain's repository interfaces.
pub mod Contract
pub mod Correct
mod Tests
use backend_infra_assessment.Base.{
  ℕ, String, Bool, true, false, Option, none, some, List, Result, ok, err, Exec, always, ◌>>=◌,
  ◌&&◌, not, leb, ◌==◌, str_eq, if◌then◌else◌,
}
use backend_infra_assessment.Domain.{
  Uuid, uuid_nil, Time, Role, User, RefreshToken, LoginAttempt, AuditEvent, UserRepository,
  TokenRepository, LoginAttemptRepository, AuditEventRepository, Sentinel, Error, Fallible,
}
use backend_infra_assessment.Domain.Errors.{domain, external, user_not_found, token_not_found}
use backend_infra_assessment.Database.{GormError, record_not_found, failure, Gorm, Platform}

-- A Gorm error that the code passes on as it is.
abbrev passed_on : GormError → Error
passed_on record_not_found = external "record not found"
passed_on (failure s) = external s

-- `return x, err` after a statement.
abbrev pub returned : {A : Type 0} → Result GormError A → Result Error A
returned (ok a) = ok a
returned (err e) = err (passed_on e)

-- `if errors.Is(err, gorm.ErrRecordNotFound) { return nil, missing }`, and then the other errors.
abbrev pub found_or : {A : Type 0} → Sentinel → Result GormError A → Result Error A
found_or missing (ok a) = ok a
found_or missing (err record_not_found) = err (domain missing)
found_or missing (err (failure s)) = err (external s)

abbrev pub statement : {W A : Type 0} → Exec W GormError A → Fallible W A
statement m w = (returned (m w).0, (m w).1)

abbrev pub lookup : {W A : Type 0} → Sentinel → Exec W GormError A → Fallible W A
lookup missing m w = (found_or missing (m w).0, (m w).1)

-- `actor_id = ?`, which a NULL does not meet.
abbrev pub is_actor : Uuid → Option Uuid → Bool
is_actor id none = false
is_actor id (some a) = a == id

-- `email = ? AND successful = false AND created_at >= ?`
abbrev pub is_recent_failure : String → Time → LoginAttempt → Bool
is_recent_failure email since a =
    str_eq a.email email && (not a.successful && leb since a.created_at)

module _ {W : Type 0} (p : Platform W) where
  -- `if x.ID == uuid.Nil { x.ID = uuid.New() }`
  pub new_id : Uuid → Fallible W Uuid
  new_id id w = if id == uuid_nil then always p.uuid_new w else (ok id, w)

  module _ (g : Gorm W User) where
    create_user : User → Fallible W User
    unfolding new_id
    create_user u = do id ← new_id u.id; statement (g.create (record u { id = id }))

    find_user_by_email : String → Fallible W User
    find_user_by_email email = lookup user_not_found (g.first (λ u. str_eq u.email email))

    find_user_by_id : Uuid → Fallible W User
    find_user_by_id id = lookup user_not_found (g.first (λ u. u.id == id))

    list_users : Fallible W (List User)
    list_users = statement (g.find_latest (λ u. true) none)

    update_user_role : Uuid → Role → Fallible W Unit
    update_user_role id role =
        statement (g.update (λ u. u.id == id) (λ u. record u { role = role }))

    unfoldable pub user_repository : UserRepository W
    unfolding create_user find_user_by_email find_user_by_id list_users update_user_role
    user_repository = record {
      create = create_user;
      find_by_email = find_user_by_email;
      find_by_id = find_user_by_id;
      list = list_users;
      update_role = update_user_role;
    }

  module _ (g : Gorm W RefreshToken) where
    create_token : RefreshToken → Fallible W RefreshToken
    unfolding new_id
    create_token t = do id ← new_id t.id; statement (g.create (record t { id = id }))

    find_token_by_hash : String → Fallible W RefreshToken
    find_token_by_hash hash = lookup token_not_found (g.first (λ t. str_eq t.token_hash hash))

    revoke_token : Uuid → Fallible W Unit
    revoke_token id = do
      now ← always p.time_now
      statement (g.update (λ t. t.id == id) (λ t. record t { revoked_at = some now }))

    unfoldable pub token_repository : TokenRepository W
    unfolding create_token find_token_by_hash revoke_token
    token_repository = record {
      create = create_token;
      find_by_hash = find_token_by_hash;
      revoke = revoke_token;
    }

  module _ (g : Gorm W LoginAttempt) where
    create_attempt : LoginAttempt → Fallible W LoginAttempt
    unfolding new_id
    create_attempt a = do id ← new_id a.id; statement (g.create (record a { id = id }))

    count_recent_failed : String → Time → Fallible W ℕ
    count_recent_failed email since = statement (g.count (is_recent_failure email since))

    list_recent_by_email : String → ℕ → Fallible W (List LoginAttempt)
    list_recent_by_email email limit =
        statement (g.find_latest (λ a. str_eq a.email email) (some limit))

    unfoldable pub login_attempt_repository : LoginAttemptRepository W
    unfolding create_attempt count_recent_failed list_recent_by_email
    login_attempt_repository = record {
      create = create_attempt;
      count_recent_failed = count_recent_failed;
      list_recent_by_email = list_recent_by_email;
    }

  module _ (g : Gorm W AuditEvent) where
    create_audit : AuditEvent → Fallible W AuditEvent
    unfolding new_id
    create_audit e = do id ← new_id e.id; statement (g.create (record e { id = id }))

    list_recent_by_actor : Uuid → ℕ → Fallible W (List AuditEvent)
    list_recent_by_actor actor_id limit =
        statement (g.find_latest (λ e. is_actor actor_id e.actor_id) (some limit))

    unfoldable pub audit_event_repository : AuditEventRepository W
    unfolding create_audit list_recent_by_actor
    audit_event_repository = record {
      create = create_audit;
      list_recent_by_actor = list_recent_by_actor;
    }
