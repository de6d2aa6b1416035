-- ===== src/Bootstrap.antt =====
-- internal/bootstrap/bootstrap.go: the administrator that is ensured on every start.
pub mod Laws
mod Tests
use backend_infra_assessment.Base.{
  String, Bool, Result, ok, err, caught, pure, raise, ◌>>=◌, ◌>>◌, ◌||◌, str_eq, if◌then◌else◌,
}
use backend_infra_assessment.Domain.{User, UserRepository, role_admin, Error, Fallible}
use backend_infra_assessment.Domain.Errors.{wrapped, errors_is, user_not_found}
use backend_infra_assessment.Database.{Platform}
use backend_infra_assessment.Hash.{hash_password}
use backend_infra_assessment.Auth.{new_user}

pub data Outcome : Type 0 where
  skipped : Outcome
  created : Outcome
  promoted : Outcome
  already_admin : Outcome

abbrev explained : {A : Type 0} → String → Result Error A → Result Error A
explained text (ok a) = ok a
explained text (err e) = err (wrapped text e)

-- `if err := m; err != nil { return "", fmt.Errorf("...: %w", err) }`
abbrev pub wrapping : {W A : Type 0} → String → Fallible W A → Fallible W A
wrapping text m w = (explained text (m w).0, (m w).1)

-- The store is the part of the user repository that EnsureAdmin needs.
module _ {W : Type 0} (p : Platform W) (store : UserRepository W) where
  unfoldable pub promote : User → Fallible W Outcome
  promote existing = if str_eq existing.role role_admin then pure already_admin else (do
    wrapping "promote to admin" (store.update_role existing.id role_admin)
    pure promoted)

  unfoldable pub create_admin : String → String → Fallible W Outcome
  create_admin email password = do
    password_hash ← wrapping "hash bootstrap admin password" (hash_password p password)
    wrapping "create bootstrap admin" (store.create (new_user email password_hash role_admin))
    pure created

  -- The switch on what FindByEmail returned.
  unfoldable pub ensure_found : String → String → Result Error User → Fallible W Outcome
  ensure_found email password (ok existing) = promote existing
  ensure_found email password (err e) =
      if errors_is e user_not_found
      then create_admin email password
      else raise (wrapped "look up bootstrap admin" e)

  unfoldable pub ensure_admin : String → String → Fallible W Outcome
  ensure_admin email password =
      if str_eq email "" || str_eq password ""
      then pure skipped
      else (do found ← caught (store.find_by_email email); ensure_found email password found)
