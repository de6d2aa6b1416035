-- ===== src/Repository/Contract.antt =====
-- What a service may expect of the repositories, in terms of the four tables.
use backend_infra_assessment.Base.{
  List, NewestFirst, length, ◌<◌, ℕ, ◌⊎◌, ◌≤◌, ◌≡◌, String, some, ◌∷◌, ok, err, is_ok, true, false,
  All, Has, count, change, ◌==◌, keep, str_eq,
}
use backend_infra_assessment.Domain.{
  Uuid, Time, Role, User, RefreshToken, LoginAttempt, AuditEvent, UserRepository, TokenRepository,
  LoginAttemptRepository, AuditEventRepository, Error,
}
use backend_infra_assessment.Domain.Errors.{
  is_infrastructure, domain, user_not_found, token_not_found,
}
use backend_infra_assessment.Database.Contract.{Db, Newest, stored_role}
use backend_infra_assessment.Repository.{is_recent_failure, is_actor}

-- The new row is what the caller asked for, up to the id, the times and an empty role, which
-- are filled in.
pub record IsUserRepository {W : Type 0} (view : W → Db) (clock : W → Time) (r : UserRepository W)
    : Type 0 where
  pub create_ok :
      (u u' : User) (w : W)
      → (r.create u w).0 ≡ ok u'
      → (view (r.create u w).1 ≡ record (view w) { users = u' ∷ (view w).users })
        × (u'.email ≡ u.email)
        × (u'.password_hash ≡ u.password_hash)
        × (u'.role ≡ stored_role u.role)
        × All (λ v. ¬ (v.email ≡ u'.email)) (view w).users
  pub create_err :
      (u : User) (w : W) → is_ok (r.create u w).0 ≡ false → view (r.create u w).1 ≡ view w
  pub create_error :
      (u : User) (e : Error) (w : W) → (r.create u w).0 ≡ err e → is_infrastructure e ≡ true
  pub find_by_email_error :
      (email : String) (e : Error) (w : W)
      → (r.find_by_email email w).0 ≡ err e
      → (e ≡ domain user_not_found) ⊎ (is_infrastructure e ≡ true)
  pub find_by_id_error :
      (id : Uuid) (e : Error) (w : W)
      → (r.find_by_id id w).0 ≡ err e
      → (e ≡ domain user_not_found) ⊎ (is_infrastructure e ≡ true)
  pub list_error : (e : Error) (w : W) → (r.list w).0 ≡ err e → is_infrastructure e ≡ true
  pub update_role_error :
      (id : Uuid) (role : Role) (e : Error) (w : W)
      → (r.update_role id role w).0 ≡ err e
      → is_infrastructure e ≡ true
  pub find_by_email_ok :
      (email : String) (u : User) (w : W)
      → (r.find_by_email email w).0 ≡ ok u
      → (u.email ≡ email) × Has u (view w).users
  pub find_by_email_missing :
      (email : String) (w : W)
      → (r.find_by_email email w).0 ≡ err (domain user_not_found)
      → All (λ u. ¬ (u.email ≡ email)) (view w).users
  pub find_by_email_clock : (email : String) (w : W) → clock w ≤ clock (r.find_by_email email w).1
  pub find_by_email_view : (email : String) (w : W) → view (r.find_by_email email w).1 ≡ view w
  pub find_by_id_ok :
      (id : Uuid) (u : User) (w : W)
      → (r.find_by_id id w).0 ≡ ok u
      → (u.id ≡ id) × Has u (view w).users
  pub find_by_id_view : (id : Uuid) (w : W) → view (r.find_by_id id w).1 ≡ view w
  pub list_view : (w : W) → view (r.list w).1 ≡ view w
  pub update_role_ok :
      (id : Uuid) (role : Role) (w : W)
      → (r.update_role id role w).0 ≡ ok tt
      → (now : Time) × (view (r.update_role id role w).1 ≡ record (view w) {
        users =
            change
              (λ u. u.id == id)
              (λ u. record u { role = role; updated_at = now })
              (view w).users;
      })
  pub update_role_err :
      (id : Uuid) (role : Role) (w : W)
      → is_ok (r.update_role id role w).0 ≡ false
      → view (r.update_role id role w).1 ≡ view w

pub record IsTokenRepository {W : Type 0} (view : W → Db) (clock : W → Time) (r : TokenRepository W)
    : Type 0 where
  pub create_ok :
      (t t' : RefreshToken) (w : W)
      → (r.create t w).0 ≡ ok t'
      → (view (r.create t w).1 ≡ record (view w) { tokens = t' ∷ (view w).tokens })
        × (t'.user_id ≡ t.user_id)
        × (t'.token_hash ≡ t.token_hash)
        × (t'.expires_at ≡ t.expires_at)
        × (t'.revoked_at ≡ t.revoked_at)
        × All (λ s. ¬ (s.token_hash ≡ t'.token_hash)) (view w).tokens
  pub create_err :
      (t : RefreshToken) (w : W) → is_ok (r.create t w).0 ≡ false → view (r.create t w).1 ≡ view w
  pub create_clock : (t : RefreshToken) (w : W) → clock w ≤ clock (r.create t w).1
  pub create_error :
      (t : RefreshToken) (e : Error) (w : W) → (r.create t w).0 ≡ err e → is_infrastructure e ≡ true
  pub find_by_hash_error :
      (hash : String) (e : Error) (w : W)
      → (r.find_by_hash hash w).0 ≡ err e
      → (e ≡ domain token_not_found) ⊎ (is_infrastructure e ≡ true)
  pub revoke_error :
      (id : Uuid) (e : Error) (w : W) → (r.revoke id w).0 ≡ err e → is_infrastructure e ≡ true
  pub find_by_hash_ok :
      (hash : String) (t : RefreshToken) (w : W)
      → (r.find_by_hash hash w).0 ≡ ok t
      → (t.token_hash ≡ hash) × Has t (view w).tokens
  pub find_by_hash_missing :
      (hash : String) (w : W)
      → (r.find_by_hash hash w).0 ≡ err (domain token_not_found)
      → All (λ t. ¬ (t.token_hash ≡ hash)) (view w).tokens
  pub find_by_hash_view : (hash : String) (w : W) → view (r.find_by_hash hash w).1 ≡ view w
  pub revoke_ok :
      (id : Uuid) (w : W)
      → (r.revoke id w).0 ≡ ok tt
      → (now : Time) × (view (r.revoke id w).1 ≡ record (view w) {
        tokens = change (λ t. t.id == id) (λ t. record t { revoked_at = some now }) (view w).tokens;
      })
  pub revoke_err :
      (id : Uuid) (w : W) → is_ok (r.revoke id w).0 ≡ false → view (r.revoke id w).1 ≡ view w

pub record IsAttemptRepository {W : Type 0} (view : W → Db) (clock : W → Time)
    (r : LoginAttemptRepository W) : Type 0 where
  pub create_ok :
      (a a' : LoginAttempt) (w : W)
      → (r.create a w).0 ≡ ok a'
      → (view (r.create a w).1 ≡ record (view w) { attempts = a' ∷ (view w).attempts })
        × (a'.email ≡ a.email)
        × (a'.ip_address ≡ a.ip_address)
        × (a'.successful ≡ a.successful)
        × (a.created_at ≡ 0 → clock w ≤ a'.created_at)
  pub create_err :
      (a : LoginAttempt) (w : W) → is_ok (r.create a w).0 ≡ false → view (r.create a w).1 ≡ view w
  pub create_clock : (a : LoginAttempt) (w : W) → clock w ≤ clock (r.create a w).1
  pub count_clock :
      (email : String) (since : Time) (w : W)
      → clock w ≤ clock (r.count_recent_failed email since w).1
  pub count_error :
      (email : String) (since : Time) (e : Error) (w : W)
      → (r.count_recent_failed email since w).0 ≡ err e
      → is_infrastructure e ≡ true
  pub count_ok :
      (email : String) (since : Time) (n : ℕ) (w : W)
      → (r.count_recent_failed email since w).0 ≡ ok n
      → n ≡ count (is_recent_failure email since) (view w).attempts
  pub count_view :
      (email : String) (since : Time) (w : W)
      → view (r.count_recent_failed email since w).1 ≡ view w
  pub list_ok :
      (email : String) (limit : ℕ) (rows : List LoginAttempt) (w : W)
      → (r.list_recent_by_email email limit w).0 ≡ ok rows
      → NewestFirst (λ a. a.created_at) rows
        × All (λ a. (a.email ≡ email) × Has a (view w).attempts) rows
        × (0 < limit → length rows ≤ limit)
        × Newest
            (λ a. a.created_at)
            (some limit)
            (keep (λ a. str_eq a.email email) (view w).attempts)
            rows
  pub list_view :
      (email : String) (limit : ℕ) (w : W) → view (r.list_recent_by_email email limit w).1 ≡ view w

-- An event is appended as the caller describes it, up to the id and the time that are filled in.
pub record IsAuditRepository {W : Type 0} (view : W → Db) (clock : W → Time)
    (r : AuditEventRepository W) : Type 0 where
  pub create_ok :
      (e e' : AuditEvent) (w : W)
      → (r.create e w).0 ≡ ok e'
      → (view (r.create e w).1 ≡ record (view w) { audits = e' ∷ (view w).audits })
        × (e' ≡ record e { id = e'.id; created_at = e'.created_at })
        × (e.created_at ≡ 0 → clock w ≤ e'.created_at)
  pub create_err :
      (e : AuditEvent) (w : W) → is_ok (r.create e w).0 ≡ false → view (r.create e w).1 ≡ view w
  pub list_ok :
      (actor : Uuid) (limit : ℕ) (rows : List AuditEvent) (w : W)
      → (r.list_recent_by_actor actor limit w).0 ≡ ok rows
      → NewestFirst (λ e. e.created_at) rows
        × All (λ e. (e.actor_id ≡ some actor) × Has e (view w).audits) rows
        × (0 < limit → length rows ≤ limit)
        × Newest
            (λ e. e.created_at)
            (some limit)
            (keep (λ e. is_actor actor e.actor_id) (view w).audits)
            rows
  pub list_view :
      (actor : Uuid) (limit : ℕ) (w : W) → view (r.list_recent_by_actor actor limit w).1 ≡ view w
