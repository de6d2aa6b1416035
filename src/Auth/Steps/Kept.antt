-- ===== src/Auth/Steps/Kept.antt =====
-- What no write takes away: users, and the tokens that a user was given.
use backend_infra_assessment.Base.{
  ◌≡◌, String, Bool, true, false, List, [], ◌∷◌, Any, Has, inl, inr, ◌==◌,
}
use backend_infra_assessment.Domain.{Uuid, Time, User, RefreshToken}
use backend_infra_assessment.Database.Contract.{Db}
use backend_infra_assessment.Auth.Steps.{
  add_viewer, add_attempt, add_token, revoke, Steps, done, more, revoked, revoked_if,
}

-- A row of a user and a hash. It never goes, and keeps both.
abbrev pub IsOwned : Uuid → String → RefreshToken → Type 0
IsOwned user_id hash t = (t.user_id ≡ user_id) × (t.token_hash ≡ hash)

IsOwned-if :
    (user_id : Uuid) (hash : String) (now : Time) (b : Bool) (t : RefreshToken)
    → IsOwned user_id hash t
    → IsOwned user_id hash (revoked_if now b t)
IsOwned-if user_id hash now true t h = h
IsOwned-if user_id hash now false t h = h

Any-IsOwned-revoked :
    (user_id : Uuid) (hash : String) (id : Uuid) (now : Time) (ts : List RefreshToken)
    → Any (IsOwned user_id hash) ts
    → Any (IsOwned user_id hash) (revoked id now ts)
Any-IsOwned-revoked user_id hash id now [] h = h
Any-IsOwned-revoked user_id hash id now (t ∷ ts) (inl h) =
    inl (IsOwned-if user_id hash now (t.id == id) t h)
Any-IsOwned-revoked user_id hash id now (t ∷ ts) (inr h) =
    inr (Any-IsOwned-revoked user_id hash id now ts h)

-- A user has a token of this hash.
abbrev pub Owns : Uuid → String → Db → Type 0
Owns user_id hash d = Any (IsOwned user_id hash) d.tokens

pub Steps-Owns :
    (user_id : Uuid) (hash : String) {d e : Db}
    → Steps d e
    → Owns user_id hash d
    → Owns user_id hash e
Steps-Owns user_id hash done h = h
Steps-Owns user_id hash (more r (add_viewer d u role fresh)) h = Steps-Owns user_id hash r h
Steps-Owns user_id hash (more r (add_attempt d a)) h = Steps-Owns user_id hash r h
Steps-Owns user_id hash (more r (add_token d t live fresh)) h = inr (Steps-Owns user_id hash r h)
Steps-Owns user_id hash (more r (revoke d id now)) h =
    Any-IsOwned-revoked user_id hash id now d.tokens (Steps-Owns user_id hash r h)

-- Users stay.
pub Steps-Has : (u : User) {d e : Db} → Steps d e → Has u d.users → Has u e.users
Steps-Has u done h = h
Steps-Has u (more r (add_viewer d v role fresh)) h = inr (Steps-Has u r h)
Steps-Has u (more r (add_attempt d a)) h = Steps-Has u r h
Steps-Has u (more r (add_token d t live fresh)) h = Steps-Has u r h
Steps-Has u (more r (revoke d id now)) h = Steps-Has u r h
