-- ===== src/Auth/Steps/Spent.antt =====
-- Refresh tokens that can no longer be exchanged: no write makes a revoked token valid again.
use backend_infra_assessment.Base.{
  ◌≡◌, ◌⊎◌, inl, inr, String, true, List, [], ◌∷◌, All, Any, Has, Unique, ◌==◌, ==_iff, is_some,
  All-imp, All-Any, Any-imp, refl, ap, sym, false, ◌∙◌, subst, Bool,
}
use backend_infra_assessment.Domain.{Uuid, Time, RefreshToken}
use backend_infra_assessment.Database.Contract.{Db}
use backend_infra_assessment.Auth.Steps.{
  Step, add_viewer, add_attempt, add_token, revoke, Steps, done, more, IsWellFormed, revoked,
  revoked_if, Any-revoked,
}

-- A row that cannot be exchanged under a hash: it has another hash, or is revoked.
abbrev pub IsDead : String → RefreshToken → Type 0
IsDead hash t = (¬ (t.token_hash ≡ hash)) ⊎ (is_some t.revoked_at ≡ true)

-- A token of this hash was issued, and is revoked.
pub record IsSpent (hash : String) (d : Db) : Type 0 where
  pub issued : Any (λ t. t.token_hash ≡ hash) d.tokens
  pub dead : All (IsDead hash) d.tokens

IsDead-if :
    (hash : String) (now : Time) (b : Bool) (t : RefreshToken)
    → IsDead hash t
    → IsDead hash (revoked_if now b t)
IsDead-if hash now true t h = inr refl
IsDead-if hash now false t h = h

All-IsDead-revoked :
    (hash : String) (id : Uuid) (now : Time) (ts : List RefreshToken)
    → All (IsDead hash) ts
    → All (IsDead hash) (revoked id now ts)
All-IsDead-revoked hash id now [] h = tt
All-IsDead-revoked hash id now (t ∷ ts) (h, hs) =
    (IsDead-if hash now (t.id == id) t h, All-IsDead-revoked hash id now ts hs)

Step-hash :
    (hash : String) {d e : Db}
    → Step d e
    → Any (λ t. t.token_hash ≡ hash) d.tokens
    → Any (λ t. t.token_hash ≡ hash) e.tokens
Step-hash hash (add_viewer d u role fresh) h = h
Step-hash hash (add_attempt d a) h = h
Step-hash hash (add_token d t live fresh) h = inr h
Step-hash hash (revoke d id now) h = Any-revoked id now (λ k. k ≡ hash) d.tokens h

-- A spent token stays spent: no later row can have its hash, and no write clears a revocation.
pub Step-IsSpent : (hash : String) {d e : Db} → Step d e → IsSpent hash d → IsSpent hash e
Step-IsSpent hash (add_viewer d u role fresh) s = record { issued = s.issued; dead = s.dead }
Step-IsSpent hash (add_attempt d a) s = record { issued = s.issued; dead = s.dead }
Step-IsSpent hash (add_token d t live fresh) s = record {
  issued = inr s.issued;
  dead = (inl (λ e. All-Any _ _ d.tokens (λ r f g. f (g ∙ sym e)) fresh s.issued), s.dead);
}
Step-IsSpent hash (revoke d id now) s = record {
  issued = Any-revoked id now (λ k. k ≡ hash) d.tokens s.issued;
  dead = All-IsDead-revoked hash id now d.tokens s.dead;
}

pub Steps-IsSpent : (hash : String) {d e : Db} → Steps d e → IsSpent hash d → IsSpent hash e
Steps-IsSpent hash done s = s
Steps-IsSpent hash (more r st) s = Step-IsSpent hash st (Steps-IsSpent hash r s)

IsDead-of_hash :
    (hash : String) (id : Uuid) (now : Time) (ts : List RefreshToken)
    → All (λ r. ¬ (r.token_hash ≡ hash)) ts
    → All (IsDead hash) (revoked id now ts)
IsDead-of_hash hash id now ts h =
    All-IsDead-revoked hash id now ts (All-imp _ (IsDead hash) ts (λ r other. inl other) h)

-- A row of an id and a hash. It never goes, and keeps both.
abbrev pub IsRow : Uuid → String → RefreshToken → Type 0
IsRow id hash t = (t.id ≡ id) × (t.token_hash ≡ hash)

IsRow-if :
    (id : Uuid) (hash : String) (now : Time) (b : Bool) (t : RefreshToken)
    → IsRow id hash t
    → IsRow id hash (revoked_if now b t)
IsRow-if id hash now true t h = h
IsRow-if id hash now false t h = h

Any-IsRow-revoked :
    (id : Uuid) (hash : String) (other : Uuid) (now : Time) (ts : List RefreshToken)
    → Any (IsRow id hash) ts
    → Any (IsRow id hash) (revoked other now ts)
Any-IsRow-revoked id hash other now [] h = h
Any-IsRow-revoked id hash other now (t ∷ ts) (inl h) =
    inl (IsRow-if id hash now (t.id == other) t h)
Any-IsRow-revoked id hash other now (t ∷ ts) (inr h) =
    inr (Any-IsRow-revoked id hash other now ts h)

Step-IsRow :
    (id : Uuid) (hash : String) {d e : Db}
    → Step d e
    → Any (IsRow id hash) d.tokens
    → Any (IsRow id hash) e.tokens
Step-IsRow id hash (add_viewer d u role fresh) h = h
Step-IsRow id hash (add_attempt d a) h = h
Step-IsRow id hash (add_token d t live fresh) h = inr h
Step-IsRow id hash (revoke d other now) h = Any-IsRow-revoked id hash other now d.tokens h

pub Steps-IsRow :
    (id : Uuid) (hash : String) {d e : Db}
    → Steps d e
    → Any (IsRow id hash) d.tokens
    → Any (IsRow id hash) e.tokens
Steps-IsRow id hash done h = h
Steps-IsRow id hash (more r st) h = Step-IsRow id hash st (Steps-IsRow id hash r h)

pub Steps-hash :
    (hash : String) {d e : Db}
    → Steps d e
    → Any (λ t. t.token_hash ≡ hash) d.tokens
    → Any (λ t. t.token_hash ≡ hash) e.tokens
Steps-hash hash done h = h
Steps-hash hash (more r st) h = Step-hash hash st (Steps-hash hash r h)

revoked-IsDead :
    (id : Uuid) (hash : String) (now : Time) (ts : List RefreshToken)
    → Unique (λ r. r.token_hash) ts
    → Any (IsRow id hash) ts
    → All (IsDead hash) (revoked id now ts)
revoked-IsDead id hash now [] u h = tt
revoked-IsDead id hash now (x ∷ ts) (fresh, u) (inl (e, same)) = (
  inr (rw ((==_iff x.id id).1 e) refl),
  IsDead-of_hash hash id now ts (subst (λ k. All (λ r. ¬ (r.token_hash ≡ k)) ts) same fresh),
)
revoked-IsDead id hash now (x ∷ ts) (fresh, u) (inr h) = (
  IsDead-if hash now (x.id == id) x
      (inl (λ same. All-Any _ _ ts (λ r other is. other (is.1 ∙ sym same)) fresh h)),
  revoked-IsDead id hash now ts u h,
)

-- Revoking a row by its id spends its hash.
pub revoke-spends :
    (d : Db) (id : Uuid) (hash : String) (now : Time)
    → IsWellFormed d
    → Any (IsRow id hash) d.tokens
    → IsSpent hash (record d { tokens = revoked id now d.tokens })
revoke-spends d id hash now v h = record {
  issued = Any-revoked id now (λ k. k ≡ hash) d.tokens (Any-imp _ _ d.tokens (λ r is. is.1) h);
  dead = revoked-IsDead id hash now d.tokens v.hashes h;
}

-- A stored row is a row of its id and hash.
pub Has-IsRow :
    (t : RefreshToken) (ts : List RefreshToken) → Has t ts → Any (IsRow t.id t.token_hash) ts
Has-IsRow t ts h =
    Any-imp _ _ ts
      (λ r is. (ap (λ (y : RefreshToken). y.id) is, ap (λ (y : RefreshToken). y.token_hash) is)) h
