-- ===== src/Auth/Steps.antt =====
-- An abstract description of what the service may do to the tables, one write at a time, and what
-- is true of every run of such writes.
pub mod Spent
pub mod Kept
use backend_infra_assessment.Base.{
  ◌≡◌, ◌⊎◌, inl, inr, String, true, some, none, List, [], ◌∷◌, ◌++◌, All, Any, Has, Unique, change,
  ◌==◌, ==_iff, is_some, All-imp, All-Any, Any-imp, arith, refl, ap, sym, false, ◌∙◌, subst, Bool,
  if◌then◌else◌,
}
use backend_infra_assessment.Domain.{Uuid, Time, User, RefreshToken, LoginAttempt, role_viewer}
use backend_infra_assessment.Database.Contract.{Db}

-- One write.
pub data Step : Db → Db → Type 0 where
  add_viewer :
      (d : Db) (u : User)
      → u.role ≡ role_viewer
      → All (λ v. ¬ (v.email ≡ u.email)) d.users
      → Step d (record d { users = u ∷ d.users })
  add_attempt : (d : Db) (a : LoginAttempt) → Step d (record d { attempts = a ∷ d.attempts })
  add_token :
      (d : Db) (t : RefreshToken)
      → t.revoked_at ≡ none
      → All (λ r. ¬ (r.token_hash ≡ t.token_hash)) d.tokens
      → Step d (record d { tokens = t ∷ d.tokens })
  revoke :
      (d : Db) (id : Uuid) (now : Time)
      → Step d (record d {
        tokens = change (λ t. t.id == id) (λ t. record t { revoked_at = some now }) d.tokens;
      })

-- Writes one after another.
pub data Steps (d : Db) : Db → Type 0 where
  done : Steps d d
  more : {e f : Db} → Steps d e → Step e f → Steps d f

pub Steps-trans : {d e f : Db} → Steps d e → Steps e f → Steps d f
Steps-trans r done = r
Steps-trans r (more q st) = more (Steps-trans r q) st

pub Steps-one : {d e : Db} → Step d e → Steps d e
Steps-one st = more done st

pub Steps-eq : {d e : Db} → e ≡ d → Steps d e
Steps-eq {d} h = subst (λ x. Steps d x) (sym h) done

-- The unique columns hold no value twice.
pub record IsWellFormed (d : Db) : Type 0 where
  pub emails : Unique (λ u. u.email) d.users
  pub hashes : Unique (λ t. t.token_hash) d.tokens

-- A revocation keeps the hashes.
abbrev pub revoked_if : Time → Bool → RefreshToken → RefreshToken
revoked_if now b t = if b then record t { revoked_at = some now } else t

module _ (id : Uuid) (now : Time) where
  abbrev pub revoked : List RefreshToken → List RefreshToken
  revoked = change (λ t. t.id == id) (λ t. record t { revoked_at = some now })

  hash_kept : (b : Bool) (t : RefreshToken) → (revoked_if now b t).token_hash ≡ t.token_hash
  hash_kept b t = ground arith

  All-revoked :
      (P : String → Type 0) (ts : List RefreshToken)
      → All (λ t. P t.token_hash) ts
      → All (λ t. P t.token_hash) (revoked ts)
  All-revoked P [] h = tt
  All-revoked P (t ∷ ts) (h, hs) = (subst P (sym (hash_kept (t.id == id) t)) h, All-revoked P ts hs)

  pub Any-revoked :
      (P : String → Type 0) (ts : List RefreshToken)
      → Any (λ t. P t.token_hash) ts
      → Any (λ t. P t.token_hash) (revoked ts)
  Any-revoked P [] h = h
  Any-revoked P (t ∷ ts) (inl h) = inl (subst P (sym (hash_kept (t.id == id) t)) h)
  Any-revoked P (t ∷ ts) (inr h) = inr (Any-revoked P ts h)

  Unique-revoked :
      (ts : List RefreshToken)
      → Unique (λ t. t.token_hash) ts
      → Unique (λ t. t.token_hash) (revoked ts)
  Unique-revoked [] h = tt
  Unique-revoked (t ∷ ts) (h, hs) = (
    All-revoked (λ s. ¬ (s ≡ (revoked_if now (t.id == id) t).token_hash)) ts
        (subst (λ k. All (λ r. ¬ (r.token_hash ≡ k)) ts) (sym (hash_kept (t.id == id) t)) h),
    Unique-revoked ts hs,
  )

pub Step-IsWellFormed : {d e : Db} → Step d e → IsWellFormed d → IsWellFormed e
Step-IsWellFormed (add_viewer d u role fresh) v = record {
  emails = (fresh, v.emails);
  hashes = v.hashes;
}
Step-IsWellFormed (add_attempt d a) v = record { emails = v.emails; hashes = v.hashes }
Step-IsWellFormed (add_token d t live fresh) v = record {
  emails = v.emails;
  hashes = (fresh, v.hashes);
}
Step-IsWellFormed (revoke d id now) v = record {
  emails = v.emails;
  hashes = Unique-revoked id now d.tokens v.hashes;
}

pub Steps-IsWellFormed : {d e : Db} → Steps d e → IsWellFormed d → IsWellFormed e
Steps-IsWellFormed done v = v
Steps-IsWellFormed (more r st) v = Step-IsWellFormed st (Steps-IsWellFormed r v)

-- The users of `e` are those of `d`, unchanged, and new ones who are all viewers.
pub record AddsViewers (d e : Db) : Type 0 where
  pub added : List User
  pub grown : e.users ≡ added ++ d.users
  pub viewers : All (λ u. u.role ≡ role_viewer) added

Step-AddsViewers : {d e f : Db} → Step e f → AddsViewers d e → AddsViewers d f
Step-AddsViewers (add_viewer e u role fresh) h = record {
  added = u ∷ h.added;
  grown = ap (λ us. u ∷ us) h.grown;
  viewers = (role, h.viewers);
}
Step-AddsViewers (add_attempt e a) h = record {
  added = h.added;
  grown = h.grown;
  viewers = h.viewers;
}
Step-AddsViewers (add_token e t live fresh) h = record {
  added = h.added;
  grown = h.grown;
  viewers = h.viewers;
}
Step-AddsViewers (revoke e id now) h = record {
  added = h.added;
  grown = h.grown;
  viewers = h.viewers;
}

pub Steps-AddsViewers : {d e : Db} → Steps d e → AddsViewers d e
Steps-AddsViewers done = record { added = []; grown = refl; viewers = tt }
Steps-AddsViewers (more r st) = Step-AddsViewers st (Steps-AddsViewers r)
