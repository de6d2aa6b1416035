-- ===== src/Auth/Refresh.antt =====
-- Refresh and logout.
use backend_infra_assessment.Base.{
  ◌≡◌, ◌≤◌, inl, inr, String, false, none, ok, err, is_ok, ◌∷◌, All, Has, arith, subst,
  Result-cases, >>=-eq-ok, ◌>>◌, refl, ap, ◌∙◌, ltb, Bool-cases, Option-cases, All-Any,
}
use backend_infra_assessment.Domain.{Time, User, RefreshToken}
use backend_infra_assessment.Domain.Errors.{domain, token_not_found}
use backend_infra_assessment.Hash.{sha256_hex}
use backend_infra_assessment.Database.{Platform}
use backend_infra_assessment.Database.Contract.{Db}
use backend_infra_assessment.Jwt.{JwtLibrary}
use backend_infra_assessment.Auth.{
  AuthService, TokenPair, refresh, refresh_unrevoked, rotate, issue_tokens, logout, logout_found,
}
use backend_infra_assessment.Auth.Contract.{IsBacked}
use backend_infra_assessment.Auth.Issue.{IsIssued, issue_tokens_ok}
use backend_infra_assessment.Auth.Steps.{revoked}
use backend_infra_assessment.Auth.Steps.Spent.{IsDead}

dead-live :
    (hash : String) (t : RefreshToken)
    → IsDead hash t
    → t.token_hash ≡ hash
    → t.revoked_at ≡ none
    → ⊥
dead-live hash t (inl other) same live = other same
dead-live hash t (inr gone) same live = ground arith

module _ {W : Type 0} (view : W → Db) (clock : W → Time) (p : Platform W) (lib : JwtLibrary)
    (s : AuthService W) (b : IsBacked view clock p s) where
  -- The exchange of a row for a new pair.
  rotate_ok :
      (rt : RefreshToken) (w : W) (pair : TokenPair)
      → (rotate p lib s rt w).0 ≡ ok pair
      → (user : User) × (now : Time) × (t : RefreshToken) × Has user (view w).users
        × (user.id ≡ rt.user_id)
        × (view (rotate p lib s rt w).1
            ≡ record (view w) { tokens = t ∷ revoked rt.id now (view w).tokens })
        × IsIssued p s user pair t
        × All (λ r. ¬ (r.token_hash ≡ t.token_hash)) (revoked rt.id now (view w).tokens)
  unfolding rotate
  rotate_ok rt w pair h =
      let (user, found, rest, world) =
        >>=-eq-ok (s.users.find_by_id rt.user_id)
          (λ user. s.tokens.revoke rt.id >> issue_tokens p lib s user) w h in
      let w' = (s.users.find_by_id rt.user_id w).1 in
      let (done, cleared, issued, world') =
        >>=-eq-ok (s.tokens.revoke rt.id) (λ _. issue_tokens p lib s user) w' rest in
      let w'' = (s.tokens.revoke rt.id w').1 in
      let (same_id, known) = b.users.find_by_id_ok rt.user_id user w found in
      let (now, after) = b.tokens.revoke_ok rt.id w' cleared in
      let same = b.users.find_by_id_view rt.user_id w in
      let (t, stored, is_issued, later, fresh) =
        issue_tokens_ok view clock p lib s b user w'' pair issued in
      let mid : view w'' ≡ record (view w) { tokens = revoked rt.id now (view w).tokens } =
        ground arith in
      (
        user,
        now,
        t,
        known,
        same_id,
        ground (arith, world, world', stored, mid),
        is_issued,
        subst (λ d. All (λ r. ¬ (r.token_hash ≡ t.token_hash)) d.tokens) mid fresh,
      )

  -- The two tests of a row that was found.
  refresh_unrevoked_ok :
      (rt : RefreshToken) (w : W) (pair : TokenPair)
      → (refresh_unrevoked p lib s rt w).0 ≡ ok pair
      → (clock w ≤ rt.expires_at)
        × (refresh_unrevoked p lib s rt w ≡ rotate p lib s rt (p.time_now w).1)
  unfolding refresh_unrevoked
  refresh_unrevoked_ok rt w pair h =
      let now = b.platform.time_now_lem w in
      elim (Bool-cases (ltb rt.expires_at (p.time_now w).0)) [
        | inl late ↦ absurd (ground (arith, late))
        | inr live ↦ (ground (arith, live), rw live refl)
      ]

  -- A refresh succeeds only for a stored row of the token's hash that is unrevoked and has not
  -- expired, and whose user exists. It revokes the rows of that id and adds one unrevoked row of
  -- the same user for the new token, whose hash no row had; the other tables stay as they are.
  pub refresh-ok :
      (token : String) (w : W) (pair : TokenPair)
      → (refresh p lib s token w).0 ≡ ok pair
      → (rt : RefreshToken) × (user : User) × (now : Time) × (t : RefreshToken) × Has rt
          (view w).tokens
        × (rt.token_hash ≡ sha256_hex p token)
        × (rt.revoked_at ≡ none)
        × (clock (s.tokens.find_by_hash (sha256_hex p token) w).1 ≤ rt.expires_at)
        × Has user (view w).users
        × (user.id ≡ rt.user_id)
        × (view (refresh p lib s token w).1
            ≡ record (view w) { tokens = t ∷ revoked rt.id now (view w).tokens })
        × IsIssued p s user pair t
        × All (λ r. ¬ (r.token_hash ≡ t.token_hash)) (revoked rt.id now (view w).tokens)
  unfolding refresh
  refresh-ok token w pair h =
      let w' = (s.tokens.find_by_hash (sha256_hex p token) w).1 in
      let same = b.tokens.find_by_hash_view (sha256_hex p token) w in
      elim (Result-cases (s.tokens.find_by_hash (sha256_hex p token) w).0) [
        | inr (x, e) ↦ absurd (ground (arith, e))
        | inl (rt, e) ↦ elim (Option-cases rt.revoked_at) [
          | inr (at, gone) ↦ absurd (ground (arith, e, gone))
          | inl live ↦
              let (hash, stored) = b.tokens.find_by_hash_ok (sha256_hex p token) rt w e in
              let (in_time, exchanged) =
                refresh_unrevoked_ok rt w' pair (ground (arith, e, live)) in
              let w'' = (p.time_now w').1 in
              let here : view w'' ≡ view w = b.platform.time_view w' ∙ same in
              let (user, now, t, known, same_id, after, issued, fresh) =
                rotate_ok rt w'' pair (ground (arith, e, live, exchanged)) in
              (
                rt,
                user,
                now,
                t,
                stored,
                hash,
                live,
                in_time,
                subst (λ d. Has user d.users) here known,
                same_id,
                ground (arith, e, live, exchanged, after, here),
                issued,
                subst (λ d. All (λ r. ¬ (r.token_hash ≡ t.token_hash)) (revoked rt.id now d.tokens))
                    here fresh,
              )
        ]
      ]

  -- A token whose rows are all revoked cannot be exchanged.
  pub refresh-dead :
      (token : String) (w : W)
      → All (IsDead (sha256_hex p token)) (view w).tokens
      → is_ok (refresh p lib s token w).0 ≡ false
  refresh-dead token w dead = elim (Result-cases (refresh p lib s token w).0) [
    | inr (x, e) ↦ rw e refl
    | inl (pair, e) ↦
        let (rt, user, now, t, stored, hash, live, _, _, _, _, _, _) = refresh-ok token w pair e in
        absurd (
          All-Any _ _ (view w).tokens
            (λ r d is.
              dead-live (sha256_hex p token) r d (ap (λ (x : RefreshToken). x.token_hash) is ∙ hash)
                (ap (λ (x : RefreshToken). x.revoked_at) is ∙ live))
            dead stored)
  ]

  -- A logout that finds the row of a token and succeeds has revoked the rows of its id.
  pub logout-ok :
      (token : String) (w : W) (rt : RefreshToken)
      → (s.tokens.find_by_hash (sha256_hex p token) w).0 ≡ ok rt
      → (logout p lib s token w).0 ≡ ok tt
      → (now : Time) × Has rt (view w).tokens
        × (rt.token_hash ≡ sha256_hex p token)
        × (view (logout p lib s token w).1
            ≡ record (view w) { tokens = revoked rt.id now (view w).tokens })
  unfolding logout logout_found
  logout-ok token w rt e h =
      let w' = (s.tokens.find_by_hash (sha256_hex p token) w).1 in
      let same = b.tokens.find_by_hash_view (sha256_hex p token) w in
      let (hash, stored) = b.tokens.find_by_hash_ok (sha256_hex p token) rt w e in
      let (now, after) = b.tokens.revoke_ok rt.id w' (ground (arith, e)) in
      (now, stored, hash, ground (arith, e, after))

  -- A logout with a token that has no row succeeds and leaves the database as it was.
  pub logout-missing :
      (token : String) (w : W)
      → (s.tokens.find_by_hash (sha256_hex p token) w).0 ≡ err (domain token_not_found)
      → ((logout p lib s token w).0 ≡ ok tt) × (view (logout p lib s token w).1 ≡ view w)
  unfolding logout logout_found
  logout-missing token w e = ground (arith, e, b.tokens.find_by_hash_view (sha256_hex p token) w)
