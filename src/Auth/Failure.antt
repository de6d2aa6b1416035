-- ===== src/Auth/Failure.antt =====
-- What a refresh that fails has done.
use backend_infra_assessment.Base.{
  ◌≡◌, ◌⊎◌, inl, inr, String, none, is_ok, false, Result, Result-cases, Option-cases, Bool-cases,
  arith, ltb, is_some, ap, subst, ◌∙◌, sym, refl, Has,
}
use backend_infra_assessment.Domain.{Error, Time, User, RefreshToken}
use backend_infra_assessment.Hash.{sha256_hex}
use backend_infra_assessment.Database.{Platform}
use backend_infra_assessment.Database.Contract.{Db}
use backend_infra_assessment.Jwt.{JwtLibrary}
use backend_infra_assessment.Auth.{
  AuthService, TokenPair, refresh, refresh_unrevoked, rotate, issue_tokens,
}
use backend_infra_assessment.Auth.Contract.{IsBacked}
use backend_infra_assessment.Auth.Issue.{issue_tokens_err}
use backend_infra_assessment.Auth.Steps.{revoked}

module _ {W : Type 0} (view : W → Db) (clock : W → Time) (p : Platform W) (lib : JwtLibrary)
    (s : AuthService W) (b : IsBacked view clock p s) where
  -- The row was revoked, and no pair could be issued then.
  abbrev pub IsLost : RefreshToken → Db → Db → Type 0
  IsLost rt d d' =
      (now : Time) × (user : User) × (w : W) × (d'
        ≡ record d { tokens = revoked rt.id now d.tokens })
      × (user.id ≡ rt.user_id)
      × (view w ≡ d')
      × (is_ok (issue_tokens p lib s user w).0 ≡ false)

  rotate_err :
      (rt : RefreshToken) (w : W)
      → is_ok (rotate p lib s rt w).0 ≡ false
      → (view (rotate p lib s rt w).1 ≡ view w) ⊎ IsLost rt (view w) (view (rotate p lib s rt w).1)
  unfolding rotate
  rotate_err rt w h =
      let w1 = (s.users.find_by_id rt.user_id w).1 in
      let w2 = (s.tokens.revoke rt.id w1).1 in
      let same = b.users.find_by_id_view rt.user_id w in
      elim (Result-cases (s.users.find_by_id rt.user_id w).0) [
        | inr (x, e) ↦ inl (ground (arith, e, same))
        | inl (user, e) ↦ elim (Result-cases (s.tokens.revoke rt.id w1).0) [
          | inr (x, f) ↦ inl (ground (arith, e, f, same, b.tokens.revoke_err rt.id w1))
          | inl (done, f) ↦
              let (now, after) = b.tokens.revoke_ok rt.id w1 f in
              let failed : is_ok (issue_tokens p lib s user w2).0 ≡ false = rw (e, f) at h in
              let kept = issue_tokens_err view clock p lib s b user w2 failed in
              let (owner, _) = b.users.find_by_id_ok rt.user_id user w e in
              inr (
                now,
                user,
                w2,
                ground (arith, e, f, kept, after, same),
                owner,
                ground (arith, e, f, kept),
                failed,
              )
        ]
      ]

  -- A refresh that fails has changed nothing in the database, unless it found the stored, unrevoked row
  -- of its token: then it may have revoked the rows of that id, where no pair could be issued after
  -- that.
  pub refresh-err :
      (token : String) (w : W)
      → is_ok (refresh p lib s token w).0 ≡ false
      → (view (refresh p lib s token w).1 ≡ view w)
        ⊎ ((rt : RefreshToken) × Has rt (view w).tokens
            × (rt.token_hash ≡ sha256_hex p token)
            × (rt.revoked_at ≡ none)
            × IsLost rt (view w) (view (refresh p lib s token w).1))
  unfolding refresh refresh_unrevoked
  refresh-err token w h =
      let w1 = (s.tokens.find_by_hash (sha256_hex p token) w).1 in
      let w2 = (p.time_now w1).1 in
      let same = b.tokens.find_by_hash_view (sha256_hex p token) w in
      let here : view w2 ≡ view w = b.platform.time_view w1 ∙ same in
      elim (Result-cases (s.tokens.find_by_hash (sha256_hex p token) w).0) [
        | inr (x, e) ↦ inl (ground (arith, e, same))
        | inl (rt, e) ↦ elim (Option-cases rt.revoked_at) [
          | inr (at, gone) ↦ inl (ground (arith, e, gone, same))
          | inl live ↦ elim (Bool-cases (ltb rt.expires_at (p.time_now w1).0)) [
            | inl late ↦ inl (ground (arith, e, live, late, here))
            | inr fresh ↦
                let alive : is_some rt.revoked_at ≡ false = ap is_some live in
                let rotated : refresh p lib s token w ≡ rotate p lib s rt w2 =
                  rw (e, alive, fresh) refl in
                let left : view (refresh p lib s token w).1 ≡ view (rotate p lib s rt w2).1 =
                  ap (λ (x : Result Error TokenPair × W). view x.1) rotated in
                let (hash, stored) = b.tokens.find_by_hash_ok (sha256_hex p token) rt w e in
                elim (rotate_err rt w2 (rw rotated at h)) [
                  | inl kept ↦ inl (left ∙ kept ∙ here)
                  | inr lost ↦ inr (
                    rt,
                    stored,
                    hash,
                    live,
                    subst (λ d. IsLost rt d (view (refresh p lib s token w).1)) here
                        (subst (IsLost rt (view w2)) (sym left) lost),
                  )
                ]
          ]
        ]
      ]
