-- ===== src/Auth/Trace.antt =====
-- The operations of internal/service/auth_service.go as runs of the abstract writes.
use backend_infra_assessment.Base.{
  ◌≡◌, inl, inr, String, Bool, true, false, ok, err, All, arith, subst, Result-cases, Result, refl,
  ap, ◌∙◌, sym, ltb, Bool-cases, Option-cases,
}
use backend_infra_assessment.Domain.{Time, User, RefreshToken, Error}
use backend_infra_assessment.Domain.Errors.{user_not_found, errors_is}
use backend_infra_assessment.Database.{Platform}
use backend_infra_assessment.Database.Contract.{Db}
use backend_infra_assessment.Hash.{check_password, sha256_hex}
use backend_infra_assessment.Jwt.{JwtLibrary}
use backend_infra_assessment.Auth.{
  AuthService, register, login, login_unlocked, login_found, reject, accept, record_attempt,
  refresh, refresh_unrevoked, rotate, issue_tokens, logout, logout_found,
}
use backend_infra_assessment.Auth.Contract.{IsBacked}
use backend_infra_assessment.Auth.Issue.{
  issue_tokens_ok, issue_tokens_err, record_attempt_view, record_attempt_lem,
}
use backend_infra_assessment.Auth.Login.{count_failures, counted_view, login_cases}
use backend_infra_assessment.Auth.Register.{register-ok, register-err}
use backend_infra_assessment.Auth.Steps.{
  Step, add_viewer, add_attempt, add_token, revoke, Steps, Steps-trans, Steps-one, Steps-eq,
}

module _ {W : Type 0} (view : W → Db) (clock : W → Time) (p : Platform W) (lib : JwtLibrary)
    (s : AuthService W) (b : IsBacked view clock p s) where
  -- A write that takes `view w` to `e` is one step.
  Step-to : {d e f : Db} → Step d e → f ≡ e → Steps d f
  Step-to {d} st h = subst (λ x. Steps d x) (sym h) (Steps-one st)

  pub register-Steps :
      (email password : String) (w : W)
      → Steps (view w) (view (register p lib s email password w).1)
  register-Steps email password w = elim (Result-cases (register p lib s email password w).0) [
    | inr (x, e) ↦ Steps-eq (register-err view clock p lib s b email password w (rw e refl))
    | inl (u, e) ↦
        let (after, addr, role, _, fresh) = register-ok view clock p lib s b email password w u e in
        Step-to
          (add_viewer (view w) u role
            (subst (λ a. All (λ v. ¬ (v.email ≡ a)) (view w).users) (sym addr) fresh))
          after
  ]

  record_attempt-Steps :
      (email ip : String) (successful : Bool) (w : W)
      → Steps (view w) (view (record_attempt p lib s email ip successful w).1)
  record_attempt-Steps email ip successful w =
      elim (record_attempt_view view clock p lib s b email ip successful w) [
        | inl (_, same) ↦ Steps-eq same
        | inr (a, stored, _, _) ↦ Step-to (add_attempt (view w) a) stored
      ]

  issue_tokens-Steps : (user : User) (w : W) → Steps (view w) (view (issue_tokens p lib s user w).1)
  issue_tokens-Steps user w = elim (Result-cases (issue_tokens p lib s user w).0) [
    | inr (x, e) ↦ Steps-eq (issue_tokens_err view clock p lib s b user w (rw e refl))
    | inl (pair, e) ↦
        let (t, stored, (_, _, live), _, fresh) =
          issue_tokens_ok view clock p lib s b user w pair e in
        Step-to (add_token (view w) t live fresh) stored
  ]

  accept-Steps :
      (email ip : String) (user : User) (w : W)
      → Steps (view w) (view (accept p lib s email ip user w).1)
  unfolding accept
  accept-Steps email ip user w =
      let w' = (record_attempt p lib s email ip true w).1 in
      rw (record_attempt_lem view clock p lib s b email ip true w)
        (Steps-trans (record_attempt-Steps email ip true w) (issue_tokens-Steps user w'))

  reject-Steps : (email ip : String) (w : W) → Steps (view w) (view (reject p lib s email ip w).1)
  unfolding reject
  reject-Steps email ip w =
      rw (record_attempt_lem view clock p lib s b email ip false w)
        (record_attempt-Steps email ip false w)

  login_found-Steps :
      (email password ip : String) (r : Result Error User) (w : W)
      → Steps (view w) (view (login_found p lib s email password ip r w).1)
  unfolding login_found
  login_found-Steps email password ip (ok user) w =
      elim (Option-cases (check_password p user.password_hash password)) [
        | inl right ↦ rw right (accept-Steps email ip user w)
        | inr (x, wrong) ↦ rw wrong (reject-Steps email ip w)
      ]
  login_found-Steps email password ip (err x) w = elim (Bool-cases (errors_is x user_not_found)) [
    | inl missing ↦ rw missing (reject-Steps email ip w)
    | inr broken ↦ rw broken (Steps-eq refl)
  ]

  pub login-Steps :
      (email password ip : String) (w : W)
      → Steps (view w) (view (login p lib s email password ip w).1)
  unfolding login_unlocked
  login-Steps email password ip w =
      let w' = (count_failures view clock p lib s b email w).1 in
      let same = counted_view view clock p lib s b email w in
      let here = b.users.find_by_email_view email w' ∙ same in
      elim (login_cases view clock p lib s b email password ip w) [
        | inl (_, world, _) ↦ Steps-eq (ap view world ∙ same)
        | inr (free, unlocked) ↦ rw unlocked (
            Steps-trans (Steps-eq here) (
              login_found-Steps email password ip (s.users.find_by_email email w').0
                (s.users.find_by_email email w').1))
      ]

  rotate-Steps : (rt : RefreshToken) (w : W) → Steps (view w) (view (rotate p lib s rt w).1)
  unfolding rotate
  rotate-Steps rt w =
      let w' = (s.users.find_by_id rt.user_id w).1 in
      let w'' = (s.tokens.revoke rt.id w').1 in
      let same = b.users.find_by_id_view rt.user_id w in
      elim (Result-cases (s.users.find_by_id rt.user_id w).0) [
        | inr (x, e) ↦ rw e (Steps-eq same)
        | inl (user, e) ↦ elim (Result-cases (s.tokens.revoke rt.id w').0) [
          | inr (x, f) ↦ rw (e, f) (Steps-eq (b.tokens.revoke_err rt.id w' (rw f refl) ∙ same))
          | inl (done, f) ↦
              let (now, cleared) = b.tokens.revoke_ok rt.id w' f in
              rw (e, f)
                (Steps-trans (Steps-eq same) (
                  Steps-trans (Step-to (revoke (view w') rt.id now) cleared)
                    (issue_tokens-Steps user w'')))
        ]
      ]

  pub refresh-Steps : (token : String) (w : W) → Steps (view w) (view (refresh p lib s token w).1)
  unfolding refresh refresh_unrevoked
  refresh-Steps token w =
      let w' = (s.tokens.find_by_hash (sha256_hex p token) w).1 in
      let w'' = (p.time_now w').1 in
      let same = b.tokens.find_by_hash_view (sha256_hex p token) w in
      let now = b.platform.time_view w' ∙ same in
      elim (Result-cases (s.tokens.find_by_hash (sha256_hex p token) w).0) [
        | inr (x, e) ↦ rw e (Steps-eq same)
        | inl (rt, e) ↦ elim (Option-cases rt.revoked_at) [
          | inr (at, gone) ↦ Steps-eq (ground (arith, e, gone))
          | inl live ↦ elim (Bool-cases (ltb rt.expires_at (p.time_now w').0)) [
            | inl late ↦ Steps-eq (ground (arith, e, live, late))
            | inr in_time ↦
                let taken : (refresh p lib s token w).1 ≡ (rotate p lib s rt w'').1 =
                  ground (arith, e, live, in_time) in
                subst (λ x. Steps (view w) (view x)) (sym taken)
                  (Steps-trans (Steps-eq now) (rotate-Steps rt w''))
          ]
        ]
      ]

  pub logout-Steps : (token : String) (w : W) → Steps (view w) (view (logout p lib s token w).1)
  unfolding logout logout_found
  logout-Steps token w =
      let w' = (s.tokens.find_by_hash (sha256_hex p token) w).1 in
      let same = b.tokens.find_by_hash_view (sha256_hex p token) w in
      elim (Result-cases (s.tokens.find_by_hash (sha256_hex p token) w).0) [
        | inr (x, e) ↦ Steps-eq (ground (arith, e))
        | inl (rt, e) ↦ elim (Result-cases (s.tokens.revoke rt.id w').0) [
          | inr (x, f) ↦ Steps-eq (ground (arith, e, f, b.tokens.revoke_err rt.id w'))
          | inl (done, f) ↦
              let (now, cleared) = b.tokens.revoke_ok rt.id w' f in
              rw e (Steps-trans (Steps-eq same) (Step-to (revoke (view w') rt.id now) cleared))
        ]
      ]
