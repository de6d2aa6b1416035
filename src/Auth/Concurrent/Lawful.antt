-- ===== src/Auth/Concurrent/Lawful.antt =====
-- Every statement of internal/service/auth_service.go is a run of the abstract writes.
use backend_infra_assessment.Base.{
  ap, ◌≡◌, refl, sym, subst, ◌∙◌, String, Bool, true, false, Result, ok, err, inl, inr,
  Result-cases, arith, is_some, leb, ltb, none, ◌+◌,
}
use backend_infra_assessment.Base.Programs.{statement, ◌>>=◌}
use backend_infra_assessment.Domain.{
  Time, Uuid, User, RefreshToken, LoginAttempt, role_viewer, Error,
}
use backend_infra_assessment.Domain.Errors.{errors_is, user_not_found, token_not_found}
use backend_infra_assessment.Database.{Platform}
use backend_infra_assessment.Database.Contract.{Db, stored_role}
use backend_infra_assessment.Hash.{hash_password, check_password, sha256_hex}
use backend_infra_assessment.Jwt.{JwtLibrary, generate_access_token, generate_refresh_token}
use backend_infra_assessment.Auth.{AuthService, new_user, new_attempt, new_token}
use backend_infra_assessment.Auth.Contract.{IsBacked}
use backend_infra_assessment.Auth.Sessions.{
  Call, registering, logging_in, refreshing, logging_out, getting, listing,
}
use backend_infra_assessment.Auth.Steps.{
  Step, add_viewer, add_attempt, add_token, revoke, Steps, Steps-one, Steps-eq,
}
use backend_infra_assessment.Auth.Concurrent.{
  create_viewer_program, register_found_program, register_program, record_attempt_program,
  issue_tokens_program, reject_program, accept_program, login_found_program, login_unlocked_program,
  login_program, rotate_program, refresh_unrevoked_program, refresh_program, logout_found_program,
  logout_program, program,
}
use backend_infra_assessment.Auth.Concurrent.Rely.{IsLawful, IsLawful->>=, IsLawful-if}

Step-to : {d e f : Db} → Step d e → f ≡ e → Steps d f
Step-to {d} st h = subst (λ x. Steps d x) (sym h) (Steps-one st)

module _ {W : Type 0} (view : W → Db) (clock : W → Time) (p : Platform W) (lib : JwtLibrary)
    (s : AuthService W) (b : IsBacked view clock p s) where
  -- The statements that write.
  create_user-Steps :
      (u : User) (w : W) → u.role ≡ role_viewer → Steps (view w) (view (s.users.create u w).1)
  create_user-Steps u w viewer = elim (Result-cases (s.users.create u w).0) [
    | inr (x, e) ↦ Steps-eq (b.users.create_err u w (rw e refl))
    | inl (u', e) ↦
        let (stored, addr, _, role, fresh) = b.users.create_ok u u' w e in
        Step-to (add_viewer (view w) u' (role ∙ ap stored_role viewer) fresh) stored
  ]

  pub create_attempt-Steps :
      (a : LoginAttempt) (w : W) → Steps (view w) (view (s.attempts.create a w).1)
  create_attempt-Steps a w = elim (Result-cases (s.attempts.create a w).0) [
    | inr (x, e) ↦ Steps-eq (b.attempts.create_err a w (rw e refl))
    | inl (a', e) ↦
        let (stored, _, _, _, _) = b.attempts.create_ok a a' w e in
        Step-to (add_attempt (view w) a') stored
  ]

  create_token-Steps :
      (t : RefreshToken) (w : W)
      → t.revoked_at ≡ none
      → Steps (view w) (view (s.tokens.create t w).1)
  create_token-Steps t w live = elim (Result-cases (s.tokens.create t w).0) [
    | inr (x, e) ↦ Steps-eq (b.tokens.create_err t w (rw e refl))
    | inl (t', e) ↦
        let (stored, _, _, _, kept, fresh) = b.tokens.create_ok t t' w e in
        Step-to (add_token (view w) t' (kept ∙ live) fresh) stored
  ]

  pub revoke-Steps : (id : Uuid) (w : W) → Steps (view w) (view (s.tokens.revoke id w).1)
  revoke-Steps id w = elim (Result-cases (s.tokens.revoke id w).0) [
    | inr (x, e) ↦ Steps-eq (b.tokens.revoke_err id w (rw e refl))
    | inl (done, e) ↦
        let (now, cleared) = b.tokens.revoke_ok id w e in Step-to (revoke (view w) id now) cleared
  ]

  -- The statements that only read.
  access_view :
      (user : User) (w : W)
      → view (generate_access_token p lib s.jwt user.id user.role w).1 ≡ view w
  unfolding generate_access_token
  access_view user w = b.platform.time_view w

  draw_view : (w : W) → view (generate_refresh_token p lib s.jwt w).1 ≡ view w
  unfolding generate_refresh_token
  draw_view w = ground (arith, b.platform.rand_view 32 w)

  create_viewer-IsLawful :
      (email password : String) → IsLawful view (create_viewer_program p lib s email password)
  unfolding create_viewer_program IsLawful
  create_viewer-IsLawful email password =
      IsLawful->>= view (statement (hash_password p password)) _
        (λ w. Steps-eq (b.platform.generate_view password w), λ x. tt)
        (λ h. (λ w. create_user-Steps (new_user email h role_viewer) w refl, λ x. tt))

  register_found-IsLawful :
      (email password : String) (r : Result Error User)
      → IsLawful view (register_found_program p lib s email password r)
  unfolding register_found_program IsLawful
  register_found-IsLawful email password (ok u) = tt
  register_found-IsLawful email password (err e) =
      IsLawful-if view (errors_is e user_not_found) _ _ (create_viewer-IsLawful email password) tt

  register-IsLawful :
      (email password : String) → IsLawful view (register_program p lib s email password)
  unfolding register_program IsLawful ◌>>=◌
  register-IsLawful email password =
      (λ w. Steps-eq (b.users.find_by_email_view email w), register_found-IsLawful email password)

  record_attempt-IsLawful :
      (email ip : String) (successful : Bool)
      → IsLawful view (record_attempt_program p lib s email ip successful)
  unfolding record_attempt_program IsLawful ◌>>=◌
  record_attempt-IsLawful email ip successful =
      (create_attempt-Steps (new_attempt email ip successful), λ r. tt)

  pub issue_tokens-IsLawful : (user : User) → IsLawful view (issue_tokens_program p lib s user)
  unfolding issue_tokens_program IsLawful
  issue_tokens-IsLawful user =
      IsLawful->>= view _ _ (λ w. Steps-eq (access_view user w), λ x. tt)
        (λ access.
          IsLawful->>= view _ _ (λ w. Steps-eq (draw_view w), λ x. tt)
            (λ refresh.
              IsLawful->>= view _ _ (λ w. Steps-eq (b.platform.time_view w), λ x. tt)
                (λ now.
                  IsLawful->>= view _ _
                    (
                      λ w.
                          create_token-Steps
                            (new_token user.id (sha256_hex p refresh) (now + s.jwt.refresh_ttl)) w
                            refl,
                      λ x. tt,
                    )
                    (λ t. tt))))

  reject-IsLawful : (email ip : String) → IsLawful view (reject_program p lib s email ip)
  unfolding reject_program IsLawful
  reject-IsLawful email ip =
      IsLawful->>= view _ _ (record_attempt-IsLawful email ip false) (λ _. tt)

  accept-IsLawful :
      (email ip : String) (user : User) → IsLawful view (accept_program p lib s email ip user)
  unfolding accept_program
  accept-IsLawful email ip user =
      IsLawful->>= view _ _ (record_attempt-IsLawful email ip true)
        (λ _. issue_tokens-IsLawful user)

  login_found-IsLawful :
      (email password ip : String) (r : Result Error User)
      → IsLawful view (login_found_program p lib s email password ip r)
  unfolding login_found_program IsLawful
  login_found-IsLawful email password ip (ok user) =
      IsLawful-if view (is_some (check_password p user.password_hash password)) _ _
        (reject-IsLawful email ip) (accept-IsLawful email ip user)
  login_found-IsLawful email password ip (err e) =
      IsLawful-if view (errors_is e user_not_found) _ _ (reject-IsLawful email ip) tt

  login_unlocked-IsLawful :
      (email password ip : String)
      → IsLawful view (login_unlocked_program p lib s email password ip)
  unfolding login_unlocked_program IsLawful ◌>>=◌
  login_unlocked-IsLawful email password ip =
      (λ w. Steps-eq (b.users.find_by_email_view email w), login_found-IsLawful email password ip)

  login-IsLawful :
      (email password ip : String) → IsLawful view (login_program p lib s email password ip)
  unfolding login_program IsLawful
  login-IsLawful email password ip =
      IsLawful->>= view _ _ (λ w. Steps-eq (b.platform.time_view w), λ x. tt)
        (λ now.
          IsLawful->>= view _ _ (λ w. Steps-eq (b.attempts.count_view email _ w), λ x. tt)
            (λ n.
              IsLawful-if view (leb s.security.brute_force_max_attempts n) _ _ tt
                (login_unlocked-IsLawful email password ip)))

  rotate-IsLawful : (rt : RefreshToken) → IsLawful view (rotate_program p lib s rt)
  unfolding rotate_program IsLawful
  rotate-IsLawful rt =
      IsLawful->>= view _ _ (λ w. Steps-eq (b.users.find_by_id_view rt.user_id w), λ x. tt)
        (λ user.
          IsLawful->>= view _ _ (revoke-Steps rt.id, λ x. tt) (λ _. issue_tokens-IsLawful user))

  refresh-IsLawful : (token : String) → IsLawful view (refresh_program p lib s token)
  unfolding refresh_program refresh_unrevoked_program IsLawful
  refresh-IsLawful token =
      IsLawful->>= view _ _ (λ w. Steps-eq (b.tokens.find_by_hash_view _ w), λ x. tt)
        (λ rt. IsLawful-if view (is_some rt.revoked_at) _ _ tt (
          IsLawful->>= view _ _ (λ w. Steps-eq (b.platform.time_view w), λ x. tt)
            (λ now. IsLawful-if view (ltb rt.expires_at now) _ _ tt (rotate-IsLawful rt))))

  logout_found-IsLawful :
      (r : Result Error RefreshToken) → IsLawful view (logout_found_program p lib s r)
  unfolding logout_found_program IsLawful
  logout_found-IsLawful (ok rt) = (revoke-Steps rt.id, λ x. tt)
  logout_found-IsLawful (err e) = IsLawful-if view (errors_is e token_not_found) _ _ tt tt

  logout-IsLawful : (token : String) → IsLawful view (logout_program p lib s token)
  unfolding logout_program IsLawful ◌>>=◌
  logout-IsLawful token = (λ w. Steps-eq (b.tokens.find_by_hash_view _ w), logout_found-IsLawful)

  pub program-IsLawful : (c : Call) → IsLawful view (program p lib s c)
  unfolding program IsLawful
  program-IsLawful (registering email password) =
      IsLawful->>= view _ _ (register-IsLawful email password) (λ _. tt)
  program-IsLawful (logging_in email password ip) =
      IsLawful->>= view _ _ (login-IsLawful email password ip) (λ _. tt)
  program-IsLawful (refreshing token) = IsLawful->>= view _ _ (refresh-IsLawful token) (λ _. tt)
  program-IsLawful (logging_out token) = IsLawful->>= view _ _ (logout-IsLawful token) (λ _. tt)
  program-IsLawful (getting id) =
      IsLawful->>= view _ _ (λ w. Steps-eq (b.users.find_by_id_view id w), λ x. tt) (λ _. tt)
  program-IsLawful listing =
      IsLawful->>= view _ _ (λ w. Steps-eq (b.users.list_view w), λ x. tt) (λ _. tt)
