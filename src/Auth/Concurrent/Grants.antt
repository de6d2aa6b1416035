-- ===== src/Auth/Concurrent/Grants.antt =====
-- Who is granted a pair while other requests write between the statements.
use backend_infra_assessment.Base.{
  ◌≡◌, sym, subst, ap, ◌∙◌, String, true, none, ok, err, is_some, Any-imp, Has, Result,
  Result-cases, Option-cases, Bool-cases, inl, inr, leb, ltb, ◌+◌, ◌-◌,
}
use backend_infra_assessment.Base.Programs.{◌>>=◌}
use backend_infra_assessment.Domain.{Uuid, Time, User, RefreshToken, Error}
use backend_infra_assessment.Domain.Errors.{errors_is, user_not_found}
use backend_infra_assessment.Database.{Platform}
use backend_infra_assessment.Database.Contract.{Db}
use backend_infra_assessment.Hash.{check_password, sha256_hex}
use backend_infra_assessment.Jwt.{JwtLibrary, generate_access_token, generate_refresh_token}
use backend_infra_assessment.Auth.{AuthService, TokenPair, new_token, new_attempt}
use backend_infra_assessment.Auth.Contract.{IsBacked}
use backend_infra_assessment.Auth.Steps.{Steps-trans, Steps-eq}
use backend_infra_assessment.Auth.Steps.Kept.{Owns, Steps-Owns, Steps-Has}
use backend_infra_assessment.Auth.Concurrent.{
  issue_tokens_program, reject_program, accept_program, record_attempt_program, login_found_program,
  login_unlocked_program, login_program, rotate_program, refresh_unrevoked_program, refresh_program,
}
use backend_infra_assessment.Auth.Concurrent.Rely.{Outcome, Ensures, Ensures-imp, Ensures-frame}
use backend_infra_assessment.Auth.Concurrent.Lawful.{
  issue_tokens-IsLawful, create_attempt-Steps, revoke-Steps,
}

module _ {W : Type 0} (view : W → Db) (clock : W → Time) (p : Platform W) (lib : JwtLibrary)
    (s : AuthService W) (b : IsBacked view clock p s) where
  -- The refresh token of a pair is stored for a user.
  abbrev Stores : Uuid → Outcome TokenPair
  Stores user_id (ok pair) d = Owns user_id (sha256_hex p pair.refresh_token) d
  Stores user_id (err e) d = Unit

  issue_tokens-Stores :
      (user : User) (d : Db) → Ensures view (Stores user.id) (issue_tokens_program p lib s user) d
  unfolding issue_tokens_program Ensures ◌>>=◌
  issue_tokens-Stores user d = λ w st.
      elim (Result-cases (generate_access_token p lib s.jwt user.id user.role w).0) [
        | inr (x, e) ↦ rw e tt
        | inl (access, e) ↦ rw e (λ w1 st1.
            elim (Result-cases (generate_refresh_token p lib s.jwt w1).0) [
              | inr (x, f) ↦ rw f tt
              | inl (refresh, f) ↦ rw f (λ w2 st2 w3 st3.
                  let row =
                    new_token user.id (sha256_hex p refresh)
                      ((p.time_now w2).0 + s.jwt.refresh_ttl) in
                  elim (Result-cases (s.tokens.create row w3).0) [
                    | inr (x, g) ↦ rw g tt
                    | inl (t, g) ↦
                        let (stored, owner, hash, _, _, _) = b.tokens.create_ok row t w3 g in
                        rw (g, stored) (inl (owner, hash))
                  ])
            ])
      ]

  -- A stored user has the password, and the token of the pair.
  pub record IsAdmitted (email password : String) (pair : TokenPair) (d : Db) : Type 0 where
    pub user : User
    pub known : Has user d.users
    pub address : user.email ≡ email
    pub right : check_password p user.password_hash password ≡ none
    pub owner : Owns user.id (sha256_hex p pair.refresh_token) d

  -- The presented token and that of the pair are of one stored user.
  pub record IsExchanged (token : String) (pair : TokenPair) (d : Db) : Type 0 where
    pub user : User
    pub known : Has user d.users
    pub presented : Owns user.id (sha256_hex p token) d
    pub owner : Owns user.id (sha256_hex p pair.refresh_token) d

  abbrev pub Admits : String → String → Outcome TokenPair
  Admits email password (ok pair) d = IsAdmitted email password pair d
  Admits email password (err e) d = Unit

  abbrev pub Exchanges : String → Outcome TokenPair
  Exchanges token (ok pair) d = IsExchanged token pair d
  Exchanges token (err e) d = Unit

  reject-Admits :
      (email password ip : String) (d : Db)
      → Ensures view (Admits email password) (reject_program p lib s email ip) d
  unfolding reject_program record_attempt_program Ensures ◌>>=◌
  reject-Admits email password ip d = λ w st. tt

  accept-Admits :
      (email password ip : String) (user : User) (d : Db)
      → Has user d.users
      → user.email ≡ email
      → check_password p user.password_hash password ≡ none
      → Ensures view (Admits email password) (accept_program p lib s email ip user) d
  unfolding accept_program record_attempt_program Ensures ◌>>=◌
  accept-Admits email password ip user d known addr right = λ w st.
      let w' = (s.attempts.create (new_attempt email ip true) w).1 in
      let added = create_attempt-Steps view clock p lib s b (new_attempt email ip true) w in
      Ensures-imp view _ (Admits email password) (issue_tokens_program p lib s user) (view w') grant
        (Ensures-frame view (Stores user.id) (λ e. Has user e.users)
          (issue_tokens_program p lib s user) (view w') (λ e f. Steps-Has user)
          (issue_tokens-IsLawful view clock p lib s b user)
          (Steps-Has user (Steps-trans st added) known) (issue_tokens-Stores user (view w')))
    where
      grant :
          (r : Result Error TokenPair) (e : Db)
          → Stores user.id r e × Has user e.users
          → Admits email password r e
      grant (ok pair) e (owner, there) = record {
        user = user;
        known = there;
        address = addr;
        right = right;
        owner = owner;
      }
      grant (err x) e h = tt

  login_found-Admits :
      (email password ip : String) (w : W)
      → Ensures view
          (Admits email password)
          (login_found_program p lib s email password ip (s.users.find_by_email email w).0)
          (view (s.users.find_by_email email w).1)
  unfolding login_found_program Ensures
  login_found-Admits email password ip w =
      let w' = (s.users.find_by_email email w).1 in
      elim (Result-cases (s.users.find_by_email email w).0) [
        | inr (x, e) ↦ elim (Bool-cases (errors_is x user_not_found)) [
          | inl missing ↦ rw (e, missing) (reject-Admits email password ip (view w'))
          | inr broken ↦ rw (e, broken) tt
        ]
        | inl (user, e) ↦ elim (Option-cases (check_password p user.password_hash password)) [
          | inr (x, wrong) ↦ rw (e, wrong) (reject-Admits email password ip (view w'))
          | inl right ↦
              let (addr, known) = b.users.find_by_email_ok email user w e in
              let here =
                subst (λ d. Has user d.users) (sym (b.users.find_by_email_view email w)) known in
              rw (e, right) (accept-Admits email password ip user (view w') here addr right)
        ]
      ]

  pub login-Admits :
      (email password ip : String) (d : Db)
      → Ensures view (Admits email password) (login_program p lib s email password ip) d
  unfolding login_program login_unlocked_program Ensures ◌>>=◌
  login-Admits email password ip d = λ w st w1 st1.
      let since = (p.time_now w).0 - s.security.brute_force_window in
      elim (Result-cases (s.attempts.count_recent_failed email since w1).0) [
        | inr (x, e) ↦ rw e tt
        | inl (n, e) ↦ elim (Bool-cases (leb s.security.brute_force_max_attempts n)) [
          | inl locked ↦ rw (e, locked) tt
          | inr free ↦ rw (e, free) (λ w2 st2. login_found-Admits email password ip w2)
        ]
      ]

  rotate-Exchanges :
      (token : String) (rt : RefreshToken) (d : Db)
      → Owns rt.user_id (sha256_hex p token) d
      → Ensures view (Exchanges token) (rotate_program p lib s rt) d
  unfolding rotate_program Ensures ◌>>=◌
  rotate-Exchanges token rt d own = λ w st.
      let w' = (s.users.find_by_id rt.user_id w).1 in
      elim (Result-cases (s.users.find_by_id rt.user_id w).0) [
        | inr (x, e) ↦ rw e tt
        | inl (user, e) ↦ rw e (λ w2 st2. elim (Result-cases (s.tokens.revoke rt.id w2).0) [
          | inr (x, f) ↦ rw f tt
          | inl (_, f) ↦ rw f (
              let w3 = (s.tokens.revoke rt.id w2).1 in
              let (same, known) = b.users.find_by_id_ok rt.user_id user w e in
              let first = Steps-eq (b.users.find_by_id_view rt.user_id w) in
              let then =
                Steps-trans (Steps-trans first st2) (revoke-Steps view clock p lib s b rt.id w2) in
              let mine =
                subst (λ id. Owns id (sha256_hex p token) (view w3)) (sym same)
                  (Steps-Owns rt.user_id (sha256_hex p token) (Steps-trans st then) own) in
              Ensures-imp view _ (Exchanges token) (issue_tokens_program p lib s user) (view w3)
                (grant user)
                (Ensures-frame view (Stores user.id)
                  (λ e. Has user e.users × Owns user.id (sha256_hex p token) e)
                  (issue_tokens_program p lib s user) (view w3)
                  (λ e f sts h.
                    (Steps-Has user sts h.0, Steps-Owns user.id (sha256_hex p token) sts h.1))
                  (issue_tokens-IsLawful view clock p lib s b user)
                  (Steps-Has user then known, mine) (issue_tokens-Stores user (view w3))))
        ])
      ]
    where
      grant :
          (user : User) (r : Result Error TokenPair) (e : Db)
          → Stores user.id r e × (Has user e.users × Owns user.id (sha256_hex p token) e)
          → Exchanges token r e
      grant user (ok pair) e (owner, (there, mine)) = record {
        user = user;
        known = there;
        presented = mine;
        owner = owner;
      }
      grant user (err x) e h = tt

  pub refresh-Exchanges :
      (token : String) (d : Db) → Ensures view (Exchanges token) (refresh_program p lib s token) d
  unfolding refresh_program refresh_unrevoked_program Ensures ◌>>=◌
  refresh-Exchanges token d = λ w st.
      elim (Result-cases (s.tokens.find_by_hash (sha256_hex p token) w).0) [
        | inr (x, e) ↦ rw e tt
        | inl (rt, e) ↦ elim (Bool-cases (is_some rt.revoked_at)) [
          | inl gone ↦ rw (e, gone) tt
          | inr live ↦
              let (hash, stored) = b.tokens.find_by_hash_ok (sha256_hex p token) rt w e in
              let own =
                subst (λ x. Owns rt.user_id (sha256_hex p token) x)
                  (sym (b.tokens.find_by_hash_view (sha256_hex p token) w))
                  (Any-imp _ _ (view w).tokens
                    (λ r is. (
                      ap (λ (y : RefreshToken). y.user_id) is,
                      ap (λ (y : RefreshToken). y.token_hash) is ∙ hash,
                    ))
                    stored) in
              rw (e, live)
                (λ w1 st1. elim (Bool-cases (ltb rt.expires_at (p.time_now w1).0)) [
                  | inl late ↦ rw late tt
                  | inr in_time ↦ rw in_time (
                      rotate-Exchanges token rt (view (p.time_now w1).1) (
                        Steps-Owns rt.user_id (sha256_hex p token)
                          (Steps-trans st1 (Steps-eq (b.platform.time_view w1))) own))
                ])
        ]
      ]
