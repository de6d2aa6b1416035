-- ===== src/Auth/Concurrent/Alone.antt =====
-- A request that no other runs beside is the method of the service.
use backend_infra_assessment.Base.{
  arith, ◌-◌, ◌≡◌, refl, String, Result, ok, err, ◌>>=◌ as ◌>>>=◌, pure,
}
use backend_infra_assessment.Base.Programs.{stop, ◌>>=◌, alone, alone->>=}
use backend_infra_assessment.Domain.{User, RefreshToken, Error, Fallible}
use backend_infra_assessment.Database.{Platform}
use backend_infra_assessment.Jwt.{JwtLibrary}
use backend_infra_assessment.Auth.{
  AuthService, create_viewer, register_found, register, record_attempt, issue_tokens, store_pair,
  reject, accept, login_found, login_unlocked, login, rotate, refresh_unrevoked, refresh,
  logout_found, logout, get_user, list_users,
}
use backend_infra_assessment.Auth.Sessions.{
  Call, registering, logging_in, refreshing, logging_out, getting, listing, perform,
}
use backend_infra_assessment.Auth.Concurrent.{
  Reply, user_reply, pair_reply, users_reply, no_reply, create_viewer_program,
  register_found_program, register_program, record_attempt_program, issue_tokens_program,
  reject_program, accept_program, login_found_program, login_unlocked_program, login_program,
  rotate_program, refresh_unrevoked_program, refresh_program, logout_found_program, logout_program,
  program,
}

-- The answer of a call beside the world that it leaves.
unfoldable pub answer :
    {W : Type 0} → Platform W → JwtLibrary → AuthService W → Call → Fallible W Reply
answer p lib s (registering email password) =
    register p lib s email password >>>= λ u. pure (user_reply u)
answer p lib s (logging_in email password ip) =
    login p lib s email password ip >>>= λ pair. pure (pair_reply pair)
answer p lib s (refreshing token) = refresh p lib s token >>>= λ pair. pure (pair_reply pair)
answer p lib s (logging_out token) = logout p lib s token >>>= λ _. pure no_reply
answer p lib s (getting id) = get_user p lib s id >>>= λ u. pure (user_reply u)
answer p lib s listing = list_users p lib s >>>= λ us. pure (users_reply us)

module _ {W : Type 0} (p : Platform W) (lib : JwtLibrary) (s : AuthService W) where
  issue_tokens-alone :
      (user : User) (w : W)
      → alone (issue_tokens_program p lib s user) w ≡ issue_tokens p lib s user w
  unfolding alone ◌>>=◌ issue_tokens_program issue_tokens store_pair
  issue_tokens-alone user w = ground arith

  create_viewer-alone :
      (email password : String) (w : W)
      → alone (create_viewer_program p lib s email password) w
        ≡ create_viewer p lib s email password w
  unfolding alone ◌>>=◌ create_viewer_program create_viewer
  create_viewer-alone email password w = ground arith

  register_found-alone :
      (email password : String) (r : Result Error User) (w : W)
      → alone (register_found_program p lib s email password r) w
        ≡ register_found p lib s email password r w
  unfolding alone register_found_program register_found
  register_found-alone email password r w = ground (arith, create_viewer-alone email password w)

  reject-alone :
      (email ip : String) (w : W)
      → alone (reject_program p lib s email ip) w ≡ reject p lib s email ip w
  unfolding alone ◌>>=◌ record_attempt_program record_attempt reject_program reject
  reject-alone email ip w = refl

  accept-alone :
      (email ip : String) (user : User) (w : W)
      → alone (accept_program p lib s email ip user) w ≡ accept p lib s email ip user w
  unfolding alone ◌>>=◌ record_attempt_program record_attempt accept_program accept
  accept-alone email ip user w = issue_tokens-alone user _

  login_found-alone :
      (email password ip : String) (r : Result Error User) (w : W)
      → alone (login_found_program p lib s email password ip r) w
        ≡ login_found p lib s email password ip r w
  unfolding login_found_program login_found alone
  login_found-alone email password ip (ok user) w =
      ground (arith, reject-alone email ip w, accept-alone email ip user w)
  login_found-alone email password ip (err e) w = ground (arith, reject-alone email ip w)

  login-alone :
      (email password ip : String) (w : W)
      → alone (login_program p lib s email password ip) w ≡ login p lib s email password ip w
  unfolding login_program login login_unlocked_program login_unlocked alone ◌>>=◌
  login-alone email password ip w =
      let w' = (p.time_now w).1 in
      let w'' =
        (s.attempts.count_recent_failed email ((p.time_now w).0 - s.security.brute_force_window)
          w').1 in
      ground (
        arith,
        login_found-alone email password ip (s.users.find_by_email email w'').0
            (s.users.find_by_email email w'').1,
      )

  rotate-alone :
      (rt : RefreshToken) (w : W) → alone (rotate_program p lib s rt) w ≡ rotate p lib s rt w
  unfolding alone ◌>>=◌ rotate_program rotate
  rotate-alone rt w =
      let w' = (s.users.find_by_id rt.user_id w).1 in
      grind (arith, λ (u : User) (v : W). issue_tokens-alone u v)

  refresh-alone :
      (token : String) (w : W) → alone (refresh_program p lib s token) w ≡ refresh p lib s token w
  unfolding alone ◌>>=◌ refresh_program refresh refresh_unrevoked_program refresh_unrevoked
  refresh-alone token w = grind (arith, λ (rt : RefreshToken) (v : W). rotate-alone rt v)

  logout-alone :
      (token : String) (w : W) → alone (logout_program p lib s token) w ≡ logout p lib s token w
  unfolding alone ◌>>=◌ logout_program logout logout_found_program logout_found
  logout-alone token w = ground arith

  register-alone :
      (email password : String) (w : W)
      → alone (register_program p lib s email password) w ≡ register p lib s email password w
  unfolding alone ◌>>=◌ register_program register
  register-alone email password w = register_found-alone email password _ _

  -- A request that no other runs beside is answered as the method of the service answers, and
  -- leaves the world as the method does.
  program-alone : (c : Call) (w : W) → alone (program p lib s c) w ≡ answer p lib s c w
  unfolding program answer alone get_user list_users ◌>>=◌
  program-alone (registering email password) w =
      rw
        (
          alone->>= (register_program p lib s email password) (λ u. stop (ok (user_reply u))) w,
          register-alone email password w,
        )
        (ground arith)
  program-alone (logging_in email password ip) w =
      rw
        (
          alone->>= (login_program p lib s email password ip) (λ u. stop (ok (pair_reply u))) w,
          login-alone email password ip w,
        )
        (ground arith)
  program-alone (refreshing token) w =
      rw
        (
          alone->>= (refresh_program p lib s token) (λ u. stop (ok (pair_reply u))) w,
          refresh-alone token w,
        )
        (ground arith)
  program-alone (logging_out token) w =
      rw
        (alone->>= (logout_program p lib s token) (λ u. stop (ok no_reply)) w, logout-alone token w)
        (ground arith)
  program-alone (getting id) w = ground arith
  program-alone listing w = ground arith

  pub answer-perform : (c : Call) (w : W) → (answer p lib s c w).1 ≡ perform p lib s c w
  unfolding answer perform
  answer-perform (registering email password) w = ground arith
  answer-perform (logging_in email password ip) w = ground arith
  answer-perform (refreshing token) w = ground arith
  answer-perform (logging_out token) w = ground arith
  answer-perform (getting id) w = ground arith
  answer-perform listing w = ground arith
