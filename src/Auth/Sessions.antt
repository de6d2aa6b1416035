-- ===== src/Auth/Sessions.antt =====
-- What holds over any sequence of calls of the service.
use backend_infra_assessment.Base.{◌≡◌, String, false, ok, is_ok, List, [], ◌∷◌, subst, refl, sym}
use backend_infra_assessment.Domain.{Uuid, Time, RefreshToken}
use backend_infra_assessment.Hash.{sha256_hex}
use backend_infra_assessment.Database.{Platform}
use backend_infra_assessment.Database.Contract.{Db}
use backend_infra_assessment.Jwt.{JwtLibrary}
use backend_infra_assessment.Auth.{
  AuthService, TokenPair, register, login, refresh, logout, get_user, list_users,
}
use backend_infra_assessment.Auth.Contract.{IsBacked}
use backend_infra_assessment.Auth.Refresh.{refresh-ok, refresh-dead, logout-ok}
use backend_infra_assessment.Auth.Steps.{
  Steps, Steps-trans, Steps-eq, add_token, IsWellFormed, Steps-IsWellFormed, revoked, AddsViewers,
  Steps-AddsViewers,
}
use backend_infra_assessment.Auth.Steps.Spent.{
  Has-IsRow, IsSpent, Step-IsSpent, Steps-IsSpent, revoke-spends,
}
use backend_infra_assessment.Auth.Trace.{register-Steps, login-Steps, refresh-Steps, logout-Steps}

-- A call of one of the service's methods.
pub data Call : Type 0 where
  registering : (email password : String) → Call
  logging_in : (email password ip : String) → Call
  refreshing : (token : String) → Call
  logging_out : (token : String) → Call
  getting : (id : Uuid) → Call
  listing : Call

module _ {W : Type 0} (p : Platform W) (lib : JwtLibrary) (s : AuthService W) where
  -- The world after a call.
  unfoldable pub perform : Call → W → W
  perform (registering email password) w = (register p lib s email password w).1
  perform (logging_in email password ip) w = (login p lib s email password ip w).1
  perform (refreshing token) w = (refresh p lib s token w).1
  perform (logging_out token) w = (logout p lib s token w).1
  perform (getting id) w = (get_user p lib s id w).1
  perform listing w = (list_users p lib s w).1

  pub serve : List Call → W → W
  serve [] w = w
  serve (c ∷ calls) w = serve calls (perform c w)

module _ {W : Type 0} (view : W → Db) (clock : W → Time) (p : Platform W) (lib : JwtLibrary)
    (s : AuthService W) (b : IsBacked view clock p s) where
  perform-Steps : (c : Call) (w : W) → Steps (view w) (view (perform p lib s c w))
  unfolding perform get_user list_users
  perform-Steps (registering email password) w =
      register-Steps view clock p lib s b email password w
  perform-Steps (logging_in email password ip) w =
      login-Steps view clock p lib s b email password ip w
  perform-Steps (refreshing token) w = refresh-Steps view clock p lib s b token w
  perform-Steps (logging_out token) w = logout-Steps view clock p lib s b token w
  perform-Steps (getting id) w = Steps-eq (b.users.find_by_id_view id w)
  perform-Steps listing w = Steps-eq (b.users.list_view w)

  -- The service refines the abstract writes: whatever calls are made, failing ones included, the
  -- tables change only by inserts of viewers, of attempts and of unrevoked tokens with a new hash,
  -- and by revocations.
  pub serve-Steps : (calls : List Call) (w : W) → Steps (view w) (view (serve p lib s calls w))
  unfolding serve
  serve-Steps [] w = Steps-eq refl
  serve-Steps (c ∷ calls) w =
      Steps-trans (perform-Steps c w) (serve-Steps calls (perform p lib s c w))

  -- No sequence of calls stores an address or a token hash twice.
  pub serve-IsWellFormed :
      (calls : List Call) (w : W)
      → IsWellFormed (view w)
      → IsWellFormed (view (serve p lib s calls w))
  serve-IsWellFormed calls w v = Steps-IsWellFormed (serve-Steps calls w) v

  -- No sequence of calls changes or removes a user, and every user that it adds is a viewer: no
  -- one gains a privilege through the service.
  pub serve-AddsViewers :
      (calls : List Call) (w : W) → AddsViewers (view w) (view (serve p lib s calls w))
  serve-AddsViewers calls w = Steps-AddsViewers (serve-Steps calls w)

  refresh-spends :
      (token : String) (w : W) (pair : TokenPair)
      → IsWellFormed (view w)
      → (refresh p lib s token w).0 ≡ ok pair
      → IsSpent (sha256_hex p token) (view (refresh p lib s token w).1)
  refresh-spends token w pair v e =
      let (rt, user, now, t, stored, hash, _, _, _, _, after, (_, _, live), fresh) =
        refresh-ok view clock p lib s b token w pair e in
      let spent =
        revoke-spends (view w) rt.id rt.token_hash now v (Has-IsRow rt (view w).tokens stored) in
      let d : Db = record (view w) { tokens = revoked rt.id now (view w).tokens } in
      subst (λ h. IsSpent h (view (refresh p lib s token w).1)) hash
        (subst (λ x. IsSpent rt.token_hash x) (sym after)
          (Step-IsSpent rt.token_hash (add_token d t live fresh) spent))

  -- A refresh token is good for one exchange: once a refresh with it has succeeded, no later
  -- refresh with it does, whatever calls are made in between.
  pub refresh_once :
      (token : String) (w : W) (pair : TokenPair) (calls : List Call)
      → IsWellFormed (view w)
      → (refresh p lib s token w).0 ≡ ok pair
      → is_ok (refresh p lib s token (serve p lib s calls (refresh p lib s token w).1)).0 ≡ false
  refresh_once token w pair calls v e =
      let w' = (refresh p lib s token w).1 in
      let spent = refresh-spends token w pair v e in
      refresh-dead view clock p lib s b token (serve p lib s calls w')
        (Steps-IsSpent (sha256_hex p token) (serve-Steps calls w') spent).dead

  -- A logout ends a session: once a logout has found the row of a token and has succeeded, no
  -- later refresh with the token does, whatever calls are made in between.
  pub logout_ends_session :
      (token : String) (w : W) (rt : RefreshToken) (calls : List Call)
      → IsWellFormed (view w)
      → (s.tokens.find_by_hash (sha256_hex p token) w).0 ≡ ok rt
      → (logout p lib s token w).0 ≡ ok tt
      → is_ok (refresh p lib s token (serve p lib s calls (logout p lib s token w).1)).0 ≡ false
  logout_ends_session token w rt calls v found e =
      let w' = (logout p lib s token w).1 in
      let (now, stored, hash, after) = logout-ok view clock p lib s b token w rt found e in
      let spent =
        revoke-spends (view w) rt.id rt.token_hash now v (Has-IsRow rt (view w).tokens stored) in
      let here =
        subst (λ h. IsSpent h (view w')) hash
          (subst (λ x. IsSpent rt.token_hash x) (sym after) spent) in
      refresh-dead view clock p lib s b token (serve p lib s calls w')
        (Steps-IsSpent (sha256_hex p token) (serve-Steps calls w') here).dead
