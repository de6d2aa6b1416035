-- ===== src/Http/Routes.antt =====
-- internal/router/router.go: the chains of the routes of the API. Gin writes a reply as JSON, which
-- is a parameter.
use backend_infra_assessment.Base.{
  ◌≡◌, inl, inr, refl, String, some, [], ◌∷◌, Result, ok, err, pure, always, ◌>>=◌, ◌>>◌, >>=-eq-ok,
  sym, subst, ◌∙◌,
}
use backend_infra_assessment.Domain.{role_admin, Duration}
use backend_infra_assessment.Database.{Platform}
use backend_infra_assessment.Jwt.{JwtLibrary, Claims, parse_access_token}
use backend_infra_assessment.Limiter.{Limiter}
use backend_infra_assessment.Auth.{AuthService}
use backend_infra_assessment.Http.{Refusal, Reply, Served}
use backend_infra_assessment.Http.Guard.{
  Identity, auth, require_role, rate_limit_by_role, login_rate_limit, auth-ok, require_role-ok,
  bearer, trim_prefix,
}
use backend_infra_assessment.Http.Cache.{Cache, CacheEntry, EntryCodec, Answer, response_cache}
use backend_infra_assessment.Http.Handlers.{
  LoginRequest, LogoutRequest, TokenResponse, UserResponse, UsersListResponse, handle_login,
  handle_logout, handle_me, handle_list_users,
}

-- How Gin writes the bodies.
pub record Renderer : Type 0 where
  pub content_type : String
  pub user : UserResponse → String
  pub users : UsersListResponse → String

-- What the router is built from.
pub record Router (W : Type 0) : Type 0 where
  pub limiter : Limiter W
  pub cache : Cache W
  pub codec : EntryCodec
  pub cache_ttl : Duration
  pub service : AuthService W
  pub renderer : Renderer

module _ {W : Type 0} (p : Platform W) (lib : JwtLibrary) (r : Router W) where
  abbrev rendered : {A : Type 0} → (A → String) → Reply A → CacheEntry
  rendered render reply = record {
    status = reply.status;
    content_type = r.renderer.content_type;
    body = render reply.payload;
  }

  -- POST /auth/login
  unfoldable pub route_login : String → Result String LoginRequest → Served W (Reply TokenResponse)
  route_login client_ip body = do
    login_rate_limit r.limiter r.service.security.brute_force_max_attempts
        r.service.security.brute_force_max_attempts client_ip
    handle_login p lib r.service client_ip body

  -- The group of /auth/logout and /auth/me, on the Authorization header.
  unfoldable pub authed : String → Served W Identity
  authed header = do
    who ← auth p lib r.service.jwt header
    rate_limit_by_role p r.limiter who
    pure who

  -- POST /auth/logout
  unfoldable pub route_logout : String → Result String LogoutRequest → Served W (Reply Unit)
  route_logout header body = do authed header; handle_logout p lib r.service body

  unfoldable pub me_page : Identity → Served W CacheEntry
  me_page who = do reply ← handle_me p lib r.service who; pure (rendered r.renderer.user reply)

  -- GET /auth/me
  unfoldable pub route_me : String → Served W Answer
  unfolding me_page
  route_me header = do
    who ← authed header
    always (response_cache p r.cache r.codec r.cache_ttl "/auth/me" who.user_id (me_page who))

  -- The group of /admin.
  unfoldable pub admin : String → Served W Identity
  admin header = do
    who ← auth p lib r.service.jwt header
    require_role (role_admin ∷ []) who
    rate_limit_by_role p r.limiter who
    pure who

  unfoldable pub users_page : Served W CacheEntry
  users_page = do reply ← handle_list_users p lib r.service; pure (rendered r.renderer.users reply)

  -- GET /admin/users
  unfoldable pub route_list_users : String → Served W Answer
  unfolding users_page
  route_list_users header = do
    who ← admin header
    always (response_cache p r.cache r.codec r.cache_ttl "/admin/users" who.user_id users_page)

  -- A request passes the guards of /admin only with a token that ParseAccessToken accepts, whose role
  -- is admin and whose subject is the UUID that the handlers see.
  pub admin-ok :
      (header : String) (who : Identity) (w : W)
      → (admin header w).0 ≡ ok who
      → (claims : Claims) × ((parse_access_token p lib r.service.jwt
            (trim_prefix header bearer)
            w).0
          ≡ ok claims)
        × (claims.role ≡ role_admin)
        × (p.uuid_parse claims.user_id ≡ some who.user_id)
  unfolding admin
  admin-ok header who w h =
      let (caller, e, k, _) =
        >>=-eq-ok (auth p lib r.service.jwt header)
          (λ c. require_role (role_admin ∷ []) c >> (rate_limit_by_role p r.limiter c >> pure c)) w
          h in
      let (_, f, l, _) =
        >>=-eq-ok (require_role (role_admin ∷ []) caller)
          (λ _. rate_limit_by_role p r.limiter caller >> pure caller)
          (auth p lib r.service.jwt header w).1 k in
      let (_, _, m, _) =
        >>=-eq-ok (rate_limit_by_role p r.limiter caller) (λ _. pure caller)
          (require_role (role_admin ∷ []) caller (auth p lib r.service.jwt header w).1).1 l in
      let (claims, g, role, id, _) = auth-ok p lib r.service.jwt header caller w e in
      let admitted =
        require_role-ok (role_admin ∷ []) caller (auth p lib r.service.jwt header w).1 f in
      let same : caller ≡ who = cc m in
      elim admitted [
        | inl n ↦ (
          claims,
          g,
          role ∙ sym n,
          subst (λ (c : Identity). p.uuid_parse claims.user_id ≡ some c.user_id) same id,
        )
        | inr x ↦ absurd x
      ]

  -- The list of users, also the one that is replayed from the cache, is given only to a request with
  -- such a token.
  pub route_list_users-ok :
      (header : String) (answer : Answer) (w : W)
      → (route_list_users header w).0 ≡ ok answer
      → (claims : Claims) × ((parse_access_token p lib r.service.jwt
            (trim_prefix header bearer)
            w).0
          ≡ ok claims)
        × (claims.role ≡ role_admin)
  unfolding route_list_users
  route_list_users-ok header answer w h =
      let (who, e, _, _) =
        >>=-eq-ok (admin header)
          (λ c.
            always
              (response_cache p r.cache r.codec r.cache_ttl "/admin/users" c.user_id users_page))
          w h in
      let (claims, f, g, _) = admin-ok header who w e in (claims, f, g)

  -- A request that the guards of /admin turn away gets the guards' answer, and the handler and the
  -- cache are left alone.
  pub route_list_users-err :
      (header : String) (no_entry : Refusal) (w : W)
      → (admin header w).0 ≡ err no_entry
      → route_list_users header w ≡ (err no_entry, (admin header w).1)
  unfolding route_list_users
  route_list_users-err header no_entry w h = rw h refl
