-- ===== src/Auth/Issue.antt =====
-- The two steps that login and refresh share: recording an attempt, and issuing a pair of tokens.
use backend_infra_assessment.Base.{
  ◌≡◌, ◌≤◌, ◌+◌, ◌⊎◌, inl, inr, String, Bool, none, ok, err, is_ok, true, false, ◌∷◌, All, arith,
  subst, Result-cases, pure, ◌>>=◌, ap, ◌∙◌, >>=-eq-ok, refl,
}
use backend_infra_assessment.Domain.Errors.{is_infrastructure}
use backend_infra_assessment.Domain.{Error, Time, User, RefreshToken, LoginAttempt}
use backend_infra_assessment.Hash.{sha256_hex}
use backend_infra_assessment.Database.{Platform}
use backend_infra_assessment.Database.Contract.{Db}
use backend_infra_assessment.Jwt.{JwtLibrary, generate_access_token, generate_refresh_token}
use backend_infra_assessment.Auth.{
  AuthService, TokenPair, record_attempt, issue_tokens, store_pair, new_attempt, new_token,
}
use backend_infra_assessment.Auth.Contract.{IsBacked}

-- A row that says how a login for an address from an ip ended.
abbrev pub Reports : String → String → Bool → LoginAttempt → Type 0
Reports email ip successful a =
    (a.email ≡ email) × (a.ip_address ≡ ip) × (a.successful ≡ successful)

-- The stored row of a pair that was issued to a user.
abbrev pub IsIssued :
    {W : Type 0} → Platform W → AuthService W → User → TokenPair → RefreshToken → Type 0
IsIssued p s user pair t =
    (t.user_id ≡ user.id) × (t.token_hash ≡ sha256_hex p pair.refresh_token) × (t.revoked_at ≡ none)

module _ {W : Type 0} (view : W → Db) (clock : W → Time) (p : Platform W) (lib : JwtLibrary)
    (s : AuthService W) (b : IsBacked view clock p s) where
  -- The attempt is recorded, or its insert has failed and the database is as it was.
  pub record_attempt_view :
      (email ip : String) (successful : Bool) (w : W)
      → ((is_ok (s.attempts.create (new_attempt email ip successful) w).0 ≡ false)
          × (view (record_attempt p lib s email ip successful w).1 ≡ view w))
        ⊎ ((a : LoginAttempt) × (view (record_attempt p lib s email ip successful w).1
              ≡ record (view w) { attempts = a ∷ (view w).attempts })
            × Reports email ip successful a
            × (clock w ≤ a.created_at))
  unfolding record_attempt
  record_attempt_view email ip successful w =
      let row = new_attempt email ip successful in
      elim (Result-cases (s.attempts.create row w).0) [
        | inl (a, e) ↦ inr (
            let (stored, addr, from, how, later) = b.attempts.create_ok row a w e in
            (a, stored, (addr, from, how), later refl))
        | inr (x, e) ↦ inl (rw e refl, ground (arith, e, b.attempts.create_err row w))
      ]

  -- Neither generator touches the database.
  generators_view :
      (user : User) (w : W)
      → let w' = (generate_access_token p lib s.jwt user.id user.role w).1 in
        (view w' ≡ view w)
        × (view (generate_refresh_token p lib s.jwt w').1 ≡ view w)
        × (clock w ≤ clock (generate_refresh_token p lib s.jwt w').1)
  unfolding generate_access_token generate_refresh_token
  generators_view user w =
      let w' = (p.time_now w).1 in
      ground (
        arith,
        b.platform.time_view w,
        b.platform.time_clock w,
        b.platform.rand_view 32 w',
        b.platform.rand_clock 32 w',
      )

  store_pair_ok :
      (user : User) (access refresh : String) (w : W) (pair : TokenPair)
      → (store_pair p lib s user access refresh w).0 ≡ ok pair
      → (t : RefreshToken) × (view (store_pair p lib s user access refresh w).1
          ≡ record (view w) { tokens = t ∷ (view w).tokens })
        × IsIssued p s user pair t
        × (clock w + s.jwt.refresh_ttl ≤ t.expires_at)
        × All (λ r. ¬ (r.token_hash ≡ t.token_hash)) (view w).tokens
  unfolding store_pair
  store_pair_ok user access refresh w pair h =
      let w' = (p.time_now w).1 in
      let row = new_token user.id (sha256_hex p refresh) ((p.time_now w).0 + s.jwt.refresh_ttl) in
      let (t, created, same_pair, same_world) =
        >>=-eq-ok (s.tokens.create row)
          (λ _. pure (record { access_token = access; refresh_token = refresh })) w' h in
      let (stored, owner, hash, expiry, revoked, fresh) = b.tokens.create_ok row t w' created in
      let same = b.platform.time_view w in
      (
        t,
        ground (arith, created),
        ground arith,
        ground (arith, b.platform.time_now_lem w),
        subst (λ d. All (λ r. ¬ (r.token_hash ≡ t.token_hash)) d.tokens) same fresh,
      )

  store_pair_err :
      (user : User) (access refresh : String) (w : W)
      → is_ok (store_pair p lib s user access refresh w).0 ≡ false
      → view (store_pair p lib s user access refresh w).1 ≡ view w
  unfolding store_pair
  store_pair_err user access refresh w h =
      let w' = (p.time_now w).1 in
      let row = new_token user.id (sha256_hex p refresh) ((p.time_now w).0 + s.jwt.refresh_ttl) in
      ground (arith, b.tokens.create_err row w', b.platform.time_view w)

  -- A pair that is issued has one new row, whose hash no row had.
  pub issue_tokens_ok :
      (user : User) (w : W) (pair : TokenPair)
      → (issue_tokens p lib s user w).0 ≡ ok pair
      → (t : RefreshToken) × (view (issue_tokens p lib s user w).1
          ≡ record (view w) { tokens = t ∷ (view w).tokens })
        × IsIssued p s user pair t
        × (clock w + s.jwt.refresh_ttl ≤ t.expires_at)
        × All (λ r. ¬ (r.token_hash ≡ t.token_hash)) (view w).tokens
  unfolding issue_tokens
  issue_tokens_ok user w pair h =
      let (access, a, rest, world) =
        >>=-eq-ok (generate_access_token p lib s.jwt user.id user.role)
          (λ access. generate_refresh_token p lib s.jwt >>= store_pair p lib s user access) w h in
      let w' = (generate_access_token p lib s.jwt user.id user.role w).1 in
      let (refresh, r, kept, world') =
        >>=-eq-ok (generate_refresh_token p lib s.jwt) (store_pair p lib s user access) w' rest in
      let w'' = (generate_refresh_token p lib s.jwt w').1 in
      let (t, stored, issued, later, fresh) = store_pair_ok user access refresh w'' pair kept in
      let (_, same, clock_grows) = generators_view user w in
      (
        t,
        ap view (world ∙ world')
            ∙ stored
            ∙ ap {A = Db} {B = Db} (λ d. record d { tokens = t ∷ d.tokens }) same,
        issued,
        omega arith,
        subst (λ d. All (λ r. ¬ (r.token_hash ≡ t.token_hash)) d.tokens) same fresh,
      )

  pub issue_tokens_err :
      (user : User) (w : W)
      → is_ok (issue_tokens p lib s user w).0 ≡ false
      → view (issue_tokens p lib s user w).1 ≡ view w
  unfolding issue_tokens
  issue_tokens_err user w h =
      let w' = (generate_access_token p lib s.jwt user.id user.role w).1 in
      let w'' = (generate_refresh_token p lib s.jwt w').1 in
      let (first, second, _) = generators_view user w in
      elim (Result-cases (generate_access_token p lib s.jwt user.id user.role w).0) [
        | inr (x, e) ↦ ground (arith, e)
        | inl (access, e) ↦ elim (Result-cases (generate_refresh_token p lib s.jwt w').0) [
          | inr (x, f) ↦ ground (arith, e, f)
          | inl (refresh, f) ↦ ground (arith, e, f, store_pair_err user access refresh w'')
        ]
      ]

  pub record_attempt_clock :
      (email ip : String) (successful : Bool) (w : W)
      → clock w ≤ clock (record_attempt p lib s email ip successful w).1
  unfolding record_attempt
  record_attempt_clock email ip successful w =
      b.attempts.create_clock (new_attempt email ip successful) w

  store_pair_clock :
      (user : User) (access refresh : String) (w : W)
      → clock w ≤ clock (store_pair p lib s user access refresh w).1
  unfolding store_pair
  store_pair_clock user access refresh w =
      let w' = (p.time_now w).1 in
      let row = new_token user.id (sha256_hex p refresh) ((p.time_now w).0 + s.jwt.refresh_ttl) in
      ground (arith, b.platform.time_clock w, b.tokens.create_clock row w')

  pub issue_tokens_clock : (user : User) (w : W) → clock w ≤ clock (issue_tokens p lib s user w).1
  unfolding issue_tokens generate_access_token generate_refresh_token
  issue_tokens_clock user w =
      let w' = (p.time_now w).1 in
      let w'' = (p.rand_read 32 w').1 in
      grind (
        arith,
        b.platform.time_clock w,
        b.platform.rand_clock 32 w',
        λ (a r : String). store_pair_clock user a r w'',
      )

  store_pair_error :
      (user : User) (access refresh : String) (e : Error) (w : W)
      → (store_pair p lib s user access refresh w).0 ≡ err e
      → is_infrastructure e ≡ true
  unfolding store_pair
  store_pair_error user access refresh e w h =
      let w' = (p.time_now w).1 in
      let row = new_token user.id (sha256_hex p refresh) ((p.time_now w).0 + s.jwt.refresh_ttl) in
      b.tokens.create_error row e w' (ground arith)

  generators_error :
      (user : User) (w : W) (e : Error)
      → ((generate_access_token p lib s.jwt user.id user.role w).0 ≡ err e)
        ⊎ ((generate_refresh_token p lib s.jwt w).0 ≡ err e)
      → is_infrastructure e ≡ true
  unfolding generate_access_token generate_refresh_token
  generators_error user w e h = ground arith

  pub issue_tokens_error :
      (user : User) (e : Error) (w : W)
      → (issue_tokens p lib s user w).0 ≡ err e
      → is_infrastructure e ≡ true
  unfolding issue_tokens
  issue_tokens_error user e w h =
      let w' = (generate_access_token p lib s.jwt user.id user.role w).1 in
      let w'' = (generate_refresh_token p lib s.jwt w').1 in
      elim (Result-cases (generate_access_token p lib s.jwt user.id user.role w).0) [
        | inr (x, f) ↦ ground (arith, f, generators_error user w x (inl f))
        | inl (access, f) ↦ elim (Result-cases (generate_refresh_token p lib s.jwt w').0) [
          | inr (x, k) ↦ ground (arith, f, k, generators_error user w' x (inr k))
          | inl (refresh, k) ↦ store_pair_error user access refresh e w'' (ground (arith, f, k))
        ]
      ]

  pub record_attempt_lem :
      (email ip : String) (successful : Bool) (w : W)
      → (record_attempt p lib s email ip successful w).0 ≡ ok tt
  unfolding record_attempt
  record_attempt_lem email ip successful w = refl
