-- ===== src/Auth/Access.antt =====
-- The access token of a pair: who internal/middleware/auth.go takes its bearer for.
use text.Mathlib.TextPositions.{starts_with-append, slice-append_right, len-append}
use Prim.Native.String.{len, slice}
use backend_infra_assessment.Base.{
  ◌+◌, ◌≡◌, ◌≤◌, inl, inr, String, true, some, ok, err, Has, arith, subst, >>=-eq-ok, pure, ◌>>=◌,
  ap, ◌∙◌, sym, refl, append,
}
use backend_infra_assessment.Domain.{Uuid, Role, Time, User}
use backend_infra_assessment.Hash.{sha256_hex}
use backend_infra_assessment.Database.{Platform}
use backend_infra_assessment.Database.Contract.{Db}
use backend_infra_assessment.Jwt.{
  JwtLibrary, generate_access_token, generate_refresh_token, claims_for, Claims, other_method,
}
use backend_infra_assessment.Jwt.Contract.{IsJwtLibrary}
use backend_infra_assessment.Jwt.Issued.{
  parse_access_token-generate, parse_access_token-expired, parse_access_token-foreign,
}
use backend_infra_assessment.Auth.{
  AuthService, TokenPair, login, accept, record_attempt, issue_tokens, store_pair, new_token,
}
use backend_infra_assessment.Auth.Contract.{IsBacked}
use backend_infra_assessment.Auth.Issue.{record_attempt_clock}
use backend_infra_assessment.Auth.Login.{
  login_cases, login_unlocked_ok, count_failures, counted_view, counted_clock,
}
use backend_infra_assessment.Http.{refusal}
use backend_infra_assessment.Http.Guard.{auth, bearer}

slice-append : (s t : String) → slice (append s t) (len s) (len (append s t)) ≡ t
slice-append s t = rw (len-append s t) (slice-append_right s t)

module _ {W : Type 0} (view : W → Db) (clock : W → Time) (p : Platform W) (lib : JwtLibrary)
    (s : AuthService W) (b : IsBacked view clock p s) (il : IsJwtLibrary lib) where
  -- The Authorization header of a client that holds a pair.
  abbrev pub header_of : TokenPair → String
  header_of pair = append bearer pair.access_token

  abbrev pub Accepts : User → TokenPair → W → Type 0
  Accepts user pair w =
      auth p lib s.jwt (header_of pair) w
      ≡ (ok (record { user_id = user.id; role = user.role }), (p.time_now w).1)

  auth-generate :
      (user : User) (pair : TokenPair) (w w' : W)
      → ((u : Uuid) → p.uuid_parse (p.uuid_string u) ≡ some u)
      → (generate_access_token p lib s.jwt user.id user.role w).0 ≡ ok pair.access_token
      → clock w' + 1000000000 ≤ clock w + s.jwt.access_ttl
      → Accepts user pair w'
  unfolding auth claims_for
  auth-generate user pair w w' f h k =
      rw
        (
          starts_with-append bearer pair.access_token,
          slice-append bearer pair.access_token,
          parse_access_token-generate view clock p lib s.jwt b.platform il user.id user.role
              pair.access_token w w' h k,
          f user.id,
        )
        refl

  generate_ok :
      (user : User) (access : String) (w : W) (pair : TokenPair)
      → ((generate_refresh_token p lib s.jwt >>= store_pair p lib s user access) w).0 ≡ ok pair
      → pair.access_token ≡ access
  unfolding store_pair
  generate_ok user access w pair h =
      let (refresh, e, kept, _) =
        >>=-eq-ok (generate_refresh_token p lib s.jwt) (store_pair p lib s user access) w h in
      let w' = (generate_refresh_token p lib s.jwt w).1 in
      let row = new_token user.id (sha256_hex p refresh) ((p.time_now w').0 + s.jwt.refresh_ttl) in
      let (t, created, same, _) =
        >>=-eq-ok (s.tokens.create row)
          (λ _. pure (record { access_token = access; refresh_token = refresh })) (p.time_now w').1
          kept in
      cc same

  -- The access token of a pair is the one that was generated first.
  issue_tokens-access :
      (user : User) (w : W) (pair : TokenPair)
      → (issue_tokens p lib s user w).0 ≡ ok pair
      → (generate_access_token p lib s.jwt user.id user.role w).0 ≡ ok pair.access_token
  unfolding issue_tokens
  issue_tokens-access user w pair h =
      let (access, e, rest, _) =
        >>=-eq-ok (generate_access_token p lib s.jwt user.id user.role)
          (λ access. generate_refresh_token p lib s.jwt >>= store_pair p lib s user access) w h in
      let w' = (generate_access_token p lib s.jwt user.id user.role w).1 in
      e ∙ ap ok (sym (generate_ok user access w' pair rest))

  accept-access :
      (email ip : String) (user : User) (w w' : W) (pair : TokenPair)
      → ((u : Uuid) → p.uuid_parse (p.uuid_string u) ≡ some u)
      → (accept p lib s email ip user w).0 ≡ ok pair
      → clock w' + 1000000000 ≤ clock w + s.jwt.access_ttl
      → Accepts user pair w'
  unfolding accept
  accept-access email ip user w w' pair f h k =
      let mid = (record_attempt p lib s email ip true w).1 in
      let issued : (issue_tokens p lib s user mid).0 ≡ ok pair = ground arith in
      auth-generate user pair mid w' f (issue_tokens-access user mid pair issued)
        (ground (arith, record_attempt_clock view clock p lib s b email ip true w))

  -- The access token that a login answers with is accepted by Auth, as the user of the address with
  -- the role of the stored row, until one second before its lifetime has passed since the login.
  pub login-authenticates :
      (email password ip : String) (w w' : W) (pair : TokenPair)
      → ((u : Uuid) → p.uuid_parse (p.uuid_string u) ≡ some u)
      → (login p lib s email password ip w).0 ≡ ok pair
      → clock w' + 1000000000 ≤ clock w + s.jwt.access_ttl
      → (user : User) × Has user (view w).users × (user.email ≡ email) × Accepts user pair w'
  login-authenticates email password ip w w' pair f h k =
      elim (login_cases view clock p lib s b email password ip w) [
        | inl (refused, _, _) ↦ cc (h, refused)
        | inr (free, same) ↦
            let w1 = (count_failures view clock p lib s b email w).1 in
            let w2 = (s.users.find_by_email email w1).1 in
            let (user, found, _, accepted) =
              login_unlocked_ok view clock p lib s b email password ip w1 pair (rw same at h) in
            let (addr, known) = b.users.find_by_email_ok email user w1 found in
            let later = counted_clock view clock p lib s b email w in
            let later' = b.users.find_by_email_clock email w1 in
            (
              user,
              subst (λ d. Has user d.users) (counted_view view clock p lib s b email w) known,
              addr,
              accept-access email ip user w2 w' pair f (rw (same, accepted) at h) (omega arith),
            )
      ]

  -- From the end of its lifetime on, an access token that was issued is answered with 401.
  pub auth-expired :
      (id : Uuid) (role : Role) (token : String) (w w' : W)
      → (generate_access_token p lib s.jwt id role w).0 ≡ ok token
      → clock w + s.jwt.access_ttl ≤ clock w'
      → (auth p lib s.jwt (append bearer token) w').0
        ≡ err (refusal 401 "UNAUTHORIZED" "invalid or expired token")
  unfolding auth
  auth-expired id role token w w' h k =
      rw
        (
          starts_with-append bearer token,
          slice-append bearer token,
          parse_access_token-expired view clock p lib s.jwt b.platform il id role token w w' h k,
        )
        refl

  -- A token that was signed with a method outside the HMAC family is answered with 401, whatever it
  -- claims.
  pub auth-foreign :
      (alg : String) (claims : Claims) (key token : String) (w : W)
      → lib.signed_string (other_method alg) claims key ≡ ok token
      → (auth p lib s.jwt (append bearer token) w).0
        ≡ err (refusal 401 "UNAUTHORIZED" "invalid or expired token")
  unfolding auth
  auth-foreign alg claims key token w h =
      rw
        (
          starts_with-append bearer token,
          slice-append bearer token,
          parse_access_token-foreign view clock p lib s.jwt b.platform il alg claims key token w h,
        )
        refl
