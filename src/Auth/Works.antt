-- ===== src/Auth/Works.antt =====
-- What the service grants while its backends answer: the converse of Login and Refresh.
use backend_infra_assessment.Base.{
  ◌≡◌, ◌≤◌, ◌<◌, inl, inr, String, true, false, none, ok, is_ok, Has, Unique, arith, subst, sym, ap,
  refl, ◌∙◌, ltb, is_some,
}
use backend_infra_assessment.Domain.{Time, Uuid, User, RefreshToken}
use backend_infra_assessment.Database.{Platform}
use backend_infra_assessment.Database.Contract.{Db}
use backend_infra_assessment.Hash.{check_password, sha256_hex}
use backend_infra_assessment.Jwt.{JwtLibrary}
use backend_infra_assessment.Auth.{
  AuthService, TokenPair, login, login_unlocked, login_found, accept, record_attempt, issue_tokens,
  refresh, refresh_unrevoked, rotate,
}
use backend_infra_assessment.Auth.Contract.{IsBacked}
use backend_infra_assessment.Auth.Issue.{record_attempt_view}
use backend_infra_assessment.Auth.Login.{failures, count_failures, counted_view, login_cases}
use backend_infra_assessment.Auth.Steps.{IsWellFormed}
use backend_infra_assessment.Auth.Backends.{IsUp, Result-ok, Unique-one, DrawsFresh, issue_works}

module _ {W : Type 0} (view : W → Db) (clock : W → Time) (p : Platform W) (lib : JwtLibrary)
    (s : AuthService W) (b : IsBacked view clock p s) (up : IsUp view p lib s) where
  -- The world in which a login that is granted issues its tokens.
  abbrev pub granted : String → String → W → W
  granted email ip w =
      (record_attempt p lib s email ip true
        (s.users.find_by_email email (count_failures view clock p lib s b email w).1).1).1

  recorded_users :
      (email ip : String) (w : W)
      → (view (record_attempt p lib s email ip true w).1).users ≡ (view w).users
  recorded_users email ip w = elim (record_attempt_view view clock p lib s b email ip true w) [
    | inl (_, same) ↦ ap (λ (d : Db). d.users) same
    | inr (a, stored, _, _) ↦ ap (λ (d : Db). d.users) stored
  ]

  revoked_users :
      (id : Uuid) (w : W)
      → (s.tokens.revoke id w).0 ≡ ok tt
      → (view (s.tokens.revoke id w).1).users ≡ (view w).users
  revoked_users id w e =
      let (now, after) = b.tokens.revoke_ok id w e in ap (λ (d : Db). d.users) after

  unlocked_works :
      (user : User) (password ip : String) (w : W)
      → Unique (λ u. u.email) (view w).users
      → Has user (view w).users
      → check_password p user.password_hash password ≡ none
      → DrawsFresh view clock p lib s b up
          (record_attempt p lib s user.email ip true (s.users.find_by_email user.email w).1).1
      → (pair : TokenPair) × ((login_unlocked p lib s user.email password ip w).0 ≡ ok pair)
  unfolding login_unlocked login_found accept record_attempt issue_tokens
  unlocked_works user password ip w one known right fresh =
      let w' = (s.users.find_by_email user.email w).1 in
      let (found, e) =
        Result-ok (s.users.find_by_email user.email w).0 (up.finds_email user w known) in
      let (addr, there) = b.users.find_by_email_ok user.email found w e in
      let same =
        Unique-one (λ (u : User). u.email) (view w).users found user one there known addr in
      let (pair, issued) =
        issue_works view clock p lib s b up found (record_attempt p lib s user.email ip true w').1
          fresh
          (subst (λ us. Has found us) (sym (recorded_users user.email ip w'))
            (subst (λ d. Has found d.users) (sym (b.users.find_by_email_view user.email w))
              there)) in
      (
        pair,
        rw (e, ap (λ (u : User). check_password p u.password_hash password) same ∙ right) issued,
      )

  -- While the backends answer, the user of an address with fewer recent failures than the limit logs
  -- in with the password that the stored hash matches, provided that the refresh token that is
  -- drawn is new.
  pub login-works :
      (user : User) (password ip : String) (w : W)
      → IsWellFormed (view w)
      → Has user (view w).users
      → check_password p user.password_hash password ≡ none
      → failures view clock p lib s b user.email w < s.security.brute_force_max_attempts
      → DrawsFresh view clock p lib s b up (granted user.email ip w)
      → (pair : TokenPair) × ((login p lib s user.email password ip w).0 ≡ ok pair)
  unfolding count_failures
  login-works user password ip w wf known right few fresh =
      let w' = (count_failures view clock p lib s b user.email w).1 in
      let same = sym (counted_view view clock p lib s b user.email w) in
      let (pair, done) =
        unlocked_works user password ip w'
          (subst (λ d. Unique (λ u. u.email) d.users) same wf.emails)
          (subst (λ d. Has user d.users) same known) right fresh in
      elim (login_cases view clock p lib s b user.email password ip w) [
        | inl (_, _, inl (locked, _)) ↦ absurd (omega (arith, locked, few))
        | inl (_, _, inr (_, _, _, broken)) ↦ cc (broken, up.counts user.email _ (p.time_now w).1)
        | inr (_, entered) ↦ (pair, rw entered done)
      ]

  -- The world in which the exchange of a row issues its tokens.
  abbrev pub exchanging : RefreshToken → W → W
  exchanging rt w = (s.tokens.revoke rt.id (s.users.find_by_id rt.user_id (p.time_now w).1).1).1

  rotate_works :
      (rt : RefreshToken) (user : User) (w : W)
      → Has user (view w).users
      → user.id ≡ rt.user_id
      → DrawsFresh view clock p lib s b up
          (s.tokens.revoke rt.id (s.users.find_by_id rt.user_id w).1).1
      → (pair : TokenPair) × ((rotate p lib s rt w).0 ≡ ok pair)
  unfolding rotate
  rotate_works rt user w known owner fresh =
      let w' = (s.users.find_by_id rt.user_id w).1 in
      let (found, e) =
        Result-ok (s.users.find_by_id rt.user_id w).0 (
          subst (λ id. is_ok (s.users.find_by_id id w).0 ≡ true) owner
            (up.finds_id user w known)) in
      let (gone, f) = Result-ok (s.tokens.revoke rt.id w').0 (up.revokes rt.id w') in
      let (pair, issued) =
        issue_works view clock p lib s b up found (s.tokens.revoke rt.id w').1 fresh (
          subst (λ us. Has found us) (sym (revoked_users rt.id w' (f ∙ ap ok refl)))
            (subst (λ d. Has found d.users) (sym (b.users.find_by_id_view rt.user_id w))
              (b.users.find_by_id_ok rt.user_id found w e).1)) in
      (pair, rw (e, f) issued)

  -- A row that was found, and that is neither revoked nor expired, is exchanged.
  refresh_unrevoked_works :
      (rt : RefreshToken) (user : User) (w : W)
      → clock w ≤ rt.expires_at
      → Has user (view w).users
      → user.id ≡ rt.user_id
      → DrawsFresh view clock p lib s b up (exchanging rt w)
      → (pair : TokenPair) × ((refresh_unrevoked p lib s rt w).0 ≡ ok pair)
  unfolding refresh_unrevoked
  refresh_unrevoked_works rt user w in_time known owner fresh =
      let w' = (p.time_now w).1 in
      let here = sym (b.platform.time_view w) in
      let (pair, done) =
        rotate_works rt user w' (subst (λ d. Has user d.users) here known) owner fresh in
      let now : ltb rt.expires_at (p.time_now w).0 ≡ false =
        ground (arith, in_time, b.platform.time_now_lem w) in
      (pair, rw now done)

  find_works :
      (token : String) (rt : RefreshToken) (w : W)
      → Unique (λ t. t.token_hash) (view w).tokens
      → Has rt (view w).tokens
      → rt.token_hash ≡ sha256_hex p token
      → (s.tokens.find_by_hash (sha256_hex p token) w).0 ≡ ok rt
  find_works token rt w one stored hash =
      let (found, e) = Result-ok (s.tokens.find_by_hash (sha256_hex p token) w).0 (
        subst (λ h. is_ok (s.tokens.find_by_hash h w).0 ≡ true) hash (up.finds_hash rt w stored)) in
      let (hash', there) = b.tokens.find_by_hash_ok (sha256_hex p token) found w e in
      e
      ∙ ap ok (
          Unique-one (λ (t : RefreshToken). t.token_hash) (view w).tokens found rt one there stored
            (hash' ∙ sym hash))

  -- While the backends answer, a stored token that is neither revoked nor expired is exchanged for a
  -- pair, provided that its user is stored and that the refresh token that is drawn is new.
  pub refresh-works :
      (token : String) (rt : RefreshToken) (user : User) (w : W)
      → IsWellFormed (view w)
      → Has rt (view w).tokens
      → rt.token_hash ≡ sha256_hex p token
      → rt.revoked_at ≡ none
      → clock (s.tokens.find_by_hash (sha256_hex p token) w).1 ≤ rt.expires_at
      → Has user (view w).users
      → user.id ≡ rt.user_id
      → DrawsFresh view clock p lib s b up
          (exchanging rt (s.tokens.find_by_hash (sha256_hex p token) w).1)
      → (pair : TokenPair) × ((refresh p lib s token w).0 ≡ ok pair)
  unfolding refresh
  refresh-works token rt user w wf stored hash live in_time known owner fresh =
      let w' = (s.tokens.find_by_hash (sha256_hex p token) w).1 in
      let here = sym (b.tokens.find_by_hash_view (sha256_hex p token) w) in
      let (pair, done) =
        refresh_unrevoked_works rt user w' in_time (subst (λ d. Has user d.users) here known) owner
          fresh in
      let alive : is_some rt.revoked_at ≡ false = ap is_some live in
      (pair, rw (find_works token rt w wf.hashes stored hash, alive) done)
