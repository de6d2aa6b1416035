-- ===== src/Auth/Login.antt =====
-- Login: the lockout, the rejections and the tokens.
use backend_infra_assessment.Base.{
  ℕ, ◌≡◌, ◌≤◌, ◌<◌, ◌-◌, ◌⊎◌, inl, inr, String, Bool, true, false, none, ok, err, is_ok, ◌∷◌, All,
  Has, count, arith, subst, Result-cases, Bool-cases, refl, ap, ◌∙◌, leb, Option-cases,
}
use backend_infra_assessment.Domain.{Error, Fallible, Time, User, RefreshToken, LoginAttempt}
use backend_infra_assessment.Domain.Errors.{is_infrastructure, domain, account_locked}
use backend_infra_assessment.Database.{Platform}
use backend_infra_assessment.Database.Contract.{Db}
use backend_infra_assessment.Repository.{is_recent_failure}
use backend_infra_assessment.Hash.{check_password}
use backend_infra_assessment.Jwt.{JwtLibrary}
use backend_infra_assessment.Auth.{
  AuthService, TokenPair, login, login_unlocked, login_found, accept, reject, record_attempt,
  new_attempt,
}
use backend_infra_assessment.Auth.Contract.{IsBacked}
use backend_infra_assessment.Auth.Issue.{Reports, IsIssued, record_attempt_view, issue_tokens_ok}

-- The attempts of a database after one was to be recorded in a world: it is there, or its insert has
-- failed.
abbrev pub Recorded : {W : Type 0} → AuthService W → String → String → Bool → W → Db → Db → Type 0
Recorded s email ip successful w d d' =
    ((is_ok (s.attempts.create (new_attempt email ip successful) w).0 ≡ false)
      × (d'.attempts ≡ d.attempts))
    ⊎ ((a : LoginAttempt) × (d'.attempts ≡ a ∷ d.attempts) × Reports email ip successful a)

-- What a login that succeeds leaves: the attempt, which is recorded in a world, and the row of the new
-- refresh token.
pub record IsLoggedIn {W : Type 0} (p : Platform W) (s : AuthService W) (email ip : String)
    (user : User) (pair : TokenPair) (w : W) (d d' : Db) : Type 0 where
  pub users : d'.users ≡ d.users
  pub attempts : Recorded s email ip true w d d'
  pub row : RefreshToken
  pub tokens : d'.tokens ≡ row ∷ d.tokens
  pub issued : IsIssued p s user pair row
  pub fresh : All (λ r. ¬ (r.token_hash ≡ row.token_hash)) d.tokens

module _ {W : Type 0} (view : W → Db) (clock : W → Time) (p : Platform W) (lib : JwtLibrary)
    (s : AuthService W) (b : IsBacked view clock p s) where
  -- The failures that count against an address when a login begins.
  abbrev pub failures : String → W → ℕ
  failures email w =
      count (is_recent_failure email (clock w - s.security.brute_force_window)) (view w).attempts

  -- The call by which a login counts the failures.
  unfoldable pub count_failures : String → Fallible W ℕ
  count_failures email w =
      s.attempts.count_recent_failed email ((p.time_now w).0 - s.security.brute_force_window)
        (p.time_now w).1

  pub counted_view : (email : String) (w : W) → view (count_failures email w).1 ≡ view w
  unfolding count_failures
  counted_view email w = b.attempts.count_view email _ (p.time_now w).1 ∙ b.platform.time_view w

  pub counted_clock : (email : String) (w : W) → clock w ≤ clock (count_failures email w).1
  unfolding count_failures
  counted_clock email w =
      let since = (p.time_now w).0 - s.security.brute_force_window in
      ground (arith, b.platform.time_clock w, b.attempts.count_clock email since (p.time_now w).1)

  pub counted_lem :
      (email : String) (w : W) (n : ℕ) → (count_failures email w).0 ≡ ok n → n ≡ failures email w
  unfolding count_failures
  counted_lem email w n e =
      let now = b.platform.time_now_lem w in
      let same = b.platform.time_view w in
      rw (← now, ← same) (b.attempts.count_ok email _ n (p.time_now w).1 e)

  -- The world that a login reaches once it has looked up the user.
  abbrev pub found_from : String → W → W
  found_from email w = (s.users.find_by_email email (count_failures email w).1).1

  -- Past the lockout test a login goes on as `login_unlocked`.
  pub login_cases :
      (email password ip : String) (w : W)
      → (is_ok (login p lib s email password ip w).0 ≡ false)
          × ((login p lib s email password ip w).1 ≡ (count_failures email w).1)
          × ((s.security.brute_force_max_attempts ≤ failures email w)
                × ((login p lib s email password ip w).0 ≡ err (domain account_locked))
              ⊎ ((x : Error) × ((login p lib s email password ip w).0 ≡ err x)
                  × (is_infrastructure x ≡ true)
                  × (is_ok (count_failures email w).0 ≡ false)))
        ⊎ (failures email w < s.security.brute_force_max_attempts)
          × (login p lib s email password ip w
              ≡ login_unlocked p lib s email password ip (count_failures email w).1)
  unfolding login count_failures
  login_cases email password ip w = elim (Result-cases (count_failures email w).0) [
    | inl (n, e) ↦
        let k = counted_lem email w n e in
        elim (Bool-cases (leb s.security.brute_force_max_attempts n)) [
          | inl locked ↦ inl (
            ground (arith, e, locked),
            ground (arith, e, locked),
            inl (ground (arith, locked), ground (arith, e, locked)),
          )
          | inr free ↦ inr (ground (arith, free), rw (e, free) refl)
        ]
    | inr (x, e) ↦ inl (
      ground (arith, e),
      ground (arith, e),
      inr (x, ground (arith, e), b.attempts.count_error email _ x (p.time_now w).1 e, rw e refl),
    )
  ]

  -- While the failures of an address reach the maximum, no login for it succeeds, whatever the
  -- password, and the database stays as it is; the answer is ErrAccountLocked, unless the count
  -- itself fails.
  pub login-locked :
      (email password ip : String) (w : W)
      → s.security.brute_force_max_attempts ≤ failures email w
      → (view (login p lib s email password ip w).1 ≡ view w)
        × (is_ok (login p lib s email password ip w).0 ≡ false)
        × (((login p lib s email password ip w).0 ≡ err (domain account_locked))
            ⊎ (is_ok (count_failures email w).0 ≡ false))
  login-locked email password ip w h = elim (login_cases email password ip w) [
    | inl (refused, world, inl (_, locked)) ↦
        (ap view world ∙ counted_view email w, refused, inl locked)
    | inl (refused, world, inr (x, _, _, broken)) ↦
        (ap view world ∙ counted_view email w, refused, inr broken)
    | inr (free, _) ↦ absurd (omega arith)
  ]

  accept_ok :
      (email ip : String) (user : User) (w : W) (pair : TokenPair)
      → (accept p lib s email ip user w).0 ≡ ok pair
      → IsLoggedIn p s email ip user pair w (view w) (view (accept p lib s email ip user w).1)
  unfolding accept
  accept_ok email ip user w pair h =
      let w' = (record_attempt p lib s email ip true w).1 in
      let (t, stored, issued, later, fresh) =
        issue_tokens_ok view clock p lib s b user w' pair (ground arith) in
      elim (record_attempt_view view clock p lib s b email ip true w) [
        | inl (failed, same) ↦ record {
          users = ground arith;
          attempts = inl (failed, ground arith);
          row = t;
          tokens = ground arith;
          issued = issued;
          fresh = subst (λ d. All (λ r. ¬ (r.token_hash ≡ t.token_hash)) d.tokens) same fresh;
        }
        | inr (a, added, reports, _) ↦ record {
          users = ground arith;
          attempts = inr (a, ground arith, reports);
          row = t;
          tokens = ground arith;
          issued = issued;
          fresh = subst (λ d. All (λ r. ¬ (r.token_hash ≡ t.token_hash)) d.tokens) added fresh;
        }
      ]

  -- A login that passes the lockout test succeeds by `accept`.
  pub login_unlocked_ok :
      (email password ip : String) (w : W) (pair : TokenPair)
      → (login_unlocked p lib s email password ip w).0 ≡ ok pair
      → (user : User) × ((s.users.find_by_email email w).0 ≡ ok user)
        × (check_password p user.password_hash password ≡ none)
        × (login_unlocked p lib s email password ip w
            ≡ accept p lib s email ip user (s.users.find_by_email email w).1)
  unfolding login_unlocked login_found reject
  login_unlocked_ok email password ip w pair h =
      elim (Result-cases (s.users.find_by_email email w).0) [
        | inr (x, e) ↦ absurd (ground (arith, e))
        | inl (user, e) ↦ elim (Option-cases (check_password p user.password_hash password)) [
          | inr (x, wrong) ↦ absurd (ground (arith, e, wrong))
          | inl right ↦ (user, e, right, rw (e, right) refl)
        ]
      ]

  -- A login succeeds only if the failures of the address are below the maximum, for a user of
  -- that address whose stored hash the password matches. It leaves a successful attempt of the address
  -- from the ip, unless the insert of that attempt has failed, and one new unrevoked refresh token of the user, whose hash no row had.
  pub login-ok :
      (email password ip : String) (w : W) (pair : TokenPair)
      → (login p lib s email password ip w).0 ≡ ok pair
      → (user : User) × Has user (view w).users
        × (user.email ≡ email)
        × (check_password p user.password_hash password ≡ none)
        × (failures email w < s.security.brute_force_max_attempts)
        × IsLoggedIn p s email ip user pair
            (found_from email w)
            (view w)
            (view (login p lib s email password ip w).1)
  login-ok email password ip w pair h = elim (login_cases email password ip w) [
    | inl (refused, _, _) ↦ cc (h, refused)
    | inr (free, same) ↦
        let w' = (count_failures email w).1 in
        let w'' = (s.users.find_by_email email w').1 in
        let (user, found, right, accepted) =
          login_unlocked_ok email password ip w' pair (rw same at h) in
        let (addr, known) = b.users.find_by_email_ok email user w' found in
        let here = b.users.find_by_email_view email w' ∙ counted_view email w in
        let left = accept_ok email ip user w'' pair (rw (same, accepted) at h) in
        (
          user,
          subst (λ d. Has user d.users) (counted_view email w) known,
          addr,
          right,
          free,
          rw (same, accepted)
              (subst
                (λ d.
                  IsLoggedIn p s email ip user pair w'' d
                    (view (accept p lib s email ip user w'').1))
                here left),
        )
  ]
