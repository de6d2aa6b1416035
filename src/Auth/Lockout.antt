-- ===== src/Auth/Lockout.antt =====
-- How many passwords an attacker can have tested for one address.
use backend_infra_assessment.Base.{
  ℕ, ◌≡◌, ◌≤◌, ◌<◌, ◌+◌, ◌-◌, ◌⊎◌, inl, inr, String, Bool, true, false, ok, err, is_ok, List, [],
  ◌∷◌, count, arith, str_eq_iff, Result, Result-cases, Bool-cases, refl, Option-cases,
  if◌then◌else◌, max,
}
use backend_infra_assessment.Domain.{Time, User, LoginAttempt, Error}
use backend_infra_assessment.Domain.Errors.{
  invalid_credentials, user_not_found, errors_is, errors_is-infrastructure,
}
use backend_infra_assessment.Database.{Platform}
use backend_infra_assessment.Database.Contract.{Db}
use backend_infra_assessment.Repository.{is_recent_failure}
use backend_infra_assessment.Hash.{check_password}
use backend_infra_assessment.Jwt.{JwtLibrary}
use backend_infra_assessment.Auth.{
  AuthService, login, login_unlocked, login_found, accept, reject, record_attempt, issue_tokens,
  new_attempt,
}
use backend_infra_assessment.Auth.Contract.{IsBacked}
use backend_infra_assessment.Auth.Issue.{
  issue_tokens_ok, issue_tokens_err, issue_tokens_error, record_attempt_lem, record_attempt_view,
  record_attempt_clock, issue_tokens_clock,
}
use backend_infra_assessment.Auth.Login.{
  failures, count_failures, login_cases, counted_view, counted_clock,
}

-- A password was tested and found wrong, or no user has the address.
abbrev pub is_rejection : {A : Type 0} → Result Error A → Bool
is_rejection (ok a) = false
is_rejection (err e) = errors_is e invalid_credentials

-- One login after another for an address: how many were rejected, and the world at the end.
module _ {W : Type 0} (p : Platform W) (lib : JwtLibrary) (s : AuthService W) (email : String) where
  abbrev pub guesses : List (String × String) → W → ℕ × W
  guesses [] w = (0, w)
  guesses ((password, ip) ∷ more) w =
      let (r, w') = login p lib s email password ip w in
      let (n, w'') = guesses more w' in ((if is_rejection r then 1 else 0) + n, w'')

module _ {W : Type 0} (view : W → Db) (clock : W → Time) (p : Platform W) (lib : JwtLibrary)
    (s : AuthService W) (b : IsBacked view clock p s) (email : String) where
  -- The failed attempts since a time.
  abbrev failed_since : Time → W → ℕ
  failed_since since w = count (is_recent_failure email since) (view w).attempts

  -- Fewer attempts are recent when the window begins later.
  pub count_mono :
      (since since' : Time) (rows : List LoginAttempt)
      → since ≤ since'
      → count (is_recent_failure email since') rows ≤ count (is_recent_failure email since) rows
  count_mono since since' [] h = omega arith
  count_mono since since' (a ∷ rows) h = ground (arith, count_mono since since' rows h)

  record_grows :
      (ip : String) (successful : Bool) (since : Time) (w : W)
      → failed_since since w ≤ failed_since since (record_attempt p lib s email ip successful w).1
  record_grows ip successful since w =
      elim (record_attempt_view view clock p lib s b email ip successful w) [
        | inl (_, same) ↦ ground arith
        | inr (a, stored, reports, later) ↦ ground arith
      ]

  issue_keeps :
      (since : Time) (user : User) (w : W)
      → failed_since since (issue_tokens p lib s user w).1 ≡ failed_since since w
  issue_keeps since user w = elim (Result-cases (issue_tokens p lib s user w).0) [
    | inl (pair, e) ↦
        let (t, stored, issued, later, fresh) =
          issue_tokens_ok view clock p lib s b user w pair e in
        ground (arith, stored)
    | inr (x, e) ↦ ground (arith, issue_tokens_err view clock p lib s b user w (ground (arith, e)))
  ]

  issue_rejects_not : (user : User) (w : W) → is_rejection (issue_tokens p lib s user w).0 ≡ false
  issue_rejects_not user w = elim (Result-cases (issue_tokens p lib s user w).0) [
    | inl (pair, e) ↦ rw e refl
    | inr (x, e) ↦ rw e (
        errors_is-infrastructure x invalid_credentials
          (issue_tokens_error view clock p lib s b user x w e))
  ]

  -- Every failed attempt for the address can be recorded.
  module _
      (records : (ip : String) (w : W)
        → is_ok (s.attempts.create (new_attempt email ip false) w).0 ≡ true) where
    record_counts :
        (ip : String) (since : Time) (w : W)
        → since ≤ clock w
        → failed_since since w + 1 ≤ failed_since since (record_attempt p lib s email ip false w).1
    unfolding record_attempt
    record_counts ip since w h =
        let row = new_attempt email ip false in
        elim (Result-cases (s.attempts.create row w).0) [
          | inl (a, e) ↦
              let (stored, addr, from, how, later) = b.attempts.create_ok row a w e in
              let after = later refl in ground (arith, e, str_eq_iff a.email email)
          | inr (x, e) ↦ absurd (ground (arith, e, records ip w))
        ]

    -- What one login does to the failures of its address.
    unlocked_step :
        (password ip : String) (since : Time) (w : W)
        → since ≤ clock w
        → let r = login_unlocked p lib s email password ip w in
          (failed_since since w + (if is_rejection r.0 then 1 else 0) ≤ failed_since since r.1)
          × (clock w ≤ clock r.1)
    unfolding login_unlocked login_found reject accept
    unlocked_step password ip since w h =
        let w' = (s.users.find_by_email email w).1 in
        let here = b.users.find_by_email_view email w in
        let later = b.users.find_by_email_clock email w in
        let w'' = (record_attempt p lib s email ip true w').1 in
        elim (Result-cases (s.users.find_by_email email w).0) [
          | inr (x, e) ↦ elim (b.users.find_by_email_error email x w e) [
            | inl missing ↦ ground (
              arith,
              e,
              missing,
              record_counts ip since w',
              record_attempt_clock view clock p lib s b email ip false w',
            )
            | inr broken ↦ ground (
              arith,
              e,
              errors_is-infrastructure x user_not_found broken,
              errors_is-infrastructure x invalid_credentials broken,
            )
          ]
          | inl (user, e) ↦ elim (Option-cases (check_password p user.password_hash password)) [
            | inr (x, wrong) ↦ ground (
              arith,
              e,
              wrong,
              record_counts ip since w',
              record_attempt_clock view clock p lib s b email ip false w',
            )
            | inl right ↦ ground (
              arith,
              e,
              right,
              record_attempt_lem view clock p lib s b email ip true w',
              issue_rejects_not user w'',
              issue_keeps since user w'',
              record_grows ip true since w',
              record_attempt_clock view clock p lib s b email ip true w',
              issue_tokens_clock view clock p lib s b user w'',
            )
          ]
        ]

    login_step :
        (password ip : String) (since : Time) (w : W)
        → since ≤ clock w
        → let r = login p lib s email password ip w in
          (failed_since since w + (if is_rejection r.0 then 1 else 0) ≤ failed_since since r.1)
          × (clock w ≤ clock r.1)
          × ((is_rejection r.0 ≡ false)
              ⊎ (failures view clock p lib s b email w < s.security.brute_force_max_attempts))
    login_step password ip since w h =
        let w' = (count_failures view clock p lib s b email w).1 in
        let here = counted_view view clock p lib s b email w in
        let later = counted_clock view clock p lib s b email w in
        elim (login_cases view clock p lib s b email password ip w) [
          | inl (refused, world, inl (_, locked)) ↦ ground (arith)
          | inl (refused, world, inr (x, e, broken, _)) ↦
              ground (arith, errors_is-infrastructure x invalid_credentials broken)
          | inr (free, same) ↦ ground (arith, unlocked_step password ip since w')
        ]

    guesses_bound :
        (tries : List (String × String)) (since : Time) (w : W)
        → since ≤ clock w
        → clock (guesses p lib s email tries w).1 ≤ since + s.security.brute_force_window
        → ((guesses p lib s email tries w).0 + failed_since since w
            ≤ max s.security.brute_force_max_attempts (failed_since since w))
          × (clock w ≤ clock (guesses p lib s email tries w).1)
    guesses_bound [] since w h k = omega arith
    guesses_bound ((password, ip) ∷ more) since w h k =
        let w' = (login p lib s email password ip w).1 in
        let (grows, later, allowed) = login_step password ip since w h in
        let (rest, last) = guesses_bound more since w' (omega arith) k in
        let older =
          count_mono (clock w - s.security.brute_force_window) since (view w).attempts
            (omega arith) in
        elim (Bool-cases (is_rejection (login p lib s email password ip w).0)) [
          | inl tested ↦ (
            elim allowed [ inl passed ↦ absurd (cc (tested, passed)) | inr low ↦ ground arith ],
            omega arith,
          )
          | inr untested ↦ (ground arith, omega arith)
        ]

    -- Within one lockout window, however many logins are tried for an address one after another,
    -- with whatever passwords and ips, at most the maximum number of them is answered by
    -- ErrInvalidCredentials, if every failed attempt can be recorded.
    pub guesses-le-max :
        (tries : List (String × String)) (w : W)
        → clock (guesses p lib s email tries w).1 ≤ clock w + s.security.brute_force_window
        → (guesses p lib s email tries w).0 ≤ s.security.brute_force_max_attempts
    guesses-le-max tries w h =
        let (bound, _) = guesses_bound tries (clock w) w (omega arith) h in omega arith
