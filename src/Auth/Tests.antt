-- ===== src/Auth/Tests.antt =====
-- The authentication service over the database in memory.
use backend_infra_assessment.Base.{
  ◌≡◌, ◌≤◌, ◌<◌, String, true, false, none, List, [], ◌∷◌, ok, err, is_ok, All, Has, arith, refl,
  suc, ◌+◌, ◌⊎◌,
}
use backend_infra_assessment.Domain.{Time, User, RefreshToken, role_viewer}
use backend_infra_assessment.Domain.Errors.{domain, account_locked, token_revoked}
use backend_infra_assessment.Repository.{
  user_repository, token_repository, login_attempt_repository,
}
use backend_infra_assessment.Jwt.{generate_access_token, generate_refresh_token}
use backend_infra_assessment.Auth.{
  TokenPair, register, register_found, create_viewer, login, login_unlocked, login_found, accept,
  reject, record_attempt, issue_tokens, store_pair, new_attempt, refresh, refresh_unrevoked, rotate,
  logout, logout_found,
}
use backend_infra_assessment.Hash.{check_password}
use backend_infra_assessment.Auth.Issue.{IsIssued}
use backend_infra_assessment.Auth.Login.{
  failures, count_failures, found_from, IsLoggedIn, login-ok, login-locked,
}
use backend_infra_assessment.Auth.Lockout.{guesses, guesses-le-max}
use backend_infra_assessment.Auth.Refresh.{refresh-ok}
use backend_infra_assessment.Auth.Register.{register-ok}
use backend_infra_assessment.Auth.Sessions.{
  Call, registering, logging_in, refreshing, logging_out, getting, listing, serve, refresh_once,
}
use backend_infra_assessment.Auth.Steps.{Steps-trans, revoked, IsWellFormed, Steps-IsWellFormed}
use backend_infra_assessment.Auth.Trace.{register-Steps, login-Steps}
use backend_infra_assessment.Tests.Service.{plain_jwt, service, service-IsBacked, start}
use backend_infra_assessment.Tests.Memory.{
  Memory, db_of, clock_of, memory_gorm, memory_platform, highest, occurs-highest,
}

-- Everything that a run of the service computes with.
running : Unit {0}
unfolding register register_found create_viewer login login_unlocked login_found accept reject
    record_attempt issue_tokens store_pair refresh refresh_unrevoked rotate logout logout_found
    user_repository token_repository login_attempt_repository memory_gorm memory_platform
    generate_access_token generate_refresh_token
running = tt

-- Ann registers, logs in, exchanges her token and comes back with the old one.
abbrev joined : Memory
joined = (register memory_platform plain_jwt service "ann@example.com" "correct horse" start).1

abbrev entered : Memory
entered =
    (login memory_platform plain_jwt service "ann@example.com" "correct horse" "10.0.0.1" joined).1

abbrev first_pair : TokenPair
first_pair = record { access_token = "jwt:11:viewer"; refresh_token = "111" }

abbrev second_pair : TokenPair
second_pair = record { access_token = "jwt:11:viewer"; refresh_token = "11111" }

abbrev ann : User
ann = record {
  id = 2;
  email = "ann@example.com";
  password_hash = "bcrypt:correct horse";
  role = "viewer";
  created_at = 1000000000000;
  updated_at = 1000000000000;
}

abbrev ann_token : RefreshToken
ann_token = record {
  id = 8;
  user_id = 2;
  token_hash = "sha256:111";
  expires_at = 605800000000002;
  revoked_at = none;
  created_at = 1000000000003;
}

register_works :
    (register memory_platform plain_jwt service "ann@example.com" "correct horse" start).0 ≡ ok ann
unfolding running
register_works = refl

login_works :
    (login memory_platform plain_jwt service "ann@example.com" "correct horse" "10.0.0.1" joined).0
    ≡ ok first_pair
unfolding running
login_works = refl

refresh_works : (refresh memory_platform plain_jwt service "111" entered).0 ≡ ok second_pair
unfolding running
refresh_works = refl

abbrev exchanged : Memory
exchanged = (refresh memory_platform plain_jwt service "111" entered).1

replay_refused :
    (refresh memory_platform plain_jwt service "111" exchanged).0 ≡ err (domain token_revoked)
unfolding running
replay_refused = refl

found_works : (service.tokens.find_by_hash "sha256:111" entered).0 ≡ ok ann_token
unfolding running
found_works = refl

logout_works : (logout memory_platform plain_jwt service "111" entered).0 ≡ ok tt
unfolding running
logout_works = refl

-- The third wrong password is not looked at.
lockout_run :
    (guesses memory_platform plain_jwt service "ann@example.com"
      (("a", "ip") ∷ ("b", "ip") ∷ ("c", "ip") ∷ [])
      joined).0
    ≡ 2
unfolding running
lockout_run = refl

abbrev locked : Memory
locked =
    (guesses memory_platform plain_jwt service "ann@example.com" (("a", "ip") ∷ ("b", "ip") ∷ [])
      joined).1

locked_out :
    (login memory_platform plain_jwt service "ann@example.com" "correct horse" "ip" locked).0
    ≡ err (domain account_locked)
unfolding running
locked_out = refl

records_all :
    (ip : String) (w : Memory)
    → is_ok (service.attempts.create (new_attempt "ann@example.com" ip false) w).0 ≡ true
unfolding running
records_all ip w =
    let k = suc (w.next + highest w.db.attempts) in
    ground (arith, occurs-highest k w.db.attempts (omega arith))

IsWellFormed-start : IsWellFormed (db_of start)
IsWellFormed-start = record { emails = tt; hashes = tt }

IsWellFormed-entered : IsWellFormed (db_of entered)
IsWellFormed-entered =
    Steps-IsWellFormed
      (Steps-trans
        (register-Steps db_of clock_of memory_platform plain_jwt service service-IsBacked
          "ann@example.com" "correct horse" start)
        (login-Steps db_of clock_of memory_platform plain_jwt service service-IsBacked
          "ann@example.com" "correct horse" "10.0.0.1" joined))
      IsWellFormed-start

abbrev calls : List Call
calls =
    registering "bob@example.com" "password2"
    ∷ logging_in "ann@example.com" "wrong" "10.0.0.2"
    ∷ refreshing "11111"
    ∷ logging_out "111"
    ∷ getting 2
    ∷ listing
    ∷ []

refresh_once_example :
    is_ok
      (refresh memory_platform plain_jwt service "111"
        (serve memory_platform plain_jwt service calls exchanged)).0
    ≡ false
refresh_once_example =
    refresh_once db_of clock_of memory_platform plain_jwt service service-IsBacked "111" entered
      second_pair calls IsWellFormed-entered refresh_works

abbrev tries : List (String × String)
tries = ("a", "10.0.0.1") ∷ ("b", "10.0.0.2") ∷ ("c", "10.0.0.3") ∷ []

in_window :
    clock_of (guesses memory_platform plain_jwt service "ann@example.com" tries joined).1
    ≤ clock_of joined + 900000000000
unfolding running
in_window = omega arith

guesses-le-max_example :
    (guesses memory_platform plain_jwt service "ann@example.com" tries joined).0 ≤ 2
guesses-le-max_example =
    guesses-le-max db_of clock_of memory_platform plain_jwt service service-IsBacked
      "ann@example.com" records_all tries joined in_window

login-ok_example :
    (user : User) × Has user (db_of joined).users
    × (user.email ≡ "ann@example.com")
    × (check_password memory_platform user.password_hash "correct horse" ≡ none)
    × (failures db_of clock_of memory_platform plain_jwt service service-IsBacked "ann@example.com"
          joined
        < 2)
    × IsLoggedIn memory_platform service "ann@example.com" "10.0.0.1" user first_pair
        (found_from db_of clock_of memory_platform plain_jwt service service-IsBacked
          "ann@example.com" joined)
        (db_of joined)
        (db_of entered)
login-ok_example =
    login-ok db_of clock_of memory_platform plain_jwt service service-IsBacked "ann@example.com"
      "correct horse" "10.0.0.1" joined first_pair login_works

two_failures :
    2
    ≤ failures db_of clock_of memory_platform plain_jwt service service-IsBacked "ann@example.com"
        locked
unfolding running
two_failures = omega arith

login-locked_example :
    (db_of (login memory_platform plain_jwt service "ann@example.com" "correct horse" "ip" locked).1
      ≡ db_of locked)
    × (is_ok
          (login memory_platform plain_jwt service "ann@example.com" "correct horse" "ip" locked).0
        ≡ false)
    × (((login memory_platform plain_jwt service "ann@example.com" "correct horse" "ip" locked).0
          ≡ err (domain account_locked))
        ⊎ (is_ok
              (count_failures db_of clock_of memory_platform plain_jwt service service-IsBacked
                "ann@example.com" locked).0
            ≡ false))
login-locked_example =
    login-locked db_of clock_of memory_platform plain_jwt service service-IsBacked "ann@example.com"
      "correct horse" "ip" locked two_failures

refresh-ok_example :
    (rt : RefreshToken) × (user : User) × (now : Time) × (t : RefreshToken) × Has rt
      (db_of entered).tokens
    × (rt.token_hash ≡ "sha256:111")
    × (rt.revoked_at ≡ none)
    × (clock_of (service.tokens.find_by_hash "sha256:111" entered).1 ≤ rt.expires_at)
    × Has user (db_of entered).users
    × (user.id ≡ rt.user_id)
    × (db_of exchanged
        ≡ record (db_of entered) { tokens = t ∷ revoked rt.id now (db_of entered).tokens })
    × IsIssued memory_platform service user second_pair t
    × All (λ r. ¬ (r.token_hash ≡ t.token_hash)) (revoked rt.id now (db_of entered).tokens)
unfolding memory_platform
refresh-ok_example =
    refresh-ok db_of clock_of memory_platform plain_jwt service service-IsBacked "111" entered
      second_pair refresh_works

register-ok_example :
    (db_of joined ≡ record (db_of start) { users = ann ∷ [] })
    × (ann.email ≡ "ann@example.com")
    × (ann.role ≡ role_viewer)
    × ((memory_platform.generate_from_password "correct horse"
          (service.users.find_by_email "ann@example.com" start).1).0
        ≡ ok ann.password_hash)
    × All (λ v. ¬ (v.email ≡ "ann@example.com")) (db_of start).users
register-ok_example =
    register-ok db_of clock_of memory_platform plain_jwt service service-IsBacked "ann@example.com"
      "correct horse" start ann register_works

taken :
    is_ok (register memory_platform plain_jwt service "ann@example.com" "again" joined).0 ≡ false
unfolding running
taken = refl
