-- ===== src/Auth/ConcurrentTests.antt =====
-- Concurrent requests on the database in memory.
use backend_infra_assessment.Base.{
  ℕ, ◌≡◌, inl, refl, arith, false, String, List, [], ◌∷◌, ok, err, Memᴰ,
}
use backend_infra_assessment.Base.Programs.{stop, ◌>>=◌, alone}
use backend_infra_assessment.Domain.Errors.{domain, token_revoked}
use backend_infra_assessment.Repository.{
  user_repository, token_repository, login_attempt_repository,
}
use backend_infra_assessment.Jwt.{
  signing_method_hs256, generate_access_token, generate_refresh_token, claims_for,
}
use backend_infra_assessment.Auth.{
  TokenPair, register, register_found, create_viewer, login, login_unlocked, login_found, accept,
  reject, record_attempt, issue_tokens, store_pair,
}
use backend_infra_assessment.Auth.Steps.{Steps, IsWellFormed, AddsViewers}
use backend_infra_assessment.Auth.Sessions.{Call, registering, logging_in, refreshing, logging_out}
use backend_infra_assessment.Auth.Concurrent.{
  pair_reply, no_reply, program, create_viewer_program, register_found_program, register_program,
  record_attempt_program, issue_tokens_program, reject_program, accept_program, login_found_program,
  login_unlocked_program, login_program, rotate_program, refresh_unrevoked_program, refresh_program,
  logout_found_program, logout_program,
}
use backend_infra_assessment.Auth.Concurrent.System.{
  Thread, System, Turn, arrives, runs, run_at, happen, play, succeeded,
}
use backend_infra_assessment.Auth.Concurrent.Safety.{
  begin, begin-IsServing, play-Steps, play-AddsViewers,
}
use backend_infra_assessment.Auth.Concurrent.Ended.{logout_ends_concurrent}
use backend_infra_assessment.Auth.Concurrent.Grants.{IsAdmitted, IsExchanged}
use backend_infra_assessment.Auth.Concurrent.Granted.{login_concurrent, refresh_concurrent}
use backend_infra_assessment.Auth.Concurrent.Guessing.{rush, all_admitted, rush-admits}
use backend_infra_assessment.Tests.Service.{service, service-IsBacked, start}
use backend_infra_assessment.Tests.Signing.{signing, signed_text}
use backend_infra_assessment.Tests.Up.{service-IsUp}
use backend_infra_assessment.Tests.Memory.{Memory, db_of, clock_of, memory_gorm, memory_platform}

running : Unit {0}
unfolding register register_found create_viewer login login_unlocked login_found accept reject
    record_attempt issue_tokens store_pair user_repository token_repository login_attempt_repository
    memory_gorm memory_platform generate_access_token generate_refresh_token claims_for
    create_viewer_program register_found_program register_program record_attempt_program
    issue_tokens_program reject_program accept_program login_found_program login_unlocked_program
    login_program rotate_program refresh_unrevoked_program refresh_program logout_found_program
    logout_program program run_at happen play ◌>>=◌ alone
running = tt

abbrev joined : Memory
joined = (register memory_platform signing service "ann@example.com" "correct horse" start).1

abbrev entered : Memory
entered =
    (login memory_platform signing service "ann@example.com" "correct horse" "10.0.0.1" joined).1

abbrev played : List Turn → Memory → System Memory
played turns w = play memory_platform signing service turns (begin w)

-- Two registrations of one address, of which both look for it before one of them stores it.
abbrev two_registrations : List Turn
two_registrations =
    arrives (registering "bob@example.com" "first password")
    ∷ arrives (registering "bob@example.com" "second password")
    ∷ runs 0
    ∷ runs 1
    ∷ runs 0
    ∷ runs 1
    ∷ runs 0
    ∷ runs 1
    ∷ []

play-Steps_example : Steps (db_of joined) (db_of (played two_registrations joined).world)
play-Steps_example =
    play-Steps db_of clock_of memory_platform signing service service-IsBacked two_registrations
      (begin joined) (begin-IsServing db_of joined)

play-AddsViewers_example :
    AddsViewers (db_of joined) (db_of (played two_registrations joined).world)
play-AddsViewers_example =
    play-AddsViewers db_of clock_of memory_platform signing service service-IsBacked
      two_registrations (begin joined) (begin-IsServing db_of joined)

-- A logout and a refresh arrive; the logout makes its two statements first.
abbrev logging : List Turn
logging = arrives (logging_out "111") ∷ arrives (refreshing "111") ∷ runs 1 ∷ runs 1 ∷ []

abbrev logged_out : Thread Memory
logged_out = record { number = 0; request = logging_out "111"; rest = stop (ok no_reply) }

-- A later refresh reads the row while the earlier one does.
abbrev trying : List Turn
trying = arrives (refreshing "111") ∷ runs 1 ∷ runs 0 ∷ []

abbrev turned_away : Thread Memory
turned_away = record {
  number = 2;
  request = refreshing "111";
  rest = stop (err (domain token_revoked));
}

entered-IsWellFormed : IsWellFormed (db_of entered)
unfolding running
entered-IsWellFormed = record { emails = (tt, tt); hashes = (tt, tt) }

logout_ends_concurrent_example : succeeded turned_away ≡ false
unfolding running
logout_ends_concurrent_example =
    logout_ends_concurrent db_of clock_of memory_platform signing service service-IsBacked "111"
      (begin entered) logging trying logged_out turned_away (begin-IsServing db_of entered)
      entered-IsWellFormed (inl refl) (Memᴰ.tail (Memᴰ.head refl)) (omega arith) refl refl
      (Memᴰ.head refl) (omega arith) refl

-- Three passwords, tried from two ips.
abbrev tries : List (String × String)
tries = ("10.0.0.9", "a") ∷ ("10.0.0.8", "b") ∷ ("10.0.0.9", "c") ∷ []

rush-admits_example :
    ((played (rush "ann@example.com" tries) joined).threads
      ≡ all_admitted memory_platform signing service "ann@example.com" 0 tries [])
    × (db_of (played (rush "ann@example.com" tries) joined).world ≡ db_of joined)
unfolding running
rush-admits_example =
    rush-admits db_of clock_of memory_platform signing service service-IsBacked service-IsUp
      "ann@example.com" tries (begin joined) (omega arith)

abbrev eight : List Turn → List Turn
eight turns = runs 0 ∷ runs 0 ∷ runs 0 ∷ runs 0 ∷ runs 0 ∷ runs 0 ∷ runs 0 ∷ runs 0 ∷ turns

abbrev access_at : ℕ → String
access_at now =
    signed_text signing_method_hs256 (claims_for memory_platform signing service.jwt 2 "viewer" now)
      "secret"

abbrev first_pair : TokenPair
first_pair = record { access_token = access_at 1000000000001; refresh_token = "111" }

abbrev second_pair : TokenPair
second_pair = record { access_token = access_at 1000000000005; refresh_token = "11111" }

abbrev logging_in_ann : List Turn
logging_in_ann = arrives (logging_in "ann@example.com" "correct horse" "10.0.0.1") ∷ eight []

abbrev answered : Call → TokenPair → Thread Memory
answered c pair = record { number = 0; request = c; rest = stop (ok (pair_reply pair)) }

login_concurrent_example :
    IsAdmitted db_of clock_of memory_platform signing service service-IsBacked "ann@example.com"
      "correct horse" first_pair
      (db_of (played logging_in_ann joined).world)
unfolding running
login_concurrent_example =
    login_concurrent db_of clock_of memory_platform signing service service-IsBacked (begin joined)
      logging_in_ann (answered (logging_in "ann@example.com" "correct horse" "10.0.0.1") first_pair)
      "ann@example.com" "correct horse" "10.0.0.1" first_pair (begin-IsServing db_of joined)
      (Memᴰ.head refl) (omega arith) refl refl

abbrev exchanging_token : List Turn
exchanging_token = arrives (refreshing "111") ∷ eight []

refresh_concurrent_example :
    IsExchanged db_of clock_of memory_platform signing service service-IsBacked "111" second_pair
      (db_of (played exchanging_token entered).world)
unfolding running
refresh_concurrent_example =
    refresh_concurrent db_of clock_of memory_platform signing service service-IsBacked
      (begin entered) exchanging_token (answered (refreshing "111") second_pair) "111" second_pair
      (begin-IsServing db_of entered) (Memᴰ.head refl) (omega arith) refl refl
