-- ===== src/Auth/Concurrent/Guessing.antt =====
-- The lockout counts the failures in one statement and records a failure in a later one.
use backend_infra_assessment.Base.{
  ℕ, suc, ◌≡◌, ◌<◌, ◌≤◌, ◌-◌, refl, ap, ◌∙◌, String, false, ok, List, [], ◌∷◌, leb, arith,
}
use backend_infra_assessment.Base.Programs.{stop, ◌>>=◌}
use backend_infra_assessment.Domain.{Time}
use backend_infra_assessment.Database.{Platform}
use backend_infra_assessment.Database.Contract.{Db}
use backend_infra_assessment.Jwt.{JwtLibrary}
use backend_infra_assessment.Auth.{AuthService}
use backend_infra_assessment.Auth.Contract.{IsBacked}
use backend_infra_assessment.Auth.Backends.{IsUp, Result-ok}
use backend_infra_assessment.Auth.Lockout.{count_mono}
use backend_infra_assessment.Auth.Login.{
  failures, count_failures, counted_view, counted_clock, counted_lem,
}
use backend_infra_assessment.Auth.Sessions.{logging_in}
use backend_infra_assessment.Auth.Concurrent.{
  pair_reply, program, login_program, login_unlocked_program,
}
use backend_infra_assessment.Auth.Concurrent.System.{
  Thread, System, Turn, arrives, runs, run_at, happen, play,
}

-- Logins for one address from some ips with some passwords, each of which arrives and makes its first
-- two statements before the next arrives: it reads the clock and counts the failures.
unfoldable pub rush : String → List (String × String) → List Turn
rush email [] = []
rush email ((ip, password) ∷ tries) =
    arrives (logging_in email password ip) ∷ runs 0 ∷ runs 0 ∷ rush email tries

module _ {W : Type 0} (p : Platform W) (lib : JwtLibrary) (s : AuthService W) (email : String) where
  -- A login that has passed the lockout test, and next looks up the user.
  abbrev pub admitted : ℕ → String → String → Thread W
  admitted n ip password = record {
    number = n;
    request = logging_in email password ip;
    rest = login_unlocked_program p lib s email password ip >>= λ pair. stop (ok (pair_reply pair));
  }

  unfoldable pub all_admitted : ℕ → List (String × String) → List (Thread W) → List (Thread W)
  all_admitted n [] ts = ts
  all_admitted n ((ip, password) ∷ tries) ts =
      all_admitted (suc n) tries (admitted n ip password ∷ ts)

module _ {W : Type 0} (view : W → Db) (clock : W → Time) (p : Platform W) (lib : JwtLibrary)
    (s : AuthService W) (b : IsBacked view clock p s) (up : IsUp view p lib s) where
  entered : System W → String → String → String → System W
  entered x email ip password = record {
    arrived = suc x.arrived;
    threads = admitted p lib s email x.arrived ip password ∷ x.threads;
    world = (count_failures view clock p lib s b email x.world).1;
  }

  one_admitted :
      (email ip password : String) (turns : List Turn) (x : System W)
      → failures view clock p lib s b email x.world < s.security.brute_force_max_attempts
      → play p lib s (arrives (logging_in email password ip) ∷ runs 0 ∷ runs 0 ∷ turns) x
        ≡ play p lib s turns (entered x email ip password)
  unfolding entered play happen run_at program login_program ◌>>=◌ count_failures
  one_admitted email ip password turns x few =
      let w = x.world in
      let (n, e) =
        Result-ok _
          (up.counts email ((p.time_now w).0 - s.security.brute_force_window) (p.time_now w).1) in
      let k = counted_lem view clock p lib s b email w n e in
      let free : leb s.security.brute_force_max_attempts n ≡ false = ground (arith, k, few) in
      rw (e, free) refl

  later_failures :
      (email : String) (w : W)
      → failures view clock p lib s b email (count_failures view clock p lib s b email w).1
        ≤ failures view clock p lib s b email w
  later_failures email w =
      let window = s.security.brute_force_window in
      let w' = (count_failures view clock p lib s b email w).1 in
      let later : (clock w - window) ≤ (clock w' - window) =
        omega (arith, counted_clock view clock p lib s b email w) in
      let fewer =
        count_mono view clock p lib s b email (clock w - window) (clock w' - window)
          (view w).attempts later in
      rw (counted_view view clock p lib s b email w) fewer

  less :
      (x : System W) (email ip password : String)
      → failures view clock p lib s b email x.world < s.security.brute_force_max_attempts
      → failures view clock p lib s b email (entered x email ip password).world
        < s.security.brute_force_max_attempts
  unfolding entered
  less x email ip password few = omega (arith, few, later_failures email x.world)

  kept :
      (x : System W) (email ip password : String)
      → view (entered x email ip password).world ≡ view x.world
  unfolding entered
  kept x email ip password = counted_view view clock p lib s b email x.world

  -- However many logins for one address arrive one after another, from any ips and with any passwords,
  -- and each has read the clock and counted the failures before the next arrives, while none has gone
  -- further: all of them pass the lockout test, and no table has changed, where the failures are below
  -- the maximum to begin with and the backends answer.
  pub rush-admits :
      (email : String) (tries : List (String × String)) (x : System W)
      → failures view clock p lib s b email x.world < s.security.brute_force_max_attempts
      → ((play p lib s (rush email tries) x).threads
          ≡ all_admitted p lib s email x.arrived tries x.threads)
        × (view (play p lib s (rush email tries) x).world ≡ view x.world)
  unfolding rush all_admitted play entered
  rush-admits email [] x few = (refl, refl)
  rush-admits email ((ip, password) ∷ tries) x few =
      let y = entered x email ip password in
      let first = one_admitted email ip password (rush email tries) x few in
      let (all, same) = rush-admits email tries y (less x email ip password few) in
      (
        ap (λ (z : System W). z.threads) first ∙ all,
        ap (λ (z : System W). view z.world) first ∙ same ∙ kept x email ip password,
      )
