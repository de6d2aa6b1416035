-- ===== src/Auth/Concurrent/System.antt =====
-- Requests that run at the same time: their statements come in any order, new requests arrive at
-- any moment, and the process may die.
use backend_infra_assessment.Base.{ℕ, zero, suc, Bool, false, is_ok, List, [], ◌∷◌}
use backend_infra_assessment.Base.Programs.{stop, call}
use backend_infra_assessment.Database.{Platform}
use backend_infra_assessment.Jwt.{JwtLibrary}
use backend_infra_assessment.Auth.{AuthService}
use backend_infra_assessment.Auth.Sessions.{Call}
use backend_infra_assessment.Auth.Concurrent.{Request, Reply, program}

-- A request, numbered in the order of arrival, and what is left of its program.
pub record Thread (W : Type 0) : Type 1 where
  pub number : ℕ
  pub request : Call
  pub rest : Request W Reply

pub record System (W : Type 0) : Type 1 where
  -- The requests that have arrived.
  pub arrived : ℕ
  pub threads : List (Thread W)
  pub world : W

-- What happens next: a request arrives, the thread at a position makes its next statement, or the
-- process dies.
pub data Turn : Type 0 where
  arrives : Call → Turn
  runs : ℕ → Turn
  dies : Turn

abbrev pub over : {W : Type 0} → Request W Reply → Bool
over (stop r) = is_ok r
over (call X g k) = false

module _ {W : Type 0} where
  -- A thread that is over stays.
  abbrev pub advance : Request W Reply → W → Request W Reply × W
  advance (stop r) w = (stop r, w)
  advance (call X g k) w = (k (g w).0, (g w).1)

  -- The request has been answered, and not with an error.
  abbrev pub succeeded : Thread W → Bool
  succeeded t = over t.rest

  unfoldable pub run_at : ℕ → List (Thread W) → W → List (Thread W) × W
  run_at n [] w = ([], w)
  run_at zero (t ∷ ts) w = (record t { rest = (advance t.rest w).0 } ∷ ts, (advance t.rest w).1)
  run_at (suc n) (t ∷ ts) w = (t ∷ (run_at n ts w).0, (run_at n ts w).1)

module _ {W : Type 0} (p : Platform W) (lib : JwtLibrary) (s : AuthService W) where
  unfoldable pub happen : Turn → System W → System W
  happen (arrives c) x = record {
    arrived = suc x.arrived;
    threads = record { number = x.arrived; request = c; rest = program p lib s c } ∷ x.threads;
    world = x.world;
  }
  happen (runs n) x = record {
    arrived = x.arrived;
    threads = (run_at n x.threads x.world).0;
    world = (run_at n x.threads x.world).1;
  }
  happen dies x = record { arrived = x.arrived; threads = []; world = x.world }

  unfoldable pub play : List Turn → System W → System W
  play [] x = x
  play (turn ∷ turns) x = play turns (happen turn x)
