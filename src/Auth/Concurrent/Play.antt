-- ===== src/Auth/Concurrent/Play.antt =====
-- What holds however the statements of concurrent requests come.
use backend_infra_assessment.Base.{ℕ, zero, suc, ◌≤◌, List, [], ◌∷◌, All, All-imp, arith}
use backend_infra_assessment.Base.Programs.{stop, call}
use backend_infra_assessment.Domain.{Time}
use backend_infra_assessment.Database.{Platform}
use backend_infra_assessment.Database.Contract.{Db}
use backend_infra_assessment.Jwt.{JwtLibrary}
use backend_infra_assessment.Auth.{AuthService}
use backend_infra_assessment.Auth.Contract.{IsBacked}
use backend_infra_assessment.Auth.Sessions.{Call}
use backend_infra_assessment.Auth.Steps.{Steps, Steps-trans}
use backend_infra_assessment.Auth.Concurrent.{Request, Reply, program}
use backend_infra_assessment.Auth.Concurrent.Rely.{
  Outcome, IsStable, IsLawful, Ensures, Ensures-later,
}
use backend_infra_assessment.Auth.Concurrent.Lawful.{program-IsLawful}
use backend_infra_assessment.Auth.Concurrent.System.{
  Thread, System, Turn, arrives, runs, dies, advance, run_at, happen, play,
}

-- What a thread does, what it ensures from now on, and that it has arrived.
abbrev pub Promise : Type 1
Promise = ℕ → Call → Outcome Reply

module _ {W : Type 0} (view : W → Db) (q : Promise) where
  pub record IsGood (d : Db) (t : Thread W) : Type 0 where
    pub lawful : IsLawful view t.rest
    pub ensures : Ensures view (q t.number t.request) t.rest d

module _ {W : Type 0} (view : W → Db) (q : Promise)
    (stable : (n : ℕ) (c : Call) → IsStable (q n c)) where
  IsGood-later : (d e : Db) → Steps d e → (t : Thread W) → IsGood view q d t → IsGood view q e t
  IsGood-later d e st t g = record {
    lawful = g.lawful;
    ensures = Ensures-later view _ t.rest d e (stable t.number t.request) st g.ensures;
  }

  advance-IsGood :
      (n : ℕ) (c : Call) (m : Request W Reply) (w : W)
      → IsGood view q (view w) (record { number = n; request = c; rest = m })
      → Steps (view w) (view (advance m w).1)
        × IsGood view q
            (view (advance m w).1)
            (record { number = n; request = c; rest = (advance m w).0 })
  unfolding IsLawful Ensures
  advance-IsGood n c (stop r) w g = (Steps.done, g)
  advance-IsGood n c (call X f k) w g =
      (g.lawful.0 w, record { lawful = g.lawful.1 (f w).0; ensures = g.ensures w Steps.done })

  run_at-IsGood :
      (n : ℕ) (ts : List (Thread W)) (w : W)
      → All (IsGood view q (view w)) ts
      → Steps (view w) (view (run_at n ts w).1)
        × All (IsGood view q (view (run_at n ts w).1)) (run_at n ts w).0
  unfolding run_at
  run_at-IsGood n [] w g = (Steps.done, tt)
  run_at-IsGood zero (t ∷ ts) w (g, gs) =
      let (st, h) = advance-IsGood t.number t.request t.rest w g in
      (st, (h, All-imp _ _ ts (IsGood-later (view w) (view (advance t.rest w).1) st) gs))
  run_at-IsGood (suc n) (t ∷ ts) w (g, gs) =
      let (st, hs) = run_at-IsGood n ts w gs in
      (st, (IsGood-later (view w) (view (run_at n ts w).1) st t g, hs))

-- The threads of a system are what is left of requests that have arrived: they write as the
-- service does.
abbrev IsServing : {W : Type 0} → (W → Db) → System W → Type 0
IsServing view x = All (λ t. IsLawful view t.rest) x.threads

module _ {W : Type 0} (view : W → Db) (clock : W → Time) (p : Platform W) (lib : JwtLibrary)
    (s : AuthService W) (b : IsBacked view clock p s) where
  -- Where `j` stays true of the tables, and every request that arrives from number `from` on, with
  -- `j` true, ensures `q`: no turn spoils that.
  module _ (q : Promise) (stable : (n : ℕ) (c : Call) → IsStable (q n c)) (j : Db → Type 0)
      (kept : (d e : Db) → Steps d e → j d → j e) (from : ℕ)
      (arrival : (n : ℕ) (c : Call) (d : Db)
        → from ≤ n
        → j d
        → Ensures view (q n c) (program p lib s c) d) where
    pub record IsRunning (x : System W) : Type 0 where
      pub begun : from ≤ x.arrived
      pub tables : j (view x.world)
      pub threads : All (IsGood view q (view x.world)) x.threads

    happen-IsRunning :
        (turn : Turn) (x : System W)
        → IsRunning x
        → Steps (view x.world) (view (happen p lib s turn x).world)
          × IsRunning (happen p lib s turn x)
    unfolding happen
    happen-IsRunning (arrives c) x g = (
      Steps.done,
      record {
        begun = omega (arith, g.begun);
        tables = g.tables;
        threads = (
          record {
            lawful = program-IsLawful view clock p lib s b c;
            ensures = arrival x.arrived c (view x.world) g.begun g.tables;
          },
          g.threads,
        );
      },
    )
    happen-IsRunning (runs n) x g =
        let (st, gs) = run_at-IsGood view q stable n x.threads x.world g.threads in
        (st, record { begun = g.begun; tables = kept _ _ st g.tables; threads = gs })
    happen-IsRunning dies x g =
        (Steps.done, record { begun = g.begun; tables = g.tables; threads = tt })

    pub play-IsRunning :
        (turns : List Turn) (x : System W)
        → IsRunning x
        → Steps (view x.world) (view (play p lib s turns x).world)
          × IsRunning (play p lib s turns x)
    unfolding play
    play-IsRunning [] x g = (Steps.done, g)
    play-IsRunning (turn ∷ turns) x g =
        let (st, h) = happen-IsRunning turn x g in
        let (sts, h') = play-IsRunning turns (happen p lib s turn x) h in (Steps-trans st sts, h')
