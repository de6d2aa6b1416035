-- ===== src/Auth/Concurrent/Safety.antt =====
-- What concurrent requests do to the tables.
use backend_infra_assessment.Base.{◌≤◌, ℕ, zero, suc, ◌<◌, List, [], ◌∷◌, All, All-imp, arith}
use backend_infra_assessment.Domain.{Time}
use backend_infra_assessment.Database.{Platform}
use backend_infra_assessment.Database.Contract.{Db}
use backend_infra_assessment.Jwt.{JwtLibrary}
use backend_infra_assessment.Auth.{AuthService}
use backend_infra_assessment.Auth.Contract.{IsBacked}
use backend_infra_assessment.Auth.Sessions.{Call}
use backend_infra_assessment.Auth.Steps.{Steps, AddsViewers, Steps-AddsViewers}
use backend_infra_assessment.Auth.Concurrent.{Reply, program}
use backend_infra_assessment.Auth.Concurrent.Rely.{
  Outcome, IsStable, IsLawful, Ensures, Ensures-all, Ensures-imp,
}
use backend_infra_assessment.Auth.Concurrent.Lawful.{program-IsLawful}
use backend_infra_assessment.Auth.Concurrent.System.{
  Thread, System, Turn, arrives, runs, dies, run_at, happen, play,
}
use backend_infra_assessment.Auth.Concurrent.Play.{Promise, IsGood, play-IsRunning}

-- The process has started, and no request has arrived.
abbrev pub begin : {W : Type 0} → W → System W
begin w = record { arrived = 0; threads = []; world = w }

module _ {W : Type 0} (p : Platform W) (lib : JwtLibrary) (s : AuthService W) where
  abbrev Numbered : ℕ → List (Thread W) → Type 0
  Numbered n ts = All (λ t. t.number < n) ts

  run_at-Numbered :
      (m n : ℕ) (ts : List (Thread W)) (w : W) → Numbered n ts → Numbered n (run_at m ts w).0
  unfolding run_at
  run_at-Numbered m n [] w h = tt
  run_at-Numbered zero n (t ∷ ts) w h = h
  run_at-Numbered (suc m) n (t ∷ ts) w (h, hs) = (h, run_at-Numbered m n ts w hs)

  -- The numbers of the threads are below that of the next request.
  play-Numbered :
      (turns : List Turn) (x : System W)
      → Numbered x.arrived x.threads
      → Numbered (play p lib s turns x).arrived (play p lib s turns x).threads
  unfolding play happen
  play-Numbered [] x h = h
  play-Numbered (arrives c ∷ turns) x h =
      play-Numbered turns _ (omega arith, All-imp _ _ x.threads (λ t lt. omega (arith, lt)) h)
  play-Numbered (runs n ∷ turns) x h =
      play-Numbered turns _ (run_at-Numbered n x.arrived x.threads x.world h)
  play-Numbered (dies ∷ turns) x h = play-Numbered turns _ tt

module _ {W : Type 0} (view : W → Db) where
  -- Every thread has arrived, and its statements are runs of the abstract writes, as those of every
  -- program of the service are.
  pub record IsServing (x : System W) : Type 0 where
    pub lawful : All (λ t. IsLawful view t.rest) x.threads
    pub numbered : All (λ t. t.number < x.arrived) x.threads

  -- The start is so, and by `play-IsServing` whatever comes of it.
  pub begin-IsServing : (w : W) → IsServing (begin w)
  begin-IsServing w = record { lawful = tt; numbered = tt }

module _ {W : Type 0} (view : W → Db) (clock : W → Time) (p : Platform W) (lib : JwtLibrary)
    (s : AuthService W) (b : IsBacked view clock p s) where
  play-both :
      (turns : List Turn) (x : System W)
      → All (λ t. IsLawful view t.rest) x.threads
      → Steps (view x.world) (view (play p lib s turns x).world)
        × All (λ t. IsLawful view t.rest) (play p lib s turns x).threads
  play-both turns x h =
      let (st, g) =
        play-IsRunning view clock p lib s b (λ n c r d. Unit) (λ n c r d e st h. tt) (λ d. Unit)
          (λ d e st h. tt) 0
          (λ n c d le h.
            Ensures-all view _ (program p lib s c) d (program-IsLawful view clock p lib s b c)
              (λ r e st. tt))
          turns x
          (record {
            begun = omega arith;
            tables = tt;
            threads =
                All-imp _ _ x.threads
                  (λ t l. record {
                    lawful = l;
                    ensures = Ensures-all view _ t.rest (view x.world) l (λ r e st. tt);
                  })
                  h;
          }) in
      (st, All-imp _ _ (play p lib s turns x).threads (λ t gd. gd.lawful) g.threads)

  pub play-IsServing :
      (turns : List Turn) (x : System W) → IsServing view x → IsServing view (play p lib s turns x)
  play-IsServing turns x h = record {
    lawful = (play-both turns x h.lawful).1;
    numbered = play-Numbered p lib s turns x h.numbered;
  }

  -- However the statements of concurrent requests come, from a system that is serving on, the tables
  -- change only by the steps of the specification: inserts of viewers, of attempts and of unrevoked
  -- tokens with a new hash, and revocations.
  pub play-Steps :
      (turns : List Turn) (x : System W)
      → IsServing view x
      → Steps (view x.world) (view (play p lib s turns x).world)
  play-Steps turns x h = (play-both turns x h.lawful).0

  -- From a system that is serving on, concurrent requests never change or remove a user, and every
  -- user that they add is a viewer.
  pub play-AddsViewers :
      (turns : List Turn) (x : System W)
      → IsServing view x
      → AddsViewers (view x.world) (view (play p lib s turns x).world)
  play-AddsViewers turns x h = Steps-AddsViewers (play-Steps turns x h)

  -- What every request that arrives from now on ensures, once `j` is true of the tables, all of
  -- them ensure, however their statements come.
  module _ (q : Call → Outcome Reply) (stable : (c : Call) → IsStable (q c)) (j : Db → Type 0)
      (kept : (d e : Db) → Steps d e → j d → j e)
      (arrival : (c : Call) (d : Db) → j d → Ensures view (q c) (program p lib s c) d) where
    pub play-Ensures :
        (turns : List Turn) (x : System W)
        → IsServing view x
        → j (view x.world)
        → All
            (λ t.
              x.arrived ≤ t.number
              → Ensures view (q t.request) t.rest (view (play p lib s turns x).world))
            (play p lib s turns x).threads
    play-Ensures turns x h now =
        let since : Promise = λ n c r d. x.arrived ≤ n → q c r d in
        let (st, g) =
          play-IsRunning view clock p lib s b since (λ n c r d e st h le. stable c r d e st (h le))
            j kept x.arrived
            (λ n c d le true_now.
              Ensures-imp view (q c) (since n c) (program p lib s c) d (λ r e h le. h)
                (arrival c d true_now))
            turns x
            (record {
              begun = omega arith;
              tables = now;
              threads = old x.threads h.lawful h.numbered;
            }) in
        All-imp _ _ (play p lib s turns x).threads
          (λ t gd le. Ensures-imp view _ (q t.request) t.rest _ (λ r e h. h le) gd.ensures)
          g.threads
      where
        old :
            (ts : List (Thread W))
            → All (λ t. IsLawful view t.rest) ts
            → All (λ t. t.number < x.arrived) ts
            → All (IsGood view (λ n c r d. x.arrived ≤ n → q c r d) (view x.world)) ts
        old [] l n = tt
        old (t ∷ ts) (l, ls) (n, ns) = (
          record {
            lawful = l;
            ensures =
                Ensures-all view (λ r d. x.arrived ≤ t.number → q t.request r d) t.rest
                  (view x.world) l (λ r e st le. absurd (omega (arith, n, le)));
          },
          old ts ls ns,
        )
