-- ===== src/Auth/Concurrent/Ended.antt =====
-- A session that was ended stays so, however the statements of concurrent requests come.
use backend_infra_assessment.Base.{
  ◌≡◌, ◌≤◌, refl, sym, subst, String, true, false, is_ok, List, All-Mem, Any, Memᴰ,
}
use backend_infra_assessment.Base.Programs.{stop, call}
use backend_infra_assessment.Domain.{Time}
use backend_infra_assessment.Hash.{sha256_hex}
use backend_infra_assessment.Database.{Platform}
use backend_infra_assessment.Database.Contract.{Db}
use backend_infra_assessment.Jwt.{JwtLibrary}
use backend_infra_assessment.Auth.{AuthService}
use backend_infra_assessment.Auth.Contract.{IsBacked}
use backend_infra_assessment.Auth.Sessions.{Call, refreshing, logging_out}
use backend_infra_assessment.Auth.Steps.{IsWellFormed}
use backend_infra_assessment.Auth.Steps.Spent.{IsSpent, Steps-IsSpent}
use backend_infra_assessment.Auth.Concurrent.{Request, Reply}
use backend_infra_assessment.Auth.Concurrent.Rely.{IsStable, Ensures}
use backend_infra_assessment.Auth.Concurrent.Logout.{
  Refuses, Ends, IsIssued, Steps-IsIssued, program-Refuses, program-Ends,
}
use backend_infra_assessment.Auth.Concurrent.System.{Thread, System, Turn, play, over, succeeded}
use backend_infra_assessment.Auth.Concurrent.Safety.{IsServing, play-IsServing, play-Ensures}

module _ {W : Type 0} (view : W → Db) (clock : W → Time) (p : Platform W) (lib : JwtLibrary)
    (s : AuthService W) (b : IsBacked view clock p s) (token : String) where
  abbrev hash : String
  hash = sha256_hex p token

  refused :
      (c : Call) (m : Request W Reply) (d : Db)
      → refreshing token ≡ c
      → Ensures view (Refuses view clock p lib s b hash c) m d
      → over m ≡ false
  unfolding Ensures
  refused c (stop r) d e h =
      subst (λ k. Refuses view clock p lib s b hash k r d → is_ok r ≡ false) e (λ f. f refl) h
  refused c (call X g k) d e h = refl

  ended :
      (c : Call) (m : Request W Reply) (d : Db)
      → logging_out token ≡ c
      → Ensures view (Ends view clock p lib s b hash c) m d
      → over m ≡ true
      → IsSpent hash d
  unfolding Ensures
  ended c (stop r) d e h good =
      subst (λ k. Ends view clock p lib s b hash k r d → IsSpent hash d) e (λ f. f refl good) h
  ended c (call X g k) d e h good = cc good

  Refuses-IsStable : (c : Call) → IsStable (Refuses view clock p lib s b hash c)
  Refuses-IsStable (refreshing t) r d e st h = h
  Refuses-IsStable _ r d e st h = tt

  Ends-IsStable : (c : Call) → IsStable (Ends view clock p lib s b hash c)
  Ends-IsStable (logging_out t) r d e st h = λ same good. Steps-IsSpent hash st (h same good)
  Ends-IsStable _ r d e st h = tt

  -- The system after some turns.
  abbrev pub after : List Turn → System W → System W
  after = play p lib s

  -- Once the tables of a system that is serving have a token and its rows are all revoked, no refresh
  -- with it that arrives from then on succeeds, however the statements of concurrent requests come.
  pub spent_stays :
      (x : System W) (turns : List Turn) (t : Thread W)
      → IsServing view x
      → IsSpent hash (view x.world)
      → Memᴰ t (after turns x).threads
      → x.arrived ≤ t.number
      → t.request ≡ refreshing token
      → succeeded t ≡ false
  spent_stays x turns t serving spent there new asked =
      let good =
        play-Ensures view clock p lib s b (Refuses view clock p lib s b hash) Refuses-IsStable
          (IsSpent hash) (λ d e st. Steps-IsSpent hash st)
          (program-Refuses view clock p lib s b hash) turns x serving spent in
      refused t.request t.rest (view (after turns x).world) (sym asked)
        (All-Mem _ t (after turns x).threads good there new)

  -- A logout ends the session among concurrent requests too: from a system that is serving on, whose
  -- tables repeat no address and no hash and have a token, once a logout with it that arrives later
  -- has succeeded, no refresh with it that arrives after that succeeds, however the statements of the
  -- requests come, and whether or not the process dies.
  pub logout_ends_concurrent :
      (x : System W) (turns later : List Turn) (out t : Thread W)
      → IsServing view x
      → IsWellFormed (view x.world)
      → Any (λ r. r.token_hash ≡ sha256_hex p token) (view x.world).tokens
      → Memᴰ out (after turns x).threads
      → x.arrived ≤ out.number
      → out.request ≡ logging_out token
      → succeeded out ≡ true
      → Memᴰ t (after later (after turns x)).threads
      → (after turns x).arrived ≤ t.number
      → t.request ≡ refreshing token
      → succeeded t ≡ false
  logout_ends_concurrent x turns later out t serving v issued there new asked good =
      let all =
        play-Ensures view clock p lib s b (Ends view clock p lib s b hash) Ends-IsStable
          (IsIssued view clock p lib s b hash) (Steps-IsIssued view clock p lib s b hash)
          (program-Ends view clock p lib s b hash) turns x serving
          (record { sound = v; row = issued }) in
      let spent =
        ended out.request out.rest (view (after turns x).world) (sym asked)
          (All-Mem _ out (after turns x).threads all there new) good in
      spent_stays (after turns x) later t (play-IsServing view clock p lib s b turns x serving)
        spent
