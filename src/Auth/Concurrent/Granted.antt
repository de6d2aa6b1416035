-- ===== src/Auth/Concurrent/Granted.antt =====
-- The pairs that concurrent requests are granted.
use backend_infra_assessment.Base.{◌≡◌, ◌≤◌, subst, String, ok, List, All-Mem, Memᴰ, Result}
use backend_infra_assessment.Base.Programs.{stop}
use backend_infra_assessment.Domain.{Time, Error}
use backend_infra_assessment.Hash.{sha256_hex}
use backend_infra_assessment.Database.{Platform}
use backend_infra_assessment.Database.Contract.{Db}
use backend_infra_assessment.Jwt.{JwtLibrary}
use backend_infra_assessment.Auth.{AuthService, TokenPair}
use backend_infra_assessment.Auth.Contract.{IsBacked}
use backend_infra_assessment.Auth.Sessions.{Call, logging_in, refreshing}
use backend_infra_assessment.Auth.Steps.{Steps}
use backend_infra_assessment.Auth.Steps.Kept.{Steps-Owns, Steps-Has}
use backend_infra_assessment.Auth.Concurrent.{
  Request, Reply, pair_reply, program, login_program, refresh_program,
}
use backend_infra_assessment.Auth.Concurrent.Rely.{
  Outcome, IsStable, Ensures, Ensures-all, Ensures->>=,
}
use backend_infra_assessment.Auth.Concurrent.Lawful.{program-IsLawful}
use backend_infra_assessment.Auth.Concurrent.Grants.{
  IsAdmitted, IsExchanged, Admits, Exchanges, login-Admits, refresh-Exchanges,
}
use backend_infra_assessment.Auth.Concurrent.System.{Thread, System, Turn, play}
use backend_infra_assessment.Auth.Concurrent.Safety.{IsServing, play-Ensures}

module _ {W : Type 0} (view : W → Db) (clock : W → Time) (p : Platform W) (lib : JwtLibrary)
    (s : AuthService W) (b : IsBacked view clock p s) where
  -- What a login and a refresh that are answered with a pair have come to.
  abbrev Grants : Call → Outcome Reply
  Grants (logging_in email password ip) (ok (pair_reply pair)) d =
      IsAdmitted view clock p lib s b email password pair d
  Grants (refreshing token) (ok (pair_reply pair)) d = IsExchanged view clock p lib s b token pair d
  Grants _ _ d = Unit

  Admitted-stable :
      (email password : String) (pair : TokenPair) (d e : Db)
      → Steps d e
      → IsAdmitted view clock p lib s b email password pair d
      → IsAdmitted view clock p lib s b email password pair e
  Admitted-stable email password pair d e st a = record {
    user = a.user;
    known = Steps-Has a.user st a.known;
    address = a.address;
    right = a.right;
    owner = Steps-Owns a.user.id (sha256_hex p pair.refresh_token) st a.owner;
  }

  Exchanged-stable :
      (token : String) (pair : TokenPair) (d e : Db)
      → Steps d e
      → IsExchanged view clock p lib s b token pair d
      → IsExchanged view clock p lib s b token pair e
  Exchanged-stable token pair d e st a = record {
    user = a.user;
    known = Steps-Has a.user st a.known;
    presented = Steps-Owns a.user.id (sha256_hex p token) st a.presented;
    owner = Steps-Owns a.user.id (sha256_hex p pair.refresh_token) st a.owner;
  }

  Grants-IsStable : (c : Call) → IsStable (Grants c)
  Grants-IsStable (logging_in email password ip) (ok (pair_reply pair)) d e st h =
      Admitted-stable email password pair d e st h
  Grants-IsStable (refreshing token) (ok (pair_reply pair)) d e st h =
      Exchanged-stable token pair d e st h
  Grants-IsStable _ _ d e st h = tt

  program-Grants : (c : Call) (d : Db) → Ensures view (Grants c) (program p lib s c) d
  unfolding program Ensures
  program-Grants (logging_in email password ip) d =
      Ensures->>= view (Admits view clock p lib s b email password)
        (Grants (logging_in email password ip)) (login_program p lib s email password ip) _ d
        (login-Admits view clock p lib s b email password ip d) (λ pair e h. h) (λ x e h. tt)
  program-Grants (refreshing token) d =
      Ensures->>= view (Exchanges view clock p lib s b token) (Grants (refreshing token))
        (refresh_program p lib s token) _ d (refresh-Exchanges view clock p lib s b token d)
        (λ pair e h. h) (λ x e h. tt)
  program-Grants c d =
      Ensures-all view (Grants c) (program p lib s c) d (program-IsLawful view clock p lib s b c)
        (λ r e st. tt)

  granted :
      (q : Outcome Reply) (m : Request W Reply) (r : Result Error Reply) (d : Db)
      → m ≡ stop r
      → Ensures view q m d
      → q r d
  unfolding Ensures
  granted q m r d e h = subst (λ k. Ensures view q k d) e h

  -- The system after some turns.
  abbrev pub after : List Turn → System W → System W
  after = play p lib s

  play-Grants :
      (x : System W) (turns : List Turn) (t : Thread W) (pair : TokenPair)
      → IsServing view x
      → Memᴰ t (after turns x).threads
      → x.arrived ≤ t.number
      → t.rest ≡ stop (ok (pair_reply pair))
      → Grants t.request (ok (pair_reply pair)) (view (after turns x).world)
  play-Grants x turns t pair serving there new answered =
      granted (Grants t.request) t.rest (ok (pair_reply pair)) (view (after turns x).world) answered
        (All-Mem _ t (after turns x).threads
          (play-Ensures view clock p lib s b Grants Grants-IsStable (λ d. Unit) (λ d e st h. tt)
            (λ c d h. program-Grants c d) turns x serving tt)
          there new)

  -- A login that arrives at a system that is serving, among concurrent requests, is answered with a
  -- pair only if a stored user of its address has a hash that its password matches; the refresh token
  -- of the pair is stored for that user.
  pub login_concurrent :
      (x : System W) (turns : List Turn) (t : Thread W) (email password ip : String)
      (pair : TokenPair)
      → IsServing view x
      → Memᴰ t (after turns x).threads
      → x.arrived ≤ t.number
      → t.request ≡ logging_in email password ip
      → t.rest ≡ stop (ok (pair_reply pair))
      → IsAdmitted view clock p lib s b email password pair (view (after turns x).world)
  login_concurrent x turns t email password ip pair serving there new asked answered =
      subst (λ c. Grants c (ok (pair_reply pair)) (view (after turns x).world)) asked
        (play-Grants x turns t pair serving there new answered)

  -- A refresh that arrives at a system that is serving, among concurrent requests, is answered with a
  -- pair only if a token of the presented hash was stored for a user who is stored; the refresh token
  -- of the pair is stored for the same user.
  pub refresh_concurrent :
      (x : System W) (turns : List Turn) (t : Thread W) (token : String) (pair : TokenPair)
      → IsServing view x
      → Memᴰ t (after turns x).threads
      → x.arrived ≤ t.number
      → t.request ≡ refreshing token
      → t.rest ≡ stop (ok (pair_reply pair))
      → IsExchanged view clock p lib s b token pair (view (after turns x).world)
  refresh_concurrent x turns t token pair serving there new asked answered =
      subst (λ c. Grants c (ok (pair_reply pair)) (view (after turns x).world)) asked
        (play-Grants x turns t pair serving there new answered)
