-- ===== src/Http/Api.antt =====
-- internal/router/router.go as a whole: what a request to each route is answered with, behind the
-- middleware of every route. Gin tells the pattern that a path matches; the page of the documents, the
-- size of what was written and the panics of a handler are parameters.
pub mod Refused
pub mod Admin
use backend_infra_assessment.Base.{
  ℕ, ◌≡◌, ◌≤◌, ◌⊎◌, inl, inr, refl, sym, ap, ◌∙◌, subst, String, Bool, true, false, Option, none,
  some, List, [], ◌∷◌, Result, ok, err, is_ok, str_eq, ◌&&◌, not, is_some, if◌then◌else◌, arith,
  Result-cases, Option-cases, Bool-cases, Exec, Has, raise, pure,
}
use backend_infra_assessment.Domain.{Time, AuditEvent, AuditEventRepository, uuid_nil}
use backend_infra_assessment.Database.{Platform}
use backend_infra_assessment.Database.Contract.{Db, IsPlatform}
use backend_infra_assessment.Repository.Contract.{IsAuditRepository}
use backend_infra_assessment.Jwt.{JwtLibrary}
use backend_infra_assessment.Http.{Refusal, Reply, Served}
use backend_infra_assessment.Http.Audit.{Request, Response, Next, build_audit_event}
use backend_infra_assessment.Http.Cache.{Answer, CacheEntry}
use backend_infra_assessment.Http.Engine.{
  Answered, IsLogger, Audited, engine, entered, id_of, engine-audits,
}
use backend_infra_assessment.Http.Guard.{Identity, auth}
use backend_infra_assessment.Http.Handlers.{
  RegisterRequest, LoginRequest, RefreshRequest, LogoutRequest,
}
use backend_infra_assessment.Http.Probes.{
  Backends, Endpoint, Route, probes_life, probes_readiness, registers, logs_in, refreshes, logs_out,
  shows_caller, shows_documents, lists_users, summarizes, livez, readyz, route_register,
  route_refresh, routes,
}
use backend_infra_assessment.Http.RequestLog.{Logger}
use backend_infra_assessment.Http.Routes.{
  Router, route_login, route_logout, route_me, route_list_users, authed, admin,
}
use backend_infra_assessment.Threat.{ThreatService, ThreatSummary, SummaryCodec}
use backend_infra_assessment.Threat.Prompt.{Format}
use backend_infra_assessment.Threat.Handler.{route_summarize}

-- What the handlers read of a request: the Authorization header, what ShouldBindJSON makes of the body
-- as each of them, and the id in the path.
pub record Input : Type 0 where
  pub authorization : String
  pub registration : Result String RegisterRequest
  pub credentials : Result String LoginRequest
  pub session : Result String RefreshRequest
  pub leave : Result String LogoutRequest
  pub id : String

-- What New is given, and the parameters: the page of the documents, the size of what was written, and
-- whether what runs behind Auth panics, with the world that it leaves then.
pub record Api (W : Type 0) : Type 0 where
  pub env : String
  pub router : Router W
  pub threats : ThreatService W
  pub format : Format
  pub codec : SummaryCodec
  pub backends : Backends W
  pub audits : AuditEventRepository W
  pub log : Logger W
  pub documents_page : W → ℕ × W
  pub size : W → ℕ
  pub panics : Endpoint → Input → W → Option W

-- The status of an answer.
abbrev status_of : {A : Type 0} → Result Refusal (Reply A) → ℕ
status_of (ok reply) = reply.status
status_of (err n) = n.status

abbrev page_status : Result Refusal CacheEntry → ℕ
page_status (ok entry) = entry.status
page_status (err n) = n.status

abbrev cached_status : Result Refusal Answer → ℕ
cached_status (ok answer) = page_status answer.result
cached_status (err n) = n.status

abbrev marked_status : {M A : Type 0} → Result Refusal (M × Reply A) → ℕ
marked_status (ok answer) = answer.1.status
marked_status (err n) = n.status

-- The endpoint of a method and a pattern, if there is a route.
unfoldable pub matched : List Route → String → String → Option Endpoint
matched [] method pattern = none
matched (r ∷ more) method pattern =
    if str_eq r.method method && str_eq r.pattern pattern
    then some r.endpoint
    else matched more method pattern

-- The endpoints behind Auth.
abbrev pub is_protected : Endpoint → Bool
is_protected logs_out = true
is_protected shows_caller = true
is_protected lists_users = true
is_protected summarizes = true
is_protected probes_life = false
is_protected probes_readiness = false
is_protected registers = false
is_protected logs_in = false
is_protected refreshes = false
is_protected shows_documents = false

abbrev identity_of : Result Refusal Identity → Option Identity
identity_of (ok who) = some who
identity_of (err n) = none

module _ {W : Type 0} (p : Platform W) (lib : JwtLibrary) (api : Api W) where
  -- The chain of a route, to the status of its answer.
  unfoldable pub chain : Endpoint → String → Input → W → ℕ × W
  chain probes_life ip c w = (((livez w).0).status, (livez w).1)
  chain probes_readiness ip c w = ((readyz api.backends w).0.status, (readyz api.backends w).1)
  chain registers ip c w =
      let (r, w') = route_register p lib api.router c.registration w in (status_of r, w')
  chain logs_in ip c w =
      let (r, w') = route_login p lib api.router ip c.credentials w in (status_of r, w')
  chain refreshes ip c w =
      let (r, w') = route_refresh p lib api.router c.session w in (status_of r, w')
  chain logs_out ip c w =
      let (r, w') = route_logout p lib api.router c.authorization c.leave w in (status_of r, w')
  chain shows_caller ip c w =
      let (r, w') = route_me p lib api.router c.authorization w in (cached_status r, w')
  chain shows_documents ip c w = api.documents_page w
  chain lists_users ip c w =
      let (r, w') = route_list_users p lib api.router c.authorization w in (cached_status r, w')
  chain summarizes ip c w =
      let (r, w') =
        route_summarize p api.format api.codec api.threats lib api.router c.authorization c.id w in
      (marked_status r, w')

  -- Whom Auth has put in the context, where the route has it.
  unfoldable pub caller : Endpoint → Input → W → Option Identity
  caller e c w =
      if is_protected e
      then identity_of (auth p lib api.router.service.jwt c.authorization w).0
      else none

  -- The world in which the chain of a route panics, if it does: a chain that ends at Auth does not.
  unfoldable pub halted : Endpoint → Input → W → Option W
  unfolding caller
  halted e c w = if is_protected e && not (is_some (caller e c w)) then none else api.panics e c w

  -- The response of a chain that has not panicked.
  abbrev pub responded : Option W → ℕ → Option Identity → W → Option Response × W
  responded (some after) status who w = (none, after)
  responded none status who w =
      (some (record { status = status; size = api.size w; identity = who; errors = [] }), w)

  -- A path without a route is answered with 404.
  unfoldable pub serve : Option Endpoint → String → Input → Next W
  unfolding chain caller halted
  serve none ip c w = responded none 404 none w
  serve (some e) ip c w =
      let (status, w') = chain e ip c w in responded (halted e c w) status (caller e c w) w'

  -- A request, from the outermost middleware on.
  unfoldable pub handle : Request → Input → W → Answered × W
  unfolding serve
  handle c input =
      engine p api.log api.audits c
        (serve (matched (routes api.env) c.method c.full_path) c.client_ip input)
