-- ===== src/Http/Api/Refused.antt =====
-- What a request to a protected route gets, and leaves, when Auth does not let it through.
use text.Mathlib.Text.{starts_with}
use backend_infra_assessment.Base.{
  ◌≡◌, ◌⊎◌, inl, inr, refl, sym, ap, ◌∙◌, String, Bool, true, false, Option, none, some, List, [],
  ◌∷◌, err, is_ok, str_eq, str_eq_iff, ◌&&◌, ◌||◌, if◌then◌else◌, arith, Result-cases, Option-cases,
  Bool-cases, Any, All, All-Any,
}
use backend_infra_assessment.Domain.{Time, AuditEvent, AuditEventRepository}
use backend_infra_assessment.Http.RequestLog.{Logger, request_id_for}
use backend_infra_assessment.Database.{Platform}
use backend_infra_assessment.Database.Contract.{Db, IsPlatform}
use backend_infra_assessment.Repository.Contract.{IsAuditRepository}
use backend_infra_assessment.Jwt.{JwtLibrary, JwtService, parse_access_token}
use backend_infra_assessment.Http.{Refusal}
use backend_infra_assessment.Http.Audit.{Request, Response, build_audit_event}
use backend_infra_assessment.Http.Engine.{IsLogger, entered, id_of, engine-audits}
use backend_infra_assessment.Http.Guard.{auth, bearer, trim_prefix}
use backend_infra_assessment.Http.Probes.{
  Endpoint, Route, logs_out, shows_caller, lists_users, summarizes, routes, probes_life,
  probes_readiness, registers, logs_in, refreshes, shows_documents,
}
use backend_infra_assessment.Http.Routes.{route_logout, route_me, route_list_users, authed, admin}
use backend_infra_assessment.Threat.Handler.{route_summarize}
use backend_infra_assessment.Http.Api.{
  Api, Input, matched, is_protected, chain, caller, halted, serve, handle,
}

matched-some :
    (rs : List Route) (method pattern : String) (e : Endpoint)
    → matched rs method pattern ≡ some e
    → Any (λ r. (r.endpoint ≡ e) × (r.pattern ≡ pattern)) rs
unfolding matched
matched-some [] method pattern e h = cc h
matched-some (r ∷ more) method pattern e h =
    elim (Bool-cases (str_eq r.method method && str_eq r.pattern pattern)) [
      | inl y ↦ inl (ground (arith, y), ground (arith, y, str_eq_iff r.pattern pattern))
      | inr n ↦ inr (matched-some more method pattern e (rw n at h))
    ]

abbrev pub is_special : String → Bool
is_special s = str_eq s "" || str_eq s "/livez" || str_eq s "/readyz" || str_eq s "/swagger/*any"

abbrev IsAudited : Route → Type 0
IsAudited r = (is_protected r.endpoint && is_special r.pattern) ≡ false

routes-IsAudited : (env : String) → All IsAudited (routes env)
unfolding routes
routes-IsAudited env = elim (Bool-cases (str_eq env "production")) [
  | inl y ↦ rw y (refl, (refl, (refl, (refl, (refl, (refl, (refl, (refl, (refl, tt)))))))))
  | inr n ↦ rw n (refl, (refl, (refl, (refl, (refl, (refl, (refl, (refl, (refl, (refl, tt))))))))))
]

-- No protected route is left out of the audit.
pub is_special-matched :
    (env method pattern : String) (e : Endpoint)
    → matched (routes env) method pattern ≡ some e
    → is_protected e ≡ true
    → is_special pattern ≡ false
is_special-matched env method pattern e h k =
    All-Any IsAudited _ (routes env)
      (λ r audited (same, there).
        let f : is_protected r.endpoint ≡ true = ap is_protected same ∙ k in
        rw (f, there) at audited)
      (routes-IsAudited env) (matched-some (routes env) method pattern e h)

pub unlike : (s t : String) → str_eq s t ≡ false → ¬ (s ≡ t)
unlike s t h e = ground (arith, h, e, str_eq_iff s t)

module _ {W : Type 0} (view : W → Db) (clock : W → Time) (p : Platform W) (lib : JwtLibrary)
    (ip : IsPlatform view clock p) where
  parse_view :
      (jwt : JwtService) (token : String) (w : W)
      → view (parse_access_token p lib jwt token w).1 ≡ view w
  unfolding parse_access_token
  parse_view jwt token w = ip.time_view w

  entered_view :
      (log : Logger W) (repo : AuditEventRepository W) (c : Request) (w : W)
      → view (entered p log repo c w) ≡ view w
  unfolding entered request_id_for
  entered_view log repo c w = elim (Bool-cases (str_eq c.request_id "")) [
    | inl y ↦ rw (entered, y) (ip.time_view (p.uuid_new w).1 ∙ ip.uuid_view w)
    | inr n ↦ rw (entered, n) (ip.time_view w)
  ]

  -- Auth answers with 401, and leaves the database alone.
  auth-err :
      (jwt : JwtService) (header : String) (n : Refusal) (w : W)
      → (auth p lib jwt header w).0 ≡ err n
      → (n.status ≡ 401) × (view (auth p lib jwt header w).1 ≡ view w)
  unfolding auth
  auth-err jwt header n w h =
      let token = trim_prefix header bearer in
      elim (Bool-cases (starts_with header bearer)) [
        | inr e ↦ ground (arith, e)
        | inl e ↦ elim (Result-cases (parse_access_token p lib jwt token w).0) [
          | inr (x, f) ↦ ground (arith, e, f, parse_view jwt token w)
          | inl (claims, f) ↦ elim (Option-cases (p.uuid_parse claims.user_id)) [
            | inl g ↦ ground (arith, e, f, g, parse_view jwt token w)
            | inr (id, g) ↦ absurd (ground (arith, e, f, g))
          ]
        ]
      ]

module _ {W : Type 0} (p : Platform W) (lib : JwtLibrary) (api : Api W) where
  -- The chain of a protected route ends at Auth.
  chain-refused :
      (e : Endpoint) (client_ip : String) (c : Input) (n : Refusal) (w : W)
      → is_protected e ≡ true
      → (auth p lib api.router.service.jwt c.authorization w).0 ≡ err n
      → chain p lib api e client_ip c w
        ≡ (n.status, (auth p lib api.router.service.jwt c.authorization w).1)
  unfolding chain route_logout route_me route_list_users route_summarize authed admin
  chain-refused logs_out client_ip c n w k h = rw h refl
  chain-refused shows_caller client_ip c n w k h = rw h refl
  chain-refused lists_users client_ip c n w k h = rw h refl
  chain-refused summarizes client_ip c n w k h = rw h refl
  chain-refused probes_life client_ip c n w k h = cc k
  chain-refused probes_readiness client_ip c n w k h = cc k
  chain-refused registers client_ip c n w k h = cc k
  chain-refused logs_in client_ip c n w k h = cc k
  chain-refused refreshes client_ip c n w k h = cc k
  chain-refused shows_documents client_ip c n w k h = cc k

  -- The response that such a request gets.
  abbrev pub turned_away : Refusal → W → Response
  turned_away n w = record { status = n.status; size = api.size w; identity = none; errors = [] }

  serve-refused :
      (e : Endpoint) (client_ip : String) (c : Input) (n : Refusal) (w : W)
      → is_protected e ≡ true
      → (auth p lib api.router.service.jwt c.authorization w).0 ≡ err n
      → let w' = (auth p lib api.router.service.jwt c.authorization w).1 in
        serve p lib api (some e) client_ip c w ≡ (some (turned_away n w'), w')
  unfolding serve caller halted
  serve-refused e client_ip c n w k h = rw (chain-refused e client_ip c n w k h, k, h) refl

  module _ (view : W → Db) (clock : W → Time) where
    -- A request to a protected route that Auth does not let through is answered with 401. It changes
    -- nothing in the database but for one new audit event, which has that status and no actor, and
    -- not even that where the insert fails.
    pub handle-refused :
        (c : Request) (input : Input) (e : Endpoint) (n : Refusal) (w : W)
        → IsPlatform view clock p
        → IsLogger view api.log
        → IsAuditRepository view clock api.audits
        → matched (routes api.env) c.method c.full_path ≡ some e
        → is_protected e ≡ true
        → (auth p lib api.router.service.jwt input.authorization
            (entered p api.log api.audits c w)).0
          ≡ err n
        → (r : Response) × ((handle p lib api c input w).0 ≡ inl r)
          × (r.status ≡ 401)
          × (((event : AuditEvent) × (view (handle p lib api c input w).1
                  ≡ record (view w) { audits = event ∷ (view w).audits })
                × (event.status_code ≡ 401)
                × (event.actor_id ≡ none)
                × (event.path ≡ c.full_path))
              ⊎ ((is_ok
                      (api.audits.create
                        (build_audit_event c (id_of view clock p api.log api.audits c w) r)
                        (auth p lib api.router.service.jwt input.authorization
                          (entered p api.log api.audits c w)).1).0
                    ≡ false)
                  × (view (handle p lib api c input w).1 ≡ view w)))
    unfolding handle
    handle-refused c input e n w ip il b found k h =
        let next =
          serve p lib api (matched (routes api.env) c.method c.full_path) c.client_ip input in
        let w0 = entered p api.log api.audits c w in
        let w1 = (auth p lib api.router.service.jwt input.authorization w0).1 in
        let served : next w0 ≡ (some (turned_away n w1), w1) =
          rw found (serve-refused e c.client_ip input n w0 k h) in
        let event =
          build_audit_event c (id_of view clock p api.log api.audits c w) (turned_away n w1) in
        let plain = is_special-matched api.env c.method c.full_path e found k in
        let blank : str_eq c.full_path "" ≡ false = ground (arith, plain) in
        let (refused, kept) =
          auth-err view clock p lib ip api.router.service.jwt input.authorization n w0 h in
        let same : view (next w0).1 ≡ view w =
          ap (λ (x : Option Response × W). view x.1) served
          ∙ kept
          ∙ entered_view view clock p lib ip api.log api.audits c w in
        let (answer, audited) =
          engine-audits view clock p api.log api.audits c next (turned_away n w1) w ip il b
            (unlike c.full_path "/livez" (ground (arith, plain)))
            (unlike c.full_path "/readyz" (ground (arith, plain)))
            (unlike c.full_path "/swagger/*any" (ground (arith, plain)))
            (ap (λ (x : Option Response × W). x.0) served) in
        (
          turned_away n w1,
          answer,
          refused,
          elim audited [
            | inr (failed, untouched) ↦ inr (
              ap (λ (x : Option Response × W). is_ok (api.audits.create event x.1).0) (sym served)
                  ∙ failed,
              untouched ∙ same,
            )
            | inl (event, stored, (actor, _, _, _, path, status, _, _, _), _) ↦ inl (
              event,
              stored ∙ ap {A = Db} {B = Db} (λ d. record d { audits = event ∷ d.audits }) same,
              status ∙ refused,
              actor,
              path ∙ ap (λ b. if b then c.url_path else c.full_path) blank,
            )
          ],
        )
