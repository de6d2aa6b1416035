-- ===== src/Threat/Handler.antt =====
-- internal/handler/threat_handler.go, and its route of internal/router/router.go.
use backend_infra_assessment.Base.{
  String, Bool, true, false, Option, none, some, ok, pure, raise, ◌>>=◌, ◌>>◌, ◌≡◌, >>=-eq-ok,
}
use backend_infra_assessment.Domain.{Uuid, role_admin}
use backend_infra_assessment.Database.{Platform}
use backend_infra_assessment.Jwt.{JwtLibrary, Claims, parse_access_token}
use backend_infra_assessment.Http.{Reply, Served, validation_error}
use backend_infra_assessment.Http.Cache.{Mark, hit, miss}
use backend_infra_assessment.Http.Guard.{bearer, trim_prefix}
use backend_infra_assessment.Http.Handlers.{called, reply}
use backend_infra_assessment.Http.Routes.{Router, admin, admin-ok}
use backend_infra_assessment.Threat.{ThreatService, ThreatSummary, SummaryCodec, summarize_user}
use backend_infra_assessment.Threat.Prompt.{Format}

-- The X-Cache header.
abbrev pub mark : Bool → Mark
mark true = hit
mark false = miss

module _ {W : Type 0} (p : Platform W) (fmt : Format) (codec : SummaryCodec)
    (s : ThreatService W) where
  -- `id, err := uuid.Parse(c.Param("id"))`
  abbrev parsed_id : Option Uuid → Served W Uuid
  parsed_id (some id) = pure id
  parsed_id none = raise (validation_error "invalid user id: must be a UUID")

  unfoldable pub handle_summarize : String → Served W (Mark × Reply ThreatSummary)
  handle_summarize param = do
    id ← parsed_id (p.uuid_parse param)
    found ← called (summarize_user p fmt codec s id)
    pure (mark found.1, reply 200 found.0)

  -- GET /admin/users/:id/threat-summary
  unfoldable pub route_summarize :
      JwtLibrary → Router W → String → String → Served W (Mark × Reply ThreatSummary)
  route_summarize lib r header param = do admin p lib r header; handle_summarize param

  -- A summary is given only to a request whose token has the role of an administrator.
  pub route_summarize-ok :
      (lib : JwtLibrary) (r : Router W) (header param : String)
      (answer : Mark × Reply ThreatSummary) (w : W)
      → (route_summarize lib r header param w).0 ≡ ok answer
      → (claims : Claims) × ((parse_access_token p lib r.service.jwt
            (trim_prefix header bearer)
            w).0
          ≡ ok claims)
        × (claims.role ≡ role_admin)
  unfolding route_summarize
  route_summarize-ok lib r header param answer w h =
      let (who, e, _, _) = >>=-eq-ok (admin p lib r header) (λ _. handle_summarize param) w h in
      let (claims, f, g, _) = admin-ok p lib r header who w e in (claims, f, g)
