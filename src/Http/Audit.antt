-- ===== src/Http/Audit.antt =====
-- internal/middleware/audit.go: the audit event of a request, once it has been served.
use backend_infra_assessment.Base.{
  ℕ, String, Bool, Option, none, some, List, append, str_eq, ◌==◌, ◌||◌, not, if◌then◌else◌,
}
use backend_infra_assessment.Domain.{Uuid, uuid_nil, AuditEvent, AuditEventRepository}
use backend_infra_assessment.Http.Guard.{Identity}

-- What the middleware reads of a request.
pub record Request : Type 0 where
  pub method : String
  -- c.FullPath(): the pattern of the route, or the empty text
  pub full_path : String
  pub url_path : String
  pub raw_query : String
  pub client_ip : String
  pub user_agent : String
  -- the X-Request-Id header
  pub request_id : String

-- What Gin's context holds once the rest of the chain has returned.
pub record Response : Type 0 where
  pub status : ℕ
  pub size : ℕ
  -- what Auth has stored, if it let the request through
  pub identity : Option Identity
  -- c.Errors
  pub errors : List String

-- CurrentUserID and CurrentRole.
abbrev pub current_user_id : Option Identity → Uuid
current_user_id none = uuid_nil
current_user_id (some who) = who.user_id

abbrev pub current_role : Option Identity → String
current_role none = ""
current_role (some who) = who.role

unfoldable pub should_record : Request → Bool
should_record c = not (
    str_eq c.full_path "/livez"
    || str_eq c.full_path "/readyz"
    || str_eq c.full_path "/swagger/*any")

abbrev pub recorded_path : Request → String
recorded_path c = if str_eq c.full_path "" then c.url_path else c.full_path

-- `if id := CurrentUserID(c); id != uuid.Nil { actorID = &id }`
abbrev pub actor_of : Option Identity → Option Uuid
actor_of who = if current_user_id who == uuid_nil then none else some (current_user_id who)

-- The id of the request is the one that RequestLogger has put in the context.
unfoldable pub build_audit_event : Request → String → Response → AuditEvent
build_audit_event c request_id r = record {
  id = uuid_nil;
  actor_id = actor_of r.identity;
  actor_role = current_role r.identity;
  action = append c.method (append " " (recorded_path c));
  method = c.method;
  path = recorded_path c;
  status_code = r.status;
  ip_address = c.client_ip;
  user_agent = c.user_agent;
  request_id = request_id;
  created_at = 0;
}

-- The rest of the chain: a response, or nothing where it panics.
abbrev pub Next : Type 0 → Type 0
Next W = W → Option Response × W

module _ {W : Type 0} (repo : AuditEventRepository W) where
  -- The part of Audit after c.Next(): an error of the repository is logged and dropped.
  unfoldable pub record_event : Request → String → Response → W → W
  unfolding build_audit_event should_record
  record_event c request_id r w =
      if should_record c then (repo.create (build_audit_event c request_id r) w).1 else w

  -- A panic of the rest of the chain unwinds past the code after c.Next().
  abbrev audited : Request → String → Option Response × W → Option Response × W
  audited c request_id (none, w) = (none, w)
  audited c request_id (some r, w) = (some r, record_event c request_id r w)

  unfoldable pub audit : Request → String → Next W → Next W
  unfolding record_event
  audit c request_id next w = audited c request_id (next w)
