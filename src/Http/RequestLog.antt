-- ===== src/Http/RequestLog.antt =====
-- internal/middleware/request_logger.go: the correlation id of a request, and its log entry.
use backend_infra_assessment.Base.{
  ℕ, ◌-◌, String, Option, none, some, List, length, str_eq, ltb, leb, ◌==◌, ◌&&◌, if◌then◌else◌,
}
use backend_infra_assessment.Domain.{uuid_nil, Duration}
use backend_infra_assessment.Database.{Platform}
use backend_infra_assessment.Http.Audit.{Request, Response, Next, current_user_id}

pub data Level : Type 0 where
  level_debug : Level
  level_info : Level
  level_warn : Level
  level_error : Level

unfoldable pub level_for_status : ℕ → Level
level_for_status status =
    if leb 500 status then level_error else if leb 400 status then level_warn else level_info

-- The attributes of an `http_request` entry.
pub record LogEntry : Type 0 where
  pub level : Level
  pub request_id : String
  pub method : String
  pub path : String
  pub query : String
  pub status : ℕ
  pub bytes_out : ℕ
  pub latency : Duration
  pub client_ip : String
  pub user_agent : String
  pub user_id : String
  -- The texts of c.Errors, where they are logged.
  pub errors : Option (List String)

-- log/slog: the writes of the entries that the code makes.
pub record Logger (W : Type 0) : Type 0 where
  pub http_request : LogEntry → W → W
  pub panic_recovered : Request → W → W

module _ {W : Type 0} (p : Platform W) (log : Logger W) where
  -- `if reqID == "" { reqID = uuid.NewString() }`
  unfoldable pub request_id_for : String → W → String × W
  request_id_for header w =
      if str_eq header "" then (p.uuid_string (p.uuid_new w).0, (p.uuid_new w).1) else (header, w)

  unfoldable pub log_entry : Request → String → Response → Duration → LogEntry
  unfolding level_for_status
  log_entry c request_id r latency = record {
    level = level_for_status r.status;
    request_id = request_id;
    method = c.method;
    path = c.url_path;
    query = c.raw_query;
    status = r.status;
    bytes_out = r.size;
    latency = latency;
    client_ip = c.client_ip;
    user_agent = c.user_agent;
    user_id =
        if current_user_id r.identity == uuid_nil
        then ""
        else p.uuid_string (current_user_id r.identity);
    errors = if leb 500 r.status && ltb 0 (length r.errors) then some r.errors else none;
  }

  -- The part of RequestLogger after c.Next(), from the time at which the request began.
  abbrev logged : Request → String → ℕ → Option Response × W → Option Response × W
  logged c request_id start (none, w) = (none, w)
  logged c request_id start (some r, w) =
      let (now, w') = p.time_now w in
      (some r, log.http_request (log_entry c request_id r (now - start)) w')

  -- RequestLogger: the rest of the chain is told the id of the request. The X-Request-Id header of the
  -- response, which repeats it, is left out.
  unfoldable pub request_logger : Request → (String → Next W) → Next W
  unfolding request_id_for log_entry
  request_logger c next w =
      let (request_id, w1) = request_id_for c.request_id w in
      let (start, w2) = p.time_now w1 in logged c request_id start (next request_id w2)
