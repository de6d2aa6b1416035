-- ===== src/Threat/Tests.antt =====
-- A summary of a user of the database in memory.
use backend_infra_assessment.Base.{
  ℕ, ◌≡◌, refl, List, [], ◌∷◌, none, some, false, ok, err, ◌==◌, ==_iff, Has, arith,
}
use backend_infra_assessment.Domain.{User, LoginAttempt, AuditEvent}
use backend_infra_assessment.Database.Contract.{audits_table}
use backend_infra_assessment.Repository.{
  audit_event_repository, login_attempt_repository, user_repository,
}
use backend_infra_assessment.Tests.Memory.{
  Memory, db_of, clock_of, sorted, memory_gorm, memory_gorm-IsGorm, memory_platform-IsPlatform,
  memory_platform, first_of_rows, tally, untally,
}
use backend_infra_assessment.Tests.Service.{service, service-IsBacked}
use backend_infra_assessment.Threat.{
  ThreatService, ThreatSummary, SummaryCodec, summarize_rows, summarize_fresh, summarize_user,
}
use backend_infra_assessment.Threat.Prompt.{Format}
use backend_infra_assessment.Threat.Window.{earliest}
use backend_infra_assessment.Threat.Summary.{IsActivity, Reports, summarize_fresh-Reports}
use backend_infra_assessment.Repository.Contract.{IsAuditRepository}
use backend_infra_assessment.Repository.Correct.Audits.{audit_event_repository-IsAuditRepository}

abbrev attempt_at : ℕ → LoginAttempt
attempt_at t = record {
  id = t;
  email = "root@example.com";
  ip_address = "10.0.0.1";
  successful = false;
  created_at = t;
}

abbrev event_at : ℕ → AuditEvent
event_at t = record {
  id = t;
  actor_id = some 2;
  actor_role = "admin";
  action = "GET /auth/me";
  method = "GET";
  path = "/auth/me";
  status_code = 200;
  ip_address = "10.0.0.1";
  user_agent = "";
  request_id = "";
  created_at = t;
}

abbrev attempts : List LoginAttempt
attempts = attempt_at 9 ∷ attempt_at 7 ∷ attempt_at 4 ∷ []

abbrev events : List AuditEvent
events = event_at 8 ∷ event_at 3 ∷ []

earliest_is_three : earliest attempts events ≡ some 3
unfolding earliest
earliest_is_three = refl

abbrev format : Format
format = record { decimal = tally; rfc3339 = tally; trim_space = λ s. s }

abbrev codec : SummaryCodec
codec = record { marshal = λ s. err "unsupported"; unmarshal = λ raw. err "unexpected end" }

abbrev threat_service : ThreatService Memory
threat_service = record {
  users = service.users;
  attempts = service.attempts;
  audits = audit_event_repository memory_platform (memory_gorm audits_table ◌==◌);
  llm = record { generate = λ timeout prompt w. (ok "quiet", w) };
  cache = record { get = λ key w. (ok none, w); set = λ key value ttl w. (ok tt, w) };
  cfg = record {
    model = "llama";
    timeout = 60;
    summary_ttl = 300;
    max_attempts = 50;
    max_events = 50;
  };
}

abbrev root_user : User
root_user = record {
  id = 2;
  email = "root@example.com";
  password_hash = "bcrypt:root";
  role = "admin";
  created_at = 0;
  updated_at = 0;
}

abbrev world : Memory
world = record {
  db = record { users = root_user ∷ []; tokens = []; attempts = attempts; audits = events };
  clock = 1000000000000;
  next = 1;
}

abbrev summary : ThreatSummary
summary = record {
  user = record { id = "11"; email = "root@example.com"; role = "admin" };
  window = record { login_attempts = 3; audit_events = 2; since = some 3 };
  assessment = "quiet";
  model = "llama";
  generated_at = 1000000000000;
}

summarizing : Unit {0}
unfolding summarize_rows summarize_fresh summarize_user earliest user_repository
    login_attempt_repository audit_event_repository memory_gorm first_of_rows sorted memory_platform
    tally untally
summarizing = tt

summarized : (summarize_fresh memory_platform format codec threat_service 2 world).0 ≡ ok summary
unfolding summarizing
summarized = refl

audit_rows-IsAuditRepository : IsAuditRepository db_of clock_of threat_service.audits
audit_rows-IsAuditRepository =
    audit_event_repository-IsAuditRepository db_of clock_of memory_platform
      memory_platform-IsPlatform (memory_gorm audits_table ◌==◌)
      (memory_gorm-IsGorm audits_table ◌==◌ ==_iff)

summarize_fresh-Reports_example :
    (u : User) × (rows : List LoginAttempt) × (recorded : List AuditEvent) × Has u
      (db_of world).users
    × (u.id ≡ 2)
    × IsActivity (db_of world) u 50 50 rows recorded
    × Reports db_of clock_of memory_platform format codec threat_service u rows recorded summary
summarize_fresh-Reports_example =
    summarize_fresh-Reports db_of clock_of memory_platform format codec threat_service 2 summary
      world service-IsBacked.users service-IsBacked.attempts audit_rows-IsAuditRepository
      (omega arith) (omega arith) summarized
