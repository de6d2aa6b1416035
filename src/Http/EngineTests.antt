-- ===== src/Http/EngineTests.antt =====
-- The chain of the engine over the world in memory, with the audit table.
use backend_infra_assessment.Base.{
  ◌≡◌, refl, none, some, [], ◌==◌, ==_iff, inl, arith, String, false, str_eq, str_eq_iff,
}
use backend_infra_assessment.Database.Contract.{audits_table}
use backend_infra_assessment.Domain.{AuditEventRepository}
use backend_infra_assessment.Repository.{audit_event_repository}
use backend_infra_assessment.Repository.Contract.{IsAuditRepository}
use backend_infra_assessment.Repository.Correct.Audits.{audit_event_repository-IsAuditRepository}
use backend_infra_assessment.Http.Audit.{Request, Response, Next}
use backend_infra_assessment.Http.RequestLog.{Logger}
use backend_infra_assessment.Http.Engine.{IsLogger, engine, entered, engine-audits, Audited, id_of}
use backend_infra_assessment.Tests.Memory.{
  Memory, db_of, clock_of, memory_gorm, memory_gorm-IsGorm, memory_platform,
  memory_platform-IsPlatform,
}
use backend_infra_assessment.Tests.Service.{start}

abbrev pub audit_rows : AuditEventRepository Memory
audit_rows = audit_event_repository memory_platform (memory_gorm audits_table ◌==◌)

audit_event_repository-IsAuditRepository_example : IsAuditRepository db_of clock_of audit_rows
audit_event_repository-IsAuditRepository_example =
    audit_event_repository-IsAuditRepository db_of clock_of memory_platform
      memory_platform-IsPlatform (memory_gorm audits_table ◌==◌)
      (memory_gorm-IsGorm audits_table ◌==◌ ==_iff)

pub audit_rows-IsAuditRepository : IsAuditRepository db_of clock_of audit_rows
audit_rows-IsAuditRepository =
    audit_event_repository-IsAuditRepository db_of clock_of memory_platform
      memory_platform-IsPlatform (memory_gorm audits_table ◌==◌)
      (memory_gorm-IsGorm audits_table ◌==◌ ==_iff)

abbrev pub quiet : Logger Memory
quiet = record { http_request = λ e w. w; panic_recovered = λ c w. w }

pub quiet-IsLogger : IsLogger db_of quiet
quiet-IsLogger = record { request_view = λ e w. refl; panic_view = λ c w. refl }

abbrev login_request : Request
login_request = record {
  method = "POST";
  full_path = "/api/v1/auth/login";
  url_path = "/api/v1/auth/login";
  raw_query = "";
  client_ip = "10.0.0.7";
  user_agent = "curl";
  request_id = "";
}

abbrev unauthorized_response : Response
unauthorized_response = record { status = 401; size = 12; identity = none; errors = [] }

elsewhere :
    (s : String) → str_eq login_request.full_path s ≡ false → ¬ (login_request.full_path ≡ s)
elsewhere s h e = ground (arith, h, e, str_eq_iff login_request.full_path s)

abbrev answering : Next Memory
answering w = (some unauthorized_response, w)

engine-audits_example :
    let w = (answering (entered memory_platform quiet audit_rows login_request start)).1 in
    let after = engine memory_platform quiet audit_rows login_request answering start in
    (after.0 ≡ inl unauthorized_response)
    × Audited db_of clock_of memory_platform quiet audit_rows login_request
        (id_of db_of clock_of memory_platform quiet audit_rows login_request start)
        unauthorized_response
        w
        after.1
engine-audits_example =
    engine-audits db_of clock_of memory_platform quiet audit_rows login_request answering
      unauthorized_response start memory_platform-IsPlatform quiet-IsLogger
      audit_rows-IsAuditRepository (elsewhere "/livez" refl) (elsewhere "/readyz" refl)
      (elsewhere "/swagger/*any" refl) refl
