-- ===== src/Threat.antt =====
-- internal/service/threat_service.go: the summary of a user's recent activity that a language model
-- writes for an administrator. The model, the cache and encoding/json are parameters.
pub mod Prompt
pub mod Window
pub mod Errors
pub mod Summary
pub mod Handler
mod Tests
use backend_infra_assessment.Base.{
  Exec, ℕ, String, Bool, true, false, Option, none, some, List, Result, ok, err, Exec, pure, raise,
  always, caught, ◌>>=◌, ◌>>◌, append, length,
}
use backend_infra_assessment.Domain.{
  Uuid, Time, Duration, User, LoginAttempt, AuditEvent, UserRepository, LoginAttemptRepository,
  AuditEventRepository, Error, Fallible,
}
use backend_infra_assessment.Domain.Errors.{domain, llm_unavailable}
use backend_infra_assessment.Database.{Platform}
use backend_infra_assessment.Http.Cache.{Cache}
use backend_infra_assessment.Llm.{LlmError, LlmClient}
use Prompt.{Format, build_prompt}
use Window.{earliest}

pub record SummaryUser : Type 0 where
  pub id : String
  pub email : String
  pub role : String

pub record SummaryWindow : Type 0 where
  pub login_attempts : ℕ
  pub audit_events : ℕ
  pub since : Option Time

pub record ThreatSummary : Type 0 where
  pub user : SummaryUser
  pub window : SummaryWindow
  pub assessment : String
  pub model : String
  pub generated_at : Time

-- What the service reads of config.LLMConfig.
pub record LlmConfig : Type 0 where
  pub model : String
  pub timeout : Duration
  pub summary_ttl : Duration
  pub max_attempts : ℕ
  pub max_events : ℕ

pub record SummaryCodec : Type 0 where
  pub marshal : ThreatSummary → Result String String
  pub unmarshal : String → Result String ThreatSummary

pub record ThreatService (W : Type 0) : Type 0 where
  pub users : UserRepository W
  pub attempts : LoginAttemptRepository W
  pub audits : AuditEventRepository W
  pub llm : LlmClient W
  pub cache : Cache W
  pub cfg : LlmConfig

module _ {W : Type 0} (p : Platform W) (fmt : Format) (codec : SummaryCodec)
    (s : ThreatService W) where
  abbrev pub summary_key : Uuid → String
  summary_key id = append "threat:summary:" (p.uuid_string id)

  -- What json.Unmarshal made of the cached bytes.
  abbrev decoded : Result String ThreatSummary → Option ThreatSummary
  decoded (ok cached) = some cached
  decoded (err e) = none

  abbrev pub cached_summary : Result String (Option String) → Option ThreatSummary
  cached_summary (err e) = none
  cached_summary (ok none) = none
  cached_summary (ok (some raw)) = decoded (codec.unmarshal raw)

  -- `assessment, err := s.llm.Generate(genCtx, prompt)`: every error is ErrLLMUnavailable.
  abbrev assessed : Result LlmError String → Fallible W String
  assessed (ok assessment) = pure assessment
  assessed (err e) = raise (domain llm_unavailable)

  -- The call, with its error for the code to look at.
  abbrev generated_by : Exec W LlmError String → Fallible W (Result LlmError String)
  generated_by m w = (ok (m w).0, (m w).1)

  abbrev pub summary_of : User → List LoginAttempt → List AuditEvent → String → Time → ThreatSummary
  summary_of user attempts events assessment now = record {
    user = record { id = p.uuid_string user.id; email = user.email; role = user.role };
    window = record {
      login_attempts = length attempts;
      audit_events = length events;
      since = earliest attempts events;
    };
    assessment = fmt.trim_space assessment;
    model = s.cfg.model;
    generated_at = now;
  }

  -- `if raw, err := json.Marshal(summary); err == nil { _ = s.cache.Set(...) }`
  abbrev remember : String → Result String String → W → Unit {0} × W
  remember key (ok raw) w = (tt, (s.cache.set key raw s.cfg.summary_ttl w).1)
  remember key (err e) w = (tt, w)

  -- The part of SummarizeUser after the rows have been read.
  unfoldable pub summarize_rows :
      Uuid → User → List LoginAttempt → List AuditEvent → Fallible W ThreatSummary
  summarize_rows id user attempts events = do
    generated ← generated_by (s.llm.generate s.cfg.timeout (build_prompt fmt user attempts events))
    assessment ← assessed generated
    now ← always p.time_now
    always
        (remember (summary_key id) (codec.marshal (summary_of user attempts events assessment now)))
    pure (summary_of user attempts events assessment now)

  -- The part of SummarizeUser after the cache has had nothing.
  unfoldable pub summarize_fresh : Uuid → Fallible W ThreatSummary
  summarize_fresh id = do
    user ← s.users.find_by_id id
    attempts ← s.attempts.list_recent_by_email user.email s.cfg.max_attempts
    events ← s.audits.list_recent_by_actor user.id s.cfg.max_events
    summarize_rows id user attempts events

  abbrev from_cache : Uuid → Option ThreatSummary → Fallible W (ThreatSummary × Bool)
  from_cache id (some cached) = pure (cached, true)
  from_cache id none = do summary ← summarize_fresh id; pure (summary, false)

  -- SummarizeUser: the summary, and whether it came from the cache.
  unfoldable pub summarize_user : Uuid → Fallible W (ThreatSummary × Bool)
  summarize_user id w =
      let found = s.cache.get (summary_key id) w in from_cache id (cached_summary found.0) found.1
