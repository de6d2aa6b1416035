-- ===== src/Threat/Errors.antt =====
-- SummarizeUser of internal/service/threat_service.go: its errors and its results.
use backend_infra_assessment.Base.{
  none, List, Result, ok, err, ◌≡◌, inl, inr, Result-cases, Has, refl, sym, ap, length, ◌>>=◌,
  >>=-eq-ok,
}
use backend_infra_assessment.Domain.{Uuid, Time, User, LoginAttempt, AuditEvent, Error}
use backend_infra_assessment.Domain.Errors.{domain, llm_unavailable}
use backend_infra_assessment.Database.{Platform}
use backend_infra_assessment.Database.Contract.{Db}
use backend_infra_assessment.Repository.Contract.{IsUserRepository}
use backend_infra_assessment.Threat.{
  ThreatService, ThreatSummary, SummaryCodec, summarize_fresh, summarize_rows, summarize_user,
  cached_summary, summary_key,
}
use backend_infra_assessment.Llm.{LlmError}
use backend_infra_assessment.Threat.Prompt.{Format, build_prompt}
use backend_infra_assessment.Threat.Window.{earliest}

pub ok-inj : {a b : ThreatSummary} → Path (Result Error ThreatSummary) (ok a) (ok b) → a ≡ b
ok-inj h = cc h

module _ {W : Type 0} (view : W → Db) (clock : W → Time) (p : Platform W) (fmt : Format)
    (codec : SummaryCodec) (s : ThreatService W) where
  -- The summary of a user who does not exist is an error, and the language model is not asked: what
  -- is left of the world is what the look-ups of the cache and the user leave.
  pub summarize_user-missing :
      (id : Uuid) (e : Error) (w : W)
      → cached_summary p fmt codec s (s.cache.get (summary_key p fmt codec s id) w).0 ≡ none
      → (s.users.find_by_id id (s.cache.get (summary_key p fmt codec s id) w).1).0 ≡ err e
      → summarize_user p fmt codec s id w
        ≡ (err e, (s.users.find_by_id id (s.cache.get (summary_key p fmt codec s id) w).1).1)
  unfolding summarize_user summarize_fresh
  summarize_user-missing id e w h k = rw (h, k) refl

  -- A failing language model, whatever its error, is the sentinel that is answered with 503, and
  -- nothing is put in the cache.
  pub summarize_rows-err :
      (id : Uuid) (user : User) (attempts : List LoginAttempt) (events : List AuditEvent)
      (e : LlmError) (w : W)
      → (s.llm.generate s.cfg.timeout (build_prompt fmt user attempts events) w).0 ≡ err e
      → summarize_rows p fmt codec s id user attempts events w ≡ (
        err (domain llm_unavailable),
        (s.llm.generate s.cfg.timeout (build_prompt fmt user attempts events) w).1,
      )
  unfolding summarize_rows
  summarize_rows-err id user attempts events e w h = rw h refl

  rows-ok :
      (id : Uuid) (user : User) (attempts : List LoginAttempt) (events : List AuditEvent)
      (summary : ThreatSummary) (w : W)
      → (summarize_rows p fmt codec s id user attempts events w).0 ≡ ok summary
      → (summary.user ≡ record { id = p.uuid_string user.id; email = user.email; role = user.role })
        × (summary.window ≡ record {
          login_attempts = length attempts;
          audit_events = length events;
          since = earliest attempts events;
        })
  unfolding summarize_rows
  rows-ok id user attempts events summary w h =
      elim (Result-cases
        (s.llm.generate s.cfg.timeout (build_prompt fmt user attempts events) w).0) [
          | inl (t, e) ↦
              let same = sym (ok-inj (rw e at h)) in
              (ap (λ (x : ThreatSummary). x.user) same, ap (λ (x : ThreatSummary). x.window) same)
          | inr (x, e) ↦ cc (rw e at h)
        ]

  -- A summary is about a stored user with the asked id, and counts the rows that it was made from.
  pub summarize_fresh-ok :
      (id : Uuid) (summary : ThreatSummary) (w : W)
      → IsUserRepository view clock s.users
      → (summarize_fresh p fmt codec s id w).0 ≡ ok summary
      → (u : User) × Has u (view w).users
        × (u.id ≡ id)
        × (summary.user ≡ record { id = p.uuid_string u.id; email = u.email; role = u.role })
  unfolding summarize_fresh
  summarize_fresh-ok id summary w b h =
      let rows = summarize_rows p fmt codec s id in
      let n = s.cfg.max_attempts in
      let m = s.cfg.max_events in
      let w1 = (s.users.find_by_id id w).1 in
      elim (Result-cases (s.users.find_by_id id w).0) [
        | inr (x, e) ↦ cc (rw e at h)
        | inl (u, e) ↦
            let (same, found) = b.find_by_id_ok id u w e in
            let h1 = rw e at h in
            let (attempts, _, h2, _) =
              >>=-eq-ok (s.attempts.list_recent_by_email u.email n)
                (λ xs. s.audits.list_recent_by_actor u.id m >>= λ ys. rows u xs ys) w1 h1 in
            let w2 = (s.attempts.list_recent_by_email u.email n w1).1 in
            let (events, _, h3, _) =
              >>=-eq-ok (s.audits.list_recent_by_actor u.id m) (λ ys. rows u attempts ys) w2 h2 in
            let w3 = (s.audits.list_recent_by_actor u.id m w2).1 in
            let (shown, _) = rows-ok id u attempts events summary w3 h3 in (u, found, same, shown)
      ]
