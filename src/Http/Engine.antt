-- ===== src/Http/Engine.antt =====
-- internal/middleware/recovery.go, and the middleware that internal/router/router.go puts before
-- every route: Recovery, RequestLogger, Audit.
use backend_infra_assessment.Base.{
  ◌≡◌, ◌≤◌, ◌⊎◌, inl, inr, refl, sym, ◌∙◌, subst, String, true, false, Option, none, some, ◌∷◌,
  append, is_ok, Result-cases, arith, str_eq_iff,
}
use backend_infra_assessment.Domain.{Time, AuditEvent, AuditEventRepository}
use backend_infra_assessment.Database.{Platform}
use backend_infra_assessment.Database.Contract.{Db, IsPlatform}
use backend_infra_assessment.Repository.Contract.{IsAuditRepository}
use backend_infra_assessment.Http.{Refusal, refusal}
use backend_infra_assessment.Http.Audit.{
  Request, Response, Next, should_record, build_audit_event, record_event, audit, actor_of,
  current_role, recorded_path,
}
use backend_infra_assessment.Http.RequestLog.{Logger, request_id_for, request_logger, LogEntry}

-- The answer that Recovery gives in place of a response that did not come about.
abbrev pub Answered : Type 0
Answered = Response ⊎ Refusal

-- `if r := recover(); r != nil { ... }`
abbrev recovered : {W : Type 0} → Logger W → Request → Option Response × W → Answered × W
recovered log c (some r, w) = (inl r, w)
recovered log c (none, w) =
    (inr (refusal 500 "INTERNAL" "internal server error"), log.panic_recovered c w)

module _ {W : Type 0} (p : Platform W) (log : Logger W) (repo : AuditEventRepository W) where
  unfoldable pub engine : Request → Next W → W → Answered × W
  unfolding request_logger audit
  engine c next w =
      recovered log c (request_logger p log c (λ request_id. audit repo c request_id next) w)

  -- The world in which the route's own chain begins.
  unfoldable pub entered : Request → W → W
  unfolding request_id_for
  entered c w = (p.time_now (request_id_for p log c.request_id w).1).1

-- Logging does not touch the database.
pub record IsLogger {W : Type 0} (view : W → Db) (log : Logger W) : Type 0 where
  pub request_view : (e : LogEntry) (w : W) → view (log.http_request e w) ≡ view w
  pub panic_view : (c : Request) (w : W) → view (log.panic_recovered c w) ≡ view w

-- An event that says what was asked, by whom, from where, and how it was answered.
abbrev pub Describes : Request → String → Response → AuditEvent → Type 0
Describes c request_id r e =
    (e.actor_id ≡ actor_of r.identity)
    × (e.actor_role ≡ current_role r.identity)
    × (e.action ≡ append c.method (append " " (recorded_path c)))
    × (e.method ≡ c.method)
    × (e.path ≡ recorded_path c)
    × (e.status_code ≡ r.status)
    × (e.ip_address ≡ c.client_ip)
    × (e.user_agent ≡ c.user_agent)
    × (e.request_id ≡ request_id)

should_record-other :
    (c : Request)
    → ¬ (c.full_path ≡ "/livez")
    → ¬ (c.full_path ≡ "/readyz")
    → ¬ (c.full_path ≡ "/swagger/*any")
    → should_record c ≡ true
unfolding should_record
should_record-other c h k m = ground (
  arith,
  str_eq_iff c.full_path "/livez",
  str_eq_iff c.full_path "/readyz",
  str_eq_iff c.full_path "/swagger/*any",
)

module _ {W : Type 0} (view : W → Db) (clock : W → Time) (p : Platform W) (log : Logger W)
    (repo : AuditEventRepository W) where
  -- The id that the request goes by.
  abbrev pub id_of : Request → W → String
  id_of c w = (request_id_for p log c.request_id w).0

  -- What the chain of a recorded request leaves: one new event that describes it, or no event where
  -- the insert failed.
  abbrev pub Audited : Request → String → Response → W → W → Type 0
  Audited c request_id r w w' =
      ((e : AuditEvent) × (view w' ≡ record (view w) { audits = e ∷ (view w).audits })
        × Describes c request_id r e
        × (clock w ≤ e.created_at))
      ⊎ ((is_ok (repo.create (build_audit_event c request_id r) w).0 ≡ false) × (view w' ≡ view w))

  record_event_lem :
      (c : Request) (request_id : String) (r : Response) (w : W)
      → IsAuditRepository view clock repo
      → should_record c ≡ true
      → Audited c request_id r w (record_event repo c request_id r w)
  unfolding record_event
  record_event_lem c request_id r w b h =
      let event = build_audit_event c request_id r in
      elim (Result-cases (repo.create event w).0) [
        | inl (e, f) ↦
            let (stored, filled, later) = b.create_ok event e w f in
            rw h (
              inl (
                e,
                stored,
                subst (Describes c request_id r) (sym filled)
                    (refl, refl, refl, refl, refl, refl, refl, refl, refl),
                later refl,
              ))
        | inr (x, f) ↦ rw h (inr (rw f refl, b.create_err event w (rw f refl)))
      ]

  -- A request to any route but the two probes and the documents that the rest of the chain answers
  -- gets that answer, and leaves one new audit event that describes it, stamped no earlier than the
  -- answer, and nothing else beyond what the rest of the chain has done; or the insert has failed, and
  -- there is no event.
  pub engine-audits :
      (c : Request) (next : Next W) (r : Response) (w : W)
      → IsPlatform view clock p
      → IsLogger view log
      → IsAuditRepository view clock repo
      → ¬ (c.full_path ≡ "/livez")
      → ¬ (c.full_path ≡ "/readyz")
      → ¬ (c.full_path ≡ "/swagger/*any")
      → (next (entered p log repo c w)).0 ≡ some r
      → ((engine p log repo c next w).0 ≡ inl r)
        × Audited c (id_of c w) r (next (entered p log repo c w)).1 (engine p log repo c next w).1
  unfolding engine entered
  engine-audits c next r w ip il b h k m e =
      let w1 = (next (entered p log repo c w)).1 in
      let w2 = record_event repo c (id_of c w) r w1 in
      let w3 = (p.time_now w2).1 in
      let done = record_event_lem c (id_of c w) r w1 b (should_record-other c h k m) in
      let quiet : view (engine p log repo c next w).1 ≡ view w2 =
        rw e (il.request_view _ w3 ∙ ip.time_view w2) in
      (
        rw e refl,
        elim done [
          | inl (event, stored, described, later) ↦ inl (event, quiet ∙ stored, described, later)
          | inr (failed, same) ↦ inr (failed, quiet ∙ same)
        ],
      )
