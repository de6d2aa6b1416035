-- ===== src/Threat/Summary.antt =====
-- What SummarizeUser of internal/service/threat_service.go makes a fresh summary from.
use backend_infra_assessment.Base.{
  ℕ, String, Option, none, some, List, [], ok, ◌≡◌, ◌≤◌, ◌<◌, inl, inr, Result-cases, Option-cases,
  Has, All, refl, subst, ◌∙◌, length, ◌>>=◌, >>=-eq-ok, NewestFirst, keep, str_eq, arith,
}
use backend_infra_assessment.Domain.{Uuid, Time, User, LoginAttempt, AuditEvent}
use backend_infra_assessment.Database.{Platform}
use backend_infra_assessment.Database.Contract.{Db, Newest}
use backend_infra_assessment.Repository.Contract.{
  IsUserRepository, IsAttemptRepository, IsAuditRepository,
}
use backend_infra_assessment.Repository.{is_actor}
use backend_infra_assessment.Threat.{
  ThreatService, ThreatSummary, SummaryCodec, summarize_fresh, summarize_rows, summary_of,
}
use backend_infra_assessment.Threat.Errors.{ok-inj}
use backend_infra_assessment.Threat.Prompt.{Format, build_prompt}
use backend_infra_assessment.Threat.Window.{earliest, earliest-le, last-none, last, consider}

-- What the window says of the rows: a time before them all, or that there are none.
abbrev pub Since : Option Time → List LoginAttempt → List AuditEvent → Type 0
Since none attempts events = (attempts ≡ []) × (events ≡ [])
Since (some t) attempts events =
    All (λ a. t ≤ a.created_at) attempts × All (λ e. t ≤ e.created_at) events

earliest-none :
    (attempts : List LoginAttempt) (events : List AuditEvent)
    → earliest attempts events ≡ none
    → (attempts ≡ []) × (events ≡ [])
unfolding earliest
earliest-none attempts events h = elim (Option-cases (last attempts)) [
  | inl f ↦ elim (Option-cases (last events)) [
    | inl g ↦ (last-none attempts f, last-none events g)
    | inr (e, g) ↦ cc (rw (f, g) at h)
  ]
  | inr (a, f) ↦ elim (Option-cases (last events)) [
    | inl g ↦ cc (rw (f, g) at h)
    | inr (e, g) ↦ elim (Option-cases (consider (some a.created_at) e.created_at)) [
      | inl k ↦ ground (arith, k)
      | inr (t, k) ↦ cc (k, rw (f, g) at h)
    ]
  ]
]

earliest-Since :
    (attempts : List LoginAttempt) (events : List AuditEvent)
    → NewestFirst (λ a. a.created_at) attempts
    → NewestFirst (λ e. e.created_at) events
    → Since (earliest attempts events) attempts events
earliest-Since attempts events h k = elim (Option-cases (earliest attempts events)) [
  | inl e ↦ rw e (earliest-none attempts events e)
  | inr (t, e) ↦ rw e (earliest-le attempts events t h k e)
]

-- The newest of all stored attempts for a user's address and of all events of the user, up to two
-- limits.
pub record IsActivity (d : Db) (u : User) (most_attempts most_events : ℕ)
    (attempts : List LoginAttempt) (events : List AuditEvent) : Type 0 where
  pub attempts_newest : NewestFirst (λ a. a.created_at) attempts
  pub attempts_own : All (λ a. (a.email ≡ u.email) × Has a d.attempts) attempts
  pub attempts_few : length attempts ≤ most_attempts
  pub attempts_all :
      Newest
        (λ a. a.created_at)
        (some most_attempts)
        (keep (λ a. str_eq a.email u.email) d.attempts)
        attempts
  pub events_newest : NewestFirst (λ e. e.created_at) events
  pub events_own : All (λ e. (e.actor_id ≡ some u.id) × Has e d.audits) events
  pub events_few : length events ≤ most_events
  pub events_all :
      Newest
        (λ e. e.created_at)
        (some most_events)
        (keep (λ e. is_actor u.id e.actor_id) d.audits)
        events

module _ {W : Type 0} (view : W → Db) (clock : W → Time) (p : Platform W) (fmt : Format)
    (codec : SummaryCodec) (s : ThreatService W) where
  -- A summary says what the model answered to the prompt of its rows.
  abbrev pub Reports : User → List LoginAttempt → List AuditEvent → ThreatSummary → Type 0
  Reports u attempts events summary =
      (summary.user ≡ record { id = p.uuid_string u.id; email = u.email; role = u.role })
      × (summary.window.login_attempts ≡ length attempts)
      × (summary.window.audit_events ≡ length events)
      × Since summary.window.since attempts events
      × ((text : String) × (w : W) × ((s.llm.generate s.cfg.timeout
              (build_prompt fmt u attempts events) w).0
            ≡ ok text)
          × (summary.assessment ≡ fmt.trim_space text))

  reported :
      (id : Uuid) (u : User) (attempts : List LoginAttempt) (events : List AuditEvent)
      (summary : ThreatSummary) (w : W)
      → NewestFirst (λ a. a.created_at) attempts
      → NewestFirst (λ e. e.created_at) events
      → (summarize_rows p fmt codec s id u attempts events w).0 ≡ ok summary
      → Reports u attempts events summary
  unfolding summarize_rows
  reported id u attempts events summary w m n h =
      let prompt = build_prompt fmt u attempts events in
      elim (Result-cases (s.llm.generate s.cfg.timeout prompt w).0) [
        | inr (x, e) ↦ cc (rw e at h)
        | inl (text, e) ↦
            let w' = (s.llm.generate s.cfg.timeout prompt w).1 in
            let same : summary_of p fmt codec s u attempts events text (p.time_now w').0 ≡ summary =
              ok-inj (rw e at h) in
            subst (Reports u attempts events) same
              (refl, refl, refl, earliest-Since attempts events m n, (text, w, e, refl))
      ]

  -- Where both limits are positive, a fresh summary is about a stored user with the asked id. It counts
  -- the newest of all stored attempts for the address and of all events of the user, as many as there
  -- are up to the limits, dates them from a time before them all, and says what the model answered to
  -- the prompt made from them.
  pub summarize_fresh-Reports :
      (id : Uuid) (summary : ThreatSummary) (w : W)
      → IsUserRepository view clock s.users
      → IsAttemptRepository view clock s.attempts
      → IsAuditRepository view clock s.audits
      → 0 < s.cfg.max_attempts
      → 0 < s.cfg.max_events
      → (summarize_fresh p fmt codec s id w).0 ≡ ok summary
      → (u : User) × (attempts : List LoginAttempt) × (events : List AuditEvent) × Has u
          (view w).users
        × (u.id ≡ id)
        × IsActivity (view w) u s.cfg.max_attempts s.cfg.max_events attempts events
        × Reports u attempts events summary
  unfolding summarize_fresh
  summarize_fresh-Reports id summary w bu ba be la le h =
      let rows = summarize_rows p fmt codec s id in
      let n = s.cfg.max_attempts in
      let m = s.cfg.max_events in
      let (u, e, h1, _) =
        >>=-eq-ok (s.users.find_by_id id)
          (λ u. s.attempts.list_recent_by_email u.email n >>= λ xs.
            s.audits.list_recent_by_actor u.id m >>= λ ys. rows u xs ys)
          w h in
      let w1 = (s.users.find_by_id id w).1 in
      let (same, stored) = bu.find_by_id_ok id u w e in
      let (attempts, f, h2, _) =
        >>=-eq-ok (s.attempts.list_recent_by_email u.email n)
          (λ xs. s.audits.list_recent_by_actor u.id m >>= λ ys. rows u xs ys) w1 h1 in
      let w2 = (s.attempts.list_recent_by_email u.email n w1).1 in
      let (events, g, h3, _) =
        >>=-eq-ok (s.audits.list_recent_by_actor u.id m) (λ ys. rows u attempts ys) w2 h2 in
      let w3 = (s.audits.list_recent_by_actor u.id m w2).1 in
      let v1 = bu.find_by_id_view id w in
      let v2 = ba.list_view u.email n w1 ∙ v1 in
      let (newest, own, few, all) = ba.list_ok u.email n attempts w1 f in
      let (newest', own', few', all') = be.list_ok u.id m events w2 g in
      (
        u,
        attempts,
        events,
        stored,
        same,
        record {
          attempts_newest = newest;
          attempts_own =
              subst (λ d. All (λ a. (a.email ≡ u.email) × Has a d.attempts) attempts) v1 own;
          attempts_few = few la;
          attempts_all =
              subst
                (λ d.
                  Newest (λ a. a.created_at) (some n)
                    (keep (λ a. str_eq a.email u.email) d.attempts) attempts)
                v1 all;
          events_newest = newest';
          events_own =
              subst (λ d. All (λ e. (e.actor_id ≡ some u.id) × Has e d.audits) events) v2 own';
          events_few = few' le;
          events_all =
              subst
                (λ d.
                  Newest (λ e. e.created_at) (some m)
                    (keep (λ e. is_actor u.id e.actor_id) d.audits) events)
                v2 all';
        },
        reported id u attempts events summary w3 newest newest' h3,
      )
