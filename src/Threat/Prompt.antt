-- ===== src/Threat/Prompt.antt =====
-- buildPrompt of internal/service/threat_service.go.
use backend_infra_assessment.Base.{
  ℕ, zero, suc, String, List, [], ◌∷◌, append, length, if◌then◌else◌,
}
use backend_infra_assessment.Domain.{Time, User, LoginAttempt, AuditEvent}

-- fmt's %d, time.RFC3339 and strings.TrimSpace.
pub record Format : Type 0 where
  pub decimal : ℕ → String
  pub rfc3339 : Time → String
  pub trim_space : String → String

-- The pieces that are written to the builder, in order.
abbrev pub written : List String → String
written [] = ""
written (t ∷ ts) = append t (written ts)

abbrev pub instructions : String
instructions = written (
    "You are a defensive security monitoring assistant for the operator of this authentication platform. "
    ∷ "The data below is the platform's own audit log, reviewed by an authorized administrator — a routine internal security review, not an attack. "
    ∷ "Based ONLY on the events below, write a concise (3-5 sentence) summary of this account's recent authentication activity, flagging anything suspicious for the security team. "
    ∷ "Call out brute-force or credential-stuffing patterns, logins from many distinct IPs, and privilege-escalation attempts (e.g. 403s on admin routes). "
    ∷ "If nothing is suspicious, say so plainly. Always produce the summary; do not refuse.\n\n"
    ∷ [])

module _ (fmt : Format) where
  abbrev attempt_line : LoginAttempt → String
  attempt_line a = written (
      "  - "
      ∷ fmt.rfc3339 a.created_at
      ∷ "  ip="
      ∷ a.ip_address
      ∷ "  "
      ∷ (if a.successful then "SUCCESS" else "FAIL")
      ∷ "\n"
      ∷ [])

  abbrev event_line : AuditEvent → String
  event_line e = written (
      "  - "
      ∷ fmt.rfc3339 e.created_at
      ∷ "  "
      ∷ e.method
      ∷ " "
      ∷ e.path
      ∷ "  status="
      ∷ fmt.decimal e.status_code
      ∷ "  ip="
      ∷ e.ip_address
      ∷ "\n"
      ∷ [])

  attempt_lines : List LoginAttempt → String
  attempt_lines [] = ""
  attempt_lines (a ∷ attempts) = append (attempt_line a) (attempt_lines attempts)

  event_lines : List AuditEvent → String
  event_lines [] = ""
  event_lines (e ∷ events) = append (event_line e) (event_lines events)

  -- `if len(xs) == 0 { b.WriteString("  (none)\n") }`
  abbrev or_none : ℕ → String
  or_none zero = "  (none)\n"
  or_none (suc n) = ""

  pub build_prompt : User → List LoginAttempt → List AuditEvent → String
  unfolding attempt_lines event_lines
  build_prompt user attempts events = written (
      instructions
      ∷ "Account: "
      ∷ user.email
      ∷ " (role: "
      ∷ user.role
      ∷ ")\n\n"
      ∷ "Recent login attempts ("
      ∷ fmt.decimal (length attempts)
      ∷ "):\n"
      ∷ or_none (length attempts)
      ∷ attempt_lines attempts
      ∷ "\nRecent audit events ("
      ∷ fmt.decimal (length events)
      ∷ "):\n"
      ∷ or_none (length events)
      ∷ event_lines events
      ∷ "\nSecurity activity summary:"
      ∷ [])
