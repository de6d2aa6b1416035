-- ===== src/Repository/Correct/Audits.antt =====
-- The audit events.
use backend_infra_assessment.Base.{
  some, none, true, Option, All-imp, ==_iff, ap, ◌≤◌, ◌≡◌, ◌∷◌, ok, is_ok, false, arith,
}
use backend_infra_assessment.Domain.{Time, Uuid, AuditEvent}
use backend_infra_assessment.Database.{Gorm, Platform}
use backend_infra_assessment.Database.Contract.{Db, audits_table, IsGorm, IsPlatform}
use backend_infra_assessment.Repository.{audit_event_repository, new_id, create_audit, is_actor}
use backend_infra_assessment.Repository.Contract.{IsAuditRepository}
use backend_infra_assessment.Repository.Correct.Ids.{new_id_lem}

is_actor_lem : (actor : Uuid) (who : Option Uuid) → is_actor actor who ≡ true → who ≡ some actor
is_actor_lem actor none h = cc h
is_actor_lem actor (some a) h = ap some (ground (arith, h, ==_iff a actor))

module _ {W : Type 0} (view : W → Db) (clock : W → Time) (p : Platform W)
    (ip : IsPlatform view clock p) (g : Gorm W AuditEvent)
    (ig : IsGorm view clock audits_table g) where
  create_audit_ok :
      (e e' : AuditEvent) (w : W)
      → (create_audit p g e w).0 ≡ ok e'
      → (view (create_audit p g e w).1 ≡ record (view w) { audits = e' ∷ (view w).audits })
        × (e' ≡ record e { id = e'.id; created_at = e'.created_at })
        × (e.created_at ≡ 0 → clock w ≤ e'.created_at)
  unfolding create_audit
  create_audit_ok e e' w h =
      let (n, ok_n, same, later) = new_id_lem view clock p ip e.id w in
      let w' = (new_id p e.id w).1 in
      let (stored, filled, fresh) =
        ig.create_ok (record e { id = n }) e' w' (ground (arith, ok_n)) in
      (ground (arith, ok_n), ground arith, λ z. ground arith)

  create_audit_err :
      (e : AuditEvent) (w : W)
      → is_ok (create_audit p g e w).0 ≡ false
      → view (create_audit p g e w).1 ≡ view w
  unfolding create_audit
  create_audit_err e w h =
      let (n, ok_n, same, later) = new_id_lem view clock p ip e.id w in
      ground (arith, ok_n, same, ig.create_err (record e { id = n }) (new_id p e.id w).1)

  -- The repository of audit events over a Gorm that behaves as documented.
  pub audit_event_repository-IsAuditRepository :
      IsAuditRepository view clock (audit_event_repository p g)
  unfolding audit_event_repository
  audit_event_repository-IsAuditRepository = record {
    create_ok = create_audit_ok;
    create_err = create_audit_err;
    list_ok = λ actor limit rows w h.
        let (order, found, within, newest) =
          ig.find_ok (λ e. is_actor actor e.actor_id) (some limit) rows w (ground arith) in
        (
          order,
          All-imp _ _ rows (λ e k. (is_actor_lem actor e.actor_id k.0, k.1)) found,
          within,
          newest,
        );
    list_view = λ actor limit w. ig.find_view _ _ w;
  }
