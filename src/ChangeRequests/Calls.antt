-- ===== src/ChangeRequests/Calls.antt =====
-- change-request.service.ts: what the calls after a commit leave alone, also where one of them throws.
use tftsp.Common.{ℕ, Bool, M, Keeps, bind-Keeps, Option-cases, inl, inr}
use tftsp.Domain.{
  NotificationType, change_request_approved, change_request_published, change_request_conflict,
}
use tftsp.Database.{Env, AuditAction, cr_published, cr_conflict}
use tftsp.ChangeRequests.Requests.{ChangeRequest, PublishOutcome, applied, in_conflict}
use tftsp.ChangeRequests.Store.{Store, notify, record_decision, record_store_audit}
use tftsp.ChangeRequests.Service.{Ports}
use tftsp.ChangeRequests.Review.{
  called, notify_owner, decide_if_contribution, announce, announce_import,
}

-- a property of the store that notifications, reputations and audit entries have no part in
pub record IsApart (P : Store → Type 0) : Type 0 where
  pub told : (user : ℕ) (type : NotificationType) (id : ℕ) → Keeps P (notify user type id)
  pub counted : (user : ℕ) (verdict : Bool) → Keeps P (record_decision user verdict)
  pub audited : (action : AuditAction) (id : ℕ) → Keeps P (record_store_audit action id)

module _ (P : Store → Type 0) (apart : IsApart P) (ports : Ports) (env : Env) (id : ℕ)
    (cr : ChangeRequest) where
  called-Keeps : (m : M Store (Unit {0})) → Keeps P m → Keeps P (called ports env m)
  called-Keeps m keeps s c = elim (Option-cases (ports.refuses s)) [
    | inl e ↦ rw (e, called) (keeps s c)
    | inr (x, e) ↦ rw (e, called) c
  ]

  pub notify_owner-Keeps : (type : NotificationType) → Keeps P (notify_owner ports env id cr type)
  notify_owner-Keeps type =
      called-Keeps (notify cr.created_by type id) (apart.told cr.created_by type id)

  pub decide_if_contribution-Keeps :
      (verdict : Bool) → Keeps P (decide_if_contribution ports env cr verdict)
  decide_if_contribution-Keeps verdict s c = elim (Option-cases cr.contribution_type) [
    | inl e ↦ rw e c
    | inr (t, e) ↦ rw e (
        called-Keeps (record_decision cr.created_by verdict) (apart.counted cr.created_by verdict) s
          c)
  ]

  audit-Keeps : (action : AuditAction) → Keeps P (called ports env (record_store_audit action id))
  audit-Keeps action = called-Keeps (record_store_audit action id) (apart.audited action id)

  pub announce-Keeps : (o : PublishOutcome) → Keeps P (announce ports env id cr o)
  unfolding announce
  announce-Keeps (applied t) =
      bind-Keeps P (notify_owner ports env id cr change_request_approved) _
        (notify_owner-Keeps change_request_approved)
        (λ _.
          bind-Keeps P (notify_owner ports env id cr change_request_published) _
            (notify_owner-Keeps change_request_published)
            (λ _.
              bind-Keeps P (decide_if_contribution ports env cr Bool.true) _
                (decide_if_contribution-Keeps Bool.true) (λ _. audit-Keeps cr_published)))
  announce-Keeps in_conflict =
      bind-Keeps P (notify_owner ports env id cr change_request_conflict) _
        (notify_owner-Keeps change_request_conflict) (λ _. audit-Keeps cr_conflict)

  pub announce_import-Keeps : Keeps P (announce_import ports env id cr)
  unfolding announce_import
  announce_import-Keeps =
      bind-Keeps P (notify_owner ports env id cr change_request_approved) _
        (notify_owner-Keeps change_request_approved)
        (λ _.
          bind-Keeps P (notify_owner ports env id cr change_request_published) _
            (notify_owner-Keeps change_request_published) (λ _. audit-Keeps cr_published))
