-- ===== src/ChangeRequests/Review.antt =====
-- change-request.service.ts `review` and what follows a decision: rejection, a request for changes,
-- publication.
use tftsp.Common.{
  ℕ, Bool, true, false, none, some, ◌&&◌, ◌==◌, not, if◌then◌else◌, leb, M, ◌>>=◌, ◌>>◌, return,
  get, fail, throw_if, transaction, bad_request, forbidden, cr_invalid_state, cr_cannot_review_own,
}
use tftsp.Domain.{
  under_review, rejected, changes_requested, published, conflicted, ReviewDecision, approve, reject,
  request_changes, NotificationType, change_request_approved, change_request_published,
  change_request_rejected, change_request_changes_requested, change_request_conflict,
}
use tftsp.Database.{Env, cr_review, cr_published, cr_conflict}
use tftsp.ChangeRequests.Requests.{ChangeRequest, PublishOutcome, applied, in_conflict}
use tftsp.ChangeRequests.Publisher.{apply}
use tftsp.ChangeRequests.Store.{
  Store, on_db, record_store_audit, find_request, update_request, upsert_review, approvals_count,
  notify, record_decision,
}
use tftsp.ChangeRequests.Service.{Ports, is_active_status, is_import}

module _ (ports : Ports) (env : Env) where
  -- a call after the outcome is stored, which may throw
  abbrev pub called : M Store (Unit {0}) → M Store (Unit {0})
  called m s = elim (ports.refuses s) [ none ↦ m s | some e ↦ (fail e, s) ]

  -- `notifyOwner`
  abbrev pub notify_owner : ℕ → ChangeRequest → NotificationType → M Store (Unit {0})
  notify_owner id cr type = called (notify cr.created_by type id)

  abbrev pub decide_if_contribution : ChangeRequest → Bool → M Store (Unit {0})
  decide_if_contribution cr verdict = elim cr.contribution_type [
    | none ↦ return tt
    | some t ↦ called (record_decision cr.created_by verdict)
  ]

  abbrev pub reject_batch : ℕ → ChangeRequest → M Store (Unit {0})
  reject_batch id cr =
      if is_import cr.target_type && ports.has_importer
      then ports.on_batch_rejected id cr
      else return tt

  unfoldable pub announce_rejection : ℕ → ChangeRequest → M Store (Unit {0})
  unfolding record_decision notify
  announce_rejection id cr = do
    reject_batch id cr
    decide_if_contribution cr false
    notify_owner id cr change_request_rejected

  -- `finalizeNonApprove` with `rejected`
  unfoldable pub finalize_rejected : ℕ → ChangeRequest → M Store ChangeRequest
  unfolding update_request announce_rejection
  finalize_rejected id cr = do
    updated ← update_request id (λ r. record r { status = rejected })
    announce_rejection id cr
    return updated

  -- `finalizeNonApprove` with `changes_requested`
  unfoldable pub finalize_changes_requested : ℕ → ChangeRequest → M Store ChangeRequest
  unfolding update_request notify
  finalize_changes_requested id cr = do
    updated ← update_request id (λ r. record r { status = changes_requested })
    notify_owner id cr change_request_changes_requested
    return updated

  -- the row after the publisher
  abbrev pub after : PublishOutcome → ChangeRequest → ChangeRequest
  after (applied target) r = record r {
    status = published;
    published_at = some env.now;
    target_id = target;
  }
  after in_conflict r = record r { status = conflicted }

  -- the transaction of `publish`
  unfoldable pub apply_and_mark : ℕ → ChangeRequest → M Store (PublishOutcome × ChangeRequest)
  unfolding apply update_request
  apply_and_mark id cr = do
    outcome ← on_db (apply env cr)
    updated ← update_request id (after outcome)
    return (outcome, updated)

  -- what follows the transaction
  unfoldable pub announce : ℕ → ChangeRequest → PublishOutcome → M Store (Unit {0})
  unfolding notify record_decision
  announce id cr (applied target) = do
    notify_owner id cr change_request_approved
    notify_owner id cr change_request_published
    decide_if_contribution cr true
    called (record_store_audit cr_published id)
  announce id cr in_conflict = do
    notify_owner id cr change_request_conflict
    called (record_store_audit cr_conflict id)

  unfoldable pub announce_import : ℕ → ChangeRequest → M Store (Unit {0})
  unfolding notify
  announce_import id cr = do
    notify_owner id cr change_request_approved
    notify_owner id cr change_request_published
    called (record_store_audit cr_published id)

  unfoldable pub publish_import : ℕ → ChangeRequest → M Store ChangeRequest
  unfolding update_request announce_import
  publish_import id cr = do
    ports.publish_batch id cr
    updated ← update_request id (λ r. record r { status = published; published_at = some env.now })
    announce_import id cr
    return updated

  unfoldable pub publish_change : ℕ → ChangeRequest → M Store ChangeRequest
  unfolding apply_and_mark announce
  publish_change id cr = do
    (outcome, updated) ← transaction (apply_and_mark id cr)
    announce id cr outcome
    return updated

  -- `publish`
  unfoldable pub publish : ℕ → ChangeRequest → M Store ChangeRequest
  unfolding publish_import publish_change
  publish id cr =
      if is_import cr.target_type && ports.has_importer
      then publish_import id cr
      else publish_change id cr

  unfoldable pub conclude_approval : ℕ → ChangeRequest → M Store ChangeRequest
  unfolding approvals_count publish update_request
  conclude_approval id cr = do
    s ← get
    if leb s.settings.approvals_required (approvals_count id s)
        then publish id cr
        else update_request id (λ r. record r { status = under_review })

  unfoldable pub conclude : ReviewDecision → ℕ → ChangeRequest → M Store ChangeRequest
  unfolding finalize_rejected finalize_changes_requested conclude_approval
  conclude reject id cr = finalize_rejected id cr
  conclude request_changes id cr = finalize_changes_requested id cr
  conclude approve id cr = conclude_approval id cr

  -- `review`
  unfoldable pub review : ℕ → ReviewDecision → ℕ → M Store ChangeRequest
  unfolding find_request upsert_review conclude
  review id decision user = do
    cr ← find_request id
    throw_if (not (is_active_status cr.status)) (bad_request cr_invalid_state)
    throw_if (cr.created_by == user) (forbidden cr_cannot_review_own)
    upsert_review id user decision
    record_store_audit cr_review id
    conclude decision id cr
