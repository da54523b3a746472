-- ===== src/ChangeRequests/Reviews.antt =====
-- change-request.service.ts: the operations keep one decision at most of each user, and none of the author.
use tftsp.Common.{
  ℕ, ◌≡◌, refl, sym, ◌∙◌, ap, Bool, false, some, ◌==◌, ◌&&◌, leb, arith, M, Bool-cases,
  Option-cases, inl, inr, Keeps, bind-Keeps, transaction-Keeps, transaction, return,
}
use tftsp.Domain.{
  ReviewDecision, approve, reject, request_changes, rejected, changes_requested, under_review,
  published, NotificationType, change_request_rejected, change_request_changes_requested,
}
use tftsp.Database.{Env, Db, record_audit}
use tftsp.ChangeRequests.Requests.{ChangeRequest, PublishOutcome, applied, in_conflict}
use tftsp.ChangeRequests.Publisher.{apply}
use tftsp.ChangeRequests.Store.{
  approvals_count, Store, on_db, find_request, update_request, notify, record_decision,
  upsert_review,
}
use tftsp.ChangeRequests.Service.{Ports, is_active_status, is_import}
use tftsp.ChangeRequests.Review.{
  notify_owner, decide_if_contribution, reject_batch, review, conclude, conclude_approval, publish,
  publish_change, publish_import, finalize_rejected, finalize_changes_requested, apply_and_mark,
  announce, announce_rejection, announce_import, after,
}
use tftsp.ChangeRequests.Calls.{
  IsApart, notify_owner-Keeps, decide_if_contribution-Keeps, announce-Keeps, announce_import-Keeps,
}
use tftsp.ChangeRequests.Reviewing.{with_decision}
use tftsp.ChangeRequests.Quorum.{IsReviewed, with_decision-IsReviewed}

-- what the imports module is to leave alone: decisions, and who made a request
pub record LeavesReviews (ports : Ports) : Type 0 where
  pub publishing : (id : ℕ) (cr : ChangeRequest) → Keeps IsReviewed (ports.publish_batch id cr)
  pub rejecting : (id : ℕ) (cr : ChangeRequest) → Keeps IsReviewed (ports.on_batch_rejected id cr)

update_request-Keeps :
    (id : ℕ) (f : ChangeRequest → ChangeRequest)
    → ((cr : ChangeRequest) → (f cr).created_by ≡ cr.created_by)
    → Keeps IsReviewed (update_request id f)
unfolding update_request
update_request-Keeps id f same s c = elim (Option-cases (s.requests.at id)) [
  | inl e ↦ rw (e, update_request) c
  | inr (cr, e) ↦
      rw (e, update_request)
        (record {
          once = c.once;
          other = λ i x h. elim (Bool-cases (id == i)) [
            | inl q ↦
                let new : f cr ≡ x = ground arith in
                let author : x.created_by ≡ cr.created_by =
                  sym (ap (λ y. y.created_by) new) ∙ same cr in
                let at_i : s.requests.at i ≡ some cr = ground (arith, q, e) in
                rw author (c.other i cr at_i)
            | inr q ↦ c.other i x (ground arith)
          ];
        })
]

on_db-Keeps : {A : Type 0} (m : M Db A) → Keeps IsReviewed (on_db m)
on_db-Keeps m s c = record { once = c.once; other = c.other }

notify-Keeps :
    (user : ℕ) (type : NotificationType) (id : ℕ) → Keeps IsReviewed (notify user type id)
unfolding notify
notify-Keeps user type id s c = record { once = c.once; other = c.other }

record_decision-Keeps :
    (user : ℕ) (verdict : Bool) → Keeps IsReviewed (record_decision user verdict)
unfolding record_decision
record_decision-Keeps user verdict s c = record { once = c.once; other = c.other }

reviews-IsApart : IsApart IsReviewed
reviews-IsApart = record {
  told = notify-Keeps;
  counted = record_decision-Keeps;
  audited = λ action id. on_db-Keeps (record_audit action id);
}

module _ (ports : Ports) (law : LeavesReviews ports) (env : Env) (id : ℕ) (cr : ChangeRequest) where
  reject_batch-Keeps : Keeps IsReviewed (reject_batch ports env id cr)
  reject_batch-Keeps s c = elim (Bool-cases (is_import cr.target_type && ports.has_importer)) [
    | inl e ↦ rw e (law.rejecting id cr s c)
    | inr e ↦ rw e c
  ]

  announce_rejection-Keeps : Keeps IsReviewed (announce_rejection ports env id cr)
  unfolding announce_rejection
  announce_rejection-Keeps =
      bind-Keeps IsReviewed (reject_batch ports env id cr) _ reject_batch-Keeps (λ _.
        bind-Keeps IsReviewed (decide_if_contribution ports env cr false) _
          (decide_if_contribution-Keeps IsReviewed reviews-IsApart ports env id cr false)
          (λ _.
            notify_owner-Keeps IsReviewed reviews-IsApart ports env id cr change_request_rejected))

  after-author :
      (o : PublishOutcome) (r : ChangeRequest) → (after ports env o r).created_by ≡ r.created_by
  after-author (applied t) r = refl
  after-author in_conflict r = refl

  apply_and_mark-Keeps : Keeps IsReviewed (apply_and_mark ports env id cr)
  unfolding apply_and_mark
  apply_and_mark-Keeps =
      bind-Keeps IsReviewed (on_db (apply env cr)) _ (on_db-Keeps (apply env cr)) (λ o.
        bind-Keeps IsReviewed (update_request id (after ports env o)) _
          (update_request-Keeps id (after ports env o) (after-author o)) (λ r s c. c))

  publish_change-Keeps : Keeps IsReviewed (publish_change ports env id cr)
  unfolding publish_change
  publish_change-Keeps =
      bind-Keeps IsReviewed (transaction (apply_and_mark ports env id cr)) _
        (transaction-Keeps IsReviewed (apply_and_mark ports env id cr) apply_and_mark-Keeps)
        (λ both.
          bind-Keeps IsReviewed (announce ports env id cr both.0) _
            (announce-Keeps IsReviewed reviews-IsApart ports env id cr both.0) (λ _ s c. c))

  publish_import-Keeps : Keeps IsReviewed (publish_import ports env id cr)
  unfolding publish_import
  publish_import-Keeps =
      bind-Keeps IsReviewed (ports.publish_batch id cr) _ (law.publishing id cr) (λ _.
        bind-Keeps IsReviewed
          (update_request id (λ r. record r { status = published; published_at = some env.now })) _
          (update_request-Keeps id _ (λ r. refl))
          (λ r.
            bind-Keeps IsReviewed (announce_import ports env id cr) (λ _. return r)
              (announce_import-Keeps IsReviewed reviews-IsApart ports env id cr) (λ _ s c. c)))

  publish-Keeps : Keeps IsReviewed (publish ports env id cr)
  unfolding publish
  publish-Keeps s c = elim (Bool-cases (is_import cr.target_type && ports.has_importer)) [
    | inl e ↦ rw (e, publish) (publish_import-Keeps s c)
    | inr e ↦ rw (e, publish) (publish_change-Keeps s c)
  ]

  conclude_approval-Keeps : Keeps IsReviewed (conclude_approval ports env id cr)
  unfolding conclude_approval
  conclude_approval-Keeps s c =
      elim (Bool-cases (leb s.settings.approvals_required (approvals_count id s))) [
        | inl e ↦ rw e (publish-Keeps s c)
        | inr e ↦
            rw e (update_request-Keeps id (λ r. record r { status = under_review }) (λ r. refl) s c)
      ]

  conclude-Keeps : (d : ReviewDecision) → Keeps IsReviewed (conclude ports env d id cr)
  unfolding conclude finalize_rejected finalize_changes_requested
  conclude-Keeps reject =
      bind-Keeps IsReviewed (update_request id (λ r. record r { status = rejected })) _
        (update_request-Keeps id _ (λ r. refl))
        (λ r.
          bind-Keeps IsReviewed (announce_rejection ports env id cr) _ announce_rejection-Keeps
            (λ _ s c. c))
  conclude-Keeps request_changes =
      bind-Keeps IsReviewed (update_request id (λ r. record r { status = changes_requested })) _
        (update_request-Keeps id _ (λ r. refl))
        (λ r.
          bind-Keeps IsReviewed (notify_owner ports env id cr change_request_changes_requested)
            (λ _. return r)
            (notify_owner-Keeps IsReviewed reviews-IsApart ports env id cr
              change_request_changes_requested)
            (λ _ s c. c))
  conclude-Keeps approve = conclude_approval-Keeps

-- Where every user has one decision at most on a request and none on an own one: so it is after a review,
-- whatever it answers, if the imports module leaves decisions and authors alone.
pub review-IsReviewed :
    (ports : Ports) (env : Env) (id : ℕ) (d : ReviewDecision) (user : ℕ) (s : Store)
    → LeavesReviews ports
    → IsReviewed s
    → IsReviewed (review ports env id d user s).1
unfolding review find_request upsert_review
review-IsReviewed ports env id d user s law c = elim (Option-cases (s.requests.at id)) [
  | inl e ↦ rw (e, review, find_request) c
  | inr (cr, e) ↦ elim (Bool-cases (is_active_status cr.status)) [
    | inr a ↦ rw (e, review, find_request, a) c
    | inl a ↦ elim (Bool-cases (cr.created_by == user)) [
      | inl o ↦ rw (e, review, find_request, a, o) c
      | inr o ↦
          rw (e, review, find_request, a, o)
            (conclude-Keeps ports law env id cr d (with_decision id d user s)
              (with_decision-IsReviewed id d user s cr e o c))
    ]
  ]
]
