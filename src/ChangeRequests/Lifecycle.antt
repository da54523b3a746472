-- ===== src/ChangeRequests/Lifecycle.antt =====
-- The states of a request (docs/dev-reference/06-state-machines.md) as a step relation, and the
-- operations of the service as its steps.
use tftsp.Common.{
  filter, List, [], ◌∷◌, ap, finish-ok, subst, Option-cases, inl, inr, ℕ, ◌≡◌, refl, true, some,
  ◌==◌, not, arith, ok, bind-ok, throw_if-ok, set_row, throw_if, bad_request, forbidden,
  cr_invalid_state, cr_not_owner, ◌∙◌, sym,
}
use tftsp.Domain.{
  NotificationType, change_request_submitted, ChangeRequestStatus, draft, submitted, under_review,
  approved, rejected, changes_requested, published, conflicted, expired, ReviewDecision, approve,
  reject, request_changes,
}
use tftsp.Database.{cr_submit, Env}
use tftsp.ChangeRequests.Requests.{ChangeRequest}
use tftsp.ChangeRequests.Store.{
  distinct, reviewer_ids, record_store_audit, notify, notify_each, notify_many, Store, find_request,
  update_request, is_pending,
}
use tftsp.ChangeRequests.Service.{
  Ports, is_active_status, is_editable_by_owner, submit, announce_submission,
}

-- what may move a request
pub data Operation : Type 0 where
  submitting : Operation
  reviewing : ReviewDecision → Operation
  expiring : Operation

-- a request that waits for a decision
pub data IsWaiting : ChangeRequestStatus → Type 0 where
  first : IsWaiting submitted
  further : IsWaiting under_review

-- the transitions of a request, each with the operation that takes it
pub data Step : Operation → ChangeRequestStatus → ChangeRequestStatus → Type 0 where
  submits : Step submitting draft submitted
  resubmits : Step submitting changes_requested submitted
  rejects : {a : ChangeRequestStatus} → IsWaiting a → Step (reviewing reject) a rejected
  sends_back :
      {a : ChangeRequestStatus} → IsWaiting a → Step (reviewing request_changes) a changes_requested
  waits : {a : ChangeRequestStatus} → IsWaiting a → Step (reviewing approve) a under_review
  publishes : {a : ChangeRequestStatus} → IsWaiting a → Step (reviewing approve) a published
  conflicts : {a : ChangeRequestStatus} → IsWaiting a → Step (reviewing approve) a conflicted
  drops : {a : ChangeRequestStatus} → is_pending a ≡ true → Step expiring a expired

pub is_active_status-IsWaiting : (a : ChangeRequestStatus) → is_active_status a ≡ true → IsWaiting a
is_active_status-IsWaiting submitted h = first
is_active_status-IsWaiting under_review h = further
is_active_status-IsWaiting draft h = cc
is_active_status-IsWaiting approved h = cc
is_active_status-IsWaiting rejected h = cc
is_active_status-IsWaiting changes_requested h = cc
is_active_status-IsWaiting published h = cc
is_active_status-IsWaiting conflicted h = cc
is_active_status-IsWaiting expired h = cc

is_editable_by_owner-Step :
    (a : ChangeRequestStatus) → is_editable_by_owner a ≡ true → Step submitting a submitted
is_editable_by_owner-Step draft h = submits
is_editable_by_owner-Step changes_requested h = resubmits
is_editable_by_owner-Step submitted h = cc
is_editable_by_owner-Step under_review h = cc
is_editable_by_owner-Step approved h = cc
is_editable_by_owner-Step rejected h = cc
is_editable_by_owner-Step published h = cc
is_editable_by_owner-Step conflicted h = cc
is_editable_by_owner-Step expired h = cc

pub find_request-ok :
    (id : ℕ) (s : Store) {cr : ChangeRequest} {s' : Store}
    → find_request id s ≡ (ok cr, s')
    → (s.requests.at id ≡ some cr) × (s ≡ s')
unfolding find_request
find_request-ok id s h = ground arith

pub update_request-ok :
    (id : ℕ) (f : ChangeRequest → ChangeRequest) (s : Store) {r : ChangeRequest} {s' : Store}
    → update_request id f s ≡ (ok r, s')
    → (old : ChangeRequest) × (s.requests.at id ≡ some old)
      × (r ≡ f old)
      × (s' ≡ record s { requests = set_row id r s.requests })
unfolding update_request
update_request-ok id f s h = elim (Option-cases (s.requests.at id)) [
  | inl e ↦ ground arith
  | inr (old, e) ↦ (old, e, ground arith, ground arith)
]

notify_each-requests :
    (users : List ℕ) (type : NotificationType) (id : ℕ) (s : Store)
    → (notify_each users type id s).1.requests ≡ s.requests
unfolding notify_each notify
notify_each-requests [] type id s = refl
notify_each-requests (u ∷ users) type id s =
    notify_each-requests users type id (notify u type id s).1

announce_submission-requests :
    (ports : Ports) (env : Env) (id user : ℕ) (s : Store) {s' : Store}
    → announce_submission ports env id user s ≡ (ok tt, s')
    → s'.requests ≡ s.requests
unfolding announce_submission notify_many
announce_submission-requests ports env id user s h =
    let audited = (record_store_audit cr_submit id s).1 in
    sym (ap (λ x. x.1.requests) h)
    ∙ notify_each-requests (distinct (filter (λ r. not (r == user)) (reviewer_ids env audited)))
        change_request_submitted id audited

-- A successful `submit` finds the request, is by its author, finds it as a draft or sent back for changes,
-- and stores and returns the same request as submitted, no other field changed.
pub submit-Step :
    (ports : Ports) (env : Env) (id user : ℕ) (s : Store) {r : ChangeRequest} {s' : Store}
    → submit ports env id user s ≡ (ok r, s')
    → (cr : ChangeRequest) × (s.requests.at id ≡ some cr)
      × (cr.created_by ≡ user)
      × Step submitting cr.status r.status
      × (r ≡ record cr { status = submitted })
      × (s'.requests.at id ≡ some r)
unfolding submit
submit-Step ports env id user s {r} {s'} h =
    let (cr, s₁, f, h₁) = bind-ok (find_request id s) _ h in
    let (found, same₁) = find_request-ok id s f in
    let (_, s₂, g₂, h₂) =
      bind-ok (throw_if (not (cr.created_by == user)) (forbidden cr_not_owner) s₁) _ h₁ in
    let (own, same₂) = throw_if-ok _ _ s₁ g₂ in
    let (_, s₃, g₃, h₃) =
      bind-ok (throw_if (not (is_editable_by_owner cr.status)) (bad_request cr_invalid_state) s₂) _
        h₂ in
    let (editable, same₃) = throw_if-ok _ _ s₂ g₃ in
    let (x, s₄, u, h₄) =
      bind-ok (update_request id (λ r. record r { status = submitted }) s₃) _ h₃ in
    let (old, e, re, se) = update_request-ok id _ s₃ u in
    let (result, announced) = finish-ok (announce_submission ports env id user s₄) h₄ in
    let kept = announce_submission-requests ports env id user s₄ announced in
    let row : r ≡ record cr { status = submitted } = ground arith in
    let editable_now : is_editable_by_owner cr.status ≡ true = ground arith in
    (
      cr,
      found,
      (ground arith),
      subst (λ t. Step submitting cr.status t) (sym (ap ChangeRequest.status row))
          (is_editable_by_owner-Step cr.status editable_now),
      row,
      ground arith,
    )
