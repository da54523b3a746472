-- ===== src/ChangeRequests/Reviewing.antt =====
-- change-request.service.ts `review`: who may review, what a review changes, when it publishes.
use tftsp.Common.{
  ℕ, ◌≡◌, ◌≢◌, true, false, some, ◌==◌, ◌≤◌, not, arith, ok, bind-ok, throw_if-ok, throw_if,
  bad_request, forbidden, cr_invalid_state, cr_cannot_review_own, ◌∙◌, sym, subst,
}
use tftsp.Domain.{ReviewDecision, approve, published}
use tftsp.Database.{Env, cr_review}
use tftsp.ChangeRequests.Requests.{ChangeRequest}
use tftsp.ChangeRequests.Store.{
  Store, find_request, upsert_review, approvals_count, record_store_audit,
}
use tftsp.ChangeRequests.Service.{Ports, is_active_status}
use tftsp.ChangeRequests.Review.{review, conclude}
use tftsp.ChangeRequests.Lifecycle.{
  find_request-ok, IsWaiting, Step, reviewing, is_active_status-IsWaiting,
}
use tftsp.ChangeRequests.Outcomes.{conclude-Step, conclude-published}

-- the store with the decision of the reviewer in it
abbrev pub with_decision : ℕ → ReviewDecision → ℕ → Store → Store
with_decision id d user s = (record_store_audit cr_review id (upsert_review id user d s).1).1

-- what a successful review did: the request was active and not the reviewer's own, the decision is in,
-- and the rest follows from it
pub record Reviewed (ports : Ports) (env : Env) (id : ℕ) (d : ReviewDecision) (user : ℕ) (s : Store)
    (r : ChangeRequest) (s' : Store) : Type 0 where
  pub cr : ChangeRequest
  pub found : s.requests.at id ≡ some cr
  pub active : is_active_status cr.status ≡ true
  pub not_own : (cr.created_by == user) ≡ false
  pub concluded : conclude ports env d id cr (with_decision id d user s) ≡ (ok r, s')

module _ (ports : Ports) (env : Env) (id : ℕ) (d : ReviewDecision) (user : ℕ) (s : Store)
    {r : ChangeRequest} {s' : Store} where
  pub review-ok : review ports env id d user s ≡ (ok r, s') → Reviewed ports env id d user s r s'
  unfolding review upsert_review
  review-ok h =
      let (cr, s₁, f, h₁) = bind-ok (find_request id s) _ h in
      let (found, same₁) = find_request-ok id s f in
      let (_, s₂, g₂, h₂) =
        bind-ok (throw_if (not (is_active_status cr.status)) (bad_request cr_invalid_state) s₁) _
          h₁ in
      let (active, same₂) = throw_if-ok _ _ s₁ g₂ in
      let (_, s₃, g₃, h₃) =
        bind-ok (throw_if (cr.created_by == user) (forbidden cr_cannot_review_own) s₂) _ h₂ in
      let (other, same₃) = throw_if-ok _ _ s₂ g₃ in
      let same : s₃ ≡ s = sym same₃ ∙ (sym same₂ ∙ sym same₁) in
      record {
        cr = cr;
        found = found;
        active = ground arith;
        not_own = other;
        concluded =
            subst (λ t. conclude ports env d id cr (with_decision id d user t) ≡ (ok r, s')) same
              h₃;
      }

  -- A successful review finds the request, which waits for a decision and is not the reviewer's own, and the
  -- row it returns has the status that the decision leads to: rejected after a rejection, sent back after a
  -- request for changes, and under review, published or in conflict after an approval.
  pub review-Step :
      review ports env id d user s ≡ (ok r, s')
      → (cr : ChangeRequest) × (s.requests.at id ≡ some cr)
        × (cr.created_by ≢ user)
        × IsWaiting cr.status
        × Step (reviewing d) cr.status r.status
  review-Step h =
      let done = review-ok h in
      let waiting = is_active_status-IsWaiting done.cr.status done.active in
      (
        done.cr,
        done.found,
        (ground (arith, done.not_own)),
        waiting,
        conclude-Step ports env id done.cr (with_decision id d user s) d waiting done.concluded,
      )

  -- a row published by a review has the approvals that the settings ask for
  pub review-quorum :
      review ports env id d user s ≡ (ok r, s')
      → r.status ≡ published
      → (d ≡ approve)
        × (s.settings.approvals_required ≤ approvals_count id (with_decision id d user s))
  unfolding upsert_review
  review-quorum h e =
      let done = review-ok h in
      let (a, enough, _) =
        conclude-published ports env id done.cr (with_decision id d user s) d done.concluded e in
      (a, enough)
