-- ===== src/ChangeRequests/Outcomes.antt =====
-- change-request.service.ts: what a decision comes to.
use tftsp.Common.{
  return-ok, finish-ok, subst, Bool-cases, inl, inr, ◌⊎◌, ℕ, ◌≡◌, refl, some, ◌≤◌, leb, arith, ok,
  bind-ok, set_row, transaction, transaction-ok, ◌∙◌, sym, ap, ◌&&◌,
}
use tftsp.Domain.{
  change_request_changes_requested, under_review, rejected, changes_requested, published,
  conflicted, ChangeRequestStatus, ReviewDecision, approve, reject, request_changes,
}
use tftsp.Database.{Env}
use tftsp.ChangeRequests.Requests.{ChangeRequest, PublishOutcome, applied, in_conflict}
use tftsp.ChangeRequests.Publisher.{apply}
use tftsp.ChangeRequests.Store.{Store, update_request, approvals_count, on_db}
use tftsp.ChangeRequests.Service.{Ports, is_import}
use tftsp.ChangeRequests.Review.{
  notify_owner, conclude, conclude_approval, publish, publish_change, publish_import,
  finalize_rejected, announce_rejection, announce_import, finalize_changes_requested,
  apply_and_mark, announce, after,
}
use tftsp.ChangeRequests.Lifecycle.{
  update_request-ok, IsWaiting, Step, reviewing, rejects, sends_back, waits, publishes, conflicts,
}

-- what a publication did: the publisher's outcome, the row that carries it, what followed
pub record Published (ports : Ports) (env : Env) (id : ℕ) (cr : ChangeRequest) (s : Store)
    (r : ChangeRequest) (s' : Store) : Type 0 where
  pub outcome : PublishOutcome
  pub middle : Store
  pub old : ChangeRequest
  pub run : on_db (apply env cr) s ≡ (ok outcome, middle)
  pub stored : middle.requests.at id ≡ some old
  pub row : r ≡ after ports env outcome old
  pub left :
      announce ports env id cr outcome (record middle { requests = set_row id r middle.requests })
      ≡ (ok tt, s')

after_status :
    (ports : Ports) (env : Env) (o : PublishOutcome) (old : ChangeRequest)
    → ((after ports env o old).status ≡ published) ⊎ ((after ports env o old).status ≡ conflicted)
after_status ports env (applied t) old = inl refl
after_status ports env in_conflict old = inr refl

Published-status :
    {ports : Ports} {env : Env} {id : ℕ} {cr : ChangeRequest} {s : Store} {r : ChangeRequest}
    {s' : Store}
    → Published ports env id cr s r s'
    → (r.status ≡ published) ⊎ (r.status ≡ conflicted)
Published-status {ports} {env} {r = r} p =
    subst (λ x. (x.status ≡ published) ⊎ (x.status ≡ conflicted))
      {x = after ports env p.outcome p.old} {y = r} (sym p.row)
      (after_status ports env p.outcome p.old)

apply_and_mark-ok :
    (ports : Ports) (env : Env) (id : ℕ) (cr : ChangeRequest) (s : Store)
    {both : PublishOutcome × ChangeRequest} {s' : Store}
    → apply_and_mark ports env id cr s ≡ (ok both, s')
    → (middle : Store) × (old : ChangeRequest) × (on_db (apply env cr) s ≡ (ok both.0, middle))
      × (middle.requests.at id ≡ some old)
      × (both.1 ≡ after ports env both.0 old)
      × (s' ≡ record middle { requests = set_row id both.1 middle.requests })
unfolding apply_and_mark
apply_and_mark-ok ports env id cr s {both} {s'} h =
    let (o, middle, run, h₁) = bind-ok (on_db (apply env cr) s) _ h in
    let (y, s₂, u, h₂) = bind-ok (update_request id (after ports env o) middle) _ h₁ in
    let (old, stored, row, state) = update_request-ok id _ middle u in
    let (same, end) = return-ok h₂ in
    let o_same : o ≡ both.0 = ap (λ b. b.0) same in
    let y_same : y ≡ both.1 = ap (λ b. b.1) same in
    (
      middle,
      old,
      subst (λ x. on_db (apply env cr) s ≡ (ok x, middle)) o_same run,
      stored,
      sym y_same ∙ (row ∙ ap (λ x. after ports env x old) o_same),
      sym end
          ∙ (state ∙ ap (λ x. record middle { requests = set_row id x middle.requests }) y_same),
    )

-- the row that the transaction stores
pub apply_and_mark-stored :
    (ports : Ports) (env : Env) (id : ℕ) (cr : ChangeRequest) (s : Store)
    {both : PublishOutcome × ChangeRequest} {s' : Store}
    → apply_and_mark ports env id cr s ≡ (ok both, s')
    → (s'.requests.at id ≡ some both.1)
      × ((both.1.status ≡ published) ⊎ (both.1.status ≡ conflicted))
apply_and_mark-stored ports env id cr s {both} {s'} h =
    let (middle, old, run, stored, row, state) = apply_and_mark-ok ports env id cr s h in
    (
      ap (λ (t : Store). t.requests.at id) state ∙ ground arith,
      subst (λ (x : ChangeRequest). (x.status ≡ published) ⊎ (x.status ≡ conflicted)) (sym row)
          (after_status ports env both.0 old),
    )

module _ (ports : Ports) (env : Env) (id : ℕ) (cr : ChangeRequest) (s : Store) {r : ChangeRequest}
    {s' : Store} where
  finalize_rejected-ok : finalize_rejected ports env id cr s ≡ (ok r, s') → r.status ≡ rejected
  unfolding finalize_rejected
  finalize_rejected-ok h =
      let (x, s₁, u, h₁) =
        bind-ok (update_request id (λ r. record r { status = rejected }) s) _ h in
      let (old, _, e, _) = update_request-ok id _ s u in
      ap ChangeRequest.status (sym (finish-ok (announce_rejection ports env id cr s₁) h₁).0 ∙ e)

  finalize_changes_requested-ok :
      finalize_changes_requested ports env id cr s ≡ (ok r, s') → r.status ≡ changes_requested
  unfolding finalize_changes_requested
  finalize_changes_requested-ok h =
      let (x, s₁, u, h₁) =
        bind-ok (update_request id (λ r. record r { status = changes_requested }) s) _ h in
      let (old, _, e, _) = update_request-ok id _ s u in
      ap ChangeRequest.status (
        sym (finish-ok (notify_owner ports env id cr change_request_changes_requested s₁) h₁).0 ∙ e)

  publish_import-ok : publish_import ports env id cr s ≡ (ok r, s') → r.status ≡ published
  unfolding publish_import
  publish_import-ok h =
      let (_, s₁, b, h₁) = bind-ok (ports.publish_batch id cr s) _ h in
      let (x, s₂, u, h₂) =
        bind-ok
          (update_request id (λ r. record r { status = published; published_at = some env.now }) s₁)
          _ h₁ in
      let (old, _, e, _) = update_request-ok id _ s₁ u in
      ap ChangeRequest.status (sym (finish-ok (announce_import ports env id cr s₂) h₂).0 ∙ e)

  pub publish_change-ok :
      publish_change ports env id cr s ≡ (ok r, s') → Published ports env id cr s r s'
  unfolding publish_change
  publish_change-ok h =
      let (both, s₁, t, h₁) = bind-ok (transaction (apply_and_mark ports env id cr) s) _ h in
      let body = transaction-ok (apply_and_mark ports env id cr) s t in
      let (result, announced) = finish-ok (announce ports env id cr both.0 s₁) h₁ in
      let (middle, old, run, stored, row, state) = apply_and_mark-ok ports env id cr s body in
      record {
        outcome = both.0;
        middle = middle;
        old = old;
        run = run;
        stored = stored;
        row = sym result ∙ row;
        left =
            subst (λ t. announce ports env id cr both.0 t ≡ (ok tt, s'))
              (subst (λ x. s₁ ≡ record middle { requests = set_row id x middle.requests }) result
                state)
              announced;
      }

  publish-ok :
      publish ports env id cr s ≡ (ok r, s') → (r.status ≡ published) ⊎ (r.status ≡ conflicted)
  unfolding publish
  publish-ok h = elim (Bool-cases (is_import cr.target_type && ports.has_importer)) [
    | inl e ↦ inl (publish_import-ok (ground arith))
    | inr e ↦
        let changed : publish_change ports env id cr s ≡ (ok r, s') = ground arith in
        Published-status (publish_change-ok changed)
  ]

  -- an approval publishes where there are enough, and waits otherwise
  pub conclude_approval-ok :
      conclude_approval ports env id cr s ≡ (ok r, s')
      → ((s.settings.approvals_required ≤ approvals_count id s)
          × (publish ports env id cr s ≡ (ok r, s')))
        ⊎ (r.status ≡ under_review)
  unfolding conclude_approval
  conclude_approval-ok h =
      elim (Bool-cases (leb s.settings.approvals_required (approvals_count id s))) [
        | inl e ↦ inl (ground arith, ground arith)
        | inr e ↦
            let waits : update_request id (λ r. record r { status = under_review }) s ≡ (ok r, s') =
              ground arith in
            let (old, _, row, _) = update_request-ok id _ s waits in
            inr (ap ChangeRequest.status row)
      ]

  -- what is concluded is the transition that the decision names
  pub conclude-Step :
      {a : ChangeRequestStatus} (d : ReviewDecision)
      → IsWaiting a
      → conclude ports env d id cr s ≡ (ok r, s')
      → Step (reviewing d) a r.status
  unfolding conclude
  conclude-Step {a} reject w h =
      subst (Step (reviewing reject) a) (sym (finalize_rejected-ok h)) (rejects w)
  conclude-Step {a} request_changes w h =
      subst (Step (reviewing request_changes) a) (sym (finalize_changes_requested-ok h))
        (sends_back w)
  conclude-Step {a} approve w h = elim (conclude_approval-ok h) [
    | inl (_, p) ↦ elim (publish-ok p) [
      | inl e ↦ subst (Step (reviewing approve) a) (sym e) (publishes w)
      | inr e ↦ subst (Step (reviewing approve) a) (sym e) (conflicts w)
    ]
    | inr e ↦ subst (Step (reviewing approve) a) (sym e) (waits w)
  ]

  -- only an approval with enough others publishes
  pub conclude-published :
      (d : ReviewDecision)
      → conclude ports env d id cr s ≡ (ok r, s')
      → r.status ≡ published
      → (d ≡ approve)
        × (s.settings.approvals_required ≤ approvals_count id s)
        × (publish ports env id cr s ≡ (ok r, s'))
  unfolding conclude
  conclude-published reject h e = cc (finalize_rejected-ok h)
  conclude-published request_changes h e = cc (finalize_changes_requested-ok h)
  conclude-published approve h e = elim (conclude_approval-ok h) [
    | inl (enough, p) ↦ (refl, enough, p)
    | inr w ↦ cc
  ]
