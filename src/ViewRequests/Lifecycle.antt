-- ===== src/ViewRequests/Lifecycle.antt =====
-- view-request.service.ts: the life of a view request, as calls and what each does to the tables.
use tftsp.Common.{
  ℕ, ◌+◌, ◌≡◌, inl, inr, refl, sym, ap, subst, ◌∙◌, true, some, ◌∷◌, ◌&&◌, ◌==◌, ==_iff, not,
  is_some, Bool-cases, Option-cases, arith, insert_row, set_row,
}
use tftsp.Domain.{viewer}
use tftsp.Database.{Env}
use tftsp.Imports.Parsing.{cell}
use tftsp.ViewRequests.{
  Site, ViewRequest, ViewRequestStatus, ViewerGrant, CreateViewRequestDto, create_view_request,
  approve_view_request, reject_view_request, get_pending, grant_viewer, request_of, is_waiting,
  new_view_request, requires_id, scope_from,
}

-- a call of the service
pub data Call : Type 0 where
  create : CreateViewRequestDto → Call
  approve : ℕ → ℕ → ℕ → ℕ → Call
  reject : ℕ → ℕ → ℕ → Call

-- the tables after a call, whatever it answers
unfoldable pub after_call : Env → Call → Site → Site
unfolding create_view_request approve_view_request reject_view_request
after_call env (create dto) s = (create_view_request env dto s).1
after_call env (approve tenant user id valid_to) s =
    (approve_view_request env tenant user id valid_to s).1
after_call env (reject tenant user id) s = (reject_view_request tenant user id s).1

-- calls one after the other, each at its own time
pub data Calls : Site → Site → Type 0 where
  done : {s : Site} → Calls s s
  call : {s t u : Site} (env : Env) (c : Call) → after_call env c s ≡ t → Calls t u → Calls s u

-- what a call can do to the tables
pub data Effect (s : Site) : Site → Type 0 where
  nothing : Effect s s
  entered :
      {t : Site} (tenant : ℕ) (dto : CreateViewRequestDto)
      → t.requests ≡ insert_row s.next_id (new_view_request tenant dto) s.requests
      → t.next_id ≡ s.next_id + 1
      → t.grants ≡ s.grants
      → Effect s t
  granted :
      {t : Site} (id : ℕ) (r r' : ViewRequest) (g : ViewerGrant)
      → s.requests.at id ≡ some r
      → r.status ≡ ViewRequestStatus.pending
      → r'.tenant_id ≡ r.tenant_id
      → r'.status ≡ ViewRequestStatus.approved
      → r'.granted_user ≡ some g.user_id
      → r'.valid_to ≡ g.valid_to
      → is_some g.valid_to ≡ true
      → g.tenant_id ≡ r.tenant_id
      → g.role ≡ viewer
      → t.requests ≡ set_row id r' s.requests
      → t.next_id ≡ s.next_id + 1
      → t.grants ≡ g ∷ s.grants
      → Effect s t
  refused :
      {t : Site} (id : ℕ) (r r' : ViewRequest)
      → s.requests.at id ≡ some r
      → r.status ≡ ViewRequestStatus.pending
      → r'.status ≡ ViewRequestStatus.rejected
      → r'.granted_user ≡ r.granted_user
      → t.requests ≡ set_row id r' s.requests
      → t.next_id ≡ s.next_id
      → t.grants ≡ s.grants
      → Effect s t

none_of : (s : Site) {t : Site} → t ≡ s → Effect s t
none_of s e = subst (λ u. Effect s u) (sym e) nothing

pending-status : (st : ViewRequestStatus) → is_waiting st ≡ true → st ≡ ViewRequestStatus.pending
pending-status ViewRequestStatus.pending h = refl
pending-status ViewRequestStatus.approved h = cc
pending-status ViewRequestStatus.rejected h = cc
pending-status ViewRequestStatus.expired h = cc

create-Effect :
    (env : Env) (dto : CreateViewRequestDto) (s : Site) → Effect s (create_view_request env dto s).1
unfolding create_view_request
create-Effect env dto s = elim (Option-cases (s.tenant_of dto.tenant_slug)) [
  | inl e ↦ none_of s (ground (arith, e))
  | inr (tenant, e) ↦
      elim (Bool-cases
        (requires_id (s.settings tenant) && not (is_some (cell dto.id_attachment_key)))) [
          | inl q ↦ none_of s (ground (arith, e, q))
          | inr q ↦
              entered tenant dto (ground (arith, e, q)) (ground (arith, e, q))
                (ground (arith, e, q))
        ]
]

request_of-at :
    (s : Site) (tenant id : ℕ) {r : ViewRequest}
    → request_of s tenant id ≡ some r
    → (s.requests.at id ≡ some r) × (r.tenant_id ≡ tenant)
request_of-at s tenant id {r} h = elim (Option-cases (s.requests.at id)) [
  | inl e ↦ ground (arith, e, h)
  | inr (v, e) ↦ elim (Bool-cases (v.tenant_id == tenant)) [
    | inl q ↦
        let same : v ≡ r = ground (arith, e, q, h) in
        (
          e ∙ ap some same,
          subst (λ (w : ViewRequest). w.tenant_id ≡ tenant) same ((==_iff v.tenant_id tenant).0 q),
        )
    | inr q ↦ ground (arith, e, q, h)
  ]
]

approve-Effect :
    (env : Env) (tenant user id valid_to : ℕ) (s : Site)
    → Effect s (approve_view_request env tenant user id valid_to s).1
unfolding approve_view_request get_pending grant_viewer
approve-Effect env tenant user id valid_to s = elim (Option-cases (request_of s tenant id)) [
  | inl e ↦ none_of s (rw e refl)
  | inr (r, e) ↦ elim (Bool-cases (is_waiting r.status)) [
    | inr q ↦ none_of s (rw e (rw q refl))
    | inl q ↦
        let (here, same) = request_of-at s tenant id e in
        let g : ViewerGrant = record {
          user_id = s.next_id;
          tenant_id = tenant;
          role = viewer;
          member_scope = some (scope_from (s.settings tenant));
          valid_from = env.now;
          valid_to = some valid_to;
        } in
        rw e (
          rw q (
            granted id r
              (record r {
                status = ViewRequestStatus.approved;
                reviewed_by = some user;
                granted_user = some s.next_id;
                valid_to = some valid_to;
              })
              g here (pending-status r.status q) refl refl refl refl refl (sym same) refl refl refl
              refl))
  ]
]

reject-Effect : (tenant user id : ℕ) (s : Site) → Effect s (reject_view_request tenant user id s).1
unfolding reject_view_request get_pending
reject-Effect tenant user id s = elim (Option-cases (request_of s tenant id)) [
  | inl e ↦ none_of s (rw e refl)
  | inr (r, e) ↦ elim (Bool-cases (is_waiting r.status)) [
    | inr q ↦ none_of s (rw e (rw q refl))
    | inl q ↦
        let (here, same) = request_of-at s tenant id e in
        rw e (
          rw q (
            refused id r (record r { status = ViewRequestStatus.rejected; reviewed_by = some user })
              here (pending-status r.status q) refl refl refl refl refl))
  ]
]

pub call-Effect : (env : Env) (c : Call) (s : Site) → Effect s (after_call env c s)
unfolding after_call
call-Effect env (create dto) s = create-Effect env dto s
call-Effect env (approve tenant user id valid_to) s = approve-Effect env tenant user id valid_to s
call-Effect env (reject tenant user id) s = reject-Effect tenant user id s
