-- ===== src/ViewRequests.antt =====
-- apps/api/src/modules/view-requests: a stranger asks to see the tree of a tribe; an administrator
-- rejects the request, or approves it with a viewer's role for a time.
use tftsp.Common.{
  ℕ, ◌+◌, Bool, true, false, Option, none, some, List, [], ◌∷◌, ◌&&◌, ◌==◌, not, leb, is_some,
  is_empty, if◌then◌else◌, filter, Text, Table, insert_row, set_row, M, ◌>>=◌, ◌>>◌, return, get,
  modify, require, throw_if, not_found, bad_request, tenant_not_found, view_request_not_found,
  view_request_invalid_state, view_request_id_required, or_else,
}
use tftsp.Domain.{
  NotificationType, view_request_submitted, Role, viewer, tribe_admin, deputy_admin, includes_role,
}
use tftsp.Database.{Env, AuditAction, AuditEntry, view_request_approve, view_request_reject}
use tftsp.Rbac.{not_over}
use tftsp.Visibility.Context.{MemberScope, tribe_members}
use tftsp.ChangeRequests.Store.{Notification, distinct}
use tftsp.Imports.Parsing.{cell}
pub mod Deciding
pub mod Lifecycle
mod Examples

-- `ViewRequestStatus`
pub data ViewRequestStatus : Type 0 where
  pending approved rejected expired : ViewRequestStatus

-- a row of `view_requests`
pub record ViewRequest : Type 0 where
  pub tenant_id : ℕ
  pub full_name : Text
  pub phone : Text
  pub alleged_branch : Option Text
  pub reason : Text
  pub id_attachment_key : Option Text
  pub status : ViewRequestStatus
  pub reviewed_by : Option ℕ
  pub granted_user : Option ℕ
  pub valid_to : Option ℕ

-- a row of `role_assignments`, with the scope of a viewer
pub record ViewerGrant : Type 0 where
  pub user_id : ℕ
  pub tenant_id : ℕ
  pub role : Role
  pub member_scope : Option MemberScope
  pub valid_from : ℕ
  pub valid_to : Option ℕ

-- what the service reads of a row of `visibility_settings`
pub record ViewSettings : Type 0 where
  pub require_id_for_view_request : Bool
  pub default_member_scope : MemberScope

-- the tables of all tenants that the service reads and writes; a new identifier is a number not used
pub record Site : Type 0 where
  pub tenant_of : Text → Option ℕ
  pub settings : ℕ → Option ViewSettings
  pub requests : Table ViewRequest
  pub grants : List ViewerGrant
  pub notifications : List Notification
  pub audit : List AuditEntry
  pub next_id : ℕ

pub record CreateViewRequestDto : Type 0 where
  pub tenant_slug : Text
  pub full_name : Text
  pub phone : Text
  pub alleged_branch : Option Text
  pub reason : Text
  pub id_attachment_key : Option Text

abbrev requires_id : Option ViewSettings → Bool
requires_id none = false
requires_id (some v) = v.require_id_for_view_request

abbrev admin_grants : ℕ → ℕ → List ViewerGrant → List ℕ
admin_grants now tenant [] = []
admin_grants now tenant (g ∷ grants) =
    let rest = admin_grants now tenant grants in
    if (g.tenant_id == tenant && includes_role (tribe_admin ∷ deputy_admin ∷ []) g.role)
      && (leb g.valid_from now && not_over now g.valid_to)
    then g.user_id ∷ rest
    else rest

-- `adminUserIds`
unfoldable pub admin_user_ids : ℕ → ℕ → Site → List ℕ
admin_user_ids now tenant s = distinct (admin_grants now tenant s.grants)

abbrev notes_for : List ℕ → ℕ → List Notification → List Notification
notes_for [] subject notes = notes
notes_for (u ∷ users) subject notes =
    notes_for users subject
      (record { recipient = u; type = view_request_submitted; subject = subject } ∷ notes)

-- the row that `create` inserts
abbrev pub new_view_request : ℕ → CreateViewRequestDto → ViewRequest
new_view_request tenant dto = record {
  tenant_id = tenant;
  full_name = dto.full_name;
  phone = dto.phone;
  alleged_branch = dto.alleged_branch;
  reason = dto.reason;
  id_attachment_key = dto.id_attachment_key;
  status = ViewRequestStatus.pending;
  reviewed_by = none;
  granted_user = none;
  valid_to = none;
}

-- `create`, by anybody
unfoldable pub create_view_request : Env → CreateViewRequestDto → M Site ℕ
unfolding admin_user_ids
create_view_request env dto = do
  s ← get
  tenant ← require (s.tenant_of dto.tenant_slug) (not_found tenant_not_found)
  throw_if (requires_id (s.settings tenant) && not (is_some (cell dto.id_attachment_key)))
      (bad_request view_request_id_required)
  modify (λ t. record t {
    requests = insert_row s.next_id (new_view_request tenant dto) t.requests;
    next_id = s.next_id + 1;
    notifications = notes_for (admin_user_ids env.now tenant t) s.next_id t.notifications;
  })
  return s.next_id

abbrev pub is_waiting : ViewRequestStatus → Bool
is_waiting ViewRequestStatus.pending = true
is_waiting _ = false

-- the row of a request under the policy of the tenant
abbrev pub request_of : Site → ℕ → ℕ → Option ViewRequest
request_of s tenant id = elim (s.requests.at id) [
  | none ↦ none
  | some r ↦ if r.tenant_id == tenant then some r else none
]

-- `getPending`
unfoldable pub get_pending : ℕ → ℕ → M Site ViewRequest
get_pending tenant id = do
  s ← get
  r ← require (request_of s tenant id) (not_found view_request_not_found)
  throw_if (not (is_waiting r.status)) (bad_request view_request_invalid_state)
  return r

abbrev scope_from : Option ViewSettings → MemberScope
scope_from none = tribe_members
scope_from (some v) = v.default_member_scope

-- `grantViewer`: a new user with the role of a viewer; the address and the password are random
unfoldable pub grant_viewer : Env → ℕ → MemberScope → ℕ → M Site ℕ
grant_viewer env tenant scope valid_to = do
  s ← get
  modify (λ t. record t {
    next_id = s.next_id + 1;
    grants =
        record {
          user_id = s.next_id;
          tenant_id = tenant;
          role = viewer;
          member_scope = some scope;
          valid_from = env.now;
          valid_to = some valid_to;
        }
        ∷ t.grants;
  })
  return s.next_id

abbrev record_site_audit : AuditAction → ℕ → M Site (Unit {0})
record_site_audit action id =
    modify (λ s. record s { audit = record { action = action; entity_id = id } ∷ s.audit })

-- `approve`, by a user of a tenant
unfoldable pub approve_view_request : Env → ℕ → ℕ → ℕ → ℕ → M Site (Unit {0})
unfolding get_pending grant_viewer
approve_view_request env tenant user id valid_to = do
  r ← get_pending tenant id
  s ← get
  granted ← grant_viewer env tenant (scope_from (s.settings tenant)) valid_to
  modify (λ t. record t {
    requests =
        set_row id
          (record r {
            status = ViewRequestStatus.approved;
            reviewed_by = some user;
            granted_user = some granted;
            valid_to = some valid_to;
          })
          t.requests;
  })
  record_site_audit view_request_approve id

-- `reject`
unfoldable pub reject_view_request : ℕ → ℕ → ℕ → M Site (Unit {0})
unfolding get_pending
reject_view_request tenant user id = do
  r ← get_pending tenant id
  modify (λ t. record t {
    requests =
        set_row id (record r { status = ViewRequestStatus.rejected; reviewed_by = some user })
          t.requests;
  })
  record_site_audit view_request_reject id
