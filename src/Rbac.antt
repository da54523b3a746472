-- ===== src/Rbac.antt =====
-- apps/api/src/common/rbac: the permissions, the roles that hold them, and the assignments of roles to
-- users.
use tftsp.Common.{
  ℕ, Bool, true, false, Option, none, some, List, [], ◌∷◌, ◌&&◌, ◌==◌, leb, filter, mem,
}
use tftsp.Domain.{
  Role, tribe_admin, deputy_admin, branch_admin, reviewer, contributor, viewer, ContributionType,
  edit_data, add_source, includes_role,
}
pub mod Guard
pub mod Scope
pub mod Reaching
pub mod Granting
mod Examples

pub data Permission : Type 0 where
  person_read person_create person_update person_delete : Permission
  union_read union_write tribal_unit_read tribal_unit_write tree_read : Permission
  audit_read tenant_read tenant_update : Permission
  change_request_create change_request_read change_request_review : Permission
  workflow_settings_read workflow_settings_update notification_read : Permission
  import_read import_create import_rollback : Permission
  visibility_settings_read visibility_settings_update view_request_manage : Permission
  document_read document_write export_read stats_read : Permission
  reputation_read reputation_manage device_manage : Permission

abbrev pub m2_review_roles : List Role
m2_review_roles = tribe_admin ∷ deputy_admin ∷ reviewer ∷ []

abbrev pub m1_write_roles : List Role
m1_write_roles = tribe_admin ∷ deputy_admin ∷ branch_admin ∷ []

abbrev pub read_roles : List Role
read_roles = tribe_admin ∷ deputy_admin ∷ branch_admin ∷ reviewer ∷ contributor ∷ viewer ∷ []

abbrev tribe_admins : List Role
tribe_admins = tribe_admin ∷ deputy_admin ∷ []

-- `PERMISSION_MATRIX`
unfoldable pub permission_matrix : Permission → List Role
permission_matrix person_read = read_roles
permission_matrix person_create = m1_write_roles
permission_matrix person_update = m1_write_roles
permission_matrix person_delete = tribe_admins
permission_matrix union_read = read_roles
permission_matrix union_write = m1_write_roles
permission_matrix tribal_unit_read = read_roles
permission_matrix tribal_unit_write = tribe_admins
permission_matrix tree_read = read_roles
permission_matrix audit_read = tribe_admins
permission_matrix tenant_read = tribe_admins
permission_matrix tenant_update = tribe_admins
permission_matrix change_request_create =
    tribe_admin ∷ deputy_admin ∷ branch_admin ∷ reviewer ∷ contributor ∷ viewer ∷ []
permission_matrix change_request_read = read_roles
permission_matrix change_request_review = tribe_admin ∷ deputy_admin ∷ reviewer ∷ []
permission_matrix workflow_settings_read = tribe_admins
permission_matrix workflow_settings_update = tribe_admins
permission_matrix notification_read = read_roles
permission_matrix import_read = tribe_admin ∷ deputy_admin ∷ branch_admin ∷ []
permission_matrix import_create = tribe_admin ∷ deputy_admin ∷ branch_admin ∷ []
permission_matrix import_rollback = tribe_admins
permission_matrix visibility_settings_read = tribe_admins
permission_matrix visibility_settings_update = tribe_admins
permission_matrix view_request_manage = tribe_admins
permission_matrix document_read = read_roles
permission_matrix document_write = tribe_admin ∷ deputy_admin ∷ branch_admin ∷ []
permission_matrix export_read = read_roles
permission_matrix stats_read = tribe_admins
permission_matrix reputation_read = read_roles
permission_matrix reputation_manage = tribe_admins
permission_matrix device_manage = read_roles

pub data ScopeCheck : Type 0 where
  no_scope tribal_unit_scope : ScopeCheck

abbrev pub viewer_allowed : ContributionType → Bool
viewer_allowed edit_data = true
viewer_allowed add_source = true
viewer_allowed _ = false

abbrev pub contributor_roles : List Role
contributor_roles = tribe_admin ∷ deputy_admin ∷ branch_admin ∷ reviewer ∷ contributor ∷ []

-- a row of `role_assignments`
pub record Assignment : Type 0 where
  pub tenant_id : ℕ
  pub user_id : ℕ
  pub role : Role
  pub tribal_unit_id : Option ℕ
  pub valid_from : ℕ
  pub valid_to : Option ℕ

abbrev pub not_over : ℕ → Option ℕ → Bool
not_over now none = true
not_over now (some end) = leb now end

-- `validFrom: { lte: now }, OR: [{ validTo: null }, { validTo: { gte: now } }]`
abbrev pub is_active : ℕ → Assignment → Bool
is_active now a = leb a.valid_from now && not_over now a.valid_to

-- the active assignments of a user in a tenant
abbrev pub active_assignments : ℕ → ℕ → ℕ → List Assignment → List Assignment
active_assignments tenant now user rows =
    filter (λ a. (a.tenant_id == tenant) && ((a.user_id == user) && is_active now a)) rows
