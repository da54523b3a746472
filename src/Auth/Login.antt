-- ===== src/Auth/Login.antt =====
-- auth.service.ts `login`: the lockout after failed attempts, the memberships, the active tenant.
use tftsp.Common.{
  ℕ, ◌+◌, ◌*◌, Bool, true, false, Option, none, some, List, [], ◌∷◌, ◌&&◌, ◌||◌, ◌==◌, not, ltb,
  leb, if◌then◌else◌, is_some, filter, Text, text_eq, Table, set_row, M, ok, fail, modify, return,
  throw, ◌>>=◌, ◌>>◌, unauthorized, forbidden, invalid_credentials, account_locked,
  no_tenant_membership,
}
use tftsp.Domain.{Role, includes_role}
use tftsp.Auth.{
  Account, AuthStore, AuthEnv, TokenPair, Tenant, TenantAssignment, TenantMembership, find_row,
  issue_refresh_token,
}

-- `findUserByEmail`
abbrev pub find_by_email : AuthEnv → Text → AuthStore → Option (ℕ × Account)
find_by_email env email s =
    find_row (λ u. text_eq u.email (env.lower_case email)) s.users.at s.users.ids

-- `updateUser`, of a row that is there
abbrev pub put_user : ℕ → Account → M AuthStore (Unit {0})
put_user id u = modify (λ s. record s { users = set_row id u s.users })

-- the row after `registerFailedAttempt`
unfoldable pub failed_attempt : AuthEnv → Account → Account
failed_attempt env user =
    let attempts = user.failed_login_attempts + 1 in
    if leb env.max_failed_attempts attempts
    then record user {
      failed_login_attempts = 0;
      locked_until = some (env.now + env.lock_minutes * 60000);
    }
    else record user { failed_login_attempts = attempts }

abbrev not_over : ℕ → Option ℕ → Bool
not_over now none = true
not_over now (some end) = leb now end

-- `findActiveAssignments`
abbrev pub assignments_of : AuthEnv → ℕ → AuthStore → List TenantAssignment
assignments_of env user s =
    filter (λ a. (a.user_id == user) && (leb a.valid_from env.now && not_over env.now a.valid_to))
      s.assignments

abbrev pub roles_in : ℕ → List TenantAssignment → List Role
roles_in tenant [] = []
roles_in tenant (a ∷ rows) =
    let rest = roles_in tenant rows in
    if a.tenant_id == tenant
    then a.role ∷ filter (λ r. not (includes_role (a.role ∷ []) r)) rest
    else rest

-- the tenants of the assignments, each once, in the order of their first row
abbrev pub tenants_of : List TenantAssignment → List ℕ
tenants_of [] = []
tenants_of (a ∷ rows) = a.tenant_id ∷ filter (λ t. not (t == a.tenant_id)) (tenants_of rows)

-- a tenant that is missing or suspended is left out
abbrev pub memberships_in : Table Tenant → List TenantAssignment → List ℕ → List TenantMembership
memberships_in tenants rows [] = []
memberships_in tenants rows (t ∷ ids) =
    let rest = memberships_in tenants rows ids in
    elim (tenants.at t) [
      | none ↦ rest
      | some tenant ↦
          if tenant.is_suspended
          then rest
          else record { tenant_id = t; tenant_slug = tenant.slug; roles = roles_in t rows } ∷ rest
    ]

-- `buildMemberships`
unfoldable pub build_memberships : AuthEnv → ℕ → AuthStore → List TenantMembership
build_memberships env user s =
    let rows = assignments_of env user s in memberships_in s.tenants rows (tenants_of rows)

abbrev pub with_slug : Text → List TenantMembership → Option ℕ
with_slug slug [] = none
with_slug slug (m ∷ rest) =
    let later = with_slug slug rest in
    if text_eq m.tenant_slug slug then some m.tenant_id else later

abbrev first_tenant : List TenantMembership → Option ℕ
first_tenant [] = none
first_tenant (m ∷ _) = some m.tenant_id

-- `resolveActiveTenant`
unfoldable pub resolve_active_tenant : List TenantMembership → Option Text → M AuthStore (Option ℕ)
resolve_active_tenant memberships none s = (ok (first_tenant memberships), s)
resolve_active_tenant memberships (some slug) s = elim (with_slug slug memberships) [
  | none ↦ (fail (forbidden no_tenant_membership), s)
  | some tenant ↦ (ok (some tenant), s)
]

abbrev cleared_user : Account → Account
cleared_user u = record u { failed_login_attempts = 0; locked_until = none }

abbrev clear_if_needed : ℕ → Account → M AuthStore (Unit {0})
clear_if_needed id u =
    if ltb 0 u.failed_login_attempts || is_some u.locked_until
    then put_user id (cleared_user u)
    else return tt

-- the right password: the session
unfoldable pub open_session : AuthEnv → ℕ → Account → Option Text → M AuthStore TokenPair
unfolding build_memberships resolve_active_tenant issue_refresh_token
open_session env id user slug s =
    (do
      clear_if_needed id user
      tenant ← resolve_active_tenant (build_memberships env id s) slug
      token ← issue_refresh_token env id tenant none
      return (record { user = id; tenant = tenant; refresh_token = env.random_token token }))
      s

abbrev pub is_locked : AuthEnv → Account → Bool
is_locked env u = elim u.locked_until [ none ↦ false | some end ↦ ltb env.now end ]

-- the wrong password: the attempt is counted
unfoldable pub refuse : AuthEnv → ℕ → Account → M AuthStore TokenPair
unfolding failed_attempt
refuse env id user = do
  put_user id (failed_attempt env user)
  throw (unauthorized invalid_credentials)

unfoldable pub login_as : AuthEnv → ℕ → Account → Text → Option Text → M AuthStore TokenPair
unfolding open_session refuse
login_as env id user password slug =
    if is_locked env user
    then throw (unauthorized account_locked)
    else if env.verify user.password_hash password
    then open_session env id user slug
    else refuse env id user

-- `login`
unfoldable pub login : AuthEnv → Text → Text → Option Text → M AuthStore TokenPair
unfolding login_as
login env email password slug s = elim (find_by_email env email s) [
  | none ↦ (fail (unauthorized invalid_credentials), s)
  | some found ↦ login_as env found.0 found.1 password slug s
]
