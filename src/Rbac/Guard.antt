-- ===== src/Rbac/Guard.antt =====
-- common/guards/policy.guard.ts: who may call a route.
use tftsp.Common.{
  ℕ, zero, suc, Bool, true, false, Option, none, some, List, [], ◌∷◌, ◌&&◌, ◌==◌, ltb, not, any,
  filter, mem, is_some, if◌then◌else◌, Table, Exception, Result, ok, fail, unauthorized, forbidden,
  unauthorized_key, forbidden_key, grant_expired,
}
use tftsp.Domain.{includes_role}
use tftsp.Database.{TribalUnit}
use tftsp.Rbac.{
  Permission, ScopeCheck, no_scope, tribal_unit_scope, permission_matrix, Assignment,
  active_assignments,
}

pub record User : Type 0 where
  pub id : ℕ
  pub tenant_id : Option ℕ
  pub is_super_admin : Bool

pub record Requirement : Type 0 where
  pub permission : Permission
  pub scope : ScopeCheck

-- what the decorators of a route and its request say
pub record Route : Type 0 where
  pub is_public : Bool
  pub user : Option User
  pub super_admin_only : Bool
  pub requirement : Option Requirement
  pub body_unit : Option ℕ
  pub param_unit : Option ℕ

abbrev pub unit_ids : List Assignment → List ℕ
unit_ids [] = []
unit_ids (a ∷ rows) = elim a.tribal_unit_id [ none ↦ unit_ids rows | some u ↦ u ∷ unit_ids rows ]

abbrev pub parent_of : Table TribalUnit → ℕ → Option ℕ
parent_of units x = elim (units.at x) [ none ↦ none | some u ↦ u.parent_id ]

-- the `while (cursor)` loop: up the parents until a unit of the scope
unfoldable pub climbs_to : (ℕ → Option ℕ) → List ℕ → ℕ → Option ℕ → Option Bool
climbs_to parent scope zero _ = none
climbs_to parent scope (suc fuel) none = some false
climbs_to parent scope (suc fuel) (some x) = elim (mem x scope) [
  | true ↦ some true
  | false ↦ climbs_to parent scope fuel (parent x)
]

abbrev pub target_unit : Option ℕ → Option ℕ → Option ℕ
target_unit none param = param
target_unit (some body) param = some body

-- `none`: the walk up the parents does not end within the fuel
unfoldable pub check_tribal_unit_scope :
    List Assignment → Route → Table TribalUnit → ℕ → Option Bool
unfolding climbs_to
check_tribal_unit_scope rows route units fuel =
    if any (λ a. not (is_some a.tribal_unit_id)) rows
    then some true
    else elim (target_unit route.body_unit route.param_unit) [
      | none ↦ some true
      | some target ↦
          if mem target (unit_ids rows)
          then some true
          else climbs_to (parent_of units) (unit_ids rows) fuel (some target)
    ]

abbrev is_over : ℕ → Option ℕ → Bool
is_over now none = false
is_over now (some end) = ltb end now

abbrev pub expired_or_forbidden : ℕ → ℕ → ℕ → List Assignment → Exception
expired_or_forbidden tenant now user rows =
    if any (λ a. (a.tenant_id == tenant) && ((a.user_id == user) && is_over now a.valid_to)) rows
    then unauthorized grant_expired
    else forbidden forbidden_key

abbrev pub scope_result : Option Bool → Option (Result Bool)
scope_result none = none
scope_result (some true) = some (ok true)
scope_result (some false) = some (fail (forbidden forbidden_key))

-- the assignments whose role holds the permission, against the scope of the requirement
unfoldable pub check_matching :
    Route → ScopeCheck → Table TribalUnit → ℕ → List Assignment → Option (Result Bool)
unfolding check_tribal_unit_scope
check_matching route scope units fuel [] = some (fail (forbidden forbidden_key))
check_matching route no_scope units fuel (m ∷ matching) = some (ok true)
check_matching route tribal_unit_scope units fuel (m ∷ matching) =
    scope_result (check_tribal_unit_scope (m ∷ matching) route units fuel)

abbrev pub allows : Permission → Assignment → Bool
allows permission a = includes_role (permission_matrix permission) a.role

-- the active assignments; without any, an expired one is told apart
unfoldable pub check_active :
    ℕ
    → ℕ
    → ℕ
    → List Assignment
    → Route
    → Requirement
    → Table TribalUnit
    → ℕ
    → List Assignment
    → Option (Result Bool)
unfolding permission_matrix check_matching
check_active tenant now user rows route requirement units fuel [] =
    some (fail (expired_or_forbidden tenant now user rows))
check_active tenant now user rows route requirement units fuel (a ∷ active) =
    check_matching route requirement.scope units fuel
      (filter (allows requirement.permission) (a ∷ active))

unfoldable pub check_roles :
    ℕ → ℕ → Route → Requirement → ℕ → List Assignment → Table TribalUnit → ℕ → Option (Result Bool)
unfolding check_active
check_roles tenant now route requirement user rows units fuel =
    check_active tenant now user rows route requirement units fuel
      (active_assignments tenant now user rows)

-- the units are those of each tenant
abbrev pub check_requirement :
    ℕ
    → Route
    → User
    → Requirement
    → List Assignment
    → (ℕ → Table TribalUnit)
    → ℕ
    → Option (Result Bool)
check_requirement now route user requirement rows units fuel = elim user.tenant_id [
  | none ↦ some (fail (forbidden forbidden_key))
  | some tenant ↦
      if user.is_super_admin
      then some (ok true)
      else check_roles tenant now route requirement user.id rows (units tenant) fuel
]

unfoldable pub can_activate :
    ℕ → Route → List Assignment → (ℕ → Table TribalUnit) → ℕ → Option (Result Bool)
unfolding check_roles
can_activate now route rows units fuel =
    if route.is_public then some (ok true) else elim route.user [
      | none ↦ some (fail (unauthorized unauthorized_key))
      | some user ↦
          if route.super_admin_only
          then if user.is_super_admin then some (ok true) else some (fail (forbidden forbidden_key))
          else elim route.requirement [
            | none ↦ some (ok true)
            | some requirement ↦ check_requirement now route user requirement rows units fuel
          ]
    ]
