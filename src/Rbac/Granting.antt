-- ===== src/Rbac/Granting.antt =====
-- common/guards/policy.guard.ts: what `canActivate` grants.
use tftsp.Common.{
  ℕ, ◌≡◌, ◌&&◌, refl, true, false, none, some, List, [], ◌∷◌, filter, arith, Bool-cases,
  Option-cases, inl, inr, ok, Table, ◌==◌, subst,
}
use tftsp.Domain.{tribe_admin, deputy_admin, includes_role, super_admin, guest, platform_admin}
use tftsp.Database.{TribalUnit}
use tftsp.Rbac.{
  Permission, person_read, permission_matrix, Assignment, active_assignments, is_active,
  tribal_unit_scope,
}
use tftsp.Rbac.Guard.{check_active, allows, Route, User, Requirement, check_roles, can_activate}
use tftsp.Rbac.Reaching.{Stands, Gives, Reaches, Stands-filter, check_matching-Reaches}

-- Every permission is given to tribe and deputy administrators, and to no super admin, platform
-- admin or guest by the matrix.
pub permission_matrix-roles :
    (p : Permission)
    → (includes_role (permission_matrix p) tribe_admin ≡ true)
      × (includes_role (permission_matrix p) deputy_admin ≡ true)
      × (includes_role (permission_matrix p) super_admin ≡ false)
      × (includes_role (permission_matrix p) platform_admin ≡ false)
      × (includes_role (permission_matrix p) guest ≡ false)
unfolding permission_matrix
permission_matrix-roles person_read = (refl, refl, refl, refl, refl)
permission_matrix-roles _ = (refl, refl, refl, refl, refl)

-- a row that lets the user in
pub record Admits (tenant now user : ℕ) (route : Route) (q : Requirement) (rows : List Assignment)
    (units : Table TribalUnit) : Type 0 where
  row : Assignment
  stands : Stands row rows
  gives : Gives tenant now user q.permission row
  reaches : q.scope ≡ tribal_unit_scope → Reaches route units row

module _ (tenant now : ℕ) (route : Route) (q : Requirement) (user : ℕ) (rows : List Assignment)
    (units : Table TribalUnit) (fuel : ℕ) where
  check_active-Admits :
      check_active tenant now user rows route q units fuel (active_assignments tenant now user rows)
        ≡ some (ok true)
      → Admits tenant now user route q rows units
  unfolding check_active
  check_active-Admits h = go (active_assignments tenant now user rows) refl h
    where
      go :
          (active : List Assignment)
          → active ≡ active_assignments tenant now user rows
          → check_active tenant now user rows route q units fuel active ≡ some (ok true)
          → Admits tenant now user route q rows units
      go [] e c = cc
      go (a ∷ active) e c =
          let (b, s, r) =
            check_matching-Reaches route units fuel q.scope
              (filter (allows q.permission) (a ∷ active)) c in
          let (s₁, m) = Stands-filter (allows q.permission) (a ∷ active) s in
          let (s₂, f) =
            Stands-filter (λ a. (a.tenant_id == tenant) && ((a.user_id == user) && is_active now a))
              rows (subst (Stands b) e s₁) in
          record {
            row = b;
            stands = s₂;
            gives = record {
              of_tenant = ground arith;
              of_user = ground arith;
              started = ground arith;
              not_ended = λ end w. ground arith;
              by_matrix = m;
            };
            reaches = r;
          }

-- Why a route is granted: it is public; or it asks for no permission and is not for super admins only; or
-- the user is a super admin and the route is for these only, or he has selected a tenant; or one of his
-- assignments in the tenant he has selected gives him the permission, within the scope asked for.
pub data Grant (now : ℕ) (route : Route) (rows : List Assignment) (units : ℕ → Table TribalUnit)
    : Type 0 where
  open_to_all : route.is_public ≡ true → Grant now route rows units
  any_user :
      (u : User)
      → route.user ≡ some u
      → route.super_admin_only ≡ false
      → route.requirement ≡ none
      → Grant now route rows units
  platform_user :
      (u : User)
      → route.user ≡ some u
      → route.super_admin_only ≡ true
      → u.is_super_admin ≡ true
      → Grant now route rows units
  super_user :
      (u : User) (tenant : ℕ)
      → route.user ≡ some u
      → route.super_admin_only ≡ false
      → u.is_super_admin ≡ true
      → u.tenant_id ≡ some tenant
      → Grant now route rows units
  by_role :
      (u : User) (q : Requirement) (tenant : ℕ)
      → route.user ≡ some u
      → route.super_admin_only ≡ false
      → u.tenant_id ≡ some tenant
      → route.requirement ≡ some q
      → Admits tenant now u.id route q rows (units tenant)
      → Grant now route rows units

-- Whoever the guard lets through has one of the reasons that `Grant` lists: a public route; a user and a
-- route without a requirement that is not for super admins only; a super admin on a route for these, or with
-- a tenant selected; or an assignment on record of this user in his tenant, valid now, whose role the
-- matrix gives the permission, and which reaches the unit of the request where the route asks for that scope.
pub can_activate-Grant :
    (now : ℕ) (route : Route) (rows : List Assignment) (units : ℕ → Table TribalUnit) (fuel : ℕ)
    → can_activate now route rows units fuel ≡ some (ok true)
    → Grant now route rows units
unfolding can_activate check_roles
can_activate-Grant now route rows units fuel h = elim (Bool-cases route.is_public) [
  | inl e ↦ open_to_all e
  | inr e ↦ elim (Option-cases route.user) [
    | inl n ↦ ground arith
    | inr (u, w) ↦ elim (Bool-cases route.super_admin_only) [
      | inl o ↦ platform_user u w o (ground arith)
      | inr o ↦ elim (Option-cases route.requirement) [
        | inl r ↦ any_user u w o r
        | inr (q, r) ↦ elim (Option-cases u.tenant_id) [
          | inl t ↦ ground arith
          | inr (tenant, t) ↦ elim (Bool-cases u.is_super_admin) [
            | inl s ↦ super_user u tenant w o s t
            | inr s ↦ by_role u q tenant w o t r (
                check_active-Admits tenant now route q u.id rows (units tenant) fuel (ground arith))
          ]
        ]
      ]
    ]
  ]
]
