-- ===== src/Rbac/Examples.antt =====
-- Runs of the guard: unit 2 under unit 1, and a branch administrator of unit 1.
use tftsp.Common.{
  ℕ, ◌≡◌, ◌≢◌, ◌<◌, refl, false, Option, none, some, [], ◌∷◌, arith, empty_table, insert_row, text,
  Table, if◌then◌else◌, ◌==◌,
}
use tftsp.Domain.{branch_admin, clan}
use tftsp.Database.{TribalUnit}
use tftsp.Rbac.{Assignment, tribal_unit_scope, person_create, permission_matrix}
use tftsp.Rbac.Guard.{
  climbs_to, can_activate, check_roles, check_active, check_matching, Route,
  check_tribal_unit_scope,
}
use tftsp.Rbac.Scope.{IsUnder, climbs_to_ends}
use tftsp.Rbac.Granting.{Grant, can_activate-Grant}

abbrev two_units : ℕ → Option ℕ
two_units x = if x == 2 then some 1 else none

under : IsUnder two_units 2 1
under = IsUnder.below refl IsUnder.itself

abbrev depth : ℕ → ℕ
depth x = if x == 2 then 1 else 0

depth_falls : (x y : ℕ) → two_units x ≡ some y → depth y < depth x
depth_falls x y e = ground arith

climbs_to_ends_example : climbs_to two_units (5 ∷ []) 3 (some 2) ≢ none
climbs_to_ends_example = climbs_to_ends two_units (5 ∷ []) depth depth_falls 3 2 (omega arith)

abbrev example_route : Route
example_route = record {
  is_public = false;
  user = some (record { id = 8; tenant_id = some 7; is_super_admin = false });
  super_admin_only = false;
  requirement = some (record { permission = person_create; scope = tribal_unit_scope });
  body_unit = some 2;
  param_unit = none;
}

abbrev branch_assignment : Assignment
branch_assignment = record {
  tenant_id = 7;
  user_id = 8;
  role = branch_admin;
  tribal_unit_id = some 1;
  valid_from = 0;
  valid_to = none;
}

abbrev a_unit : Option ℕ → TribalUnit
a_unit parent = record {
  parent_id = parent;
  unit_type = clan;
  name_ar = text "a";
  name_en = text "a";
}

-- unit 1 of tenant 7, and unit 2 under it
abbrev units_of : ℕ → Table TribalUnit
units_of tenant = insert_row 2 (a_unit (some 1)) (insert_row 1 (a_unit none) empty_table)

can_activate-Grant_example : Grant 100 example_route (branch_assignment ∷ []) units_of
unfolding can_activate check_roles check_active check_matching permission_matrix
    check_tribal_unit_scope climbs_to
can_activate-Grant_example =
    can_activate-Grant 100 example_route (branch_assignment ∷ []) units_of 3 refl
