-- ===== src/Visibility/Context.antt =====
-- visibility.resolver.ts `buildContext`: what the active assignments of a user let him see.
use tftsp.Common.{
  ℕ, zero, suc, Bool, true, false, Option, none, some, List, [], ◌∷◌, ◌++◌, ◌&&◌, not,
  if◌then◌else◌, mem, or_else, opt_eq, Table, select_ids,
}
use tftsp.Domain.{Role, tribe_admin, deputy_admin, branch_admin, includes_role}
use tftsp.Database.{TribalUnit}
use tftsp.Visibility.{ScopeKind, tribe_scope, unit_scope, direct_scope, empty_scope}

pub data MemberScope : Type 0 where
  direct_members clan_members branch_members tribe_members : MemberScope

pub data VisibilityLevel : Type 0 where
  public_level members_level family_level branch_level admin_level : VisibilityLevel

-- an active assignment, as far as the resolver reads it
pub record Membership : Type 0 where
  pub role : Role
  pub tribal_unit_id : Option ℕ
  pub anchor_person_id : Option ℕ
  pub member_scope : Option MemberScope

-- what the loop over the assignments collects
pub record Collected : Type 0 where
  pub bypass_policies : Bool
  pub any_tribe : Bool
  pub any_unit : Bool
  pub any_direct : Bool
  pub unit_anchors : List ℕ
  pub person_anchors : List ℕ

abbrev pub nothing : Collected
nothing = record {
  bypass_policies = false;
  any_tribe = false;
  any_unit = false;
  any_direct = false;
  unit_anchors = [];
  person_anchors = [];
}

abbrev pub append_if_any : List ℕ → Option ℕ → List ℕ
append_if_any ids none = ids
append_if_any ids (some id) = ids ++ id ∷ []

abbrev pub admin_full : List Role
admin_full = tribe_admin ∷ deputy_admin ∷ []

-- by the scope of a member
abbrev pub by_scope : MemberScope → Option ℕ → Collected → Collected
by_scope tribe_members unit c = record c { any_tribe = true }
by_scope branch_members unit c = record c {
  any_unit = true;
  unit_anchors = append_if_any c.unit_anchors unit;
}
by_scope clan_members unit c = record c {
  any_unit = true;
  unit_anchors = append_if_any c.unit_anchors unit;
}
by_scope direct_members unit c = record c { any_direct = true }

-- one round of the loop
unfoldable pub collect_one : MemberScope → Membership → Collected → Collected
collect_one default_scope a c =
    let c' = record c { person_anchors = append_if_any c.person_anchors a.anchor_person_id } in
    if includes_role admin_full a.role
    then record c' { bypass_policies = true; any_tribe = true }
    else if includes_role (branch_admin ∷ []) a.role
    then record c' {
      bypass_policies = true;
      any_unit = true;
      unit_anchors = append_if_any c'.unit_anchors a.tribal_unit_id;
    }
    else by_scope (or_else a.member_scope default_scope) a.tribal_unit_id c'

unfoldable pub collect : MemberScope → List Membership → Collected → Collected
unfolding collect_one
collect default_scope [] c = c
collect default_scope (a ∷ rows) c = collect default_scope rows (collect_one default_scope a c)

abbrev pub children_of : Table TribalUnit → ℕ → List ℕ
children_of units parent = select_ids (λ u. opt_eq u.parent_id (some parent)) units

-- the queue of `expandSubtrees`; `none` where the fuel runs out before the queue is empty
unfoldable pub expand : (ℕ → List ℕ) → ℕ → List ℕ → List ℕ → Option (List ℕ)
expand children zero [] result = some result
expand children zero (id ∷ queue) result = none
expand children (suc fuel) [] result = some result
expand children (suc fuel) (id ∷ queue) result = elim (mem id result) [
  | true ↦ expand children fuel queue result
  | false ↦ expand children fuel (queue ++ children id) (id ∷ result)
]

abbrev is_admin_level : VisibilityLevel → Bool
is_admin_level admin_level = true
is_admin_level _ = false

-- the scope before the units are expanded
unfoldable pub scope_of : VisibilityLevel → Collected → ScopeKind
scope_of level c =
    if is_admin_level level && not c.bypass_policies
    then empty_scope
    else if c.any_tribe
    then tribe_scope
    else if c.any_unit
    then unit_scope
    else if c.any_direct
    then direct_scope
    else empty_scope
