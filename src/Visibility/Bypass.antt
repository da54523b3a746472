-- ===== src/Visibility/Bypass.antt =====
-- visibility.resolver.ts `buildContext`: who escapes the policies of a tribe.
use tftsp.Common.{
  ℕ, ◌≡◌, refl, Bool, false, Option, List, [], ◌∷◌, ◌||◌, any, arith, Bool-cases, or_else, inl, inr,
}
use tftsp.Domain.{branch_admin, includes_role}
use tftsp.Visibility.{empty_scope}
use tftsp.Visibility.Context.{
  MemberScope, Membership, Collected, collect, collect_one, nothing, direct_members, clan_members,
  branch_members, tribe_members, admin_full, by_scope, append_if_any, scope_of, admin_level,
}

abbrev pub is_administrator : Membership → Bool
is_administrator a = includes_role admin_full a.role || includes_role (branch_admin ∷ []) a.role

by_scope-bypass_policies :
    (s : MemberScope) (unit : Option ℕ) (c : Collected) {b : Bool}
    → c.bypass_policies ≡ b
    → (by_scope s unit c).bypass_policies ≡ (b || false)
by_scope-bypass_policies tribe_members unit c h = ground (arith, h)
by_scope-bypass_policies branch_members unit c h = ground (arith, h)
by_scope-bypass_policies clan_members unit c h = ground (arith, h)
by_scope-bypass_policies direct_members unit c h = ground (arith, h)

collect_one-bypass_policies :
    (d : MemberScope) (a : Membership) (c : Collected)
    → (collect_one d a c).bypass_policies ≡ (c.bypass_policies || is_administrator a)
unfolding collect_one
collect_one-bypass_policies d a c = elim (Bool-cases (includes_role admin_full a.role)) [
  | inl e ↦ rw e (ground arith)
  | inr e ↦ rw e (elim (Bool-cases (includes_role (branch_admin ∷ []) a.role)) [
    | inl f ↦ rw f (ground arith)
    | inr f ↦ rw f (
        by_scope-bypass_policies (or_else a.member_scope d) a.tribal_unit_id
          (record c { person_anchors = append_if_any c.person_anchors a.anchor_person_id }) refl)
  ])
]

collect-bypass_policies_from :
    (d : MemberScope) (rows : List Membership) (c : Collected)
    → (collect d rows c).bypass_policies ≡ (c.bypass_policies || any is_administrator rows)
unfolding collect
collect-bypass_policies_from d [] c = ground arith
collect-bypass_policies_from d (a ∷ rows) c =
    rw (collect-bypass_policies_from d rows (collect_one d a c))
      (rw (collect_one-bypass_policies d a c) (ground arith))

-- A viewer escapes the policies of the tribe exactly where one of his assignments is that of an
-- administrator of the tribe, of a deputy or of an administrator of a branch.
pub collect-bypass_policies :
    (d : MemberScope) (rows : List Membership)
    → (collect d rows nothing).bypass_policies ≡ any is_administrator rows
collect-bypass_policies d rows = collect-bypass_policies_from d rows nothing

-- At the level of administrators, a user none of whose assignments is that of an administrator of
-- the tribe, of a deputy or of an administrator of a branch has no scope.
pub scope_of-collect :
    (d : MemberScope) (rows : List Membership)
    → any is_administrator rows ≡ false
    → scope_of admin_level (collect d rows nothing) ≡ empty_scope
unfolding scope_of
scope_of-collect d rows h =
    let same = collect-bypass_policies d rows in
    let closed : (collect d rows nothing).bypass_policies ≡ false = cc in rw closed refl
