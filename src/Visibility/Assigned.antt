-- ===== src/Visibility/Assigned.antt =====
-- visibility.resolver.ts `buildContext`: the loop over the assignments against what each of them is for.
use tftsp.Common.{
  ℕ, ◌≡◌, refl, sym, ◌∙◌, Bool, true, false, Option, none, some, List, [], ◌∷◌, ◌++◌, ◌||◌, any,
  arith, append-nil, append_assoc,
}
use tftsp.Domain.{Role, tribe_admin, deputy_admin, branch_admin}
use tftsp.Visibility.Context.{
  MemberScope, direct_members, clan_members, branch_members, tribe_members, Membership, Collected,
  collect, collect_one, by_scope, append_if_any,
}

-- what an assignment is for: the whole tribe, the unit it names with those below, or the relatives
pub data Extent : Type 0 where
  whole_tribe own_units relatives : Extent

abbrev by_member_scope : MemberScope → Extent
by_member_scope tribe_members = whole_tribe
by_member_scope branch_members = own_units
by_member_scope clan_members = own_units
by_member_scope direct_members = relatives

-- administrators of the tribe and deputies have all of it, those of a branch its units, and everybody else
-- what the assignment says, or the settings where it says nothing
abbrev pub extent_of : Role → Option MemberScope → MemberScope → Extent
extent_of tribe_admin own default_scope = whole_tribe
extent_of deputy_admin own default_scope = whole_tribe
extent_of branch_admin own default_scope = own_units
extent_of _ none default_scope = by_member_scope default_scope
extent_of _ (some own) default_scope = by_member_scope own

abbrev is_tribe : Extent → Bool
is_tribe whole_tribe = true
is_tribe _ = false

abbrev is_units : Extent → Bool
is_units own_units = true
is_units _ = false

abbrev extent : MemberScope → Membership → Extent
extent d a = extent_of a.role a.member_scope d

abbrev pub for_tribe : MemberScope → Membership → Bool
for_tribe d a = is_tribe (extent d a)

abbrev pub for_units : MemberScope → Membership → Bool
for_units d a = is_units (extent d a)

abbrev unit_list : Extent → Option ℕ → List ℕ
unit_list own_units (some u) = u ∷ []
unit_list _ _ = []

-- the units that the assignments for units name
abbrev pub assigned_units : MemberScope → List Membership → List ℕ
assigned_units d [] = []
assigned_units d (a ∷ rows) = unit_list (extent d a) a.tribal_unit_id ++ assigned_units d rows

-- what one round of the loop adds
abbrev Adds : Extent → Option ℕ → Collected → Collected → Type 0
Adds e unit c c' =
    (c'.any_tribe ≡ (c.any_tribe || is_tribe e))
    × (c'.any_unit ≡ (c.any_unit || is_units e))
    × (c'.unit_anchors ≡ (c.unit_anchors ++ unit_list e unit))

by_scope-Adds :
    (s : MemberScope) (unit : Option ℕ) (c : Collected)
    → Adds (by_member_scope s) unit c (by_scope s unit c)
by_scope-Adds tribe_members unit c = (ground arith, ground arith, sym (append-nil c.unit_anchors))
by_scope-Adds branch_members none c = (ground arith, ground arith, sym (append-nil c.unit_anchors))
by_scope-Adds branch_members (some u) c = (ground arith, ground arith, refl)
by_scope-Adds clan_members none c = (ground arith, ground arith, sym (append-nil c.unit_anchors))
by_scope-Adds clan_members (some u) c = (ground arith, ground arith, refl)
by_scope-Adds direct_members unit c = (ground arith, ground arith, sym (append-nil c.unit_anchors))

collect_one-Adds :
    (d : MemberScope) (r : Role) (unit anchor : Option ℕ) (own : Option MemberScope) (c : Collected)
    → Adds (extent_of r own d) unit c (
        collect_one d
          (record {
            role = r;
            tribal_unit_id = unit;
            anchor_person_id = anchor;
            member_scope = own;
          })
          c)
unfolding collect_one
collect_one-Adds d tribe_admin unit anchor own c =
    (ground arith, ground arith, sym (append-nil c.unit_anchors))
collect_one-Adds d deputy_admin unit anchor own c =
    (ground arith, ground arith, sym (append-nil c.unit_anchors))
collect_one-Adds d branch_admin none anchor own c =
    (ground arith, ground arith, sym (append-nil c.unit_anchors))
collect_one-Adds d branch_admin (some u) anchor own c = (ground arith, ground arith, refl)
collect_one-Adds d _ unit anchor none c =
    by_scope-Adds d unit (record c { person_anchors = append_if_any c.person_anchors anchor })
collect_one-Adds d _ unit anchor (some own) c =
    by_scope-Adds own unit (record c { person_anchors = append_if_any c.person_anchors anchor })

-- what the whole loop adds
pub collect-Adds :
    (d : MemberScope) (rows : List Membership) (c : Collected)
    → ((collect d rows c).any_tribe ≡ (c.any_tribe || any (for_tribe d) rows))
      × ((collect d rows c).any_unit ≡ (c.any_unit || any (for_units d) rows))
      × ((collect d rows c).unit_anchors ≡ (c.unit_anchors ++ assigned_units d rows))
unfolding collect
collect-Adds d [] c = (ground arith, ground arith, sym (append-nil c.unit_anchors))
collect-Adds d (a ∷ rows) c =
    let (t₁, u₁, l₁) =
      collect_one-Adds d a.role a.tribal_unit_id a.anchor_person_id a.member_scope c in
    let (t, u, l) = collect-Adds d rows (collect_one d a c) in
    (
      t ∙ rw t₁ (ground arith),
      u ∙ rw u₁ (ground arith),
      l
          ∙ rw l₁ (
              append_assoc c.unit_anchors (unit_list (extent d a) a.tribal_unit_id)
                (assigned_units d rows)),
    )
