-- ===== src/Visibility/Viewer.antt =====
-- visibility.resolver.ts `buildContext`: the context of a viewer from the rows on record.
use tftsp.Common.{
  ℕ, ◌≡◌, refl, sym, ap, subst, ◌∙◌, Bool, true, false, Option, none, some, List, [], ◌∷◌, ◌++◌,
  ◌&&◌, ◌||◌, not, if◌then◌else◌, mem, select_ids, Option-cases, inl, inr, arith, any, ◌≤◌, ◌↔◌,
}
use tftsp.Database.{Db, Person}
use tftsp.Lineage.{Closure}
use tftsp.Visibility.{
  ViewerContext, VisibilitySettings, ScopeKind, tribe_scope, unit_scope, direct_scope, empty_scope,
  is_hidden, is_visible, in_scope, filter_persons,
}
use tftsp.Visibility.Context.{
  MemberScope, VisibilityLevel, admin_level, Membership, Collected, nothing, collect, scope_of,
  expand, children_of,
}
use tftsp.Visibility.Bypass.{is_administrator, scope_of-collect, collect-bypass_policies}
use tftsp.Visibility.Assigned.{for_tribe, for_units, assigned_units, collect-Adds}
use tftsp.Visibility.Subtrees.{Reached}
use tftsp.Visibility.Fuel.{search_fuel, expand-Reached}

-- what the resolver knows of the caller: a super admin, nobody, or a user with his active assignments
pub data Caller : Type 0 where
  super_admin anonymous : Caller
  member : List Membership → Caller

abbrev opt_in : Option ℕ → List ℕ → Bool
opt_in none ids = false
opt_in (some x) ids = mem x ids

abbrev ancestors_in : List ℕ → Closure → List ℕ
ancestors_in anchors [] = []
ancestors_in anchors (r ∷ t) =
    let rest = ancestors_in anchors t in
    if mem r.descendant anchors then r.ancestor ∷ rest else rest

abbrev with_parent_in : List ℕ → Db → List ℕ
with_parent_in ids db =
    select_ids (λ (p : Person). opt_in p.father_id ids || opt_in p.mother_id ids) db.persons

abbrev and_id : Option ℕ → List ℕ → List ℕ
and_id none ids = ids
and_id (some x) ids = x ∷ ids

abbrev parents_of : Db → List ℕ → List ℕ
parents_of db [] = []
parents_of db (x ∷ xs) =
    let rest = parents_of db xs in
    elim (db.persons.at x) [ none ↦ rest | some p ↦ and_id p.father_id (and_id p.mother_id rest) ]

-- `computeDirectRelatives`: the anchors, their ancestors, children and siblings
unfoldable pub direct_relatives : Db → List ℕ → List ℕ
direct_relatives db anchors =
    anchors
    ++ (ancestors_in anchors db.closures
        ++ (with_parent_in anchors db ++ with_parent_in (parents_of db anchors) db))

abbrev is_direct : ScopeKind → Bool
is_direct direct_scope = true
is_direct _ = false

abbrev is_unit : ScopeKind → Bool
is_unit unit_scope = true
is_unit _ = false

abbrev context : Bool → ScopeKind → List ℕ → List ℕ → VisibilitySettings → ViewerContext
context bypass scope units people settings = record {
  bypass_policies = bypass;
  scope = scope;
  unit_ids = units;
  direct_person_ids = people;
  settings = settings;
}

-- `expandSubtrees` where the scope is that of units, with fuel for its queue
abbrev units_for : Db → ℕ → Collected → Option (List ℕ)
units_for db fuel c =
    if not c.any_tribe && c.any_unit
    then expand (children_of db.units) fuel c.unit_anchors []
    else some []

abbrev relatives_for : Db → VisibilitySettings → ScopeKind → Collected → List ℕ
relatives_for db settings scope c =
    if not c.bypass_policies && (is_direct scope || is_hidden settings.women_display)
    then direct_relatives db c.person_anchors
    else []

abbrev member_context :
    Db → ℕ → VisibilityLevel → VisibilitySettings → Collected → Option ViewerContext
member_context db fuel level settings c = elim (units_for db fuel c) [
  | none ↦ none
  | some units ↦ some (
      context c.bypass_policies (scope_of level c) units
        (relatives_for db settings (scope_of level c) c) settings)
]

-- `buildContext`; `none` where the fuel runs out
unfoldable pub build_context :
    Db → ℕ → VisibilityLevel → MemberScope → VisibilitySettings → Caller → Option ViewerContext
unfolding collect scope_of expand direct_relatives
build_context db fuel level default_scope settings super_admin =
    some (context true tribe_scope [] [] settings)
build_context db fuel level default_scope settings anonymous =
    some (context false empty_scope [] [] settings)
build_context db fuel level default_scope settings (member []) =
    some (context false empty_scope [] [] settings)
build_context db fuel level default_scope settings (member (a ∷ rows)) =
    member_context db fuel level settings (collect default_scope (a ∷ rows) nothing)

out_of_scope :
    (ctx : ViewerContext) (eighteen : ℕ)
    → ctx.scope ≡ empty_scope
    → (people : List (ℕ × Person)) → filter_persons ctx eighteen people ≡ []
unfolding filter_persons is_visible in_scope
out_of_scope ctx eighteen e [] = refl
out_of_scope ctx eighteen e ((x, p) ∷ people) =
    ground (arith, e, out_of_scope ctx eighteen e people)

member_context-scope :
    (db : Db) (fuel : ℕ) (level : VisibilityLevel) (settings : VisibilitySettings) (c : Collected)
    {ctx : ViewerContext}
    → member_context db fuel level settings c ≡ some ctx
    → ctx.scope ≡ scope_of level c
member_context-scope db fuel level settings c {ctx} h = elim (Option-cases (units_for db fuel c)) [
  | inl e ↦ let stuck : none ≡ some ctx = sym (rw (e, member_context) refl) ∙ h in cc
  | inr (units, e) ↦
      let same : context c.bypass_policies (scope_of level c) units
            (relatives_for db settings (scope_of level c) c) settings
          ≡ ctx =
        ground (arith, e, h) in
      ap (λ (v : ViewerContext). v.scope) (sym same)
]

-- At the level of administrators nobody is shown to a user none of whose active assignments is that of
-- an administrator of the tribe, of a deputy or of an administrator of a branch.
pub build_context-hides :
    (db : Db) (fuel : ℕ) (d : MemberScope) (settings : VisibilitySettings) (rows : List Membership)
    (eighteen : ℕ) (people : List (ℕ × Person)) {ctx : ViewerContext}
    → any is_administrator rows ≡ false
    → build_context db fuel admin_level d settings (member rows) ≡ some ctx
    → filter_persons ctx eighteen people ≡ []
unfolding build_context
build_context-hides db fuel d settings [] eighteen people {ctx} none_of h =
    out_of_scope ctx eighteen (ground (arith, h)) people
build_context-hides db fuel d settings (a ∷ rows) eighteen people {ctx} none_of h =
    let c = collect d (a ∷ rows) nothing in
    out_of_scope ctx eighteen
      (member_context-scope db fuel admin_level settings c h
        ∙ scope_of-collect d (a ∷ rows) none_of)
      people

scope_of-units :
    (level : VisibilityLevel) (c : Collected)
    → (level ≡ admin_level → c.bypass_policies ≡ true)
    → c.any_tribe ≡ false
    → c.any_unit ≡ true
    → scope_of level c ≡ unit_scope
unfolding scope_of
scope_of-units admin_level c allowed t u = rw (allowed refl, t, u) refl
scope_of-units _ c allowed t u = rw (t, u) refl

-- Let no assignment of a user be for the whole tribe and one be for units (an administrator of a branch, or
-- another role than the tribe's administrators with a scope, its own or the default one, of a branch or a
-- clan), and, at the level of administrators, one be an administrator's. With the fuel of `search_fuel` his
-- context is then found, and in it are exactly the persons of the units that the assignments for units name
-- and of the units below those.
pub build_context-Reached :
    (db : Db) (fuel : ℕ) (level : VisibilityLevel) (d : MemberScope) (settings : VisibilitySettings)
    (a : Membership) (rows : List Membership)
    → (level ≡ admin_level → any is_administrator (a ∷ rows) ≡ true)
    → any (for_tribe d) (a ∷ rows) ≡ false
    → any (for_units d) (a ∷ rows) ≡ true
    → search_fuel db.units (assigned_units d (a ∷ rows)) ≤ fuel
    → (ctx : ViewerContext) × (build_context db fuel level d settings (member (a ∷ rows))
        ≡ some ctx)
      × ((id : ℕ) (p : Person)
          → (in_scope ctx id p ≡ true) ↔ (
              (u : ℕ) × (p.tribal_unit_id ≡ some u)
              × Reached (children_of db.units) (assigned_units d (a ∷ rows)) u))
unfolding build_context in_scope scope_of
build_context-Reached db fuel level d settings a rows allowed no_tribe some_units enough =
    let c = collect d (a ∷ rows) nothing in
    let (tribe, units, anchors) = collect-Adds d (a ∷ rows) nothing in
    let (found, e, iff) =
      expand-Reached db.units c.unit_anchors fuel
        (subst (λ l. search_fuel db.units l ≤ fuel) (sym anchors) enough) in
    let scope =
      scope_of-units level c (λ q. collect-bypass_policies d (a ∷ rows) ∙ allowed q)
        (tribe ∙ no_tribe) (units ∙ some_units) in
    let flags : (not c.any_tribe && c.any_unit) ≡ true =
      rw (tribe ∙ no_tribe, units ∙ some_units) refl in
    let ctx =
      context c.bypass_policies (scope_of level c) found
        (relatives_for db settings (scope_of level c) c) settings in
    (
      ctx,
      ground (arith, flags, e),
      λ id p. (
        (λ h. elim (Option-cases p.tribal_unit_id) [
          | inl n ↦ ground (arith, scope, n, h)
          | inr (u, n) ↦ (
            u,
            n,
            subst (λ l. Reached (children_of db.units) l u) anchors
                ((iff u).0 (ground (arith, scope, n, h))),
          )
        ]),
        λ (u, n, r).
            let m = (iff u).1 (subst (λ l. Reached (children_of db.units) l u) (sym anchors) r) in
            ground (arith, scope, n, m),
      ),
    )
