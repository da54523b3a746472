-- ===== src/Visibility/ViewerExamples.antt =====
-- The contexts of a member of a clan, on the unit 1 of a tribe.
use tftsp.Common.{
  ℕ, ◌≡◌, ◌↔◌, refl, true, false, none, some, [], ◌∷◌, empty_table, insert_row, text, arith,
}
use tftsp.Domain.{clan, viewer}
use tftsp.Database.{Db, Person}
use tftsp.Persons.Sample.{empty_db, sample_person}
use tftsp.Visibility.{
  ViewerContext, VisibilitySettings, empty_scope, hidden, in_scope, filter_persons,
}
use tftsp.Visibility.Context.{
  Membership, tribe_members, clan_members, collect, collect_one, scope_of, expand, children_of,
  members_level, admin_level,
}
use tftsp.Visibility.Subtrees.{Reached}
use tftsp.Visibility.Assigned.{assigned_units}
use tftsp.Visibility.Fuel.{search_fuel}
use tftsp.Visibility.Viewer.{
  Caller, direct_relatives, build_context, build_context-hides, build_context-Reached,
}

abbrev one_unit : Db
one_unit = record empty_db {
  units =
      insert_row 1
        (record { parent_id = none; unit_type = clan; name_ar = text "a"; name_en = text "a" })
        empty_table;
}

abbrev settings : VisibilitySettings
settings = record {
  show_deceased = true;
  show_minors = true;
  show_photos = false;
  show_birth_dates = false;
  women_display = hidden;
}

abbrev of_clan : Membership
of_clan = record {
  role = viewer;
  tribal_unit_id = some 1;
  anchor_person_id = none;
  member_scope = some clan_members;
}

build_context-Reached_example :
    (ctx : ViewerContext) × (build_context one_unit
        (search_fuel one_unit.units (assigned_units tribe_members (of_clan ∷ [])))
        members_level
        tribe_members
        settings
        (Caller.member (of_clan ∷ []))
      ≡ some ctx)
    × ((id : ℕ) (p : Person)
        → (in_scope ctx id p ≡ true) ↔ (
            (u : ℕ) × (p.tribal_unit_id ≡ some u)
            × Reached (children_of one_unit.units) (assigned_units tribe_members (of_clan ∷ [])) u))
build_context-Reached_example =
    build_context-Reached one_unit
      (search_fuel one_unit.units (assigned_units tribe_members (of_clan ∷ []))) members_level
      tribe_members settings of_clan [] (λ e. cc) refl refl (omega arith)

abbrev clan_context : ViewerContext
clan_context = record {
  bypass_policies = false;
  scope = empty_scope;
  unit_ids = 1 ∷ [];
  direct_person_ids = [];
  settings = settings;
}

built :
    build_context one_unit 5 admin_level tribe_members settings (Caller.member (of_clan ∷ []))
    ≡ some clan_context
unfolding build_context scope_of collect collect_one expand direct_relatives
built = refl

build_context-hides_example : filter_persons clan_context 0 ((1, sample_person) ∷ []) ≡ []
build_context-hides_example =
    build_context-hides one_unit 5 tribe_members settings (of_clan ∷ []) 0 ((1, sample_person) ∷ [])
      refl built
