-- ===== src/Visibility/Examples.antt =====
-- Runs of the visibility resolver, for a member who sees the tribe without photos and birth dates.
use tftsp.Common.{
  Table, insert_row, empty_table, mem, ◌↔◌, arith, ℕ, ◌≡◌, refl, true, false, Option, none, some,
  List, [], ◌∷◌, text, Text,
}
use tftsp.Database.{Person, TribalUnit}
use tftsp.Visibility.Fuel.{waiting, expand-Reached}
use tftsp.Visibility.Subtrees.{Reached}
use tftsp.Domain.{branch_admin, reviewer, clan}
use tftsp.Visibility.Context.{expand, children_of, Membership, tribe_members}
use tftsp.Persons.Sample.{sample_person}
use tftsp.Visibility.{ViewerContext, tribe_scope, with_siblings, filter_persons}
use tftsp.Visibility.Secrecy.{with_photos, filter_persons-with_photos}

abbrev member : ViewerContext
member = record {
  bypass_policies = false;
  scope = tribe_scope;
  unit_ids = [];
  direct_person_ids = [];
  settings = record {
    show_deceased = true;
    show_minors = true;
    show_photos = false;
    show_birth_dates = false;
    women_display = with_siblings;
  };
}

abbrev rows : List (ℕ × Person)
rows = (1, sample_person) ∷ []

abbrev some_photo : ℕ → Option Text
some_photo id = some (text "photo")

abbrev some_birth : ℕ → Option ℕ
some_birth id = some 12

filter_persons-with_photos_example :
    filter_persons member 100 (with_photos some_photo rows) ≡ filter_persons member 100 rows
filter_persons-with_photos_example = filter_persons-with_photos member 100 refl refl some_photo rows

-- a reviewer of the tribe and the administrator of branch 4
abbrev reviewing_member : Membership
reviewing_member = record {
  role = reviewer;
  tribal_unit_id = none;
  anchor_person_id = some 1;
  member_scope = some tribe_members;
}

abbrev branch_administrator : Membership
branch_administrator = record {
  role = branch_admin;
  tribal_unit_id = some 4;
  anchor_person_id = none;
  member_scope = none;
}

-- units 2 and 3 are each the parent of the other, 4 is below 3
abbrev unit_below : ℕ → TribalUnit
unit_below parent = record {
  parent_id = some parent;
  unit_type = clan;
  name_ar = text "";
  name_en = text "";
}

abbrev cyclic_units : Table TribalUnit
cyclic_units =
    insert_row 2 (unit_below 3)
      (insert_row 3 (unit_below 2) (insert_row 4 (unit_below 3) empty_table))

expand-Reached_example :
    (found : List ℕ) × (expand (children_of cyclic_units) 20 (2 ∷ []) [] ≡ some found)
    × ((x : ℕ) → (mem x found ≡ true) ↔ Reached (children_of cyclic_units) (2 ∷ []) x)
unfolding waiting
expand-Reached_example = expand-Reached cyclic_units (2 ∷ []) 20 (omega arith)
