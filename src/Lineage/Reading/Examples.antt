-- ===== src/Lineage/Reading/Examples.antt =====
-- The tree below the only person of a tribe, for a viewer with the scope of the tribe.
use tftsp.Common.{◌≡◌, refl, true, false, none, [], ok}
use tftsp.Database.{Db}
use tftsp.Persons.Sample.{example_env, empty_db, empty_db-IsConsistent, adam_dto}
use tftsp.Persons.Fields.{build_full_name, parse_partial_date, new_person}
use tftsp.Persons.Writes.{
  create_in_tx, insert_in_tx, insert_person, validate_parents, validate_father, validate_mother,
  has_duplicates,
}
use tftsp.Persons.Creating.{create_in_tx-IsConsistent}
use tftsp.Visibility.{ViewerContext, is_visible, in_scope, passes_policies, hidden, tribe_scope}
use tftsp.Lineage.Reading.{get_tree, tree_of, find_visible, TreeResponse}
use tftsp.Lineage.Reading.Trees.{visible}
use tftsp.Lineage.Reading.Windows.{Shows, get_tree-Shows}

abbrev adam_db : Db
adam_db = (create_in_tx example_env adam_dto none none empty_db).1

created : create_in_tx example_env adam_dto none none empty_db ≡ (ok 1, adam_db)
unfolding create_in_tx validate_parents validate_father validate_mother parse_partial_date
    insert_in_tx insert_person new_person build_full_name has_duplicates
created = refl

abbrev member : ViewerContext
member = record {
  bypass_policies = false;
  scope = tribe_scope;
  unit_ids = [];
  direct_person_ids = [];
  settings = record {
    show_deceased = true;
    show_minors = true;
    show_photos = false;
    show_birth_dates = false;
    women_display = hidden;
  };
}

abbrev adam_tree : TreeResponse
adam_tree = tree_of member 0 adam_db 1 3

answered : get_tree member 0 1 3 adam_db ≡ (ok adam_tree, adam_db)
unfolding get_tree find_visible is_visible in_scope passes_policies create_in_tx validate_parents
    validate_father validate_mother parse_partial_date insert_in_tx insert_person new_person
    build_full_name has_duplicates
answered = refl

get_tree-Shows_example :
    (adam_db ≡ adam_db) × (visible member 0 adam_db 1 ≡ true) × Shows member 0 adam_db 1 3 adam_tree
get_tree-Shows_example =
    get_tree-Shows member 0 adam_db 1 3
      (create_in_tx-IsConsistent example_env adam_dto none none empty_db empty_db-IsConsistent
        created)
      answered
