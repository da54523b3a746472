-- ===== src/Subscriptions/Examples.antt =====
-- A tenant without a subscription has the free plan.
use tftsp.Common.{◌+◌, ◌≡◌, ◌≤◌, refl, none, ok}
use tftsp.Database.{Db}
use tftsp.Persons.Sample.{adam_dto, example_env, empty_db, empty_db-IsConsistent}
use tftsp.Persons.Consistency.{IsConsistent}
use tftsp.Persons.Fields.{build_full_name, parse_partial_date, new_person}
use tftsp.Persons.Writes.{
  create_in_tx, insert_in_tx, insert_person, validate_parents, validate_father, validate_mother,
  has_duplicates,
}
use tftsp.Subscriptions.{create_person, create_person-le-max, person_count, assert_can_add_persons}

abbrev adam_db : Db
adam_db = (create_person example_env none adam_dto empty_db).1

created : create_person example_env none adam_dto empty_db ≡ (ok 1, adam_db)
unfolding create_person assert_can_add_persons create_in_tx validate_parents validate_father
    validate_mother parse_partial_date insert_in_tx insert_person new_person build_full_name
    has_duplicates
created = refl

create_person-le-max_example :
    (person_count adam_db ≡ person_count empty_db + 1)
    × (person_count adam_db ≤ 500)
    × IsConsistent adam_db
create_person-le-max_example =
    create_person-le-max example_env none adam_dto empty_db 500 refl empty_db-IsConsistent refl
      created
