-- ===== src/Persons/Examples.antt =====
-- Runs of the writers of persons on a tenant that starts empty.
use tftsp.Common.{◌≡◌, refl, none, some, ok, text}
use tftsp.Database.{Db}
use tftsp.Persons.Fields.{
  UpdatePersonDto, build_full_name, parse_partial_date, new_person, update_date, updated_person,
}
use tftsp.Persons.Writes.{
  create_in_tx, insert_in_tx, insert_person, validate_parents, validate_father, validate_mother,
  has_duplicates, update_in_tx, soft_delete_in_tx, move_if_changed, change_father, write_update,
  update_with_version, lineage_soft_delete, direct_children, detach_all,
}
use tftsp.Persons.Consistency.{IsConsistent}
use tftsp.Persons.Creating.{create_in_tx-IsConsistent}
use tftsp.Persons.Updating.{update_in_tx-IsConsistent}
use tftsp.Persons.Deleting.{soft_delete_in_tx-IsConsistent}
use tftsp.Persons.Sample.{adam_dto, example_env, empty_db, empty_db-IsConsistent}

-- the data after the first person
abbrev adam_db : Db
adam_db = (create_in_tx example_env adam_dto none none empty_db).1

created : create_in_tx example_env adam_dto none none empty_db ≡ (ok 1, adam_db)
unfolding create_in_tx validate_parents validate_father validate_mother parse_partial_date
    insert_in_tx insert_person new_person build_full_name has_duplicates
created = refl

create_in_tx-IsConsistent_example : IsConsistent adam_db
create_in_tx-IsConsistent_example =
    create_in_tx-IsConsistent example_env adam_dto none none empty_db empty_db-IsConsistent created

abbrev rename_dto : UpdatePersonDto
rename_dto = record {
  first_name = some (text "Idris");
  father_name = none;
  grandfather_name = none;
  family_name = none;
  laqab = none;
  gender = none;
  birth_date = none;
  birth_place = none;
  death_date = none;
  is_deceased = none;
  father_id = none;
  mother_id = none;
  tribal_unit_id = none;
  profession = none;
  biography = none;
  version = 1;
}

abbrev renamed_db : Db
renamed_db = (update_in_tx example_env 1 rename_dto adam_db).1

renamed : update_in_tx example_env 1 rename_dto adam_db ≡ (ok tt, renamed_db)
unfolding create_in_tx validate_parents validate_father validate_mother parse_partial_date
    insert_in_tx insert_person new_person build_full_name has_duplicates update_in_tx
    move_if_changed change_father update_date updated_person write_update update_with_version
renamed = refl

update_in_tx-IsConsistent_example : IsConsistent renamed_db
update_in_tx-IsConsistent_example =
    update_in_tx-IsConsistent example_env 1 rename_dto adam_db
      (create_in_tx-IsConsistent example_env adam_dto none none empty_db empty_db-IsConsistent
        created)
      renamed

abbrev deleted_db : Db
deleted_db = (soft_delete_in_tx example_env 1 adam_db).1

removed : soft_delete_in_tx example_env 1 adam_db ≡ (ok tt, deleted_db)
unfolding create_in_tx validate_parents validate_father validate_mother parse_partial_date
    insert_in_tx insert_person new_person build_full_name has_duplicates soft_delete_in_tx
    lineage_soft_delete direct_children detach_all
removed = refl

soft_delete_in_tx-IsConsistent_example : IsConsistent deleted_db
soft_delete_in_tx-IsConsistent_example =
    soft_delete_in_tx-IsConsistent example_env 1 adam_db
      (create_in_tx-IsConsistent example_env adam_dto none none empty_db empty_db-IsConsistent
        created)
      removed
