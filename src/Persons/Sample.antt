-- ===== src/Persons/Sample.antt =====
-- An environment and an empty tenant, for the runs of the examples.
use tftsp.Common.{refl, false, none, some, [], empty_table, text}
use tftsp.Domain.{Gender, male}
use tftsp.Database.{Person, Env, Db}
use tftsp.Persons.Fields.{CreatePersonDto}
use tftsp.Lineage.Rows.{has}
use tftsp.Persons.Consistency.{IsConsistent}

abbrev pub example_env : Env
example_env = record {
  now = 1000;
  tenant_id = 7;
  user_id = some 8;
  date_of = λ _. none;
  show_id = λ _. [];
  sanitize = λ t. t;
  similar = λ _ _. false;
}

abbrev pub empty_db : Db
empty_db = record {
  persons = empty_table;
  closures = [];
  unions = empty_table;
  units = empty_table;
  audit = [];
  next_id = 1;
}

pub empty_db-IsConsistent : IsConsistent empty_db
unfolding has
empty_db-IsConsistent = record {
  closure = record { sound = λ a d k h. cc; complete = λ a d k h c. cc };
  fathers = λ d m e. cc;
  listed = λ x p e. cc;
  fresh = λ x h. refl;
}

abbrev pub person_of : Gender → Person
person_of gender = record {
  full_name = [];
  first_name = [];
  father_name = none;
  grandfather_name = none;
  family_name = none;
  laqab = none;
  gender = gender;
  birth_date = none;
  birth_place = none;
  death_date = none;
  is_deceased = false;
  father_id = none;
  mother_id = none;
  tribal_unit_id = none;
  profession = none;
  biography = none;
  photo_key = none;
  version = 1;
  created_by = 8;
  import_batch_id = none;
  deleted_at = none;
}

abbrev pub sample_person : Person
sample_person = person_of male

abbrev pub adam_dto : CreatePersonDto
adam_dto = record {
  first_name = text "Adam";
  father_name = none;
  grandfather_name = none;
  family_name = none;
  laqab = none;
  gender = male;
  birth_date = none;
  birth_place = none;
  death_date = none;
  is_deceased = none;
  father_id = none;
  mother_id = none;
  tribal_unit_id = none;
  profession = none;
  biography = none;
  confirm_duplicate = false;
}
