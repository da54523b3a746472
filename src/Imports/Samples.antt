-- ===== src/Imports/Samples.antt =====
-- A file with two rows, a son above his father, for the runs of the examples.
use tftsp.Common.{ℕ, Option, none, some, [], Text, text}
use tftsp.Imports.{RawRow, ImportRow, RowStatus, Decision}

abbrev pub son_ref : Text
son_ref = text "son"

abbrev pub father_ref : Text
father_ref = text "father"

abbrev pub raw_row : Text → Option Text → RawRow
raw_row name father = record {
  row_ref = some name;
  full_name = some name;
  gender = some (text "male");
  father_ref = father;
  mother_ref = none;
  birth_date = none;
  death_date = none;
  branch = none;
  clan = none;
  family = none;
  spouse_ref = none;
  laqab = none;
  profession = none;
  phone = none;
  notes = none;
}

abbrev pub file_row : ℕ → Text → Option Text → ImportRow
file_row n name father = record {
  id = n;
  batch_id = 3;
  row_ref = name;
  row_number = n;
  raw = raw_row name father;
  status = RowStatus.valid;
  errors = [];
  resolved_father = none;
  resolved_mother = none;
  resolved_spouse = none;
  duplicate_of = none;
  decision = Decision.new;
  merge_target = none;
  created_person = none;
}

abbrev pub son_row : ImportRow
son_row = file_row 1 son_ref (some (text "ref:father"))

abbrev pub father_row : ImportRow
father_row = file_row 2 father_ref none
