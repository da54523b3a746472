-- ===== src/Imports/Parsing.antt =====
-- import-parse.service.ts: the checks of each row, and the references of a cell.
use tftsp.Common.{
  ℕ, Bool, Option, none, some, List, [], ◌∷◌, ◌++◌, ◌||◌, ◌&&◌, not, any, is_empty, is_some,
  if◌then◌else◌, Text, text, text_eq, trim, lower_ascii, ◌==◌, ok, fail, or_else,
}
use tftsp.Domain.{Gender, male, female}
use tftsp.Database.{Env}
use tftsp.Persons.Fields.{parse_partial_date}
use tftsp.Imports.{RawRow, RowWork, RowError, Column, RowErrorKey}

-- `if (value)` of a cell
abbrev pub cell : Option Text → Option Text
cell none = none
cell (some v) = if is_empty v then none else some v

-- the words for male and female, the second with and without its hamza
abbrev arabic_male : Text
arabic_male = 0x630 ∷ 0x643 ∷ 0x631 ∷ []

abbrev pub arabic_female : Text
arabic_female = 0x623 ∷ 0x646 ∷ 0x62b ∷ 0x649 ∷ []

abbrev arabic_female_bare : Text
arabic_female_bare = 0x627 ∷ 0x646 ∷ 0x62b ∷ 0x649 ∷ []

-- `parseGender`
unfoldable pub parse_gender : Option Text → Option Gender
parse_gender value = elim (cell value) [
  | none ↦ none
  | some s ↦
      let v = lower_ascii (trim s) in
      if text_eq v (text "male") || text_eq v (text "m") || text_eq v arabic_male
      then some male
      else if text_eq v (text "female")
          || text_eq v (text "f")
          || text_eq v arabic_female
          || text_eq v arabic_female_bare
      then some female
      else none
]

-- what the `.` of a regular expression does not match
abbrev is_line_end : ℕ → Bool
is_line_end c = c == 10 || c == 13 || c == 0x2028 || c == 0x2029

abbrev pub strip_prefix : Text → Text → Option Text
strip_prefix [] s = some s
strip_prefix (c ∷ p) [] = none
strip_prefix (c ∷ p) (d ∷ s) = if c == d then strip_prefix p s else none

-- `/^ref:(.+)$/.exec(value.trim())`, and the trimmed group
unfoldable pub ref_target : Text → Option Text
ref_target value = elim (strip_prefix (text "ref:") (trim value)) [
  | none ↦ none
  | some rest ↦ if is_empty rest || any is_line_end rest then none else some (trim rest)
]

-- `isRef`
unfoldable pub is_ref : Text → Bool
is_ref value = not (is_empty value) && is_some (strip_prefix (text "ref:") (trim value))

abbrev required : Column → RowErrorKey → Option Text → List RowError
required column message value = elim (cell value) [
  | none ↦ record { column = column; message = message } ∷ []
  | some _ ↦ []
]

abbrev gender_errors : Option Text → List RowError
gender_errors value =
    if is_some (cell value) && not (is_some (parse_gender value))
    then record { column = Column.gender_column; message = RowErrorKey.invalid_gender } ∷ []
    else []

abbrev date_errors : Env → Column → Option Text → List RowError
date_errors env column value = elim (cell value) [
  | none ↦ []
  | some v ↦ elim ((parse_partial_date env (some v) tt).0) [
    | ok _ ↦ []
    | fail _ ↦ record { column = column; message = RowErrorKey.invalid_date } ∷ []
  ]
]

-- one round of `parseAndValidate`; `auto` is the text `auto:<rowNumber>`
unfoldable pub validate_row : Env → (ℕ → Text) → ℕ → RawRow → RowWork
unfolding parse_gender parse_partial_date
validate_row env auto row_number raw = record {
  row_number = row_number;
  row_ref = or_else raw.row_ref (auto row_number);
  raw = raw;
  errors =
      required Column.row_ref_column RowErrorKey.row_ref_required raw.row_ref
      ++ (required Column.full_name_column RowErrorKey.full_name_required raw.full_name
          ++ (gender_errors raw.gender
              ++ (date_errors env Column.birth_date_column raw.birth_date
                  ++ date_errors env Column.death_date_column raw.death_date)));
  gender = parse_gender raw.gender;
  clan = raw.clan;
  father_in_file = none;
  mother_in_file = none;
  spouse_in_file = none;
  resolved_father = none;
  resolved_mother = none;
  resolved_spouse = none;
  duplicate_of = none;
}

unfoldable pub parse_and_validate : Env → (ℕ → Text) → List (ℕ × RawRow) → List RowWork
unfolding validate_row
parse_and_validate env auto [] = []
parse_and_validate env auto ((n, raw) ∷ rows) =
    validate_row env auto n raw ∷ parse_and_validate env auto rows
