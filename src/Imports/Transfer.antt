-- ===== src/Imports/Transfer.antt =====
-- import-apply.service.ts: what a row of a batch says of a person, as a transfer object.
use tftsp.Common.{
  ℕ, true, false, Option, none, some, List, [], ◌∷◌, ◌++◌, ◌||◌, is_some, is_empty, if◌then◌else◌,
  Text, text, text_eq, is_space, join_spaces, map_option, or_else,
}
use tftsp.Domain.{Gender, male, female}
use tftsp.Database.{TribalUnit}
use tftsp.Persons.Fields.{CreatePersonDto, UpdatePersonDto}
use tftsp.Imports.{RawRow}
use tftsp.Imports.Parsing.{cell, ref_target, arabic_female}
use tftsp.Imports.Cycles.{bind_option}

-- the words of a text, `split(/\s+/).filter(Boolean)`; the first argument is the word begun
pub words_from : Text → Text → List Text
words_from word [] = if is_empty word then [] else word ∷ []
words_from word (c ∷ s) = elim (is_space c) [
  | true ↦ if is_empty word then words_from [] s else word ∷ words_from [] s
  | false ↦ words_from (word ++ c ∷ []) s
]

pub record NameParts : Type 0 where
  pub first_name : Text
  pub father_name : Option Text
  pub grandfather_name : Option Text
  pub family_name : Option Text

-- `splitName`
unfoldable pub name_parts : List Text → NameParts
name_parts [] = record {
  first_name = 0x2014 ∷ [];
  father_name = none;
  grandfather_name = none;
  family_name = none;
}
name_parts (a ∷ []) = record {
  first_name = a;
  father_name = none;
  grandfather_name = none;
  family_name = none;
}
name_parts (a ∷ (b ∷ [])) = record {
  first_name = a;
  father_name = some b;
  grandfather_name = none;
  family_name = none;
}
name_parts (a ∷ (b ∷ (c ∷ []))) = record {
  first_name = a;
  father_name = some b;
  grandfather_name = some c;
  family_name = none;
}
name_parts (a ∷ (b ∷ (c ∷ (d ∷ rest)))) = record {
  first_name = a;
  father_name = some b;
  grandfather_name = some c;
  family_name = some (join_spaces (d ∷ rest));
}

unfoldable pub split_name : Option Text → NameParts
unfolding name_parts words_from
split_name full_name = name_parts (words_from [] (or_else full_name []))

-- `unitByName.get(name)`: of the units with the name, in Arabic or English, the last
abbrev pub unit_named : (ℕ → Option TribalUnit) → List ℕ → Text → Option ℕ
unit_named at [] name = none
unit_named at (id ∷ ids) name = elim (unit_named at ids name) [
  | some later ↦ some later
  | none ↦ elim (at id) [
    | none ↦ none
    | some u ↦ if text_eq u.name_ar name || text_eq u.name_en name then some id else none
  ]
]

abbrev first_some : List (Option ℕ) → Option ℕ
first_some [] = none
first_some (none ∷ rest) = first_some rest
first_some (some id ∷ rest) = some id

-- `resolveUnit`
unfoldable pub resolve_unit : (Text → Option ℕ) → RawRow → Option ℕ
resolve_unit unit_by_name raw = first_some (
    bind_option (cell raw.family) unit_by_name
    ∷ bind_option (cell raw.clan) unit_by_name
    ∷ bind_option (cell raw.branch) unit_by_name
    ∷ [])

-- `refToPersonId`, the newest entry first
abbrev pub person_under : List (Text × ℕ) → Text → Option ℕ
person_under [] r = none
person_under ((s, id) ∷ people) r = if text_eq s r then some id else person_under people r

-- `resolveParentId`
unfoldable pub resolve_parent : List (Text × ℕ) → Option Text → Option ℕ → Option ℕ
unfolding ref_target
resolve_parent people value resolved = elim (bind_option (cell value) ref_target) [
  | none ↦ resolved
  | some target ↦ person_under people target
]

abbrev gender_of_cell : Option Text → Gender
gender_of_cell none = male
gender_of_cell (some g) =
    if text_eq g (text "female") || text_eq g arabic_female then female else male

-- `rowToCreateDto`
unfoldable pub create_dto : (Text → Option ℕ) → RawRow → Option ℕ → Option ℕ → CreatePersonDto
unfolding split_name resolve_unit
create_dto unit_by_name raw father mother =
    let parts = split_name raw.full_name in
    record {
      first_name = parts.first_name;
      father_name = parts.father_name;
      grandfather_name = parts.grandfather_name;
      family_name = parts.family_name;
      laqab = raw.laqab;
      gender = gender_of_cell raw.gender;
      birth_date = raw.birth_date;
      birth_place = none;
      death_date = raw.death_date;
      is_deceased = none;
      father_id = father;
      mother_id = mother;
      tribal_unit_id = resolve_unit unit_by_name raw;
      profession = raw.profession;
      biography = none;
      confirm_duplicate = true;
    }

abbrev only_given : {A : Type 0} → Option A → Option (Option A)
only_given o = map_option some o

-- the transfer object of `mergeInto`: what the row provides
unfoldable pub merge_dto : (Text → Option ℕ) → ℕ → RawRow → Option ℕ → Option ℕ → UpdatePersonDto
unfolding split_name resolve_unit
merge_dto unit_by_name version raw father mother =
    let parts = split_name raw.full_name in
    let named = is_some (cell raw.full_name) in
    record {
      first_name = if named then some parts.first_name else none;
      father_name = if named then only_given parts.father_name else none;
      grandfather_name = if named then only_given parts.grandfather_name else none;
      family_name = if named then only_given parts.family_name else none;
      laqab = only_given (cell raw.laqab);
      gender = none;
      birth_date = only_given (cell raw.birth_date);
      birth_place = none;
      death_date = only_given (cell raw.death_date);
      is_deceased = none;
      father_id = only_given father;
      mother_id = only_given mother;
      tribal_unit_id = only_given (resolve_unit unit_by_name raw);
      profession = only_given (cell raw.profession);
      biography = none;
      version = version;
    }
