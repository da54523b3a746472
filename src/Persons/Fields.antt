-- ===== src/Persons/Fields.antt =====
-- The transfer objects of persons, the display name (common/util/arabic.ts), partial dates
-- (common/util/dates.ts), and the row that a transfer object stands for.
use tftsp.Common.{
  ℕ, ◌+◌, ◌-◌, ◌*◌, ◌/◌, Bool, false, not, ◌&&◌, ◌||◌, Option, none, some, [], ◌∷◌, if◌then◌else◌,
  ◌==◌, leb, ltb, all, length, filter, Text, trim, is_empty, join_spaces, M, return, throw,
  plain_error, is_some, or_else,
}
use tftsp.Domain.{Gender}
use tftsp.Database.{Person, Env}

-- an absent optional field and a null one are both `none`
pub record CreatePersonDto : Type 0 where
  pub first_name : Text
  pub father_name : Option Text
  pub grandfather_name : Option Text
  pub family_name : Option Text
  pub laqab : Option Text
  pub gender : Gender
  pub birth_date : Option Text
  pub birth_place : Option Text
  pub death_date : Option Text
  pub is_deceased : Option Bool
  pub father_id : Option ℕ
  pub mother_id : Option ℕ
  pub tribal_unit_id : Option ℕ
  pub profession : Option Text
  pub biography : Option Text
  pub confirm_duplicate : Bool

-- `none` is an absent field, `some none` a null one
pub record UpdatePersonDto : Type 0 where
  pub first_name : Option Text
  pub father_name : Option (Option Text)
  pub grandfather_name : Option (Option Text)
  pub family_name : Option (Option Text)
  pub laqab : Option (Option Text)
  pub gender : Option Gender
  pub birth_date : Option (Option Text)
  pub birth_place : Option (Option Text)
  pub death_date : Option (Option Text)
  pub is_deceased : Option Bool
  pub father_id : Option (Option ℕ)
  pub mother_id : Option (Option ℕ)
  pub tribal_unit_id : Option (Option ℕ)
  pub profession : Option (Option Text)
  pub biography : Option (Option Text)
  pub version : ℕ

abbrev text_of : Option Text → Text
text_of o = trim (or_else o [])

-- `buildFullName`
unfoldable pub build_full_name : Text → Option Text → Option Text → Option Text → Text
build_full_name first father grandfather family = join_spaces (
    filter (λ p. not (is_empty p))
      (trim first ∷ text_of father ∷ text_of grandfather ∷ text_of family ∷ []))

-- `Date.UTC(year, 0, 1)`, in milliseconds since 1 January of the year 0; a year below 100 is taken
-- for one of the twentieth century
unfoldable pub utc_year_start : ℕ → ℕ
utc_year_start year =
    let y = if ltb year 100 then 1900 + year else year in
    86_400_000 * (365 * y + (y + 3) / 4 - (y + 99) / 100 + (y + 399) / 400)

abbrev pub is_digit : ℕ → Bool
is_digit c = leb 48 c && leb c 57

abbrev pub decimal : ℕ → Text → ℕ
decimal acc [] = acc
decimal acc (c ∷ s) = decimal (10 * acc + (c - 48)) s

abbrev pub or_invalid : {S : Type 0} → Option ℕ → M S (Option ℕ)
or_invalid none = throw plain_error
or_invalid (some d) = return (some d)

-- `parsePartialDate`
unfoldable pub parse_partial_date : {S : Type 0} → Env → Option Text → M S (Option ℕ)
parse_partial_date env none = return none
parse_partial_date env (some value) =
    let trimmed = trim value in
    if is_empty trimmed
    then return none
    else if length trimmed == 4 && all is_digit trimmed
    then return (some (utc_year_start (decimal 0 trimmed)))
    else or_invalid (env.date_of trimmed)

-- a field of an update: the new value where the field is given
abbrev pub given {ℓ} : {A : Type ℓ} → Option A → A → A
given none old = old
given (some new) old = new

-- `dto.… !== undefined ? parsePartialDate(…) : (unchanged)`
unfoldable pub update_date : {S : Type 0} → Env → Option (Option Text) → Option ℕ → M S (Option ℕ)
unfolding parse_partial_date
update_date env none old = return old
update_date env (some value) old = parse_partial_date env value

abbrev sanitized : Env → Option Text → Option Text
sanitized env none = none
sanitized env (some s) = some (env.sanitize s)

abbrev name_changed : UpdatePersonDto → Bool
name_changed dto =
    is_some dto.first_name
    || is_some dto.father_name
    || is_some dto.grandfather_name
    || is_some dto.family_name

-- `buildUpdateData` applied to the row, with the dates parsed, and `version: { increment: 1 }`
unfoldable pub updated_person :
    Env → Person → UpdatePersonDto → Option ℕ → Option ℕ → Option ℕ → Option ℕ → Person
unfolding build_full_name
updated_person env before dto next_father next_mother birth death = record before {
  first_name = given dto.first_name before.first_name;
  father_name = given dto.father_name before.father_name;
  grandfather_name = given dto.grandfather_name before.grandfather_name;
  family_name = given dto.family_name before.family_name;
  laqab = given dto.laqab before.laqab;
  gender = given dto.gender before.gender;
  birth_date = birth;
  birth_place = given dto.birth_place before.birth_place;
  death_date = death;
  is_deceased = given dto.is_deceased before.is_deceased;
  father_id = next_father;
  mother_id = next_mother;
  tribal_unit_id = given dto.tribal_unit_id before.tribal_unit_id;
  profession = given dto.profession before.profession;
  biography = elim dto.biography [ none ↦ before.biography | some b ↦ sanitized env b ];
  full_name =
      if name_changed dto
      then build_full_name (given dto.first_name before.first_name)
          (given dto.father_name before.father_name)
          (given dto.grandfather_name before.grandfather_name)
          (given dto.family_name before.family_name)
      else before.full_name;
  version = before.version + 1;
}

-- the row that `createInTx` inserts, with the dates parsed
unfoldable pub new_person :
    Env → CreatePersonDto → Text → Option ℕ → Option ℕ → ℕ → Option ℕ → Person
new_person env dto full_name birth death created_by import_batch_id = record {
  full_name = full_name;
  first_name = dto.first_name;
  father_name = dto.father_name;
  grandfather_name = dto.grandfather_name;
  family_name = dto.family_name;
  laqab = dto.laqab;
  gender = dto.gender;
  birth_date = birth;
  birth_place = dto.birth_place;
  death_date = death;
  is_deceased = or_else dto.is_deceased false;
  father_id = dto.father_id;
  mother_id = dto.mother_id;
  tribal_unit_id = dto.tribal_unit_id;
  profession = dto.profession;
  biography = sanitized env dto.biography;
  photo_key = none;
  version = 1;
  created_by = created_by;
  import_batch_id = import_batch_id;
  deleted_at = none;
}
