-- ===== src/ChangeRequests/Readers.antt =====
-- change-request.publisher.ts casts the fields of a patch to transfer objects. The readers here give
-- the transfer object where the fields have the types that it declares, and `none` where the
-- database client would refuse them.
use tftsp.Common.{
  ℕ, suc, zero, ◌+◌, ◌/◌, ◌%◌, Bool, true, false, Option, none, some, [], ◌∷◌, if◌then◌else◌, Text,
  text, text_eq,
}
use tftsp.Domain.{
  Gender, male, female, UnionStatus, active, divorced, widowed, UnitType, tribe, branch, clan,
  family,
}
use tftsp.Database.{Env}
use tftsp.Patches.{Json, null, bool, num, str, uuid, obj, Fields, get_field}
use tftsp.Persons.Fields.{CreatePersonDto, UpdatePersonDto}

infixl 5 ◌>>=◌
abbrev pub ◌>>=◌ {ℓ κ} : {A : Type ℓ} {B : Type κ} → Option A → (A → Option B) → Option B
none >>= k = none
some a >>= k = k a

-- a nullable field: `none` where it is absent, `some none` where it is null
abbrev pub as_text : Option Json → Option (Option (Option Text))
as_text none = some none
as_text (some null) = some (some none)
as_text (some (str s)) = some (some (some s))
as_text (some _) = none

abbrev pub as_id : Option Json → Option (Option (Option ℕ))
as_id none = some none
as_id (some null) = some (some none)
as_id (some (uuid n)) = some (some (some n))
as_id (some _) = none

-- a field that may be absent and not null
abbrev pub as_required_text : Option Json → Option (Option Text)
as_required_text none = some none
as_required_text (some (str s)) = some (some s)
as_required_text (some _) = none

abbrev pub as_bool : Option Json → Option (Option Bool)
as_bool none = some none
as_bool (some (bool b)) = some (some b)
as_bool (some _) = none

abbrev gender_of : Text → Option Gender
gender_of s =
    if text_eq s (text "male")
    then some male
    else if text_eq s (text "female")
    then some female
    else none

abbrev pub as_gender : Option Json → Option (Option Gender)
as_gender none = some none
as_gender (some (str s)) = do g ← gender_of s; some (some g)
as_gender (some _) = none

abbrev pub flat {ℓ} : {A : Type ℓ} → Option (Option A) → Option A
flat none = none
flat (some o) = o

-- `fields as CreatePersonDto`, with `confirmDuplicate: true`
unfoldable pub read_create_person : Fields → Option CreatePersonDto
unfolding get_field
read_create_person fs = do
  first_name ← as_required_text (get_field (text "firstName") fs)
  first ← first_name
  father_name ← as_text (get_field (text "fatherName") fs)
  grandfather_name ← as_text (get_field (text "grandfatherName") fs)
  family_name ← as_text (get_field (text "familyName") fs)
  laqab ← as_text (get_field (text "laqab") fs)
  gender ← as_gender (get_field (text "gender") fs)
  gender' ← gender
  birth_date ← as_text (get_field (text "birthDate") fs)
  birth_place ← as_text (get_field (text "birthPlace") fs)
  death_date ← as_text (get_field (text "deathDate") fs)
  is_deceased ← as_bool (get_field (text "isDeceased") fs)
  father_id ← as_id (get_field (text "fatherId") fs)
  mother_id ← as_id (get_field (text "motherId") fs)
  tribal_unit_id ← as_id (get_field (text "tribalUnitId") fs)
  profession ← as_text (get_field (text "profession") fs)
  biography ← as_text (get_field (text "biography") fs)
  some (record {
    first_name = first;
    father_name = flat father_name;
    grandfather_name = flat grandfather_name;
    family_name = flat family_name;
    laqab = flat laqab;
    gender = gender';
    birth_date = flat birth_date;
    birth_place = flat birth_place;
    death_date = flat death_date;
    is_deceased = is_deceased;
    father_id = flat father_id;
    mother_id = flat mother_id;
    tribal_unit_id = flat tribal_unit_id;
    profession = flat profession;
    biography = flat biography;
    confirm_duplicate = true;
  })

-- `{ ...fields, version } as UpdatePersonDto`
unfoldable pub read_update_person : Fields → ℕ → Option UpdatePersonDto
unfolding get_field
read_update_person fs version = do
  first_name ← as_required_text (get_field (text "firstName") fs)
  father_name ← as_text (get_field (text "fatherName") fs)
  grandfather_name ← as_text (get_field (text "grandfatherName") fs)
  family_name ← as_text (get_field (text "familyName") fs)
  laqab ← as_text (get_field (text "laqab") fs)
  gender ← as_gender (get_field (text "gender") fs)
  birth_date ← as_text (get_field (text "birthDate") fs)
  birth_place ← as_text (get_field (text "birthPlace") fs)
  death_date ← as_text (get_field (text "deathDate") fs)
  is_deceased ← as_bool (get_field (text "isDeceased") fs)
  father_id ← as_id (get_field (text "fatherId") fs)
  mother_id ← as_id (get_field (text "motherId") fs)
  tribal_unit_id ← as_id (get_field (text "tribalUnitId") fs)
  profession ← as_text (get_field (text "profession") fs)
  biography ← as_text (get_field (text "biography") fs)
  some (record {
    first_name = first_name;
    father_name = father_name;
    grandfather_name = grandfather_name;
    family_name = family_name;
    laqab = laqab;
    gender = gender;
    birth_date = birth_date;
    birth_place = birth_place;
    death_date = death_date;
    is_deceased = is_deceased;
    father_id = father_id;
    mother_id = mother_id;
    tribal_unit_id = tribal_unit_id;
    profession = profession;
    biography = biography;
    version = version;
  })

unfoldable pub read_union_status : Option Json → Option (Option UnionStatus)
read_union_status none = some none
read_union_status (some (str s)) =
    if text_eq s (text "active")
    then some (some active)
    else if text_eq s (text "divorced")
    then some (some divorced)
    else if text_eq s (text "widowed")
    then some (some widowed)
    else none
read_union_status (some _) = none

unfoldable pub read_unit_type : Option Json → Option (Option UnitType)
read_unit_type none = some none
read_unit_type (some (str s)) =
    if text_eq s (text "tribe")
    then some (some tribe)
    else if text_eq s (text "branch")
    then some (some branch)
    else if text_eq s (text "clan")
    then some (some clan)
    else if text_eq s (text "family")
    then some (some family)
    else none
read_unit_type (some _) = none

-- the decimal digits of a number below `10 ^ fuel`, before `rest`
unfoldable pub digits_before : ℕ → ℕ → Text → Text
digits_before zero n rest = rest
digits_before (suc fuel) n rest = elim (n / 10) [
  | zero ↦ (48 + n) ∷ rest
  | suc m ↦ digits_before fuel (suc m) ((48 + n % 10) ∷ rest)
]

-- `String(value)`
unfoldable pub string_of : Env → Json → Text
unfolding digits_before
string_of env null = text "null"
string_of env (bool true) = text "true"
string_of env (bool false) = text "false"
string_of env (num n) = digits_before (suc n) n []
string_of env (str s) = s
string_of env (uuid n) = env.show_id n
string_of env (obj _) = text "[object Object]"

-- `String(value ?? '')`
abbrev pub string_or_empty : Env → Option Json → Text
string_or_empty env none = []
string_or_empty env (some null) = []
string_or_empty env (some v) = string_of env v
