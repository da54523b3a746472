-- ===== src/ChangeRequests/PublishUnit.antt =====
-- change-request.publisher.ts `applyTribalUnit`: a unit has no version, a missing row is the conflict.
use tftsp.Common.{
  ℕ, ◌+◌, Bool, true, false, Option, none, some, if◌then◌else◌, ◌==◌, Text, text, is_some,
  insert_row, set_row, delete_row, map_rows, M, ok, plain_error, ◌>>=◌, ◌>>◌, return, get, modify,
  require, throw_if,
}
use tftsp.Domain.{ChangeOperation, create, delete}
use tftsp.Database.{
  Env, Db, TribalUnit, record_audit, tribal_unit_create, tribal_unit_update, tribal_unit_delete,
}
use tftsp.Patches.{Json, Fields, get_field, patch_to_field_object}
use tftsp.Persons.Fields.{given}
use tftsp.ChangeRequests.Readers.{as_id, flat, read_unit_type, string_of, string_or_empty}
use tftsp.ChangeRequests.Requests.{ChangeRequest, PublishOutcome, applied, in_conflict}

-- a parent that is not on record
abbrev pub dangling : Option ℕ → Db → Bool
dangling none db = false
dangling (some id) db = if is_some (db.units.at id) then false else true

-- the row that a create makes, where the type of unit is given and the parent exists
unfoldable pub create_unit : Env → Fields → M Db PublishOutcome
unfolding read_unit_type
create_unit env fs = do
  parent ← require (as_id (get_field (text "parentId") fs)) plain_error
  unit_type ← require (read_unit_type (get_field (text "unitType") fs)) plain_error
  given_type ← require unit_type plain_error
  db ← get
  throw_if (dangling (flat parent) db) plain_error
  modify (λ d. record d {
    units =
        insert_row d.next_id
          (record {
            parent_id = flat parent;
            unit_type = given_type;
            name_ar = string_or_empty env (get_field (text "nameAr") fs);
            name_en = string_or_empty env (get_field (text "nameEn") fs);
          })
          d.units;
    next_id = d.next_id + 1;
  })
  record_audit tribal_unit_create db.next_id
  return (applied (some db.next_id))

-- `fields.name !== undefined ? String(fields.name) : (unchanged)`
abbrev renamed : Env → Option Json → Text → Text
renamed env none old = old
renamed env (some value) old = string_of env value

unfoldable pub update_unit : Env → Fields → ℕ → TribalUnit → M Db (Unit {0})
unfolding read_unit_type
update_unit env fs id before = do
  parent ← require (as_id (get_field (text "parentId") fs)) plain_error
  unit_type ← require (read_unit_type (get_field (text "unitType") fs)) plain_error
  db ← get
  throw_if (dangling (flat parent) db) plain_error
  modify (λ d. record d {
    units =
        set_row id
          (record before {
            parent_id = given parent before.parent_id;
            unit_type = given unit_type before.unit_type;
            name_ar = renamed env (get_field (text "nameAr") fs) before.name_ar;
            name_en = renamed env (get_field (text "nameEn") fs) before.name_en;
          })
          d.units;
  })
  record_audit tribal_unit_update id

abbrev pub cleared : ℕ → Option ℕ → Option ℕ
cleared id none = none
cleared id (some x) = if x == id then none else some x

-- the database sets the references of the children and the persons to null
unfoldable pub delete_unit : ℕ → Db → Db
delete_unit id db = record db {
  units = map_rows (λ u. record u { parent_id = cleared id u.parent_id }) (delete_row id db.units);
  persons = map_rows (λ p. record p { tribal_unit_id = cleared id p.tribal_unit_id }) db.persons;
}

unfoldable pub change_unit : Env → ChangeOperation → Fields → ℕ → TribalUnit → M Db PublishOutcome
unfolding update_unit delete_unit
change_unit env delete fs id before = do
  modify (delete_unit id)
  record_audit tribal_unit_delete id
  return (applied (some id))
change_unit env _ fs id before = do update_unit env fs id before; return (applied (some id))

-- update or delete, of a row that is there
abbrev pub tribal_unit_on_record : Env → ChangeRequest → Option ℕ → M Db PublishOutcome
tribal_unit_on_record env cr none db = (ok in_conflict, db)
tribal_unit_on_record env cr (some id) db = elim (db.units.at id) [
  | none ↦ (ok in_conflict, db)
  | some before ↦ change_unit env cr.operation (patch_to_field_object cr.patch) id before db
]

abbrev pub tribal_unit_operation : Env → ChangeRequest → ChangeOperation → M Db PublishOutcome
tribal_unit_operation env cr create = create_unit env (patch_to_field_object cr.patch)
tribal_unit_operation env cr _ = tribal_unit_on_record env cr cr.target_id

unfoldable pub apply_tribal_unit : Env → ChangeRequest → M Db PublishOutcome
unfolding create_unit change_unit
apply_tribal_unit env cr = tribal_unit_operation env cr cr.operation
