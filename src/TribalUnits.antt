-- ===== src/TribalUnits.antt =====
-- apps/api/src/modules/tribal-units: the units of a tribe are created, changed and removed.
use tftsp.Common.{
  ℕ, ◌+◌, ◌≡◌, Bool, true, false, Option, none, some, List, [], ◌∷◌, ◌==◌, if◌then◌else◌, is_some,
  Text, Table, insert_row, set_row, M, ◌>>=◌, ◌>>◌, return, get, modify, require, not_found,
  tribal_unit_not_found, or_else,
}
use tftsp.Domain.{UnitType}
use tftsp.Database.{
  Env, Db, TribalUnit, record_audit, tribal_unit_create, tribal_unit_update, tribal_unit_delete,
}
use tftsp.ChangeRequests.PublishUnit.{delete_unit}
pub mod Links
mod Examples

pub record CreateTribalUnitDto : Type 0 where
  pub parent_id : Option ℕ
  pub unit_type : UnitType
  pub name_ar : Text
  pub name_en : Text

-- a field that is not given is `none`; the parent may be given as null
pub record UpdateTribalUnitDto : Type 0 where
  pub parent_id : Option (Option ℕ)
  pub unit_type : Option UnitType
  pub name_ar : Option Text
  pub name_en : Option Text

-- `findOne`
unfoldable pub find_unit : ℕ → M Db TribalUnit
find_unit id = do db ← get; require (db.units.at id) (not_found tribal_unit_not_found)

-- the check of a parent that is given
unfoldable pub check_parent : Option ℕ → M Db (Unit {0})
unfolding find_unit
check_parent none = return tt
check_parent (some p) = do parent ← find_unit p; return tt

-- `create`
unfoldable pub create_tribal_unit : CreateTribalUnitDto → M Db ℕ
unfolding check_parent
create_tribal_unit dto = do
  check_parent dto.parent_id
  db ← get
  modify (λ d. record d {
    units =
        insert_row d.next_id
          (record {
            parent_id = dto.parent_id;
            unit_type = dto.unit_type;
            name_ar = dto.name_ar;
            name_en = dto.name_en;
          })
          d.units;
    next_id = d.next_id + 1;
  })
  record_audit tribal_unit_create db.next_id
  return db.next_id

abbrev pub given_parent : Option (Option ℕ) → Option ℕ
given_parent none = none
given_parent (some p) = p

-- the fields that the transfer object gives, the others as before
abbrev pub updated_unit : UpdateTribalUnitDto → TribalUnit → TribalUnit
updated_unit dto before = record {
  parent_id = or_else dto.parent_id before.parent_id;
  unit_type = or_else dto.unit_type before.unit_type;
  name_ar = or_else dto.name_ar before.name_ar;
  name_en = or_else dto.name_en before.name_en;
}

-- `update`
unfoldable pub update_tribal_unit : ℕ → UpdateTribalUnitDto → M Db (Unit {0})
unfolding check_parent
update_tribal_unit id dto = do
  before ← find_unit id
  check_parent (given_parent dto.parent_id)
  modify (λ d. record d { units = set_row id (updated_unit dto before) d.units })
  record_audit tribal_unit_update id

-- `remove`
unfoldable pub remove_tribal_unit : ℕ → M Db (Unit {0})
unfolding find_unit delete_unit
remove_tribal_unit id = do
  before ← find_unit id
  modify (delete_unit id)
  record_audit tribal_unit_delete id
