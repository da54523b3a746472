-- ===== src/TribalUnits/Examples.antt =====
-- A tribe with one unit, number 1.
use tftsp.Common.{ℕ, ◌≡◌, refl, none, some, [], text, empty_table, insert_row, ok, arith}
use tftsp.Domain.{clan}
use tftsp.Database.{Db, TribalUnit}
use tftsp.Persons.Sample.{empty_db}
use tftsp.Rbac.Guard.{climbs_to, parent_of}
use tftsp.TribalUnits.{
  CreateTribalUnitDto, UpdateTribalUnitDto, create_tribal_unit, update_tribal_unit,
  remove_tribal_unit,
}
use tftsp.TribalUnits.Links.{IsLinked, writes-IsLinked, update_tribal_unit-loops}

abbrev unit_row : TribalUnit
unit_row = record { parent_id = none; unit_type = clan; name_ar = text "a"; name_en = text "a" }

abbrev one_unit : Db
one_unit = record empty_db { units = insert_row 1 unit_row empty_table; next_id = 2 }

one_unit-IsLinked : IsLinked one_unit
one_unit-IsLinked = record {
  parents = λ x u e y f. ground (arith, e, f);
  members = λ x p e y f. cc;
}

writes-IsLinked_example :
    ((dto : CreateTribalUnitDto) → IsLinked (create_tribal_unit dto one_unit).1)
    × ((id : ℕ) (dto : UpdateTribalUnitDto) → IsLinked (update_tribal_unit id dto one_unit).1)
    × ((id : ℕ) → IsLinked (remove_tribal_unit id one_unit).1)
writes-IsLinked_example = writes-IsLinked one_unit one_unit-IsLinked

abbrev own_parent : UpdateTribalUnitDto
own_parent = record { parent_id = some (some 1); unit_type = none; name_ar = none; name_en = none }

update_tribal_unit-loops_example :
    ((update_tribal_unit 1 own_parent one_unit).0 ≡ ok tt)
    × (climbs_to (parent_of (update_tribal_unit 1 own_parent one_unit).1.units) [] 100 (some 1)
        ≡ none)
update_tribal_unit-loops_example =
    update_tribal_unit-loops 1 unit_row own_parent one_unit [] refl refl refl 100
