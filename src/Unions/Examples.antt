-- ===== src/Unions/Examples.antt =====
-- Runs of the unions service: persons 1 and 2 marry, and their union ends.
use tftsp.Common.{
  ℕ, ◌≡◌, refl, true, Option, none, some, ok, [], empty_table, insert_row, if◌then◌else◌, ◌==◌,
}
use tftsp.Domain.{male, female, active, divorced}
use tftsp.Database.{Db, Union, union_divorce}
use tftsp.Persons.Sample.{person_of, example_env, empty_db}
use tftsp.Persons.Fields.{parse_partial_date}
use tftsp.Unions.{
  CreateUnionDto, EndUnionDto, create, assert_valid_couple, insert_union, end_union, find_union,
  is_active_union,
}
use tftsp.Unions.Couples.{IsCouple, create-ok, end_union-ok}

abbrev couple_db : Db
couple_db = record empty_db {
  persons = insert_row 2 (person_of female) (insert_row 1 (person_of male) empty_table);
  next_id = 3;
}

abbrev marriage : CreateUnionDto
marriage = record { husband_id = 1; wife_id = 2; marriage_date = none }

abbrev married_db : Db
married_db = (create example_env marriage couple_db).1

married : create example_env marriage couple_db ≡ (ok 3, married_db)
unfolding create assert_valid_couple parse_partial_date insert_union
married = refl

create-ok_example :
    IsCouple couple_db 1 2
    × (3 ≡ couple_db.next_id)
    × (married_db.persons ≡ couple_db.persons)
    × ((date : Option ℕ) × ((x : ℕ)
          → married_db.unions.at x ≡ (
              if 3 == x
              then some (record {
                husband_id = 1;
                wife_id = 2;
                marriage_date = date;
                status = active;
                end_date = none;
                end_reason = none;
              })
              else couple_db.unions.at x)))
create-ok_example = create-ok example_env marriage couple_db married

abbrev live_union : Union
live_union = record {
  husband_id = 1;
  wife_id = 2;
  marriage_date = none;
  status = active;
  end_date = none;
  end_reason = none;
}

abbrev union_db : Db
union_db = record couple_db { unions = insert_row 7 live_union empty_table }

abbrev no_details : EndUnionDto
no_details = record { end_date = []; end_reason = none }

ended : end_union example_env 7 divorced no_details union_divorce union_db ≡ (
  ok (record live_union { status = divorced }),
  (end_union example_env 7 divorced no_details union_divorce union_db).1,
)
unfolding end_union find_union parse_partial_date
ended = refl

end_union-ok_example :
    (before : Union) × (union_db.unions.at 7 ≡ some before)
    × (is_active_union before.status ≡ true)
    × (divorced ≡ divorced)
    × (1 ≡ before.husband_id)
    × (2 ≡ before.wife_id)
    × ((end_union example_env 7 divorced no_details union_divorce union_db).1.unions.at 7
        ≡ some (record live_union { status = divorced }))
end_union-ok_example = end_union-ok example_env 7 divorced no_details union_divorce union_db ended
