-- ===== src/Persons/Writes.antt =====
-- persons.service.ts: the writes of a person inside a transaction, and the transactions of the
-- direct-write path.
use tftsp.Common.{
  update_row, ℕ, ◌+◌, Bool, true, false, not, ◌&&◌, Option, none, some, List, [], ◌∷◌,
  if◌then◌else◌, ◌==◌, opt_eq, or_else, is_some, Text, M, ok, ◌>>=◌, ◌>>◌, return, get, modify,
  throw_if, require, transaction, bad_request, not_found, conflict, insert_row, set_row, count_rows,
  ltb, select_ids, self_ancestry, parent_not_found, father_must_be_male, mother_must_be_female,
  duplicate_candidates, person_not_found, version_conflict,
}
use tftsp.Domain.{Gender, male, female}
use tftsp.Database.{
  Person, Env, Db, is_live, find_live, record_audit, person_create, person_update, person_delete,
}
use tftsp.Lineage.{Closure, on_create, on_father_change, remove_person_rows, move_subtree}
use tftsp.Persons.Fields.{
  CreatePersonDto, UpdatePersonDto, build_full_name, parse_partial_date, update_date,
  updated_person, new_person, given,
}

abbrev pub is_male : Gender → Bool
is_male male = true
is_male female = false

unfoldable pub validate_father : Option ℕ → M Db (Unit {0})
validate_father none = return tt
validate_father (some f) = do
  db ← get
  father ← require (find_live db f) (bad_request parent_not_found)
  throw_if (not (is_male father.gender)) (bad_request father_must_be_male)

unfoldable pub validate_mother : Option ℕ → M Db (Unit {0})
validate_mother none = return tt
validate_mother (some m) = do
  db ← get
  mother ← require (find_live db m) (bad_request parent_not_found)
  throw_if (is_male mother.gender) (bad_request mother_must_be_female)

-- `validateParents`
unfoldable pub validate_parents : Option ℕ → Option ℕ → M Db (Unit {0})
unfolding validate_father validate_mother
validate_parents father mother = do validate_father father; validate_mother mother

-- `findDuplicates(…).length > 0`
unfoldable pub has_duplicates : Env → Text → Option ℕ → Db → Bool
has_duplicates env full_name unit db = ltb 0 (
    count_rows
      (λ p. is_live p && (opt_eq p.tribal_unit_id unit && env.similar p.full_name full_name))
      db.persons)

-- `repo.create`, and the identifier of the new row
unfoldable pub insert_person : Person → M Db ℕ
insert_person p db = (
  ok db.next_id,
  record db { persons = insert_row db.next_id p db.persons; next_id = db.next_id + 1 },
)

abbrev pub closure_update : (Closure → Closure) → M Db (Unit {0})
closure_update f = modify (λ db. record db { closures = f db.closures })

-- the end of `createInTx`: the row, its closure rows, the audit entry
unfoldable pub insert_in_tx : Person → M Db ℕ
unfolding insert_person on_create
insert_in_tx p = do
  id ← insert_person p
  closure_update (on_create id p.father_id)
  record_audit person_create id
  return id

unfoldable pub create_in_tx : Env → CreatePersonDto → Option ℕ → Option ℕ → M Db ℕ
unfolding validate_parents has_duplicates build_full_name parse_partial_date new_person insert_in_tx
create_in_tx env dto created_by_override import_batch_id = do
  let full_name =
      build_full_name dto.first_name dto.father_name dto.grandfather_name dto.family_name
  validate_parents dto.father_id dto.mother_id
  db ← get
  throw_if (not dto.confirm_duplicate && has_duplicates env full_name dto.tribal_unit_id db)
      (conflict duplicate_candidates)
  birth ← parse_partial_date env dto.birth_date
  death ← parse_partial_date env dto.death_date
  let created_by = or_else created_by_override (or_else env.user_id env.tenant_id)
  insert_in_tx (new_person env dto full_name birth death created_by import_batch_id)

-- `lineage.onFatherChange`
unfoldable pub change_father : ℕ → Option ℕ → M Db (Unit {0})
unfolding on_father_change
change_father id next_father = do
  db ← get
  moved ← require (on_father_change id next_father db.closures) (bad_request self_ancestry)
  modify (λ d. record d { closures = moved })

-- `repo.updateWithVersion`: the number of rows that it changed
unfoldable pub update_with_version : ℕ → ℕ → Person → M Db ℕ
update_with_version id expected new db = elim (find_live db id) [
  | none ↦ (ok 0, db)
  | some p ↦
      if p.version == expected
      then (ok 1, record db { persons = set_row id new db.persons })
      else (ok 0, db)
]

-- the value to validate: only a parent that the transfer object names
abbrev pub named_parent : Option (Option ℕ) → Option ℕ
named_parent field = given field none

-- the lineage part of `updateInTx`
unfoldable pub move_if_changed : ℕ → UpdatePersonDto → Person → M Db (Unit {0})
unfolding change_father
move_if_changed id dto before =
    let next_father = given dto.father_id before.father_id in
    if is_some dto.father_id && not (opt_eq next_father before.father_id)
    then change_father id next_father
    else return tt

-- the end of `updateInTx`: the row under its version, and the audit entry
unfoldable pub write_update : ℕ → ℕ → Person → M Db (Unit {0})
unfolding update_with_version
write_update id expected new = do
  affected ← update_with_version id expected new
  throw_if (affected == 0) (conflict version_conflict)
  record_audit person_update id

unfoldable pub update_in_tx : Env → ℕ → UpdatePersonDto → M Db (Unit {0})
unfolding validate_parents move_if_changed update_date updated_person write_update
update_in_tx env id dto = do
  db ← get
  before ← require (find_live db id) (not_found person_not_found)
  let next_father = given dto.father_id before.father_id
  let next_mother = given dto.mother_id before.mother_id
  validate_parents (named_parent dto.father_id) (named_parent dto.mother_id)
  throw_if (is_some dto.mother_id && opt_eq next_mother (some id)) (bad_request self_ancestry)
  move_if_changed id dto before
  birth ← update_date env dto.birth_date before.birth_date
  death ← update_date env dto.death_date before.death_date
  write_update id dto.version (updated_person env before dto next_father next_mother birth death)

-- `repo.directChildren`
unfoldable pub direct_children : Db → ℕ → List ℕ
direct_children db id = select_ids (λ p. is_live p && opt_eq p.father_id (some id)) db.persons

abbrev pub without_father : Person → Person
without_father p = record p { father_id = none }

-- one round of the loop of `lineage.onSoftDelete`
unfoldable pub detach_child : ℕ → Db → Db
unfolding move_subtree
detach_child child db = record db {
  persons = update_row without_father child db.persons;
  closures = move_subtree child none db.closures;
}

unfoldable pub detach_all : List ℕ → Db → Db
unfolding detach_child
detach_all [] db = db
detach_all (child ∷ children) db = detach_all children (detach_child child db)

-- `lineage.onSoftDelete`
unfoldable pub lineage_soft_delete : ℕ → Db → Db
unfolding direct_children detach_all remove_person_rows
lineage_soft_delete id db =
    let detached = detach_all (direct_children db id) db in
    record detached { closures = remove_person_rows id detached.closures }

abbrev pub deleted : ℕ → Person → Person
deleted now p = record p { deleted_at = some now }

unfoldable pub soft_delete_in_tx : Env → ℕ → M Db (Unit {0})
unfolding lineage_soft_delete
soft_delete_in_tx env id = do
  db ← get
  before ← require (find_live db id) (not_found person_not_found)
  modify (lineage_soft_delete id)
  modify (λ d. record d { persons = update_row (deleted env.now) id d.persons })
  record_audit person_delete id

-- `PersonsService.update` and `remove`: each in a transaction of its own
unfoldable pub update_person : Env → ℕ → UpdatePersonDto → M Db (Unit {0})
unfolding update_in_tx
update_person env id dto = transaction (update_in_tx env id dto)

unfoldable pub remove_person : Env → ℕ → M Db (Unit {0})
unfolding soft_delete_in_tx
remove_person env id = transaction (soft_delete_in_tx env id)
