-- ===== src/Unions.antt =====
-- apps/api/src/modules/unions/unions.service.ts: marriages on record.
use tftsp.Common.{
  ℕ, ◌+◌, Bool, true, false, Option, none, some, ◌==◌, ◌||◌, not, if◌then◌else◌, is_some, Text,
  insert_row, set_row, M, Result, ok, fail, modify, get, return, throw_if, require, ◌>>=◌, ◌>>◌,
  bad_request, not_found, person_not_found, invalid_union_genders, union_not_found,
  union_already_ended,
}
use tftsp.Domain.{UnionStatus, active, divorced, widowed}
use tftsp.Database.{
  Env, Db, Union, AuditAction, find_live, record_audit, union_create, union_divorce, union_widow,
  union_remarry,
}
use tftsp.Persons.Fields.{parse_partial_date}
use tftsp.Persons.Writes.{is_male}
pub mod Couples
mod Examples

pub record CreateUnionDto : Type 0 where
  pub husband_id : ℕ
  pub wife_id : ℕ
  pub marriage_date : Option Text

pub record EndUnionDto : Type 0 where
  pub end_date : Text
  pub end_reason : Option Text

-- `assertValidCouple`
unfoldable pub assert_valid_couple : ℕ → ℕ → M Db (Unit {0})
assert_valid_couple husband_id wife_id = do
  db ← get
  husband ← require (find_live db husband_id) (not_found person_not_found)
  wife ← require (find_live db wife_id) (not_found person_not_found)
  throw_if (not (is_male husband.gender) || is_male wife.gender) (bad_request invalid_union_genders)

-- `repo.create` with its audit entry
unfoldable pub insert_union : AuditAction → ℕ → ℕ → Option ℕ → M Db ℕ
insert_union action husband_id wife_id marriage_date = do
  db ← get
  modify (λ d. record d {
    unions =
        insert_row d.next_id
          (record {
            husband_id = husband_id;
            wife_id = wife_id;
            marriage_date = marriage_date;
            status = active;
            end_date = none;
            end_reason = none;
          })
          d.unions;
    next_id = d.next_id + 1;
  })
  record_audit action db.next_id
  return db.next_id

-- `create`
unfoldable pub create : Env → CreateUnionDto → M Db ℕ
unfolding assert_valid_couple insert_union
create env dto = do
  assert_valid_couple dto.husband_id dto.wife_id
  date ← parse_partial_date env dto.marriage_date
  insert_union union_create dto.husband_id dto.wife_id date

-- `findOne`
unfoldable pub find_union : ℕ → M Db Union
find_union id db = elim (db.unions.at id) [
  | none ↦ (fail (not_found union_not_found), db)
  | some u ↦ (ok u, db)
]

abbrev pub is_active_union : UnionStatus → Bool
is_active_union active = true
is_active_union divorced = false
is_active_union widowed = false

-- `endUnion`
unfoldable pub end_union : Env → ℕ → UnionStatus → EndUnionDto → AuditAction → M Db Union
unfolding find_union
end_union env id status dto action = do
  before ← find_union id
  throw_if (not (is_active_union before.status)) (bad_request union_already_ended)
  end_date ← parse_partial_date env (some dto.end_date)
  let updated = record before { status = status; end_date = end_date; end_reason = dto.end_reason }
  modify (λ d. record d { unions = set_row id updated d.unions })
  record_audit action id
  return updated

-- `divorce` and `widow`
unfoldable pub divorce : Env → ℕ → EndUnionDto → M Db Union
unfolding end_union
divorce env id dto = end_union env id divorced dto union_divorce

unfoldable pub widow : Env → ℕ → EndUnionDto → M Db Union
unfolding end_union
widow env id dto = end_union env id widowed dto union_widow

-- `remarry`
unfoldable pub remarry : Env → ℕ → Option Text → M Db ℕ
unfolding find_union insert_union
remarry env id marriage_date = do
  previous ← find_union id
  date ← parse_partial_date env marriage_date
  insert_union union_remarry previous.husband_id previous.wife_id date
