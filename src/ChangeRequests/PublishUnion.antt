-- ===== src/ChangeRequests/PublishUnion.antt =====
-- change-request.publisher.ts `applyUnion`: a union has no version, a missing row is the conflict.
use tftsp.Common.{
  ℕ, ◌+◌, true, false, Option, none, some, if◌then◌else◌, text, is_some, insert_row, set_row,
  delete_row, M, ok, plain_error, ◌>>=◌, ◌>>◌, return, get, modify, require, throw_if,
}
use tftsp.Domain.{ChangeOperation, create, delete, active}
use tftsp.Database.{Env, Db, Union, record_audit, union_create, union_update, union_delete}
use tftsp.Patches.{Json, Fields, get_field, patch_to_field_object}
use tftsp.Persons.Fields.{parse_partial_date, update_date, given}
use tftsp.ChangeRequests.Readers.{as_text, as_id, flat, read_union_status}
use tftsp.ChangeRequests.Requests.{ChangeRequest, PublishOutcome, applied, in_conflict}

-- a required identifier of a person on record, as the foreign keys of `unions` want it
unfoldable pub person_key : Option Json → M Db ℕ
person_key json = do
  id ← require (flat (flat (as_id json))) plain_error
  db ← get
  throw_if (if is_some (db.persons.at id) then false else true) plain_error
  return id

unfoldable pub create_union : Env → Fields → M Db PublishOutcome
unfolding person_key parse_partial_date
create_union env fs = do
  date ← require (as_text (get_field (text "marriageDate") fs)) plain_error
  marriage_date ← parse_partial_date env (flat date)
  husband_id ← person_key (get_field (text "husbandId") fs)
  wife_id ← person_key (get_field (text "wifeId") fs)
  db ← get
  modify (λ d. record d {
    unions =
        insert_row d.next_id
          (record {
            husband_id = husband_id;
            wife_id = wife_id;
            marriage_date = marriage_date;
            status = active;
            end_date = none;
            end_reason = none;
          })
          d.unions;
    next_id = d.next_id + 1;
  })
  record_audit union_create db.next_id
  return (applied (some db.next_id))

unfoldable pub update_union : Env → Fields → ℕ → Union → M Db (Unit {0})
unfolding update_date read_union_status
update_union env fs id before = do
  marriage ← require (as_text (get_field (text "marriageDate") fs)) plain_error
  marriage_date ← update_date env marriage before.marriage_date
  end ← require (as_text (get_field (text "endDate") fs)) plain_error
  end_date ← update_date env end before.end_date
  status ← require (read_union_status (get_field (text "status") fs)) plain_error
  reason ← require (as_text (get_field (text "endReason") fs)) plain_error
  modify (λ d. record d {
    unions =
        set_row id
          (record before {
            marriage_date = marriage_date;
            end_date = end_date;
            status = given status before.status;
            end_reason = given reason before.end_reason;
          })
          d.unions;
  })
  record_audit union_update id

unfoldable pub change_union : Env → ChangeOperation → Fields → ℕ → Union → M Db PublishOutcome
unfolding update_union
change_union env delete fs id before = do
  modify (λ d. record d { unions = delete_row id d.unions })
  record_audit union_delete id
  return (applied (some id))
change_union env _ fs id before = do update_union env fs id before; return (applied (some id))

-- update or delete, of a row that is there
abbrev pub union_on_record : Env → ChangeRequest → Option ℕ → M Db PublishOutcome
union_on_record env cr none db = (ok in_conflict, db)
union_on_record env cr (some id) db = elim (db.unions.at id) [
  | none ↦ (ok in_conflict, db)
  | some before ↦ change_union env cr.operation (patch_to_field_object cr.patch) id before db
]

abbrev pub union_operation : Env → ChangeRequest → ChangeOperation → M Db PublishOutcome
union_operation env cr create = create_union env (patch_to_field_object cr.patch)
union_operation env cr _ = union_on_record env cr cr.target_id

unfoldable pub apply_union : Env → ChangeRequest → M Db PublishOutcome
unfolding create_union change_union
apply_union env cr = union_operation env cr cr.operation
