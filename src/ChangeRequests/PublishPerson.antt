-- ===== src/ChangeRequests/PublishPerson.antt =====
-- change-request.publisher.ts `applyPerson`: a request on a person goes through the write paths of
-- the persons service.
use tftsp.Common.{
  Bool, true, false, Exception, ℕ, Option, none, some, if◌then◌else◌, ◌==◌, M, Result, ok, fail,
  app_exception, plain_error, version_conflict, person_not_found, ◌>>=◌, return, require,
}
use tftsp.Domain.{ChangeOperation, create, update}
use tftsp.Database.{Env, Db, find_live}
use tftsp.Patches.{Fields, patch_to_field_object}
use tftsp.Persons.Writes.{create_in_tx, update_in_tx, soft_delete_in_tx}
use tftsp.ChangeRequests.Readers.{read_create_person, read_update_person}
use tftsp.ChangeRequests.Requests.{ChangeRequest, PublishOutcome, applied, in_conflict}

-- the two errors that count as a conflict
abbrev pub is_race : Exception → Bool
is_race (app_exception version_conflict status) = true
is_race (app_exception person_not_found status) = true
is_race _ = false

-- the `catch` of `applyPerson`: what was written before stays
abbrev pub catch_race : Option ℕ → Result (Unit {0}) × Db → Result PublishOutcome × Db
catch_race target (ok _, db) = (ok (applied target), db)
catch_race target (fail e, db) = (if is_race e then ok in_conflict else fail e, db)

-- the body of the `try`
unfoldable pub write_person : Env → ChangeOperation → Fields → ℕ → ℕ → M Db (Unit {0})
unfolding update_in_tx soft_delete_in_tx read_update_person
write_person env update fs target version = do
  dto ← require (read_update_person fs version) plain_error
  update_in_tx env target dto
write_person env _ fs target version = soft_delete_in_tx env target

unfoldable pub create_person : Env → ℕ → Fields → M Db PublishOutcome
unfolding create_in_tx read_create_person
create_person env author fs = do
  dto ← require (read_create_person fs) plain_error
  id ← create_in_tx env dto (some author) none
  return (applied (some id))

-- update or delete, with the target and the version that the request was made against
unfoldable pub change_person : Env → ChangeRequest → Option ℕ → Option ℕ → M Db PublishOutcome
unfolding write_person
change_person env cr none base db = (ok in_conflict, db)
change_person env cr (some target) none db = (ok in_conflict, db)
change_person env cr (some target) (some version) db = elim (find_live db target) [
  | none ↦ (ok in_conflict, db)
  | some current ↦
      if current.version == version
      then catch_race (some target)
          (write_person env cr.operation (patch_to_field_object cr.patch) target version db)
      else (ok in_conflict, db)
]

-- by the operation of the request
abbrev pub person_operation : Env → ChangeRequest → ChangeOperation → M Db PublishOutcome
person_operation env cr create = create_person env cr.created_by (patch_to_field_object cr.patch)
person_operation env cr _ = change_person env cr cr.target_id cr.base_version

unfoldable pub apply_person : Env → ChangeRequest → M Db PublishOutcome
unfolding create_person change_person
apply_person env cr = person_operation env cr cr.operation
