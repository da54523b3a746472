-- ===== src/Imports/Service.antt =====
-- import.service.ts: the preview of a batch is corrected row by row, submitted as one change request,
-- and a published batch may be rolled back.
use tftsp.Common.{
  ℕ, ◌+◌, Bool, true, false, not, Option, none, some, List, [], ◌∷◌, ◌&&◌, ◌||◌, ◌==◌,
  if◌then◌else◌, mem, ltb, length, filter, text, set_row, update_row, count_rows, select_ids,
  map_rows, M, ◌>>=◌, ◌>>◌, get, modify, require, throw_if, bad_request, not_found, conflict,
  plain_error, import_not_found, import_row_not_found, import_invalid_state, import_has_errors,
  import_nothing_to_import, import_rollback_blocked,
}
use tftsp.Domain.{import_batch, create, PlanTier}
use tftsp.Database.{Env, Db, Person, is_live, import_submit, import_rollback}
use tftsp.Lineage.Rebuild.{rebuild}
use tftsp.Persons.Consistency.{live, father_of}
use tftsp.Patches.{JsonPatchOp, add, str}
use tftsp.ChangeRequests.Store.{Store, on_db, record_store_audit}
use tftsp.ChangeRequests.Service.{Ports, create_request, submit}
use tftsp.Subscriptions.{assert_can_add_persons}
use tftsp.Imports.{
  ImportBatch, ImportRow, BatchStatus, RowStatus, Decision, RowError, Column, derive_status,
  is_ambiguous_error,
}

abbrev pub is_status : BatchStatus → BatchStatus → Bool
is_status BatchStatus.preview BatchStatus.preview = true
is_status BatchStatus.published BatchStatus.published = true
is_status _ _ = false

-- `get`
unfoldable pub find_batch : ℕ → M Store ImportBatch
find_batch id = do s ← get; require (s.batches.at id) (not_found import_not_found)

-- the batch in the status that an operation asks for
unfoldable pub batch_in : BatchStatus → ℕ → M Store (Unit {0})
unfolding find_batch
batch_in status id = do
  batch ← find_batch id
  throw_if (not (is_status status batch.status)) (bad_request import_invalid_state)

pub record UpdateImportRowDto : Type 0 where
  pub decision : Option Decision
  pub merge_target : Option ℕ
  pub resolved_father : Option ℕ
  pub resolved_mother : Option ℕ
  pub resolved_spouse : Option ℕ

abbrev is_column : Column → Column → Bool
is_column Column.father_column Column.father_column = true
is_column Column.mother_column Column.mother_column = true
is_column Column.spouse_column Column.spouse_column = true
is_column _ _ = false

-- the errors without the ambiguity of a column, where it is resolved
abbrev pub settle : Column → Option ℕ → List RowError → List RowError
settle column none errors = errors
settle column (some _) errors =
    filter (λ (e : RowError). not (is_column column e.column && is_ambiguous_error e)) errors

abbrev newer : {A : Type 0} → Option A → A → A
newer none old = old
newer (some new) old = new

abbrev newer_id : Option ℕ → Option ℕ → Option ℕ
newer_id none old = old
newer_id (some new) old = some new

-- the row after `updateRow`
unfoldable pub updated_row : UpdateImportRowDto → ImportRow → ImportRow
unfolding derive_status
updated_row dto row =
    let errors = settle Column.spouse_column dto.resolved_spouse (
      settle Column.mother_column dto.resolved_mother
        (settle Column.father_column dto.resolved_father row.errors)) in
    let changed = not (length errors == length row.errors) in
    record row {
      decision = newer dto.decision row.decision;
      merge_target = newer_id dto.merge_target row.merge_target;
      resolved_father = newer_id dto.resolved_father row.resolved_father;
      resolved_mother = newer_id dto.resolved_mother row.resolved_mother;
      resolved_spouse = newer_id dto.resolved_spouse row.resolved_spouse;
      errors = if changed then errors else row.errors;
      status = if changed then derive_status errors row.duplicate_of else row.status;
    }

abbrev row_in_batch : Store → ℕ → ℕ → Option ImportRow
row_in_batch s id row_id = elim (s.import_rows.at row_id) [
  | none ↦ none
  | some row ↦ if row.batch_id == id then some row else none
]

-- `updateRow`
unfoldable pub update_import_row : ℕ → ℕ → UpdateImportRowDto → M Store (Unit {0})
unfolding batch_in updated_row
update_import_row id row_id dto = do
  batch_in BatchStatus.preview id
  s ← get
  row ← require (row_in_batch s id row_id) (not_found import_row_not_found)
  modify (λ t. record t { import_rows = set_row row_id (updated_row dto row) t.import_rows })

abbrev is_row_status : RowStatus → RowStatus → Bool
is_row_status RowStatus.valid RowStatus.valid = true
is_row_status RowStatus.error RowStatus.error = true
is_row_status RowStatus.duplicate_candidate RowStatus.duplicate_candidate = true
is_row_status RowStatus.ambiguous RowStatus.ambiguous = true
is_row_status _ _ = false

-- `countRows`
abbrev pub count_by_status : Store → ℕ → RowStatus → ℕ
count_by_status s id status =
    count_rows (λ (r : ImportRow). r.batch_id == id && is_row_status status r.status) s.import_rows

abbrev is_new : Decision → Bool
is_new Decision.new = true
is_new _ = false

abbrev not_ignored : Decision → Bool
not_ignored Decision.ignore = false
not_ignored _ = true

-- `countCreating`
unfoldable pub count_creating : Store → ℕ → ℕ
count_creating s id =
    count_rows
      (λ (r : ImportRow).
        r.batch_id == id && (is_row_status RowStatus.valid r.status && not_ignored r.decision))
      s.import_rows
    + count_rows
        (λ (r : ImportRow).
          r.batch_id == id
          && (is_row_status RowStatus.duplicate_candidate r.status && is_new r.decision))
        s.import_rows

-- the patch of the request of a batch
abbrev batch_patch : Env → ℕ → List JsonPatchOp
batch_patch env id =
    record { op = add; path = text "/importBatchId"; value = str (env.show_id id) } ∷ []

-- `submit`
unfoldable pub submit_import : Ports → Env → Option PlanTier → ℕ → Bool → ℕ → M Store (Unit {0})
unfolding batch_in count_creating assert_can_add_persons create_request submit
submit_import ports env subscription id partial user = do
  batch_in BatchStatus.preview id
  s ← get
  throw_if
      (not partial
        && ltb 0 (count_by_status s id RowStatus.error + count_by_status s id RowStatus.ambiguous))
      (bad_request import_has_errors)
  throw_if (count_creating s id == 0) (bad_request import_nothing_to_import)
  on_db (assert_can_add_persons subscription (count_creating s id))
  cr ←
      create_request ports env
        (record {
          target_type = import_batch;
          target_id = some id;
          operation = create;
          patch = batch_patch env id;
          contribution_type = none;
        })
        user
  sent ← submit ports env cr user
  modify (λ t. record t {
    batches =
        update_row
          (λ (b : ImportBatch). record b {
            status = BatchStatus.submitted;
            change_request = some cr;
          })
          id t.batches;
  })
  record_store_audit import_submit id

abbrev pub opt_mem : Option ℕ → List ℕ → Bool
opt_mem none ids = false
opt_mem (some x) ids = mem x ids

-- `ownerBatchPersonIds`
abbrev pub batch_person_ids : Db → ℕ → List ℕ
batch_person_ids db id = select_ids (λ (p : Person). opt_mem p.import_batch_id (id ∷ [])) db.persons

-- the live persons outside the batch with a parent in it
abbrev pub dependent_children : Db → List ℕ → List ℕ
dependent_children db batch =
    filter (λ x. not (mem x batch))
      (select_ids
        (λ (p : Person). is_live p && (opt_mem p.father_id batch || opt_mem p.mother_id batch))
        db.persons)

abbrev pub blocking_unions : Db → List ℕ → List ℕ
blocking_unions db batch = select_ids (λ u. mem u.husband_id batch || mem u.wife_id batch) db.unions

abbrev pub delete_member : ℕ → ℕ → Person → Person
delete_member now id p =
    if is_live p && opt_mem p.import_batch_id (id ∷ [])
    then record p { deleted_at = some now }
    else p

-- the first transaction of `rollback`: the live persons of the batch are deleted
abbrev pub delete_batch : ℕ → ℕ → Db → Db
delete_batch now id db = record db { persons = map_rows (delete_member now id) db.persons }

-- `findRollbackBlockers`
abbrev pub blockers : Db → ℕ → ℕ
blockers db id =
    length (dependent_children db (batch_person_ids db id))
    + length (blocking_unions db (batch_person_ids db id))

-- `lineage.rebuildClosure`, with fuel for the rounds of its query
unfoldable pub rebuild_closure : ℕ → M Db (Unit {0})
unfolding rebuild
rebuild_closure fuel = do
  db ← get
  closure ←
      require (rebuild (live db.persons.at) (father_of db.persons.at) fuel db.persons.ids)
        plain_error
  modify (λ d. record d { closures = closure })

-- the refusal and the two transactions of `rollback`
unfoldable pub roll_back_tree : Env → ℕ → ℕ → M Db (Unit {0})
unfolding rebuild_closure
roll_back_tree env fuel id = do
  db ← get
  throw_if (ltb 0 (blockers db id)) (conflict import_rollback_blocked)
  modify (delete_batch env.now id)
  rebuild_closure fuel

unfoldable pub mark_rolled_back : ℕ → M Store (Unit {0})
mark_rolled_back id = do
  modify (λ t. record t {
    batches =
        update_row (λ (b : ImportBatch). record b { status = BatchStatus.rolled_back }) id
          t.batches;
  })
  record_store_audit import_rollback id

-- `rollback`
unfoldable pub rollback : Env → ℕ → ℕ → M Store (Unit {0})
unfolding batch_in roll_back_tree mark_rolled_back
rollback env fuel id = do
  batch_in BatchStatus.published id
  on_db (roll_back_tree env fuel id)
  mark_rolled_back id
