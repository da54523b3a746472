-- ===== src/Imports/BatchExamples.antt =====
-- Runs of the publication of a batch and of its rollback.
use tftsp.Common.{
  Exception, Option, ℕ, ◌+◌, ◌≡◌, refl, Bool, true, none, some, [], ◌∷◌, arith, Text, length,
  empty_table, insert_row, ok, fail, Result,
}
use tftsp.Domain.{import_batch, submitted, approve, published}
use tftsp.Lineage.Moves.{deepest}
use tftsp.Persons.Sample.{example_env, empty_db, empty_db-IsConsistent, adam_dto}
use tftsp.Persons.Fields.{build_full_name, parse_partial_date, new_person}
use tftsp.Persons.Writes.{
  create_in_tx, insert_in_tx, insert_person, validate_parents, validate_father, validate_mother,
  has_duplicates,
}
use tftsp.Persons.Consistency.{IsConsistent}
use tftsp.Persons.Creating.{create_in_tx-IsConsistent}
use tftsp.ChangeRequests.Requests.{ChangeRequest}
use tftsp.ChangeRequests.Sample.{request_in, store_with}
use tftsp.ChangeRequests.Store.{
  Store, find_request, update_request, upsert_review, approvals_count, notify, record_decision,
}
use tftsp.ChangeRequests.Review.{
  review, conclude, conclude_approval, publish, publish_import, announce_import,
}
use tftsp.Imports.{ImportBatch, BatchStatus, empty_counts}
use tftsp.Imports.Parsing.{parse_gender, ref_target}
use tftsp.Imports.Ordering.{
  topological_order, edges, indegree, parent_refs, run_queue, start_queue, take_ref, release,
  children,
}
use tftsp.Imports.Transfer.{create_dto, resolve_parent}
use tftsp.Imports.Applying.{
  publish_batch, rows_of_batch, apply_all, apply_chunks, apply_chunk, apply_rows, apply_row,
  apply_create,
}
use tftsp.Imports.Applying.Counting.{publish_batch-counts}
use tftsp.Imports.Applying.Keeping.{publish_batch-IsConsistent}
use tftsp.Imports.Publication.{import_ports, review_all-IsConsistent}
use tftsp.Imports.Service.{blockers, rollback}
use tftsp.Imports.Rollback.{rollback-IsConsistent}
use tftsp.Imports.Resolving.{NameSearch}
use tftsp.Imports.Pipeline.{run}
use tftsp.Imports.Pipeline.Running.{Previewed, run-Previewed}
use tftsp.Imports.Samples.{son_row, father_row}

abbrev batch : BatchStatus → ImportBatch
batch status = record {
  status = status;
  progress = 0;
  counts = empty_counts;
  change_request = some 5;
  created_by = 8;
}

abbrev batch_request : ChangeRequest
batch_request = record (request_in submitted []) { target_type = import_batch; target_id = some 3 }

abbrev batch_store : Store
batch_store = record (store_with batch_request) {
  batches = insert_row 3 (batch BatchStatus.submitted) empty_table;
  import_rows = insert_row 2 father_row (insert_row 1 son_row empty_table);
}

abbrev published_store : Store
published_store = (publish_batch example_env batch_request batch_store).1

publication : publish_batch example_env batch_request batch_store ≡ (ok tt, published_store)
unfolding publish_batch apply_all apply_chunks apply_chunk apply_rows apply_row apply_create
    create_dto resolve_parent topological_order edges indegree parent_refs run_queue start_queue
    take_ref release children parse_gender ref_target create_in_tx validate_parents validate_father
    validate_mother parse_partial_date insert_in_tx insert_person new_person build_full_name
    has_duplicates
publication = refl

publish_batch-counts_example :
    (b : ImportBatch) × (published_store.batches.at 3 ≡ some b)
    × (b.status ≡ BatchStatus.published)
    × (b.counts.created + b.counts.merged + b.counts.ignored ≡ length (rows_of_batch batch_store 3))
publish_batch-counts_example =
    publish_batch-counts example_env batch_request batch_store 3 refl (refl, (refl, tt)) publication

publish_batch-IsConsistent_example : IsConsistent published_store.db
publish_batch-IsConsistent_example =
    publish_batch-IsConsistent example_env batch_request batch_store empty_db-IsConsistent

-- a tenant with one person, who came with batch 3
abbrev adam_store : Store
adam_store = record (store_with batch_request) {
  db = (create_in_tx example_env adam_dto none (some 3) empty_db).1;
  batches = insert_row 3 (batch BatchStatus.published) empty_table;
}

created : create_in_tx example_env adam_dto none (some 3) empty_db ≡ (ok 1, adam_store.db)
unfolding create_in_tx validate_parents validate_father validate_mother parse_partial_date
    insert_in_tx insert_person new_person build_full_name has_duplicates
created = refl

adam_store-IsConsistent : IsConsistent adam_store.db
adam_store-IsConsistent =
    create_in_tx-IsConsistent example_env adam_dto none (some 3) empty_db empty_db-IsConsistent
      created

shallow : deepest adam_store.db.closures ≡ 0
unfolding create_in_tx validate_parents validate_father validate_mother parse_partial_date
    insert_in_tx insert_person new_person build_full_name has_duplicates
shallow = refl

no_blockers : blockers adam_store.db 3 ≡ 0
unfolding create_in_tx validate_parents validate_father validate_mother parse_partial_date
    insert_in_tx insert_person new_person build_full_name has_duplicates
no_blockers = refl

rollback-IsConsistent_example : IsConsistent (rollback example_env 1 3 adam_store).1.db
rollback-IsConsistent_example =
    rollback-IsConsistent example_env 3 1 adam_store (omega (arith, shallow))
      adam_store-IsConsistent

abbrev everyone : Store → ℕ → ℕ → Bool
everyone s user id = true

abbrev row_in : {A : Type 0} → Result ChangeRequest × A → ChangeRequest
row_in (ok r, s) = r
row_in (fail e, s) = batch_request

-- no call fails
abbrev unhindered : Store → Option Exception
unhindered s = none

abbrev reviewed_row : ChangeRequest
reviewed_row =
    row_in
      (review (import_ports example_env everyone unhindered) example_env 5 approve 9 batch_store)

abbrev reviewed_store : Store
reviewed_store =
    (review (import_ports example_env everyone unhindered) example_env 5 approve 9 batch_store).1

reviewed :
    (review (import_ports example_env everyone unhindered) example_env 5 approve 9 batch_store
      ≡ (ok reviewed_row, reviewed_store))
    × (reviewed_row.status ≡ published)
unfolding review find_request upsert_review conclude conclude_approval approvals_count publish
    publish_import update_request announce_import notify record_decision publish_batch apply_all
    apply_chunks apply_chunk apply_rows apply_row apply_create create_dto resolve_parent
    topological_order edges indegree parent_refs run_queue start_queue take_ref release children
    parse_gender ref_target create_in_tx validate_parents validate_father validate_mother
    parse_partial_date insert_in_tx insert_person new_person build_full_name has_duplicates
reviewed = (refl, refl)

review_all-IsConsistent_example : IsConsistent reviewed_store.db
review_all-IsConsistent_example =
    review_all-IsConsistent example_env everyone unhindered 5 approve 9 batch_store
      empty_db-IsConsistent reviewed.0 reviewed.1

abbrev no_search : NameSearch
no_search = record { by_name = λ name clan. []; similar = λ name clan. [] }

abbrev auto : ℕ → Text
auto n = []

abbrev uploaded_store : Store
uploaded_store = record (store_with batch_request) {
  batches = insert_row 3 (batch BatchStatus.uploaded) empty_table;
}

run-Previewed_example :
    (s' : Store) × (run example_env no_search auto 3
        (some ((1, son_row.raw) ∷ (2, father_row.raw) ∷ []))
        uploaded_store
      ≡ (ok tt, s'))
    × Previewed example_env no_search auto 3
        ((1, son_row.raw) ∷ (2, father_row.raw) ∷ [])
        (batch BatchStatus.uploaded)
        uploaded_store
        s'
run-Previewed_example =
    run-Previewed example_env no_search auto 3 ((1, son_row.raw) ∷ (2, father_row.raw) ∷ [])
      uploaded_store (batch BatchStatus.uploaded) refl
