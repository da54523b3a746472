-- ===== src/ChangeRequests/Examples.antt =====
-- Runs of the change request service: a request of user 8 to add a person, reviewed by user 9.
use tftsp.Common.{
  ℕ, length, count_by, mem, ◌==◌, ◌≡◌, ◌≢◌, ◌≤◌, refl, false, some, [], arith, ok, fail, Result,
  plain_error,
}
use tftsp.Domain.{submitted, draft, published, approve}
use tftsp.Patches.{
  patch_to_field_object, fields_from, field_of, split_slash, decode_segment, replace_escape,
  set_field, get_field,
}
use tftsp.Persons.Fields.{build_full_name, parse_partial_date, new_person}
use tftsp.Persons.Writes.{
  create_in_tx, insert_in_tx, insert_person, validate_parents, validate_father, validate_mother,
  has_duplicates,
}
use tftsp.Persons.Sample.{example_env}
use tftsp.ChangeRequests.Sample.{example_ports, add_adam, request_in, store_with}
use tftsp.ChangeRequests.Readers.{read_create_person}
use tftsp.ChangeRequests.Requests.{ChangeRequest}
use tftsp.ChangeRequests.PublishPerson.{create_person, apply_person}
use tftsp.ChangeRequests.Publisher.{apply}
use tftsp.ChangeRequests.Store.{
  Store, find_request, update_request, upsert_review, approvals_count, notify, notify_many,
  notify_each, reviewer_ids, record_decision,
}
use tftsp.ChangeRequests.Service.{Ports, is_import, submit, announce_submission}
use tftsp.ChangeRequests.Review.{
  review, conclude, conclude_approval, publish, publish_change, apply_and_mark, announce,
}
use tftsp.ChangeRequests.Lifecycle.{IsWaiting, Step, submitting, reviewing, submit-Step}
use tftsp.ChangeRequests.Reviewing.{review-Step, with_decision}
use tftsp.ChangeRequests.Quorum.{IsReviewed, approvers, review-approvers}
use tftsp.ChangeRequests.Reviews.{LeavesReviews, review-IsReviewed}
use tftsp.ChangeRequests.Maintenance.{run_expiry_sweep, as_expired}
use tftsp.ChangeRequests.Sweeps.{run_expiry_sweep-at}

abbrev submitted_store : Store
submitted_store = store_with (request_in submitted add_adam)

abbrev row_in : {A : Type 0} → Result ChangeRequest × A → ChangeRequest
row_in (ok r, s) = r
row_in (fail e, s) = request_in draft []

abbrev reviewed_row : ChangeRequest
reviewed_row = row_in (review example_ports example_env 5 approve 9 submitted_store)

abbrev reviewed_store : Store
reviewed_store = (review example_ports example_env 5 approve 9 submitted_store).1

reviewed :
    review example_ports example_env 5 approve 9 submitted_store ≡ (ok reviewed_row, reviewed_store)
unfolding review find_request upsert_review conclude conclude_approval approvals_count publish
    publish_change apply_and_mark apply apply_person create_person read_create_person
    patch_to_field_object fields_from field_of split_slash decode_segment replace_escape set_field
    get_field create_in_tx validate_parents validate_father validate_mother parse_partial_date
    insert_in_tx insert_person new_person build_full_name has_duplicates update_request announce
    notify record_decision
reviewed = refl

reviewed_is_published : reviewed_row.status ≡ published
unfolding review find_request upsert_review conclude conclude_approval approvals_count publish
    publish_change apply_and_mark apply apply_person create_person read_create_person
    patch_to_field_object fields_from field_of split_slash decode_segment replace_escape set_field
    get_field create_in_tx validate_parents validate_father validate_mother parse_partial_date
    insert_in_tx insert_person new_person build_full_name has_duplicates update_request announce
    notify record_decision
reviewed_is_published = refl

review-Step_example :
    (cr : ChangeRequest) × (submitted_store.requests.at 5 ≡ some cr)
    × (cr.created_by ≢ 9)
    × IsWaiting cr.status
    × Step (reviewing approve) cr.status reviewed_row.status
review-Step_example = review-Step example_ports example_env 5 approve 9 submitted_store reviewed

about_person :
    (cr : ChangeRequest)
    → submitted_store.requests.at 5 ≡ some cr
    → is_import cr.target_type ≡ false
about_person cr e = ground arith

-- the database fails after the commit
abbrev failing_ports : Ports
failing_ports = record example_ports { refuses = λ s. some plain_error }

abbrev adam_request : ChangeRequest
adam_request = request_in submitted add_adam

abbrev failed_store : Store
failed_store = (publish_change failing_ports example_env 5 adam_request submitted_store).1

abbrev drafted_store : Store
drafted_store = store_with (request_in draft add_adam)

abbrev submitted_row : ChangeRequest
submitted_row = row_in (submit example_ports example_env 5 8 drafted_store)

handed_in :
    submit example_ports example_env 5 8 drafted_store
    ≡ (ok submitted_row, (submit example_ports example_env 5 8 drafted_store).1)
unfolding submit find_request update_request announce_submission reviewer_ids notify_many
    notify_each notify
handed_in = refl

submit-Step_example :
    (cr : ChangeRequest) × (drafted_store.requests.at 5 ≡ some cr)
    × (cr.created_by ≡ 8)
    × Step submitting cr.status submitted_row.status
    × (submitted_row ≡ record cr { status = submitted })
    × ((submit example_ports example_env 5 8 drafted_store).1.requests.at 5 ≡ some submitted_row)
submit-Step_example = submit-Step example_ports example_env 5 8 drafted_store handed_in

run_expiry_sweep-at_example :
    (run_expiry_sweep 1000 drafted_store).1.requests.at 5
    ≡ some (as_expired (request_in draft add_adam))
run_expiry_sweep-at_example = run_expiry_sweep-at 1000 drafted_store 5 refl

submitted_store-IsReviewed : IsReviewed submitted_store
submitted_store-IsReviewed = record { once = λ id u. omega arith; other = λ id cr e. refl }

review-approvers_example :
    (cr : ChangeRequest) × (submitted_store.requests.at 5 ≡ some cr)
    × (1 ≤ length (approvers 5 (with_decision 5 approve 9 submitted_store).reviews))
    × ((u : ℕ)
        → count_by (λ x. x == u) (approvers 5 (with_decision 5 approve 9 submitted_store).reviews)
          ≤ 1)
    × (mem cr.created_by (approvers 5 (with_decision 5 approve 9 submitted_store).reviews) ≡ false)
review-approvers_example =
    review-approvers example_ports example_env 5 approve 9 submitted_store
      submitted_store-IsReviewed reviewed reviewed_is_published

example_ports-LeavesReviews : LeavesReviews example_ports
example_ports-LeavesReviews = record { publishing = λ id cr s c. c; rejecting = λ id cr s c. c }

review-IsReviewed_example :
    IsReviewed (review example_ports example_env 5 approve 9 submitted_store).1
review-IsReviewed_example =
    review-IsReviewed example_ports example_env 5 approve 9 submitted_store
      example_ports-LeavesReviews submitted_store-IsReviewed
