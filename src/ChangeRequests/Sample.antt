-- ===== src/ChangeRequests/Sample.antt =====
-- A store with one change request, for the runs of the examples.
use tftsp.Common.{true, false, none, List, [], ◌∷◌, empty_table, insert_row, text, return}
use tftsp.Domain.{person, create, ChangeRequestStatus}
use tftsp.Patches.{JsonPatchOp, add, str}
use tftsp.Persons.Sample.{empty_db}
use tftsp.ChangeRequests.Requests.{ChangeRequest}
use tftsp.ChangeRequests.Store.{Store}
use tftsp.ChangeRequests.Service.{Ports}

-- no imports module, everyone sees everyone, and no call fails
abbrev pub example_ports : Ports
example_ports = record {
  has_importer = false;
  publish_batch = λ id cr. return tt;
  on_batch_rejected = λ id cr. return tt;
  sees = λ s user id. true;
  refuses = λ s. none;
}

abbrev pub add_adam : List JsonPatchOp
add_adam =
    record { op = add; path = text "/firstName"; value = str (text "Adam") }
    ∷ record { op = add; path = text "/gender"; value = str (text "male") }
    ∷ []

abbrev pub request_in : ChangeRequestStatus → List JsonPatchOp → ChangeRequest
request_in status patch = record {
  target_type = person;
  target_id = none;
  operation = create;
  patch = patch;
  status = status;
  base_version = none;
  contribution_type = none;
  created_by = 8;
  expires_at = 500;
  published_at = none;
}

abbrev pub store_with : ChangeRequest → Store
store_with cr = record {
  db = empty_db;
  requests = insert_row 5 cr empty_table;
  reviews = [];
  notifications = [];
  reputations = empty_table;
  thresholds = record {
    silver_min_accepted = 5;
    gold_min_accepted = 20;
    silver_min_accuracy = record { part = 7; whole = 10 };
    gold_min_accuracy = record { part = 9; whole = 10 };
    allow_viewer_contributions = false;
    max_pending = 20;
  };
  settings = record { approvals_required = 1; expiry_days = 30; reviewer_can_edit = false };
  assignments = [];
  batches = empty_table;
  import_rows = empty_table;
}
