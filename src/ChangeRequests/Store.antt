-- ===== src/ChangeRequests/Store.antt =====
-- What the change request service reads and writes: the rows of change-request.repository.ts, the
-- settings of the tenant, notifications, reputations, and the live data that publishing changes.
use tftsp.Common.{
  ℕ, Bool, true, false, none, some, List, [], ◌∷◌, ◌&&◌, ◌==◌, not, is_some, if◌then◌else◌, filter,
  count_by, Table, insert_row, count_rows, set_row, Result, ok, fail, M, modify, ◌>>◌, not_found,
  change_request_not_found, plain_error,
}
use tftsp.Domain.{
  ChangeRequestStatus, draft, submitted, under_review, changes_requested, ReviewDecision, approve,
  reject, request_changes, NotificationType, includes_role,
}
use tftsp.Database.{Env, Db, AuditAction, record_audit}
use tftsp.Rbac.{Assignment, is_active, m2_review_roles}
use tftsp.Reputation.{ContributorReputation, ReputationThresholds, or_new, decided}
use tftsp.ChangeRequests.Requests.{ChangeRequest}
use tftsp.Imports.{ImportBatch, ImportRow}

-- a row of `change_request_reviews`
pub record Review : Type 0 where
  pub request : ℕ
  pub reviewer : ℕ
  pub decision : ReviewDecision

pub record Notification : Type 0 where
  pub recipient : ℕ
  pub type : NotificationType
  pub subject : ℕ

pub record WorkflowSettings : Type 0 where
  pub approvals_required : ℕ
  pub expiry_days : ℕ
  pub reviewer_can_edit : Bool

pub record Store : Type 0 where
  pub db : Db
  pub requests : Table ChangeRequest
  pub reviews : List Review
  pub notifications : List Notification
  pub reputations : Table ContributorReputation
  pub thresholds : ReputationThresholds
  pub settings : WorkflowSettings
  pub assignments : List Assignment
  pub batches : Table ImportBatch
  pub import_rows : Table ImportRow

-- work on the live data, as a step of the service
abbrev pub put_db : {A : Type 0} → Store → Result A × Db → Result A × Store
put_db s (r, db) = (r, record s { db = db })

abbrev pub on_db : {A : Type 0} → M Db A → M Store A
on_db m s = put_db s (m s.db)

abbrev pub record_store_audit : AuditAction → ℕ → M Store (Unit {0})
record_store_audit action id = on_db (record_audit action id)

-- `findOne`
unfoldable pub find_request : ℕ → M Store ChangeRequest
find_request id s = elim (s.requests.at id) [
  | none ↦ (fail (not_found change_request_not_found), s)
  | some cr ↦ (ok cr, s)
]

-- `updateStatus` and `updateTx`: an update of a row, which must be there
unfoldable pub update_request : ℕ → (ChangeRequest → ChangeRequest) → M Store ChangeRequest
update_request id f s = elim (s.requests.at id) [
  | none ↦ (fail plain_error, s)
  | some cr ↦ (ok (f cr), record s { requests = set_row id (f cr) s.requests })
]

abbrev pub same_review : ℕ → ℕ → Review → Bool
same_review request reviewer r = (r.request == request) && (r.reviewer == reviewer)

-- one row for each request and reviewer
abbrev pub upsert : ℕ → ℕ → ReviewDecision → List Review → List Review
upsert request reviewer decision [] =
    record { request = request; reviewer = reviewer; decision = decision } ∷ []
upsert request reviewer decision (r ∷ rows) =
    let rest = upsert request reviewer decision rows in
    if same_review request reviewer r then record r { decision = decision } ∷ rows else r ∷ rest

unfoldable pub upsert_review : ℕ → ℕ → ReviewDecision → M Store (Unit {0})
upsert_review request reviewer decision =
    modify (λ s. record s { reviews = upsert request reviewer decision s.reviews })

abbrev pub is_approve : ReviewDecision → Bool
is_approve approve = true
is_approve reject = false
is_approve request_changes = false

unfoldable pub approvals_count : ℕ → Store → ℕ
approvals_count id s = count_by (λ r. (r.request == id) && is_approve r.decision) s.reviews

-- `[...new Set(ids)]`
abbrev pub distinct : List ℕ → List ℕ
distinct [] = []
distinct (x ∷ xs) = x ∷ filter (λ y. not (y == x)) (distinct xs)

abbrev pub user_ids : List Assignment → List ℕ
user_ids [] = []
user_ids (a ∷ rows) = a.user_id ∷ user_ids rows

unfoldable pub reviewer_ids : Env → Store → List ℕ
reviewer_ids env s = distinct (
    user_ids (
      filter
        (λ a.
          (a.tenant_id == env.tenant_id)
          && (includes_role m2_review_roles a.role && is_active env.now a))
        s.assignments))

-- `notify`, where the channels deliver what is stored here
unfoldable pub notify : ℕ → NotificationType → ℕ → M Store (Unit {0})
notify user type subject = modify (λ s. record s {
  notifications = record { recipient = user; type = type; subject = subject } ∷ s.notifications;
})

unfoldable pub notify_each : List ℕ → NotificationType → ℕ → M Store (Unit {0})
unfolding notify
notify_each [] type subject s = (ok tt, s)
notify_each (u ∷ users) type subject s =
    (do notify u type subject; notify_each users type subject) s

unfoldable pub notify_many : List ℕ → NotificationType → ℕ → M Store (Unit {0})
unfolding notify_each
notify_many users type subject = notify_each (distinct users) type subject

-- a row under its key, new or not
abbrev put_row : {V : Type 0} → ℕ → V → Table V → Table V
put_row x v t = elim (t.at x) [ none ↦ insert_row x v t | some _ ↦ set_row x v t ]

-- `recordDecision`
unfoldable pub record_decision : ℕ → Bool → M Store (Unit {0})
unfolding decided
record_decision user verdict = modify (λ s. record s {
  reputations =
      put_row user (decided verdict s.thresholds (or_new (s.reputations.at user))) s.reputations;
})

-- `PENDING_STATUSES` and `NON_TERMINAL`, the same list twice in the code
abbrev pub is_pending : ChangeRequestStatus → Bool
is_pending draft = true
is_pending submitted = true
is_pending under_review = true
is_pending changes_requested = true
is_pending _ = false

unfoldable pub count_pending : ℕ → Store → ℕ
count_pending user s =
    count_rows
      (λ cr. (cr.created_by == user) && (is_some cr.contribution_type && is_pending cr.status))
      s.requests
