-- ===== src/ChangeRequests/Service.antt =====
-- change-request.service.ts: the life of a request, from its draft to its publication. Import batches
-- and the visibility of persons come from other modules, through `Ports`.
use tftsp.Common.{
  Exception, ℕ, ◌+◌, ◌*◌, Bool, true, false, Option, none, some, List, ◌&&◌, ◌==◌, not, is_some,
  if◌then◌else◌, any, leb, filter, map, text, Text, insert_row, M, ok, fail, ◌>>=◌, ◌>>◌, return,
  get, throw_if, bad_request, forbidden, not_found, person_not_found, cr_target_required,
  cr_invalid_state, cr_not_owner, contribution_too_many_pending, contribution_viewer_not_allowed,
}
use tftsp.Domain.{
  ChangeTargetType, person, import_batch, ChangeOperation, create, ChangeRequestStatus, draft,
  submitted, under_review, changes_requested, ContributionType, change_request_submitted,
  includes_role,
}
use tftsp.Database.{Env, find_live, cr_create, cr_update, cr_submit}
use tftsp.Rbac.{active_assignments, contributor_roles, viewer_allowed}
use tftsp.Patches.{JsonPatchOp, Op, add, remove, replace, RawOp, assert_valid_patch}
use tftsp.ChangeRequests.Requests.{ChangeRequest}
use tftsp.ChangeRequests.Store.{
  Store, record_store_audit, find_request, update_request, reviewer_ids, notify_many, count_pending,
}

-- what the service calls of the imports module (`ImportBatchApplier`, which may be absent) and of the
-- visibility resolver
pub record Ports : Type 0 where
  pub has_importer : Bool
  pub publish_batch : ℕ → ChangeRequest → M Store (Unit {0})
  pub on_batch_rejected : ℕ → ChangeRequest → M Store (Unit {0})
  -- `persons.findOne`: whether the user sees the person
  pub sees : Store → ℕ → ℕ → Bool
  -- the error that a call after the outcome of a review meets, if any
  pub refuses : Store → Option Exception

pub record CreateChangeRequestDto : Type 0 where
  pub target_type : ChangeTargetType
  pub target_id : Option ℕ
  pub operation : ChangeOperation
  pub patch : List JsonPatchOp
  pub contribution_type : Option ContributionType

-- `ACTIVE_STATUSES`
abbrev pub is_active_status : ChangeRequestStatus → Bool
is_active_status submitted = true
is_active_status under_review = true
is_active_status _ = false

abbrev pub is_create : ChangeOperation → Bool
is_create create = true
is_create _ = false

abbrev pub is_person : ChangeTargetType → Bool
is_person person = true
is_person _ = false

abbrev pub is_import : ChangeTargetType → Bool
is_import import_batch = true
is_import _ = false

abbrev op_name : Op → Text
op_name add = text "add"
op_name remove = text "remove"
op_name replace = text "replace"

abbrev pub raw_of : JsonPatchOp → RawOp
raw_of o = record { op = some (op_name o.op); path = some o.path }

abbrev pub is_editable_by_owner : ChangeRequestStatus → Bool
is_editable_by_owner draft = true
is_editable_by_owner changes_requested = true
is_editable_by_owner _ = false

module _ (ports : Ports) (env : Env) where
  -- `captureBaseVersion`
  unfoldable pub capture_base_version : ChangeTargetType → ℕ → M Store (Option ℕ)
  capture_base_version person id s = elim (find_live s.db id) [
    | none ↦ (fail (not_found person_not_found), s)
    | some p ↦ (ok (some p.version), s)
  ]
  capture_base_version _ id s = (ok none, s)

  abbrev is_viewer_ok : Bool → Option ContributionType → Bool
  is_viewer_ok allowed none = false
  is_viewer_ok allowed (some t) = allowed && viewer_allowed t

  abbrev is_hidden : Store → ℕ → CreateChangeRequestDto → Bool
  is_hidden s user dto = elim dto.target_id [
    | none ↦ false
    | some id ↦ is_person dto.target_type && not (ports.sees s user id)
  ]

  -- `enforceContributionRules`
  unfoldable pub enforce_contribution_rules : CreateChangeRequestDto → ℕ → M Store (Unit {0})
  unfolding count_pending
  enforce_contribution_rules dto user = do
    s ← get
    throw_if (leb s.thresholds.max_pending (count_pending user s))
        (forbidden contribution_too_many_pending)
    throw_if
        (not (
            any (λ a. includes_role contributor_roles a.role)
              (active_assignments env.tenant_id env.now user s.assignments))
          && not (is_viewer_ok s.thresholds.allow_viewer_contributions dto.contribution_type))
        (forbidden contribution_viewer_not_allowed)
    throw_if (is_hidden s user dto) (not_found person_not_found)

  abbrev rules_if_contribution : CreateChangeRequestDto → ℕ → M Store (Unit {0})
  rules_if_contribution dto user = elim dto.contribution_type [
    | none ↦ return tt
    | some t ↦ enforce_contribution_rules dto user
  ]

  abbrev base_version_of : CreateChangeRequestDto → M Store (Option ℕ)
  base_version_of dto = elim dto.target_id [
    | none ↦ return none
    | some id ↦
        if is_create dto.operation then return none else capture_base_version dto.target_type id
  ]

  -- `repo.create`
  abbrev insert_request : ChangeRequest → M Store ℕ
  insert_request cr s = (
    ok s.db.next_id,
    record s {
      requests = insert_row s.db.next_id cr s.requests;
      db = record (s.db) { next_id = s.db.next_id + 1 };
    },
  )

  -- `create`
  unfoldable pub create_request : CreateChangeRequestDto → ℕ → M Store ℕ
  unfolding assert_valid_patch enforce_contribution_rules capture_base_version
  create_request dto user = do
    assert_valid_patch (some (map raw_of dto.patch))
    throw_if (not (is_create dto.operation) && not (is_some dto.target_id))
        (bad_request cr_target_required)
    rules_if_contribution dto user
    base_version ← base_version_of dto
    s ← get
    id ← insert_request (record {
      target_type = dto.target_type;
      target_id = dto.target_id;
      operation = dto.operation;
      patch = dto.patch;
      status = draft;
      base_version = base_version;
      contribution_type = dto.contribution_type;
      created_by = user;
      expires_at = env.now + s.settings.expiry_days * 86400000;
      published_at = none;
    })
    record_store_audit cr_create id
    return id

  -- `update`
  unfoldable pub update_patch : ℕ → List JsonPatchOp → ℕ → M Store ChangeRequest
  unfolding assert_valid_patch find_request update_request
  update_patch id patch user = do
    assert_valid_patch (some (map raw_of patch))
    cr ← find_request id
    s ← get
    throw_if ((cr.created_by == user) && not (is_editable_by_owner cr.status))
        (bad_request cr_invalid_state)
    throw_if
        (not (cr.created_by == user)
          && not (s.settings.reviewer_can_edit && is_active_status cr.status))
        (forbidden cr_not_owner)
    updated ← update_request id (λ r. record r { patch = patch })
    record_store_audit cr_update id
    return updated

  -- the reviewers hear of it, the author does not
  unfoldable pub announce_submission : ℕ → ℕ → M Store (Unit {0})
  unfolding reviewer_ids notify_many
  announce_submission id user = do
    record_store_audit cr_submit id
    s ← get
    notify_many (filter (λ r. not (r == user)) (reviewer_ids env s)) change_request_submitted id

  -- `submit`
  unfoldable pub submit : ℕ → ℕ → M Store ChangeRequest
  unfolding find_request update_request announce_submission
  submit id user = do
    cr ← find_request id
    throw_if (not (cr.created_by == user)) (forbidden cr_not_owner)
    throw_if (not (is_editable_by_owner cr.status)) (bad_request cr_invalid_state)
    updated ← update_request id (λ r. record r { status = submitted })
    announce_submission id user
    return updated
