-- ===== src/ChangeRequests/Requests.antt =====
-- change-request.repository.ts and change-request.publisher.ts: a row of `change_requests`, and what
-- publishing one comes to.
use tftsp.Common.{ℕ, Option, List}
use tftsp.Domain.{ChangeTargetType, ChangeOperation, ContributionType, ChangeRequestStatus}
use tftsp.Patches.{JsonPatchOp}

-- a row of `change_requests`
pub record ChangeRequest : Type 0 where
  pub target_type : ChangeTargetType
  pub target_id : Option ℕ
  pub operation : ChangeOperation
  pub patch : List JsonPatchOp
  pub status : ChangeRequestStatus
  pub base_version : Option ℕ
  pub contribution_type : Option ContributionType
  pub created_by : ℕ
  pub expires_at : ℕ
  pub published_at : Option ℕ

pub data PublishOutcome : Type 0 where
  applied : Option ℕ → PublishOutcome
  in_conflict : PublishOutcome
