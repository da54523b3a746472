-- ===== src/Domain.antt =====
-- The shared vocabulary of the platform: packages/shared-types/src and the enums that the API takes
-- from it.
use tftsp.Common.{ℕ, Bool, List, ◌==◌, any}

pub data Role : Type 0 where
  super_admin platform_admin tribe_admin deputy_admin branch_admin : Role
  reviewer contributor viewer guest : Role

pub data Gender : Type 0 where
  male female : Gender

pub data ChangeTargetType : Type 0 where
  person union tribal_unit import_batch : ChangeTargetType

pub data ChangeOperation : Type 0 where
  create update delete : ChangeOperation

pub data ChangeRequestStatus : Type 0 where
  draft submitted under_review approved rejected : ChangeRequestStatus
  changes_requested published conflicted expired : ChangeRequestStatus

pub data ReviewDecision : Type 0 where
  approve reject request_changes : ReviewDecision

pub data ContributionType : Type 0 where
  add_person edit_data fix_relation upload_document add_source add_biography : ContributionType

pub data NotificationType : Type 0 where
  change_request_submitted change_request_approved change_request_published : NotificationType
  change_request_rejected change_request_changes_requested : NotificationType
  change_request_conflict change_request_expired change_request_expiring : NotificationType
  view_request_submitted : NotificationType

pub data UnionStatus : Type 0 where
  active divorced widowed : UnionStatus

pub data UnitType : Type 0 where
  tribe branch clan family : UnitType

pub data PlanTier : Type 0 where
  free basic professional enterprise : PlanTier

-- a number for each role, by which roles are compared
abbrev role_code : Role → ℕ
role_code super_admin = 0
role_code platform_admin = 1
role_code tribe_admin = 2
role_code deputy_admin = 3
role_code branch_admin = 4
role_code reviewer = 5
role_code contributor = 6
role_code viewer = 7
role_code guest = 8

abbrev pub role_eq : Role → Role → Bool
role_eq a b = role_code a == role_code b

-- `roles.includes(role)`
abbrev pub includes_role : List Role → Role → Bool
includes_role roles role = any (λ r. role_eq r role) roles
