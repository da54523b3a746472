-- ===== src/Database.antt =====
-- The rows of one tenant that the writers of live data share, and what the services take from
-- outside: the clock, the parser of dates, the HTML sanitizer, the text search of the database.
use tftsp.Common.{
  ℕ, Bool, Option, none, some, List, ◌∷◌, if◌then◌else◌, Text, Table, M, modify, is_some, not,
}
use tftsp.Domain.{Gender, UnionStatus, UnitType}
use tftsp.Lineage.{Closure}

-- a row of `persons`; an instant is a number of milliseconds
pub record Person : Type 0 where
  pub full_name : Text
  pub first_name : Text
  pub father_name : Option Text
  pub grandfather_name : Option Text
  pub family_name : Option Text
  pub laqab : Option Text
  pub gender : Gender
  pub birth_date : Option ℕ
  pub birth_place : Option Text
  pub death_date : Option ℕ
  pub is_deceased : Bool
  pub father_id : Option ℕ
  pub mother_id : Option ℕ
  pub tribal_unit_id : Option ℕ
  pub profession : Option Text
  pub biography : Option Text
  pub photo_key : Option Text
  pub version : ℕ
  pub created_by : ℕ
  pub import_batch_id : Option ℕ
  pub deleted_at : Option ℕ

-- a row of `unions`
pub record Union : Type 0 where
  pub husband_id : ℕ
  pub wife_id : ℕ
  pub marriage_date : Option ℕ
  pub status : UnionStatus
  pub end_date : Option ℕ
  pub end_reason : Option Text

-- a row of `tribal_units`
pub record TribalUnit : Type 0 where
  pub parent_id : Option ℕ
  pub unit_type : UnitType
  pub name_ar : Text
  pub name_en : Text

-- the `action` of an audit entry
pub data AuditAction : Type 0 where
  person_create person_update person_delete : AuditAction
  union_create union_update union_delete union_divorce union_widow union_remarry : AuditAction
  tribal_unit_create tribal_unit_update tribal_unit_delete : AuditAction
  cr_create cr_update cr_submit cr_review cr_published cr_conflict : AuditAction
  view_request_approve view_request_reject : AuditAction
  import_upload import_submit import_publish import_rollback : AuditAction

pub record AuditEntry : Type 0 where
  pub action : AuditAction
  pub entity_id : ℕ

-- the live data of a tenant; the next identifier stands for the random ones of the database
pub record Db : Type 0 where
  pub persons : Table Person
  pub closures : Closure
  pub unions : Table Union
  pub units : Table TribalUnit
  pub audit : List AuditEntry
  pub next_id : ℕ

pub record Env : Type 0 where
  pub now : ℕ
  pub tenant_id : ℕ
  pub user_id : Option ℕ
  -- `new Date(text)`, none where it is invalid
  pub date_of : Text → Option ℕ
  -- the text of an identifier
  pub show_id : ℕ → Text
  -- `sanitizeBiography`
  pub sanitize : Text → Text
  -- `similarity(a, b) >= threshold` in the database
  pub similar : Text → Text → Bool

-- `deletedAt: null`
abbrev pub is_live : Person → Bool
is_live p = not (is_some p.deleted_at)

abbrev pub live_only : Option Person → Option Person
live_only none = none
live_only (some p) = if is_live p then some p else none

-- `person.findFirst({ where: { id, deletedAt: null } })`
abbrev pub find_live : Db → ℕ → Option Person
find_live db id = live_only (db.persons.at id)

-- `audit.recordTx`
abbrev pub record_audit : AuditAction → ℕ → M Db (Unit {0})
record_audit action id =
    modify (λ db. record db { audit = record { action = action; entity_id = id } ∷ db.audit })
