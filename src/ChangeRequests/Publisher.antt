-- ===== src/ChangeRequests/Publisher.antt =====
-- change-request.publisher.ts `apply`: the request goes to the writer of what it is about.
use tftsp.Common.{M, return}
use tftsp.Domain.{ChangeTargetType, person, union, tribal_unit, import_batch}
use tftsp.Database.{Env, Db}
use tftsp.ChangeRequests.Requests.{ChangeRequest, PublishOutcome, in_conflict}
use tftsp.ChangeRequests.PublishPerson.{apply_person}
use tftsp.ChangeRequests.PublishUnion.{apply_union}
use tftsp.ChangeRequests.PublishUnit.{apply_tribal_unit}

-- the `switch` on what the request is about
abbrev pub apply_to : Env → ChangeRequest → ChangeTargetType → M Db PublishOutcome
apply_to env cr person = apply_person env cr
apply_to env cr union = apply_union env cr
apply_to env cr tribal_unit = apply_tribal_unit env cr
apply_to env cr import_batch = return in_conflict

unfoldable pub apply : Env → ChangeRequest → M Db PublishOutcome
unfolding apply_person apply_union apply_tribal_unit
apply env cr = apply_to env cr cr.target_type
