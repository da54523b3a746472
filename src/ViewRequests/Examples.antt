-- ===== src/ViewRequests/Examples.antt =====
-- A request to tenant 7 that is approved and then cannot be rejected.
use tftsp.Common.{◌≡◌, refl, none, some, [], text, empty_table, false}
use tftsp.Visibility.Context.{tribe_members}
use tftsp.Persons.Sample.{example_env}
use tftsp.ViewRequests.{
  approved, Site, ViewRequest, create_view_request, approve_view_request, get_pending, grant_viewer,
  admin_user_ids,
}
use tftsp.ViewRequests.Lifecycle.{Call, create, approve, reject, done, call, after_call}
use tftsp.ViewRequests.Deciding.{IsFair, after_call-IsFair, decided-stays}

abbrev empty_site : Site
empty_site = record {
  tenant_of = λ slug. some 7;
  settings = λ tenant.
      some (record { require_id_for_view_request = false; default_member_scope = tribe_members });
  requests = empty_table;
  grants = [];
  notifications = [];
  audit = [];
  next_id = 1;
}

empty_site-IsFair : IsFair empty_site
empty_site-IsFair = record { fresh = λ x h. refl; rows = λ x r e. cc }

abbrev ask : Call
ask = create (record {
  tenant_slug = text "tribe";
  full_name = text "Adam";
  phone = text "1";
  alleged_branch = none;
  reason = text "kin";
  id_attachment_key = none;
})

abbrev asked : Site
asked = after_call example_env ask empty_site

abbrev allowed : Site
allowed = after_call example_env (approve 7 8 1 5000) asked

asked-IsFair : IsFair asked
asked-IsFair = after_call-IsFair example_env ask empty_site empty_site-IsFair

after_call-IsFair_example : IsFair allowed
after_call-IsFair_example = after_call-IsFair example_env (approve 7 8 1 5000) asked asked-IsFair

abbrev approved_row : ViewRequest
approved_row = record {
  tenant_id = 7;
  full_name = text "Adam";
  phone = text "1";
  alleged_branch = none;
  reason = text "kin";
  id_attachment_key = none;
  status = approved;
  reviewed_by = some 8;
  granted_user = some 2;
  valid_to = some 5000;
}

decided-stays_example :
    (after_call example_env (reject 7 9 1) allowed).requests.at 1 ≡ some approved_row
unfolding after_call create_view_request approve_view_request get_pending grant_viewer
    admin_user_ids
decided-stays_example =
    decided-stays (call example_env (reject 7 9 1) refl done)
      (after_call-IsFair example_env (approve 7 8 1 5000) asked asked-IsFair) 1 approved_row refl
      refl
